-- ===== src/Sdk/Stellar.antt =====
-- sdk/src/stellar.ts: strkeys (Base32 with a CRC-16 checksum) and asset identifiers. Bytes are
-- numbers below 256; the 32-bit registers of `crc16` and `base32Decode` are kept modulo 2 ^ 32.
pub mod Strkey
use Prim.Native.Nat.{bit_xor}
use perihelion.Prelude.{
  ℕ, zero, suc, ◌+◌, ◌-◌, ◌*◌, ◌/◌, ◌%◌, ◌^◌, ◌≡◌, refl, Bool, true, false, ◌&&◌, ◌||◌, not, List,
  [], ◌∷◌, ◌++◌, Option, none, some, length, take, drop, ltb, leb, ◌==◌, if◌then◌else◌, get_elem?,
}
use perihelion.Prelude.Text.{Text, codes, text_eq, text_discrete, is_digit, all_units}

abbrev pub base32_alphabet : Text
base32_alphabet = codes "ABCDEFGHIJKLMNOPQRSTUVWXYZ234567"

-- `crc & 0x8000 ? (crc << 1) ^ 0x1021 : crc << 1`.
unfoldable pub crc_shift : ℕ → ℕ
crc_shift crc =
    let doubled = crc * 2 % 2 ^ 32 in
    if crc / 2 ^ 15 % 2 == 1 then bit_xor doubled 0x1021 else doubled

unfoldable pub crc_shifts : ℕ → ℕ → ℕ
unfolding crc_shift
crc_shifts zero crc = crc
crc_shifts (suc n) crc = crc_shifts n (crc_shift crc)

unfoldable pub crc_loop : List ℕ → ℕ → ℕ
unfolding crc_shifts
crc_loop [] crc = crc
crc_loop (byte ∷ bytes) crc = crc_loop bytes (crc_shifts 8 (bit_xor crc (byte * 2 ^ 8)))

unfoldable pub crc16 : List ℕ → ℕ
unfolding crc_loop
crc16 bytes = crc_loop bytes 0 % 2 ^ 16

-- `s.indexOf(ch)` of a single unit.
unfoldable pub index_of : ℕ → Text → Option ℕ
index_of c [] = none
index_of c (d ∷ s) =
    if d == c then some 0 else elim (index_of c s) [ none ↦ none | some i ↦ some (suc i) ]

unfoldable pub base32_loop : Text → ℕ → ℕ → List ℕ → Option (List ℕ)
unfolding index_of
base32_loop [] buf bits_left out = some out
base32_loop (ch ∷ input) buf bits_left out = elim (index_of ch base32_alphabet) [
  | none ↦ none
  | some val ↦
      let buf' = buf * 2 ^ 5 % 2 ^ 32 + val in
      let bits = bits_left + 5 in
      base32_loop input buf' (if leb 8 bits then bits - 8 else bits)
        (if leb 8 bits then out ++ (buf' / 2 ^ (bits - 8) % 2 ^ 8) ∷ [] else out)
]

unfoldable pub base32_decode : Text → Option (List ℕ)
unfolding base32_loop
base32_decode input = if length input * 5 % 8 == 0 then base32_loop input 0 0 [] else none

-- `bytes[i]`, where the source has checked the length.
abbrev pub byte_at : List ℕ → ℕ → ℕ
byte_at bytes i = elim (get_elem? bytes i) [ none ↦ 0 | some b ↦ b ]

-- The last two bytes, the lower one first.
unfoldable pub checksum_of : List ℕ → ℕ
checksum_of bytes = byte_at bytes (length bytes - 2) + byte_at bytes (length bytes - 1) * 2 ^ 8

unfoldable pub has_checksum : List ℕ → Bool
unfolding crc16 checksum_of
has_checksum bytes = crc16 (take (length bytes - 2) bytes) == checksum_of bytes

unfoldable pub is_valid_strkey : Text → ℕ → Bool
unfolding base32_decode has_checksum
is_valid_strkey value version = elim (base32_decode value) [
  | none ↦ false
  | some decoded ↦
      if ltb (length decoded) 3
      then false
      else if byte_at decoded 0 == version
      then has_checksum decoded
      else false
]

abbrev pub starts_with : ℕ → Text → Bool
starts_with c [] = false
starts_with c (d ∷ s) = d == c

unfoldable pub is_stellar_address : Text → Bool
unfolding is_valid_strkey
is_stellar_address value =
    if length value == 56
    then if starts_with b'G' value
      then is_valid_strkey value 0x30
      else if starts_with b'C' value
      then is_valid_strkey value 0x10
      else false
    else false

unfoldable pub decode_strkey : Text → Option (ℕ × List ℕ)
unfolding base32_decode has_checksum
decode_strkey value = elim (base32_decode value) [
  | none ↦ none
  | some decoded ↦
      if length decoded == 35
      then if byte_at decoded 0 == 0x30 || byte_at decoded 0 == 0x10
        then if has_checksum decoded
          then some (byte_at decoded 0, take 32 (drop 1 decoded))
          else none
        else none
      else none
]

-- `[A-Za-z0-9]`.
unfoldable pub is_alphanumeric : ℕ → Bool
unfolding is_digit
is_alphanumeric c = is_digit c || (leb b'a' c && leb c b'z') || (leb b'A' c && leb c b'Z')

-- `/^[A-Za-z0-9]{1,12}$/`.
unfoldable pub is_asset_code : Text → Bool
unfolding is_alphanumeric all_units
is_asset_code code = ltb 0 (length code) && leb (length code) 12 && all_units is_alphanumeric code

unfoldable pub is_stellar_asset : Text → Bool
unfolding is_valid_strkey is_asset_code index_of text_discrete
is_stellar_asset value =
    if text_eq value (codes "native") then true else elim (index_of b':' value) [
      | none ↦ length value == 56 && starts_with b'C' value && is_valid_strkey value 0x10
      | some colon ↦
          let issuer = drop (colon + 1) value in
          if is_asset_code (take colon value)
          then length issuer == 56 && starts_with b'G' issuer && is_valid_strkey issuer 0x30
          else false
    ]

-- A strkey of the repository's tests.
abbrev pub sample_address : Text
sample_address = codes "GA5ZSEJYB37JRC5AVCIA5MOP4RHTM335X2KGX3IHOJAPP5RE34K4KZVN"

sample_address_valid : is_stellar_address sample_address ≡ true
unfolding is_stellar_address
sample_address_valid = refl
