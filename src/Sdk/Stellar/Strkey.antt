-- ===== src/Sdk/Stellar/Strkey.antt =====
-- `isStellarAddress` and `decodeStrkey` accept the same texts.
use perihelion.Prelude.{
  ℕ, ◌+◌, ◌-◌, ◌*◌, ◌/◌, ◌%◌, ◌^◌, ◌≤◌, ◌<◌, ◌≡◌, true, false, ◌&&◌, ◌||◌, List, [], ◌∷◌, ◌++◌,
  some, length, ◌==◌, get_elem?, is_some, arith, Option-cases, Bool-cases, ◌≢◌, inl, inr,
  length-append,
}
use perihelion.Prelude.Text.{Text}
use perihelion.Sdk.Stellar.{
  base32_alphabet, index_of, base32_loop, base32_decode, byte_at, has_checksum, is_valid_strkey,
  starts_with, is_stellar_address, decode_strkey,
}

get_elem?-index_of : (c i : ℕ) (s : Text) → index_of c s ≡ some i → get_elem? s i ≡ some c
unfolding index_of
get_elem?-index_of c i [] e = cc
get_elem?-index_of c i (d ∷ s) e = elim (Bool-cases (d == c)) [
  | inl same ↦ ground arith
  | inr other ↦ elim (Option-cases (index_of c s)) [
    | inl n ↦ ground arith
    | inr (j, f) ↦ ground (arith, get_elem?-index_of c j s f)
  ]
]

index_of-lt : (c i : ℕ) (s : Text) → index_of c s ≡ some i → i < length s
unfolding index_of
index_of-lt c i [] e = cc
index_of-lt c i (d ∷ s) e = elim (Option-cases (index_of c s)) [
  | inl n ↦ ground arith
  | inr (j, f) ↦ ground (arith, index_of-lt c j s f)
]

-- Five bits come in with each unit, and eight go out with each byte.
length-base32_loop :
    (s : Text) (buf bits : ℕ) (out r : List ℕ)
    → bits < 8
    → base32_loop s buf bits out ≡ some r
    → (8 * length r ≤ 5 * length s + bits + 8 * length out)
      × (5 * length s + bits + 8 * length out < 8 * length r + 8)
unfolding base32_loop
length-base32_loop [] buf bits out r h e = ground arith
length-base32_loop (c ∷ s) buf bits out r h e = elim (Option-cases (index_of c base32_alphabet)) [
  | inl n ↦ ground arith
  | inr (v, f) ↦
      let buf' = buf * 2 ^ 5 % 2 ^ 32 + v in
      let b = buf' / 2 ^ (bits + 5 - 8) % 2 ^ 8 in
      ground (
        arith,
        length-base32_loop s buf' (bits + 5) out r,
        length-base32_loop s buf' (bits + 5 - 8) (out ++ b ∷ []) r,
        length-append out (b ∷ []),
      )
]

base32_loop_head :
    (s : Text) (buf bits b : ℕ) (out r : List ℕ)
    → base32_loop s buf bits (b ∷ out) ≡ some r
    → byte_at r 0 ≡ b
unfolding base32_loop
base32_loop_head [] buf bits b out r e = ground arith
base32_loop_head (c ∷ s) buf bits b out r e = elim (Option-cases (index_of c base32_alphabet)) [
  | inl n ↦ ground arith
  | inr (v, f) ↦
      let buf' = buf * 2 ^ 5 % 2 ^ 32 + v in
      let x = buf' / 2 ^ (bits + 5 - 8) % 2 ^ 8 in
      ground (
        arith,
        base32_loop_head s buf' (bits + 5) b out r,
        base32_loop_head s buf' (bits + 5 - 8) b (out ++ x ∷ []) r,
      )
]

-- The first unit of a text is the upper five bits of the first byte.
base32_loop_first :
    (c d : ℕ) (s : Text) (r : List ℕ)
    → base32_loop (c ∷ d ∷ s) 0 0 [] ≡ some r
    → get_elem? base32_alphabet (byte_at r 0 / 8) ≡ some c
unfolding base32_loop
base32_loop_first c d s r e = elim (Option-cases (index_of c base32_alphabet)) [
  | inl n ↦ ground arith
  | inr (v, f) ↦ elim (Option-cases (index_of d base32_alphabet)) [
    | inl n ↦ ground arith
    | inr (w, g) ↦
        let lv = index_of-lt c v base32_alphabet f in
        let lw = index_of-lt d w base32_alphabet g in
        let buf = (0 * 2 ^ 5 % 2 ^ 32 + v) * 2 ^ 5 % 2 ^ 32 + w in
        let same : byte_at r 0 / 8 ≡ v =
          ground (arith, lv, lw, base32_loop_head s buf 2 (buf / 2 ^ 2 % 2 ^ 8) [] r) in
        rw same (get_elem?-index_of c v base32_alphabet f)
  ]
]

-- The checks that the two functions share, in one place.
strkey_version :
    (value : Text) (r : List ℕ)
    → base32_decode value ≡ some r
    → length value ≡ 56
    → (length r ≡ 35)
      × (byte_at r 0 ≡ 0x30 → starts_with b'G' value ≡ true)
      × (byte_at r 0 ≡ 0x10 → starts_with b'C' value ≡ true)
unfolding base32_decode
strkey_version [] r e n = absurd (omega arith)
strkey_version (c ∷ []) r e n = absurd (omega arith)
strkey_version (c ∷ d ∷ s) r e n =
    let loop : base32_loop (c ∷ d ∷ s) 0 0 [] ≡ some r = ground arith in
    let first = base32_loop_first c d s r loop in
    let len = length-base32_loop (c ∷ d ∷ s) 0 0 [] r (omega arith) loop in
    (
      omega (arith, len),
      (λ v. let up : byte_at r 0 / 8 ≡ 6 = omega (arith, v) in ground (arith, rw up at first)),
      (λ v. let up : byte_at r 0 / 8 ≡ 2 = omega (arith, v) in ground (arith, rw up at first)),
    )

length_of_decoded :
    (value : Text) (r : List ℕ) → base32_decode value ≡ some r → length r ≡ 35 → length value ≡ 56
unfolding base32_decode
length_of_decoded value r e n = ground (arith, length-base32_loop value 0 0 [] r)

starts_with_one :
    (a b : ℕ) (value : Text) → starts_with a value ≡ true → starts_with b value ≡ true → a ≡ b
starts_with_one a b [] p q = cc
starts_with_one a b (c ∷ s) p q = ground arith

address_of_version :
    (value : Text) (r : List ℕ)
    → base32_decode value ≡ some r
    → length value ≡ 56
    → is_stellar_address value ≡ ((byte_at r 0 == 0x30 || byte_at r 0 == 0x10) && has_checksum r)
unfolding is_stellar_address is_valid_strkey
address_of_version value r e n =
    let (len, g, c) = strkey_version value r e n in
    let one = starts_with_one b'G' b'C' value in
    elim (Bool-cases (byte_at r 0 == 0x30)) [
      | inl v ↦ let h = g (ground arith) in ground arith
      | inr v ↦ elim (Bool-cases (byte_at r 0 == 0x10)) [
        | inl w ↦ let h = c (ground arith) in ground arith
        | inr w ↦ ground arith
      ]
    ]

decode_of_version :
    (value : Text) (r : List ℕ)
    → base32_decode value ≡ some r
    → length r ≡ 35
    → ((byte_at r 0 == 0x30 || byte_at r 0 == 0x10) && has_checksum r)
      ≡ is_some (decode_strkey value)
unfolding decode_strkey
decode_of_version value r e len = ground arith

undecoded :
    (value : Text) (r : List ℕ)
    → base32_decode value ≡ some r
    → length r ≢ 35
    → false ≡ is_some (decode_strkey value)
unfolding decode_strkey
undecoded value r e len = ground arith

-- A text is a valid Stellar address exactly when `decodeStrkey` decodes it.
pub is_stellar_address-decode_strkey :
    (value : Text) → is_stellar_address value ≡ is_some (decode_strkey value)
unfolding is_stellar_address decode_strkey is_valid_strkey
is_stellar_address-decode_strkey value = elim (Option-cases (base32_decode value)) [
  | inl n ↦ ground arith
  | inr (r, e) ↦ elim (Bool-cases (length value == 56)) [
    | inl n ↦
        let len : length r ≡ 35 = (strkey_version value r e (ground arith)).0 in
        rw (address_of_version value r e (ground arith)) (decode_of_version value r e len)
    | inr n ↦
        rw (n, is_stellar_address)
          (undecoded value r e (λ len. ground (arith, length_of_decoded value r e len)))
  ]
]
