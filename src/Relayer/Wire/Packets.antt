-- ===== src/Relayer/Wire/Packets.antt =====
-- Reading the nonce of a packet that LayerZero's header layout describes.
use perihelion.Prelude.{
  ℕ, zero, suc, ◌+◌, ◌*◌, ◌/◌, ◌%◌, ◌^◌, ◌<◌, ◌≡◌, refl, ap, ◌∙◌, List, [], ◌∷◌, ◌++◌, some, All,
  arith,
}
use perihelion.Prelude.Text.{codes}
use perihelion.Prelude.Result.{ok}
use perihelion.Sdk.Signature.{hex_value}
use perihelion.Sdk.Bytes.{hex_digit, to_hex, be_bytes, be_value}
use perihelion.Sdk.Bytes.Laws.{hex_value-digit}
use perihelion.Relayer.Wire.{decode_packet_nonce}

abbrev IsByte : ℕ → Type 0
IsByte b = b < 256

hex_value-to_hex :
    (acc : ℕ) (bs : List ℕ) → All IsByte bs → hex_value acc (to_hex bs) ≡ some (be_value acc bs)
unfolding to_hex be_value hex_value
hex_value-to_hex acc [] h = refl
hex_value-to_hex acc (b ∷ bs) h =
    hex_value-digit acc (b / 16) (hex_digit (b % 16) ∷ to_hex bs) (omega (arith, h))
    ∙ hex_value-digit (acc * 16 + b / 16) (b % 16) (to_hex bs) (omega arith)
    ∙ ap (λ k. hex_value k (to_hex bs)) (omega arith)
    ∙ hex_value-to_hex (acc * 256 + b) bs h.1

be_value-be_bytes : (n : ℕ) → n < 2 ^ 64 → be_value 0 (be_bytes 8 n) ≡ n
unfolding be_value be_bytes
be_value-be_bytes n h = omega arith

be_bytes-IsByte : (k n : ℕ) → All IsByte (be_bytes k n)
unfolding be_bytes
be_bytes-IsByte zero n = tt
be_bytes-IsByte (suc k) n = (omega arith, be_bytes-IsByte k n)

-- The nonce of a packet: whatever the version byte and whatever follows, the eight bytes behind
-- the version are read as the number that they encode.
pub decode_packet_nonce-header :
    (version n : ℕ) (rest : List ℕ)
    → n < 2 ^ 64
    → decode_packet_nonce (codes "0x" ++ to_hex (version ∷ (be_bytes 8 n ++ rest))) ≡ ok (some n)
unfolding decode_packet_nonce to_hex be_bytes
decode_packet_nonce-header version n rest h =
    rw (hex_value-to_hex 0 (be_bytes 8 n) (be_bytes-IsByte 8 n), be_value-be_bytes n h)
      (ground arith)
