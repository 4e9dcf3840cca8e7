-- ===== src/Relayer/SorobanDelivery/Payload.antt =====
-- The bytes that reach the contract are those that the watcher has packed.
use perihelion.Prelude.{
  ℕ, suc, ◌+◌, ◌*◌, ◌/◌, ◌%◌, ◌<◌, ◌≡◌, refl, true, List, [], ◌∷◌, ◌++◌, some, All, arith, length,
  leb, ◌==◌, if◌then◌else◌, Bool-cases, inl, inr, false,
}
use perihelion.Prelude.Text.{codes, is_hex_digit, all_units, text_discrete}
use perihelion.Prelude.Result.{ok, err}
use perihelion.Sdk.Bytes.{to_hex, hex_bytes}
use perihelion.Sdk.Bytes.Laws.{hex_digit_lem}
use perihelion.Relayer.Types.{BridgeMessage}
use perihelion.Relayer.SorobanDelivery.{
  append_lz_receive_call, invalid_payload_length, expected_length, has_deadline, is_hex,
}

abbrev IsByte : ℕ → Type 0
IsByte b = b < 256

pair_value : (b : ℕ) → b / 16 * 16 + b % 16 ≡ b
pair_value b = omega arith

hex_bytes-to_hex : (bs : List ℕ) → All IsByte bs → hex_bytes (to_hex bs) ≡ bs
unfolding to_hex hex_bytes
hex_bytes-to_hex [] h = refl
hex_bytes-to_hex (b ∷ bs) h =
    let (u, v) = hex_digit_lem (b / 16) (omega (arith, h)) in
    let (x, y) = hex_digit_lem (b % 16) (omega arith) in
    rw (v, y, u, x, hex_bytes-to_hex bs h.1, pair_value b) refl

length-to_hex : (bs : List ℕ) → length (to_hex bs) ≡ 2 * length bs
unfolding to_hex
length-to_hex [] = refl
length-to_hex (b ∷ bs) = omega (arith, length-to_hex bs)

all_units-to_hex : (bs : List ℕ) → All IsByte bs → all_units is_hex_digit (to_hex bs) ≡ true
unfolding to_hex all_units
all_units-to_hex [] h = refl
all_units-to_hex (b ∷ bs) h =
    let (u, v) = hex_digit_lem (b / 16) (omega (arith, h)) in
    let (x, y) = hex_digit_lem (b % 16) (omega arith) in rw (v, y, all_units-to_hex bs h.1) refl

is_hex-to_hex :
    (bs : List ℕ) → All IsByte bs → 0 < length bs → is_hex (codes "0x" ++ to_hex bs) ≡ true
unfolding is_hex text_discrete
is_hex-to_hex bs h pos =
    let enough : leb 3 (suc (suc (length (to_hex bs)))) ≡ true = ground (arith, length-to_hex bs) in
    rw (all_units-to_hex bs h, enough) refl

-- A message whose payload is the text of some bytes, and that has a deadline where it needs one,
-- is given to the contract with the trusted peer and exactly those bytes if they are 227 for a
-- FillInstruction and 35 for any other type, a FillConfirmed too, and is refused for its length
-- otherwise.
pub append_lz_receive_call-to_hex :
    (message : BridgeMessage) (sender bs : List ℕ)
    → message.raw_payload ≡ codes "0x" ++ to_hex bs
    → All IsByte bs
    → 0 < length bs
    → has_deadline message ≡ true
    → append_lz_receive_call message (some sender) ≡ (
        if length bs == expected_length message.message_type
        then ok (sender, bs)
        else err invalid_payload_length)
unfolding append_lz_receive_call
append_lz_receive_call-to_hex message sender bs e h pos d =
    let n = expected_length message.message_type in
    let size : length (codes "0x" ++ to_hex bs) ≡ 2 * length bs + 2 =
      omega (arith, length-to_hex bs) in
    elim (Bool-cases (length bs == n)) [
      | inl l ↦
          let right : (length (codes "0x" ++ to_hex bs) == 2 * n + 2) ≡ true =
            ground (arith, size) in
          rw (d, e, is_hex-to_hex bs h pos, right, l, hex_bytes-to_hex bs h, append_lz_receive_call)
            refl
      | inr l ↦
          let wrong : (length (codes "0x" ++ to_hex bs) == 2 * n + 2) ≡ false =
            ground (arith, size) in
          rw (d, e, is_hex-to_hex bs h pos, wrong, l, append_lz_receive_call) refl
    ]
