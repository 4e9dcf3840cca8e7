-- ===== src/Relayer/Wire.antt =====
-- The wire formats of relayer/src/evm-watcher.ts: the FillInstruction that it rebuilds from a
-- `Locked` event, and the nonce in the header of a LayerZero packet. The UTF-8 encoder of Node is a
-- parameter.
pub mod Layout
pub mod Packets
use perihelion.Prelude.{
  ℕ, ◌-◌, ◌*◌, ◌+◌, Bool, true, false, ◌&&◌, ◌||◌, not, List, [], ◌∷◌, ◌++◌, Option, none, some,
  length, take, drop, ltb, leb, ◌==◌, if◌then◌else◌,
}
use perihelion.Prelude.Int.{ℤ, pos, pos_part, ltb_ℤ}
use perihelion.Prelude.Text.{Text, codes, is_hex_digit, all_units, text_eq, text_discrete}
use perihelion.Prelude.Result.{Result, err, ok, require, ◌>>◌}
use perihelion.Sdk.Signature.{hex_value}
use perihelion.Sdk.Bytes.{zeros, copy_at, hex_bytes, to_hex, hex_text, pad_start, be_bytes}

abbrev pub fill_instruction_length : ℕ
fill_instruction_length = 227

pub data WireError : Type 0 where
  invalid_intent_hash invalid_solver invalid_eid bad_amount bad_deadline too_wide : WireError

-- `/^0x[0-9a-fA-F]{n}$/`.
unfoldable pub is_hex_string : ℕ → Text → Bool
unfolding all_units text_discrete
is_hex_string n s =
    text_eq (take 2 s) (codes "0x") && length s == n + 2 && all_units is_hex_digit (drop 2 s)

-- The fields of the 227 bytes, each copied to its place.
unfoldable pub fill_bytes : Text → Text → ℕ → List ℕ → List ℕ → ℕ → ℕ → List ℕ
fill_bytes intent_hash solver eid recipient asset amount deadline =
    let start = copy_at 0 (1 ∷ 1 ∷ []) (zeros fill_instruction_length) in
    let hashed = copy_at 2 (hex_bytes (drop 2 intent_hash)) start in
    let to_chain = copy_at 34 (be_bytes 4 eid) hashed in
    let to_account = copy_at 38 recipient to_chain in
    let of_asset = copy_at 94 asset to_account in
    let of_amount = copy_at 163 (hex_bytes (pad_start 32 b'0' (hex_text amount))) of_asset in
    let until = copy_at 179 (hex_bytes (pad_start 16 b'0' (hex_text deadline))) of_amount in
    copy_at 199 (hex_bytes (drop 2 solver)) until

module _ (utf8 : Text → List ℕ) where
  unfoldable pub canonical_fill_instruction :
      Text → Text → ℕ → Text → Text → ℤ → ℤ → Result WireError Text
  canonical_fill_instruction intent_hash solver eid destination dest_asset amount deadline =
      require (is_hex_string 64 intent_hash) invalid_intent_hash
      >> require (is_hex_string 40 solver) invalid_solver
      >> require (leb eid 0xffffffff) invalid_eid
      >> require
          (not (ltb_ℤ amount (pos 0) || ltb_ℤ (pos 0xffffffffffffffffffffffffffffffff) amount))
          bad_amount
      >> require (not (ltb_ℤ deadline (pos 0) || ltb_ℤ (pos 0xffffffffffffffff) deadline))
          bad_deadline
      >> require (not (ltb 56 (length (utf8 destination)) || ltb 69 (length (utf8 dest_asset))))
          too_wide
      >> ok (
          codes "0x"
          ++ to_hex (
              fill_bytes intent_hash solver eid (utf8 destination) (utf8 dest_asset)
                (pos_part amount) (pos_part deadline)))

abbrev pub packet_nonce_offset : ℕ
packet_nonce_offset = 1

abbrev pub packet_nonce_width : ℕ
packet_nonce_width = 8

abbrev without_prefix : Text → Text
without_prefix s = if text_eq (take 2 s) (codes "0x") then drop 2 s else s

-- `decodePacketNonce`: the error is the one that `BigInt` throws, `none` is a payload too short.
unfoldable pub decode_packet_nonce : Text → Result Text (Option ℕ)
unfolding text_discrete hex_value
decode_packet_nonce payload =
    let hex = without_prefix payload in
    let header = packet_nonce_offset + packet_nonce_width in
    if ltb (length hex) (header * 2)
    then ok none
    else elim (hex_value 0
        (take (header * 2 - packet_nonce_offset * 2) (drop (packet_nonce_offset * 2) hex))) [
          | none ↦ err (codes "SyntaxError")
          | some nonce ↦ ok (some nonce)
        ]
