-- ===== src/Relayer/Types.antt =====
-- relayer/src/types.ts: bridge messages, their composite key, the result of a relay attempt.
pub mod Keys
use perihelion.Prelude.{ℕ, Bool, Option, ◌++◌, ◌∷◌}
use perihelion.Prelude.Text.{Text, codes}
use perihelion.Sdk.Decimal.{to_text}

pub data MessageType : Type 0 where
  fill_instruction fill_confirmed cancel_intent : MessageType

pub record MessageKey : Type 0 where
  pub src_eid : ℕ
  pub dst_eid : ℕ
  pub intent_hash : Text
  pub message_type : MessageType
  pub nonce : ℕ

pub record BridgeMessage : Type 0 where
  pub src_eid : ℕ
  pub dst_eid : ℕ
  pub intent_hash : Text
  pub message_type : MessageType
  pub solver : Text
  pub recipient : Text
  pub dest_asset : Text
  pub amount : Text
  pub nonce : ℕ
  pub deadline : ℕ
  pub raw_payload : Text

pub record PendingMessage : Type 0 where
  pub message : BridgeMessage
  pub src_tx_hash : Text
  pub src_block : ℕ
  pub src_block_hash : Option Text

pub record RelayResult : Type 0 where
  pub intent_hash : Text
  pub key : MessageKey
  pub delivered : Bool
  pub resolved : Bool
  pub already_delivered : Bool
  pub dst_tx_hash : Option Text
  pub error : Option Text

-- The text of the union's member.
abbrev pub type_text : MessageType → Text
type_text fill_instruction = codes "FillInstruction"
type_text fill_confirmed = codes "FillConfirmed"
type_text cancel_intent = codes "CancelIntent"

unfoldable pub message_key_string : MessageKey → Text
message_key_string k =
    to_text k.src_eid
    ++ b':'
      ∷ (to_text k.dst_eid
          ++ b':' ∷ (k.intent_hash ++ b':' ∷ (type_text k.message_type ++ b':' ∷ to_text k.nonce)))

-- The key that `relayOne` and `tick` take from a message.
abbrev pub key_of : PendingMessage → MessageKey
key_of p = record {
  src_eid = p.message.src_eid;
  dst_eid = p.message.dst_eid;
  intent_hash = p.message.intent_hash;
  message_type = p.message.message_type;
  nonce = p.message.nonce;
}

abbrev pub key_string_of : PendingMessage → Text
key_string_of p = message_key_string (key_of p)
