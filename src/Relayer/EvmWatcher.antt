-- ===== src/Relayer/EvmWatcher.antt =====
-- relayer/src/evm-watcher.ts: decoding `Locked` logs and the transport nonce. viem's ABI decoder
-- and RPC client and Node's UTF-8 encoder are parameters; block numbers and nonces are below 2 ^ 53,
-- where a JavaScript number is exact. `Number` of a decimal deadline stands for the text that the
-- source stores. The refund scan and the decoder of cancellations are left out: they name fields
-- and constants that the package does not declare.
pub mod Poll
use perihelion.Prelude.{
  ℕ, zero, suc, ◌+◌, ◌*◌, Bool, true, false, ◌&&◌, ◌||◌, not, List, [], ◌∷◌, ◌++◌, Option, none,
  some, length, drop, ltb, ◌==◌, if◌then◌else◌, or_default, get_elem?,
}
use perihelion.Prelude.Int.{ℤ, pos, pos_part}
use perihelion.Prelude.JsMap
use perihelion.Prelude.JsMap.{JsMap}
use perihelion.Prelude.Text.{Text, codes, text_eq, text_key, text_discrete, to_lower_case}
use perihelion.Prelude.Result.{Result, err, ok}
use perihelion.Sdk.Decimal.{to_text}
use perihelion.Relayer.Types.{BridgeMessage, PendingMessage, fill_instruction}
use perihelion.Relayer.Wire.{canonical_fill_instruction, decode_packet_nonce, is_hex_string}

pub record Log : Type 0 where
  pub block_number : Option ℕ
  pub transaction_hash : Option Text
  pub log_index : Option ℕ
  pub event_name : Option Text
  pub topics : List Text
  pub payload : Text

-- The decoded data of a `Locked` event, less the asset and the amount.
pub record LockedData : Type 0 where
  pub destination : Text
  pub dest_asset : Text
  pub min_dest_amount : ℤ
  pub deadline : ℤ

pub record ReceiptLog : Type 0 where
  pub address : Text
  pub topics : List Text
  pub payload : Text

-- The configured counter is given by its k-th answer, the receipt of a transaction by what the
-- client returns in time.
pub record Config : Type 0 where
  pub source_eid : ℕ
  pub stellar_eid : ℕ
  pub endpoint_address : Option Text
  pub nonce_counter : Option (Text → ℕ → ℕ)

-- What resolving a nonce changes: the map `fallbackNonces` and the calls of the counter so far.
pub record Nonces : Type 0 where
  pub fallback : JsMap Text ℕ
  pub counter_calls : ℕ

pub record Watcher : Type 0 where
  pub max_block_range : ℕ
  pub nonces : Nonces

pub data RefundKind : Type 0 where
  refunded refunded_local_timeout : RefundKind

pub record RefundObservation : Type 0 where
  pub intent_hash : Text
  pub kind : RefundKind
  pub block_number : ℕ
  pub transaction_hash : Text
  pub log_index : ℕ

-- The kind that an event name stands for.
abbrev pub refund_kind : Option Text → RefundKind
refund_kind none = refunded
refund_kind (some name) =
    if text_eq name (codes "RefundedLocalTimeout") then refunded_local_timeout else refunded

unfoldable pub decode_refund_log : Log → Option RefundObservation
unfolding is_hex_string
decode_refund_log log = elim log.block_number [
  | none ↦ none
  | some block ↦ elim (get_elem? log.topics 1) [
    | none ↦ none
    | some intent_hash ↦
        if is_hex_string 64 intent_hash
        then some (record {
          intent_hash = intent_hash;
          kind = refund_kind log.event_name;
          block_number = block;
          transaction_hash = or_default log.transaction_hash (codes "0x");
          log_index = or_default log.log_index 0;
        })
        else none
  ]
]

unfoldable pub next_fallback_nonce : Text → Nonces → ℕ × Nonces
next_fallback_nonce path_key n =
    let next = or_default (JsMap.get path_key n.fallback) 0 + 1 in
    (next, record n { fallback = JsMap.set path_key next n.fallback })

abbrev pub path_key : Config → Text
path_key config = to_text config.source_eid ++ b':' ∷ to_text config.stellar_eid

unfoldable pub next_nonce : Config → Nonces → ℕ × Nonces
next_nonce config n = elim config.nonce_counter [
  | none ↦ next_fallback_nonce (path_key config) n
  | some next ↦
      (next (path_key config) n.counter_calls, record n { counter_calls = n.counter_calls + 1 })
]

module _ (utf8 : Text → List ℕ) (decode_locked : Text → Option LockedData)
    (decode_packet : Text → Option Text) (receipt : Text → Option (List ReceiptLog))
    (config : Config) where
  abbrev locked_message : Text → Text → LockedData → Text → BridgeMessage
  locked_message intent_hash solver d payload = record {
    src_eid = config.source_eid;
    dst_eid = config.stellar_eid;
    intent_hash = intent_hash;
    message_type = fill_instruction;
    solver = solver;
    recipient = d.destination;
    dest_asset = d.dest_asset;
    amount = to_text (pos_part d.min_dest_amount);
    nonce = 0;
    deadline = pos_part d.deadline;
    raw_payload = payload;
  }

  -- A log at a block: `none` is the source's `null`, the error is what building the payload throws.
  unfoldable pub locked_at : ℕ → Log → Result Text (Option PendingMessage)
  locked_at block log = elim (get_elem? log.topics 1) [
    | none ↦ ok none
    | some intent_hash ↦ elim (get_elem? log.topics 2) [
      | none ↦ ok none
      | some solver_topic ↦ elim (get_elem? log.topics 3) [
        | none ↦ ok none
        | some user ↦ elim (decode_locked log.payload) [
          | none ↦ ok none
          | some d ↦
              let solver = codes "0x" ++ drop 26 solver_topic in
              elim (canonical_fill_instruction utf8 intent_hash solver config.stellar_eid
                d.destination d.dest_asset d.min_dest_amount d.deadline) [
                  | err e ↦ err (codes "invalid payload")
                  | ok payload ↦ ok (
                      some (record {
                        message = locked_message intent_hash solver d payload;
                        src_tx_hash = or_default log.transaction_hash [];
                        src_block = block;
                        src_block_hash = none;
                      }))
                ]
        ]
      ]
    ]
  ]

  -- `!log.blockNumber` holds of block 0 too.
  unfoldable pub decode_locked_log : Log → Result Text (Option PendingMessage)
  unfolding locked_at
  decode_locked_log log = elim log.block_number [
    | none ↦ ok none
    | some zero ↦ ok none
    | some (suc block) ↦ locked_at (suc block) log
  ]

  -- The loop over the logs of a receipt. A log without topics, of another contract, that does not
  -- decode or whose nonce does not, is skipped.
  unfoldable pub packet_nonce_in : Text → List ReceiptLog → Option ℕ
  packet_nonce_in endpoint [] = none
  packet_nonce_in endpoint (l ∷ logs) =
      let rest = packet_nonce_in endpoint logs in
      if not (text_eq (to_lower_case l.address) endpoint) || length l.topics == 0
      then rest
      else elim (decode_packet l.payload) [
        | none ↦ rest
        | some encoded ↦ elim (decode_packet_nonce encoded) [
          | err e ↦ rest
          | ok none ↦ rest
          | ok (some nonce) ↦ some nonce
        ]
      ]

  -- `fetchPacketSentNonce` under its caller's tests; the empty texts are falsy.
  unfoldable pub packet_sent_nonce : Log → Option ℕ
  packet_sent_nonce log = elim config.endpoint_address [
    | none ↦ none
    | some [] ↦ none
    | some (c ∷ endpoint) ↦ elim log.transaction_hash [
      | none ↦ none
      | some [] ↦ none
      | some (d ∷ tx) ↦ elim (receipt (d ∷ tx)) [
        | none ↦ none
        | some logs ↦ packet_nonce_in (to_lower_case (c ∷ endpoint)) logs
      ]
    ]
  ]

  unfoldable pub resolve_transport_nonce : Log → Nonces → ℕ × Nonces
  resolve_transport_nonce log n = elim (packet_sent_nonce log) [
    | some nonce ↦ (nonce, n)
    | none ↦ let (next, m) = next_nonce config n in (if next == 0 then 1 else next, m)
  ]

  -- A log that is not decoded costs no nonce.
  unfoldable pub decode_locked_log_with_nonce :
      Log → Nonces → Result Text (Option (PendingMessage × Nonces))
  decode_locked_log_with_nonce log n = elim (decode_locked_log log) [
    | err e ↦ err e
    | ok none ↦ ok none
    | ok (some base) ↦
        let (nonce, m) = resolve_transport_nonce log n in
        ok (some (record base { message = record base.message { nonce = nonce } }, m))
  ]
