-- ===== src/Relayer/SorobanWatcher.antt =====
-- relayer/src/soroban-watcher.ts. An event's topics and value are what `scValToNative` makes of
-- them, undefined if it throws. The values of `MessageType`, which the package declares as texts
-- only, and Node's UTF-8 decoder are parameters. The RPC server is given by its answers.
pub mod Windows
use perihelion.Prelude.{
  ℕ, zero, suc, ◌+◌, ◌-◌, ◌%◌, min, max, Bool, true, false, ◌&&◌, ◌||◌, List, [], ◌∷◌, ◌++◌, Option,
  none, some, length, take, drop, any, ltb, leb, ◌==◌, if◌then◌else◌, or_default, get_elem?,
}
use perihelion.Prelude.Text.{
  Text, codes, text_eq, text_discrete, to_lower_case, is_hex_digit, all_units,
}
use perihelion.Prelude.Int.{ℤ, pos, negsuc}
use perihelion.Prelude.Result.{Result, err, ok}
use perihelion.Sdk.Decimal.{to_text}
use perihelion.Sdk.Bytes.{to_hex, hex_bytes}

pub data MessageType : Type 0 where
  locked fill_confirmed cancel_intent : MessageType

-- The native values that the decoder tells apart.
mutual
  pub data Native : Type 0 where
    undefined null : Native
    number big_int : ℤ → Native
    string : Text → Native
    bytes : List ℕ → Native
    address : Text → Native
    object : Properties → Native

  pub data Properties : Type 0 where
    end : Properties
    property : Text → Native → Properties → Properties

pub record Event : Type 0 where
  pub topics : List Native
  pub value : Native
  pub ledger : ℕ
  pub tx_hash : Text

pub record PendingMessage : Type 0 where
  pub type : MessageType
  pub intent_id : Text
  pub payload : List ℕ
  pub source_ledger : ℕ
  pub source_tx_hash : Text
  pub cancellation_reason : Option Text

-- `topics[i]`.
abbrev topic : ℕ → List Native → Native
topic i topics = or_default (get_elem? topics i) undefined

-- `a ?? b` of properties.
abbrev either : Native → Native → Native
either undefined b = b
either null b = b
either a b = a

unfoldable pub read : Text → Properties → Native
unfolding text_discrete
read name end = undefined
read name (property k v rest) = let later = read name rest in if text_eq k name then v else later

-- `n.toString()`.
unfoldable pub int_text : ℤ → Text
int_text (pos n) = to_text n
int_text (negsuc n) = b'-' ∷ to_text (n + 1)

unfoldable pub coerce_intent_id : Native → Option Text
unfolding int_text to_hex
coerce_intent_id (string s) = some s
coerce_intent_id (big_int n) = some (int_text n)
coerce_intent_id (number n) = some (int_text n)
coerce_intent_id (bytes b) = some (to_hex b)
coerce_intent_id (address a) = some a
coerce_intent_id _ = none

abbrev or_else : Option Text → Option Text → Option Text
or_else none o = o
or_else (some s) o = some s

unfoldable pub extract_intent_id : Native → Native → Option Text
unfolding coerce_intent_id read
extract_intent_id topic_value (object ps) = or_else (coerce_intent_id topic_value) (
    or_else (coerce_intent_id (read (codes "intentId") ps)) (
      or_else (coerce_intent_id (read (codes "intent_id") ps))
        (coerce_intent_id (read (codes "id") ps))))
extract_intent_id topic_value _ = coerce_intent_id topic_value

abbrev without_prefix : Text → Text
without_prefix s = if text_eq (take 2 s) (codes "0x") then drop 2 s else s

unfoldable pub hex_to_bytes : Text → Option (List ℕ)
unfolding text_discrete all_units is_hex_digit hex_bytes
hex_to_bytes value =
    let normalized = without_prefix value in
    if length normalized == 0 || not_even (length normalized)
    then none
    else if all_units is_hex_digit normalized
    then some (hex_bytes normalized)
    else none
  where
    not_even : ℕ → Bool
    not_even n = n % 2 == 1

abbrev is_nullish : Native → Bool
is_nullish undefined = true
is_nullish null = true
is_nullish _ = false

abbrev or_bytes : Option (Option (List ℕ)) → Option (Option (List ℕ)) → Option (Option (List ℕ))
or_bytes none o = o
or_bytes (some r) o = some r

unfoldable mutual
  unfolding text_discrete hex_to_bytes

  pub extract_payload : Native → Option (List ℕ)
  extract_payload (bytes b) = some b
  extract_payload (string s) = hex_to_bytes s
  extract_payload (object ps) =
      or_default
        (or_bytes (extract_named (codes "payload") ps)
          (or_bytes (extract_named (codes "data") ps) (extract_named (codes "message") ps)))
        none
  extract_payload _ = none

  -- The payload in a property; the outer `none` is a property that is undefined or null.
  pub extract_named : Text → Properties → Option (Option (List ℕ))
  extract_named name end = none
  extract_named name (property k v rest) =
      let inner = extract_payload v in
      let later = extract_named name rest in
      if text_eq k name then (if is_nullish v then none else some inner) else later

-- `"packet_sent"` or `"PacketSent"`.
abbrev is_packet : Native → Bool
is_packet (string s) = text_eq s (codes "packet_sent") || text_eq s (codes "PacketSent")
is_packet _ = false

abbrev pub event_limit : ℕ
event_limit = 200

module _ (from_discriminant : ℤ → Option MessageType) (utf8_text : List ℕ → Text) where
  unfoldable pub parse_message_type : Native → Option MessageType
  unfolding to_lower_case text_discrete
  parse_message_type (number n) = from_discriminant n
  parse_message_type (string s) =
      let normalized = to_lower_case s in
      if text_eq normalized (codes "fillconfirmed") || text_eq normalized (codes "fill_confirmed")
      then some fill_confirmed
      else if text_eq normalized (codes "cancelintent")
          || text_eq normalized (codes "cancel_intent")
      then some cancel_intent
      else if text_eq normalized (codes "locked")
      then some locked
      else none
  parse_message_type _ = none

  -- `/[\u0000-\u0008\u000B\u000C\u000E-\u001F]/`.
  abbrev is_control : ℕ → Bool
  is_control c = leb c 8 || c == 11 || c == 12 || (leb 14 c && leb c 31)

  unfoldable pub decode_cancellation_reason : List ℕ → Option Text
  decode_cancellation_reason [] = none
  decode_cancellation_reason (b ∷ payload) =
      let decoded = utf8_text (b ∷ payload) in if any is_control decoded then none else some decoded

  unfoldable pub reason_for : MessageType → List ℕ → Option Text
  reason_for cancel_intent payload = decode_cancellation_reason payload
  reason_for _ payload = none

  -- The event once its type, the topic of its intent and its value are known.
  abbrev outbound : Option MessageType → Native → Event → Option PendingMessage
  outbound message_type intent_topic event = elim message_type [
    | none ↦ none
    | some t ↦ elim (extract_intent_id intent_topic event.value) [
      | none ↦ none
      | some intent_id ↦ elim (extract_payload event.value) [
        | none ↦ none
        | some payload ↦ some (record {
          type = t;
          intent_id = intent_id;
          payload = payload;
          source_ledger = event.ledger;
          source_tx_hash = event.tx_hash;
          cancellation_reason = reason_for t payload;
        })
      ]
    ]
  ]

  -- `decodeEvent`, and `toPendingMessage` of what it returns.
  unfoldable pub decode_event : Event → Option PendingMessage
  unfolding text_discrete parse_message_type extract_payload extract_intent_id reason_for
  decode_event event =
      if length event.topics == 0
      then none
      else if is_packet (topic 0 event.topics)
      then outbound (parse_message_type (topic 1 event.topics)) (topic 2 event.topics) event
      else outbound (parse_message_type (topic 0 event.topics)) (topic 1 event.topics) event

  -- `map` and `filter` of `poll`.
  unfoldable pub decode_all : List Event → List PendingMessage
  decode_all [] = []
  decode_all (e ∷ events) = elim (decode_event e) [
    | none ↦ decode_all events
    | some p ↦ p ∷ decode_all events
  ]

  -- The ledgers to scan: a window of at most `max_ledgers`, at least 1. `get_events` is what the
  -- server answers for a range with the limit of 200; each of the two calls may throw.
  module _ (start_ledger : Option ℕ) (max_ledgers : ℕ) where
    unfoldable pub resolve_start_ledger : Option ℕ → ℕ → ℕ
    resolve_start_ledger (some (suc from)) latest = suc from
    resolve_start_ledger _ latest = or_default start_ledger (max 1 (latest - max_ledgers + 1))

    unfoldable pub poll :
        Result Text ℕ
        → (ℕ → ℕ → ℕ → Result Text (List Event))
        → Option ℕ
        → Result Text (List PendingMessage × ℕ)
    unfolding resolve_start_ledger
    poll (err e) get_events from = err e
    poll (ok latest) get_events from =
        let start = resolve_start_ledger from latest in
        let final = min latest (start + max_ledgers - 1) in
        elim (ltb latest start) [
          | true ↦ ok ([], latest + 1)
          | false ↦ elim (get_events start final event_limit) [
            | err e ↦ err e
            | ok events ↦ ok (decode_all events, if ltb final latest then final + 1 else latest + 1)
          ]
        ]
