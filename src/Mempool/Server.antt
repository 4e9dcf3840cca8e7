-- ===== src/Mempool/Server.antt =====
-- mempool/src/server.ts: the handlers of MempoolServer as functions of its state. A request is what
-- Express hands over: the parsed body, the parameters, the header. A handler that awaits the
-- signature reads no state before the await, so it is one step that runs when the await is over.
pub mod Listing
pub mod Requests
use perihelion.Prelude.{
  ℕ, ◌+◌, ◌/◌, Bool, true, false, ◌&&◌, ◌||◌, take, drop, ltb, not, List, [], ◌∷◌, Option, none,
  some, length, any, leb, ◌==◌, ◌++◌, if◌then◌else◌, or_default, is_some, ite,
}
use perihelion.Prelude.Int.{pos, negsuc}
use perihelion.Prelude.Result.{Result, ok, err}
use perihelion.Prelude.Text.{
  Text, codes, text_eq, text_discrete, to_lower_case, is_digit, is_hex_digit, all_units,
}
use perihelion.Sdk.Types.{Intent, MempoolIntentStatus, pending, filled, settled, refunded, expired}
use perihelion.Sdk.Json.{
  Number, int, fraction, non_finite, Value, undefined, null, bool, num, str, arr, obj, prop,
  as_text,
}
use perihelion.Sdk.Expiry.{is_expired}
use perihelion.Sdk.Validate.{parse_intent}
use perihelion.Sdk.Signature.{Domain, Client, VerifyOptions, verify_intent, hash_intent}
use perihelion.Mempool.Store
use perihelion.Mempool.Store.{MempoolIntentRecord, IntentStore}
use perihelion.Mempool.Store.Pages.{Page}

pub record MempoolServer : Type 0 where
  pub store : IntentStore
  pub accepted : ℕ
  pub rejected : ℕ
  pub domain : Domain
  pub client : Option Client
  pub status_token : Option Text

pub data Body : Type 0 where
  error : Text → Body
  hash_of : Text → Body
  record_of : MempoolIntentRecord → Body
  page_of : Page → Body
  flag : Bool → Body

pub record Response : Type 0 where
  pub status : ℕ
  pub body : Body

abbrev pub fail : ℕ → Text → Response
fail code message = record { status = code; body = error message }

-- `SIGNATURE_RE.test(s)`.
unfoldable pub is_signature : Text → Bool
unfolding is_hex_digit all_units text_discrete
is_signature s =
    text_eq (take 2 s) (codes "0x") && (ltb 2 (length s) && all_units is_hex_digit (drop 2 s))

-- `[0-9a-f]`.
unfoldable pub is_lower_hex_digit : ℕ → Bool
unfolding is_digit
is_lower_hex_digit c = is_digit c || (leb b'a' c && leb c b'f')

-- `HASH_RE.test(s)`.
unfoldable pub is_hash : Text → Bool
unfolding is_lower_hex_digit all_units text_discrete
is_hash s =
    text_eq (take 2 s) (codes "0x") && (length s == 66 && all_units is_lower_hex_digit (drop 2 s))

-- `INTENT_STATUSES.has(s)`, and the status that `s` then names.
unfoldable pub status_of : Text → Option MempoolIntentStatus
unfolding text_discrete
status_of s =
    if text_eq s (codes "pending")
    then some pending
    else if text_eq s (codes "filled")
    then some filled
    else if text_eq s (codes "settled")
    then some settled
    else if text_eq s (codes "refunded")
    then some refunded
    else if text_eq s (codes "expired")
    then some expired
    else none

-- `typeof v === "object"` and `v` is not null: the properties of `v`; an array has none of ours.
abbrev pub as_fields : Value → Option (Text → Value)
as_fields (obj fs) = some λ name. prop name fs
as_fields (arr vs) = some λ name. undefined
as_fields _ = none

-- `v?.name` of a body.
abbrev pub optional_prop : Text → Value → Value
optional_prop name v = elim (as_fields v) [ none ↦ undefined | some p ↦ p name ]

-- `parseHashParam`: `none` where it answers 400.
unfoldable pub parse_hash_param : Text → Option Text
unfolding to_lower_case
parse_hash_param raw = if is_hash (to_lower_case raw) then some (to_lower_case raw) else none

abbrev pub reject : Text → MempoolServer → MempoolServer × Response
reject message s = (record s { rejected = s.rejected + 1 }, fail 400 message)

module _ (is_address : Text → Bool) (hash_typed_data : Intent → Domain → Text)
    (recover : Intent → Domain → Text → Option Text) where
  -- `verifySignature` with its `.catch(() => false)`.
  unfoldable pub verify_signature : Intent → Text → MempoolServer → Bool
  verify_signature intent signature s =
      or_default
        (verify_intent hash_typed_data recover intent signature s.domain
          (record { client = s.client; is_contract = none }))
        false

  -- The tests of `handleSubmitIntent` on the intent and the text of the signature.
  unfoldable pub check_signed : Value → Text → ℕ → MempoolServer → Result Text (Intent × Text)
  check_signed intent signature now s =
      if is_signature signature
      then elim (parse_intent is_address intent) [
        | err _ ↦ err (codes "Invalid intent")
        | ok parsed ↦
            if is_expired parsed (now / 1000) (pos 0)
            then err (codes "Intent has expired")
            else if verify_signature parsed signature s
            then ok (parsed, signature)
            else err (codes "Signature verification failed")
      ]
      else err (codes "Invalid signature")

  -- All its tests: the intent and the signature, or the message of the 400.
  unfoldable pub check_submission : Value → ℕ → MempoolServer → Result Text (Intent × Text)
  check_submission body now s = elim (as_fields body) [
    | none ↦ err (codes "Missing request body")
    | some p ↦ elim (as_fields (p (codes "intent"))) [
      | none ↦ err (codes "Missing intent")
      | some _ ↦ elim (as_text (p (codes "signature"))) [
        | some signature ↦ check_signed (p (codes "intent")) signature now s
        | none ↦ err (codes "Invalid signature")
      ]
    ]
  ]

  -- What `handleSubmitIntent` stores; `later` is the clock after the await, in milliseconds.
  abbrev pub new_record : Intent → Text → ℕ → MempoolServer → MempoolIntentRecord
  new_record parsed signature later s = record {
    intent = parsed;
    signature = signature;
    hash = hash_intent hash_typed_data recover parsed s.domain;
    status = pending;
    created_at = later / 1000;
  }

  unfoldable pub handle_submit_intent : Value → ℕ → ℕ → MempoolServer → MempoolServer × Response
  handle_submit_intent body now later s = elim (check_submission body now s) [
    | err message ↦ reject message s
    | ok (parsed, signature) ↦
        let r = new_record parsed signature later s in
        (
          record s { store = Store.set r.hash r s.store; accepted = s.accepted + 1 },
          record { status = 201; body = hash_of r.hash },
        )
  ]

unfoldable pub handle_get_intent : Text → MempoolServer → Response
handle_get_intent raw s = elim (parse_hash_param raw) [
  | none ↦ fail 400 (codes "Invalid intent hash")
  | some hash ↦ elim (Store.get hash s.store) [
    | none ↦ fail 404 (codes "Intent not found")
    | some r ↦ record { status = 200; body = record_of r }
  ]
]

-- `req.header("authorization") !== "Bearer " + token`, where a token is configured; the empty
-- token counts as none.
unfoldable pub is_authorized : Option Text → Option Text → Bool
unfolding text_discrete
is_authorized none auth = true
is_authorized (some []) auth = true
is_authorized (some (c ∷ token)) none = false
is_authorized (some (c ∷ token)) (some auth) = text_eq auth (codes "Bearer " ++ c ∷ token)

unfoldable pub handle_update_status :
    Option Text → Text → Value → MempoolServer → MempoolServer × Response
handle_update_status auth raw body s =
    if is_authorized s.status_token auth
    then elim (parse_hash_param raw) [
      | none ↦ (s, fail 400 (codes "Invalid intent hash"))
      | some hash ↦ elim (as_text (optional_prop (codes "status") body)) [
        | some name ↦ elim (status_of name) [
          | none ↦ (s, fail 400 (codes "Invalid status"))
          | some status ↦
              let (store, updated) = Store.update_status hash status s.store in
              let s' = record s { store = store } in
              if updated
              then (s', record { status = 200; body = flag updated })
              else (s', fail 404 (codes "Intent not found"))
        ]
        | none ↦ (s, fail 400 (codes "Invalid status"))
      ]
    ]
    else (s, fail 401 (codes "Unauthorized"))
