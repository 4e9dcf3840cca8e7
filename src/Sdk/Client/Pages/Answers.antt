-- ===== src/Sdk/Client/Pages/Answers.antt =====
-- The listing of the client against the listing of the mempool's server: the request that
-- `listPendingPage` of sdk/src/client.ts makes, the answer of `handleListIntents` of
-- mempool/src/server.ts as JSON, and the reading of it. `number_of` is JavaScript's `Number(text)`.
use perihelion.Prelude.{
  ℕ, zero, suc, ◌≤◌, ◌<◌, ◌≡◌, ◌≢◌, refl, Bool, true, false, List, [], ◌∷◌, All, map, Option, none,
  some, length, ltb, leb, arith, Option-cases, inl, inr,
}
use perihelion.Prelude.Int.{pos}
use perihelion.Prelude.Text.{Text, codes, text_key, text_discrete, to_lower_case}
use perihelion.Prelude.Result.{Result, ok}
use perihelion.Sdk.Types.{MempoolIntentStatus, pending, filled, settled, refunded, expired}
use perihelion.Sdk.Decimal.{to_text}
use perihelion.Sdk.Json.{
  Value, Items, Number, int, num, str, arr, obj, field, end, nil, cons, items, prop,
}
use perihelion.Sdk.Validate.{
  is_hex_of, parse_signed_intent, as_object, as_hash, as_signature, as_timestamp_in_seconds,
  as_finite_number,
}
use perihelion.Sdk.Validate.Records.{
  IntentRecord, parse_intent_record, parse_all, parse_intent_record_array, as_status,
}
use perihelion.Sdk.Intent.Accepted.{Parses, to_value, parse_intent-to_value}
use perihelion.Sdk.Client.{
  ClientError, Response, fetch_with_retry, retry_loop, is_transient, settle, ok_response, json_of,
  list_pending_page,
}
use perihelion.Mempool.Store.{MempoolIntentRecord}
use perihelion.Mempool.Server
use perihelion.Mempool.Server.{
  MempoolServer, Body, error, page_of, is_hash, parse_hash_param, status_of,
}
use perihelion.Mempool.Server.Listing.{Param, absent, single, handle_list_intents}

-- The member of the union of statuses.
abbrev pub status_text : MempoolIntentStatus → Text
status_text pending = codes "pending"
status_text filled = codes "filled"
status_text settled = codes "settled"
status_text refunded = codes "refunded"
status_text expired = codes "expired"

-- The JSON of a record of the mempool, and of a page.
unfoldable pub record_value : MempoolIntentRecord → Value
record_value r = obj (
    field (codes "intent") (to_value r.intent) (
      field (codes "signature") (str r.signature) (
        field (codes "hash") (str r.hash) (
          field (codes "status") (str (status_text r.status))
            (field (codes "createdAt") (num (int (pos r.created_at))) end)))))

unfoldable pub record_items : List MempoolIntentRecord → Items
record_items [] = nil
record_items (r ∷ rs) = cons (record_value r) (record_items rs)

unfoldable pub page_value : List MempoolIntentRecord → Option Text → Value
page_value rs none = obj (field (codes "records") (arr (record_items rs)) end)
page_value rs (some c) =
    obj (field (codes "records") (arr (record_items rs)) (field (codes "nextCursor") (str c) end))

-- `res.status(…).json(…)` of the listing.
unfoldable pub respond : Server.Response → Response
respond res = record {
  status = res.status;
  text = [];
  json = elim res.body [
    | page_of p ↦ some (page_value p.records p.next_cursor)
    | error m ↦ some (obj (field (codes "error") (str m) end))
    | _ ↦ none
  ];
}

-- `if (cursor) qs.set("cursor", cursor)`.
abbrev pub cursor_arg : Option Text → Param
cursor_arg none = absent
cursor_arg (some []) = absent
cursor_arg (some (c ∷ cs)) = single (c ∷ cs)

-- A page as the client gets it from a server whose state stays as it is.
unfoldable pub server_page :
    (Text → Bool)
    → ℕ
    → (Text → Number)
    → MempoolIntentStatus
    → ℕ
    → MempoolServer
    → ℕ
    → Option Text
    → Result ClientError (List IntentRecord × Option Text)
server_page is_address max_retries number_of status limit s n cursor =
    list_pending_page is_address max_retries λ attempt. ok (
      respond (
        handle_list_intents number_of (single (status_text status)) absent (single (to_text limit))
          (cursor_arg cursor) s))

-- The record that the client reads.
abbrev pub client_record : MempoolIntentRecord → IntentRecord
client_record r = record {
  signed = record { intent = r.intent; signature = r.signature; hash = r.hash };
  status = r.status;
  solver = none;
  settlement_tx = none;
  created_at = r.created_at;
}

-- What the SDK asks of a record; it does not know the status "filled".
pub record Readable (is_address : Text → Bool) (r : MempoolIntentRecord) : Type 0 where
  pub intent : Parses is_address r.intent
  pub signature : is_hex_of 130 r.signature ≡ true
  pub hash : is_hex_of 64 r.hash ≡ true
  pub lower : is_hash r.hash ≡ true
  pub same_case : to_lower_case r.hash ≡ r.hash
  pub status : r.status ≢ filled
  pub created : r.created_at < 100_000_000_000

status_read : (s : MempoolIntentStatus) → s ≢ filled → as_status (str (status_text s)) ≡ ok s
unfolding as_status text_discrete
status_read pending h = refl
status_read filled h = absurd (h refl)
status_read settled h = refl
status_read refunded h = refl
status_read expired h = refl

pub status_sent : (s : MempoolIntentStatus) → status_of (status_text s) ≡ some s
unfolding status_of text_discrete
status_sent pending = refl
status_sent filled = refl
status_sent settled = refl
status_sent refunded = refl
status_sent expired = refl

time_read :
    (n : ℕ) (f : Text) → n < 100_000_000_000 → as_timestamp_in_seconds (num (int (pos n))) f ≡ ok n
unfolding as_timestamp_in_seconds as_finite_number
time_read n f h = ground arith

module _ (is_address : Text → Bool) where
  parse_intent_record-record_value :
      (r : MempoolIntentRecord)
      → Readable is_address r
      → parse_intent_record is_address (record_value r) ≡ ok (client_record r)
  unfolding parse_intent_record parse_signed_intent as_object as_hash as_signature record_value prop
      text_discrete
  parse_intent_record-record_value r h =
      rw
        (
          parse_intent-to_value is_address r.intent h.intent,
          h.signature,
          h.hash,
          status_read r.status h.status,
          time_read r.created_at (codes "createdAt") h.created,
        )
        refl

  parse_all-record_items :
      (rs : List MempoolIntentRecord)
      → All (Readable is_address) rs
      → parse_all is_address (items (record_items rs)) ≡ ok (map client_record rs)
  unfolding parse_all record_items items
  parse_all-record_items [] h = refl
  parse_all-record_items (r ∷ rs) (here, later) =
      rw (parse_intent_record-record_value r here, parse_all-record_items rs later) refl

  length-record_items :
      (rs : List MempoolIntentRecord) → length (items (record_items rs)) ≡ length rs
  unfolding record_items items
  length-record_items [] = refl
  length-record_items (r ∷ rs) = omega (arith, length-record_items rs)

  answered :
      (operation : Text) (max_retries : ℕ) (res : Response)
      → leb 500 res.status ≡ false
      → (fetch_with_retry operation (λ k. ok res) max_retries).result ≡ ok res
  unfolding fetch_with_retry retry_loop is_transient settle
  answered operation zero res h = refl
  answered operation (suc n) res h = rw (h, fetch_with_retry, retry_loop) refl

  -- The client reads the records of a page and its cursor.
  pub list_pending_page-page :
      (max_retries : ℕ) (rs : List MempoolIntentRecord) (next : Option Text)
      → All (Readable is_address) rs
      → length rs ≤ 5000
      → list_pending_page is_address max_retries (λ attempt. ok (
          respond (record {
            status = 200;
            body = page_of (record { records = rs; next_cursor = next });
          })))
        ≡ ok (map client_record rs, next)
  unfolding list_pending_page respond ok_response json_of page_value prop text_discrete
      parse_intent_record_array
  list_pending_page-page max_retries rs next h few =
      let small : ltb 5000 (length (items (record_items rs))) ≡ false =
        ground (arith, length-record_items rs) in
      let res =
        respond
          (record { status = 200; body = page_of (record { records = rs; next_cursor = next }) }) in
      let sent = answered (codes "listPendingPage") max_retries res refl in
      elim (Option-cases next) [
        | inl e ↦ rw (sent, e, small, parse_all-record_items rs h) refl
        | inr (c, e) ↦ rw (sent, e, small, parse_all-record_items rs h) refl
      ]
