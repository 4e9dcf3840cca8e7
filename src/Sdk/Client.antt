-- ===== src/Sdk/Client.antt =====
-- sdk/src/client.ts: PerihelionClient. `fetch` is given by what its attempts return or throw, the
-- URL parser by what it makes of a text; timers are left out but for the waits that are asked for.
-- `maxRetries` is a whole number from 0 on. An error keeps its class and what its reader tests.
pub mod Retry
pub mod Pages
pub mod Waiting
use perihelion.Prelude.{
  ℕ, zero, suc, ◌+◌, ◌*◌, ◌/◌, ◌^◌, min, Bool, true, false, ◌&&◌, ◌||◌, not, List, [], ◌∷◌, ◌++◌,
  Option, none, some, ltb, leb, if◌then◌else◌,
}
use perihelion.Prelude.Int.{ℤ, pos, leb_ℤ, ◌-ℤ◌}
use perihelion.Prelude.Text.{Text, codes, text_eq, to_lower_case, includes}
use perihelion.Prelude.Result.{Result, err, ok, ◌>>=◌}
use perihelion.Sdk.Types.{MempoolIntentStatus, SignedIntent, pending, same_status}
use perihelion.Sdk.Json.{Value, str, prop, obj, undefined}
use perihelion.Sdk.Validate.{MempoolResponseError, is_hex_of}
use perihelion.Sdk.Validate.Records.{IntentRecord, parse_intent_record, parse_intent_record_array}

-- What `fetch` may throw: a PerihelionTimeoutError, another PerihelionError, another Error by its
-- name and message, a value that is no Error.
pub data Thrown : Type 0 where
  timeout_error perihelion_error : Thrown
  error : Text → Text → Thrown
  no_error : Thrown

pub record Response : Type 0 where
  pub status : ℕ
  pub text : Text
  pub json : Option Value

pub data ClientError : Type 0 where
  timeout : Option Text → Option MempoolIntentStatus → ClientError
  network : Text → ClientError
  rethrown : Thrown → ClientError
  http : Text → ℕ → Text → ClientError
  validation : Text → ClientError
  hash_mismatch : Text → Text → ClientError
  bad_response : MempoolResponseError → ClientError

-- `Math.min(100 * 2 ** attempt, 5_000)`.
unfoldable pub backoff : ℕ → ℕ
backoff attempt = min (100 * 2 ^ attempt) 5000

unfoldable pub is_timeout_error : Thrown → Bool
is_timeout_error timeout_error = true
is_timeout_error (error name message) =
    text_eq name (codes "TimeoutError")
    || (text_eq name (codes "AbortError") && includes (codes "timed out") (to_lower_case message))
is_timeout_error _ = false

unfoldable pub is_abort_error : Thrown → Bool
is_abort_error timeout_error = true
is_abort_error (error name message) =
    text_eq name (codes "AbortError") || text_eq name (codes "TimeoutError")
is_abort_error _ = false

-- A PerihelionError is thrown on, another error is wrapped.
unfoldable pub wrap : Text → Thrown → ClientError
wrap operation timeout_error = rethrown timeout_error
wrap operation perihelion_error = rethrown perihelion_error
wrap operation e = network operation

unfoldable pub abort_failure : Text → Thrown → ClientError
abort_failure operation e = if is_timeout_error e then timeout none none else wrap operation e

-- An attempt after which `fetchWithRetry` returns or throws.
unfoldable pub settle : Text → Result Thrown Response → Result ClientError Response
settle operation (ok res) = ok res
settle operation (err e) =
    err (if is_abort_error e then abort_failure operation e else wrap operation e)

-- The errors and responses that call for another attempt.
unfoldable pub is_transient : Result Thrown Response → Bool
is_transient (ok res) = leb 500 res.status
is_transient (err e) = not (is_abort_error e)

pub record Fetched : Type 0 where
  pub result : Result ClientError Response
  pub waits : List ℕ

module _ (operation : Text) (fetch : ℕ → Result Thrown Response) where
  -- The loop of `fetchWithRetry`, with the retries that are left: `maxRetries - attempt`.
  unfoldable pub retry_loop : ℕ → ℕ → List ℕ → Fetched
  retry_loop zero attempt waits = record {
    result = settle operation (fetch attempt);
    waits = waits;
  }
  retry_loop (suc left) attempt waits = elim (is_transient (fetch attempt)) [
    | false ↦ record { result = settle operation (fetch attempt); waits = waits }
    | true ↦ retry_loop left (attempt + 1) (waits ++ backoff attempt ∷ [])
  ]

  unfoldable pub fetch_with_retry : ℕ → Fetched
  unfolding retry_loop
  fetch_with_retry max_retries = retry_loop max_retries 0 []

-- `res.ok`.
abbrev pub is_ok : Response → Bool
is_ok res = leb 200 res.status && ltb res.status 300

unfoldable pub ok_response : Text → Response → Result ClientError Response
ok_response operation res = if is_ok res then ok res else err (http operation res.status res.text)

-- `await res.json()` in its `try`.
unfoldable pub json_of : Text → Response → Result ClientError Value
json_of operation res = elim res.json [ none ↦ err (network operation) | some v ↦ ok v ]

abbrev parsed : {A : Type 0} → Result MempoolResponseError A → Result ClientError A
parsed (err e) = err (bad_response e)
parsed (ok a) = ok a

-- `encodeURIComponent` changes no hexadecimal text.
unfoldable pub intent_url : (Text → Text) → Text → Value → Text → Result ClientError Text
intent_url normal base (str hash) suffix =
    if is_hex_of 64 hash
    then ok (normal (base ++ codes "/intents/" ++ to_lower_case hash ++ suffix))
    else err (validation (codes "hash"))
intent_url normal base _ suffix = err (validation (codes "hash"))

-- `body.name`, which throws a TypeError of no interest here on `null`.
abbrev body_prop : Text → Value → Value
body_prop name (obj fs) = prop name fs
body_prop name _ = undefined

abbrev default_max_intent_records : ℕ
default_max_intent_records = 5000

module _ (is_address : Text → Bool) (max_retries : ℕ) where
  -- `getIntent`, whose attempts go to the URL of the intent.
  unfoldable pub get_intent :
      (Text → Text)
      → Text
      → (Text → ℕ → Result Thrown Response)
      → Value
      → Result ClientError IntentRecord
  get_intent normal base fetch hash = do
    url ← intent_url normal base hash []
    answer ← (fetch_with_retry (codes "getIntent") (fetch url) max_retries).result
    res ← ok_response (codes "getIntent") answer
    json ← json_of (codes "getIntent") res
    parsed (parse_intent_record is_address json)

  -- `typeof body.nextCursor === "string" ? body.nextCursor : undefined`.
  abbrev pub cursor_of : Value → Option Text
  cursor_of (str c) = some c
  cursor_of _ = none

  unfoldable pub list_pending_page :
      (ℕ → Result Thrown Response) → Result ClientError (List IntentRecord × Option Text)
  list_pending_page fetch = do
    answer ← (fetch_with_retry (codes "listPendingPage") fetch max_retries).result
    res ← ok_response (codes "listPendingPage") answer
    body ← json_of (codes "listPendingPage") res
    records ← parsed (
        parse_intent_record_array is_address (body_prop (codes "records") body)
          default_max_intent_records)
    ok (records, cursor_of (body_prop (codes "nextCursor") body))

-- What the two requests that are not repeated make of an error.
unfoldable pub unrepeated_failure : Text → Text → Thrown → ClientError
unrepeated_failure operation hash timeout_error = rethrown timeout_error
unrepeated_failure operation hash perihelion_error = rethrown perihelion_error
unrepeated_failure operation hash e =
    if is_timeout_error e then timeout (some hash) none else network operation

-- The hash in the answer; an empty one or none is not compared.
unfoldable pub check_hash : Text → Value → Result ClientError Text
check_hash local (str (c ∷ hash)) =
    if text_eq (to_lower_case (c ∷ hash)) (to_lower_case local)
    then ok local
    else err (hash_mismatch local (c ∷ hash))
check_hash local _ = ok local

unfoldable pub submit_intent : Result Thrown Response → SignedIntent → Result ClientError Text
submit_intent (err e) signed = err (unrepeated_failure (codes "submitIntent") signed.hash e)
submit_intent (ok answer) signed = do
  res ← ok_response (codes "submitIntent") answer
  body ← json_of (codes "submitIntent") res
  check_hash signed.hash (body_prop (codes "hash") body)

unfoldable pub report_status :
    (Text → Text) → Text → (Text → Result Thrown Response) → Text → Result ClientError (Unit {0})
report_status normal base fetch hash = do
  url ← intent_url normal base (str hash) (codes "/status")
  elim (fetch url) [
    | err e ↦ err (unrepeated_failure (codes "reportStatus") hash e)
    | ok answer ↦ do res ← ok_response (codes "reportStatus") answer; ok tt
  ]

-- Times are whole seconds, the grace period whole milliseconds; the difference may be negative.
unfoldable pub is_refundable : IntentRecord → ℕ → ℕ → ℕ → Bool
is_refundable record_ grace_ms now clock_skew =
    same_status record_.status pending
    && leb_ℤ (pos (record_.signed.intent.deadline + grace_ms / 1000)) (pos now -ℤ pos clock_skew)
