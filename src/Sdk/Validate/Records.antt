-- ===== src/Sdk/Validate/Records.antt =====
-- The records of the mempool in sdk/src/validate.ts.
use perihelion.Prelude.{ℕ, Bool, List, [], ◌∷◌, Option, none, some, length, ltb, if◌then◌else◌}
use perihelion.Prelude.Text.{Text, codes, text_eq}
use perihelion.Prelude.Result.{ok, err, ◌>>=◌}
use perihelion.Sdk.Types.{SignedIntent, MempoolIntentStatus, pending, settled, refunded, expired}
use perihelion.Sdk.Json.{Value, str, arr, undefined, prop, items}
use perihelion.Sdk.Validate.{
  invalid, too_large, Parsed, as_object, as_string, as_address, as_timestamp_in_seconds,
  parse_signed_intent,
}

pub record IntentRecord : Type 0 where
  pub signed : SignedIntent
  pub open signed use *
  pub status : MempoolIntentStatus
  pub solver : Option Text
  pub settlement_tx : Option Text
  pub created_at : ℕ

-- `MEMPOOL_STATUSES.has(status)`, with the status that the text stands for.
unfoldable pub as_status : Value → Parsed MempoolIntentStatus
as_status (str s) =
    if text_eq s (codes "pending")
    then ok pending
    else if text_eq s (codes "settled")
    then ok settled
    else if text_eq s (codes "refunded")
    then ok refunded
    else if text_eq s (codes "expired")
    then ok expired
    else err (invalid (codes "status"))
as_status _ = err (invalid (codes "status"))

-- A property that may be left out.
abbrev optional : (Value → Parsed Text) → Value → Parsed (Option Text)
optional check undefined = ok none
optional check v = do s ← check v; ok (some s)

module _ (is_address : Text → Bool) where
  unfoldable pub parse_intent_record : Value → Parsed IntentRecord
  unfolding as_object
  parse_intent_record value = do
    v ← as_object value (codes "intent record")
    signed ← parse_signed_intent is_address value
    status ← as_status (prop (codes "status") v)
    solver ← optional (λ x. as_address is_address x (codes "solver")) (prop (codes "solver") v)
    tx ← optional (λ x. as_string x (codes "settlementTx")) (prop (codes "settlementTx") v)
    created ← as_timestamp_in_seconds (prop (codes "createdAt") v) (codes "createdAt")
    ok (record {
      signed = signed;
      status = status;
      solver = solver;
      settlement_tx = tx;
      created_at = created;
    })

  -- `value.map(parseIntentRecord)`.
  unfoldable pub parse_all : List Value → Parsed (List IntentRecord)
  parse_all [] = ok []
  parse_all (v ∷ vs) = do r ← parse_intent_record v; rs ← parse_all vs; ok (r ∷ rs)

  unfoldable pub parse_intent_record_array : Value → ℕ → Parsed (List IntentRecord)
  parse_intent_record_array (arr vs) max_limit =
      let values = items vs in
      if ltb max_limit (length values)
      then err (too_large (length values) max_limit)
      else parse_all values
  parse_intent_record_array _ max_limit = err (invalid (codes "array"))
