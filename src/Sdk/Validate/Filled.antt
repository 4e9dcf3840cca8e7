-- ===== src/Sdk/Validate/Filled.antt =====
-- The parser of mempool records and the status `filled`, which the mempool assigns.
use perihelion.Prelude.{◌≡◌, ◌≢◌, Bool}
use perihelion.Prelude.Text.{Text, codes, text_discrete}
use perihelion.Prelude.Result.{ok, >>=-eq-ok}
use perihelion.Sdk.Json.{Fields, str, obj, prop}
use perihelion.Sdk.Validate.{parse_signed_intent}
use perihelion.Sdk.Validate.Records.{IntentRecord, as_status, parse_intent_record}

-- The parser refuses every record whose status is `filled`, whatever its other fields are.
pub parse_intent_record_filled :
    (is_address : Text → Bool) (v : Fields) (r : IntentRecord)
    → prop (codes "status") v ≡ str (codes "filled")
    → parse_intent_record is_address (obj v) ≢ ok r
unfolding parse_intent_record as_status text_discrete
parse_intent_record_filled is_address v r e h =
    let (signed, _, h1) = >>=-eq-ok (parse_signed_intent is_address (obj v)) _ h in cc (rw e at h1)
