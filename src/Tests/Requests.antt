-- ===== src/Tests/Requests.antt =====
-- Requests to a mempool server: submissions, a report, a sweep.
use perihelion.Prelude.{◌≡◌, refl, Bool, true, [], ◌∷◌, Option, none, some}
use perihelion.Prelude.Int.{◌-ℤ◌}
use perihelion.Prelude.JsMap
use perihelion.Prelude.Text.{
  Text, codes, text_key, text_discrete, is_hex_digit, is_digit, all_units, to_lower_case,
}
use perihelion.Sdk.Types.{Intent}
use perihelion.Sdk.Json.{prop, Value, undefined, str, obj, field, end}
use perihelion.Sdk.Signature.{
  Domain, verify_intent, detects_contract, verify_eoa, hex_value, hex_unit,
}
use perihelion.Sdk.Validate.{
  parse_intent, as_address, as_stellar_address, as_positive_integer, as_positive_integer_string,
  as_stellar_asset, as_integer_string,
}
use perihelion.Sdk.Decimal.{is_positive_int_string, is_non_neg_int_string}
use perihelion.Sdk.Expiry.{is_expired}
use perihelion.Prelude.Result.{ok}
use perihelion.Sdk.Intent.Accepted.{to_value}
use perihelion.Sdk.Stellar.{sample_address, is_stellar_address, is_stellar_asset}
use perihelion.Mempool.Store
use perihelion.Mempool.Store.Invariant.{Inv, new_store-Inv}
use perihelion.Mempool.Server.{
  MempoolServer, check_submission, check_signed, is_signature, verify_signature,
}
use perihelion.Mempool.Server.Requests.{submit, report, sweep, run, run-Inv}

abbrev pub any_address : Text → Bool
any_address s = true

abbrev hash : Intent → Domain → Text
hash i d = i.nonce

abbrev user_of : Intent → Domain → Text → Option Text
user_of i d s = some i.user

abbrev pub server : MempoolServer
server = record {
  store = Store.new_store none none;
  accepted = 0;
  rejected = 0;
  domain = record { chain_id = 1; verifying_contract = codes "0xe5" };
  client = none;
  status_token = some (codes "secret");
}

abbrev pub intent : Intent
intent = record {
  user = codes "0x00000000000000000000000000000000000000b0";
  destination = sample_address;
  source_chain_id = 1;
  source_asset = codes "0x00000000000000000000000000000000000000c0";
  source_amount = codes "20000000";
  dest_asset = codes "native";
  min_dest_amount = codes "900";
  deadline = 2000;
  nonce = codes "7";
  preferred_solver = codes "0x0000000000000000000000000000000000000000";
}

abbrev pub signature : Text
signature =
    codes
      "0x111111111111111111111111111111111111111111111111111111111111111100000000000000000000000000000000000000000000000000000000000000021b"

abbrev body : Value
body =
    obj (field (codes "intent") (to_value intent) (field (codes "signature") (str signature) end))

-- The body passes every test.
body_accepted :
    check_submission any_address hash user_of body 1000000 server ≡ ok (intent, signature)
unfolding check_submission check_signed prop text_discrete to_value is_signature is_hex_digit
    is_digit all_units parse_intent verify_signature verify_intent detects_contract verify_eoa
    hex_value hex_unit to_lower_case is_expired ◌-ℤ◌ as_address as_stellar_address
    is_stellar_address as_positive_integer as_positive_integer_string is_positive_int_string
    as_stellar_asset is_stellar_asset as_integer_string is_non_neg_int_string
body_accepted = refl

run-Inv_example :
    Inv
      (run any_address hash user_of
        (submit body 1000000 1002000 ∷ report none (codes "0x01") undefined ∷ sweep 90 ∷ [])
        server).store
run-Inv_example =
    run-Inv any_address hash user_of
      (submit body 1000000 1002000 ∷ report none (codes "0x01") undefined ∷ sweep 90 ∷ []) server
      (new_store-Inv none none)
