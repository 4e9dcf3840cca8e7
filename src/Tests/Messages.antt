-- ===== src/Tests/Messages.antt =====
-- An intent from its parameters to its signature, and addresses.
use perihelion.Prelude.{
  ◌+◌, ◌≤◌, ◌<◌, ◌≡◌, ◌≢◌, refl, Bool, true, false, Option, none, some, is_some,
}
use perihelion.Prelude.Int.{pos}
use perihelion.Prelude.Result.{ok}
use perihelion.Prelude.Text.{Text, codes, text_discrete, to_lower_case, is_hex_digit, is_digit}
use perihelion.Sdk.Types.{Intent, pending}
use perihelion.Sdk.Json.{int, str, obj, field, end, prop}
use perihelion.Sdk.Decimal.{digits_value, big_int, is_positive_int_string}
use perihelion.Sdk.Stellar.{is_stellar_address, is_stellar_asset, decode_strkey, sample_address}
use perihelion.Sdk.Stellar.Strkey.{is_stellar_address-decode_strkey}
use perihelion.Sdk.Validate.{parse_intent}
use perihelion.Sdk.Validate.Records.{IntentRecord, parse_intent_record}
use perihelion.Sdk.Validate.Filled.{parse_intent_record_filled}
use perihelion.Sdk.Intent.{
  IntentParams, BuildOptions, build_intent, validate_intent, assemble, u128_max, i128_max,
  max_deadline_horizon, utf8_length,
}
use perihelion.Sdk.Intent.Bounds.{build_intent_bounds, build_intent_total}
use perihelion.Sdk.Intent.Accepted.{to_value, build_intent-parse_intent}
use perihelion.Sdk.Signature.{
  Domain, Client, VerifyOptions, verify_intent, verify_eoa, hash_intent, detects_contract, is_magic,
  IsCanonical, hex_value, hex_unit, verify_intent_accepts,
}

abbrev any_address : Text → Bool
any_address s = true

abbrev params : IntentParams
params = record {
  user = codes "0x00000000000000000000000000000000000000b0";
  destination = sample_address;
  source_chain_id = int (pos 1);
  source_asset = codes "0x00000000000000000000000000000000000000c0";
  source_amount = codes "20000000";
  dest_asset = codes "native";
  min_dest_amount = codes "900";
  deadline = int (pos 2000);
  nonce = none;
  preferred_solver = none;
}

abbrev quiet : BuildOptions
quiet = record { v_min = none; source_decimals = none; suppress_warning = some true }

params_valid : validate_intent any_address params 1000 ≡ ok tt
unfolding validate_intent is_stellar_address utf8_length is_positive_int_string big_int
    is_stellar_asset
params_valid = refl

abbrev built : Intent
built = assemble params 7

params-built : build_intent any_address params quiet 1000 7 ≡ ok (built, false)
params-built = build_intent_total any_address params quiet 1000 7 params_valid refl

build_intent_bounds_example :
    (0 < digits_value 0 built.source_amount)
    × (digits_value 0 built.source_amount ≤ u128_max)
    × (0 < digits_value 0 built.min_dest_amount)
    × (digits_value 0 built.min_dest_amount ≤ i128_max)
    × (0 < built.source_chain_id)
    × (1000 < built.deadline)
    × (built.deadline ≤ 1000 + max_deadline_horizon)
build_intent_bounds_example = build_intent_bounds any_address params quiet 1000 7 params-built

build_intent-parse_intent_example : parse_intent any_address (to_value built) ≡ ok built
build_intent-parse_intent_example =
    build_intent-parse_intent any_address params quiet 1000 7 refl params-built

is_stellar_address-decode_strkey_example :
    is_stellar_address sample_address ≡ is_some (decode_strkey sample_address)
is_stellar_address-decode_strkey_example = is_stellar_address-decode_strkey sample_address

abbrev signed_fields : IntentRecord
signed_fields = record {
  signed = record { intent = built; signature = codes "0xab"; hash = codes "0x01" };
  status = pending;
  solver = none;
  settlement_tx = none;
  created_at = 5;
}

filled_status :
    prop (codes "status") (field (codes "status") (str (codes "filled")) end) ≡ str (codes "filled")
unfolding prop text_discrete
filled_status = refl

parse_intent_record_filled_example :
    parse_intent_record any_address (obj (field (codes "status") (str (codes "filled")) end))
    ≢ ok signed_fields
parse_intent_record_filled_example =
    parse_intent_record_filled any_address (field (codes "status") (str (codes "filled")) end)
      signed_fields filled_status

abbrev hash : Intent → Domain → Text
hash i d = i.nonce

abbrev user_of : Intent → Domain → Text → Option Text
user_of i d s = some i.user

abbrev signature : Text
signature =
    codes
      "0x111111111111111111111111111111111111111111111111111111111111111100000000000000000000000000000000000000000000000000000000000000021b"

abbrev domain : Domain
domain = record { chain_id = 1; verifying_contract = codes "0xe5" }

abbrev local : VerifyOptions
local = record { client = none; is_contract = none }

signature_accepted : verify_intent hash user_of built signature domain local ≡ some true
unfolding verify_intent detects_contract verify_eoa hex_value hex_unit is_hex_digit is_digit
    to_lower_case text_discrete
signature_accepted = refl

verify_intent_accepts_example :
    (detects_contract built local ≡ false → IsCanonical hash user_of built signature domain)
    × (detects_contract built local ≡ true
        → (c : Client) × (local.client ≡ some c)
          × (is_magic
                (c.is_valid_signature built.user (hash_intent hash user_of built domain) signature)
              ≡ true))
verify_intent_accepts_example =
    verify_intent_accepts hash user_of built signature domain local signature_accepted
