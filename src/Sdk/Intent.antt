-- ===== src/Sdk/Intent.antt =====
-- sdk/src/intent.ts: validation and construction of an intent. `is_address` is viem's `isAddress`;
-- the clock and the 256 random bits of `randomNonce` are arguments.
pub mod Bounds
pub mod Accepted
use perihelion.Prelude.{
  ℕ, zero, suc, ◌+◌, ◌-◌, ◌*◌, ◌^◌, ◌≡◌, Bool, true, false, ◌&&◌, ◌||◌, not, List, [], ◌∷◌, Option,
  none, some, length, ltb, leb, ◌==◌, if◌then◌else◌, or_default,
}
use perihelion.Prelude.Int.{ℤ, pos, negsuc, ltb_ℤ, leb_ℤ}
use perihelion.Prelude.Text.{Text, codes}
use perihelion.Prelude.Result.{Result, ok, err, ◌>>=◌, ◌>>◌, require}
use perihelion.Sdk.Types.{Intent}
use perihelion.Sdk.Json.{Number, int}
use perihelion.Sdk.Stellar.{is_stellar_address, is_stellar_asset}
use perihelion.Sdk.Decimal.{big_int, is_positive_int_string, is_non_neg_int_string, to_text}

-- The field at fault.
pub data ValidationError : Type 0 where
  user destination source_chain_id source_asset source_amount dest_asset : ValidationError
  min_dest_amount deadline nonce preferred_solver v_min : ValidationError

abbrev pub Checked : Type 0 → Type 0
Checked A = Result ValidationError A

-- `IntentParams`: an intent whose nonce and solver may be missing, its numbers not yet checked.
pub record IntentParams : Type 0 where
  pub user : Text
  pub destination : Text
  pub source_chain_id : Number
  pub source_asset : Text
  pub source_amount : Text
  pub dest_asset : Text
  pub min_dest_amount : Text
  pub deadline : Number
  pub nonce : Option Text
  pub preferred_solver : Option Text

abbrev pub max_destination_len : ℕ
max_destination_len = 56

abbrev pub max_dest_asset_len : ℕ
max_dest_asset_len = 69

abbrev pub max_deadline_horizon : ℕ
max_deadline_horizon = 604_800

abbrev pub u128_max : ℕ
u128_max = 340282366920938463463374607431768211455

abbrev pub i128_max : ℕ
i128_max = 170141183460469231731687303715884105727

-- `new TextEncoder().encode(s).length`: a unit below 0x80 takes one byte, one below 0x800 two, a
-- surrogate pair four, and any other unit three.
unfoldable pub utf8_length : Text → ℕ
utf8_length [] = 0
utf8_length (c ∷ s) =
    (if ltb c 0x80 then 1 else if ltb c 0x800 || (leb 0xd800 c && leb c 0xdfff) then 2 else 3)
    + utf8_length s

-- A whole number above a bound.
abbrev pub is_int_above : ℕ → Number → Bool
is_int_above n (int (pos m)) = ltb n m
is_int_above n _ = false

abbrev pub is_int_at_most : ℕ → Number → Bool
is_int_at_most n (int (pos m)) = leb m n
is_int_at_most n (int (negsuc m)) = true
is_int_at_most n _ = false

-- `BigInt(text) <= max`, false where `BigInt` throws: both end in an error for the same field.
abbrev pub is_big_int_at_most : ℕ → Option ℤ → Bool
is_big_int_at_most max none = false
is_big_int_at_most max (some n) = leb_ℤ n (pos max)

-- `params.nonce !== undefined` and its two checks.
unfoldable pub is_nonce : Option Text → Bool
is_nonce none = true
is_nonce (some s) = is_non_neg_int_string s && is_big_int_at_most (2 ^ 256 - 1) (big_int s)

abbrev pub opt_passes : (Text → Bool) → Option Text → Bool
opt_passes test none = true
opt_passes test (some s) = test s

unfoldable pub validate_amount : Text → ValidationError → ℕ → Checked (Unit {0})
validate_amount value field max = elim (big_int value) [
  | none ↦ err field
  | some n ↦ do require (ltb_ℤ (pos 0) n) field; require (leb_ℤ n (pos max)) field
]

module _ (is_address : Text → Bool) where
  unfoldable pub validate_intent : IntentParams → ℕ → Checked (Unit {0})
  unfolding is_nonce
  validate_intent p now = do
    require (is_address p.user) user
    require (is_stellar_address p.destination) destination
    require (leb (utf8_length p.destination) max_destination_len) destination
    require (is_int_above 0 p.source_chain_id) source_chain_id
    require (is_address p.source_asset) source_asset
    require (is_positive_int_string p.source_amount) source_amount
    require (is_big_int_at_most u128_max (big_int p.source_amount)) source_amount
    require (is_stellar_asset p.dest_asset) dest_asset
    require (leb (utf8_length p.dest_asset) max_dest_asset_len) dest_asset
    require (is_positive_int_string p.min_dest_amount) min_dest_amount
    require (is_big_int_at_most i128_max (big_int p.min_dest_amount)) min_dest_amount
    require (is_int_above now p.deadline) deadline
    require (is_int_at_most (now + max_deadline_horizon) p.deadline) deadline
    require (is_nonce p.nonce) nonce
    require (opt_passes is_address p.preferred_solver) preferred_solver

-- `BuildOptions`.
pub record BuildOptions : Type 0 where
  pub v_min : Option Text
  pub source_decimals : Option ℕ
  pub suppress_warning : Option Bool

abbrev pub zero_address : Text
zero_address = codes "0x0000000000000000000000000000000000000000"

abbrev pub default_v_min : Text
default_v_min = codes "10000000"

-- A number that `validateIntent` has let through.
abbrev pub natural : Number → ℕ
natural (int (pos n)) = n
natural _ = 0

-- The intent that `buildIntent` assembles.
abbrev pub assemble : IntentParams → ℕ → Intent
assemble p random = record {
  user = p.user;
  destination = p.destination;
  source_chain_id = natural p.source_chain_id;
  source_asset = p.source_asset;
  source_amount = p.source_amount;
  dest_asset = p.dest_asset;
  min_dest_amount = p.min_dest_amount;
  deadline = natural p.deadline;
  nonce = or_default p.nonce (to_text random);
  preferred_solver = or_default p.preferred_solver zero_address;
}

-- `n * 10^6 < v * 10^decimals`.
unfoldable pub is_scaled_below : ℕ → ℤ → ℤ → Bool
is_scaled_below decimals (pos n) (pos v) = ltb (n * 10 ^ 6) (v * 10 ^ decimals)
is_scaled_below decimals (pos n) (negsuc v) = false
is_scaled_below decimals (negsuc n) (pos v) = true
is_scaled_below decimals (negsuc n) (negsuc v) = ltb (suc v * 10 ^ decimals) (suc n * 10 ^ 6)

-- The comparison with the economical minimum; `BigInt` throws on a malformed `vMin`.
unfoldable pub is_below_v_min : Text → Option Text → Option ℕ → Checked Bool
is_below_v_min amount least decimals = elim (big_int (or_default least default_v_min)) [
  | none ↦ err v_min
  | some v ↦ elim (big_int amount) [
    | none ↦ err source_amount
    | some n ↦ ok (is_scaled_below (or_default decimals 6) n v)
  ]
]

-- The intent, and whether the warning was written to the console.
module _ (is_address : Text → Bool) where
  unfoldable pub build_intent : IntentParams → BuildOptions → ℕ → ℕ → Checked (Intent × Bool)
  build_intent p options now random = do
    validate_intent is_address p now
    let intent = assemble p random
    validate_amount intent.source_amount source_amount u128_max
    validate_amount intent.min_dest_amount min_dest_amount i128_max
    let warns = is_below_v_min intent.source_amount options.v_min options.source_decimals
    if or_default options.suppress_warning false
        then ok (intent, false)
        else warns >>= λ below. ok (intent, below)
