-- ===== src/Sdk/Intent/Bounds.antt =====
-- What `validateIntent` and `buildIntent` guarantee of the fields of an intent.
use perihelion.Prelude.{ℕ, ◌+◌, ◌≤◌, ◌<◌, ◌≡◌, refl, Bool, true, false, some, arith, if◌then◌else◌}
use perihelion.Prelude.Int.{pos, negsuc}
use perihelion.Prelude.Text.{Text}
use perihelion.Prelude.Result.{Result, ok, err, ◌>>=◌, ◌>>◌, require, >>=-eq-ok}
use perihelion.Sdk.Types.{Intent}
use perihelion.Sdk.Json.{Number, int}
use perihelion.Sdk.Stellar.{is_stellar_address, is_stellar_asset}
use perihelion.Sdk.Decimal.{digits_value, big_int, is_positive_int_string}
use perihelion.Sdk.Decimal.Print.{big_int_positive}
use perihelion.Sdk.Intent.{
  ValidationError, Checked, IntentParams, BuildOptions, max_deadline_horizon, u128_max, i128_max,
  is_int_above, is_int_at_most, is_big_int_at_most, is_nonce, opt_passes, validate_intent,
  validate_amount, natural, assemble, build_intent,
}

-- One passed check.
pub require-ok :
    {E : Type 0} {B : Type 0} (test : Bool) (e : E) (k : Result E B) {b : B}
    → (require test e >> k) ≡ ok b
    → (test ≡ true) × (k ≡ ok b)
require-ok true e k h = (refl, h)
require-ok false e k h = cc

pub require-true : {E : Type 0} (test : Bool) (e : E) → require test e ≡ ok tt → test ≡ true
require-true true e h = refl
require-true false e h = cc

-- The tests of `validateIntent`, all passed.
pub record Passed (is_address : Text → Bool) (p : IntentParams) (now : ℕ) : Type 0 where
  pub user : is_address p.user ≡ true
  pub destination : is_stellar_address p.destination ≡ true
  pub chain : is_int_above 0 p.source_chain_id ≡ true
  pub asset : is_address p.source_asset ≡ true
  pub amount : is_positive_int_string p.source_amount ≡ true
  pub amount_max : is_big_int_at_most u128_max (big_int p.source_amount) ≡ true
  pub dest : is_stellar_asset p.dest_asset ≡ true
  pub least : is_positive_int_string p.min_dest_amount ≡ true
  pub least_max : is_big_int_at_most i128_max (big_int p.min_dest_amount) ≡ true
  pub ahead : is_int_above now p.deadline ≡ true
  pub horizon : is_int_at_most (now + max_deadline_horizon) p.deadline ≡ true
  pub nonce : is_nonce p.nonce ≡ true
  pub solver : opt_passes is_address p.preferred_solver ≡ true

module _ (is_address : Text → Bool) where
  pub validate_intent-Passed :
      (p : IntentParams) (now : ℕ)
      → validate_intent is_address p now ≡ ok tt
      → Passed is_address p now
  unfolding validate_intent
  validate_intent-Passed p now h0 =
      let (user, h1) = require-ok _ _ _ h0 in
      let (destination, h2) = require-ok _ _ _ h1 in
      let (_, h3) = require-ok _ _ _ h2 in
      let (chain, h4) = require-ok _ _ _ h3 in
      let (asset, h5) = require-ok _ _ _ h4 in
      let (amount, h6) = require-ok _ _ _ h5 in
      let (amount_max, h7) = require-ok _ _ _ h6 in
      let (dest, h8) = require-ok _ _ _ h7 in
      let (_, h9) = require-ok _ _ _ h8 in
      let (least, h10) = require-ok _ _ _ h9 in
      let (least_max, h11) = require-ok _ _ _ h10 in
      let (ahead, h12) = require-ok _ _ _ h11 in
      let (horizon, h13) = require-ok _ _ _ h12 in
      let (nonce, h14) = require-ok _ _ _ h13 in
      record {
        user = user;
        destination = destination;
        chain = chain;
        asset = asset;
        amount = amount;
        amount_max = amount_max;
        dest = dest;
        least = least;
        least_max = least_max;
        ahead = ahead;
        horizon = horizon;
        nonce = nonce;
        solver = require-true _ _ h14;
      }

  validate_amount_ok :
      (s : Text) (field : ValidationError) (max : ℕ)
      → is_positive_int_string s ≡ true
      → is_big_int_at_most max (big_int s) ≡ true
      → validate_amount s field max ≡ ok tt
  unfolding validate_amount
  validate_amount_ok s field max g m = ground (arith, big_int_positive s g)

  same_intent :
      (quiet : Bool) (m : Checked Bool) (j : Intent) {i : Intent} {warned : Bool}
      → if◌then◌else◌ {A = Checked (Intent × Bool)} quiet
          (ok (j, false))
          (m >>= λ below. ok (j, below))
        ≡ ok (i, warned)
      → i ≡ j
  same_intent true m j h = ground arith
  same_intent false (ok below) j h = ground arith
  same_intent false (err e) j h = cc

  -- What `buildIntent` returns, once validation has passed: the assembled intent.
  pub build_intent-Passed :
      (p : IntentParams) (o : BuildOptions) (now random : ℕ) {i : Intent} {warned : Bool}
      → build_intent is_address p o now random ≡ ok (i, warned)
      → Passed is_address p now × (i ≡ assemble p random)
  unfolding build_intent
  build_intent-Passed p o now random h =
      let (done, valid, h1) = >>=-eq-ok (validate_intent is_address p now) _ h in
      let (_, _, h2) = >>=-eq-ok (validate_amount p.source_amount _ u128_max) _ h1 in
      let (_, _, h3) = >>=-eq-ok (validate_amount p.min_dest_amount _ i128_max) _ h2 in
      (validate_intent-Passed p now valid, same_intent _ _ _ h3)

  above : (n : ℕ) (x : Number) → is_int_above n x ≡ true → n < natural x
  above n (int (pos m)) h = ground arith
  above n (int (negsuc m)) h = cc
  above n Number.fraction h = cc
  above n Number.non_finite h = cc

  within : (n : ℕ) (x : Number) → is_int_at_most n x ≡ true → natural x ≤ n
  within n (int (pos m)) h = ground arith
  within n (int (negsuc m)) h = omega arith
  within n Number.fraction h = cc
  within n Number.non_finite h = cc

  amount_bounds :
      (s : Text) (max : ℕ)
      → is_positive_int_string s ≡ true
      → is_big_int_at_most max (big_int s) ≡ true
      → (0 < digits_value 0 s) × (digits_value 0 s ≤ max)
  amount_bounds s max g m = ground (arith, big_int_positive s g)

  -- Every intent that `buildIntent` returns has both amounts above 0 and within the width of the
  -- wire format, a chain id above 0, and a deadline strictly ahead of the clock by at most the
  -- horizon.
  pub build_intent_bounds :
      (p : IntentParams) (o : BuildOptions) (now random : ℕ) {i : Intent} {warned : Bool}
      → build_intent is_address p o now random ≡ ok (i, warned)
      → (0 < digits_value 0 i.source_amount)
        × (digits_value 0 i.source_amount ≤ u128_max)
        × (0 < digits_value 0 i.min_dest_amount)
        × (digits_value 0 i.min_dest_amount ≤ i128_max)
        × (0 < i.source_chain_id)
        × (now < i.deadline)
        × (i.deadline ≤ now + max_deadline_horizon)
  build_intent_bounds p o now random h =
      let (v, same) = build_intent-Passed p o now random h in
      let (a, b) = amount_bounds p.source_amount u128_max v.amount v.amount_max in
      let (c, d) = amount_bounds p.min_dest_amount i128_max v.least v.least_max in
      rw same (
        a,
        b,
        c,
        d,
        above 0 p.source_chain_id v.chain,
        above now p.deadline v.ahead,
        within (now + max_deadline_horizon) p.deadline v.horizon,
      )

  -- Validation is the only hurdle: with the warning switched off a valid intent is always built.
  pub build_intent_total :
      (p : IntentParams) (o : BuildOptions) (now random : ℕ)
      → validate_intent is_address p now ≡ ok tt
      → o.suppress_warning ≡ some true
      → build_intent is_address p o now random ≡ ok (assemble p random, false)
  unfolding build_intent
  build_intent_total p o now random h quiet =
      let v = validate_intent-Passed p now h in
      rw (
        h,
        validate_amount_ok p.source_amount _ u128_max v.amount v.amount_max,
        validate_amount_ok p.min_dest_amount _ i128_max v.least v.least_max,
        quiet,
      )
