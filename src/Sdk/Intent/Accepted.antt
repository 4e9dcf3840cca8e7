-- ===== src/Sdk/Intent/Accepted.antt =====
-- `buildIntent` against `parseIntent`: a built intent, sent as JSON, is parsed back unchanged.
use perihelion.Prelude.{
  ℕ, zero, suc, ◌<◌, ◌≡◌, refl, Bool, true, Option, none, some, arith, or_default,
}
use perihelion.Prelude.Int.{pos}
use perihelion.Prelude.Text.{Text, codes}
use perihelion.Prelude.Result.{ok}
use perihelion.Sdk.Types.{Intent}
use perihelion.Sdk.Json.{int, Value, num, str, obj, field, end, prop}
use perihelion.Sdk.Stellar.{is_stellar_address, is_stellar_asset}
use perihelion.Sdk.Decimal.{is_positive_int_string, is_non_neg_int_string, to_text}
use perihelion.Sdk.Decimal.Print.{is_non_neg_int_string-to_text}
use perihelion.Sdk.Validate.{
  parse_intent, as_address, as_stellar_address, as_stellar_asset, as_positive_integer,
  as_positive_integer_string, as_integer_string,
}
use perihelion.Sdk.Intent.{
  IntentParams, BuildOptions, zero_address, is_nonce, opt_passes, assemble, build_intent,
}
use perihelion.Sdk.Intent.Bounds.{build_intent-Passed, build_intent_bounds}

-- The JSON of an intent.
unfoldable pub to_value : Intent → Value
to_value i = obj (
    field (codes "user") (str i.user) (
      field (codes "destination") (str i.destination) (
        field (codes "sourceChainId") (num (int (pos i.source_chain_id))) (
          field (codes "sourceAsset") (str i.source_asset) (
            field (codes "sourceAmount") (str i.source_amount) (
              field (codes "destAsset") (str i.dest_asset) (
                field (codes "minDestAmount") (str i.min_dest_amount) (
                  field (codes "deadline") (num (int (pos i.deadline))) (
                    field (codes "nonce") (str i.nonce)
                      (field (codes "preferredSolver") (str i.preferred_solver) end))))))))))

-- The tests of `parseIntent` on an intent.
pub record Parses (is_address : Text → Bool) (i : Intent) : Type 0 where
  pub user : is_address i.user ≡ true
  pub destination : is_stellar_address i.destination ≡ true
  pub chain : 0 < i.source_chain_id
  pub asset : is_address i.source_asset ≡ true
  pub amount : is_positive_int_string i.source_amount ≡ true
  pub dest : is_stellar_asset i.dest_asset ≡ true
  pub least : is_positive_int_string i.min_dest_amount ≡ true
  pub deadline : 0 < i.deadline
  pub nonce : is_non_neg_int_string i.nonce ≡ true
  pub solver : is_address i.preferred_solver ≡ true

as_positive_integer_pos :
    (n : ℕ) (f : Text) → 0 < n → as_positive_integer (num (int (pos n))) f ≡ ok n
unfolding as_positive_integer
as_positive_integer_pos zero f h = absurd (omega arith)
as_positive_integer_pos (suc n) f h = refl

module _ (is_address : Text → Bool) where
  -- An intent that passes the tests is parsed from its JSON unchanged.
  pub parse_intent-to_value :
      (i : Intent) → Parses is_address i → parse_intent is_address (to_value i) ≡ ok i
  unfolding parse_intent to_value prop as_address as_stellar_address as_stellar_asset
      as_positive_integer_string as_integer_string
  parse_intent-to_value i t = rw (
    t.user,
    t.destination,
    as_positive_integer_pos i.source_chain_id (codes "intent.sourceChainId") t.chain,
    t.asset,
    t.amount,
    t.dest,
    t.least,
    as_positive_integer_pos i.deadline (codes "intent.deadline") t.deadline,
    t.nonce,
    t.solver,
  )

  nonce_printed :
      (n : Option Text) (random : ℕ)
      → is_nonce n ≡ true
      → is_non_neg_int_string (or_default n (to_text random)) ≡ true
  unfolding is_nonce
  nonce_printed none random h = is_non_neg_int_string-to_text random
  nonce_printed (some s) random h = ground arith

  solver_given :
      (s : Option Text)
      → is_address zero_address ≡ true
      → opt_passes is_address s ≡ true
      → is_address (or_default s zero_address) ≡ true
  solver_given none z h = z
  solver_given (some s) z h = h

  -- Whatever `buildIntent` returns, the parser of the mempool accepts as JSON and gives back
  -- unchanged, provided that `isAddress` accepts the zero address.
  pub build_intent-parse_intent :
      (p : IntentParams) (o : BuildOptions) (now random : ℕ) {i : Intent} {warned : Bool}
      → is_address zero_address ≡ true
      → build_intent is_address p o now random ≡ ok (i, warned)
      → parse_intent is_address (to_value i) ≡ ok i
  build_intent-parse_intent p o now random {i} z h =
      let (v, same) = build_intent-Passed is_address p o now random h in
      let (_, _, _, _, chain, ahead, _) = build_intent_bounds is_address p o now random h in
      let t : Parses is_address (assemble p random) = record {
        user = v.user;
        destination = v.destination;
        chain = rw same at chain;
        asset = v.asset;
        amount = v.amount;
        dest = v.dest;
        least = v.least;
        deadline = omega (arith, rw same at ahead);
        nonce = nonce_printed p.nonce random v.nonce;
        solver = solver_given p.preferred_solver z v.solver;
      } in
      rw same (parse_intent-to_value (assemble p random) t)
