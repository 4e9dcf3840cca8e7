-- ===== src/Sdk/Validate.antt =====
-- sdk/src/validate.ts: the checks on JSON from the mempool. `is_address` is viem's `isAddress`.
-- An error names the field at fault; the text of the message is left out.
pub mod Records
pub mod Filled
use perihelion.Prelude.{
  ℕ, zero, suc, ◌≤◌, ◌≡◌, Bool, true, false, ◌&&◌, ◌||◌, List, [], ◌∷◌, Option, none, some, length,
  ltb, leb, ◌==◌, if◌then◌else◌,
}
use perihelion.Prelude.Int.{ℤ, pos, negsuc}
use perihelion.Prelude.Text.{Text, codes, text_eq, text_discrete, is_hex_digit, all_units}
use perihelion.Prelude.Result.{Result, ok, err, ◌>>=◌}
use perihelion.Sdk.Types.{
  Intent, SignedIntent, MempoolIntentStatus, pending, settled, refunded, expired,
}
use perihelion.Sdk.Json.{
  Number, int, Value, num, str, arr, obj, undefined, Fields, Items, prop, items,
}
use perihelion.Sdk.Stellar.{is_stellar_address, is_stellar_asset}
use perihelion.Sdk.Decimal.{is_positive_int_string, is_non_neg_int_string}

pub data MempoolResponseError : Type 0 where
  invalid : Text → MempoolResponseError
  too_large : ℕ → ℕ → MempoolResponseError

abbrev pub Parsed : Type 0 → Type 0
Parsed A = Result MempoolResponseError A

-- `/^0x[0-9a-fA-F]{n}$/`.
unfoldable pub is_hex_of : ℕ → Text → Bool
unfolding is_hex_digit all_units
is_hex_of n [] = false
is_hex_of n (c ∷ []) = false
is_hex_of n (c ∷ d ∷ s) = c == b'0' && d == b'x' && length s == n && all_units is_hex_digit s

unfoldable pub as_object : Value → Text → Parsed Fields
as_object (obj fs) what = ok fs
as_object _ what = err (invalid what)

unfoldable pub as_string : Value → Text → Parsed Text
as_string (str s) field = ok s
as_string _ field = err (invalid field)

unfoldable pub as_finite_number : Value → Text → Parsed Number
as_finite_number (num Number.non_finite) field = err (invalid field)
as_finite_number (num n) field = ok n
as_finite_number _ field = err (invalid field)

-- A whole number from 0 on, below a bound.
abbrev natural_below : ℕ → Text → Number → Parsed ℕ
natural_below bound field (int (pos n)) = if ltb n bound then ok n else err (invalid field)
natural_below bound field _ = err (invalid field)

unfoldable pub as_timestamp_in_seconds : Value → Text → Parsed ℕ
unfolding as_finite_number
as_timestamp_in_seconds v field = do
  n ← as_finite_number v field
  natural_below 100_000_000_000 field n

unfoldable pub as_positive_integer : Value → Text → Parsed ℕ
as_positive_integer (num (int (pos (suc n)))) field = ok (suc n)
as_positive_integer _ field = err (invalid field)

-- A text that passes a test.
abbrev pub checked : (Text → Bool) → Value → Text → Parsed Text
checked test v field = elim v [
  | str s ↦ if test s then ok s else err (invalid field)
  | _ ↦ err (invalid field)
]

unfoldable pub as_hash : Value → Text → Parsed Text
unfolding is_hex_of
as_hash v field = checked (is_hex_of 64) v field

unfoldable pub as_signature : Value → Text → Parsed Text
unfolding is_hex_of
as_signature v field = checked (is_hex_of 130) v field

unfoldable pub as_stellar_address : Value → Text → Parsed Text
as_stellar_address v field = checked is_stellar_address v field

unfoldable pub as_stellar_asset : Value → Text → Parsed Text
as_stellar_asset v field = checked is_stellar_asset v field

unfoldable pub as_integer_string : Value → Text → Parsed Text
as_integer_string v field = checked is_non_neg_int_string v field

unfoldable pub as_positive_integer_string : Value → Text → Parsed Text
as_positive_integer_string v field = checked is_positive_int_string v field

module _ (is_address : Text → Bool) where
  unfoldable pub as_address : Value → Text → Parsed Text
  as_address v field = checked is_address v field

  unfoldable pub parse_intent : Value → Parsed Intent
  unfolding as_object
  parse_intent value = do
    v ← as_object value (codes "'intent'")
    user ← as_address (prop (codes "user") v) (codes "intent.user")
    destination ← as_stellar_address (prop (codes "destination") v) (codes "intent.destination")
    chain ← as_positive_integer (prop (codes "sourceChainId") v) (codes "intent.sourceChainId")
    asset ← as_address (prop (codes "sourceAsset") v) (codes "intent.sourceAsset")
    amount ←
        as_positive_integer_string (prop (codes "sourceAmount") v) (codes "intent.sourceAmount")
    dest ← as_stellar_asset (prop (codes "destAsset") v) (codes "intent.destAsset")
    least ←
        as_positive_integer_string (prop (codes "minDestAmount") v) (codes "intent.minDestAmount")
    deadline ← as_positive_integer (prop (codes "deadline") v) (codes "intent.deadline")
    nonce ← as_integer_string (prop (codes "nonce") v) (codes "intent.nonce")
    solver ← as_address (prop (codes "preferredSolver") v) (codes "intent.preferredSolver")
    ok (record {
      user = user;
      destination = destination;
      source_chain_id = chain;
      source_asset = asset;
      source_amount = amount;
      dest_asset = dest;
      min_dest_amount = least;
      deadline = deadline;
      nonce = nonce;
      preferred_solver = solver;
    })

  unfoldable pub parse_signed_intent : Value → Parsed SignedIntent
  unfolding as_object
  parse_signed_intent value = do
    v ← as_object value (codes "signed intent")
    intent ← parse_intent (prop (codes "intent") v)
    signature ← as_signature (prop (codes "signature") v) (codes "signature")
    hash ← as_hash (prop (codes "hash") v) (codes "hash")
    ok (record { intent = intent; signature = signature; hash = hash })
