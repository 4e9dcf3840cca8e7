-- ===== src/Sdk/Units.antt =====
-- sdk/src/units.ts: amounts in units of an asset against its smallest units, and the EVM address
-- as a 32-byte word. An error names the argument at fault.
pub mod RoundTrip
pub mod Word
use perihelion.Prelude.{
  ℕ, zero, suc, ◌+◌, ◌-◌, ◌*◌, ◌/◌, ◌%◌, ◌^◌, Bool, true, false, ◌&&◌, ◌||◌, not, List, [], ◌∷◌,
  ◌++◌, Option, none, some, length, drop, ltb, leb, ◌==◌, if◌then◌else◌,
}
use perihelion.Prelude.Int.{ℤ, pos, negsuc}
use perihelion.Prelude.Text.{Text, codes, is_hex_digit}
use perihelion.Prelude.Result.{Result, err, ok, ◌>>=◌}
use perihelion.Sdk.Json.{Number, int}
use perihelion.Sdk.Decimal.{digits_value, trim, is_digits, to_text}
use perihelion.Sdk.Signature.{hex_unit}
use perihelion.Sdk.Validate.{is_hex_of}
use perihelion.Sdk.Bytes.{pad_start, pad_end, zeros, hex_bytes}

pub data UnitError : Type 0 where
  bad_decimals bad_amount too_precise bad_address : UnitError

abbrev pub max_decimals : ℕ
max_decimals = 36

-- `assertValidDecimals`, with the number that passed.
unfoldable pub assert_valid_decimals : Number → Result UnitError ℕ
assert_valid_decimals (int (pos n)) = if leb n max_decimals then ok n else err bad_decimals
assert_valid_decimals _ = err bad_decimals

-- `s.split(".")` of a text with one dot at most: the part before it and the one behind.
unfoldable pub split_dot : Text → Text × Option Text
split_dot [] = ([], none)
split_dot (c ∷ s) =
    let (whole, frac) = split_dot s in if c == b'.' then ([], some s) else (c ∷ whole, frac)

-- `/^\d+(\.\d+)?$/`; a second dot would stand in the part behind the first.
unfoldable pub is_decimal : Text × Option Text → Bool
unfolding is_digits
is_decimal (whole, none) = is_digits whole
is_decimal (whole, some frac) = is_digits whole && is_digits frac

abbrev pub frac_of : Option Text → Text
frac_of none = []
frac_of (some frac) = frac

-- The text of a decimal number in smallest units; the digits of the empty text are 0.
unfoldable pub scale : ℕ → Text → Text → Result UnitError Text
unfolding digits_value pad_end
scale decimals whole frac =
    if ltb decimals (length frac)
    then err too_precise
    else ok (
        to_text
          (digits_value 0 whole * 10 ^ decimals + digits_value 0 (pad_end decimals b'0' frac)))

unfoldable pub to_smallest_units : Text → Number → Result UnitError Text
to_smallest_units human decimals = assert_valid_decimals decimals >>= λ n.
    let parts = split_dot (trim human) in
    if is_decimal parts then scale n parts.0 (frac_of parts.1) else err bad_amount

-- A unit in front of a text without zeros at the end.
unfoldable pub in_front : ℕ → Text → Text
in_front c [] = if c == b'0' then [] else c ∷ []
in_front c (d ∷ s) = c ∷ d ∷ s

-- `s.replace(/0+$/, "")`.
unfoldable pub drop_end_zeros : Text → Text
unfolding in_front
drop_end_zeros [] = []
drop_end_zeros (c ∷ s) = in_front c (drop_end_zeros s)

abbrev pub joined : Text → Text → Text
joined whole [] = whole
joined whole (c ∷ frac) = whole ++ b'.' ∷ c ∷ frac

unfoldable pub print_units : ℕ → Bool → ℕ → Text
unfolding drop_end_zeros pad_start
print_units decimals negative abs =
    let whole = abs / 10 ^ decimals in
    let frac = drop_end_zeros (pad_start decimals b'0' (to_text (abs % 10 ^ decimals))) in
    let sign = if negative && (not (whole == 0) || not (length frac == 0)) then b'-' ∷ [] else [] in
    sign ++ joined (to_text whole) frac

-- An optional sign and digits.
unfoldable pub signed_digits : Text → Option (Bool × Text)
unfolding is_digits
signed_digits [] = none
signed_digits (c ∷ s) =
    if c == b'-'
    then (if is_digits s then some (true, s) else none)
    else if is_digits (c ∷ s)
    then some (false, c ∷ s)
    else none

unfoldable pub from_smallest_units : Text → Number → Result UnitError Text
from_smallest_units smallest decimals = assert_valid_decimals decimals >>= λ n.
    elim (signed_digits (trim smallest)) [
      | none ↦ err bad_amount
      | some (negative, digits) ↦ ok (print_units n negative (digits_value 0 digits))
    ]

-- `out[i] = b`.
unfoldable pub set_at : ℕ → ℕ → List ℕ → List ℕ
set_at i b [] = []
set_at zero b (x ∷ out) = b ∷ out
set_at (suc i) b (x ∷ out) = x ∷ set_at i b out

-- The loop that parses two digits at a time and writes them from `at` on.
unfoldable pub write_pairs : ℕ → Text → List ℕ → List ℕ
unfolding set_at hex_unit
write_pairs at (c ∷ d ∷ hex) out =
    write_pairs (at + 1) hex (set_at at (hex_unit c * 16 + hex_unit d) out)
write_pairs at _ out = out

unfoldable pub evm_address_to_bytes32 : Text → Result UnitError (List ℕ)
evm_address_to_bytes32 address =
    if is_hex_of 40 address
    then ok (write_pairs 12 (drop 2 address) (zeros 32))
    else err bad_address
