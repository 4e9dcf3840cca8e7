-- ===== src/Sdk/Decimal.antt =====
-- Numbers as texts: `BigInt(text)`, `toString()`, and the two amount grammars of sdk/src/intent.ts.
pub mod Print
use perihelion.Prelude.{
  ℕ, zero, suc, ◌+◌, ◌-◌, ◌*◌, ◌/◌, ◌%◌, Bool, true, false, ◌&&◌, ◌||◌, not, List, [], ◌∷◌, ◌++◌,
  Option, none, some, ltb, leb, ◌==◌, if◌then◌else◌,
}
use perihelion.Prelude.Int.{ℤ, pos, negsuc, sub_ℕ}
use perihelion.Prelude.Text.{Text, is_digit, all_units}

-- The value of a text of decimal digits.
unfoldable pub digits_value : ℕ → Text → ℕ
digits_value acc [] = acc
digits_value acc (c ∷ s) = digits_value (acc * 10 + (c - b'0')) s

-- White space that ASCII has.
abbrev is_space : ℕ → Bool
is_space c = c == 32 || (leb 9 c && leb c 13)

unfoldable pub drop_spaces : Text → Text
drop_spaces [] = []
drop_spaces (c ∷ s) = if is_space c then drop_spaces s else c ∷ s

unfoldable pub drop_end_spaces : Text → Text
drop_end_spaces [] = []
drop_end_spaces (c ∷ s) = elim (drop_end_spaces s) [
  | [] ↦ if is_space c then [] else c ∷ []
  | d ∷ r ↦ c ∷ d ∷ r
]

-- `s.trim()`.
unfoldable pub trim : Text → Text
unfolding drop_spaces drop_end_spaces
trim s = drop_end_spaces (drop_spaces s)

-- `/^\d+$/`.
unfoldable pub is_digits : Text → Bool
unfolding is_digit all_units
is_digits [] = false
is_digits (c ∷ s) = all_units is_digit (c ∷ s)

signed : Text → Option ℤ
unfolding is_digits digits_value
signed [] = some (pos 0)
signed (c ∷ s) =
    if is_digits (c ∷ s)
    then some (pos (digits_value 0 (c ∷ s)))
    else if not (is_digits s)
    then none
    else if c == b'-'
    then some (sub_ℕ 0 (digits_value 0 s))
    else if c == b'+'
    then some (pos (digits_value 0 s))
    else none

-- `BigInt(text)` on decimal texts, which a sign and white space may surround; the empty text is 0.
-- The prefixes 0x, 0o and 0b, which no amount that the package accepts can have, are left out:
-- such a text counts as malformed here.
unfoldable pub big_int : Text → Option ℤ
unfolding trim signed
big_int s = signed (trim s)

-- `/^[1-9][0-9]*$/`.
unfoldable pub is_positive_int_string : Text → Bool
unfolding is_digit all_units
is_positive_int_string [] = false
is_positive_int_string (c ∷ s) = leb b'1' c && leb c b'9' && all_units is_digit s

-- `/^(?:0|[1-9][0-9]*)$/`.
unfoldable pub is_non_neg_int_string : Text → Bool
unfolding is_positive_int_string
is_non_neg_int_string [] = false
is_non_neg_int_string (c ∷ []) = c == b'0' || is_positive_int_string (c ∷ [])
is_non_neg_int_string (c ∷ d ∷ s) = is_positive_int_string (c ∷ d ∷ s)

-- The digits of a number in front of a text, with fuel for each of them.
unfoldable pub print_loop : ℕ → ℕ → Text → Text
print_loop zero n acc = acc
print_loop (suc fuel) n acc =
    let more = print_loop fuel (n / 10) ((b'0' + n % 10) ∷ acc) in
    if ltb n 10 then (b'0' + n) ∷ acc else more

-- `n.toString()` of a natural number: it has at most n + 1 digits.
unfoldable pub to_text : ℕ → Text
unfolding print_loop
to_text n = print_loop (n + 1) n []
