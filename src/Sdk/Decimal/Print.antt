-- ===== src/Sdk/Decimal/Print.antt =====
-- Printing a number and reading it back; the amount grammars admit what is printed, and their
-- texts have a `BigInt` value.
use perihelion.Prelude.{
  ℕ, zero, suc, ◌+◌, ◌-◌, ◌*◌, ◌/◌, ◌%◌, ◌≤◌, ◌<◌, ◌≡◌, refl, ap, sym, ◌∙◌, Bool, true, false, ◌&&◌,
  [], ◌∷◌, some, ltb, leb, arith, Bool-cases, inl, inr,
}
use perihelion.Prelude.Int.{pos}
use perihelion.Prelude.Text.{Text, is_digit, all_units}
use perihelion.Sdk.Decimal.{
  digits_value, is_digits, is_positive_int_string, is_non_neg_int_string, print_loop, to_text,
  big_int, trim, drop_end_spaces,
}

-- Reading what the loop prints: the digits of `n` first, then what stood there.
digits_value-print_loop :
    (fuel n : ℕ) (acc : Text)
    → n < fuel
    → digits_value 0 (print_loop fuel n acc) ≡ digits_value n acc
unfolding print_loop digits_value
digits_value-print_loop zero n acc h = absurd (omega arith)
digits_value-print_loop (suc fuel) n acc h = elim (Bool-cases (ltb n 10)) [
  | inl e ↦
      rw (e, print_loop)
        (let d : 0 * 10 + (b'0' + n - b'0') ≡ n = omega arith in ap (λ k. digits_value k acc) d)
  | inr e ↦
      rw (e, print_loop)
        (digits_value-print_loop fuel (n / 10) ((b'0' + n % 10) ∷ acc) (ground arith)
          ∙ (let d : n / 10 * 10 + (b'0' + n % 10 - b'0') ≡ n = omega arith in
              ap (λ k. digits_value k acc) d))
]

-- A printed number reads back as itself.
pub digits_value-to_text : (n : ℕ) → digits_value 0 (to_text n) ≡ n
unfolding to_text digits_value
digits_value-to_text n = digits_value-print_loop (n + 1) n [] (omega arith)

pub to_text_injective : (m n : ℕ) → to_text m ≡ to_text n → m ≡ n
to_text_injective m n e =
    sym (digits_value-to_text m) ∙ ap (digits_value 0) e ∙ digits_value-to_text n

abbrev starts_high : Text → Bool
starts_high [] = false
starts_high (c ∷ s) = leb b'1' c && leb c b'9'

print_loop_digits :
    (fuel n : ℕ) (acc : Text)
    → n < fuel
    → 0 < n
    → all_units is_digit acc ≡ true
    → is_positive_int_string (print_loop fuel n acc) ≡ true
unfolding print_loop is_positive_int_string
print_loop_digits zero n acc h p a = absurd (omega arith)
print_loop_digits (suc fuel) n acc h p a = elim (Bool-cases (ltb n 10)) [
  | inl e ↦ rw (e, print_loop) (ground arith)
  | inr e ↦
      rw (e, print_loop)
        (print_loop_digits fuel (n / 10) ((b'0' + n % 10) ∷ acc) (ground arith) (ground arith)
          (ground arith))
]

pub is_positive_int_string-to_text : (n : ℕ) → 0 < n → is_positive_int_string (to_text n) ≡ true
unfolding to_text all_units
is_positive_int_string-to_text n p = print_loop_digits (n + 1) n [] (omega arith) p refl

positive_is_non_neg : (s : Text) → is_positive_int_string s ≡ true → is_non_neg_int_string s ≡ true
unfolding is_non_neg_int_string
positive_is_non_neg [] e = e
positive_is_non_neg (c ∷ []) e = ground arith
positive_is_non_neg (c ∷ d ∷ s) e = e

-- Every printed number has the grammar of a nonce.
pub is_non_neg_int_string-to_text : (n : ℕ) → is_non_neg_int_string (to_text n) ≡ true
unfolding to_text is_non_neg_int_string
is_non_neg_int_string-to_text zero = refl
is_non_neg_int_string-to_text (suc n) =
    positive_is_non_neg (to_text (suc n)) (is_positive_int_string-to_text (suc n) (omega arith))

drop_end_spaces_digits : (s : Text) → all_units is_digit s ≡ true → drop_end_spaces s ≡ s
unfolding drop_end_spaces all_units is_digit
drop_end_spaces_digits [] e = refl
drop_end_spaces_digits (c ∷ []) e = ground arith
drop_end_spaces_digits (c ∷ d ∷ s) e =
    let ih : drop_end_spaces (d ∷ s) ≡ d ∷ s = drop_end_spaces_digits (d ∷ s) (ground arith) in
    rw ih

pub trim_digits : (s : Text) → all_units is_digit s ≡ true → trim s ≡ s
unfolding trim all_units is_digit
trim_digits [] e = refl
trim_digits (c ∷ s) e = ground (arith, drop_end_spaces_digits (c ∷ s) e)

digits_of_positive : (s : Text) → is_positive_int_string s ≡ true → is_digits s ≡ true
unfolding is_positive_int_string is_digits
digits_of_positive [] e = cc
digits_of_positive (c ∷ s) e = ground arith

digits_value-le : (acc : ℕ) (s : Text) → acc ≤ digits_value acc s
unfolding digits_value
digits_value-le acc [] = omega arith
digits_value-le acc (c ∷ s) = omega (arith, digits_value-le (acc * 10 + (c - b'0')) s)

-- `BigInt` of a text with the grammar of an amount never throws and is above 0.
pub big_int_positive :
    (s : Text)
    → is_positive_int_string s ≡ true
    → (big_int s ≡ some (pos (digits_value 0 s))) × (0 < digits_value 0 s)
unfolding big_int is_digits is_positive_int_string digits_value
big_int_positive [] e = cc
big_int_positive (c ∷ s) e = (
  ground (arith, trim_digits (c ∷ s), digits_of_positive (c ∷ s) e),
  omega (arith, digits_value-le (0 * 10 + (c - b'0')) s, first),
)
  where
    first : 0 < 0 * 10 + (c - b'0')
    first = ground arith
