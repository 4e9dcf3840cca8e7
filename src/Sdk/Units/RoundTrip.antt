-- ===== src/Sdk/Units/RoundTrip.antt =====
-- An amount that is printed in units of an asset reads back as the same amount.
use perihelion.Prelude.{
  ℕ, zero, suc, ◌+◌, ◌-◌, ◌*◌, ◌/◌, ◌%◌, ◌^◌, ◌≤◌, ◌<◌, ◌≡◌, inl, inr, refl, sym, ap, ◌∙◌, Bool,
  true, false, ◌||◌, [], ◌∷◌, ◌++◌, append-nil, none, some, length, length-append, ltb, leb, ◌==◌,
  arith, Bool-cases, subst, both_of, ==→eq,
}
use perihelion.Prelude.Text.{Text, is_digit, all_units}
use perihelion.Prelude.Result.{ok, ◌>>=◌}
use perihelion.Prelude.Int.{pos}
use perihelion.Sdk.Json.{int}
use perihelion.Sdk.Decimal.{digits_value, trim, drop_end_spaces, is_digits, print_loop, to_text}
use perihelion.Sdk.Decimal.Print.{digits_value-to_text}
use perihelion.Sdk.Bytes.{repeated, pad_start, pad_end}
use perihelion.Sdk.Bytes.Laws.{length-repeated}
use perihelion.Sdk.Units.{
  split_dot, is_decimal, scale, to_smallest_units, drop_end_zeros, in_front, joined, print_units,
  signed_digits, from_smallest_units, assert_valid_decimals, max_decimals,
}
use native.Mathlib.Nat.{mod-lt, div-add-mod}
use perihelion.Sdk.Decimal.Print.{trim_digits}

-- Texts of digits only.
abbrev Digits : Text → Type 0
Digits s = all_units is_digit s ≡ true

Digits-append : (s t : Text) → Digits s → Digits t → Digits (s ++ t)
unfolding all_units
Digits-append [] t h k = k
Digits-append (c ∷ s) t h k =
    let (a, b) = both_of (is_digit c) _ h in rw (a, Digits-append s t b k) refl

Digits-repeated : (n : ℕ) → Digits (repeated b'0' n)
unfolding all_units repeated is_digit
Digits-repeated zero = refl
Digits-repeated (suc n) = Digits-repeated n

Digits-print_loop :
    (fuel n : ℕ) (acc : Text) → n < fuel → Digits acc → Digits (print_loop fuel n acc)
unfolding print_loop all_units is_digit
Digits-print_loop zero n acc h d = absurd (omega arith)
Digits-print_loop (suc fuel) n acc h d = elim (Bool-cases (ltb n 10)) [
  | inl e ↦ rw (e, print_loop) (ground arith)
  | inr e ↦
      rw (e, print_loop)
        (Digits-print_loop fuel (n / 10) ((b'0' + n % 10) ∷ acc) (ground arith) (ground arith))
]

Digits-to_text : (n : ℕ) → Digits (to_text n)
unfolding to_text all_units
Digits-to_text n = Digits-print_loop (n + 1) n [] (omega arith) refl

length-print_loop :
    (k fuel n : ℕ) (acc : Text)
    → n < 10 ^ suc k
    → length (print_loop fuel n acc) ≤ suc k + length acc
unfolding print_loop
length-print_loop k zero n acc h = omega arith
length-print_loop zero (suc fuel) n acc h = ground arith
length-print_loop (suc k) (suc fuel) n acc h =
    ground (arith, length-print_loop k fuel (n / 10) ((b'0' + n % 10) ∷ acc) (omega arith))

digits_value-append :
    (acc : ℕ) (s t : Text) → digits_value acc (s ++ t) ≡ digits_value (digits_value acc s) t
unfolding digits_value
digits_value-append acc [] t = refl
digits_value-append acc (c ∷ s) t = digits_value-append (acc * 10 + (c - b'0')) s t

digits_value-zeros : (m : ℕ) → digits_value 0 (repeated b'0' m) ≡ 0
unfolding digits_value repeated
digits_value-zeros zero = refl
digits_value-zeros (suc m) = digits_value-zeros m

-- What is dropped is zeros.
in_front_lem :
    (c : ℕ) (r s : Text) (m : ℕ)
    → s ≡ r ++ repeated b'0' m
    → (k : ℕ) × (c ∷ s ≡ in_front c r ++ repeated b'0' k)
unfolding in_front repeated
in_front_lem c [] s m e = elim (Bool-cases (c == b'0')) [
  | inl z ↦
      let zero_unit : c ≡ b'0' = ==→eq _ _ z in (suc m, rw (z, zero_unit) (ap (λ t. b'0' ∷ t) e))
  | inr z ↦ (m, rw z (ap (λ t. c ∷ t) e))
]
in_front_lem c (d ∷ r) s m e = (m, ap (λ t. c ∷ t) e)

drop_end_zeros_lem : (s : Text) → (m : ℕ) × (s ≡ drop_end_zeros s ++ repeated b'0' m)
unfolding drop_end_zeros repeated
drop_end_zeros_lem [] = (0, refl)
drop_end_zeros_lem (c ∷ s) =
    let (m, e) = drop_end_zeros_lem s in in_front_lem c (drop_end_zeros s) s m e

Digits-prefix : (s t : Text) → Digits (s ++ t) → Digits s
unfolding all_units
Digits-prefix [] t h = refl
Digits-prefix (c ∷ s) t h =
    let (a, b) = both_of (is_digit c) _ h in rw (a, Digits-prefix s t b) refl

length-to_text : (k n : ℕ) → n < 10 ^ suc k → length (to_text n) ≤ suc k
unfolding to_text
length-to_text k n h = omega (arith, length-print_loop k (n + 1) n [] h)

zero_frac :
    (length (drop_end_zeros (pad_start 0 b'0' (to_text 0))) ≤ 0)
    × Digits (drop_end_zeros (pad_start 0 b'0' (to_text 0)))
    × (digits_value 0 (pad_end 0 b'0' (drop_end_zeros (pad_start 0 b'0' (to_text 0)))) ≡ 0)
unfolding drop_end_zeros in_front pad_start pad_end to_text print_loop repeated digits_value
    all_units
zero_frac = (omega arith, refl, refl)

-- The digits behind the dot: at most `n`, and filled up they denote the same number.
frac_lem :
    (n r : ℕ)
    → r < 10 ^ n
    → (let frac = drop_end_zeros (pad_start n b'0' (to_text r)) in
        (length frac ≤ n) × Digits frac × (digits_value 0 (pad_end n b'0' frac) ≡ r))
unfolding pad_start pad_end
frac_lem zero r h = let none_left : r ≡ 0 = omega arith in rw none_left zero_frac
frac_lem (suc k) r h =
    let shown = to_text r in
    let padded = pad_start (suc k) b'0' shown in
    let frac = drop_end_zeros padded in
    let short = length-to_text k r h in
    let (m, e) = drop_end_zeros_lem padded in
    let full : length padded ≡ suc k =
      length-append (repeated b'0' (suc k - length shown)) shown
      ∙ omega (arith, length-repeated b'0' (suc k - length shown), short) in
    let parts : length frac + m ≡ suc k =
      omega
        (arith, full, ap length e, length-append frac (repeated b'0' m), length-repeated b'0' m) in
    let filled : pad_end (suc k) b'0' frac ≡ padded =
      let rest : suc k - length frac ≡ m = omega (arith, parts) in
      ap (λ (j : ℕ). frac ++ repeated b'0' j) rest ∙ sym e in
    (
      omega (arith, parts),
      Digits-prefix frac (repeated b'0' m) (
          subst Digits e
            (Digits-append _ shown (Digits-repeated (suc k - length shown)) (Digits-to_text r))),
      ap (digits_value 0) filled
          ∙ digits_value-append 0 (repeated b'0' (suc k - length shown)) shown
          ∙ ap (λ (a : ℕ). digits_value a shown) (digits_value-zeros (suc k - length shown))
          ∙ digits_value-to_text r,
    )

print_loop_longer :
    (fuel n : ℕ) (acc : Text) → n < fuel → length acc < length (print_loop fuel n acc)
unfolding print_loop
print_loop_longer zero n acc h = absurd (omega arith)
print_loop_longer (suc fuel) n acc h =
    ground (arith, print_loop_longer fuel (n / 10) ((b'0' + n % 10) ∷ acc))

is_digits_of : (s : Text) → Digits s → 0 < length s → is_digits s ≡ true
unfolding is_digits
is_digits_of [] d h = absurd (omega arith)
is_digits_of (c ∷ s) d h = d

is_digits-to_text : (n : ℕ) → is_digits (to_text n) ≡ true
unfolding to_text
is_digits-to_text n =
    is_digits_of (to_text n) (Digits-to_text n) (print_loop_longer (n + 1) n [] (omega arith))

signed_digits_of : (s : Text) → is_digits s ≡ true → signed_digits s ≡ some (false, s)
unfolding signed_digits is_digits all_units is_digit
signed_digits_of [] d = cc
signed_digits_of (c ∷ s) d =
    let (a, b) = both_of (is_digit c) _ d in
    let other : (c == b'-') ≡ false = ground arith in rw (other, d) refl

ten_pow_pos : (n : ℕ) → 0 < 10 ^ n
ten_pow_pos zero = omega arith
ten_pow_pos (suc n) = omega (arith, ten_pow_pos n)

-- Digits and a dot.
abbrev is_plain : ℕ → Bool
is_plain c = is_digit c || c == b'.'

drop_end_spaces_plain : (s : Text) → all_units is_plain s ≡ true → drop_end_spaces s ≡ s
unfolding drop_end_spaces all_units is_digit
drop_end_spaces_plain [] e = refl
drop_end_spaces_plain (c ∷ []) e = ground arith
drop_end_spaces_plain (c ∷ d ∷ s) e =
    let (a, b) = both_of (is_plain c) _ e in rw (drop_end_spaces_plain (d ∷ s) b) refl

trim_plain : (s : Text) → all_units is_plain s ≡ true → trim s ≡ s
unfolding trim all_units is_digit
trim_plain [] e = refl
trim_plain (c ∷ s) e = ground (arith, drop_end_spaces_plain (c ∷ s) e)

plain_of_Digits :
    (s t : Text) → Digits s → all_units is_plain t ≡ true → all_units is_plain (s ++ t) ≡ true
unfolding all_units
plain_of_Digits [] t d p = p
plain_of_Digits (c ∷ s) t d p =
    let (a, b) = both_of (is_digit c) _ d in rw (a, plain_of_Digits s t b p) refl

not_dot : (c : ℕ) → is_digit c ≡ true → (c == b'.') ≡ false
unfolding is_digit
not_dot c h = ground arith

split_dot-whole : (whole : Text) → Digits whole → split_dot whole ≡ (whole, none)
unfolding split_dot all_units
split_dot-whole [] d = refl
split_dot-whole (c ∷ s) d =
    let (a, b) = both_of (is_digit c) _ d in rw (not_dot c a, split_dot-whole s b) refl

split_dot-point :
    (whole frac : Text) → Digits whole → split_dot (whole ++ b'.' ∷ frac) ≡ (whole, some frac)
unfolding split_dot all_units
split_dot-point [] frac d = refl
split_dot-point (c ∷ s) frac d =
    let (a, b) = both_of (is_digit c) _ d in rw (not_dot c a, split_dot-point s frac b) refl

-- Reading whole units and a fraction that are joined by a dot, or whole units alone.
to_smallest_units-joined :
    (n : ℕ) (whole frac : Text)
    → leb n max_decimals ≡ true
    → is_digits whole ≡ true
    → Digits whole
    → Digits frac
    → to_smallest_units (joined whole frac) (int (pos n)) ≡ scale n whole frac
unfolding to_smallest_units assert_valid_decimals is_decimal is_digits all_units
to_smallest_units-joined n whole [] small w d f =
    let plain =
      subst (λ (t : Text). all_units is_plain t ≡ true) (append-nil whole)
        (plain_of_Digits whole [] d f) in
    rw (small, trim_plain whole plain, split_dot-whole whole d, w) refl
to_smallest_units-joined n whole (c ∷ frac) small w d f =
    let behind =
      subst (λ (t : Text). all_units is_plain t ≡ true) (append-nil (c ∷ frac))
        (plain_of_Digits (c ∷ frac) [] f refl) in
    let plain = plain_of_Digits whole (b'.' ∷ c ∷ frac) d behind in
    rw
      (small, trim_plain (whole ++ b'.' ∷ c ∷ frac) plain, split_dot-point whole (c ∷ frac) d, w, f)
      refl

scale_lem :
    (n v : ℕ) (frac : Text)
    → length frac ≤ n
    → digits_value 0 (pad_end n b'0' frac) ≡ v % 10 ^ n
    → scale n (to_text (v / 10 ^ n)) frac ≡ ok (to_text v)
unfolding scale
scale_lem n v frac short e =
    let fits : ltb n (length frac) ≡ false = ground arith in
    let whole : v / 10 ^ n * 10 ^ n + v % 10 ^ n ≡ v = omega (arith, div-add-mod v (10 ^ n)) in
    rw (fits, digits_value-to_text (v / 10 ^ n), e, whole) refl

-- Printing an amount of smallest units with up to 36 decimals and reading the text back with the
-- same number of decimals returns the amount.
pub to_smallest_units-from_smallest_units :
    (v n : ℕ)
    → n ≤ max_decimals
    → from_smallest_units (to_text v) (int (pos n)) >>= (λ t. to_smallest_units t (int (pos n)))
      ≡ ok (to_text v)
unfolding from_smallest_units assert_valid_decimals print_units
to_smallest_units-from_smallest_units v n h =
    let small : leb n max_decimals ≡ true = ground arith in
    let (short, digits, value) = frac_lem n (v % 10 ^ n) (mod-lt v (ten_pow_pos n)) in
    rw
      (
        small,
        trim_digits (to_text v) (Digits-to_text v),
        signed_digits_of (to_text v) (is_digits-to_text v),
        digits_value-to_text v,
        to_smallest_units-joined n (to_text (v / 10 ^ n)) _ small (is_digits-to_text (v / 10 ^ n))
            (Digits-to_text (v / 10 ^ n)) digits,
      )
      (scale_lem n v _ short value)
