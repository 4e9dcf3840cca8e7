-- ===== src/Prelude/Text.antt =====
-- Strings as lists of UTF-16 code units; every text that the program inspects is ASCII.
use Prim.Native.Char.{code}
use Prim.Native.String.{String}
use Prim.Native.Nat.{ℕ, ◌+◌}
use mathlib.Core.Path.{◌≡◌, refl}
use mathlib.Core.Bool.{Bool, true, false, ◌&&◌, ◌||◌}
use mathlib.Core.List.{List, [], ◌∷◌}
use mathlib.Core.Logic.{ite}
use native.Mathlib.Omega.{arith}
use native.Mathlib.Decide.{ℕ_discrete}
use perihelion.Prelude.Tests.{leb, ◌==◌, if◌then◌else◌}
use perihelion.Prelude.Lists.{length, take}
use perihelion.Prelude.JsMap.{Key}

abbrev pub Text : Type 0
Text = List ℕ

abbrev pub codes : String → Text
codes String.[] = []
codes (String.◌∷◌ c s) = code c ∷ codes s

unfoldable pub text_discrete : Discrete Text
unfolding ℕ_discrete
text_discrete = hlevel ℕ_discrete

instance abbrev pub text_key : Key Text
text_key = record { same = text_discrete }

abbrev pub text_eq : Text → Text → Bool
text_eq s t = ite (text_discrete s t) true false

-- `c.toLowerCase()` and `s.toLowerCase()` on ASCII.
unfoldable pub lower_unit : ℕ → ℕ
lower_unit c = if leb b'A' c && leb c b'Z' then c + 32 else c

unfoldable pub to_lower_case : Text → Text
unfolding lower_unit
to_lower_case [] = []
to_lower_case (c ∷ s) = lower_unit c ∷ to_lower_case s

unfoldable pub is_digit : ℕ → Bool
is_digit c = leb b'0' c && leb c b'9'

-- `[0-9a-fA-F]`.
unfoldable pub is_hex_digit : ℕ → Bool
unfolding is_digit
is_hex_digit c = is_digit c || ((leb b'a' c && leb c b'f') || (leb b'A' c && leb c b'F'))

unfoldable pub all_units : (ℕ → Bool) → Text → Bool
all_units p [] = true
all_units p (c ∷ s) = p c && all_units p s

-- `s.includes(part)`.
unfoldable pub includes : Text → Text → Bool
unfolding text_discrete
includes part [] = length part == 0
includes part (c ∷ s) = text_eq (take (length part) (c ∷ s)) part || includes part s

pub eq_of_text_eq : (s t : Text) → text_eq s t ≡ true → s ≡ t
eq_of_text_eq s t h = ground arith

text_eq_runs : text_eq (codes "native") (codes "native") ≡ true
unfolding text_discrete
text_eq_runs = refl

pub ne_of_text_eq : (s t : Text) → text_eq s t ≡ false → s ≡ t → ⊥
ne_of_text_eq s t h e = ground arith
