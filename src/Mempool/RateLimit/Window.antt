-- ===== src/Mempool/RateLimit/Window.antt =====
-- The promise of the rate limiter: no client gets more than `limit` requests through in any window.
use perihelion.Prelude.{
  ℕ, ◌+◌, ◌≤◌, ◌<◌, ◌≡◌, refl, true, ◌&&◌, List, [], ◌∷◌, ◌++◌, none, length, keep_if, ltb, leb,
  if◌then◌else◌, or_default, arith, ◌∙◌, ap, subst, Bool-cases, inl, inr,
}
use perihelion.Prelude.JsMap
use perihelion.Prelude.JsMap.{JsMap}
use perihelion.Prelude.Text.{Text, text_key, text_eq}
use perihelion.Mempool.RateLimit.{Limiter, in_window, recent, admit}

-- The times at which a request of one client passes, of a sequence of requests of any clients.
unfoldable pub passed : Text → ℕ → List (Text × ℕ) → Limiter → List ℕ
passed key limit [] l = []
passed key limit ((k, now) ∷ rs) l =
    let after = admit k limit now l in
    let rest = passed key limit rs after.0 in if text_eq k key && after.1 then now ∷ rest else rest

-- A clock that does not go back.
abbrev pub Ordered : ℕ → List (Text × ℕ) → Type 0
Ordered t [] = Unit {0}
Ordered t ((k, now) ∷ rs) = (t ≤ now) × Ordered now rs

-- How many times lie in the window that starts at `x`.
unfoldable pub count_in : ℕ → ℕ → List ℕ → ℕ
count_in x w [] = 0
count_in x w (t ∷ ts) =
    let rest = count_in x w ts in if leb x t && ltb t (x + w) then rest + 1 else rest

abbrev hits_of : Text → Limiter → List ℕ
hits_of key l = or_default (JsMap.get key l.hits) []

count_in-append :
    (x w t : ℕ) (ts : List ℕ)
    → count_in x w (ts ++ t ∷ []) ≡ count_in x w ts + (if leb x t && ltb t (x + w) then 1 else 0)
unfolding count_in
count_in-append x w t [] = ground arith
count_in-append x w t (u ∷ ts) = ground (arith, count_in-append x w t ts)

-- Dropping the hits outside the window at `now` drops none of a window that reaches `now`.
count_in-keep :
    (x w now : ℕ) (ts : List ℕ)
    → now < x + w
    → count_in x w (keep_if (in_window w now) ts) ≡ count_in x w ts
unfolding count_in
count_in-keep x w now [] h = refl
count_in-keep x w now (t ∷ ts) h = ground (arith, count_in-keep x w now ts h)

count_in-le : (x w : ℕ) (ts : List ℕ) → count_in x w ts ≤ length ts
unfolding count_in
count_in-le x w [] = omega arith
count_in-le x w (t ∷ ts) = ground (arith, count_in-le x w ts)

admit-window :
    (key : Text) (limit now : ℕ) (l : Limiter) → (admit key limit now l).0.window_ms ≡ l.window_ms
unfolding admit
admit-window key limit now l = ground arith

hits_of-admit :
    (key k : Text) (limit now : ℕ) (l : Limiter)
    → hits_of key (admit k limit now l).0 ≡ (
        if text_eq k key && (admit k limit now l).1
        then recent key now l ++ now ∷ []
        else hits_of key l)
unfolding admit
hits_of-admit key k limit now l =
    ground (arith, JsMap.get-set k key (recent k now l ++ now ∷ []) l.hits)

-- Whoever passes had fewer than `limit` hits.
admitted_lt :
    (key : Text) (limit now : ℕ) (l : Limiter)
    → (admit key limit now l).1 ≡ true
    → length (recent key now l) < limit
unfolding admit
admitted_lt key limit now l h = ground arith

-- Once the window is over, nothing later counts.
passed_late :
    (key : Text) (limit x w : ℕ) (rs : List (Text × ℕ)) (t : ℕ) (l : Limiter)
    → Ordered t rs
    → x + w ≤ t
    → count_in x w (passed key limit rs l) ≡ 0
unfolding passed count_in
passed_late key limit x w [] t l o h = refl
passed_late key limit x w ((k, now) ∷ rs) t l o h =
    ground (arith, passed_late key limit x w rs now (admit k limit now l).0 o.1 (ground arith))

passed-count_in :
    (key : Text) (limit x w : ℕ) (rs : List (Text × ℕ)) (t : ℕ) (l : Limiter)
    → l.window_ms ≡ w
    → Ordered t rs
    → count_in x w (hits_of key l) ≤ limit
    → count_in x w (hits_of key l) + count_in x w (passed key limit rs l) ≤ limit
unfolding passed count_in
passed-count_in key limit x w [] t l e o h = ground arith
passed-count_in key limit x w ((k, now) ∷ rs) t l e o h =
    let after = (admit k limit now l).0 in
    let same : after.window_ms ≡ w = admit-window k limit now l ∙ e in
    elim (Bool-cases (ltb now (x + w))) [
      | inr late ↦ ground (arith, passed_late key limit x w rs now after o.1)
      | inl early ↦ elim (Bool-cases (text_eq k key && (admit k limit now l).1)) [
        | inr n ↦ ground (
          arith,
          passed-count_in key limit x w rs now after same o.1,
          hits_of-admit key k limit now l,
        )
        | inl y ↦
            let own : k ≡ key = ground arith in
            let pass : (admit k limit now l).1 ≡ true = ground arith in
            let hits : hits_of key after ≡ recent key now l ++ now ∷ [] =
              hits_of-admit key k limit now l ∙ ground arith in
            let room : length (recent key now l) < limit =
              subst (λ i. length (recent i now l) < limit) own (admitted_lt k limit now l pass) in
            let count : count_in x w (hits_of key after)
                ≡ count_in x w (recent key now l)
                  + (if leb x now && ltb now (x + w) then 1 else 0) =
              ap (count_in x w) hits ∙ count_in-append x w now (recent key now l) in
            ground (
              arith,
              passed-count_in key limit x w rs now after same o.1,
              count,
              room,
              count_in-le x w (recent key now l),
              count_in-keep x w now (hits_of key l),
            )
      ]
    ]

-- A client whose requests pass in a sequence of requests of any clients, served by a limiter that
-- has no hits of it yet and a clock that does not go back, passes at most `limit` times within
-- every window, wherever the window starts.
pub passed_bounded :
    (key : Text) (limit x : ℕ) (rs : List (Text × ℕ)) (t : ℕ) (l : Limiter)
    → Ordered t rs
    → JsMap.get key l.hits ≡ none
    → count_in x l.window_ms (passed key limit rs l) ≤ limit
unfolding count_in
passed_bounded key limit x rs t l o n =
    let none_yet : count_in x l.window_ms (hits_of key l) ≡ 0 = ground arith in
    ground (arith, passed-count_in key limit x l.window_ms rs t l refl o, none_yet)
