-- ===== src/Sdk/Client/Pages/Complete.antt =====
-- A listing is never partial, and ends.
use perihelion.Prelude.{
  ℕ, zero, suc, ◌+◌, ◌≤◌, ◌<◌, ◌≡◌, inl, inr, refl, sym, ◌∙◌, max, true, false, List, [], ◌∷◌, ◌++◌,
  append_assoc, Option, none, some, arith, Bool-cases, subst,
}
use perihelion.Prelude.Text.{Text}
use perihelion.Prelude.Result.{Result, err, ok, Result-cases}
use perihelion.Sdk.Client.{ClientError}
use perihelion.Sdk.Client.Pages.{
  max_pages, repeated_cursor, ListError, request, pagination, out_of_fuel, seen_has, is_below,
  list_loop, list_pending,
}

module _ {A : Type 0} (page : ℕ → Option Text → Result ClientError (List A × Option Text)) where
  -- The records of the pages from the one at a cursor on, up to a page without a further cursor.
  pub data Chain : ℕ → Option Text → List A → Type 0 where
    last :
        (n : ℕ) (c : Option Text) (records : List A)
        → page n c ≡ ok (records, none)
        → Chain n c records
    more :
        (n : ℕ) (c : Option Text) (records : List A) (d : Text) (rest : List A)
        → page n c ≡ ok (records, some d)
        → Chain (n + 1) (some d) rest
        → Chain n c (records ++ rest)

  -- The ways a round of the loop can go.
  abbrev loop : ℕ → ℕ → ℕ → Option Text → List Text → List A → Result (ListError A) (List A)
  loop = list_loop page

  pub at_end :
      (fuel n most : ℕ) (c : Option Text) (seen : List Text) (all records : List A)
      → page n c ≡ ok (records, none)
      → loop (suc fuel) n most c seen all ≡ ok (all ++ records)
  unfolding list_loop
  at_end fuel n most c seen all records e = rw (e, list_loop) refl

  failing :
      (fuel n most : ℕ) (c : Option Text) (seen : List Text) (all : List A) (x : ClientError)
      → page n c ≡ err x
      → loop (suc fuel) n most c seen all ≡ err (request x)
  unfolding list_loop
  failing fuel n most c seen all x e = rw (e, list_loop) refl

  repeated :
      (fuel n most : ℕ) (c : Option Text) (seen : List Text) (all records : List A) (d : Text)
      → page n c ≡ ok (records, some d)
      → seen_has d seen ≡ true
      → loop (suc fuel) n most c seen all
        ≡ err (pagination repeated_cursor (all ++ records) d (n + 1))
  unfolding list_loop
  repeated fuel n most c seen all records d e h = rw (e, h, list_loop) refl

  too_many :
      (fuel n most : ℕ) (c : Option Text) (seen : List Text) (all records : List A) (d : Text)
      → page n c ≡ ok (records, some d)
      → seen_has d seen ≡ false
      → is_below (n + 1) most ≡ false
      → loop (suc fuel) n most c seen all ≡ err (pagination max_pages (all ++ records) d (n + 1))
  unfolding list_loop
  too_many fuel n most c seen all records d e h k = rw (e, h, k, list_loop) refl

  pub onward :
      (fuel n most : ℕ) (c : Option Text) (seen : List Text) (all records : List A) (d : Text)
      → page n c ≡ ok (records, some d)
      → seen_has d seen ≡ false
      → is_below (n + 1) most ≡ true
      → loop (suc fuel) n most c seen all
        ≡ loop fuel (n + 1) most (some d) (d ∷ seen) (all ++ records)
  unfolding list_loop
  onward fuel n most c seen all records d e h k = rw (e, h, k, list_loop) refl

  -- How a listing may end: with all records, with a failed request, or with a pagination error
  -- after at most the pages allowed.
  abbrev pub Ends : ℕ → ℕ → Option Text → List A → Result (ListError A) (List A) → Type 0
  Ends n most c all (ok out) = (rest : List A) × (out ≡ all ++ rest) × Chain n c rest
  Ends n most c all (err (request x)) = (k : ℕ) × (d : Option Text) × (page k d ≡ err x)
  Ends n most c all (err (pagination r records d pages)) = pages ≤ max 1 most
  Ends n most c all (err out_of_fuel) = ⊥

  Ends-onward :
      (n most : ℕ) (c : Option Text) (all records : List A) (d : Text)
      (r : Result (ListError A) (List A))
      → page n c ≡ ok (records, some d)
      → Ends (n + 1) most (some d) (all ++ records) r
      → Ends n most c all r
  Ends-onward n most c all records d (ok out) e (rest, same, chain) =
      (records ++ rest, same ∙ append_assoc all records rest, more n c records d rest e chain)
  Ends-onward n most c all records d (err (request x)) e u = u
  Ends-onward n most c all records d (err (pagination r rs k pages)) e u = u
  Ends-onward n most c all records d (err out_of_fuel) e u = u

  list_loop-Ends :
      (fuel n most : ℕ) (c : Option Text) (seen : List Text) (all : List A)
      → n < max 1 most
      → max 1 most ≤ fuel + n
      → Ends n most c all (loop fuel n most c seen all)
  unfolding is_below
  list_loop-Ends zero n most c seen all h k = absurd (omega arith)
  list_loop-Ends (suc fuel) n most c seen all h k = elim (Result-cases (page n c)) [
    | inl (x, e) ↦ subst (Ends n most c all) (sym (failing fuel n most c seen all x e)) (n, c, e)
    | inr ((records, none), e) ↦
        subst (Ends n most c all) (sym (at_end fuel n most c seen all records e))
          (records, refl, last n c records e)
    | inr ((records, some d), e) ↦ elim (Bool-cases (seen_has d seen)) [
      | inl s ↦
          subst (Ends n most c all) (sym (repeated fuel n most c seen all records d e s))
            (omega (arith, h))
      | inr s ↦ elim (Bool-cases (is_below (n + 1) most)) [
        | inr b ↦
            subst (Ends n most c all) (sym (too_many fuel n most c seen all records d e s b))
              (omega (arith, h))
        | inl b ↦ subst (Ends n most c all) (sym (onward fuel n most c seen all records d e s b)) (
            Ends-onward n most c all records d _ e (
              list_loop-Ends fuel (n + 1) most (some d) (d ∷ seen) (all ++ records) (ground arith)
                (omega (arith, k))))
      ]
    ]
  ]

  -- The loop over the pages ends within the pages allowed. If it returns records, they are those of
  -- every page from the first to one without a further cursor: a listing cut short is an error.
  pub list_pending-Ends : (most : ℕ) → Ends 0 most none [] (list_pending page most)
  unfolding list_pending
  list_pending-Ends most = list_loop-Ends (max 1 most) 0 most none [] [] (omega arith) (omega arith)
