-- ===== src/Sdk/Client/Pages.antt =====
-- `listPending` of sdk/src/client.ts: following the cursors of the server. A page is given by the
-- number of pages before it and the cursor sent; the empty cursor is sent as none. The number of
-- pages allowed is the fuel, and one page is always fetched.
pub mod Complete
pub mod Mempool
pub mod Answers
pub mod Listing
use perihelion.Prelude.{
  ℕ, zero, suc, ◌+◌, ◌-◌, Bool, true, false, List, [], ◌∷◌, ◌++◌, Option, none, some, ltb,
  if◌then◌else◌, any, max,
}
use perihelion.Prelude.Text.{Text, text_eq, text_discrete}
use perihelion.Prelude.Result.{Result, err, ok}
use perihelion.Sdk.Client.{ClientError}

pub data Reason : Type 0 where
  max_pages repeated_cursor : Reason

-- The errors of a listing; a pagination error carries the records so far, the cursor to go on from
-- and the number of pages.
pub data ListError (A : Type 0) : Type 0 where
  request : ClientError → ListError A
  pagination : Reason → List A → Text → ℕ → ListError A
  out_of_fuel : ListError A

-- `seen.has(cursor)`.
unfoldable pub seen_has : Text → List Text → Bool
unfolding text_discrete
seen_has c [] = false
seen_has c (d ∷ seen) = let rest = seen_has c seen in if text_eq d c then true else rest

unfoldable pub is_below : ℕ → ℕ → Bool
is_below pages most = ltb pages most

module _ {A : Type 0} (page : ℕ → Option Text → Result ClientError (List A × Option Text)) where
  -- The `do … while` loop and the test behind it.
  unfoldable pub list_loop :
      ℕ → ℕ → ℕ → Option Text → List Text → List A → Result (ListError A) (List A)
  list_loop zero pages most cursor seen all = err out_of_fuel
  list_loop (suc fuel) pages most cursor seen all = elim (page pages cursor) [
    | err e ↦ err (request e)
    | ok (records, next) ↦ elim next [
      | none ↦ ok (all ++ records)
      | some c ↦ elim (seen_has c seen) [
        | true ↦ err (pagination repeated_cursor (all ++ records) c (pages + 1))
        | false ↦ elim (is_below (pages + 1) most) [
          | false ↦ err (pagination max_pages (all ++ records) c (pages + 1))
          | true ↦ list_loop fuel (pages + 1) most (some c) (c ∷ seen) (all ++ records)
        ]
      ]
    ]
  ]

  unfoldable pub list_pending : ℕ → Result (ListError A) (List A)
  unfolding list_loop
  list_pending most = list_loop (max 1 most) 0 most none [] []
