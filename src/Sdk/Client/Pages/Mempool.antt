-- ===== src/Sdk/Client/Pages/Mempool.antt =====
-- Following the pages of the mempool's store with the loop of the client.
use perihelion.Prelude.{
  take_short, ℕ, zero, suc, ◌+◌, ◌-◌, ◌*◌, ◌≤◌, ◌<◌, ◌≡◌, inl, inr, refl, sym, ap, ◌∙◌, max, true,
  false, List, [], ◌∷◌, ◌++◌, append_assoc, map, Option, none, some, length, take, drop, ltb, arith,
  Bool-cases, subst,
}
use perihelion.Prelude.Text.{Text}
use perihelion.Prelude.Result.{Result, ok}
use perihelion.Sdk.Client.{ClientError}
use perihelion.Sdk.Client.Pages.{seen_has, is_below, list_loop, list_pending}
use perihelion.Sdk.Client.Pages.Complete.{at_end, onward}
use perihelion.Mempool.Store.{MempoolIntentRecord, IntentStore, set_has}
use perihelion.Mempool.Store.Invariant.{Inv, Once}
use perihelion.Mempool.Store.Pages.{Query, last_hash, list}
use perihelion.Mempool.Store.Paging.{matches, rest_of, list_lem}
use perihelion.Mempool.Store.Walk.{
  hashes, visible-Once, hashes_of-Once, last_hash_mem, has_drop, after-drop, last_hash-some,
  drop-drop, length-drop, take-append-drop,
}

-- The last record of a page is not on a later one.
last_not_behind :
    (n : ℕ) (rs : List MempoolIntentRecord) (c : Text)
    → Once (hashes rs)
    → last_hash (take n rs) ≡ some c
    → set_has c (hashes (drop n rs)) ≡ false
unfolding last_hash set_has
last_not_behind zero rs c o e = cc
last_not_behind (suc n) [] c o e = cc
last_not_behind (suc zero) (r ∷ rs) c o e = ground (arith, o.0)
last_not_behind (suc (suc n)) (r ∷ []) c o e = refl
last_not_behind (suc (suc n)) (r ∷ s ∷ rs) c o e = last_not_behind (suc n) (s ∷ rs) c o.1 e

map-append : {A B : Type 0} (f : A → B) (xs ys : List A) → map f (xs ++ ys) ≡ map f xs ++ map f ys
map-append f [] ys = refl
map-append f (x ∷ xs) ys = ap (λ r. f x ∷ r) (map-append f xs ys)

-- No cursor seen names a record that is still to come.
abbrev Unseen : List Text → List MempoolIntentRecord → Type 0
Unseen seen rs = (d : Text) → set_has d (hashes rs) ≡ true → seen_has d seen ≡ false

Unseen-drop :
    (n : ℕ) (rs : List MempoolIntentRecord) (seen : List Text) (c : Text)
    → Once (hashes rs)
    → last_hash (take n rs) ≡ some c
    → Unseen seen rs
    → Unseen (c ∷ seen) (drop n rs)
unfolding seen_has
Unseen-drop n rs seen c o e u d h =
    ground (arith, u d (has_drop n rs d h), last_not_behind n rs c o e)

-- The pages left suffice for the records left, one full page later too.
pages_left :
    (records limit pages : ℕ)
    → limit < records
    → records ≤ pages * limit
    → (1 < pages) × (records - limit ≤ (pages - 1) * limit)
pages_left records limit zero h k = absurd (omega arith)
pages_left records limit (suc zero) h k = absurd (omega arith)
pages_left records limit (suc (suc p)) h k =
    let less : suc (suc p) - 1 ≡ suc p = omega arith in (omega arith, rw less (omega arith))

-- A cursor that the loop comes to: none, or the hash of a matching record.
abbrev pub Comes : List MempoolIntentRecord → Option Text → Type 0
Comes all none = Unit
Comes all (some d) = set_has d (hashes all) ≡ true

-- A client's pages are those of the store, their records read by `f`.
abbrev pub Answers :
    {A : Type 0}
    → Query
    → IntentStore
    → (MempoolIntentRecord → A)
    → (ℕ → Option Text → Result ClientError (List A × Option Text))
    → Type 0
Answers q st f page =
    (n k : ℕ) (c : Option Text)
    → rest_of c (matches q st) ≡ drop k (matches q st)
    → Comes (matches q st) c
    → page n c
      ≡ ok (
        map f (list (record q { cursor = c }) st).records,
        (list (record q { cursor = c }) st).next_cursor,
      )

module _ {A : Type 0} (q : Query) (st : IntentStore) (f : MempoolIntentRecord → A)
    (page : ℕ → Option Text → Result ClientError (List A × Option Text)) (valid : Inv st)
    (positive : 0 < q.limit) (answers : Answers q st f page) where
  abbrev all : List MempoolIntentRecord
  all = matches q st

  once : Once (hashes all)
  once = visible-Once st.records q.chain_id _ valid.keyed (hashes_of-Once q.status st valid)

  -- A page from a cursor behind which all but the first `k` records lie.
  last_page :
      (n k : ℕ) (c : Option Text)
      → rest_of c all ≡ drop k all
      → Comes all c
      → length (drop k all) ≤ q.limit
      → page n c ≡ ok (map f (drop k all), none)
  last_page n k c at known few =
      let (shown, next) = list_lem (record q { cursor = c }) st valid in
      let short : ltb q.limit (length (rest_of c all)) ≡ false = rw at (ground arith) in
      let whole : take q.limit (rest_of c all) ≡ drop k all =
        rw at (take_short q.limit (drop k all) few) in
      answers n k c at known ∙ rw (shown, next, short, whole) refl

  full_page :
      (n k : ℕ) (c : Option Text) (d : Text)
      → rest_of c all ≡ drop k all
      → Comes all c
      → q.limit < length (drop k all)
      → last_hash (take q.limit (drop k all)) ≡ some d
      → page n c ≡ ok (map f (take q.limit (drop k all)), some d)
  full_page n k c d at known many last =
      let (shown, next) = list_lem (record q { cursor = c }) st valid in
      let long : ltb q.limit (length (rest_of c all)) ≡ true = rw at (ground arith) in
      let first = shown ∙ ap (take q.limit) at in
      let ahead = next ∙ rw (long, first) last in answers n k c at known ∙ rw (first, ahead) refl

  Once-drop : (k : ℕ) (rs : List MempoolIntentRecord) → Once (hashes rs) → Once (hashes (drop k rs))
  Once-drop zero rs o = o
  Once-drop (suc k) [] o = o
  Once-drop (suc k) (r ∷ rs) o = Once-drop k rs o.1

  list_loop-matches :
      (fuel n k most : ℕ) (c : Option Text) (seen : List Text) (done : List A)
      → n < most
      → most ≤ fuel + n
      → rest_of c all ≡ drop k all
      → Comes all c
      → length (drop k all) ≤ (most - n) * q.limit
      → Unseen seen (drop k all)
      → list_loop page fuel n most c seen done ≡ ok (done ++ map f (drop k all))
  unfolding is_below
  list_loop-matches zero n k most c seen done h g at known few fresh = absurd (omega arith)
  list_loop-matches (suc fuel) n k most c seen done h g at known few fresh =
      let rest = drop k all in
      elim (Bool-cases (ltb q.limit (length rest))) [
        | inr e ↦
            at_end page fuel n most c seen done (map f rest)
              (last_page n k c at known (ground arith))
        | inl e ↦
            let (d, last) = last_hash-some q.limit rest positive (ground arith) in
            let behind : drop q.limit rest ≡ drop (k + q.limit) all = drop-drop q.limit k all in
            let (left, enough) = pages_left (length rest) q.limit (most - n) (ground arith) few in
            let fewer : length (drop (k + q.limit) all) ≤ (most - (n + 1)) * q.limit =
              let size : length (drop (k + q.limit) all) ≡ length rest - q.limit =
                sym (ap length behind) ∙ length-drop q.limit rest in
              let one_less : most - n - 1 ≡ most - (n + 1) = omega arith in
              rw (size, ← one_less) enough in
            let two : is_below (n + 1) most ≡ true = ground arith in
            let ih =
              list_loop-matches fuel (n + 1) (k + q.limit) most (some d) (d ∷ seen)
                (done ++ map f (take q.limit rest)) (omega (arith, left)) (omega arith)
                (after-drop k q.limit all d once last ∙ behind)
                (has_drop k all d (last_hash_mem q.limit rest d last)) fewer
                (subst (Unseen (d ∷ seen)) behind
                  (Unseen-drop q.limit rest seen d (Once-drop k all once) last fresh)) in
            onward page fuel n most c seen done (map f (take q.limit rest)) d
              (full_page n k c d at known (ground arith) last)
              (fresh d (last_hash_mem q.limit rest d last)) two
            ∙ ih
            ∙ ap ok (
                append_assoc done (map f (take q.limit rest)) (map f (drop (k + q.limit) all))
                ∙ ap (λ r. done ++ r)
                    (sym (map-append f (take q.limit rest) (drop (k + q.limit) all))
                      ∙ ap (map f) (rw (sym behind) (take-append-drop q.limit rest))))
      ]

  pub list_pages-matches :
      (most : ℕ) → 0 < most → length all ≤ most * q.limit → list_pending page most ≡ ok (map f all)
  unfolding list_pending seen_has
  list_pages-matches most h few =
      let none_yet : most - 0 ≡ most = omega arith in
      let whole : max 1 most ≡ most = omega arith in
      rw whole (
        list_loop-matches most 0 0 most none [] [] h (omega arith) refl tt (rw none_yet few)
          (λ d u. refl))
