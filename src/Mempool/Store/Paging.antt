-- ===== src/Mempool/Store/Paging.antt =====
-- A page of `list` against the filtered records: which segment of them it is.
use perihelion.Prelude.{
  ℕ, zero, suc, ◌+◌, ◌-◌, ◌≤◌, ◌<◌, ◌≡◌, refl, ap, true, false, List, [], ◌∷◌, ◌++◌, Option, none,
  some, length, take, leb, ltb, if◌then◌else◌, ite, arith, append-nil, append_assoc, length-append,
  Option-cases, Bool-cases, inl, inr,
}
use perihelion.Prelude.JsMap
use perihelion.Prelude.JsMap.{JsMap}
use perihelion.Prelude.Text.{Text, text_discrete, text_key}
use perihelion.Mempool.Store.{MempoolIntentRecord, IntentStore, hashes_of}
use perihelion.Mempool.Store.Invariant.{Inv}
use perihelion.Mempool.Store.Pages.{Query, on_chain, last_hash, page_loop, list}

-- The records of a list of hashes that lie on the chain asked for.
unfoldable pub visible :
    JsMap Text MempoolIntentRecord → Option ℕ → List Text → List MempoolIntentRecord
visible records c [] = []
visible records c (h ∷ hs) = elim (JsMap.get h records) [
  | none ↦ visible records c hs
  | some r ↦ if on_chain c r then r ∷ visible records c hs else visible records c hs
]

-- All records that match the filter of a query.
abbrev pub matches : Query → IntentStore → List MempoolIntentRecord
matches q st = visible st.records q.chain_id (hashes_of q.status st)

-- The records behind the one with a hash.
unfoldable pub after : Text → List MempoolIntentRecord → List MempoolIntentRecord
after c [] = []
after c (r ∷ rs) = ite (text_discrete r.hash c) rs (after c rs)

abbrev pub rest_of : Option Text → List MempoolIntentRecord → List MempoolIntentRecord
rest_of none rs = rs
rest_of (some c) rs = after c rs

abbrev pub Keyed : JsMap Text MempoolIntentRecord → Type 0
Keyed m = (h : Text) (r : MempoolIntentRecord) → JsMap.get h m ≡ some r → r.hash ≡ h

take_nil : (n : ℕ) → take {A = MempoolIntentRecord} n [] ≡ []
take_nil zero = refl
take_nil (suc n) = refl

take_none : (n : ℕ) (rs : List MempoolIntentRecord) → n ≡ 0 → take n rs ≡ []
take_none zero rs e = refl
take_none (suc n) rs e = absurd (omega arith)

take_more :
    (n : ℕ) (r : MempoolIntentRecord) (rs : List MempoolIntentRecord)
    → 0 < n
    → take n (r ∷ rs) ≡ r ∷ take (n - 1) rs
take_more zero r rs h = absurd (omega arith)
take_more (suc n) r rs h = let e : n ≡ suc n - 1 = omega arith in ap (λ k. r ∷ take k rs) e

-- From the cursor on, the loop fills the page and stops at the first record too many.
page_loop_reached :
    (m : JsMap Text MempoolIntentRecord) (q : Query) (hs : List Text)
    (page : List MempoolIntentRecord)
    → length page ≤ q.limit
    → page_loop m q hs true page ≡ (
      page ++ take (q.limit - length page) (visible m q.chain_id hs),
      ltb q.limit (length page + length (visible m q.chain_id hs)),
    )
unfolding page_loop visible
page_loop_reached m q [] page le = ground (arith, take_nil (q.limit - length page), append-nil page)
page_loop_reached m q (h ∷ hs) page le = elim (Option-cases (JsMap.get h m)) [
  | inl e ↦ rw (e, page_loop, visible) (page_loop_reached m q hs page le)
  | inr (r, e) ↦ elim (Bool-cases (on_chain q.chain_id r)) [
    | inl c ↦ elim (Bool-cases (leb q.limit (length page))) [
      | inl full ↦
          ground (
            arith,
            take_none (q.limit - length page) (r ∷ visible m q.chain_id hs),
            append-nil page,
          )
      | inr room ↦ ground (
        arith,
        page_loop_reached m q hs (page ++ r ∷ []),
        length-append page (r ∷ []),
        take_more (q.limit - length page) r (visible m q.chain_id hs),
        append_assoc page (r ∷ []) (take (q.limit - (length page + 1)) (visible m q.chain_id hs)),
      )
    ]
    | inr c ↦ ground (arith, page_loop_reached m q hs page le)
  ]
]

-- Before the cursor, the loop skips.
page_loop_skip :
    (m : JsMap Text MempoolIntentRecord) (q : Query) (c : Text) (hs : List Text)
    → Keyed m
    → q.cursor ≡ some c
    → page_loop m q hs false [] ≡ (
      take q.limit (after c (visible m q.chain_id hs)),
      ltb q.limit (length (after c (visible m q.chain_id hs))),
    )
unfolding page_loop visible after
page_loop_skip m q c [] k e = ground (arith, take_nil q.limit)
page_loop_skip m q c (h ∷ hs) k e = elim (Option-cases (JsMap.get h m)) [
  | inl n ↦ ground (arith, page_loop_skip m q c hs k e)
  | inr (r, n) ↦ ground (arith, k h r n, page_loop_skip m q c hs k e, page_loop_reached m q hs [])
]

-- A page holds the first `limit` matching records behind the cursor; there is a next cursor
-- exactly when some are left, and it is the hash of the last record of the page.
pub list_lem :
    (q : Query) (st : IntentStore)
    → Inv st
    → ((list q st).records ≡ take q.limit (rest_of q.cursor (matches q st)))
      × ((list q st).next_cursor ≡ (
          if ltb q.limit (length (rest_of q.cursor (matches q st)))
          then last_hash (list q st).records
          else none))
unfolding list
list_lem q st v = elim (Option-cases q.cursor) [
  | inl e ↦ ground (arith, page_loop_reached st.records q (hashes_of q.status st) [])
  | inr (c, e) ↦ ground (arith, page_loop_skip st.records q c (hashes_of q.status st) v.keyed e)
]
