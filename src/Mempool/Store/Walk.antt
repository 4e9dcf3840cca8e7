-- ===== src/Mempool/Store/Walk.antt =====
-- Following the cursors of `list`: the pages yield every matching record, once and in order.
use mathlib.Core.List.{map}
use perihelion.Prelude.{
  take_short, ℕ, zero, suc, ◌+◌, ◌-◌, ◌<◌, ◌≡◌, refl, ap, sym, ◌∙◌, true, false, List, [], ◌∷◌,
  ◌++◌, Option, none, some, length, take, drop, ltb, arith, append-nil, Option-cases, Bool-cases,
  inl, inr,
}
use perihelion.Prelude.JsMap
use perihelion.Prelude.JsMap.{JsMap, Distinct}
use perihelion.Prelude.Text.{Text, text_key}
use perihelion.Sdk.Types.{MempoolIntentStatus}
use perihelion.Mempool.Store.{MempoolIntentRecord, IntentStore, hashes_of, set_has, keys}
use perihelion.Mempool.Store.Invariant.{Inv, Once}
use perihelion.Mempool.Store.Pages.{Query, last_hash, list}
use perihelion.Mempool.Store.Paging.{visible, matches, after, rest_of, Keyed, list_lem}

abbrev pub hashes : List MempoolIntentRecord → List Text
hashes = map (λ r. r.hash)

visible_fresh :
    (m : JsMap Text MempoolIntentRecord) (c : Option ℕ) (g : Text) (hs : List Text)
    → Keyed m
    → set_has g hs ≡ false
    → set_has g (hashes (visible m c hs)) ≡ false
unfolding visible set_has
visible_fresh m c g [] k n = refl
visible_fresh m c g (h ∷ hs) k n = elim (Option-cases (JsMap.get h m)) [
  | inl e ↦ ground (arith, visible_fresh m c g hs k)
  | inr (r, e) ↦ ground (arith, visible_fresh m c g hs k, k h r e)
]

pub visible-Once :
    (m : JsMap Text MempoolIntentRecord) (c : Option ℕ) (hs : List Text)
    → Keyed m
    → Once hs
    → Once (hashes (visible m c hs))
unfolding visible
visible-Once m c [] k o = tt
visible-Once m c (h ∷ hs) k o = elim (Option-cases (JsMap.get h m)) [
  | inl e ↦ ground (arith, visible-Once m c hs k o.1)
  | inr (r, e) ↦ ground (arith, visible-Once m c hs k o.1, visible_fresh m c h hs k o.0, k h r e)
]

keys_fresh :
    (m : JsMap Text MempoolIntentRecord) (g : Text)
    → JsMap.get g m ≡ none
    → set_has g (keys m) ≡ false
unfolding keys set_has JsMap.get
keys_fresh [] g n = refl
keys_fresh ((h, r) ∷ m) g n = ground (arith, keys_fresh m g)

keys-Once : (m : JsMap Text MempoolIntentRecord) → Distinct m → Once (keys m)
unfolding keys
keys-Once [] d = tt
keys-Once ((h, r) ∷ m) d = (keys_fresh m h d.0, keys-Once m d.1)

pub hashes_of-Once :
    (s : Option MempoolIntentStatus) (st : IntentStore) → Inv st → Once (hashes_of s st)
hashes_of-Once none st v = keys-Once st.records v.distinct
hashes_of-Once (some s) st v = v.single s

pub last_hash_mem :
    (n : ℕ) (rs : List MempoolIntentRecord) (c : Text)
    → last_hash (take n rs) ≡ some c
    → set_has c (hashes rs) ≡ true
unfolding last_hash set_has
last_hash_mem zero rs c e = cc
last_hash_mem (suc n) [] c e = cc
last_hash_mem (suc zero) (r ∷ rs) c e = ground arith
last_hash_mem (suc (suc n)) (r ∷ []) c e = ground arith
last_hash_mem (suc (suc n)) (r ∷ s ∷ rs) c e = ground (arith, last_hash_mem (suc n) (s ∷ rs) c e)

pub has_drop :
    (k : ℕ) (rs : List MempoolIntentRecord) (c : Text)
    → set_has c (hashes (drop k rs)) ≡ true
    → set_has c (hashes rs) ≡ true
unfolding set_has
has_drop zero rs c e = e
has_drop (suc k) [] c e = e
has_drop (suc k) (r ∷ rs) c e = ground (arith, has_drop k rs c e)

-- Behind the last record of a page lies what the page left.
after_page :
    (n : ℕ) (rs : List MempoolIntentRecord) (c : Text)
    → Once (hashes rs)
    → last_hash (take n rs) ≡ some c
    → after c rs ≡ drop n rs
unfolding last_hash after set_has
after_page zero rs c o e = cc
after_page (suc n) [] c o e = cc
after_page (suc zero) (r ∷ rs) c o e = ground arith
after_page (suc (suc n)) (r ∷ []) c o e = ground arith
after_page (suc (suc n)) (r ∷ s ∷ rs) c o e =
    ground (arith, after_page (suc n) (s ∷ rs) c o.1 e, last_hash_mem (suc n) (s ∷ rs) c e, o.0)

pub after-drop :
    (k n : ℕ) (rs : List MempoolIntentRecord) (c : Text)
    → Once (hashes rs)
    → last_hash (take n (drop k rs)) ≡ some c
    → after c rs ≡ drop n (drop k rs)
unfolding after
after-drop zero n rs c o e = after_page n rs c o e
after-drop (suc k) n [] c o e = after_page n [] c tt e
after-drop (suc k) n (r ∷ rs) c o e =
    ground
      (arith, after-drop k n rs c o.1 e, has_drop k rs c (last_hash_mem n (drop k rs) c e), o.0)

-- A client that asks for page after page, `fuel` of them at most.
unfoldable pub walk : ℕ → Query → IntentStore → List MempoolIntentRecord
walk zero q st = []
walk (suc fuel) q st = (list q st).records ++ elim (list q st).next_cursor [
  | none ↦ []
  | some c ↦ walk fuel (record q { cursor = some c }) st
]

pub take-append-drop : (n : ℕ) (rs : List MempoolIntentRecord) → take n rs ++ drop n rs ≡ rs
take-append-drop zero rs = refl
take-append-drop (suc n) [] = refl
take-append-drop (suc n) (r ∷ rs) = ap (◌∷◌ r) (take-append-drop n rs)

pub length-drop : (n : ℕ) (rs : List MempoolIntentRecord) → length (drop n rs) ≡ length rs - n
length-drop zero rs = omega arith
length-drop (suc n) [] = omega arith
length-drop (suc n) (r ∷ rs) = omega (arith, length-drop n rs)

drop_nil : (n : ℕ) → drop {A = MempoolIntentRecord} n [] ≡ []
drop_nil zero = refl
drop_nil (suc n) = refl

pub drop-drop : (n k : ℕ) (rs : List MempoolIntentRecord) → drop n (drop k rs) ≡ drop (k + n) rs
drop-drop n zero rs = let e : n ≡ 0 + n = omega arith in ap (λ j. drop j rs) e
drop-drop n (suc k) [] = drop_nil n ∙ sym (drop_nil (suc k + n))
drop-drop n (suc k) (r ∷ rs) =
    let e : suc k + n ≡ suc (k + n) = omega arith in rw e (drop-drop n k rs)

pub last_hash-some :
    (n : ℕ) (rs : List MempoolIntentRecord)
    → 0 < n
    → 0 < length rs
    → (c : Text) × (last_hash (take n rs) ≡ some c)
unfolding last_hash
last_hash-some zero rs p h = absurd (omega arith)
last_hash-some (suc n) [] p h = absurd (omega arith)
last_hash-some (suc zero) (r ∷ rs) p h = (r.hash, refl)
last_hash-some (suc (suc n)) (r ∷ []) p h = (r.hash, refl)
last_hash-some (suc (suc n)) (r ∷ s ∷ rs) p h =
    last_hash-some (suc n) (s ∷ rs) (omega arith) (omega arith)

-- From a cursor that leaves all but the first `k` matching records, the walk returns those left.
walk_from :
    (fuel k : ℕ) (q : Query) (st : IntentStore)
    → Inv st
    → 0 < q.limit
    → rest_of q.cursor (matches q st) ≡ drop k (matches q st)
    → length (drop k (matches q st)) < fuel
    → walk fuel q st ≡ drop k (matches q st)
unfolding walk
walk_from zero k q st v p e f = absurd (omega arith)
walk_from (suc fuel) k q st v p e f =
    let all = matches q st in
    let rest = drop k all in
    let (page, next) = list_lem q st v in
    let once : Once (hashes all) =
      visible-Once st.records q.chain_id _ v.keyed (hashes_of-Once q.status st v) in
    elim (Bool-cases (ltb q.limit (length rest))) [
      | inl more ↦
          let (c, last) = last_hash-some q.limit rest p (ground arith) in
          let tail : rest_of (some c) all ≡ drop (k + q.limit) all =
            after-drop k q.limit all c once last ∙ drop-drop q.limit k all in
          let ih =
            walk_from fuel (k + q.limit) (record q { cursor = some c }) st v p tail
              (ground (arith, length-drop q.limit rest, drop-drop q.limit k all)) in
          ground
            (arith, page, next, ih, last, take-append-drop q.limit rest, drop-drop q.limit k all, e)
      | inr done ↦ ground (arith, page, next, take_short q.limit rest, append-nil rest, e)
    ]

-- Asking a store that satisfies the invariant for page after page from the start, with a limit
-- above 0, returns every matching record once and in order, after at most one request for each
-- and one more.
pub walk_complete :
    (q : Query) (st : IntentStore)
    → Inv st
    → 0 < q.limit
    → q.cursor ≡ none
    → walk (length (matches q st) + 1) q st ≡ matches q st
walk_complete q st v p e =
    walk_from (length (matches q st) + 1) 0 q st v p (ground arith) (omega arith)
