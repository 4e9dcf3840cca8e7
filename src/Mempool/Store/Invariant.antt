-- ===== src/Mempool/Store/Invariant.antt =====
-- The invariant of the intent store: a hash at most once, the status index in step with the
-- records, the capacity kept; and that each operation preserves it.
use perihelion.Prelude.{
  ℕ, ◌+◌, ◌≡◌, refl, Bool, true, false, [], ◌∷◌, ◌++◌, Option, none, some, arith, if◌then◌else◌,
  ite, Option-cases, Bool-cases, inl, inr, ◌/◌,
}
use perihelion.Prelude.Int.{pos, ◌-ℤ◌}
use perihelion.Prelude.JsMap
use perihelion.Prelude.JsMap.{JsMap, Distinct}
use perihelion.Prelude.Text.{Text, text_discrete, text_key}
use perihelion.Sdk.Types.{MempoolIntentStatus, status_discrete, status_key, same_status}
use perihelion.Sdk.Expiry.{is_expired}
use perihelion.Mempool.Store.{
  MempoolIntentRecord, IntentStore, HashSet, set_has, set_add, set_delete, bucket, index_add,
  index_remove, delete, victim, evict_one, make_room, put, set, update_status, evict_loop,
  new_store,
}

-- Whether the record under a hash has a status.
abbrev pub has_status : MempoolIntentStatus → Option MempoolIntentRecord → Bool
has_status s none = false
has_status s (some r) = same_status r.status s

-- No hash twice in a set.
abbrev pub Once : HashSet → Type 0
Once [] = Unit {0}
Once (h ∷ s) = (set_has h s ≡ false) × Once s

pub record Inv (st : IntentStore) : Type 0 where
  pub distinct : Distinct st.records
  pub keyed : (h : Text) (r : MempoolIntentRecord) → JsMap.get h st.records ≡ some r → r.hash ≡ h
  pub indexed :
      (h : Text) (s : MempoolIntentStatus)
      → set_has h (bucket s st) ≡ has_status s (JsMap.get h st.records)
  pub single : (s : MempoolIntentStatus) → Once (bucket s st)

pub set_has-append :
    (g h : Text) (s : HashSet)
    → set_has g (s ++ h ∷ []) ≡ (if set_has g s then true else ite (text_discrete h g) true false)
unfolding set_has
set_has-append g h [] = ground arith
set_has-append g h (i ∷ s) = ground (arith, set_has-append g h s)

pub set_has-add :
    (g h : Text) (s : HashSet)
    → set_has g (set_add h s) ≡ ite (text_discrete h g) true (set_has g s)
unfolding set_add
set_has-add g h s = ground (arith, set_has-append g h s)

pub set_has-delete :
    (g h : Text) (s : HashSet)
    → set_has g (set_delete h s) ≡ ite (text_discrete h g) false (set_has g s)
unfolding set_has set_delete
set_has-delete g h [] = ground arith
set_has-delete g h (i ∷ s) = ground (arith, set_has-delete g h s)

Once-append : (h : Text) (s : HashSet) → set_has h s ≡ false → Once s → Once (s ++ h ∷ [])
unfolding set_has
Once-append h [] n o = (refl, tt)
Once-append h (i ∷ s) n o = ground (arith, Once-append h s, set_has-append i h s)

Once-add : (h : Text) (s : HashSet) → Once s → Once (set_add h s)
unfolding set_add
Once-add h s o = ground (arith, Once-append h s)

Once-delete : (h : Text) (s : HashSet) → Once s → Once (set_delete h s)
unfolding set_delete
Once-delete h [] o = tt
Once-delete h (i ∷ s) o = ground (arith, Once-delete h s o.1, set_has-delete i h s)

pub bucket-index_add :
    (h : Text) (s t : MempoolIntentStatus) (st : IntentStore)
    → bucket t (index_add h s st)
      ≡ ite (status_discrete s t) (set_add h (bucket s st)) (bucket t st)
unfolding index_add
bucket-index_add h s t st = ground (arith, JsMap.get-set s t (set_add h (bucket s st)) st.by_status)

pub bucket-index_remove :
    (h : Text) (s t : MempoolIntentStatus) (st : IntentStore)
    → bucket t (index_remove h s st)
      ≡ ite (status_discrete s t) (set_delete h (bucket s st)) (bucket t st)
unfolding index_remove set_delete
bucket-index_remove h s t st = elim (Option-cases (JsMap.get s st.by_status)) [
  | inl e ↦ ground arith
  | inr (hs, e) ↦ ground (arith, JsMap.get-set s t (set_delete h hs) st.by_status)
]

pub index_remove_rest :
    (h : Text) (s : MempoolIntentStatus) (st : IntentStore)
    → ((index_remove h s st).records ≡ st.records)
      × ((index_remove h s st).max_size ≡ st.max_size)
      × ((index_remove h s st).expiry_grace_ms ≡ st.expiry_grace_ms)
unfolding index_remove
index_remove_rest h s st = ground arith

-- The invariant while one hash is taken out of the index.
record Loose (h : Text) (st : IntentStore) : Type 0 where
  distinct : Distinct st.records
  keyed : (g : Text) (r : MempoolIntentRecord) → JsMap.get g st.records ≡ some r → r.hash ≡ g
  indexed :
      (g : Text) (s : MempoolIntentStatus)
      → set_has g (bucket s st)
        ≡ ite (text_discrete h g) false (has_status s (JsMap.get g st.records))
  single : (s : MempoolIntentStatus) → Once (bucket s st)

Loose-absent : (h : Text) (st : IntentStore) → Inv st → JsMap.get h st.records ≡ none → Loose h st
Loose-absent h st v e = record {
  distinct = v.distinct;
  keyed = v.keyed;
  indexed = λ g s. ground (arith, v.indexed g s);
  single = v.single;
}

Loose-index_remove :
    (h : Text) (r : MempoolIntentRecord) (st : IntentStore)
    → Inv st
    → JsMap.get h st.records ≡ some r
    → Loose h (index_remove h r.status st)
Loose-index_remove h r st v e =
    let (same, _, _) = index_remove_rest h r.status st in
    record {
      distinct = rw same v.distinct;
      keyed = rw same v.keyed;
      indexed = λ g s. ground (
        arith,
        same,
        v.indexed g s,
        bucket-index_remove h r.status s st,
        set_has-delete g h (bucket r.status st),
      );
      single = λ s.
          ground
            (arith, bucket-index_remove h r.status s st, v.single s, Once-delete h (bucket s st));
    }

Loose-put :
    (h : Text) (r : MempoolIntentRecord) (st : IntentStore)
    → Loose h st
    → r.hash ≡ h
    → Inv (put h r st)
unfolding put index_add
Loose-put h r st v e = record {
  distinct = JsMap.set-Distinct h r st.records v.distinct;
  keyed = λ g q p. ground (arith, JsMap.get-set h g r st.records, v.keyed g q);
  indexed = λ g s. ground (
    arith,
    v.indexed g s,
    JsMap.get-set h g r st.records,
    bucket-index_add h r.status s st',
    set_has-add g h (bucket r.status st),
  );
  single =
      λ s. ground (arith, bucket-index_add h r.status s st', v.single s, Once-add h (bucket s st));
}
  where
    st' : IntentStore
    st' = record st { records = JsMap.set h r st.records }

Loose-delete :
    (h : Text) (st : IntentStore)
    → Loose h st
    → Inv (record st { records = JsMap.delete h st.records })
Loose-delete h st v = record {
  distinct = JsMap.delete-Distinct h st.records v.distinct;
  keyed = λ g q p. ground (arith, JsMap.get-delete h g st.records, v.keyed g q);
  indexed = λ g s. ground (arith, v.indexed g s, JsMap.get-delete h g st.records);
  single = v.single;
}

pub delete-Inv : (h : Text) (st : IntentStore) → Inv st → Inv (delete h st).0
unfolding delete
delete-Inv h st v = elim (Option-cases (JsMap.get h st.records)) [
  | inl e ↦ rw (e, delete) v
  | inr (r, e) ↦ rw (e, delete) (Loose-delete h _ (Loose-index_remove h r st v e))
]

-- Deleting leaves the other records and both options alone.
pub delete_rest :
    (h : Text) (st : IntentStore)
    → ((delete h st).0.records ≡ JsMap.delete h st.records)
      × ((delete h st).0.max_size ≡ st.max_size)
      × ((delete h st).0.expiry_grace_ms ≡ st.expiry_grace_ms)
unfolding delete
delete_rest h st = elim (Option-cases (JsMap.get h st.records)) [
  | inl e ↦ ground (arith, JsMap.delete_absent h st.records)
  | inr (r, e) ↦ ground (arith, index_remove_rest h r.status st)
]

pub evict_one-Inv : (st : IntentStore) → Inv st → Inv (evict_one st)
unfolding evict_one
evict_one-Inv st v = elim (Option-cases (victim st)) [
  | inl e ↦ rw (e, evict_one) v
  | inr (h, e) ↦ rw (e, evict_one) (delete-Inv h st v)
]

pub make_room-Inv : (st : IntentStore) → Inv st → Inv (make_room st)
unfolding make_room
make_room-Inv st v = ground (arith, evict_one-Inv st v)

pub get-delete_self : (h : Text) (st : IntentStore) → JsMap.get h (delete h st).0.records ≡ none
get-delete_self h st = ground (arith, delete_rest h st, JsMap.get-delete h h st.records)

get_absent-delete :
    (g h : Text) (st : IntentStore)
    → JsMap.get h st.records ≡ none
    → JsMap.get h (delete g st).0.records ≡ none
get_absent-delete g h st e = ground (arith, delete_rest g st, JsMap.get-delete g h st.records)

-- Eviction makes no hash appear.
get_absent-make_room :
    (h : Text) (st : IntentStore)
    → JsMap.get h st.records ≡ none
    → JsMap.get h (make_room st).records ≡ none
unfolding make_room evict_one
get_absent-make_room h st e = elim (Option-cases (victim st)) [
  | inl n ↦ ground arith
  | inr (g, n) ↦ ground (arith, get_absent-delete g h st e)
]

pub set-Inv :
    (h : Text) (r : MempoolIntentRecord) (st : IntentStore) → Inv st → r.hash ≡ h → Inv (set h r st)
unfolding set
set-Inv h r st v e =
    let gone = (delete h st).0 in
    let absent = get_absent-make_room h gone (get-delete_self h st) in
    Loose-put h r _ (Loose-absent h _ (make_room-Inv gone (delete-Inv h st v)) absent) e

pub update_status-Inv :
    (h : Text) (s : MempoolIntentStatus) (st : IntentStore) → Inv st → Inv (update_status h s st).0
unfolding update_status
update_status-Inv h s st v = elim (Option-cases (JsMap.get h st.records)) [
  | inl e ↦ rw (e, update_status) v
  | inr (r, e) ↦
      let kept =
        Loose-put h (record r { status = s }) _ (Loose-index_remove h r st v e) (v.keyed h r e) in
      ground (arith, kept, v)
]

pub evict_loop-Inv :
    (now : ℕ) (m : JsMap Text MempoolIntentRecord) (st : IntentStore) (n : ℕ)
    → Inv st
    → Inv (evict_loop now m (st, n)).0
unfolding evict_loop
evict_loop-Inv now [] st n v = v
evict_loop-Inv now ((h, r) ∷ m) st n v =
    elim (Bool-cases (is_expired r.intent now (pos 0 -ℤ pos (st.expiry_grace_ms / 1000)))) [
      | inl e ↦
          rw (e, evict_loop) (evict_loop-Inv now m (delete h st).0 (n + 1) (delete-Inv h st v))
      | inr e ↦ rw (e, evict_loop) (evict_loop-Inv now m st n v)
    ]

pub new_store-Inv : (max_size grace : Option ℕ) → Inv (new_store max_size grace)
unfolding new_store set_has JsMap.get
new_store-Inv max_size grace = record {
  distinct = tt;
  keyed = λ h r e. cc;
  indexed = λ h s. refl;
  single = λ s. tt;
}
