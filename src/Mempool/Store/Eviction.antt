-- ===== src/Mempool/Store/Eviction.antt =====
-- What `set` and `evictOne` drop: the capacity, and whom eviction spares.
use perihelion.Prelude.{
  ◌+◌, ◌-◌, ◌≤◌, ◌<◌, ◌≡◌, ◌≢◌, refl, Bool, true, false, [], ◌∷◌, Option, none, some, max, arith,
  length, if◌then◌else◌, ite, Option-cases, Bool-cases, inl, inr,
}
use perihelion.Prelude.JsMap
use perihelion.Prelude.JsMap.{JsMap, Distinct}
use perihelion.Prelude.Text.{Text, text_discrete, text_key}
use perihelion.Mempool.Store.{
  MempoolIntentRecord, IntentStore, is_terminal, index_add, delete, first_terminal, oldest, victim,
  evict_one, make_room, put, set,
}
use perihelion.Mempool.Store.Invariant.{Inv, delete_rest, delete-Inv}

first_terminal-some :
    (m : JsMap Text MempoolIntentRecord) (h : Text)
    → Distinct m
    → first_terminal m ≡ some h
    → (r : MempoolIntentRecord) × (JsMap.get h m ≡ some r) × (is_terminal r.status ≡ true)
unfolding first_terminal JsMap.get
first_terminal-some [] h d e = cc
first_terminal-some ((g, q) ∷ m) h d e = elim (Bool-cases (is_terminal q.status)) [
  | inl t ↦ (q, ground arith, t)
  | inr f ↦
      let (r, found, done) = first_terminal-some m h d.1 (ground arith) in
      (r, ground (arith, d.0), done)
]

first_terminal-none :
    (m : JsMap Text MempoolIntentRecord) (h : Text) {r : MempoolIntentRecord}
    → first_terminal m ≡ none
    → JsMap.get h m ≡ some r
    → is_terminal r.status ≡ false
unfolding first_terminal JsMap.get
first_terminal-none [] h n e = cc
first_terminal-none ((g, q) ∷ m) h {r} n e = ground (arith, first_terminal-none m h {r = r})

oldest-some :
    (m : JsMap Text MempoolIntentRecord) (h : Text)
    → oldest m ≡ some h
    → (r : MempoolIntentRecord) × (JsMap.get h m ≡ some r)
unfolding oldest JsMap.get
oldest-some [] h e = cc
oldest-some ((g, q) ∷ m) h e = (q, ground arith)

oldest-none : (m : JsMap Text MempoolIntentRecord) → oldest m ≡ none → length m ≡ 0
unfolding oldest
oldest-none [] e = refl
oldest-none ((g, q) ∷ m) e = cc

victim-some :
    (st : IntentStore) (h : Text)
    → Distinct st.records
    → victim st ≡ some h
    → (r : MempoolIntentRecord) × (JsMap.get h st.records ≡ some r)
unfolding victim
victim-some st h d e = elim (Option-cases (first_terminal st.records)) [
  | inl n ↦ oldest-some st.records h (ground arith)
  | inr (g, s) ↦ let (r, found, _) = first_terminal-some st.records g d s in (r, ground arith)
]

victim-none : (st : IntentStore) → victim st ≡ none → length st.records ≡ 0
unfolding victim
victim-none st e = ground (arith, oldest-none st.records)

-- Eviction frees one slot of a store that holds anything.
length-evict_one :
    (st : IntentStore) → Distinct st.records → length (evict_one st).records ≡ length st.records - 1
unfolding evict_one
length-evict_one st d = elim (Option-cases (victim st)) [
  | inl n ↦ ground (arith, victim-none st n)
  | inr (h, s) ↦
      let (r, found) = victim-some st h d s in
      ground (arith, delete_rest h st, JsMap.length-delete h st.records d found)
]

max_size-evict_one : (st : IntentStore) → (evict_one st).max_size ≡ st.max_size
unfolding evict_one
max_size-evict_one st = elim (Option-cases (victim st)) [
  | inl n ↦ ground arith
  | inr (h, s) ↦ ground (arith, delete_rest h st)
]

max_size-make_room : (st : IntentStore) → (make_room st).max_size ≡ st.max_size
unfolding make_room
max_size-make_room st = ground (arith, max_size-evict_one st)

-- The store never holds more than its capacity, where a capacity of 0 still admits one record.
abbrev pub IsBounded : IntentStore → Type 0
IsBounded st = length st.records ≤ max 1 st.max_size

length-put :
    (h : Text) (r : MempoolIntentRecord) (st : IntentStore)
    → length (put h r st).records ≤ length st.records + 1
unfolding put index_add
length-put h r st = ground (arith, JsMap.length-set h r st.records)

max_size-put :
    (h : Text) (r : MempoolIntentRecord) (st : IntentStore) → (put h r st).max_size ≡ st.max_size
unfolding put index_add
max_size-put h r st = refl

-- `set` keeps a store that satisfies the invariant within its capacity (of one, where it is 0).
pub set-IsBounded :
    (h : Text) (r : MempoolIntentRecord) (st : IntentStore)
    → Inv st
    → IsBounded st
    → IsBounded (set h r st)
unfolding set make_room
set-IsBounded h r st v b =
    let gone = (delete h st).0 in
    ground (
      arith,
      delete_rest h st,
      JsMap.length-delete-le h st.records,
      length-evict_one gone (delete-Inv h st v).distinct,
      max_size-make_room gone,
      max_size-evict_one gone,
      length-put h r gone,
      length-put h r (evict_one gone),
      max_size-put h r gone,
      max_size-put h r (evict_one gone),
    )

get-put :
    (h g : Text) (r : MempoolIntentRecord) (st : IntentStore)
    → JsMap.get g (put h r st).records ≡ ite (text_discrete h g) (some r) (JsMap.get g st.records)
unfolding put index_add
get-put h g r st = JsMap.get-set h g r st.records

get-delete_ne :
    (h g : Text) (st : IntentStore)
    → h ≢ g
    → JsMap.get g (delete h st).0.records ≡ JsMap.get g st.records
get-delete_ne h g st n = ground (arith, delete_rest h st, JsMap.get-delete h g st.records)

-- Eviction drops nobody but the victim.
get-evict_one :
    (g : Text) (st : IntentStore)
    → victim st ≢ some g
    → JsMap.get g (evict_one st).records ≡ JsMap.get g st.records
unfolding evict_one
get-evict_one g st n = elim (Option-cases (victim st)) [
  | inl e ↦ ground arith
  | inr (h, e) ↦ ground (arith, get-delete_ne h g st)
]

-- Whether an eviction picked a hash.
abbrev pub opt_is : Text → Option Text → Bool
opt_is g none = false
opt_is g (some h) = ite (text_discrete h g) true false

get-evict_victim :
    (g : Text) (st : IntentStore)
    → JsMap.get g (evict_one st).records
      ≡ (if opt_is g (victim st) then none else JsMap.get g st.records)
unfolding evict_one
get-evict_victim g st = elim (Option-cases (victim st)) [
  | inl e ↦ ground arith
  | inr (h, e) ↦ ground (arith, delete_rest h st, JsMap.get-delete h g st.records)
]

-- A live record is no victim while a terminal one is left.
live-ne-victim :
    (g t : Text) (st : IntentStore) {q u : MempoolIntentRecord}
    → Distinct st.records
    → JsMap.get g st.records ≡ some q
    → is_terminal q.status ≡ false
    → JsMap.get t st.records ≡ some u
    → is_terminal u.status ≡ true
    → victim st ≢ some g
unfolding victim
live-ne-victim g t st {q} {u} d eg lg et tt' e = elim (Option-cases (first_terminal st.records)) [
  | inl n ↦ ground (arith, first_terminal-none st.records t {r = u} n et)
  | inr (h, s) ↦ let (r, found, done) = first_terminal-some st.records h d s in ground arith
]

-- In a store that satisfies the invariant, storing a record under `h` spares every other live
-- record as long as the store holds a terminal record, other than that of `h`, to evict in its
-- place.
pub set_spares_live :
    (h g t : Text) (r : MempoolIntentRecord) (st : IntentStore) {q u : MempoolIntentRecord}
    → Inv st
    → JsMap.get g st.records ≡ some q
    → is_terminal q.status ≡ false
    → JsMap.get t st.records ≡ some u
    → is_terminal u.status ≡ true
    → h ≢ g
    → h ≢ t
    → JsMap.get g (set h r st).records ≡ some q
unfolding set make_room
set_spares_live h g t r st {q} {u} v eg lg et ut ng nt =
    let gone = (delete h st).0 in
    ground (
      arith,
      get-delete_ne h g st ng,
      get-delete_ne h t st nt,
      live-ne-victim g t gone {q = q} {u = u} (delete-Inv h st v).distinct,
      get-evict_one g gone,
      get-put h g r gone,
      get-put h g r (evict_one gone),
    )

-- `set` stores the record; every other hash keeps its record unless it is the victim of a store
-- that is full once the old record of `h` is gone, and the victim is dropped.
pub get-set_store :
    (h g : Text) (r : MempoolIntentRecord) (st : IntentStore)
    → (JsMap.get h (set h r st).records ≡ some r)
      × (h ≢ g
          → length (delete h st).0.records < st.max_size
          → JsMap.get g (set h r st).records ≡ JsMap.get g st.records)
      × (h ≢ g
          → st.max_size ≤ length (delete h st).0.records
          → JsMap.get g (set h r st).records
            ≡ (if opt_is g (victim (delete h st).0) then none else JsMap.get g st.records))
unfolding set make_room
get-set_store h g r st =
    let gone = (delete h st).0 in
    (
      ground (arith, get-put h h r gone, get-put h h r (evict_one gone)),
      λ n room. ground (arith, delete_rest h st, get-delete_ne h g st n, get-put h g r gone),
      λ n full. ground (
        arith,
        delete_rest h st,
        get-delete_ne h g st n,
        get-put h g r (evict_one gone),
        get-evict_victim g gone,
      ),
    )
