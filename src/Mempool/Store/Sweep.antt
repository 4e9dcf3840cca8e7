-- ===== src/Mempool/Store/Sweep.antt =====
-- `evictExpired`: what a sweep leaves, what it counts, and how early it strikes.
use perihelion.Prelude.{
  ℕ, ◌+◌, ◌/◌, ◌≤◌, ◌<◌, ◌≡◌, refl, Bool, not, [], ◌∷◌, none, some, arith, length, inl, inr,
  if◌then◌else◌, Bool-cases, ◌∙◌,
}
use perihelion.Prelude.Int.{pos, ◌-ℤ◌}
use perihelion.Prelude.JsMap
use perihelion.Prelude.JsMap.{JsMap, Distinct}
use perihelion.Prelude.Text.{Text, text_key}
use perihelion.Sdk.Expiry.{is_expired, is_expired_early}
use perihelion.Mempool.Store.{MempoolIntentRecord, IntentStore, delete, evict_loop, evict_expired}
use perihelion.Mempool.Store.Invariant.{Inv, delete_rest, evict_loop-Inv}

-- The sweep's test, with the grace of the store.
abbrev pub is_swept : ℕ → ℕ → MempoolIntentRecord → Bool
is_swept now grace_ms r = is_expired r.intent now (pos 0 -ℤ pos (grace_ms / 1000))

-- The entries still to be visited are entries of the store.
abbrev Visits : JsMap Text MempoolIntentRecord → IntentStore → Type 0
Visits m st =
    (h : Text) (r : MempoolIntentRecord) → JsMap.get h m ≡ some r → JsMap.get h st.records ≡ some r

Visits-tail :
    (g : Text) (q : MempoolIntentRecord) (m : JsMap Text MempoolIntentRecord) (st : IntentStore)
    → Distinct ((g, q) ∷ m)
    → Visits ((g, q) ∷ m) st
    → Visits m st
unfolding JsMap.get
Visits-tail g q m st d v h r e = v h r (ground (arith, d.0))

Visits-delete :
    (g : Text) (m : JsMap Text MempoolIntentRecord) (st : IntentStore)
    → JsMap.get g m ≡ none
    → Visits m st
    → Visits m (delete g st).0
Visits-delete g m st n v h r e =
    ground (arith, delete_rest g st, JsMap.get-delete g h st.records, v h r e)

Visits-head :
    (g : Text) (q : MempoolIntentRecord) (m : JsMap Text MempoolIntentRecord) (st : IntentStore)
    → Visits ((g, q) ∷ m) st
    → JsMap.get g st.records ≡ some q
unfolding JsMap.get
Visits-head g q m st v = v g q (ground arith)

get-evict_loop :
    (now : ℕ) (m : JsMap Text MempoolIntentRecord) (st : IntentStore) (n : ℕ) (h : Text)
    → Distinct m
    → Visits m st
    → JsMap.get h (evict_loop now m (st, n)).0.records ≡ (
        if JsMap.has h m
        then JsMap.kept (λ r. not (is_swept now st.expiry_grace_ms r)) (JsMap.get h st.records)
        else JsMap.get h st.records)
unfolding evict_loop JsMap.get
get-evict_loop now [] st n h d v = refl
get-evict_loop now ((g, q) ∷ m) st n h d v = elim (Bool-cases (is_swept now st.expiry_grace_ms q)) [
  | inl e ↦
      rw (e, evict_loop)
        (ground (
          arith,
          get-evict_loop now m (delete g st).0 (n + 1) h d.1
              (Visits-delete g m st d.0 (Visits-tail g q m st d v)),
          delete_rest g st,
          JsMap.get-delete g h st.records,
          Visits-head g q m st v,
          d.0,
        ))
  | inr e ↦
      rw (e, evict_loop)
        (ground (
          arith,
          get-evict_loop now m st n h d.1 (Visits-tail g q m st d v),
          Visits-head g q m st v,
        ))
]

delete-Distinct :
    (g : Text) (st : IntentStore) → Distinct st.records → Distinct (delete g st).0.records
delete-Distinct g st ds = rw (delete_rest g st).0 (JsMap.delete-Distinct g st.records ds)

-- The loop counts what it deletes.
length-evict_loop :
    (now : ℕ) (m : JsMap Text MempoolIntentRecord) (st : IntentStore) (n : ℕ)
    → Distinct st.records
    → Distinct m
    → Visits m st
    → length (evict_loop now m (st, n)).0.records + (evict_loop now m (st, n)).1
      ≡ length st.records + n
unfolding evict_loop
length-evict_loop now [] st n ds d v = refl
length-evict_loop now ((g, q) ∷ m) st n ds d v =
    let rest = Visits-tail g q m st d v in
    elim (Bool-cases (is_swept now st.expiry_grace_ms q)) [
      | inl e ↦
          rw (e, evict_loop)
            (ground (
              arith,
              length-evict_loop now m (delete g st).0 (n + 1) (delete-Distinct g st ds) d.1
                  (Visits-delete g m st d.0 rest),
              delete_rest g st,
              JsMap.length-delete g st.records ds (Visits-head g q m st v),
            ))
      | inr e ↦ rw (e, evict_loop) (length-evict_loop now m st n ds d.1 rest)
    ]

-- A sweep of a store that satisfies the invariant keeps it, leaves exactly the records that its test passes over, and returns
-- the number of those that it dropped.
pub evict_expired_lem :
    (now : ℕ) (st : IntentStore)
    → Inv st
    → Inv (evict_expired now st).0
      × ((h : Text)
          → JsMap.get h (evict_expired now st).0.records
            ≡ JsMap.kept (λ r. not (is_swept now st.expiry_grace_ms r)) (JsMap.get h st.records))
      × (length (evict_expired now st).0.records + (evict_expired now st).1 ≡ length st.records)
unfolding evict_expired
evict_expired_lem now st v = (
  evict_loop-Inv now st.records st 0 v,
  (λ h. ground (arith, get-evict_loop now st.records st 0 h v.distinct (λ g r e. e))),
  omega (arith, length-evict_loop now st.records st 0 v.distinct v.distinct (λ g r e. e)),
)

-- The grace works the wrong way round: a record whose deadline is still ahead, by no more than
-- the grace, is dropped by the sweep.
pub evict_expired_early :
    (now : ℕ) (st : IntentStore) (h : Text) (r : MempoolIntentRecord)
    → Inv st
    → JsMap.get h st.records ≡ some r
    → now < r.intent.deadline
    → r.intent.deadline ≤ now + st.expiry_grace_ms / 1000
    → JsMap.get h (evict_expired now st).0.records ≡ none
evict_expired_early now st h r v e ahead within =
    (evict_expired_lem now st v).1 h
    ∙ ground (arith, is_expired_early r.intent now (st.expiry_grace_ms / 1000))
