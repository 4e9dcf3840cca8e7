-- ===== src/Mempool/Store/Status.antt =====
-- `updateStatus`: the result on every branch, and that a terminal status is final.
use perihelion.Prelude.{
  ◌≡◌, ◌≢◌, Bool, true, false, List, [], ◌∷◌, Option, none, some, arith, inl, inr, if◌then◌else◌,
  Option-cases,
}
use perihelion.Prelude.JsMap
use perihelion.Prelude.JsMap.{JsMap}
use perihelion.Prelude.Text.{Text, text_key}
use perihelion.Sdk.Types.{MempoolIntentStatus}
use perihelion.Mempool.Store.{
  MempoolIntentRecord, IntentStore, is_terminal, index_add, put, update_status, keys,
}
use perihelion.Mempool.Store.Invariant.{Inv, index_remove_rest, update_status-Inv}

-- Whether `updateStatus` may change the record that it finds.
abbrev pub is_open : Option MempoolIntentRecord → Bool
is_open none = false
is_open (some r) = if is_terminal r.status then false else true

-- The record that it leaves.
abbrev pub with_status :
    MempoolIntentStatus → Option MempoolIntentRecord → Option MempoolIntentRecord
with_status s none = none
with_status s (some r) = if is_terminal r.status then some r else some (record r { status = s })

-- A record found is overwritten in place.
keys-set :
    (h : Text) (r r' : MempoolIntentRecord) (m : JsMap Text MempoolIntentRecord)
    → JsMap.get h m ≡ some r
    → keys (JsMap.set h r' m) ≡ keys m
unfolding keys JsMap.get JsMap.set
keys-set h r r' [] e = cc
keys-set h r r' ((g, q) ∷ m) e = ground (arith, keys-set h r r' m)

update_status-records :
    (h g : Text) (s : MempoolIntentStatus) (st : IntentStore)
    → ((update_status h s st).1 ≡ is_open (JsMap.get h st.records))
      × (JsMap.get h (update_status h s st).0.records ≡ with_status s (JsMap.get h st.records))
      × (h ≢ g → JsMap.get g (update_status h s st).0.records ≡ JsMap.get g st.records)
      × ((update_status h s st).1 ≡ false → (update_status h s st).0 ≡ st)
unfolding update_status put index_add
update_status-records h g s st = elim (Option-cases (JsMap.get h st.records)) [
  | inl e ↦ ground arith
  | inr (r, e) ↦
      let r' = record r { status = s } in
      ground (
        arith,
        index_remove_rest h r.status st,
        JsMap.get-set h h r' st.records,
        JsMap.get-set h g r' st.records,
      )
]

update_status-rest :
    (h : Text) (s : MempoolIntentStatus) (st : IntentStore)
    → (keys (update_status h s st).0.records ≡ keys st.records)
      × ((update_status h s st).0.max_size ≡ st.max_size)
      × ((update_status h s st).0.expiry_grace_ms ≡ st.expiry_grace_ms)
unfolding update_status put index_add
update_status-rest h s st = elim (Option-cases (JsMap.get h st.records)) [
  | inl e ↦ ground arith
  | inr (r, e) ↦
      let r' = record r { status = s } in
      ground (arith, index_remove_rest h r.status st, keys-set h r r' st.records e)
]

-- In a store that satisfies the invariant, `updateStatus` reports whether the hash has a record
-- whose status is not terminal. It then changes the status of that record and nothing else about
-- any record, and otherwise changes nothing at all. In either case the order of the records, the
-- capacity and the grace stay as they were, and the store satisfies the invariant again: the index
-- lists the record under its new status only.
pub update_status_lem :
    (h g : Text) (s : MempoolIntentStatus) (st : IntentStore)
    → Inv st
    → (((update_status h s st).1 ≡ is_open (JsMap.get h st.records))
        × (JsMap.get h (update_status h s st).0.records ≡ with_status s (JsMap.get h st.records))
        × (h ≢ g → JsMap.get g (update_status h s st).0.records ≡ JsMap.get g st.records)
        × ((update_status h s st).1 ≡ false → (update_status h s st).0 ≡ st))
      × ((keys (update_status h s st).0.records ≡ keys st.records)
          × ((update_status h s st).0.max_size ≡ st.max_size)
          × ((update_status h s st).0.expiry_grace_ms ≡ st.expiry_grace_ms))
      × Inv (update_status h s st).0
update_status_lem h g s st v =
    (update_status-records h g s st, update_status-rest h s st, update_status-Inv h s st v)

-- A history of reported statuses.
unfoldable pub update_all : List (Text × MempoolIntentStatus) → IntentStore → IntentStore
update_all [] st = st
update_all ((h, s) ∷ us) st = update_all us (update_status h s st).0

-- Whatever statuses are reported, for whatever hashes, a record whose status is terminal stays as
-- it is.
pub terminal_is_final :
    (us : List (Text × MempoolIntentStatus)) (h : Text) (r : MempoolIntentRecord) (st : IntentStore)
    → JsMap.get h st.records ≡ some r
    → is_terminal r.status ≡ true
    → JsMap.get h (update_all us st).records ≡ some r
unfolding update_all
terminal_is_final [] h r st e t = e
terminal_is_final ((g, s) ∷ us) h r st e t =
    terminal_is_final us h r (update_status g s st).0
      (ground (arith, update_status-records g h s st)) t
