-- ===== src/Mempool/Store.antt =====
-- mempool/src/store.ts, class IntentStore. `records` and `by_status` are its two maps; records are
-- values here, so `freezeRecord`, which forbids mutation through a shared reference, has no
-- counterpart. The clock is an argument.
pub mod Invariant
pub mod Eviction
pub mod Status
pub mod Sweep
pub mod Pages
pub mod Paging
pub mod Walk
use perihelion.Prelude.{
  ℕ, ◌+◌, ◌-◌, ◌/◌, Bool, true, false, not, List, [], ◌∷◌, ◌++◌, Option, none, some, length, any,
  leb, ◌==◌, if◌then◌else◌, or_default, ite,
}
use perihelion.Prelude.Int.{pos, ◌-ℤ◌}
use perihelion.Prelude.JsMap
use perihelion.Prelude.JsMap.{JsMap, Key}
use perihelion.Prelude.Text.{Text, text_discrete, text_key}
use perihelion.Sdk.Types.{
  Intent, MempoolIntentStatus, pending, filled, settled, refunded, expired, status_key,
}
use perihelion.Sdk.Expiry.{is_expired}

pub record MempoolIntentRecord : Type 0 where
  pub intent : Intent
  pub signature : Text
  pub hash : Text
  pub status : MempoolIntentStatus
  pub created_at : ℕ

-- A `Set<Hex>` in insertion order.
abbrev pub HashSet : Type 0
HashSet = List Text

unfoldable pub set_has : Text → HashSet → Bool
set_has h [] = false
set_has h (g ∷ s) = ite (text_discrete g h) true (set_has h s)

unfoldable pub set_add : Text → HashSet → HashSet
set_add h s = if set_has h s then s else s ++ h ∷ []

unfoldable pub set_delete : Text → HashSet → HashSet
set_delete h [] = []
set_delete h (g ∷ s) = ite (text_discrete g h) (set_delete h s) (g ∷ set_delete h s)

pub record IntentStore : Type 0 where
  pub records : JsMap Text MempoolIntentRecord
  pub by_status : JsMap MempoolIntentStatus HashSet
  pub max_size : ℕ
  pub expiry_grace_ms : ℕ

-- The constructor, with the defaults of the two options.
unfoldable pub new_store : Option ℕ → Option ℕ → IntentStore
new_store max_size expiry_grace_ms = record {
  records = [];
  by_status = [];
  max_size = or_default max_size 50000;
  expiry_grace_ms = or_default expiry_grace_ms 60000;
}

-- `TERMINAL_STATUSES.has(status)`.
abbrev pub is_terminal : MempoolIntentStatus → Bool
is_terminal pending = false
is_terminal filled = false
is_terminal settled = true
is_terminal refunded = true
is_terminal expired = true

-- `this.byStatus.get(status) ?? new Set()`.
abbrev pub bucket : MempoolIntentStatus → IntentStore → HashSet
bucket s st = or_default (JsMap.get s st.by_status) []

unfoldable pub index_add : Text → MempoolIntentStatus → IntentStore → IntentStore
index_add hash s st = record st {
  by_status = JsMap.set s (set_add hash (bucket s st)) st.by_status;
}

-- `this.byStatus.get(status)?.delete(hash)`.
unfoldable pub index_remove : Text → MempoolIntentStatus → IntentStore → IntentStore
index_remove hash s st = elim (JsMap.get s st.by_status) [
  | none ↦ st
  | some hashes ↦ record st { by_status = JsMap.set s (set_delete hash hashes) st.by_status }
]

unfoldable pub get : Text → IntentStore → Option MempoolIntentRecord
get hash st = JsMap.get hash st.records

unfoldable pub delete : Text → IntentStore → IntentStore × Bool
delete hash st = elim (JsMap.get hash st.records) [
  | none ↦ (st, false)
  | some r ↦
      let st' = index_remove hash r.status st in
      (record st' { records = JsMap.delete hash st'.records }, true)
]

-- The two passes of `evictOne`: the oldest terminal record, else the oldest record.
unfoldable pub first_terminal : JsMap Text MempoolIntentRecord → Option Text
first_terminal [] = none
first_terminal ((h, r) ∷ m) = if is_terminal r.status then some h else first_terminal m

unfoldable pub oldest : JsMap Text MempoolIntentRecord → Option Text
oldest [] = none
oldest ((h, r) ∷ m) = some h

unfoldable pub victim : IntentStore → Option Text
victim st = elim (first_terminal st.records) [ some h ↦ some h | none ↦ oldest st.records ]

unfoldable pub evict_one : IntentStore → IntentStore
evict_one st = elim (victim st) [ none ↦ st | some h ↦ (delete h st).0 ]

-- `if (this.records.size >= this.maxSize) this.evictOne()`.
unfoldable pub make_room : IntentStore → IntentStore
make_room st = if leb st.max_size (length st.records) then evict_one st else st

-- `this.records.set(hash, record)` and the entry in the index.
unfoldable pub put : Text → MempoolIntentRecord → IntentStore → IntentStore
put hash r st = index_add hash r.status (record st { records = JsMap.set hash r st.records })

unfoldable pub set : Text → MempoolIntentRecord → IntentStore → IntentStore
set hash r st = put hash r (make_room ((delete hash st).0))

unfoldable pub update_status : Text → MempoolIntentStatus → IntentStore → IntentStore × Bool
update_status hash s st = elim (JsMap.get hash st.records) [
  | none ↦ (st, false)
  | some r ↦
      if is_terminal r.status
      then (st, false)
      else (put hash (record r { status = s }) (index_remove hash r.status st), true)
]

-- The loop of `evictExpired`; deleting the entry at hand does not disturb the iteration.
unfoldable pub evict_loop : ℕ → JsMap Text MempoolIntentRecord → IntentStore × ℕ → IntentStore × ℕ
evict_loop now [] acc = acc
evict_loop now ((h, r) ∷ m) (st, evicted) = evict_loop now m (
    if is_expired r.intent now (pos 0 -ℤ pos (st.expiry_grace_ms / 1000))
    then ((delete h st).0, evicted + 1)
    else (st, evicted))

unfoldable pub evict_expired : ℕ → IntentStore → IntentStore × ℕ
evict_expired now st = evict_loop now st.records (st, 0)

-- The keys of a map in insertion order.
unfoldable pub keys : JsMap Text MempoolIntentRecord → List Text
keys [] = []
keys ((h, r) ∷ m) = h ∷ keys m

-- `status ? this.byStatus.get(status) ?? new Set() : this.records.keys()`.
abbrev pub hashes_of : Option MempoolIntentStatus → IntentStore → List Text
hashes_of none st = keys st.records
hashes_of (some s) st = bucket s st

-- The loop of `all`.
unfoldable pub collect : JsMap Text MempoolIntentRecord → List Text → List MempoolIntentRecord
collect records [] = []
collect records (h ∷ hs) = elim (JsMap.get h records) [
  | none ↦ collect records hs
  | some r ↦ r ∷ collect records hs
]

unfoldable pub all : Option MempoolIntentStatus → IntentStore → List MempoolIntentRecord
all s st = collect st.records (hashes_of s st)

unfoldable pub size : IntentStore → ℕ
size st = length st.records
