-- ===== src/Solver/SeenLru.antt =====
-- solver/src/seen-lru.ts, class SeenLRU; the clock is an argument, in milliseconds.
pub mod Laws
use perihelion.Prelude.{
  ℕ, ◌+◌, Bool, true, false, List, [], ◌∷◌, Option, none, some, length, ltb, leb, if◌then◌else◌,
}
use perihelion.Prelude.JsMap
use perihelion.Prelude.JsMap.{JsMap}
use perihelion.Prelude.Text.{Text, text_key}

pub record SeenEntry : Type 0 where
  pub inserted_at : ℕ
  pub deadline_ms : ℕ

pub record SeenLru : Type 0 where
  pub cache : JsMap Text SeenEntry
  pub max_size : ℕ

unfoldable pub has : Text → ℕ → SeenLru → SeenLru × Bool
has hash now l = elim (JsMap.get hash l.cache) [
  | none ↦ (l, false)
  | some entry ↦
      if ltb entry.deadline_ms now
      then (record l { cache = JsMap.delete hash l.cache }, false)
      else (record l { cache = JsMap.set hash entry (JsMap.delete hash l.cache) }, true)
]

-- The entry that was inserted first goes.
unfoldable pub evict_oldest : JsMap Text SeenEntry → JsMap Text SeenEntry
evict_oldest [] = []
evict_oldest ((k, e) ∷ m) = JsMap.delete k ((k, e) ∷ m)

unfoldable pub add : Text → ℕ → ℕ → SeenLru → SeenLru
add hash deadline_ms now l =
    let cleared = JsMap.delete hash l.cache in
    let room = if leb l.max_size (length cleared) then evict_oldest cleared else cleared in
    record l {
      cache = JsMap.set hash (record { inserted_at = now; deadline_ms = deadline_ms }) room;
    }

-- `now > entry.deadlineMs` fails.
abbrev pub is_live : ℕ → SeenEntry → Bool
is_live now e = leb now e.deadline_ms

-- The loop of `evictExpired` and its count.
unfoldable pub count_dead : ℕ → JsMap Text SeenEntry → ℕ
count_dead now [] = 0
count_dead now ((k, e) ∷ m) =
    let rest = count_dead now m in if is_live now e then rest else rest + 1

unfoldable pub evict_expired : ℕ → SeenLru → SeenLru × ℕ
evict_expired now l =
    (record l { cache = JsMap.retain (is_live now) l.cache }, count_dead now l.cache)
