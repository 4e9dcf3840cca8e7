-- ===== src/Solver/SeenLru/Laws.antt =====
-- The seen set: bounded, and a hash is found from its insertion to its deadline.
use perihelion.Prelude.{
  ℕ, ◌-◌, ◌≤◌, ◌≡◌, refl, sym, ◌∙◌, max, Bool, false, [], ◌∷◌, Option, none, some, length, ltb, leb,
  if◌then◌else◌, arith, Option-cases, Bool-cases, inl, inr,
}
use perihelion.Prelude.JsMap
use perihelion.Prelude.JsMap.{JsMap, Distinct}
use perihelion.Prelude.Text.{Text, text_key}
use perihelion.Solver.SeenLru.{SeenEntry, SeenLru, has, evict_oldest, add, is_live, evict_expired}

-- What the set keeps: a hash at most once, and no more entries than allowed (at least one).
pub record Inv (l : SeenLru) : Type 0 where
  pub distinct : Distinct l.cache
  pub bounded : length l.cache ≤ max 1 l.max_size

evict_oldest-Distinct : (m : JsMap Text SeenEntry) → Distinct m → Distinct (evict_oldest m)
unfolding evict_oldest
evict_oldest-Distinct [] d = tt
evict_oldest-Distinct ((k, e) ∷ m) d = JsMap.delete-Distinct k ((k, e) ∷ m) d

length-evict_oldest :
    (m : JsMap Text SeenEntry) → Distinct m → length (evict_oldest m) ≡ length m - 1
unfolding evict_oldest JsMap.delete JsMap.get
length-evict_oldest [] d = refl
length-evict_oldest ((k, e) ∷ m) d = ground (arith, JsMap.delete_absent k m d.0)

-- `add` keeps the invariant of the set, and afterwards `has` finds the hash exactly as long as its
-- deadline has not passed.
pub add_lem :
    (hash : Text) (deadline_ms now later : ℕ) (l : SeenLru)
    → Inv l
    → Inv (add hash deadline_ms now l)
      × ((has hash later (add hash deadline_ms now l)).1 ≡ leb later deadline_ms)
unfolding add has
add_lem hash deadline_ms now later l v = (
  record {
    distinct = JsMap.set-Distinct hash entry room room-Distinct;
    bounded = ground (
      arith,
      v.bounded,
      JsMap.length-set hash entry room,
      JsMap.length-delete-le hash l.cache,
      length-evict_oldest cleared cleared-Distinct,
    );
  },
  ground (arith, JsMap.get-set hash hash entry room),
)
  where
    entry : SeenEntry
    entry = record { inserted_at = now; deadline_ms = deadline_ms }

    cleared : JsMap Text SeenEntry
    cleared = JsMap.delete hash l.cache

    room : JsMap Text SeenEntry
    room = if leb l.max_size (length cleared) then evict_oldest cleared else cleared

    cleared-Distinct : Distinct cleared
    cleared-Distinct = JsMap.delete-Distinct hash l.cache v.distinct

    room-Distinct : Distinct room
    room-Distinct = ground (arith, cleared-Distinct, evict_oldest-Distinct cleared)

-- What `has` answers of the entry that it finds.
abbrev found : ℕ → Option SeenEntry → Bool
found now none = false
found now (some e) = is_live now e

has_value : (h : Text) (now : ℕ) (l : SeenLru) → (has h now l).1 ≡ found now (JsMap.get h l.cache)
unfolding has
has_value h now l = ground arith

get-has :
    (h other : Text) (now : ℕ) (l : SeenLru)
    → found now (JsMap.get other (has h now l).0.cache) ≡ found now (JsMap.get other l.cache)
unfolding has
get-has h other now l = elim (Option-cases (JsMap.get h l.cache)) [
  | inl e ↦ ground arith
  | inr (v, e) ↦
      ground
        (arith, JsMap.get-delete h other l.cache, JsMap.get-set h other v (JsMap.delete h l.cache))
]

has-Inv : (h : Text) (now : ℕ) (l : SeenLru) → Inv l → Inv (has h now l).0
unfolding has
has-Inv h now l v = elim (Option-cases (JsMap.get h l.cache)) [
  | inl e ↦ rw (e, has) v
  | inr (w, e) ↦ elim (Bool-cases (ltb w.deadline_ms now)) [
    | inl f ↦
        rw (e, f, has)
          (record {
            distinct = JsMap.delete-Distinct h l.cache v.distinct;
            bounded = ground (arith, v.bounded, JsMap.length-delete-le h l.cache);
          })
    | inr f ↦
        rw (e, f, has)
          (record {
            distinct =
                JsMap.set-Distinct h w (JsMap.delete h l.cache)
                  (JsMap.delete-Distinct h l.cache v.distinct);
            bounded = ground (
              arith,
              v.bounded,
              JsMap.length-set h w (JsMap.delete h l.cache),
              JsMap.length-delete h l.cache {v = w} v.distinct e,
            );
          })
  ]
]

-- On a set that satisfies the invariant, `has` keeps it and does not change which hashes are found
-- at that time; `evictExpired`
-- drops only entries that are no longer found.
pub has_lem :
    (hash other : Text) (now : ℕ) (l : SeenLru)
    → Inv l
    → Inv (has hash now l).0
      × ((has other now (has hash now l).0).1 ≡ (has other now l).1)
      × ((has other now (evict_expired now l).0).1 ≡ (has other now l).1)
unfolding evict_expired
has_lem hash other now l v = (
  has-Inv hash now l v,
  has_value other now (has hash now l).0 ∙ get-has hash other now l ∙ sym (has_value other now l),
  ground (
    arith,
    has_value other now l,
    has_value other now (evict_expired now l).0,
    JsMap.get-retain (is_live now) other l.cache v.distinct,
  ),
)
