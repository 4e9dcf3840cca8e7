-- ===== src/Relayer/Tick/Cursor.antt =====
-- Where a tick that processes messages leaves the cursor: never past a message that still needs
-- an attempt.
use perihelion.Prelude.{
  ℕ, ◌+◌, ◌-◌, ◌≤◌, ◌⊎◌, inl, inr, ◌≡◌, refl, subst, max, true, false, List, [], ◌∷◌, Option, none,
  some, ltb, if◌then◌else◌, is_some, arith, All, Option-cases, Bool-cases,
}
use perihelion.Prelude.Result.{ok, Result-cases}
use perihelion.Prelude.JsMap
use perihelion.Prelude.JsMap.{JsMap}
use perihelion.Prelude.Text.{Text, text_key, text_discrete}
use perihelion.Relayer.Types.{PendingMessage, RelayResult, message_key_string, key_string_of}
use perihelion.Relayer.Relay.{Relayer, Attempt, relay_all}
use perihelion.Relayer.Relay.Resolved.{Answered, AllAnswered, Settled, relay_all_lem}
use perihelion.Relayer.Relay.Frame.{relay_all-Frame}
use perihelion.Relayer.Tick.{
  Poll, by_key, refresh, advance, is_unresolved, min_with, lowest_unresolved, process,
}

-- Whatever holds of the keys of the resolved results holds of those in the map.
get-by_key :
    (Q : Text → Type 0) (rs : List RelayResult) (m : JsMap Text RelayResult)
    → All (λ r. r.resolved ≡ true → Q (message_key_string r.key)) rs
    → ((k : Text) (r : RelayResult) → JsMap.get k m ≡ some r → r.resolved ≡ true → Q k)
    → (k : Text) (r : RelayResult) → JsMap.get k (by_key rs m) ≡ some r
    → r.resolved ≡ true
    → Q k
unfolding by_key
get-by_key Q [] m a old k r e h = old k r e h
get-by_key Q (q ∷ rs) m (b, a) old k r e h =
    get-by_key Q rs (JsMap.set (message_key_string q.key) q m) a new k r e h
  where
    new :
        (j : Text) (t : RelayResult)
        → JsMap.get j (JsMap.set (message_key_string q.key) q m) ≡ some t
        → t.resolved ≡ true
        → Q j
    new j t f g =
        let law = JsMap.get-set (message_key_string q.key) j q m in
        elim (text_discrete (message_key_string q.key) j) [
          | yes p ↦ let u : q.resolved ≡ true = ground arith in subst Q p (b u)
          | no n ↦ let u : JsMap.get j m ≡ some t = ground arith in old j t u g
        ]

-- Every key that has a result has one in the map.
Answered-by_key :
    (k : Text) (rs : List RelayResult) (m : JsMap Text RelayResult)
    → Answered k rs ⊎ (is_some (JsMap.get k m) ≡ true)
    → is_some (JsMap.get k (by_key rs m)) ≡ true
unfolding by_key
Answered-by_key k [] m (inl a) = absurd a
Answered-by_key k [] m (inr h) = h
Answered-by_key k (r ∷ rs) m (inl (inr a)) = Answered-by_key k rs _ (inl a)
Answered-by_key k (r ∷ rs) m (inl (inl e)) =
    Answered-by_key k rs _ (inr (ground (arith, JsMap.get-set (message_key_string r.key) k r m)))
Answered-by_key k (r ∷ rs) m (inr h) =
    Answered-by_key k rs _ (inr (ground (arith, JsMap.get-set (message_key_string r.key) k r m)))

-- The least value so far bounds the result.
lowest_below :
    (ch : ℕ) (m : JsMap Text RelayResult) (ps : List PendingMessage) (acc : Option ℕ) (c n : ℕ)
    → min_with acc c ≤ n
    → min_with (lowest_unresolved ch m ps acc) c ≤ n
unfolding lowest_unresolved
lowest_below ch m [] acc c n h = h
lowest_below ch m (p ∷ ps) acc c n h = lowest_below ch m ps _ c n (step acc h)
  where
    step :
        (acc : Option ℕ)
        → min_with acc c ≤ n
        → min_with
            (if ltb ch p.src_block
              then acc
              else if is_unresolved (JsMap.get (key_string_of p) m)
              then some (min_with acc p.src_block)
              else acc)
            c
          ≤ n
    step none h = ground arith
    step (some l) h = ground arith

min_with-le : (acc : Option ℕ) (n : ℕ) → min_with acc n ≤ n
min_with-le none n = omega arith
min_with-le (some l) n = omega arith

-- Each confirmed message satisfies `Q`, or the cursor has not moved past its block.
abbrev pub AllHeld : ℕ → ℕ → ℕ → (Text → Type 0) → List PendingMessage → Type 0
AllHeld ch old cursor Q [] = Unit {0}
AllHeld ch old cursor Q (p ∷ ps) =
    (p.src_block ≤ ch → Q (key_string_of p) ⊎ (cursor ≤ max old p.src_block))
    × AllHeld ch old cursor Q ps

module _ (ch old : ℕ) (Q : Text → Type 0) (rs : List RelayResult) (m : JsMap Text RelayResult)
    (sound : (k : Text) (r : RelayResult) → JsMap.get k m ≡ some r → r.resolved ≡ true → Q k)
    (answers : (k : Text) → Answered k rs → is_some (JsMap.get k m) ≡ true) where
  held_one :
      (p : PendingMessage) (ps : List PendingMessage) (acc : Option ℕ)
      → (p.src_block ≤ ch → Answered (key_string_of p) rs)
      → p.src_block ≤ ch
      → Q (key_string_of p)
        ⊎ (max old (min_with (lowest_unresolved ch m (p ∷ ps) acc) (ch + 1)) ≤ max old p.src_block)
  unfolding lowest_unresolved
  held_one p ps acc a h = elim (Option-cases (JsMap.get (key_string_of p) m)) [
    | inl e ↦ let t = answers (key_string_of p) (a h) in absurd (ground arith)
    | inr (r, e) ↦ elim (Bool-cases r.resolved) [
      | inl d ↦ inl (sound (key_string_of p) r e d)
      | inr d ↦
          let low : min_with (some (min_with acc p.src_block)) (ch + 1) ≤ p.src_block =
            omega (arith, min_with-le acc p.src_block) in
          let below =
            lowest_below ch m ps (some (min_with acc p.src_block)) (ch + 1) p.src_block low in
          inr (ground arith)
    ]
  ]

  held_all :
      (ps : List PendingMessage) (acc : Option ℕ)
      → AllAnswered ch ps rs
      → AllHeld ch old (max old (min_with (lowest_unresolved ch m ps acc) (ch + 1))) Q ps
  unfolding lowest_unresolved
  held_all [] acc a = tt
  held_all (p ∷ ps) acc (a, b) = (held_one p ps acc a, held_all ps _ b)

-- The cursor when nothing confirmed is unresolved.
abbrev pub NoneUnresolved : ℕ → JsMap Text RelayResult → List PendingMessage → Type 0
NoneUnresolved ch m [] = Unit {0}
NoneUnresolved ch m (p ∷ ps) =
    (p.src_block ≤ ch → is_unresolved (JsMap.get (key_string_of p) m) ≡ false)
    × NoneUnresolved ch m ps

lowest_none :
    (ch : ℕ) (m : JsMap Text RelayResult) (ps : List PendingMessage)
    → NoneUnresolved ch m ps
    → lowest_unresolved ch m ps none ≡ none
unfolding lowest_unresolved
lowest_none ch m [] u = refl
lowest_none ch m (p ∷ ps) u = ground (arith, lowest_none ch m ps u.1, u.0)

-- After a tick that processes the messages, the cursor has not gone back and is at most one past
-- the confirmed head, or where it was; the checkpoint holds it. Each confirmed message arrived at
-- the destination in this tick (or earlier, as the destination reports), or is in the dead-letter
-- store, or has its block at or above the cursor unless the cursor was past it before.
pub process_safe :
    (attempt_of : ℕ → Attempt) (poll : Poll) (s t : Relayer) (rs : List RelayResult)
    → process attempt_of poll s ≡ ok (t, rs)
    → (s.cursor ≤ t.cursor)
      × (t.cursor ≤ max s.cursor (poll.head - s.confirmations + 1))
      × (t.checkpoint ≡ some t.cursor)
      × AllHeld
          (poll.head - s.confirmations)
          s.cursor
          t.cursor
          (λ k. Settled k attempt_of 0 poll.messages t)
          poll.messages
unfolding process JsMap.get
process_safe attempt_of poll s t rs h =
    elim (Result-cases (relay_all ch attempt_of 0 poll.messages (refresh poll s))) [
      | inl (m, f) ↦ absurd (ground arith)
      | inr ((u, qs), f) ↦
          let e : Path (Relayer × List RelayResult) (advance ch poll qs u, qs) (t, rs) =
            ground arith in
          subst Claim e (claim u qs f)
    ]
  where
    ch : ℕ
    ch = poll.head - s.confirmations

    Claim : Relayer × List RelayResult → Type 0
    Claim (t, rs) =
        (s.cursor ≤ t.cursor)
        × (t.cursor ≤ max s.cursor (ch + 1))
        × (t.checkpoint ≡ some t.cursor)
        × AllHeld ch s.cursor t.cursor (λ k. Settled k attempt_of 0 poll.messages t) poll.messages

    claim :
        (u : Relayer) (qs : List RelayResult)
        → relay_all ch attempt_of 0 poll.messages (refresh poll s) ≡ ok (u, qs)
        → Claim (advance ch poll qs u, qs)
    claim u qs f =
        let same = (relay_all-Frame ch attempt_of 0 poll.messages (refresh poll s) (u, qs) f).0 in
        let (_, (sound, answered)) =
          relay_all_lem ch attempt_of 0 poll.messages (refresh poll s) (u, qs) f in
        let Q = λ (k : Text). Settled k attempt_of 0 poll.messages u in
        let low = min_with (lowest_unresolved ch (by_key qs []) poll.messages none) (ch + 1) in
        let high =
          lowest_below ch (by_key qs []) poll.messages none (ch + 1) (ch + 1) (omega arith) in
        let sound_map = get-by_key Q qs [] sound (λ k r e d. absurd (ground arith)) in
        let answers = λ (k : Text) (a : Answered k qs). Answered-by_key k qs [] (inl a) in
        (
          omega arith,
          omega arith,
          refl,
          subst (λ c. AllHeld ch c (max u.cursor low) Q poll.messages) same
              (held_all ch u.cursor Q qs (by_key qs []) sound_map answers poll.messages none
                answered),
        )
