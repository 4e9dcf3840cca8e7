-- ===== src/Relayer/Relay/Resolved.antt =====
-- What a resolved result means, message by message and over the loop of a tick.
use perihelion.Prelude.{
  ℕ, ◌+◌, ◌≤◌, ◌<◌, ◌⊎◌, inl, inr, ◌≡◌, Bool, true, false, List, [], ◌∷◌, ltb, arith, if-eq, All,
  subst, sym, ltb→lt,
}
use perihelion.Prelude.Result.{ok, Result-cases}
use perihelion.Prelude.JsMap
use perihelion.Prelude.JsMap.{JsMap}
use perihelion.Prelude.Text.{Text, text_key}
use perihelion.Relayer.Types.{
  PendingMessage, RelayResult, message_key_string, key_of, key_string_of,
}
use perihelion.Relayer.DeadLetter
use perihelion.Relayer.DeadLetter.{DeadLetterStore}
use perihelion.Relayer.Relay.{
  Relayer, Outcome, already_delivered, delivered, failed, fatal, Attempt, attempts_of, on_failure,
  relay_one, relay_all,
}

-- The destination has the message.
abbrev pub arrived : Outcome → Bool
arrived already_delivered = true
arrived (delivered tx) = true
arrived (failed e) = false
arrived (fatal e) = false

-- A result that claims to be resolved: its message arrived in that turn, or it is dead-lettered.
abbrev pub Honest : Text → Outcome → Relayer → RelayResult → Type 0
Honest k o s r =
    (message_key_string r.key ≡ k)
    × (r.resolved ≡ true → (arrived o ≡ true) ⊎ (JsMap.has k s.dead_letter ≡ true))

on_failure-Honest :
    (p : PendingMessage) (e : Text) (now : ℕ) (o : Outcome) (s : Relayer)
    → Honest (key_string_of p) o (on_failure p e now s).0 (on_failure p e now s).1
unfolding on_failure
on_failure-Honest p e now o s =
    let n = attempts_of (JsMap.get (key_string_of p) s.attempts) + 1 in
    ground (arith, DeadLetter.has-add (key_string_of p) (key_of p) p n e now s.dead_letter)

on_failure-keeps :
    (p : PendingMessage) (e : Text) (now : ℕ) (s : Relayer) (k : Text)
    → JsMap.has k s.dead_letter ≡ true
    → JsMap.has k (on_failure p e now s).0.dead_letter ≡ true
unfolding on_failure
on_failure-keeps p e now s k d =
    let n = attempts_of (JsMap.get (key_string_of p) s.attempts) + 1 in
    ground (arith, DeadLetter.has-add k (key_of p) p n e now s.dead_letter)

-- A turn takes no message out of the dead-letter store, and its result is honest.
pub relay_one_lem :
    (p : PendingMessage) (now failed_at : ℕ) (o : Outcome) (s : Relayer) (k : Text) (s' : Relayer)
    (r : RelayResult)
    → relay_one p (record { now = now; outcome = o; failed_at = failed_at }) s ≡ ok (s', r)
    → (JsMap.has k s.dead_letter ≡ true → JsMap.has k s'.dead_letter ≡ true)
      × Honest (key_string_of p) o s' r
unfolding relay_one DeadLetter.has
relay_one_lem p now f already_delivered s k s' r h = ground arith
relay_one_lem p now f (delivered tx) s k s' r h = ground arith
relay_one_lem p now f (failed e) s k s' r h =
    ground (arith, on_failure-keeps p e f s k, on_failure-Honest p e f (failed e) s)
relay_one_lem p now f (fatal e) s k s' r h = ground arith

-- Some message of the list with this key arrives in its turn.
abbrev pub Arrives : Text → (ℕ → Attempt) → ℕ → List PendingMessage → Type 0
Arrives k attempt_of i [] = ⊥
Arrives k attempt_of i (p ∷ ps) =
    ((key_string_of p ≡ k) × (arrived (attempt_of i).outcome ≡ true))
    ⊎ Arrives k attempt_of (i + 1) ps

-- The message with this key needs no further attempt.
abbrev pub Settled : Text → (ℕ → Attempt) → ℕ → List PendingMessage → Relayer → Type 0
Settled k attempt_of i ps s = Arrives k attempt_of i ps ⊎ (JsMap.has k s.dead_letter ≡ true)

-- The list has a result for this key.
abbrev pub Answered : Text → List RelayResult → Type 0
Answered k [] = ⊥
Answered k (r ∷ rs) = (message_key_string r.key ≡ k) ⊎ Answered k rs

abbrev pub AllAnswered : ℕ → List PendingMessage → List RelayResult → Type 0
AllAnswered confirmed_head [] rs = Unit {0}
AllAnswered confirmed_head (p ∷ ps) rs =
    (p.src_block ≤ confirmed_head → Answered (key_string_of p) rs)
    × AllAnswered confirmed_head ps rs

weaken :
    (ch : ℕ) (ps : List PendingMessage) (r : RelayResult) (rs : List RelayResult)
    → AllAnswered ch ps rs
    → AllAnswered ch ps (r ∷ rs)
weaken ch [] r rs a = tt
weaken ch (p ∷ ps) r rs (a, b) = ((λ h. inr (a h)), weaken ch ps r rs b)

-- The results of the loop: what is resolved is settled, and every confirmed message is answered.
abbrev pub Sound : ℕ → (ℕ → Attempt) → ℕ → List PendingMessage → Relayer → List RelayResult → Type 0
Sound ch attempt_of i ps s rs =
    All (λ r. r.resolved ≡ true → Settled (message_key_string r.key) attempt_of i ps s) rs
    × AllAnswered ch ps rs

later :
    (attempt_of : ℕ → Attempt) (i : ℕ) (p : PendingMessage) (ps : List PendingMessage) (s : Relayer)
    (rs : List RelayResult)
    → All (λ r. r.resolved ≡ true → Settled (message_key_string r.key) attempt_of (i + 1) ps s) rs
    → All (λ r. r.resolved ≡ true → Settled (message_key_string r.key) attempt_of i (p ∷ ps) s) rs
later attempt_of i p ps s [] a = tt
later attempt_of i p ps s (r ∷ rs) (a, b) =
    ((λ h. elim (a h) [ inl x ↦ inl (inr x) | inr y ↦ inr y ]), later attempt_of i p ps s rs b)

-- What the loop promises of its state and results.
abbrev pub Kept :
    ℕ → (ℕ → Attempt) → ℕ → List PendingMessage → Relayer → Relayer × List RelayResult → Type 0
Kept ch attempt_of i ps s (s', rs) =
    ((k : Text) → JsMap.has k s.dead_letter ≡ true → JsMap.has k s'.dead_letter ≡ true)
    × Sound ch attempt_of i ps s' rs

Kept-skip :
    (ch : ℕ) (attempt_of : ℕ → Attempt) (i : ℕ) (p : PendingMessage) (ps : List PendingMessage)
    (s : Relayer) (z : Relayer × List RelayResult)
    → ch < p.src_block
    → Kept ch attempt_of (i + 1) ps s z
    → Kept ch attempt_of i (p ∷ ps) s z
Kept-skip ch attempt_of i p ps s (s', rs) late (keeps, (a, b)) =
    (keeps, (later attempt_of i p ps s' rs a, ((λ q. absurd (omega arith)), b)))

Kept-step :
    (ch : ℕ) (attempt_of : ℕ → Attempt) (i : ℕ) (p : PendingMessage) (ps : List PendingMessage)
    (s t : Relayer) (r : RelayResult) (z : Relayer × List RelayResult)
    → relay_one p (attempt_of i) s ≡ ok (t, r)
    → Kept ch attempt_of (i + 1) ps t z
    → Kept ch attempt_of i (p ∷ ps) s (z.0, r ∷ z.1)
Kept-step ch attempt_of i p ps s t r (s', rs) e (keeps, (a, b)) =
    let at = attempt_of i in
    let turn = λ (k : Text). relay_one_lem p at.now at.failed_at at.outcome s k t r e in
    let (own, honest) = (turn []).1 in
    (
      (λ k h. keeps k ((turn k).0 h)),
      (
        (
          (λ h. elim (honest h) [
            | inl x ↦ inl (inl (sym own, x))
            | inr y ↦ inr (keeps (message_key_string r.key) (rw own y))
          ]),
          later attempt_of i p ps s' rs a,
        ),
        ((λ q. inl own), weaken ch ps r rs b),
      ),
    )

pub relay_all_lem :
    (ch : ℕ) (attempt_of : ℕ → Attempt) (i : ℕ) (ps : List PendingMessage) (s : Relayer)
    (z : Relayer × List RelayResult)
    → relay_all ch attempt_of i ps s ≡ ok z
    → Kept ch attempt_of i ps s z
unfolding relay_all
relay_all_lem ch attempt_of i [] s z h =
    let e : Path (Relayer × List RelayResult) (s, []) z = cc in
    subst (Kept ch attempt_of i [] s) e ((λ k d. d), (tt, tt))
relay_all_lem ch attempt_of i (p ∷ ps) s z h = elim (if-eq (ltb ch p.src_block) h) [
  | inl (late, e) ↦
      Kept-skip ch attempt_of i p ps s z (ltb→lt _ _ late)
        (relay_all_lem ch attempt_of (i + 1) ps s z e)
  | inr (soon, e) ↦ elim (Result-cases (relay_one p (attempt_of i) s)) [
    | inl (m, f) ↦ absurd (ground arith)
    | inr ((t, r), f) ↦ elim (Result-cases (relay_all ch attempt_of (i + 1) ps t)) [
      | inl (m, g) ↦ absurd (ground arith)
      | inr (y, g) ↦
          let k : Path (Relayer × List RelayResult) (y.0, r ∷ y.1) z = ground arith in
          subst (Kept ch attempt_of i (p ∷ ps) s) k (
            Kept-step ch attempt_of i p ps s t r y f (relay_all_lem ch attempt_of (i + 1) ps t y g))
    ]
  ]
]
