-- ===== src/Relayer/Relay/Frame.antt =====
-- What a relay attempt and the loop of a tick leave alone.
use perihelion.Prelude.{ℕ, ◌+◌, ◌≡◌, refl, List, [], ◌∷◌, ltb, arith, if-eq, inl, inr, subst}
use perihelion.Prelude.Result.{ok, Result-cases}
use perihelion.Relayer.Types.{PendingMessage, RelayResult}
use perihelion.Relayer.Relay.{
  Relayer, Outcome, already_delivered, delivered, failed, fatal, Attempt, on_failure, relay_one,
  relay_all,
}

-- Only the retry states, the counters and the dead-letter store differ.
abbrev pub Frame : Relayer → Relayer → Type 0
Frame s t =
    (t.cursor ≡ s.cursor)
    × (t.start_block ≡ s.start_block)
    × (t.confirmations ≡ s.confirmations)
    × (t.retry ≡ s.retry)
    × (t.block_window ≡ s.block_window)
    × (t.checkpoint ≡ s.checkpoint)

pub relay_one-Frame :
    (p : PendingMessage) (now failed_at : ℕ) (o : Outcome) (s t : Relayer) (r : RelayResult)
    → relay_one p (record { now = now; outcome = o; failed_at = failed_at }) s ≡ ok (t, r)
    → Frame s t
unfolding relay_one on_failure
relay_one-Frame p now f already_delivered s t r h = ground arith
relay_one-Frame p now f (delivered tx) s t r h = ground arith
relay_one-Frame p now f (failed e) s t r h = ground arith
relay_one-Frame p now f (fatal e) s t r h = ground arith

Frame-trans : (s t u : Relayer) → Frame s t → Frame t u → Frame s u
Frame-trans s t u a b = ground arith

pub relay_all-Frame :
    (ch : ℕ) (attempt_of : ℕ → Attempt) (i : ℕ) (ps : List PendingMessage) (s : Relayer)
    (z : Relayer × List RelayResult)
    → relay_all ch attempt_of i ps s ≡ ok z
    → Frame s z.0
unfolding relay_all
relay_all-Frame ch attempt_of i [] s z h =
    let e : s ≡ z.0 = cc in subst (Frame s) e (refl, refl, refl, refl, refl, refl)
relay_all-Frame ch attempt_of i (p ∷ ps) s z h = elim (if-eq (ltb ch p.src_block) h) [
  | inl (late, e) ↦ relay_all-Frame ch attempt_of (i + 1) ps s z e
  | inr (soon, e) ↦ elim (Result-cases (relay_one p (attempt_of i) s)) [
    | inl (m, f) ↦ absurd (ground arith)
    | inr ((t, r), f) ↦ elim (Result-cases (relay_all ch attempt_of (i + 1) ps t)) [
      | inl (m, g) ↦ absurd (ground arith)
      | inr (y, g) ↦
          let at = attempt_of i in
          let last : y.0 ≡ z.0 = ground arith in
          subst (Frame s) last (
            Frame-trans s t y.0 (relay_one-Frame p at.now at.failed_at at.outcome s t r f)
              (relay_all-Frame ch attempt_of (i + 1) ps t y g))
    ]
  ]
]
