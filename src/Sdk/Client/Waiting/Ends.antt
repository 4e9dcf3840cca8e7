-- ===== src/Sdk/Client/Waiting/Ends.antt =====
-- What `waitForSettlement` returns, whom it tells, and that it ends.
use perihelion.Prelude.{
  ℕ, zero, suc, ◌+◌, ◌≤◌, ◌<◌, ◌≡◌, ◌≢◌, inl, inr, refl, sym, ap, ◌∙◌, true, false, List, [], ◌∷◌,
  ◌++◌, append_assoc, append-nil, Option, none, some, if◌then◌else◌, arith, Bool-cases, subst,
}
use perihelion.Prelude.Result.{Result, err, ok, Result-cases}
use perihelion.Sdk.Types.{MempoolIntentStatus}
use perihelion.Sdk.Validate.Records.{IntentRecord}
use perihelion.Sdk.Client.{ClientError}
use perihelion.Sdk.Client.Waiting.{
  done, timed_out, failed, out_of_fuel, Waited, is_terminal, is_timeout, is_change, note, pause,
  is_late, wait_loop, wait_for_settlement,
}

-- The statuses that differ from the one before.
unfoldable pub changes :
    Option MempoolIntentStatus → List MempoolIntentStatus → List MempoolIntentStatus
changes last [] = []
changes last (s ∷ ss) =
    let rest = changes (some s) ss in if is_change last s then s ∷ rest else rest

changes-note :
    (last : Option MempoolIntentStatus) (s : MempoolIntentStatus)
    (notes ss : List MempoolIntentStatus)
    → note last s notes ++ changes (some s) ss ≡ notes ++ changes last (s ∷ ss)
unfolding note changes
changes-note last s notes ss = elim (Bool-cases (is_change last s)) [
  | inl e ↦ rw e (append_assoc notes (s ∷ []) (changes (some s) ss))
  | inr e ↦ rw e refl
]

module _ (deadline interval : ℕ) (before after : ℕ → ℕ)
    (poll : ℕ → Result ClientError IntentRecord) where
  abbrev loop : ℕ → ℕ → Option MempoolIntentStatus → List MempoolIntentStatus → List ℕ → Waited
  loop = wait_loop deadline interval before after poll

  -- The polls from the j-th on returned these records, none of them terminal, and then a terminal
  -- one, all before the deadline.
  abbrev pub Polled : ℕ → List IntentRecord → IntentRecord → Type 0
  Polled j [] r = (before j < deadline) × (poll j ≡ ok r) × (is_terminal r.status ≡ true)
  Polled j (p ∷ ps) r =
      (before j < deadline) × (poll j ≡ ok p) × (is_terminal p.status ≡ false) × Polled (j + 1) ps r

  abbrev pub statuses : List IntentRecord → IntentRecord → List MempoolIntentStatus
  statuses [] r = r.status ∷ []
  statuses (p ∷ ps) r = p.status ∷ statuses ps r

  late :
      (fuel j : ℕ) (last : Option MempoolIntentStatus) (notes : List MempoolIntentStatus)
      (waits : List ℕ)
      → is_late deadline (before j) ≡ true
      → loop (suc fuel) j last notes waits
        ≡ record { outcome = timed_out last; notes = notes; waits = waits }
  unfolding wait_loop
  late fuel j last notes waits e = rw (e, wait_loop) refl

  broken :
      (fuel j : ℕ) (last : Option MempoolIntentStatus) (notes : List MempoolIntentStatus)
      (waits : List ℕ) (x : ClientError)
      → is_late deadline (before j) ≡ false
      → poll j ≡ err x
      → loop (suc fuel) j last notes waits ≡ record {
        outcome = if is_timeout x then timed_out last else failed x;
        notes = notes;
        waits = waits;
      }
  unfolding wait_loop
  broken fuel j last notes waits x e f = rw (e, f, wait_loop) refl

  terminal :
      (fuel j : ℕ) (last : Option MempoolIntentStatus) (notes : List MempoolIntentStatus)
      (waits : List ℕ) (r : IntentRecord)
      → is_late deadline (before j) ≡ false
      → poll j ≡ ok r
      → is_terminal r.status ≡ true
      → loop (suc fuel) j last notes waits
        ≡ record { outcome = done r; notes = note last r.status notes; waits = waits }
  unfolding wait_loop
  terminal fuel j last notes waits r e f t = rw (e, f, t, wait_loop) refl

  again :
      (fuel j : ℕ) (last : Option MempoolIntentStatus) (notes : List MempoolIntentStatus)
      (waits : List ℕ) (r : IntentRecord)
      → is_late deadline (before j) ≡ false
      → poll j ≡ ok r
      → is_terminal r.status ≡ false
      → loop (suc fuel) j last notes waits
        ≡ loop fuel
            (j + 1)
            (some r.status)
            (note last r.status notes)
            (pause deadline interval (after j) waits)
  unfolding wait_loop
  again fuel j last notes waits r e f t = rw (e, f, t, wait_loop) refl

  no_fuel :
      (j : ℕ) (last : Option MempoolIntentStatus) (notes : List MempoolIntentStatus)
      (waits : List ℕ) (r : IntentRecord)
      → (loop zero j last notes waits).outcome ≢ done r
  unfolding wait_loop
  no_fuel j last notes waits r h = cc

  not_done :
      (x : ClientError) (last : Option MempoolIntentStatus) (r : IntentRecord)
      → (if is_timeout x then timed_out last else failed x) ≢ done r
  not_done x last r h = ground arith

  fuel_left :
      (x : ClientError) (last : Option MempoolIntentStatus)
      → (if is_timeout x then timed_out last else failed x) ≢ out_of_fuel
  fuel_left x last h = ground arith

  wait_loop-done :
      (fuel j : ℕ) (last : Option MempoolIntentStatus) (notes : List MempoolIntentStatus)
      (waits : List ℕ) (r : IntentRecord)
      → (loop fuel j last notes waits).outcome ≡ done r
      → (ps : List IntentRecord) × Polled j ps r
        × ((loop fuel j last notes waits).notes ≡ notes ++ changes last (statuses ps r))
  unfolding is_late changes
  wait_loop-done zero j last notes waits r h = absurd (no_fuel j last notes waits r h)
  wait_loop-done (suc fuel) j last notes waits r h =
      elim (Bool-cases (is_late deadline (before j))) [
        | inl e ↦ cc (ap (λ (w : Waited). w.outcome) (late fuel j last notes waits e))
        | inr e ↦ elim (Result-cases (poll j)) [
          | inl (x, f) ↦ absurd (
              not_done x last r
                (sym (ap (λ (w : Waited). w.outcome) (broken fuel j last notes waits x e f)) ∙ h))
          | inr (p, f) ↦ elim (Bool-cases (is_terminal p.status)) [
            | inl t ↦
                let round = terminal fuel j last notes waits p e f t in
                let same : p ≡ r = cc (ap (λ (w : Waited). w.outcome) round) in
                subst
                  (λ (q : IntentRecord).
                    (ps : List IntentRecord) × Polled j ps q
                    × ((loop (suc fuel) j last notes waits).notes
                        ≡ notes ++ changes last (statuses ps q)))
                  same
                  (
                    [],
                    (ground arith, f, t),
                    ap (λ (w : Waited). w.notes) round
                        ∙ sym (append-nil _)
                        ∙ changes-note last p.status notes [],
                  )
            | inr t ↦
                let round = again fuel j last notes waits p e f t in
                let (ps, polled, told) =
                  wait_loop-done fuel (j + 1) (some p.status) (note last p.status notes)
                    (pause deadline interval (after j) waits) r
                    (sym (ap (λ (w : Waited). w.outcome) round) ∙ h) in
                (
                  p ∷ ps,
                  (ground arith, f, t, polled),
                  ap (λ (w : Waited). w.notes) round
                      ∙ told
                      ∙ changes-note last p.status notes (statuses ps r),
                )
          ]
        ]
      ]

  -- Time passes from one poll to the next.
  abbrev pub Advances : Type 0
  Advances = (j : ℕ) → before j < before (j + 1)

  wait_loop-ends :
      (fuel j : ℕ) (last : Option MempoolIntentStatus) (notes : List MempoolIntentStatus)
      (waits : List ℕ)
      → Advances
      → 0 < fuel
      → deadline < fuel + before j
      → (loop fuel j last notes waits).outcome ≢ out_of_fuel
  unfolding is_late
  wait_loop-ends zero j last notes waits adv some_left b h = absurd (omega arith)
  wait_loop-ends (suc fuel) j last notes waits adv some_left b h =
      elim (Bool-cases (is_late deadline (before j))) [
        | inl e ↦ cc (ap (λ (w : Waited). w.outcome) (late fuel j last notes waits e))
        | inr e ↦ elim (Result-cases (poll j)) [
          | inl (x, f) ↦
              fuel_left x last
                (sym (ap (λ (w : Waited). w.outcome) (broken fuel j last notes waits x e f)) ∙ h)
          | inr (p, f) ↦ elim (Bool-cases (is_terminal p.status)) [
            | inl t ↦ cc (ap (λ (w : Waited). w.outcome) (terminal fuel j last notes waits p e f t))
            | inr t ↦
                wait_loop-ends fuel (j + 1) (some p.status) (note last p.status notes)
                  (pause deadline interval (after j) waits) adv (ground arith)
                  (omega (arith, adv j))
                  (sym (ap (λ (w : Waited). w.outcome) (again fuel j last notes waits p e f t)) ∙ h)
          ]
        ]
      ]

module _ (start timeout_ms interval : ℕ) (before after : ℕ → ℕ)
    (poll : ℕ → Result ClientError IntentRecord) where
  abbrev waits_for : Waited
  waits_for = wait_for_settlement start timeout_ms interval before after poll

  -- A record is returned only if it is settled, refunded or expired, was polled before the
  -- deadline, and all earlier polls returned records that are neither; the callback was told every
  -- change of the status and nothing else.
  pub wait_for_settlement_returns :
      (r : IntentRecord)
      → waits_for.outcome ≡ done r
      → (ps : List IntentRecord) × Polled (start + timeout_ms) interval before after poll 0 ps r
        × (waits_for.notes
            ≡ changes none (statuses (start + timeout_ms) interval before after poll ps r))
  unfolding wait_for_settlement
  wait_for_settlement_returns r h =
      wait_loop-done (start + timeout_ms) interval before after poll (timeout_ms + 1) 0 none [] [] r
        h

  -- If the first poll comes no earlier than the start and time passes from one poll to the next,
  -- the loop ends: with a record, a timeout or an error.
  pub wait_for_settlement_ends :
      start ≤ before 0
      → Advances (start + timeout_ms) interval before after poll
      → waits_for.outcome ≢ out_of_fuel
  unfolding wait_for_settlement
  wait_for_settlement_ends h adv =
      wait_loop-ends (start + timeout_ms) interval before after poll (timeout_ms + 1) 0 none [] []
        adv (omega arith) (omega arith)
