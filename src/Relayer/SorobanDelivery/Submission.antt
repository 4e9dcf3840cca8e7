-- ===== src/Relayer/SorobanDelivery/Submission.antt =====
-- What a submission comes to.
use perihelion.Prelude.{
  ℕ, zero, suc, ◌+◌, ◌≤◌, ◌<◌, ◌≡◌, ◌⊎◌, refl, inl, inr, leb, arith, Bool-cases, subst, sym,
}
use perihelion.Prelude.Text.{Text}
use perihelion.Prelude.Result.{Result, err, ok, Result-cases}
use perihelion.Relayer.SorobanDelivery.{
  SendResult, SendStatus, rejected, try_again_later, accepted, TransactionStatus, success, pending,
  failed, SubmitError, rejected_by_rpc, not_accepted, transaction_failed, confirmation_timeout,
  rpc_failed, confirm_loop, submit_loop, submit_and_wait,
}

status-cases :
    (s : Result Text TransactionStatus)
    → ((x : Text) × (s ≡ err x))
      ⊎ (s ≡ ok success)
      ⊎ (s ≡ ok pending)
      ⊎ ((x : Text) × (s ≡ ok (failed x)))
status-cases (err x) = inl (x, refl)
status-cases (ok success) = inr (inl refl)
status-cases (ok pending) = inr (inr (inl refl))
status-cases (ok (failed x)) = inr (inr (inr (x, refl)))

send-cases :
    (s : SendStatus) → (s ≡ accepted) ⊎ (s ≡ try_again_later) ⊎ ((x : Text) × (s ≡ rejected x))
send-cases accepted = inl refl
send-cases try_again_later = inr (inl refl)
send-cases (rejected x) = inr (inr (x, refl))

module _ (send : ℕ → Result Text SendResult)
    (get_transaction : Text → ℕ → Result Text TransactionStatus)
    (max_attempts max_resubmits : ℕ) where
  -- The answer number `j` decides.
  abbrev Answered : Text → ℕ → Result SubmitError Text → Type 0
  Answered hash j r =
      (get_transaction hash j ≡ ok success) × (r ≡ ok hash)
      ⊎ ((x : Text) × (get_transaction hash j ≡ ok (failed x)) × (r ≡ err (transaction_failed x)))
      ⊎ ((x : Text) × (get_transaction hash j ≡ err x) × (r ≡ err (rpc_failed x)))

  -- A confirmation that starts with question number `from`.
  abbrev pub Confirms : Text → ℕ → Result SubmitError Text → Type 0
  Confirms hash from r =
      (j : ℕ) × (j ≤ max_attempts)
      × ((i : ℕ) → from ≤ i → i < j → get_transaction hash i ≡ ok pending)
      × ((j ≡ max_attempts) × (r ≡ err (confirmation_timeout hash))
          ⊎ (j < max_attempts) × Answered hash j r)

  -- Attempt number `i` was answered with the request to try again later.
  abbrev IsRefused : ℕ → Type 0
  IsRefused i = (a : SendResult) × (send i ≡ ok a) × (a.status ≡ try_again_later)

  -- A submission that starts with attempt number `from`.
  abbrev pub Submits : ℕ → Result SubmitError Text → Type 0
  Submits from r =
      (k : ℕ) × (k ≤ max_resubmits)
      × ((i : ℕ) → from ≤ i → i < k → IsRefused i)
      × (((x : Text) × (send k ≡ err x) × (r ≡ err (rpc_failed x)))
          ⊎ ((a : SendResult) × (send k ≡ ok a)
              × ((a.status ≡ accepted) × Confirms a.hash 0 r
                  ⊎ (a.status ≡ try_again_later)
                    × (k ≡ max_resubmits)
                    × (r ≡ err (not_accepted k a.hash))
                  ⊎ ((x : Text) × (a.status ≡ rejected x) × (r ≡ err (rejected_by_rpc x))))))

  abbrev confirm : ℕ → Text → ℕ → Result SubmitError Text
  confirm = confirm_loop send get_transaction max_attempts max_resubmits

  abbrev submit : ℕ → ℕ → Result SubmitError Text
  submit = submit_loop send get_transaction max_attempts max_resubmits

  -- One more pending answer in front.
  pending_first :
      (hash : Text) (from : ℕ) (r : Result SubmitError Text)
      → get_transaction hash from ≡ ok pending
      → Confirms hash (from + 1) r
      → Confirms hash from r
  pending_first hash from r e (j, le, before, end) = (
    j,
    le,
    λ i lo hi. elim (Bool-cases (leb (from + 1) i)) [
      | inl g ↦ before i (ground arith) hi
      | inr g ↦
          let same : i ≡ from = ground arith in
          subst (λ i. get_transaction hash i ≡ ok pending) (sym same) e
    ],
    end,
  )

  -- A question whose answer decides.
  decided :
      (hash : Text) (from : ℕ) (r : Result SubmitError Text)
      → from < max_attempts
      → Answered hash from r
      → Confirms hash from r
  decided hash from r below a =
      (from, omega (arith, below), λ i l h. absurd (omega arith), inr (below, a))

  confirm_loop-Confirms :
      (fuel from : ℕ) (hash : Text)
      → from ≤ max_attempts
      → max_attempts + 1 ≤ fuel + from
      → Confirms hash from (confirm fuel hash from)
  unfolding confirm_loop
  confirm_loop-Confirms zero from hash lo hi = absurd (omega arith)
  confirm_loop-Confirms (suc fuel) from hash lo hi = elim (Bool-cases (leb max_attempts from)) [
    | inl e ↦
        let at : from ≡ max_attempts = ground arith in
        (from, lo, λ i l h. absurd (omega arith), inl (at, rw (e, confirm_loop) refl))
    | inr e ↦
        let below : from < max_attempts = ground arith in
        let ends = decided hash from (confirm (suc fuel) hash from) below in
        elim (status-cases (get_transaction hash from)) [
          | inl (x, s) ↦ ends (inr (inr (x, s, rw (e, s, confirm_loop) refl)))
          | inr (inl s) ↦ ends (inl (s, rw (e, s, confirm_loop) refl))
          | inr (inr (inl s)) ↦ subst (Confirms hash from) (rw (e, s, confirm_loop) refl) (
              pending_first hash from (confirm fuel hash (from + 1)) s
                (confirm_loop-Confirms fuel (from + 1) hash (omega arith) (omega arith)))
          | inr (inr (inr (x, s))) ↦ ends (inr (inl (x, s, rw (e, s, confirm_loop) refl)))
        ]
  ]

  -- One more answer to try again later in front.
  refused_first :
      (from : ℕ) (r : Result SubmitError Text)
      → IsRefused from
      → Submits (from + 1) r
      → Submits from r
  refused_first from r e (k, le, before, end) = (
    k,
    le,
    λ i lo hi. elim (Bool-cases (leb (from + 1) i)) [
      | inl g ↦ before i (ground arith) hi
      | inr g ↦ let same : i ≡ from = ground arith in subst IsRefused (sym same) e
    ],
    end,
  )

  submit_loop-Submits :
      (fuel from : ℕ)
      → from ≤ max_resubmits
      → max_resubmits + 1 ≤ fuel + from
      → Submits from (submit fuel from)
  unfolding submit_loop
  submit_loop-Submits zero from lo hi = absurd (omega arith)
  submit_loop-Submits (suc fuel) from lo hi = elim (Result-cases (send from)) [
    | inl (x, e) ↦ (from, lo, λ i l h. absurd (omega arith), inl (x, e, rw (e, submit_loop) refl))
    | inr (a, e) ↦ elim (send-cases a.status) [
      | inl s ↦
          let run = confirm_loop-Confirms (max_attempts + 1) 0 a.hash (omega arith) (omega arith) in
          (
            from,
            lo,
            λ i l h. absurd (omega arith),
            inr (a, e, inl (s, subst (Confirms a.hash 0) (rw (e, s, submit_loop) refl) run)),
          )
      | inr (inr (x, s)) ↦ (
        from,
        lo,
        λ i l h. absurd (omega arith),
        inr (a, e, inr (inr (x, s, rw (e, s, submit_loop) refl))),
      )
      | inr (inl s) ↦ elim (Bool-cases (leb max_resubmits from)) [
        | inl f ↦
            let at : from ≡ max_resubmits = ground arith in
            (
              from,
              lo,
              λ i l h. absurd (omega arith),
              inr (a, e, inr (inl (s, at, rw (e, s, f, submit_loop) refl))),
            )
        | inr f ↦ subst (Submits from) (rw (e, s, f, submit_loop) refl) (
            refused_first from (submit fuel (from + 1)) (a, e, s)
              (submit_loop-Submits fuel (from + 1) (ground arith) (omega arith)))
      ]
    ]
  ]

  -- submitAndWait ends after at most `max_resubmits` repetitions, each after an answer to try again
  -- later, and `max_attempts` questions: it returns the hash of an accepted transaction whose
  -- success is answered after pending answers only, and otherwise throws what a call threw, the
  -- error of the answer that decided, or that the repetitions or the questions are used up.
  pub submit_and_wait-Submits :
      Submits 0 (submit_and_wait send get_transaction max_attempts max_resubmits)
  unfolding submit_and_wait
  submit_and_wait-Submits = submit_loop-Submits (max_resubmits + 1) 0 (omega arith) (omega arith)
