-- ===== src/Sdk/Client/Retry.antt =====
-- How many attempts a request makes, and which of them decides it.
use perihelion.Prelude.{
  ℕ, zero, suc, ◌+◌, ◌≤◌, ◌<◌, ◌≡◌, ◌⊎◌, inl, inr, refl, sym, ap, ◌∙◌, true, false, List, [], ◌∷◌,
  ◌++◌, append_assoc, append-nil, arith, Bool-cases, subst,
}
use perihelion.Prelude.Text.{Text}
use perihelion.Prelude.Result.{Result}
use perihelion.Sdk.Client.{
  Thrown, Response, backoff, settle, is_transient, retry_loop, fetch_with_retry,
}

-- The waits before `n` further attempts.
unfoldable pub backoffs : ℕ → ℕ → List ℕ
backoffs attempt zero = []
backoffs attempt (suc n) = backoff attempt ∷ backoffs (attempt + 1) n

module _ (operation : Text) (fetch : ℕ → Result Thrown Response) where
  -- Attempt `n` decides: those before it were transient, it is not or no retry is left.
  abbrev pub Decides : ℕ → ℕ → ℕ → Type 0
  Decides attempt left n =
      (n ≤ left)
      × ((i : ℕ) → i < n → is_transient (fetch (attempt + i)) ≡ true)
      × ((n ≡ left) ⊎ (is_transient (fetch (attempt + n)) ≡ false))

  after_transient :
      (attempt n : ℕ)
      → is_transient (fetch attempt) ≡ true
      → ((i : ℕ) → i < n → is_transient (fetch (attempt + 1 + i)) ≡ true)
      → (i : ℕ) → i < suc n
      → is_transient (fetch (attempt + i)) ≡ true
  after_transient attempt n t h zero l =
      let e : attempt ≡ attempt + 0 = omega arith in
      subst (λ (k : ℕ). is_transient (fetch k) ≡ true) e t
  after_transient attempt n t h (suc i) l =
      let e : attempt + 1 + i ≡ attempt + suc i = omega arith in
      subst (λ (k : ℕ). is_transient (fetch k) ≡ true) e (h i (omega arith))

  retry_loop_lem :
      (left attempt : ℕ) (waits : List ℕ)
      → (n : ℕ) × Decides attempt left n
        × ((retry_loop operation fetch left attempt waits).result
            ≡ settle operation (fetch (attempt + n)))
        × ((retry_loop operation fetch left attempt waits).waits ≡ waits ++ backoffs attempt n)
  unfolding retry_loop backoffs
  retry_loop_lem zero attempt waits =
      let e : attempt ≡ attempt + 0 = omega arith in
      (
        0,
        (omega arith, (λ i l. absurd (omega arith)), inl refl),
        ap (λ k. settle operation (fetch k)) e,
        sym (append-nil waits),
      )
  retry_loop_lem (suc left) attempt waits = elim (Bool-cases (is_transient (fetch attempt))) [
    | inr e ↦
        let same : attempt ≡ attempt + 0 = omega arith in
        (
          0,
          (
            omega arith,
            (λ i l. absurd (omega arith)),
            inr (subst (λ (k : ℕ). is_transient (fetch k) ≡ false) same e),
          ),
          rw (e, retry_loop) (ap (λ k. settle operation (fetch k)) same),
          rw (e, retry_loop) (sym (append-nil waits)),
        )
    | inl e ↦
        let (n, (bound, before, last), result, pauses) =
          retry_loop_lem left (attempt + 1) (waits ++ backoff attempt ∷ []) in
        let at : attempt + 1 + n ≡ attempt + suc n = omega arith in
        (
          suc n,
          (
            omega (arith, bound),
            after_transient attempt n e before,
            elim last [
              | inl k ↦ inl (ap suc k)
              | inr k ↦ inr (subst (λ (j : ℕ). is_transient (fetch j) ≡ false) at k)
            ],
          ),
          rw (e, retry_loop) (result ∙ ap (λ k. settle operation (fetch k)) at),
          rw (e, retry_loop) (pauses ∙ append_assoc waits (backoff attempt ∷ []) _),
        )
  ]

  -- A request that may be repeated ends after at most `max_retries` further attempts: with what the
  -- first attempt returns or throws that is neither a server error nor a network error, or else
  -- with the last attempt, having waited the growing delays between the attempts.
  pub fetch_with_retry_lem :
      (max_retries : ℕ)
      → (n : ℕ) × Decides 0 max_retries n
        × ((fetch_with_retry operation fetch max_retries).result ≡ settle operation (fetch (0 + n)))
        × ((fetch_with_retry operation fetch max_retries).waits ≡ backoffs 0 n)
  unfolding fetch_with_retry
  fetch_with_retry_lem max_retries = retry_loop_lem max_retries 0 []
