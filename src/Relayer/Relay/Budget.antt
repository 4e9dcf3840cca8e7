-- ===== src/Relayer/Relay/Budget.antt =====
-- The retry budget of a message: its count of attempts while it fails, and where it ends.
use perihelion.Prelude.{ℕ, zero, suc, ◌+◌, ◌-◌, ◌*◌, ◌^◌, ◌≤◌, ◌<◌, ◌≡◌, refl, true, none, arith}
use perihelion.Prelude.JsMap
use perihelion.Prelude.Text.{Text, text_key}
use perihelion.Relayer.Types.{PendingMessage, key_of, key_string_of}
use perihelion.Relayer.DeadLetter
use perihelion.Relayer.Relay.{Relayer, MessageRetryState, attempts_of, on_failure}

abbrev pub count_of : Text → Relayer → ℕ
count_of k s = attempts_of (JsMap.get k s.attempts)

-- A failure below the budget counts one attempt more; the one that reaches it clears the count and
-- puts the message into the dead-letter store.
pub on_failure_lem :
    (p : PendingMessage) (e : Text) (now : ℕ) (s : Relayer)
    → ((on_failure p e now s).0.retry ≡ s.retry)
      × (count_of (key_string_of p) s + 1 < s.retry.max_attempts
          → (count_of (key_string_of p) (on_failure p e now s).0 ≡ count_of (key_string_of p) s + 1)
            × ((on_failure p e now s).0.dead_letter ≡ s.dead_letter))
      × (s.retry.max_attempts ≤ count_of (key_string_of p) s + 1
          → (JsMap.get (key_string_of p) (on_failure p e now s).0.attempts ≡ none)
            × (JsMap.has (key_string_of p) (on_failure p e now s).0.dead_letter ≡ true))
unfolding on_failure
on_failure_lem p e now s =
    let k = key_string_of p in
    let n = count_of k s + 1 in
    let v : MessageRetryState = record {
      attempts = n;
      next_retry_at = now + s.retry.base_backoff_ms * 2 ^ (n - 1);
    } in
    ground (
      arith,
      JsMap.get-set k k v s.attempts,
      JsMap.get-delete k k (JsMap.set k v s.attempts),
      DeadLetter.has-add k (key_of p) p n e now s.dead_letter,
    )

-- `n` failures of one message in a row, the errors and times those of a sequence.
unfoldable pub fail_times : ℕ → PendingMessage → (ℕ → Text × ℕ) → Relayer → Relayer
fail_times zero p errors s = s
fail_times (suc n) p errors s = (on_failure p (errors n).0 (errors n).1 (fail_times n p errors s)).0

below :
    (n : ℕ) (p : PendingMessage) (errors : ℕ → Text × ℕ) (s : Relayer)
    → count_of (key_string_of p) s ≡ 0
    → n < s.retry.max_attempts
    → ((fail_times n p errors s).retry ≡ s.retry)
      × (count_of (key_string_of p) (fail_times n p errors s) ≡ n)
      × ((fail_times n p errors s).dead_letter ≡ s.dead_letter)
unfolding fail_times
below zero p errors s fresh h = (refl, fresh, refl)
below (suc n) p errors s fresh h =
    let (a, b, c) = below n p errors s fresh (omega arith) in
    let before = fail_times n p errors s in
    let t = on_failure_lem p (errors n).0 (errors n).1 before in ground arith

-- With a budget above 0, a message without attempts that keeps failing is retried until the budget is spent and no
-- longer: after fewer failures it is counted and not dead-lettered by them, and after exactly as
-- many as the budget allows it is in the dead-letter store and its count is gone.
pub fail_times-budget :
    (p : PendingMessage) (errors : ℕ → Text × ℕ) (s : Relayer)
    → count_of (key_string_of p) s ≡ 0
    → 0 < s.retry.max_attempts
    → ((n : ℕ)
        → n < s.retry.max_attempts
        → (count_of (key_string_of p) (fail_times n p errors s) ≡ n)
          × ((fail_times n p errors s).dead_letter ≡ s.dead_letter))
      × (JsMap.get (key_string_of p) (fail_times s.retry.max_attempts p errors s).attempts ≡ none)
      × (JsMap.has (key_string_of p) (fail_times s.retry.max_attempts p errors s).dead_letter
          ≡ true)
unfolding fail_times
fail_times-budget p errors s fresh h =
    let (gone, dead) = last s.retry.max_attempts refl h in
    ((λ n q. let (a, b, c) = below n p errors s fresh q in (b, c)), gone, dead)
  where
    last :
        (m : ℕ)
        → m ≡ s.retry.max_attempts
        → 0 < m
        → (JsMap.get (key_string_of p) (fail_times m p errors s).attempts ≡ none)
          × (JsMap.has (key_string_of p) (fail_times m p errors s).dead_letter ≡ true)
    last zero e q = absurd (omega arith)
    last (suc n) e q =
        let (a, b, c) = below n p errors s fresh (omega arith) in
        let t = on_failure_lem p (errors n).0 (errors n).1 (fail_times n p errors s) in ground arith
