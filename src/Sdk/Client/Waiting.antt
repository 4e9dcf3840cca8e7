-- ===== src/Sdk/Client/Waiting.antt =====
-- `waitForSettlement` of sdk/src/client.ts. The clock is read before and after each poll; `poll j`
-- is what the j-th call of `getIntent` returns or throws. The waits are whole milliseconds.
pub mod Ends
use perihelion.Prelude.{
  ℕ, zero, suc, ◌+◌, ◌-◌, min, Bool, true, false, not, List, [], ◌∷◌, ◌++◌, Option, none, some, ltb,
  leb, if◌then◌else◌,
}
use perihelion.Prelude.Result.{Result, err, ok}
use perihelion.Sdk.Types.{MempoolIntentStatus, settled, refunded, expired, same_status}
use perihelion.Sdk.Validate.Records.{IntentRecord}
use perihelion.Sdk.Client.{ClientError, timeout, rethrown, is_abort_error}

pub data Outcome : Type 0 where
  done : IntentRecord → Outcome
  timed_out : Option MempoolIntentStatus → Outcome
  failed : ClientError → Outcome
  out_of_fuel : Outcome

-- The outcome, the calls of `onStatus` and the waits.
pub record Waited : Type 0 where
  pub outcome : Outcome
  pub notes : List MempoolIntentStatus
  pub waits : List ℕ

-- `terminal.has(status)`.
unfoldable pub is_terminal : MempoolIntentStatus → Bool
is_terminal settled = true
is_terminal refunded = true
is_terminal expired = true
is_terminal _ = false

-- `isAbortError(e) || e instanceof PerihelionTimeoutError`.
unfoldable pub is_timeout : ClientError → Bool
unfolding is_abort_error
is_timeout (timeout hash status) = true
is_timeout (rethrown e) = is_abort_error e
is_timeout _ = false

-- `record.status !== lastStatus`.
unfoldable pub is_change : Option MempoolIntentStatus → MempoolIntentStatus → Bool
is_change none s = true
is_change (some last) s = not (same_status s last)

unfoldable pub note :
    Option MempoolIntentStatus
    → MempoolIntentStatus
    → List MempoolIntentStatus
    → List MempoolIntentStatus
note last s notes = if is_change last s then notes ++ s ∷ [] else notes

-- The wait behind a poll, if time is left.
unfoldable pub pause : ℕ → ℕ → ℕ → List ℕ → List ℕ
pause deadline interval now waits =
    if leb deadline now then waits else waits ++ min interval (deadline - now) ∷ []

unfoldable pub is_late : ℕ → ℕ → Bool
is_late deadline now = leb deadline now

module _ (deadline interval : ℕ) (before after : ℕ → ℕ)
    (poll : ℕ → Result ClientError IntentRecord) where
  unfoldable pub wait_loop :
      ℕ → ℕ → Option MempoolIntentStatus → List MempoolIntentStatus → List ℕ → Waited
  wait_loop zero j last notes waits = record { outcome = out_of_fuel; notes = notes; waits = waits }
  wait_loop (suc fuel) j last notes waits = elim (is_late deadline (before j)) [
    | true ↦ record { outcome = timed_out last; notes = notes; waits = waits }
    | false ↦ elim (poll j) [
      | err e ↦ record {
        outcome = if is_timeout e then timed_out last else failed e;
        notes = notes;
        waits = waits;
      }
      | ok r ↦ elim (is_terminal r.status) [
        | true ↦ record { outcome = done r; notes = note last r.status notes; waits = waits }
        | false ↦
            wait_loop fuel (j + 1) (some r.status) (note last r.status notes)
              (pause deadline interval (after j) waits)
      ]
    ]
  ]

-- A poll and the wait behind it take a millisecond at least, so the timeout bounds the polls.
unfoldable pub wait_for_settlement :
    ℕ → ℕ → ℕ → (ℕ → ℕ) → (ℕ → ℕ) → (ℕ → Result ClientError IntentRecord) → Waited
unfolding wait_loop
wait_for_settlement start timeout_ms interval before after poll =
    wait_loop (start + timeout_ms) interval before after poll (timeout_ms + 1) 0 none [] []
