-- ===== src/Solver/ReleasedWatcher/Passed.antt =====
-- The blocks that the watcher has passed.
use perihelion.Prelude.{ℕ, ◌+◌, ◌-◌, ◌≤◌, ◌<◌, ◌≡◌, min, Bool, false, List, All, Option, some}
use perihelion.Prelude.Text.{Text}
use perihelion.Prelude.Result.{Result, err, ok}
use perihelion.Solver.ReleasedWatcher.{
  ReleasedEvent, ReportError, ReleasedWatcher, Failure, key_of, poll_loop,
}
use perihelion.Solver.ReleasedWatcher.Reported.{IsReported, IsAnswered, Justified, released_in}

-- All events of the blocks from `start` up to the one before `to` have been reported.
abbrev pub Covered : (ℕ → List ReleasedEvent) → ℕ → List Text → ℕ → Type 0
Covered chain start reported to = (b : ℕ) → start ≤ b → b < to → All (IsReported reported) (chain b)

-- An answer of the escrow lists the events of the blocks asked for.
abbrev pub Serves : (ℕ → List ReleasedEvent) → (ℕ → ℕ → Result Text (List ReleasedEvent)) → Type 0
Serves chain get_events =
    (from to : ℕ) (events : List ReleasedEvent)
    → get_events from to ≡ ok events
    → events ≡ released_in chain from (to + 1 - from)

module _ (stopped : ℕ → Bool) (report : ℕ → Text → Option ReportError)
    (running : (k : ℕ) → stopped k ≡ false) (max_block_range : ℕ) (get_block_number : Result Text ℕ)
    (get_events : ℕ → ℕ → Result Text (List ReleasedEvent)) where
  -- A poll that succeeds has passed the head; one that fails has passed some block. Either way all
  -- events of the blocks passed are remembered, and only intents with a report are.
  abbrev Holds :
      (ℕ → List ReleasedEvent)
      → ℕ
      → ℕ
      → Result (Failure × ReleasedWatcher) (ℕ × ReleasedWatcher)
      → Type 0
  Holds chain start head (ok r) =
      (r.1.next_block ≡ some (head + 1))
      × Covered chain start r.1.reported (head + 1)
      × Justified stopped report running r.1.reported
  Holds chain start head (err f) =
      (to : ℕ) × (f.1.next_block ≡ some to)
      × Covered chain start f.1.reported to
      × Justified stopped report running f.1.reported

  -- For every event of the blocks from `start` up to the one before `to`, a report was sent that
  -- succeeded or failed with an error that counts as settled.
  abbrev pub Sent : (ℕ → List ReleasedEvent) → ℕ → ℕ → Type 0
  Sent chain start to =
      (b : ℕ)
      → start ≤ b
      → b < to
      → All (λ e. IsAnswered stopped report running (key_of e)) (chain b)

  -- A poll that succeeds has passed the head; one that fails has passed some block.
  abbrev pub Passes :
      (ℕ → List ReleasedEvent)
      → ℕ
      → ℕ
      → Result (Failure × ReleasedWatcher) (ℕ × ReleasedWatcher)
      → Type 0
  Passes chain start head (ok r) = (r.1.next_block ≡ some (head + 1)) × Sent chain start (head + 1)
  Passes chain start head (err f) = (to : ℕ) × (f.1.next_block ≡ some to) × Sent chain start to

  abbrev loop :
      ℕ → ℕ → ℕ → ℕ → ReleasedWatcher → Result (Failure × ReleasedWatcher) (ℕ × ReleasedWatcher)
  loop = poll_loop stopped report max_block_range get_block_number get_events

  abbrev last_of : ℕ → ℕ → ℕ
  last_of from head = min (from + max_block_range - 1) head
