-- ===== src/Tests/Release.antt =====
-- A watcher of released intents: a poll over two chunks, and one that is stopped half-way.
use perihelion.Prelude.{
  ℕ, ◌+◌, ◌-◌, ◌≡◌, refl, Bool, false, List, [], ◌∷◌, Option, none, some, leb, ◌==◌, if◌then◌else◌,
}
use perihelion.Prelude.Text.{Text, codes, to_lower_case}
use perihelion.Prelude.Result.{Result, ok}
use perihelion.Solver.ReleasedWatcher.{
  ReleasedEvent, ReportError, ReleasedWatcher, handle_event, handle_all, has_left, has_reported,
  poll_loop, poll_once, sort,
}
use perihelion.Solver.ReleasedWatcher.Reported.{released_in}

abbrev released : ReleasedEvent
released = record { intent_hash = codes "0xAA"; block_number = 4; log_index = 0 }

abbrev chain : ℕ → List ReleasedEvent
chain n = if n == 4 then released ∷ [] else []

abbrev escrow : ℕ → ℕ → Result Text (List ReleasedEvent)
escrow from to = ok (released_in chain from (to + 1 - from))

abbrev accepted : ℕ → Text → Option ReportError
accepted n h = none

abbrev running : ℕ → Bool
running n = false

abbrev watcher : ReleasedWatcher
watcher = record { next_block = some 3; reported = []; reports = 0; looks = 0 }

reported_once :
    poll_once running accepted 2 (ok 5) escrow watcher
    ≡ ok (1, record { next_block = some 6; reported = codes "0xaa" ∷ []; reports = 1; looks = 3 })
unfolding poll_once poll_loop has_left handle_all sort released_in handle_event has_reported
    to_lower_case
reported_once = refl

-- Stopped when the event is due, the watcher passes its block without a report.
abbrev stopping : ℕ → Bool
stopping n = leb 1 n

stopped_early :
    poll_once stopping accepted 2 (ok 5) escrow watcher
    ≡ ok (0, record { next_block = some 5; reported = []; reports = 0; looks = 3 })
unfolding poll_once poll_loop has_left handle_all sort released_in
stopped_early = refl
