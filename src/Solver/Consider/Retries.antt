-- ===== src/Solver/Consider/Retries.antt =====
-- The retries of a fill: counted up to the limit, then the intent is retired.
use perihelion.Prelude.{
  ℕ, ◌+◌, ◌≤◌, ◌<◌, ◌≡◌, true, Option, none, some, ltb, leb, if◌then◌else◌, arith, length,
}
use perihelion.Prelude.JsMap
use perihelion.Prelude.Text.{Text, text_key}
use perihelion.Solver.SeenLru
use perihelion.Solver.SeenLru.Laws.{Inv, add_lem}
use perihelion.Solver.Caches.{
  RetryStateLru, RetryEntry, get_retry, set_retry, delete_retry, drop_oldest, retry_backoff,
  max_fill_retries,
}
use perihelion.Solver.Consider.{Solver, attempts_of, schedule_retry}

-- The retries that count at a time.
abbrev pub retries_of : Text → ℕ → Solver → ℕ
retries_of hash now s = attempts_of (get_retry hash now s.retry_state).1

found_retry :
    (hash : Text) (now : ℕ) (l : RetryStateLru)
    → (get_retry hash now l).1 ≡ (elim (JsMap.get hash l.cache) as (λ o. Option RetryEntry) [
      | none ↦ none
      | some e ↦ if ltb e.deadline_ms now then none else some e
    ])
unfolding get_retry
found_retry hash now l = ground arith

get-set_retry :
    (hash : Text) (e : RetryEntry) (l : RetryStateLru)
    → JsMap.get hash (set_retry hash e l).cache ≡ some e
unfolding set_retry
get-set_retry hash e l =
    let cleared = JsMap.delete hash l.cache in
    let room = if leb l.max_size (length cleared) then drop_oldest cleared else cleared in
    ground (arith, JsMap.get-set hash hash e room)

-- A failed fill with fewer than three retries counts one more, which counts until the clamped
-- deadline; the one after the third retires the intent: it has no retry state, and is found in the
-- set of seen intents until that deadline.
pub schedule_retry_lem :
    (hash : Text) (deadline_ms now later : ℕ) (s : Solver)
    → Inv s.seen
    → later ≤ deadline_ms
    → (retries_of hash now s < max_fill_retries
        → retries_of hash later (schedule_retry hash deadline_ms now s) ≡ retries_of hash now s + 1)
      × (max_fill_retries ≤ retries_of hash now s
          → (retries_of hash later (schedule_retry hash deadline_ms now s) ≡ 0)
            × ((SeenLru.has hash later (schedule_retry hash deadline_ms now s).seen).1 ≡ true))
unfolding schedule_retry delete_retry
schedule_retry_lem hash deadline_ms now later s v le =
    let l = (get_retry hash now s.retry_state).0 in
    let n = retries_of hash now s in
    let e : RetryEntry = record {
      attempts = n + 1;
      next_retry_at = now + retry_backoff n;
      deadline_ms = deadline_ms;
    } in
    ground (
      arith,
      get-set_retry hash e l,
      found_retry hash later (set_retry hash e l),
      found_retry hash later (delete_retry hash l),
      JsMap.get-delete hash hash l.cache,
      add_lem hash deadline_ms now later s.seen v,
    )
