-- ===== src/Solver/Consider.antt =====
-- solver/src/solver.ts: `consider`, `scheduleRetry` and `tick` of the Solver. The verifier and the
-- executor enter as what they give for the record at hand; a verifier that throws is left out. The
-- report of the status "filled" and the metrics change no state of the solver.
pub mod Committed
pub mod Retries
use perihelion.Prelude.{
  ℕ, ◌+◌, Bool, true, false, not, List, [], ◌∷◌, Option, none, some, ltb, leb, if◌then◌else◌,
  or_default,
}
use perihelion.Prelude.Text.{Text, text_eq, text_discrete, to_lower_case}
use perihelion.Sdk.Types.{Intent}
use perihelion.Sdk.Signature.{Domain}
use perihelion.Solver.SeenLru
use perihelion.Solver.SeenLru.{SeenLru}
use perihelion.Solver.InFlight.{InFlightTracker, reserve, release, hold_for_refresh, flush_held}
use perihelion.Solver.Quote.{FillDecision, amount}
use perihelion.Solver.Caches.{
  VerificationCache, RetryStateLru, RetryEntry, cached, cache_verdict, verification_cache_key,
  seen_ttl_ms, retry_backoff, max_fill_retries, get_retry, set_retry, delete_retry, evict_retries,
}

pub record Solver : Type 0 where
  pub seen : SeenLru
  pub retry_state : RetryStateLru
  pub verification_cache : VerificationCache
  pub in_flight : InFlightTracker
  pub consecutive_implausible_triggers : ℕ
  pub max_implausible_profit_triggers : Option ℕ
  pub domain : Domain

-- What `executor.fill` gives: a settlement, or an error of one of the kinds that `consider` tells
-- apart.
pub data FillOutcome : Type 0 where
  settlement fatal locked_by_other definite indefinite : FillOutcome

-- How `consider` ends: its result, a FatalError, or an error that `evaluate` lets through.
pub data Ending : Type 0 where
  mismatch done halted failed : Ending

-- A pending record with what the outside gives for it: the recomputed hash, the verifier's verdict,
-- the decision of `evaluate` on the reservations, the outcome of the fill, and the clock.
pub record Turn : Type 0 where
  pub intent : Intent
  pub signature : Text
  pub hash : Text
  pub recomputed_hash : Text
  pub verdict : Bool
  pub decide : InFlightTracker → Option FillDecision
  pub outcome : FillOutcome
  pub now : ℕ

-- `this.seen.add(hash, deadlineMs); this.retryState.delete(hash)`.
abbrev pub retire : Text → ℕ → ℕ → Solver → Solver
retire hash deadline_ms now s = record s {
  seen = SeenLru.add hash deadline_ms now s.seen;
  retry_state = delete_retry hash s.retry_state;
}

abbrev pub attempts_of : Option RetryEntry → ℕ
attempts_of none = 0
attempts_of (some e) = e.attempts

unfoldable pub schedule_retry : Text → ℕ → ℕ → Solver → Solver
schedule_retry hash deadline_ms now s =
    let (retries, found) = get_retry hash now s.retry_state in
    let attempts = attempts_of found + 1 in
    if ltb max_fill_retries attempts
    then retire hash deadline_ms now (record s { retry_state = retries })
    else record s {
      retry_state =
          set_retry hash
            (record {
              attempts = attempts;
              next_retry_at = now + retry_backoff (attempts_of found);
              deadline_ms = deadline_ms;
            })
            retries;
    }

-- The `try` of the fill, with its `catch` and `finally`.
unfoldable pub settle : Turn → ℕ → Solver → Solver × Ending
settle t deadline_ms s =
    let asset = t.intent.dest_asset in
    let n = amount t.intent.min_dest_amount in
    let reserved = record s { in_flight = reserve asset n s.in_flight } in
    let hold = λ (u : Solver). record u { in_flight = hold_for_refresh asset n u.in_flight } in
    elim t.outcome [
      | settlement ↦ (hold (retire t.hash deadline_ms t.now reserved), done)
      | fatal ↦ (hold reserved, halted)
      | locked_by_other ↦ (hold (retire t.hash deadline_ms t.now reserved), done)
      | definite ↦
          let u = schedule_retry t.hash deadline_ms t.now reserved in
          (record u { in_flight = release asset n u.in_flight }, done)
      | indefinite ↦ (hold (schedule_retry t.hash deadline_ms t.now reserved), done)
    ]

-- The branch of a decision not to fill.
unfoldable pub decline : Turn → ℕ → FillDecision → Solver → Solver × Ending
decline t deadline_ms d s =
    let triggers = s.consecutive_implausible_triggers + 1 in
    let counted =
      if d.implausible_profit
      then record s { consecutive_implausible_triggers = triggers }
      else s in
    let halts =
      if d.implausible_profit
      then leb (or_default s.max_implausible_profit_triggers 5) triggers
      else false in
    if halts
    then (counted, halted)
    else if d.terminal
    then (retire t.hash deadline_ms t.now counted, done)
    else (counted, done)

-- The verdict on the signature, from the cache or from the verifier.
unfoldable pub verify : Turn → Solver → Solver × Bool
verify t s =
    let key = verification_cache_key s.domain t.hash t.signature in
    let (c, found) = cached key t.now s.verification_cache in
    elim found [
      | some valid ↦ (record s { verification_cache = c }, valid)
      | none ↦ (record s { verification_cache = cache_verdict key t.verdict t.now c }, t.verdict)
    ]

unfoldable pub consider : Turn → Solver → Solver × Ending
unfolding text_discrete to_lower_case
consider t s =
    let deadline_ms = seen_ttl_ms t.intent.deadline t.now in
    if not (text_eq (to_lower_case t.recomputed_hash) (to_lower_case t.hash))
    then (retire t.hash deadline_ms t.now s, mismatch)
    else let (u, valid) = verify t s in
      if not valid
      then (record u { retry_state = delete_retry t.hash u.retry_state }, done)
      else elim (t.decide u.in_flight) [
        | none ↦ (u, failed)
        | some d ↦
            if d.fill
            then settle t deadline_ms (record u {
              consecutive_implausible_triggers = 0;
              retry_state = (get_retry t.hash t.now u.retry_state).0;
            })
            else decline t deadline_ms d u
      ]

-- `retry && now < retry.nextRetryAt`.
abbrev pub is_waiting : Option RetryEntry → ℕ → Bool
is_waiting none now = false
is_waiting (some e) now = ltb now e.next_retry_at

abbrev pub stops : Ending → Bool
stops mismatch = false
stops done = false
stops halted = true
stops failed = true

-- The loop of `tick`; `now` is the clock before it. An error that `consider` lets through ends it.
unfoldable pub work : ℕ → List Turn → Solver → Solver × Ending
work now [] s = (s, done)
work now (t ∷ ts) s =
    let (seen, known) = SeenLru.has t.hash t.now s.seen in
    let u = record s { seen = seen } in
    let (retries, found) = get_retry t.hash t.now u.retry_state in
    let v = record u { retry_state = retries } in
    let after_u = work now ts u in
    let after_v = work now ts v in
    let w = consider t v in
    let after_w = work now ts w.0 in
    if known
    then after_u
    else if is_waiting found now
    then after_v
    else if stops w.1
    then w
    else after_w

-- `pending` is `none` where the order book cannot be fetched.
unfoldable pub tick : ℕ → ℕ → Option (List Turn) → Solver → Solver × Ending
tick started now pending s =
    let u = record s {
      seen = (SeenLru.evict_expired started s.seen).0;
      retry_state = evict_retries started s.retry_state;
      in_flight = (flush_held s.in_flight).0;
    } in
    elim pending [ none ↦ (u, failed) | some ts ↦ work now ts u ]
