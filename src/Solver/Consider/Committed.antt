-- ===== src/Solver/Consider/Committed.antt =====
-- What the solver has committed after a record, and after a tick.
use perihelion.Prelude.{
  ℕ, ◌+◌, ◌≤◌, ◌≡◌, refl, or_default, Bool, true, false, List, [], ◌∷◌, Option, none, some,
  if◌then◌else◌, ite, arith, Option-cases, Bool-cases, inl, inr,
}
use perihelion.Prelude.JsMap
use perihelion.Prelude.Text.{Text, text_eq, text_discrete, to_lower_case}
use perihelion.Solver.SeenLru
use perihelion.Solver.InFlight.{
  InFlightTracker, reserve, flush_held, active_reserved_for, reserved_for, reservation_balance,
  active_balance,
}
use perihelion.Solver.Quote.{FillDecision, amount}
use perihelion.Solver.Caches.{seen_ttl_ms, get_retry, evict_retries}
use perihelion.Solver.Consider.{
  Solver, Turn, FillOutcome, settlement, fatal, locked_by_other, definite, indefinite,
  schedule_retry, settle, decline, verify, consider, work, tick,
}

-- Whether `consider` comes to a fill.
abbrev pub is_fill : Option FillDecision → Bool
is_fill none = false
is_fill (some d) = d.fill

unfoldable pub attempts_fill : Turn → Solver → Bool
unfolding text_discrete to_lower_case
attempts_fill t s =
    if text_eq (to_lower_case t.recomputed_hash) (to_lower_case t.hash)
    then if (verify t s).1 then is_fill (t.decide (verify t s).0.in_flight) else false
    else false

-- Only a definite failure frees what was reserved.
abbrev pub stays_committed : FillOutcome → Bool
stays_committed settlement = true
stays_committed fatal = true
stays_committed locked_by_other = true
stays_committed definite = false
stays_committed indefinite = true

-- What a record adds to the commitments of an asset.
abbrev pub added : Text → Turn → Bool → ℕ
added b t filled =
    if filled
    then if stays_committed t.outcome
      then ite (text_discrete t.intent.dest_asset b) (amount t.intent.min_dest_amount) 0
      else 0
    else 0

-- The active reservations and the commitments of an asset, next to those from before.
abbrev pub Holds : Text → ℕ → InFlightTracker → InFlightTracker → Type 0
Holds b n before after =
    (active_reserved_for b after ≡ active_reserved_for b before)
    × (reserved_for b after ≡ reserved_for b before + n)

schedule_retry-in_flight :
    (hash : Text) (deadline_ms now : ℕ) (s : Solver)
    → (schedule_retry hash deadline_ms now s).in_flight ≡ s.in_flight
unfolding schedule_retry
schedule_retry-in_flight hash deadline_ms now s = ground arith

settle-Holds :
    (b : Text) (t : Turn) (deadline_ms : ℕ) (s : Solver)
    → Holds b (added b t true) s.in_flight (settle t deadline_ms s).0.in_flight
unfolding settle
settle-Holds b t deadline_ms s =
    let a = t.intent.dest_asset in
    let n = amount t.intent.min_dest_amount in
    let reserved = record s { in_flight = reserve a n s.in_flight } in
    ground (
      arith,
      reservation_balance a b n s.in_flight,
      active_balance a b n s.in_flight,
      schedule_retry-in_flight t.hash deadline_ms t.now reserved,
    )

decline-in_flight :
    (t : Turn) (deadline_ms : ℕ) (d : FillDecision) (s : Solver)
    → (decline t deadline_ms d s).0.in_flight ≡ s.in_flight
unfolding decline
decline-in_flight t deadline_ms d s = ground arith

verify-in_flight : (t : Turn) (s : Solver) → (verify t s).0.in_flight ≡ s.in_flight
unfolding verify
verify-in_flight t s = ground arith

pub consider-Holds :
    (b : Text) (t : Turn) (s : Solver)
    → Holds b (added b t (attempts_fill t s)) s.in_flight (consider t s).0.in_flight
unfolding consider attempts_fill
consider-Holds b t s =
    let deadline_ms = seen_ttl_ms t.intent.deadline t.now in
    let u = (verify t s).0 in
    let same = verify-in_flight t s in
    elim (Bool-cases (text_eq (to_lower_case t.recomputed_hash) (to_lower_case t.hash))) [
      | inr e ↦ ground arith
      | inl e ↦ elim (Bool-cases (verify t s).1) [
        | inr f ↦ ground arith
        | inl f ↦ elim (Option-cases (t.decide u.in_flight)) [
          | inl g ↦ ground arith
          | inr (d, g) ↦
              let ready = record u {
                consecutive_implausible_triggers = 0;
                retry_state = (get_retry t.hash t.now u.retry_state).0;
              } in
              ground
                (arith, settle-Holds b t deadline_ms ready, decline-in_flight t deadline_ms d u)
        ]
      ]
    ]

work-active :
    (b : Text) (now : ℕ) (ts : List Turn) (s : Solver)
    → active_reserved_for b (work now ts s).0.in_flight ≡ active_reserved_for b s.in_flight
unfolding work
work-active b now [] s = refl
work-active b now (t ∷ ts) s =
    let u = record s { seen = (SeenLru.has t.hash t.now s.seen).0 } in
    let v = record u { retry_state = (get_retry t.hash t.now u.retry_state).0 } in
    let w = (consider t v).0 in
    ground (
      arith,
      work-active b now ts u,
      work-active b now ts v,
      work-active b now ts w,
      consider-Holds b t v,
    )

-- What the records of a tick could commit of an asset, each with a fill.
abbrev pub batch : Text → List Turn → ℕ
batch b [] = 0
batch b (t ∷ ts) =
    ite (text_discrete t.intent.dest_asset b) (amount t.intent.min_dest_amount) 0 + batch b ts

-- The commitments lie between those from before and as much more as the records could commit.
abbrev Within : Text → ℕ → InFlightTracker → InFlightTracker → Type 0
Within b n before after =
    (reserved_for b before ≤ reserved_for b after)
    × (reserved_for b after ≤ reserved_for b before + n)

added-le :
    (b : Text) (t : Turn) (filled : Bool)
    → added b t filled
      ≤ ite (text_discrete t.intent.dest_asset b) (amount t.intent.min_dest_amount) 0
added-le b t filled = ground arith

work-Within :
    (b : Text) (now : ℕ) (ts : List Turn) (s : Solver)
    → Within b (batch b ts) s.in_flight (work now ts s).0.in_flight
unfolding work
work-Within b now [] s = (omega arith, omega arith)
work-Within b now (t ∷ ts) s =
    let u = record s { seen = (SeenLru.has t.hash t.now s.seen).0 } in
    let v = record u { retry_state = (get_retry t.hash t.now u.retry_state).0 } in
    let w = (consider t v).0 in
    ground (
      arith,
      work-Within b now ts u,
      work-Within b now ts v,
      work-Within b now ts w,
      consider-Holds b t v,
      added-le b t (attempts_fill t v),
    )

-- After a tick, whatever its records, the failures of their fills and the errors that end it, the
-- active reservations of every asset are as before the tick: none is leaked or released twice. The
-- commitments are those active reservations and at most the amounts that the records of this tick
-- deliver: what was held after earlier ticks is free again.
pub tick-active :
    (b : Text) (started now : ℕ) (pending : Option (List Turn)) (s : Solver)
    → (active_reserved_for b (tick started now pending s).0.in_flight
        ≡ active_reserved_for b s.in_flight)
      × (active_reserved_for b s.in_flight
          ≤ reserved_for b (tick started now pending s).0.in_flight)
      × (reserved_for b (tick started now pending s).0.in_flight
          ≤ active_reserved_for b s.in_flight + batch b (or_default pending []))
unfolding tick flush_held active_reserved_for reserved_for JsMap.get
tick-active b started now none s = (refl, omega arith, omega arith)
tick-active b started now (some ts) s =
    let u = record s {
      seen = (SeenLru.evict_expired started s.seen).0;
      retry_state = evict_retries started s.retry_state;
      in_flight = (flush_held s.in_flight).0;
    } in
    let (least, most) = work-Within b now ts u in
    (work-active b now ts u, omega (arith, least), omega (arith, most))
