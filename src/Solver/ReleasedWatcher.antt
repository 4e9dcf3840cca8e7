-- ===== src/Solver/ReleasedWatcher.antt =====
-- solver/src/released-watcher.ts: reporting the intents whose funds the escrow has released. The
-- escrow and the mempool's client are given by their answers, the k-th report by its outcome.
-- `stop` may be called between two events: it is given by what the k-th look at `stopped` sees. A
-- poll that throws keeps the state it has reached. The timer loop around the polls is left out.
pub mod Reported
pub mod Passed
use perihelion.Prelude.{
  ℕ, zero, suc, ◌+◌, ◌-◌, min, Bool, true, false, ◌&&◌, ◌||◌, List, [], ◌∷◌, Option, none, some,
  ltb, leb, ◌==◌, if◌then◌else◌, or_default,
}
use perihelion.Prelude.Text.{Text, codes, text_eq, text_discrete, to_lower_case, includes}
use perihelion.Prelude.Result.{Result, err, ok}

pub record ReleasedEvent : Type 0 where
  pub intent_hash : Text
  pub block_number : ℕ
  pub log_index : ℕ

-- What a failed report throws, as far as it is read.
pub record ReportError : Type 0 where
  pub status : Option ℕ
  pub response_status : Option ℕ
  pub message : Option Text

pub record ReleasedWatcher : Type 0 where
  pub next_block : Option ℕ
  pub reported : List Text
  pub reports : ℕ
  pub looks : ℕ

pub data Failure : Type 0 where
  report_failed : ReportError → Failure
  source_failed : Text → Failure
  out_of_fuel : Failure

abbrev or_status : Option ℕ → Option ℕ → Option ℕ
or_status none o = o
or_status (some s) o = some s

abbrev is_status : ℕ → Option ℕ → Bool
is_status n none = false
is_status n (some s) = s == n

unfoldable pub is_already_settled_error : ReportError → Bool
unfolding includes to_lower_case
is_already_settled_error e =
    let status = or_status e.status e.response_status in
    let message = to_lower_case (or_default e.message []) in
    is_status 409 status
    || is_status 404 status
    || includes (codes "already settled") message
    || includes (codes "not pending") message
    || includes (codes "invalid status transition") message

-- `reported.has(key)`.
unfoldable pub has_reported : Text → List Text → Bool
unfolding text_discrete
has_reported key [] = false
has_reported key (k ∷ keys) =
    let rest = has_reported key keys in if text_eq k key then true else rest

-- The order of `events.sort`, which is stable.
abbrev pub is_before : ReleasedEvent → ReleasedEvent → Bool
is_before a b =
    ltb a.block_number b.block_number
    || (a.block_number == b.block_number && ltb a.log_index b.log_index)

unfoldable pub insert : ReleasedEvent → List ReleasedEvent → List ReleasedEvent
insert e [] = e ∷ []
insert e (f ∷ fs) = let rest = insert e fs in if is_before f e then f ∷ rest else e ∷ f ∷ fs

unfoldable pub sort : List ReleasedEvent → List ReleasedEvent
unfolding insert
sort [] = []
sort (e ∷ es) = insert e (sort es)

abbrev pub key_of : ReleasedEvent → Text
key_of e = to_lower_case e.intent_hash

-- A look at `stopped`.
abbrev pub looked : ReleasedWatcher → ReleasedWatcher
looked w = record w { looks = w.looks + 1 }

abbrev pub count_if : Bool → ℕ → ℕ
count_if true n = n + 1
count_if false n = n

unfoldable pub has_left : ℕ → ℕ → Bool
has_left from head = leb from head

module _ (stopped : ℕ → Bool) (report : ℕ → Text → Option ReportError) where
  -- `handleEvent`: a report that succeeds or that finds the intent settled is remembered. The flag
  -- is the result.
  unfoldable pub handle_event :
      ReleasedEvent → ReleasedWatcher → Result (Failure × ReleasedWatcher) (Bool × ReleasedWatcher)
  handle_event event w = elim (has_reported (key_of event) w.reported) [
    | true ↦ ok (false, w)
    | false ↦
        let v = record w { reports = w.reports + 1 } in
        elim (report w.reports event.intent_hash) [
          | none ↦ ok (true, record v { reported = key_of event ∷ w.reported })
          | some e ↦ elim (is_already_settled_error e) [
            | true ↦ ok (false, record v { reported = key_of event ∷ w.reported })
            | false ↦ err (report_failed e, v)
          ]
        ]
  ]

  -- The loop over the events of a chunk.
  unfoldable pub handle_all :
      List ReleasedEvent
      → ℕ
      → ReleasedWatcher
      → Result (Failure × ReleasedWatcher) (ℕ × ReleasedWatcher)
  handle_all [] count w = ok (count, w)
  handle_all (e ∷ es) count w = elim (stopped w.looks) [
    | true ↦ ok (count, looked w)
    | false ↦ elim (handle_event e (looked w)) [
      | err f ↦ err f
      | ok (reported, v) ↦ handle_all es (count_if reported count) v
    ]
  ]

  module _ (max_block_range : ℕ) (get_block_number : Result Text ℕ)
      (get_events : ℕ → ℕ → Result Text (List ReleasedEvent)) where
    -- The loop over the chunks; the range is at least 1.
    unfoldable pub poll_loop :
        ℕ → ℕ → ℕ → ℕ → ReleasedWatcher → Result (Failure × ReleasedWatcher) (ℕ × ReleasedWatcher)
    poll_loop zero from head count w =
        if has_left from head then err (out_of_fuel, w) else ok (count, w)
    poll_loop (suc fuel) from head count w = elim (has_left from head) [
      | false ↦ ok (count, w)
      | true ↦ elim (stopped w.looks) [
        | true ↦ ok (count, looked w)
        | false ↦
            let to_block = min (from + max_block_range - 1) head in
            elim (get_events from to_block) [
              | err e ↦ err (source_failed e, looked w)
              | ok events ↦ elim (handle_all (sort events) count (looked w)) [
                | err f ↦ err f
                | ok (n, v) ↦
                    poll_loop fuel (to_block + 1) head n
                      (record v { next_block = some (to_block + 1) })
              ]
            ]
      ]
    ]

    -- `pollOnce`; each turn of the loop passes a block at least.
    unfoldable pub poll_once :
        ReleasedWatcher → Result (Failure × ReleasedWatcher) (ℕ × ReleasedWatcher)
    poll_once w = elim get_block_number [
      | err e ↦ err (source_failed e, w)
      | ok head ↦ elim w.next_block [
        | none ↦ ok (0, record w { next_block = some head })
        | some next ↦ if ltb head next then ok (0, w) else poll_loop (head + 1 - next) next head 0 w
      ]
    ]
