-- ===== src/Relayer/SorobanWatcher/Windows.antt =====
-- Poll after poll of the Soroban watcher, with a server whose ranges end before their last ledger.
use perihelion.Prelude.{
  ℕ, zero, suc, ◌+◌, ◌-◌, ◌≤◌, ◌<◌, ◌≡◌, ◌⊎◌, refl, ◌∙◌, min, inl, inr, List, [], ◌∷◌, ◌++◌, All,
  length, take, take_short, if◌then◌else◌, Option, some, ltb, arith, Bool-cases, Option-cases,
}
use perihelion.Prelude.Text.{Text}
use perihelion.Prelude.Int.{ℤ}
use perihelion.Prelude.Result.{Result, err, ok, Result-cases}
use perihelion.Relayer.SorobanWatcher.{
  MessageType, Event, PendingMessage, decode_event, decode_all, poll, event_limit,
  resolve_start_ledger,
}

-- The events of `count` ledgers from `from` on.
unfoldable pub events_in : (ℕ → List Event) → ℕ → ℕ → List Event
events_in ledgers from zero = []
events_in ledgers from (suc count) = ledgers from ++ events_in ledgers (from + 1) count

-- The server's ranges are half-open: it returns the first events of the ledgers before `to`, as many
-- as the limit allows, or throws.
abbrev pub Serves : (ℕ → List Event) → (ℕ → ℕ → ℕ → Result Text (List Event)) → Type 0
Serves ledgers get_events =
    (from to limit : ℕ) (events : List Event)
    → get_events from to limit ≡ ok events
    → events ≡ take limit (events_in ledgers from (to - from))

-- No range of a poll has more events than the limit.
abbrev pub Sparse : (ℕ → List Event) → ℕ → Type 0
Sparse ledgers max_ledgers =
    (from count : ℕ) → count ≤ max_ledgers → length (events_in ledgers from count) ≤ event_limit

-- Windows that follow each other: one of size `n` has the events of `n` ledgers, and one more
-- ledger, which is left out.
unfoldable pub events_of : (ℕ → List Event) → ℕ → List ℕ → List Event
events_of ledgers from [] = []
events_of ledgers from (n ∷ ns) = events_in ledgers from n ++ events_of ledgers (from + n + 1) ns

unfoldable pub end_of : ℕ → List ℕ → ℕ
end_of from [] = from
end_of from (n ∷ ns) = end_of (from + n + 1) ns

-- What a poll finds: the answers to its two calls.
abbrev pub Reading : Type 0
Reading = Result Text ℕ × (ℕ → ℕ → ℕ → Result Text (List Event))

-- The latest ledger never goes back, and the first one read is not behind the start.
abbrev pub Forward : ℕ → List Reading → Type 0
Forward from [] = Unit
Forward from ((err e, get_events) ∷ more) = Forward from more
Forward from ((ok latest, get_events) ∷ more) = (from ≤ latest + 1) × Forward (latest + 1) more

Forward-from : (readings : List Reading) {a b : ℕ} → a ≤ b → Forward b readings → Forward a readings
Forward-from [] h f = tt
Forward-from ((err e, get_events) ∷ more) h f = Forward-from more h f
Forward-from ((ok latest, get_events) ∷ more) h (near, rest) = (omega arith, rest)

module _ (from_discriminant : ℤ → Option MessageType) (utf8_text : List ℕ → Text) where
  abbrev decoded : List Event → List PendingMessage
  decoded = decode_all from_discriminant utf8_text

  decode_all-append : (xs ys : List Event) → decoded (xs ++ ys) ≡ decoded xs ++ decoded ys
  unfolding decode_all
  decode_all-append [] ys = refl
  decode_all-append (x ∷ xs) ys = elim (Option-cases (decode_event from_discriminant utf8_text x)) [
    | inl e ↦ rw (e, decode_all) (decode_all-append xs ys)
    | inr (p, e) ↦ rw (e, decode_all, decode_all-append xs ys) refl
  ]

  module _ (start_ledger : Option ℕ) (max_ledgers : ℕ) where
    abbrev polled : Reading → ℕ → Result Text (List PendingMessage × ℕ)
    polled (latest, get_events) from =
        poll from_discriminant utf8_text start_ledger max_ledgers latest get_events (some from)

    -- Polls, each from where the last one ended; one that throws is repeated from there.
    unfoldable pub polls : List Reading → ℕ → List PendingMessage × ℕ
    polls [] from = ([], from)
    polls (r ∷ more) from = elim (polled r from) [
      | err e ↦ polls more from
      | ok (messages, next) ↦ let (later, final) = polls more next in (messages ++ later, final)
    ]

    -- The last ledger of the window, for which the server has no answer.
    abbrev last_of : ℕ → ℕ → ℕ
    last_of from latest = min latest (from + max_ledgers - 1)

    -- The windows of a sequence of polls: none if the latest ledger is not known, or read already,
    -- or if the request for the events throws; else as wide as the latest ledger and the limit allow.
    abbrev pub Windows : List Reading → ℕ → List ℕ → Type 0
    Windows [] from ns = ns ≡ []
    Windows ((err e, get_events) ∷ more) from ns = Windows more from ns
    Windows ((ok latest, get_events) ∷ more) from ns =
        (latest < from) × Windows more from ns
        ⊎ ((e : Text) × (get_events from (last_of from latest) event_limit ≡ err e)
            × Windows more from ns)
        ⊎ ((ms : List ℕ) × (from ≤ latest)
            × (ns ≡ (last_of from latest - from) ∷ ms)
            × Windows more (last_of from latest + 1) ms)

    -- What one poll comes to.
    abbrev PollEnds :
        (ℕ → List Event) → ℕ → Reading → Result Text (List PendingMessage × ℕ) → Type 0
    PollEnds ledgers from (err e, get_events) r = r ≡ err e
    PollEnds ledgers from (ok latest, get_events) r =
        (latest < from) × (r ≡ ok ([], from))
        ⊎ ((e : Text) × (get_events from (last_of from latest) event_limit ≡ err e) × (r ≡ err e))
        ⊎ (from ≤ latest)
          × (r
              ≡ ok (
                decoded (events_in ledgers from (last_of from latest - from)),
                last_of from latest + 1,
              ))

    one_poll :
        (ledgers : ℕ → List Event) (latest from : ℕ)
        (get_events : ℕ → ℕ → ℕ → Result Text (List Event))
        → Serves ledgers get_events
        → Sparse ledgers max_ledgers
        → 0 < max_ledgers
        → 0 < from
        → from ≤ latest + 1
        → PollEnds ledgers from (ok latest, get_events) (polled (ok latest, get_events) from)
    unfolding poll resolve_start_ledger
    one_poll ledgers latest zero get_events serves sparse wide some_ledger near =
        absurd (omega arith)
    one_poll ledgers latest (suc f) get_events serves sparse wide some_ledger near =
        elim (Bool-cases (ltb latest (suc f))) [
          | inl e ↦
              let same : latest + 1 ≡ suc f = ground arith in
              inl (ground arith, rw (e, poll, same) refl)
          | inr e ↦
              let final = last_of (suc f) latest in
              elim (Result-cases (get_events (suc f) final event_limit)) [
                | inl (x, g) ↦ inr (inl (x, g, rw (e, g, poll) refl))
                | inr (events, g) ↦
                    let all = events_in ledgers (suc f) (final - suc f) in
                    let whole : events ≡ all =
                      serves (suc f) final event_limit events g
                      ∙ take_short event_limit all (sparse (suc f) (final - suc f) (omega arith)) in
                    let next : (if ltb final latest then final + 1 else latest + 1) ≡ final + 1 =
                      ground arith in
                    inr (inr (ground arith, rw (e, g, poll, whole, next) refl))
              ]
        ]

    polls-err :
        (r : Reading) (more : List Reading) (from : ℕ) (e : Text)
        → polled r from ≡ err e
        → polls (r ∷ more) from ≡ polls more from
    unfolding polls
    polls-err r more from e h = rw (h, polls) refl

    polls-ok :
        (r : Reading) (more : List Reading) (from next : ℕ) (messages : List PendingMessage)
        → polled r from ≡ ok (messages, next)
        → polls (r ∷ more) from ≡ (messages ++ (polls more next).0, (polls more next).1)
    unfolding polls
    polls-ok r more from next messages h = rw (h, polls) refl

    -- However the polls fall, together they relay what the events of their windows decode to, each
    -- event once and in order, but of every window the last ledger is left out, and the next window
    -- begins behind it. It is assumed that the latest ledger never goes back, that no window has
    -- more events than the limit of 200, and that the server's ranges are half-open; the calls to
    -- the server may throw, and then the poll is repeated from the same ledger.
    pub polls-events :
        (ledgers : ℕ → List Event) (readings : List Reading) (from : ℕ)
        → All (λ r. Serves ledgers r.1) readings
        → Sparse ledgers max_ledgers
        → 0 < max_ledgers
        → 0 < from
        → Forward from readings
        → (ns : List ℕ) × (polls readings from
            ≡ (decoded (events_of ledgers from ns), end_of from ns))
          × Windows readings from ns
    unfolding polls events_of end_of decode_all poll
    polls-events ledgers [] from serves sparse wide some_ledger forward = ([], refl, refl)
    polls-events ledgers ((err e, g) ∷ more) from (here, later) sparse wide some_ledger forward =
        polls-events ledgers more from later sparse wide some_ledger forward
    polls-events ledgers ((ok latest, g) ∷ more) from (here, later) sparse wide some_ledger
          (near, f) =
        elim (one_poll ledgers latest from g here sparse wide some_ledger near) [
          | inl (behind, r) ↦
              let (ns, e, w) =
                polls-events ledgers more from later sparse wide some_ledger
                  (Forward-from more near f) in
              (ns, polls-ok (ok latest, g) more from from [] r ∙ e, inl (behind, w))
          | inr (inl (x, h, r)) ↦
              let (ns, e, w) =
                polls-events ledgers more from later sparse wide some_ledger
                  (Forward-from more near f) in
              (ns, polls-err (ok latest, g) more from x r ∙ e, inr (inl (x, h, w)))
          | inr (inr (le, r)) ↦
              let final = last_of from latest in
              let n = final - from in
              let (ns, e, w) =
                polls-events ledgers more (final + 1) later sparse wide (omega arith)
                  (Forward-from more (omega arith) f) in
              let at : from + n + 1 ≡ final + 1 = omega arith in
              (
                n ∷ ns,
                polls-ok (ok latest, g) more from (final + 1) (decoded (events_in ledgers from n)) r
                    ∙ rw
                        (
                          e,
                          decode_all-append (events_in ledgers from n)
                              (events_of ledgers (from + n + 1) ns),
                          at,
                        )
                        refl,
                inr (inr (ns, le, refl, w)),
              )
        ]
