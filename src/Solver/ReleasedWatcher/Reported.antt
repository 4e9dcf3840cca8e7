-- ===== src/Solver/ReleasedWatcher/Reported.antt =====
-- The watcher moves past a block only when the intents of all its events have been reported.
use perihelion.Prelude.{
  ℕ, zero, suc, ◌+◌, ◌≤◌, ◌<◌, ◌≡◌, inl, inr, refl, sym, ◌∙◌, Bool, true, false, List, [], ◌∷◌,
  ◌++◌, All, Option, none, some, ◌⊎◌, arith, Bool-cases, Option-cases, subst, ℕ_discrete,
}
use perihelion.Prelude.Text.{Text, text_discrete, text_eq, eq_of_text_eq, to_lower_case}
use perihelion.Prelude.Result.{Result, err, ok, Result-cases}
use perihelion.Solver.ReleasedWatcher.{
  ReleasedEvent, ReportError, ReleasedWatcher, Failure, is_already_settled_error, has_reported,
  is_before, insert, sort, key_of, looked, count_if, handle_event, handle_all,
}

-- The intent of the event is among those remembered.
abbrev pub IsReported : List Text → ReleasedEvent → Type 0
IsReported reported e = has_reported (key_of e) reported ≡ true

-- The events of `count` blocks from `from` on.
unfoldable pub released_in : (ℕ → List ReleasedEvent) → ℕ → ℕ → List ReleasedEvent
released_in chain from zero = []
released_in chain from (suc count) = chain from ++ released_in chain (from + 1) count

All-split :
    (P : ReleasedEvent → Type 0) (xs ys : List ReleasedEvent)
    → All P (xs ++ ys)
    → All P xs × All P ys
All-split P [] ys h = (tt, h)
All-split P (x ∷ xs) ys h = let (a, b) = All-split P xs ys h.1 in ((h.0, a), b)

pub All-released_in :
    (P : ReleasedEvent → Type 0) (chain : ℕ → List ReleasedEvent) (from count b : ℕ)
    → from ≤ b
    → b < from + count
    → All P (released_in chain from count)
    → All P (chain b)
unfolding released_in
All-released_in P chain from zero b lo hi h = absurd (omega arith)
All-released_in P chain from (suc count) b lo hi h =
    let (here, later) = All-split P (chain from) (released_in chain (from + 1) count) h in
    elim (ℕ_discrete from b) [
      | yes e ↦ subst (λ (k : ℕ). All P (chain k)) e here
      | no n ↦ All-released_in P chain (from + 1) count b (omega (arith, n)) (omega arith) later
    ]

insert-All :
    (P : ReleasedEvent → Type 0) (e : ReleasedEvent) (es : List ReleasedEvent)
    → All P (insert e es)
    → P e × All P es
unfolding insert
insert-All P e [] h = h
insert-All P e (f ∷ fs) h = elim (Bool-cases (is_before f e)) [
  | inl b ↦
      let h' : All P (f ∷ insert e fs) = rw b at h in
      let (a, rest) = insert-All P e fs h'.1 in (a, (h'.0, rest))
  | inr b ↦ let h' : All P (e ∷ f ∷ fs) = rw b at h in h'
]

pub sort-All : (P : ReleasedEvent → Type 0) (es : List ReleasedEvent) → All P (sort es) → All P es
unfolding sort
sort-All P [] h = h
sort-All P (e ∷ es) h = let (a, rest) = insert-All P e (sort es) h in (a, sort-All P es rest)

remembered :
    (k l : Text) (keys : List Text) → has_reported k keys ≡ true → has_reported k (l ∷ keys) ≡ true
unfolding has_reported
remembered k l keys h = ground arith

remembers : (k : Text) (keys : List Text) → has_reported k (k ∷ keys) ≡ true
unfolding has_reported text_discrete
remembers k keys = ground arith

pub All-monotone :
    (reported more : List Text) (es : List ReleasedEvent)
    → ((k : Text) → has_reported k reported ≡ true → has_reported k more ≡ true)
    → All (IsReported reported) es
    → All (IsReported more) es
All-monotone reported more [] f h = tt
All-monotone reported more (e ∷ es) f h = (f (key_of e) h.0, All-monotone reported more es f h.1)

module _ (stopped : ℕ → Bool) (report : ℕ → Text → Option ReportError)
    (running : (k : ℕ) → stopped k ≡ false) where
  -- A report was sent for the intent, and it succeeded or its error says that the intent is settled.
  abbrev pub IsAnswered : Text → Type 0
  IsAnswered key =
      (j : ℕ) × (hash : Text) × (to_lower_case hash ≡ key)
      × ((report j hash ≡ none)
          ⊎ ((x : ReportError) × (report j hash ≡ some x) × (is_already_settled_error x ≡ true)))

  -- Only intents with such a report are remembered.
  abbrev pub Justified : List Text → Type 0
  Justified reported = (k : Text) → has_reported k reported ≡ true → IsAnswered k

  -- What is remembered stays remembered, and with reason, and the next block is left alone.
  abbrev pub Grows : ReleasedWatcher → ReleasedWatcher → Type 0
  Grows w v =
      (v.next_block ≡ w.next_block)
      × ((k : Text) → has_reported k w.reported ≡ true → has_reported k v.reported ≡ true)
      × (Justified w.reported → Justified v.reported)

  Grows-trans : (w v u : ReleasedWatcher) → Grows w v → Grows v u → Grows w u
  Grows-trans w v u (a, f, p) (b, g, q) = (b ∙ a, λ k h. g k (f k h), λ j. q (p j))

  -- One more intent with a report.
  Justified-more :
      (key : Text) (keys : List Text) → IsAnswered key → Justified keys → Justified (key ∷ keys)
  unfolding has_reported
  Justified-more key keys a j k h = elim (Bool-cases (text_eq key k)) [
    | inl e ↦ subst IsAnswered (eq_of_text_eq key k e) a
    | inr e ↦ j k (ground arith)
  ]

  -- Handling an event keeps what is remembered, and without an error remembers its intent.
  abbrev Handled :
      ReleasedEvent
      → ReleasedWatcher
      → Result (Failure × ReleasedWatcher) (Bool × ReleasedWatcher)
      → Type 0
  Handled e w (err f) = Grows w f.1
  Handled e w (ok r) = Grows w r.1 × IsReported r.1.reported e

  handle_event-Handled :
      (e : ReleasedEvent) (w : ReleasedWatcher) → Handled e w (handle_event stopped report e w)
  unfolding handle_event
  handle_event-Handled e w = elim (Bool-cases (has_reported (key_of e) w.reported)) [
    | inl h ↦ rw (h, handle_event) ((refl, λ k g. g, λ j. j), h)
    | inr h ↦ elim (Option-cases (report w.reports e.intent_hash)) [
      | inl n ↦
          let answered : IsAnswered (key_of e) = (w.reports, e.intent_hash, refl, inl n) in
          rw (h, n, handle_event)
            (
              (
                refl,
                λ k g. remembered k (key_of e) w.reported g,
                Justified-more (key_of e) w.reported answered,
              ),
              remembers (key_of e) w.reported,
            )
      | inr (x, n) ↦ elim (Bool-cases (is_already_settled_error x)) [
        | inl s ↦
            let answered : IsAnswered (key_of e) =
              (w.reports, e.intent_hash, refl, inr (x, n, s)) in
            rw (h, n, s, handle_event)
              (
                (
                  refl,
                  λ k g. remembered k (key_of e) w.reported g,
                  Justified-more (key_of e) w.reported answered,
                ),
                remembers (key_of e) w.reported,
              )
        | inr s ↦ rw (h, n, s, handle_event) (refl, λ k g. g, λ j. j)
      ]
    ]
  ]

  abbrev pub AllHandled :
      List ReleasedEvent
      → ReleasedWatcher
      → Result (Failure × ReleasedWatcher) (ℕ × ReleasedWatcher)
      → Type 0
  AllHandled es w (err f) = Grows w f.1
  AllHandled es w (ok r) = Grows w r.1 × All (IsReported r.1.reported) es

  onward :
      (e : ReleasedEvent) (es : List ReleasedEvent) (w v : ReleasedWatcher)
      (r : Result (Failure × ReleasedWatcher) (ℕ × ReleasedWatcher))
      → Grows w v
      → IsReported v.reported e
      → AllHandled es v r
      → AllHandled (e ∷ es) w r
  onward e es w v (err f) g here h = Grows-trans w v f.1 g h
  onward e es w v (ok r) g here ((same, kept, just), all) =
      (Grows-trans w v r.1 g (same, kept, just), (kept (key_of e) here, all))

  -- The two ways that a turn of the loop over the events goes on.
  stopping :
      (e : ReleasedEvent) (es : List ReleasedEvent) (count : ℕ) (w : ReleasedWatcher)
      (f : Failure × ReleasedWatcher)
      → handle_event stopped report e (looked w) ≡ err f
      → handle_all stopped report (e ∷ es) count w ≡ err f
  unfolding handle_all
  stopping e es count w f h = rw (running w.looks, h, handle_all) refl

  going_on :
      (e : ReleasedEvent) (es : List ReleasedEvent) (count : ℕ) (w v : ReleasedWatcher) (b : Bool)
      → handle_event stopped report e (looked w) ≡ ok (b, v)
      → handle_all stopped report (e ∷ es) count w
        ≡ handle_all stopped report es (count_if b count) v
  unfolding handle_all
  going_on e es count w v b h = rw (running w.looks, h, handle_all) refl

  pub handle_all-AllHandled :
      (es : List ReleasedEvent) (count : ℕ) (w : ReleasedWatcher)
      → AllHandled es w (handle_all stopped report es count w)
  unfolding handle_all
  handle_all-AllHandled [] count w = ((refl, λ k h. h, λ j. j), tt)
  handle_all-AllHandled (e ∷ es) count w =
      let first = handle_event-Handled e (looked w) in
      elim (Result-cases (handle_event stopped report e (looked w))) [
        | inl (f, h) ↦
            let grown : Grows w f.1 = subst (Handled e (looked w)) h first in
            subst (AllHandled (e ∷ es) w) (sym (stopping e es count w f h)) grown
        | inr (r, h) ↦
            let (grown, here) = subst (Handled e (looked w)) h first in
            let n = count_if r.0 count in
            let more = going_on e es count w r.1 r.0 h in
            subst (AllHandled (e ∷ es) w) (sym more) (
              onward e es w r.1 (handle_all stopped report es n r.1) grown here
                (handle_all-AllHandled es n r.1))
      ]
