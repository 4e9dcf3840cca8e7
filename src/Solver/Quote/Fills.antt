-- ===== src/Solver/Quote/Fills.antt =====
-- What a decision to fill guarantees, and that a terminal verdict is never taken back.
use perihelion.Prelude.{
  ℕ, ◌+◌, ◌*◌, ◌/◌, ◌≤◌, ◌<◌, ◌≡◌, refl, Bool, true, false, Option, none, some, or_default, arith,
  Option-cases, inl, inr,
}
use perihelion.Prelude.Text.{Text}
use perihelion.Sdk.Types.{Intent}
use perihelion.Sdk.Expiry.{is_expired_late, is_expired_early}
use perihelion.Solver.InFlight.{InFlightTracker}
use perihelion.Solver.Quote.{
  SkipCode, FillDecision, SolverConfig, EvaluateDeps, amount, compute_proceeds, skip, includes,
  has_native, committed, is_solver_eligible, terminal_check, profit_bps_scaled, margin_check,
  balance_check, evaluate, balance_of, min_fill_headroom_secs,
}

-- What the terminal checks let through.
abbrev pub Open : (Text → Bool) → (Text → Text → Bool) → Text → Intent → SolverConfig → ℕ → Type 0
Open is_address same zero intent config now =
    (intent.source_chain_id ≡ config.source_chain_id)
    × (now + min_fill_headroom_secs < intent.deadline)
    × (includes intent.dest_asset config.supported_dest_assets ≡ true)
    × (is_solver_eligible is_address same zero intent.preferred_solver config.solver_address ≡ true)

-- What the margin checks let through.
abbrev pub Profitable : SolverConfig → ℕ → ℕ → ℕ → Type 0
Profitable config proceeds min_out fees =
    (min_out + fees < proceeds)
    × (config.min_margin_bps * 100 ≤ profit_bps_scaled proceeds min_out fees)
    × (profit_bps_scaled proceeds min_out fees / 100
        ≤ or_default config.max_plausible_profit_bps 1000)

terminal_check-Open :
    (is_address : Text → Bool) (same : Text → Text → Bool) (zero : Text) (intent : Intent)
    (config : SolverConfig) (now : ℕ)
    → terminal_check is_address same zero intent config now ≡ none
    → Open is_address same zero intent config now
unfolding terminal_check
terminal_check-Open is_address same zero intent config now h =
    ground (arith, is_expired_early intent now min_fill_headroom_secs)

margin_check-Profitable :
    (config : SolverConfig) (proceeds min_out fees : ℕ)
    → margin_check config proceeds min_out fees ≡ none
    → Profitable config proceeds min_out fees
unfolding margin_check
margin_check-Profitable config proceeds min_out fees h = ground arith

-- What the balance checks let through.
abbrev pub Funded : Intent → SolverConfig → EvaluateDeps → ℕ → Type 0
Funded intent config deps n =
    ((available : ℕ) × (balance_of deps.available_balance intent.dest_asset ≡ some available)
      × (amount intent.min_dest_amount + n ≤ available))
    × (has_native deps.native_balance_source deps.source_native_cost config.source_native_fee_floor
        ≡ some true)
    × (has_native deps.native_balance_dest deps.dest_native_cost config.stellar_native_fee_floor
        ≡ some true)

balance_check-Funded :
    (intent : Intent) (config : SolverConfig) (deps : EvaluateDeps) (n : ℕ)
    → balance_check intent config deps n ≡ some none
    → Funded intent config deps n
unfolding balance_check
balance_check-Funded intent config deps n h =
    elim (Option-cases (balance_of deps.available_balance intent.dest_asset)) [
      | inl e ↦ absurd (ground arith)
      | inr (a, e) ↦ ((a, e, ground arith), ground arith, ground arith)
    ]

margin_check_skips :
    (config : SolverConfig) (proceeds min_out fees : ℕ) (d : FillDecision)
    → margin_check config proceeds min_out fees ≡ some d
    → (d.fill ≡ false) × (d.terminal ≡ false)
unfolding margin_check
margin_check_skips config proceeds min_out fees d h = ground arith

balance_check_skips :
    (intent : Intent) (config : SolverConfig) (deps : EvaluateDeps) (n : ℕ) (d : FillDecision)
    → balance_check intent config deps n ≡ some (some d)
    → (d.fill ≡ false) × (d.terminal ≡ false)
unfolding balance_check
balance_check_skips intent config deps n d h = ground arith

module _ (is_address : Text → Bool) (same : Text → Text → Bool) (zero : Text) where
  -- A decision to fill means that the intent is on the solver's chain, has more than the headroom
  -- left, asks for a supported asset and is open to this solver; that the proceeds exceed the
  -- delivery and the fees by at least the margin and at most the plausible profit; and that the
  -- balance covers the delivery on top of what is committed, and both native balances suffice.
  pub evaluate-fill :
      (intent : Intent) (config : SolverConfig) (deps : EvaluateDeps)
      (in_flight : Option InFlightTracker) (now : ℕ) (d : FillDecision)
      → evaluate is_address same zero intent config deps in_flight now ≡ some d
      → d.fill ≡ true
      → Open is_address same zero intent config now
        × ((proceeds : ℕ) × (fees : ℕ) × (compute_proceeds intent deps ≡ some proceeds)
            × (deps.fee_estimator intent ≡ some fees)
            × Profitable config proceeds (amount intent.min_dest_amount) fees)
        × Funded intent config deps (committed intent in_flight)
  unfolding evaluate
  evaluate-fill intent config deps in_flight now d h f =
      let m = amount intent.min_dest_amount in
      elim (Option-cases (terminal_check is_address same zero intent config now)) [
        | inr (c, e) ↦ absurd (ground arith)
        | inl e ↦ elim (Option-cases (compute_proceeds intent deps)) [
          | inl g ↦ absurd (ground arith)
          | inr (proceeds, g) ↦ elim (Option-cases (deps.fee_estimator intent)) [
            | inl k ↦ absurd (ground arith)
            | inr (fees, k) ↦ elim (Option-cases (margin_check config proceeds m fees)) [
              | inr (s, l) ↦ absurd (ground (arith, margin_check_skips config proceeds m fees s l))
              | inl l ↦
                  elim (Option-cases
                    (balance_check intent config deps (committed intent in_flight))) [
                      | inl q ↦ absurd (ground arith)
                      | inr (b, q) ↦ elim (Option-cases b) [
                        | inr (s, r) ↦ absurd (
                            ground (
                              arith,
                              balance_check_skips intent config deps (committed intent in_flight) s,
                            ))
                        | inl r ↦ (
                          terminal_check-Open is_address same zero intent config now e,
                          (proceeds, fees, g, k, margin_check-Profitable config proceeds m fees l),
                          balance_check-Funded intent config deps (committed intent in_flight)
                              (ground arith),
                        )
                      ]
                    ]
            ]
          ]
        ]
      ]

  Open-terminal_check :
      (intent : Intent) (config : SolverConfig) (now : ℕ)
      → Open is_address same zero intent config now
      → terminal_check is_address same zero intent config now ≡ none
  unfolding terminal_check
  Open-terminal_check intent config now h =
      ground
        (arith, is_expired_late intent now 0, is_expired_early intent now min_fill_headroom_secs)

  terminal_check_later :
      (intent : Intent) (config : SolverConfig) (now later : ℕ) (c : SkipCode)
      → terminal_check is_address same zero intent config now ≡ some c
      → now ≤ later
      → (c' : SkipCode) × (terminal_check is_address same zero intent config later ≡ some c')
  terminal_check_later intent config now later c h le =
      elim (Option-cases (terminal_check is_address same zero intent config later)) [
        | inr (c', e) ↦ (c', e)
        | inl e ↦
            let (chain, room, asset, ours) =
              terminal_check-Open is_address same zero intent config later e in
            let passes = Open-terminal_check intent config now (chain, omega arith, asset, ours) in
            absurd (ground arith)
      ]

  from_terminal_check :
      (intent : Intent) (config : SolverConfig) (deps : EvaluateDeps)
      (in_flight : Option InFlightTracker) (now : ℕ) (d : FillDecision)
      → evaluate is_address same zero intent config deps in_flight now ≡ some d
      → d.terminal ≡ true
      → (d.fill ≡ false)
        × ((c : SkipCode) × (terminal_check is_address same zero intent config now ≡ some c))
  unfolding evaluate
  from_terminal_check intent config deps in_flight now d h t =
      let m = amount intent.min_dest_amount in
      elim (Option-cases (terminal_check is_address same zero intent config now)) [
        | inr (c, e) ↦ (ground arith, (c, e))
        | inl e ↦ elim (Option-cases (compute_proceeds intent deps)) [
          | inl g ↦ absurd (ground arith)
          | inr (proceeds, g) ↦ elim (Option-cases (deps.fee_estimator intent)) [
            | inl k ↦ absurd (ground arith)
            | inr (fees, k) ↦ elim (Option-cases (margin_check config proceeds m fees)) [
              | inr (s, l) ↦ absurd (ground (arith, margin_check_skips config proceeds m fees s l))
              | inl l ↦
                  elim (Option-cases
                    (balance_check intent config deps (committed intent in_flight))) [
                      | inl q ↦ absurd (ground arith)
                      | inr (b, q) ↦ elim (Option-cases b) [
                        | inr (s, r) ↦ absurd (
                            ground (
                              arith,
                              balance_check_skips intent config deps (committed intent in_flight) s,
                            ))
                        | inl r ↦ absurd (ground arith)
                      ]
                    ]
            ]
          ]
        ]
      ]

  -- A terminal verdict is a refusal, and it is final: whatever the prices, balances and
  -- commitments are later, the intent is refused again, with a terminal verdict.
  pub evaluate-terminal :
      (intent : Intent) (config : SolverConfig) (deps deps' : EvaluateDeps)
      (in_flight in_flight' : Option InFlightTracker) (now later : ℕ) (d : FillDecision)
      → evaluate is_address same zero intent config deps in_flight now ≡ some d
      → d.terminal ≡ true
      → now ≤ later
      → (d.fill ≡ false)
        × ((d' : FillDecision) × (evaluate is_address same zero intent config deps' in_flight' later
              ≡ some d')
            × (d'.fill ≡ false)
            × (d'.terminal ≡ true))
  unfolding evaluate
  evaluate-terminal intent config deps deps' in_flight in_flight' now later d h t le =
      let (refused, (c, e)) = from_terminal_check intent config deps in_flight now d h t in
      let (c', e') = terminal_check_later intent config now later c e le in
      (refused, (skip c' true, rw (e', evaluate) refl, refl, refl))
