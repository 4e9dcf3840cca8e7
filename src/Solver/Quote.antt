-- ===== src/Solver/Quote.antt =====
-- solver/src/quote.ts: `computeProceeds`, `isSolverEligible` and `evaluate`. The amounts of an
-- intent are its validated decimal strings, read as naturals. The oracle, the fee estimator, the
-- decimals and the balances are functions supplied by the caller, `none` where they throw. The
-- texts of the reasons are left out.
pub mod Fills
use perihelion.Prelude.{
  ℕ, ◌+◌, ◌-◌, ◌*◌, ◌/◌, ◌^◌, Bool, true, false, not, ◌||◌, List, [], ◌∷◌, Option, none, some, ltb,
  leb, ◌==◌, if◌then◌else◌, or_default, any,
}
use perihelion.Prelude.Int.{ℤ, pos, negsuc, ◌-ℤ◌}
use perihelion.Prelude.Text.{Text, text_eq, text_discrete}
use perihelion.Sdk.Types.{Intent}
use perihelion.Sdk.Decimal.{digits_value}
use perihelion.Sdk.Expiry.{is_expired}
use perihelion.Solver.InFlight.{InFlightTracker, reserved_for}

abbrev pub rate_scale : ℕ
rate_scale = 1000000000000000000

-- `MIN_FILL_HEADROOM_SECS` of sdk/src/intent.ts.
abbrev pub min_fill_headroom_secs : ℕ
min_fill_headroom_secs = 1920

-- `Number.MAX_SAFE_INTEGER`, what UnlimitedInventoryProvider reports.
abbrev pub unlimited : ℕ
unlimited = 9007199254740991

pub data SkipCode : Type 0 where
  wrong_chain expired unsupported_asset reserved pricing_error below_margin implausible_profit :
      SkipCode
  insufficient_inventory insufficient_native_balance : SkipCode

pub record FillDecision : Type 0 where
  pub fill : Bool
  pub code : Option SkipCode
  pub terminal : Bool
  pub profit_bps : Option ℕ
  pub implausible_profit : Bool
  pub native_shortfall : Bool
  pub estimated_profit : Option ℕ
  pub estimated_fee : Option ℕ

pub record SolverConfig : Type 0 where
  pub source_chain_id : ℕ
  pub solver_address : Text
  pub supported_dest_assets : List Text
  pub min_margin_bps : ℕ
  pub max_plausible_profit_bps : Option ℕ
  pub source_native_fee_floor : ℕ
  pub stellar_native_fee_floor : ℕ

pub record EvaluateDeps : Type 0 where
  pub decimals_lookup : Text → Option ℕ
  pub price_oracle : Text → Text → Option ℤ
  pub fee_estimator : Intent → Option ℕ
  pub available_balance : Option (Text → Option ℕ)
  pub native_balance_source : Option (Option ℕ)
  pub source_native_cost : Option (Option ℕ)
  pub native_balance_dest : Option (Option ℕ)
  pub dest_native_cost : Option (Option ℕ)

abbrev pub amount : Text → ℕ
amount s = digits_value 0 s

-- The rescaling at the end of `computeProceeds`.
unfoldable pub rescale : ℕ → ℕ → ℕ → ℕ → ℕ
rescale src_amount rate src_decimals dst_decimals =
    if leb src_decimals dst_decimals
    then src_amount * rate * 10 ^ (dst_decimals - src_decimals) / rate_scale
    else src_amount * rate / (rate_scale * 10 ^ (src_decimals - dst_decimals))

-- A rate that is not positive throws.
abbrev pub positive_rate : ℤ → Option ℕ
positive_rate (pos n) = if n == 0 then none else some n
positive_rate (negsuc n) = none

unfoldable pub compute_proceeds : Intent → EvaluateDeps → Option ℕ
compute_proceeds intent deps = elim (deps.decimals_lookup intent.source_asset) [
  | none ↦ none
  | some src ↦ elim (deps.decimals_lookup intent.dest_asset) [
    | none ↦ none
    | some dst ↦ elim (deps.price_oracle intent.source_asset intent.dest_asset) [
      | none ↦ none
      | some rate ↦ elim (positive_rate rate) [
        | none ↦ none
        | some r ↦ some (rescale (amount intent.source_amount) r src dst)
      ]
    ]
  ]
]

abbrev pub skip : SkipCode → Bool → FillDecision
skip c terminal = record {
  fill = false;
  code = some c;
  terminal = terminal;
  profit_bps = none;
  implausible_profit = false;
  native_shortfall = false;
  estimated_profit = none;
  estimated_fee = none;
}

abbrev pub fill_with : ℕ → ℕ → ℕ → FillDecision
fill_with bps profit fees = record {
  fill = true;
  code = none;
  terminal = false;
  profit_bps = some bps;
  implausible_profit = false;
  native_shortfall = false;
  estimated_profit = some profit;
  estimated_fee = some fees;
}

-- `inFlight?.reservedFor(intent.destAsset) ?? 0n`.
abbrev pub committed : Intent → Option InFlightTracker → ℕ
committed intent none = 0
committed intent (some t) = reserved_for intent.dest_asset t

abbrev pub includes : Text → List Text → Bool
includes a assets = any (λ b. text_eq b a) assets

-- One side of the check of native balances: `none` where a call throws, else whether it passes. A
-- balance that cannot be observed passes.
unfoldable pub has_native : Option (Option ℕ) → Option (Option ℕ) → ℕ → Option Bool
has_native none cost floor = some true
has_native (some none) cost floor = none
has_native (some (some have)) none floor = some (leb floor have)
has_native (some (some have)) (some none) floor = none
has_native (some (some have)) (some (some need)) floor = some (leb need have)

-- The checks on the margin, from the proceeds and the fees.
abbrev pub profit_bps_scaled : ℕ → ℕ → ℕ → ℕ
profit_bps_scaled proceeds min_out fees = (proceeds - min_out - fees) * 1000000 / proceeds

unfoldable pub margin_check : SolverConfig → ℕ → ℕ → ℕ → Option FillDecision
margin_check config proceeds min_out fees =
    let scaled = profit_bps_scaled proceeds min_out fees in
    if ltb proceeds min_out
    then some (skip below_margin false)
    else if leb proceeds (min_out + fees)
    then some (skip below_margin false)
    else if ltb scaled (config.min_margin_bps * 100)
    then some (record (skip below_margin false) { profit_bps = some (scaled / 100) })
    else if ltb (or_default config.max_plausible_profit_bps 1000) (scaled / 100)
    then some (record (skip implausible_profit false) {
      profit_bps = some (scaled / 100);
      implausible_profit = true;
    })
    else none

-- The balance that the provider reports, or that of the unlimited one.
abbrev pub balance_of : Option (Text → Option ℕ) → Text → Option ℕ
balance_of none asset = some unlimited
balance_of (some f) asset = f asset

-- The checks on the balances; `none` where a call throws, `some none` where they pass.
unfoldable pub balance_check :
    Intent → SolverConfig → EvaluateDeps → ℕ → Option (Option FillDecision)
balance_check intent config deps in_flight =
    elim (balance_of deps.available_balance intent.dest_asset) [
      | none ↦ none
      | some available ↦
          if ltb available (amount intent.min_dest_amount + in_flight)
          then some (some (skip insufficient_inventory false))
          else elim (has_native deps.native_balance_source deps.source_native_cost
              config.source_native_fee_floor) [
                | none ↦ none
                | some false ↦ some (
                    some
                      (record (skip insufficient_native_balance false) { native_shortfall = true }))
                | some true ↦
                    elim (has_native deps.native_balance_dest deps.dest_native_cost
                      config.stellar_native_fee_floor) [
                        | none ↦ none
                        | some false ↦ some (
                            some (record (skip insufficient_native_balance false) {
                              native_shortfall = true;
                            }))
                        | some true ↦ some none
                      ]
              ]
    ]

module _ (is_address : Text → Bool) (is_address_equal : Text → Text → Bool)
    (zero_address : Text) where
  unfoldable pub is_solver_eligible : Text → Text → Bool
  is_solver_eligible preferred solver =
      if is_address preferred
      then is_address_equal preferred zero_address || is_address_equal preferred solver
      else false

  -- The terminal checks.
  unfoldable pub terminal_check : Intent → SolverConfig → ℕ → Option SkipCode
  terminal_check intent config now =
      if not (intent.source_chain_id == config.source_chain_id)
      then some wrong_chain
      else if is_expired intent now (pos 0)
      then some expired
      else if is_expired intent now (pos 0 -ℤ pos min_fill_headroom_secs)
      then some expired
      else if not (includes intent.dest_asset config.supported_dest_assets)
      then some unsupported_asset
      else if not (is_solver_eligible intent.preferred_solver config.solver_address)
      then some reserved
      else none

  -- `evaluate`: `none` where a call outside the `try` throws.
  unfoldable pub evaluate :
      Intent → SolverConfig → EvaluateDeps → Option InFlightTracker → ℕ → Option FillDecision
  evaluate intent config deps in_flight now = elim (terminal_check intent config now) [
    | some c ↦ some (skip c true)
    | none ↦ elim (compute_proceeds intent deps) [
      | none ↦ some (skip pricing_error false)
      | some proceeds ↦ elim (deps.fee_estimator intent) [
        | none ↦ some (skip pricing_error false)
        | some fees ↦ elim (margin_check config proceeds (amount intent.min_dest_amount) fees) [
          | some d ↦ some d
          | none ↦ elim (balance_check intent config deps (committed intent in_flight)) [
            | none ↦ none
            | some (some d) ↦ some d
            | some none ↦ some (
                fill_with (profit_bps_scaled proceeds (amount intent.min_dest_amount) fees / 100)
                  (proceeds - amount intent.min_dest_amount - fees) fees)
          ]
        ]
      ]
    ]
  ]
