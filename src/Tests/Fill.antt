-- ===== src/Tests/Fill.antt =====
-- A fill decision, a refusal that stays, the reservations and the seen set.
use perihelion.Prelude.{ℕ, ◌≡◌, refl, Bool, true, false, [], ◌∷◌, none, some, arith, leb}
use perihelion.Prelude.Int.{pos, ◌-ℤ◌}
use perihelion.Prelude.JsMap
use perihelion.Prelude.Text.{Text, codes, text_discrete, text_key}
use perihelion.Sdk.Types.{Intent}
use perihelion.Sdk.Decimal.{digits_value}
use perihelion.Sdk.Expiry.{is_expired}
use perihelion.Solver.SeenLru.{SeenLru, add, has}
use perihelion.Solver.SeenLru.Laws.{Inv, add_lem}
use perihelion.Solver.InFlight.{InFlightTracker}
use perihelion.Solver.Quote.{
  SolverConfig, EvaluateDeps, FillDecision, evaluate, amount, compute_proceeds, rescale, fill_with,
  skip, expired, terminal_check, margin_check, balance_check, has_native, is_solver_eligible,
  committed,
}
use perihelion.Solver.Quote.Fills.{Open, Profitable, Funded, evaluate-fill, evaluate-terminal}

abbrev any_address : Text → Bool
any_address s = true

abbrev same_address : Text → Text → Bool
same_address s t = true

abbrev zero_address : Text
zero_address = codes "0x0"

abbrev intent : Intent
intent = record {
  user = codes "0xb0";
  destination = codes "G";
  source_chain_id = 1;
  source_asset = codes "0xusdc";
  source_amount = codes "1000";
  dest_asset = codes "native";
  min_dest_amount = codes "950";
  deadline = 5000;
  nonce = codes "7";
  preferred_solver = codes "0x0";
}

abbrev config : SolverConfig
config = record {
  source_chain_id = 1;
  solver_address = codes "0x50";
  supported_dest_assets = codes "native" ∷ [];
  min_margin_bps = 10;
  max_plausible_profit_bps = none;
  source_native_fee_floor = 5;
  stellar_native_fee_floor = 5;
}

abbrev deps : EvaluateDeps
deps = record {
  decimals_lookup = λ a. some 6;
  price_oracle = λ a b. some (pos 1000000000000000000);
  fee_estimator = λ i. some 10;
  available_balance = some (λ a. some 2000);
  native_balance_source = some (some 9);
  source_native_cost = none;
  native_balance_dest = none;
  dest_native_cost = none;
}

abbrev filled : FillDecision
filled = fill_with 400 40 10

evaluate_fills :
    evaluate any_address same_address zero_address intent config deps none 100 ≡ some filled
unfolding evaluate terminal_check is_expired ◌-ℤ◌ is_solver_eligible text_discrete compute_proceeds
    rescale margin_check balance_check has_native digits_value
evaluate_fills = refl

evaluate-fill_example :
    Open any_address same_address zero_address intent config 100
    × ((proceeds : ℕ) × (fees : ℕ) × (compute_proceeds intent deps ≡ some proceeds)
        × (deps.fee_estimator intent ≡ some fees)
        × Profitable config proceeds (amount intent.min_dest_amount) fees)
    × Funded intent config deps (committed intent none)
evaluate-fill_example =
    evaluate-fill any_address same_address zero_address intent config deps none 100 filled
      evaluate_fills refl

evaluate_skips :
    evaluate any_address same_address zero_address intent config deps none 4000
    ≡ some (skip expired true)
unfolding evaluate terminal_check is_expired ◌-ℤ◌
evaluate_skips = refl

abbrev no_prices : EvaluateDeps
no_prices = record deps { price_oracle = λ a b. none }

evaluate-terminal_example :
    (false ≡ false)
    × ((d : FillDecision) × (evaluate any_address same_address zero_address intent config no_prices
            none 4100
          ≡ some d)
        × (d.fill ≡ false)
        × (d.terminal ≡ true))
evaluate-terminal_example =
    evaluate-terminal any_address same_address zero_address intent config deps no_prices none none
      4000 4100 (skip expired true) evaluate_skips refl (omega arith)

abbrev tracker : InFlightTracker
tracker = record { reserved = (codes "native", 30) ∷ []; held = (codes "native", 5) ∷ [] }

abbrev native : Text
native = codes "native"

abbrev seen : SeenLru
seen = record {
  cache = (codes "0x01", record { inserted_at = 1; deadline_ms = 90 }) ∷ [];
  max_size = 1;
}

seen-Inv : Inv seen
unfolding JsMap.get
seen-Inv = record { distinct = (refl, tt); bounded = omega arith }

add_lem_example :
    Inv (add (codes "0x02") 80 50 seen)
    × ((has (codes "0x02") 60 (add (codes "0x02") 80 50 seen)).1 ≡ leb 60 80)
add_lem_example = add_lem (codes "0x02") 80 50 60 seen seen-Inv
