-- ===== src/Tests/Loop.antt =====
-- The solver's loop on one record whose fill times out.
use perihelion.Prelude.{◌+◌, ◌≤◌, ◌<◌, ◌≡◌, true, [], ◌∷◌, none, some, arith}
use perihelion.Prelude.Text.{Text, codes}
use perihelion.Solver.SeenLru
use perihelion.Solver.SeenLru.Laws.{Inv}
use perihelion.Solver.InFlight.{active_reserved_for, reserved_for}
use perihelion.Solver.Quote.{fill_with}
use perihelion.Solver.Caches.{max_fill_retries}
use perihelion.Solver.Consider.{Solver, Turn, indefinite, schedule_retry, tick}
use perihelion.Solver.Consider.Committed.{batch, tick-active}
use perihelion.Solver.Consider.Retries.{retries_of, schedule_retry_lem}

abbrev native : Text
native = codes "native"

abbrev turn : Turn
turn = record {
  intent = record {
    user = codes "0xb0";
    destination = codes "G";
    source_chain_id = 1;
    source_asset = codes "0xc0";
    source_amount = codes "1000";
    dest_asset = native;
    min_dest_amount = codes "950";
    deadline = 5000;
    nonce = codes "7";
    preferred_solver = codes "0x0";
  };
  signature = codes "0xab";
  hash = codes "0x01";
  recomputed_hash = codes "0x01";
  verdict = true;
  decide = λ t. some (fill_with 400 40 10);
  outcome = indefinite;
  now = 1000;
}

abbrev solver : Solver
solver = record {
  seen = record { cache = []; max_size = 10 };
  retry_state = record { cache = []; max_size = 10 };
  verification_cache = record { cache = []; max_size = 10 };
  in_flight = record { reserved = (native, 30) ∷ []; held = [] };
  consecutive_implausible_triggers = 0;
  max_implausible_profit_triggers = none;
  domain = record { chain_id = 1; verifying_contract = codes "0xe5" };
}

tick-active_example :
    (active_reserved_for native (tick 900 950 (some (turn ∷ turn ∷ [])) solver).0.in_flight
      ≡ active_reserved_for native solver.in_flight)
    × (active_reserved_for native solver.in_flight
        ≤ reserved_for native (tick 900 950 (some (turn ∷ turn ∷ [])) solver).0.in_flight)
    × (reserved_for native (tick 900 950 (some (turn ∷ turn ∷ [])) solver).0.in_flight
        ≤ active_reserved_for native solver.in_flight + batch native (turn ∷ turn ∷ []))
tick-active_example = tick-active native 900 950 (some (turn ∷ turn ∷ [])) solver

none_seen : Inv solver.seen
none_seen = record { distinct = tt; bounded = omega arith }

schedule_retry_lem_example :
    (retries_of (codes "0x01") 1000 solver < max_fill_retries
      → retries_of (codes "0x01") 2000 (schedule_retry (codes "0x01") 9000 1000 solver)
        ≡ retries_of (codes "0x01") 1000 solver + 1)
    × (max_fill_retries ≤ retries_of (codes "0x01") 1000 solver
        → (retries_of (codes "0x01") 2000 (schedule_retry (codes "0x01") 9000 1000 solver) ≡ 0)
          × ((SeenLru.has
                (codes "0x01")
                2000
                (schedule_retry (codes "0x01") 9000 1000 solver).seen).1
              ≡ true))
schedule_retry_lem_example =
    schedule_retry_lem (codes "0x01") 9000 1000 2000 solver none_seen (omega arith)
