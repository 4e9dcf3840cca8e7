-- ===== src/Tests/Relay.antt =====
-- A relayer with one message, whose delivery fails: ticks, the retry budget, a reorganisation.
use perihelion.Prelude.{
  ℕ, ◌+◌, ◌-◌, ◌≤◌, ◌<◌, ◌≡◌, refl, max, true, List, [], ◌∷◌, none, some, arith,
}
use perihelion.Prelude.Result.{Result, ok, err}
use perihelion.Prelude.JsMap
use perihelion.Prelude.Text.{Text, codes, text_key, text_discrete}
use perihelion.Sdk.Decimal.{to_text, print_loop}
use perihelion.Relayer.Types.{
  PendingMessage, fill_instruction, key_string_of, RelayResult, message_key_string,
}
use perihelion.Relayer.Types.{key_of}
use perihelion.Relayer.Types.Keys.{has_no_colon, message_key_string-injective}
use perihelion.Relayer.Backoff.{BackoffState}
use perihelion.Relayer.DeadLetter
use perihelion.Relayer.Window.{BlockRecord, record_block, detect_reorg, find_block, walk_back}
use perihelion.Relayer.Relay.{Relayer, Attempt, failed, relay_all, relay_one, on_failure}
use perihelion.Relayer.Relay.Resolved.{Settled}
use perihelion.Relayer.Relay.Budget.{count_of, fail_times, fail_times-budget}
use perihelion.Relayer.Tick.{
  Poll, process, tick, prune, by_key, lowest_unresolved, count_unresolved,
}
use perihelion.Relayer.Tick.Cursor.{AllHeld, process_safe}

abbrev message : PendingMessage
message = record {
  message = record {
    src_eid = 1;
    dst_eid = 2;
    intent_hash = codes "0xaa";
    message_type = fill_instruction;
    solver = codes "0xb0";
    recipient = codes "G";
    dest_asset = codes "native";
    amount = codes "900";
    nonce = 3;
    deadline = 1000;
    raw_payload = codes "0x00";
  };
  src_tx_hash = codes "0xcc";
  src_block = 50;
  src_block_hash = none;
}

abbrev block : ℕ → BlockRecord
block n = record { number = n; hash = codes "0x1"; parent_hash = codes "0x0" }

abbrev relayer : Relayer
relayer = record {
  cursor = 45;
  start_block = 10;
  confirmations = 12;
  retry = record { max_attempts = 3; base_backoff_ms = 500 };
  attempts = [];
  metrics = record {
    delivered = 0;
    already_delivered = 0;
    failed = 0;
    dead_lettered = 0;
    max_retry_depth = 0;
    unresolved_messages = 0;
  };
  block_window = block 99 ∷ [];
  readiness = record { cursor = 45; head = 0; confirmed_head = 0; lag = 0 };
  dead_letter = [];
  checkpoint = none;
}

abbrev fails : ℕ → Attempt
fails i = record { now = 1000; outcome = failed (codes "rpc"); failed_at = 1001 }

abbrev poll : Poll
poll = record {
  messages = message ∷ [];
  head = 100;
  head_hash = some (codes "0x9");
  parent_hash = some (codes "0x8");
  block_headers = none;
}

abbrev state_of : Result Text (Relayer × List RelayResult) → Relayer × List RelayResult
state_of (ok z) = z
state_of (err e) = (relayer, [])

abbrev processed : Relayer × List RelayResult
processed = state_of (process fails poll relayer)

process_runs : process fails poll relayer ≡ ok processed
unfolding process relay_all relay_one on_failure prune DeadLetter.has JsMap.get JsMap.set
    text_discrete message_key_string to_text print_loop by_key lowest_unresolved count_unresolved
process_runs = refl

-- The message at block 50 fails and holds the cursor there.
process_holds : processed.0.cursor ≡ 50
unfolding process relay_all relay_one on_failure prune DeadLetter.has JsMap.get JsMap.set
    text_discrete message_key_string to_text print_loop by_key lowest_unresolved count_unresolved
process_holds = refl

process_safe_example :
    (45 ≤ processed.0.cursor)
    × (processed.0.cursor ≤ max 45 (100 - 12 + 1))
    × (processed.0.checkpoint ≡ some processed.0.cursor)
    × AllHeld
        (100 - 12)
        45
        processed.0.cursor
        (λ k. Settled k fails 0 poll.messages processed.0)
        poll.messages
process_safe_example = process_safe fails poll relayer processed.0 processed.1 process_runs

-- With the cursor held at block 45 the reorganisation at the head moves it to 99.
abbrev ticked : Relayer × List RelayResult
ticked = state_of (tick fails poll relayer)

rolled_back : tick fails poll relayer ≡ ok ticked
unfolding tick detect_reorg find_block walk_back text_discrete record_block
rolled_back = refl

moved_forward :
    (ticked.1 ≡ []) × (ticked.0.cursor ≡ 99) × (ticked.0.checkpoint ≡ relayer.checkpoint)
unfolding tick detect_reorg find_block walk_back text_discrete record_block
moved_forward = (refl, refl, refl)

abbrev rpc_error : ℕ → Text × ℕ
rpc_error n = (codes "rpc", 1001)

fresh : count_of (key_string_of message) relayer ≡ 0
unfolding JsMap.get
fresh = refl

fail_times-budget_example :
    ((n : ℕ)
      → n < 3
      → (count_of (key_string_of message) (fail_times n message rpc_error relayer) ≡ n)
        × ((fail_times n message rpc_error relayer).dead_letter ≡ relayer.dead_letter))
    × (JsMap.get (key_string_of message) (fail_times 3 message rpc_error relayer).attempts ≡ none)
    × (JsMap.has (key_string_of message) (fail_times 3 message rpc_error relayer).dead_letter
        ≡ true)
fail_times-budget_example = fail_times-budget message rpc_error relayer fresh (omega arith)

abbrev backoff : BackoffState
backoff = record {
  poll_interval_ms = 1000;
  failures = 3;
  max_jitter_ms = 250;
  backoff_multiplier = 2;
  max_backoff_ms = 60000;
}

no_colon : has_no_colon (codes "0xaa") ≡ true
unfolding has_no_colon
no_colon = refl

message_key_string-injective_example :
    ((key_of message).src_eid ≡ (key_of message).src_eid)
    × ((key_of message).dst_eid ≡ (key_of message).dst_eid)
    × ((key_of message).intent_hash ≡ codes "0xaa")
    × ((key_of message).message_type ≡ fill_instruction)
    × ((key_of message).nonce ≡ (key_of message).nonce)
message_key_string-injective_example =
    message_key_string-injective (key_of message) (key_of message) no_colon no_colon refl
