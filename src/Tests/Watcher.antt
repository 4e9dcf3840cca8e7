-- ===== src/Tests/Watcher.antt =====
-- A watcher on a chain with one lock, whose provider answers two blocks at a time.
use perihelion.Prelude.{
  ℕ, zero, suc, ◌+◌, ◌-◌, ◌≤◌, ◌≡◌, ◌≢◌, refl, inl, inr, ◌++◌, true, List, [], ◌∷◌, Option, none,
  some, length, take, drop, ltb, ◌==◌, if◌then◌else◌, if-eq, Bool-cases, arith,
}
use perihelion.Prelude.Int.{ℤ, pos}
use perihelion.Prelude.Text.{
  Text, codes, is_hex_digit, is_digit, all_units, text_discrete, includes, to_lower_case,
  lower_unit,
}
use perihelion.Prelude.Result.{Result, err, ok}
use perihelion.Sdk.Bytes.{hex_bytes}
use perihelion.Relayer.Wire.{is_hex_string, canonical_fill_instruction}
use perihelion.Relayer.Wire.Layout.{canonical_fill_instruction-IsLayout, IsLayout}
use perihelion.Relayer.EvmWatcher.{
  Log, LockedData, ReceiptLog, Config, decode_locked_log_with_nonce, decode_locked_log, locked_at,
}
use perihelion.Relayer.EvmWatcher.Poll.{
  out_of_fuel, Scan, is_provider_range_error, process_log, process_logs, scan, has_left, is_least,
}
use perihelion.Relayer.EvmWatcher.Poll.Rounds.{logs_in}
use perihelion.Relayer.EvmWatcher.Poll.Scanning.{Serves, scan-run}
use perihelion.Relayer.EvmWatcher.Poll.Progress.{AnswersUpTo, scan-ends, scan-succeeds}
use perihelion.Relayer.EvmWatcher.Poll.Numbering.{
  count_up, nonces_of, last_nonce, process_logs-nonces,
}
use perihelion.Relayer.SorobanWatcher.{
  poll, resolve_start_ledger, Event, MessageType, string, decode_all,
}
use perihelion.Relayer.SorobanWatcher.Windows.{
  Reading, Windows, events_in, events_of, end_of, Sparse, polls, polls-events,
}

abbrev hash_text : Text
hash_text = codes "0x00112233445566778899aabbccddeeff00112233445566778899aabbccddeeff"

abbrev solver_text : Text
solver_text = codes "0x00112233445566778899aabbccddeeff00112233"

abbrev solver_topic : Text
solver_topic = codes "0x00000000000000000000000000112233445566778899aabbccddeeff00112233"

abbrev plain : Text → List ℕ
plain s = s

abbrev locked : Text → Option LockedData
locked d = some (record {
  destination = codes "G";
  dest_asset = codes "native";
  min_dest_amount = pos 900;
  deadline = pos 1000;
})

abbrev no_packet : Text → Option Text
no_packet d = none

abbrev no_receipt : Text → Option (List ReceiptLog)
no_receipt tx = none

abbrev config : Config
config = record { source_eid = 1; stellar_eid = 2; endpoint_address = none; nonce_counter = none }

abbrev lock_log : Log
lock_log = record {
  block_number = some 3;
  transaction_hash = some (codes "0xcc");
  log_index = some 0;
  event_name = none;
  topics = codes "0x1" ∷ hash_text ∷ solver_topic ∷ codes "0x2" ∷ [];
  payload = [];
}

abbrev chain : ℕ → List Log
chain n = if n == 3 then lock_log ∷ [] else []

abbrev provider : ℕ → ℕ → ℕ → Result (Option Text) (List Log)
provider i from to =
    if ltb 2 (to + 1 - from)
    then err (some (codes "block range too large"))
    else ok (logs_in chain from (to + 1 - from))

provider-Serves : Serves chain provider
provider-Serves i from to logs e = elim (if-eq (ltb 2 (to + 1 - from)) e) [
  | inl (_, f) ↦ cc
  | inr (_, f) ↦ cc
]

refused_range : is_provider_range_error (some (codes "block range too large")) ≡ true
unfolding is_provider_range_error includes to_lower_case lower_unit text_discrete
refused_range = refl

provider_answers : AnswersUpTo 2 chain provider
provider_answers i from to = elim (Bool-cases (ltb 2 (to + 1 - from))) [
  | inl e ↦ rw e (inr (ground arith, (_, refl, refused_range)))
  | inr e ↦ rw e (inl refl)
]

abbrev start : Scan
start = record { nonces = record { fallback = []; counter_calls = 0 }; blocks = []; messages = [] }

abbrev or_start : {E : Type 0} → Result E Scan → Scan
or_start (err e) = start
or_start (ok s) = s

abbrev after : Scan
after = or_start (process_log plain locked no_packet no_receipt config lock_log start)

log_decodes : process_log plain locked no_packet no_receipt config lock_log start ≡ ok after
unfolding process_log decode_locked_log_with_nonce decode_locked_log locked_at
    canonical_fill_instruction is_hex_string text_discrete all_units is_hex_digit is_digit
log_decodes = refl

scanned : scan plain locked no_packet no_receipt config provider 10 0 1 4 5 start ≡ ok (2, after)
unfolding scan has_left is_provider_range_error is_least process_logs logs_in process_log
    decode_locked_log_with_nonce decode_locked_log canonical_fill_instruction is_hex_string
    is_hex_digit
scanned = refl

chain_runs :
    process_logs plain locked no_packet no_receipt config (logs_in chain 1 (4 + 1 - 1)) start
    ≡ ok after
unfolding process_logs logs_in process_log decode_locked_log_with_nonce decode_locked_log
    canonical_fill_instruction is_hex_string is_hex_digit
chain_runs = refl

scan-run_example :
    process_logs plain locked no_packet no_receipt config (logs_in chain 1 (4 + 1 - 1)) start
    ≡ ok after
scan-run_example =
    scan-run plain locked no_packet no_receipt config provider chain 10 0 1 4 5 start after 2
      provider-Serves (omega arith) scanned

scan-ends_example :
    scan plain locked no_packet no_receipt config provider 9 0 1 4 5 start
    ≢ err (out_of_fuel, 2, start.nonces)
scan-ends_example =
    scan-ends plain locked no_packet no_receipt config provider 9 0 1 4 5 start 2 start.nonces
      (omega arith) (omega arith)

scan-succeeds_example :
    (final : ℕ) × (scan plain locked no_packet no_receipt config provider 9 0 1 4 5 start
      ≡ ok (final, after))
scan-succeeds_example =
    scan-succeeds plain locked no_packet no_receipt config provider 2 chain 9 0 1 4 5 start after
      (omega arith) provider_answers (omega arith) (omega arith) chain_runs

one_log : process_logs plain locked no_packet no_receipt config (lock_log ∷ []) start ≡ ok after
unfolding process_logs process_log decode_locked_log_with_nonce decode_locked_log
    canonical_fill_instruction is_hex_string is_hex_digit
one_log = refl

process_logs-nonces_example :
    (nonces_of after.messages
      ≡ nonces_of start.messages ++ count_up (last_nonce config start.nonces) 1)
    × (last_nonce config after.nonces ≡ last_nonce config start.nonces + 1)
process_logs-nonces_example =
    process_logs-nonces plain locked no_packet no_receipt config refl refl (lock_log ∷ []) start
      after one_log

abbrev text_of : {E : Type 0} → Result E Text → Text
text_of (err e) = []
text_of (ok t) = t

abbrev instruction : Text
instruction = text_of (
    canonical_fill_instruction plain hash_text solver_text 2 (codes "G") (codes "native") (pos 900)
      (pos 1000))

instruction_built :
    canonical_fill_instruction plain hash_text solver_text 2
      (codes "G")
      (codes "native")
      (pos 900)
      (pos 1000)
    ≡ ok instruction
unfolding canonical_fill_instruction is_hex_string text_discrete all_units is_hex_digit is_digit
instruction_built = refl

canonical_fill_instruction-IsLayout_example :
    (out : List ℕ) × IsLayout instruction
      (hex_bytes (drop 2 hash_text))
      (hex_bytes (drop 2 solver_text))
      2
      (codes "G")
      (codes "native")
      out
      (pos 900)
      (pos 1000)
canonical_fill_instruction-IsLayout_example =
    canonical_fill_instruction-IsLayout plain hash_text solver_text 2 (codes "G") (codes "native")
      (pos 900) (pos 1000) instruction instruction_built

-- Polls of the Soroban watcher, the second of which fails.
abbrev soroban_event : Event
soroban_event = record {
  topics = string (codes "FillConfirmed") ∷ string (codes "0xaa") ∷ [];
  value = string (codes "0x0102");
  ledger = 6;
  tx_hash = codes "0xee";
}

abbrev ledgers : ℕ → List Event
ledgers n = if n == 6 then soroban_event ∷ [] else []

abbrev server : ℕ → ℕ → ℕ → Result Text (List Event)
server from to limit = ok (take limit (events_in ledgers from (to - from)))

abbrev readings : List Reading
readings = (ok 7, server) ∷ (err (codes "rpc"), server) ∷ (ok 8, server) ∷ []

abbrev no_type : ℤ → Option MessageType
no_type n = none

at_most_one : (from count : ℕ) → length (events_in ledgers from count) ≤ count
unfolding events_in
at_most_one from zero = omega arith
at_most_one from (suc count) = elim (Bool-cases (from == 6)) [
  | inl e ↦ rw e (omega (arith, at_most_one (from + 1) count))
  | inr e ↦ rw e (omega (arith, at_most_one (from + 1) count))
]

sparse : Sparse ledgers 4
sparse from count h = omega (arith, at_most_one from count)

polls-events_example :
    (ns : List ℕ) × (polls no_type plain none 4 readings 5
      ≡ (decode_all no_type plain (events_of ledgers 5 ns), end_of 5 ns))
    × Windows no_type plain none 4 readings 5 ns
polls-events_example =
    polls-events no_type plain none 4 ledgers readings 5
      (
        (λ from to limit events e. cc),
        ((λ from to limit events e. cc), ((λ from to limit events e. cc), tt)),
      )
      sparse (omega arith) (omega arith) (omega arith, (omega arith, tt))

-- A watcher that keeps up with the chain, a ledger at a time, passes the event of ledger 6.
missed :
    polls no_type plain none 4 ((ok 5, server) ∷ (ok 6, server) ∷ (ok 7, server) ∷ []) 5 ≡ ([], 8)
unfolding polls poll resolve_start_ledger decode_all events_in
missed = refl
