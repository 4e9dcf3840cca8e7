-- ===== src/Relayer/EvmWatcher/Poll.antt =====
-- `poll` of relayer/src/evm-watcher.ts with no refund callback configured. The RPC client is given
-- by its answers; `get_logs i from to` is the i-th. The range of a request is at least 1: with 0 the
-- source would ask for ever. The headers are fetched ten at a time and stand in the blocks' order,
-- so the model fetches them one by one.
pub mod Rounds
pub mod Scanning
pub mod Progress
pub mod Numbering
use perihelion.Prelude.{
  ℕ, zero, suc, ◌+◌, ◌-◌, ◌/◌, min, max, Bool, true, false, ◌||◌, List, [], ◌∷◌, ◌++◌, Option, none,
  some, length, ltb, leb, ◌==◌, if◌then◌else◌, any,
}
use perihelion.Prelude.Text.{Text, codes, to_lower_case, includes}
use perihelion.Prelude.Result.{Result, err, ok, ◌>>=◌}
use perihelion.Relayer.Types.{PendingMessage}
use perihelion.Relayer.Window.{BlockRecord}
use perihelion.Relayer.Tick.{Poll}
use perihelion.Relayer.EvmWatcher.{
  Log, LockedData, ReceiptLog, Config, Nonces, Watcher, decode_locked_log_with_nonce,
}

-- What the loop throws, and that the model's fuel ran out.
pub data Failure : Type 0 where
  thrown : Text → Failure
  out_of_fuel : Failure

pub record Scan : Type 0 where
  pub nonces : Nonces
  pub blocks : List ℕ
  pub messages : List PendingMessage

-- The argument is the message of an `Error`, `none` any other value.
unfoldable pub is_provider_range_error : Option Text → Bool
unfolding includes to_lower_case
is_provider_range_error none = false
is_provider_range_error (some message) =
    let msg = to_lower_case message in
    includes (codes "range") msg || includes (codes "too large") msg || includes (codes "limit") msg

abbrev pub message_of : Option Text → Text
message_of none = []
message_of (some t) = t

-- `blocksWithMessages.add(n)`.
unfoldable pub add_block : Option ℕ → List ℕ → List ℕ
add_block none blocks = blocks
add_block (some n) blocks = if any (λ b. b == n) blocks then blocks else blocks ++ n ∷ []

-- The tests of the loop, shut so that one branch at a time is computed.
unfoldable pub has_left : ℕ → ℕ → Bool
has_left scan_head head = leb scan_head head

unfoldable pub is_least : ℕ → Bool
is_least range = leb range 1

-- A block costs one request, and every other request lowers the range.
abbrev pub scan_fuel : ℕ → ℕ → ℕ → ℕ
scan_fuel from head range = head + 1 - from + range

module _ (utf8 : Text → List ℕ) (decode_locked : Text → Option LockedData)
    (decode_packet : Text → Option Text) (receipt : Text → Option (List ReceiptLog))
    (config : Config) where
  -- One round of the loop over the logs of a chunk.
  unfoldable pub process_log : Log → Scan → Result (Failure × Nonces) Scan
  process_log log s =
      elim (decode_locked_log_with_nonce utf8 decode_locked decode_packet receipt config log
        s.nonces) [
          | err e ↦ err (thrown e, s.nonces)
          | ok none ↦ err (thrown (codes "Failed to decode Locked event"), s.nonces)
          | ok (some (pending, nonces)) ↦ ok (record {
            nonces = nonces;
            blocks = add_block log.block_number s.blocks;
            messages = s.messages ++ pending ∷ [];
          })
        ]

  unfoldable pub process_logs : List Log → Scan → Result (Failure × Nonces) Scan
  process_logs [] s = ok s
  process_logs (log ∷ logs) s = process_log log s >>= process_logs logs

  module _ (get_logs : ℕ → ℕ → ℕ → Result (Option Text) (List Log)) where
    -- The loop `while (scanHead <= head)`; with the result comes `this.maxBlockRange`.
    unfoldable pub scan : ℕ → ℕ → ℕ → ℕ → ℕ → Scan → Result (Failure × ℕ × Nonces) (ℕ × Scan)
    scan zero i scan_head head range s =
        if has_left scan_head head then err (out_of_fuel, range, s.nonces) else ok (range, s)
    scan (suc fuel) i scan_head head range s = elim (has_left scan_head head) [
      | false ↦ ok (range, s)
      | true ↦
          let to_block = min (scan_head + range - 1) head in
          elim (get_logs i scan_head to_block) [
            | err e ↦ elim (is_provider_range_error e) [
              | false ↦ err (thrown (message_of e), range, s.nonces)
              | true ↦ elim (is_least range) [
                | true ↦ err (thrown (message_of e), range, s.nonces)
                | false ↦ scan fuel (i + 1) scan_head head (max 1 (range / 2)) s
              ]
            ]
            | ok logs ↦ elim (process_logs logs s) [
              | err (f, nonces) ↦ err (f, range, nonces)
              | ok t ↦ scan fuel (i + 1) (to_block + 1) head range t
            ]
          ]
    ]

    module _ (get_block_number : Result Text ℕ)
        (get_block : ℕ → Result Text (Option Text × Option Text)) where
      -- The headers of the blocks with messages, less those without hashes.
      unfoldable pub block_headers : List ℕ → Result Text (List BlockRecord)
      block_headers [] = ok []
      block_headers (n ∷ ns) = elim (get_block n) [
        | err e ↦ err e
        | ok (hash, parent) ↦ elim (block_headers ns) [
          | err e ↦ err e
          | ok rest ↦ elim hash [
            | none ↦ ok rest
            | some [] ↦ ok rest
            | some (c ∷ h) ↦ elim parent [
              | none ↦ ok rest
              | some [] ↦ ok rest
              | some (d ∷ p) ↦ ok (record { number = n; hash = c ∷ h; parent_hash = d ∷ p } ∷ rest)
            ]
          ]
        ]
      ]

      abbrev if_any : List BlockRecord → Option (List BlockRecord)
      if_any [] = none
      if_any (h ∷ hs) = some (h ∷ hs)

      -- The headers are fetched only if the head has both hashes.
      unfoldable pub headers_for :
          Option Text → Option Text → List ℕ → Result Text (List BlockRecord)
      headers_for none parent blocks = ok []
      headers_for (some h) none blocks = ok []
      headers_for (some h) (some p) blocks = block_headers blocks

      unfoldable pub poll : ℕ → Watcher → Result (Failure × Watcher) (Poll × Watcher)
      poll from w = elim get_block_number [
        | err e ↦ err (thrown e, w)
        | ok head ↦ elim (get_block head) [
          | err e ↦ err (thrown e, w)
          | ok (hash, parent) ↦
              elim (scan (scan_fuel from head w.max_block_range) 0 from head w.max_block_range
                (record { nonces = w.nonces; blocks = []; messages = [] })) [
                  | err (f, range, nonces) ↦
                      err (f, record { max_block_range = range; nonces = nonces })
                  | ok (range, s) ↦
                      let v : Watcher = record { max_block_range = range; nonces = s.nonces } in
                      elim (headers_for hash parent s.blocks) [
                        | err e ↦ err (thrown e, v)
                        | ok headers ↦ ok (
                          record {
                            messages = s.messages;
                            head = head;
                            head_hash = hash;
                            parent_hash = parent;
                            block_headers = if_any headers;
                          },
                          v,
                        )
                      ]
                ]
        ]
      ]
