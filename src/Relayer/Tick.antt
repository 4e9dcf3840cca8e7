-- ===== src/Relayer/Tick.antt =====
-- relayer/src/relayer.ts: `tick`, one cycle of the relay loop, and `resume`. What the watcher
-- returns is a `Poll`; the destination and the clock enter as in `relayOne`.
pub mod Cursor
use perihelion.Prelude.{
  ℕ, ◌+◌, ◌-◌, min, max, Bool, true, false, ◌&&◌, List, [], ◌∷◌, Option, none, some, length, ltb,
  leb, ◌==◌, if◌then◌else◌, or_default, any, is_some, ite, not,
}
use perihelion.Prelude.Result.{Result, ok, err}
use perihelion.Prelude.JsMap
use perihelion.Prelude.JsMap.{JsMap}
use perihelion.Prelude.Text.{Text, text_key, text_eq}
use perihelion.Relayer.Types.{PendingMessage, RelayResult, message_key_string, key_string_of}
use perihelion.Relayer.Window.{BlockRecord, detect_reorg, record_headers}
use perihelion.Relayer.Relay.{Relayer, MessageRetryState, Attempt, relay_all}

pub record Poll : Type 0 where
  pub messages : List PendingMessage
  pub head : ℕ
  pub head_hash : Option Text
  pub parent_hash : Option Text
  pub block_headers : Option (List BlockRecord)

-- `(await this.checkpoint.load()) ?? this.startBlock`.
unfoldable pub resume : Relayer → Relayer
resume s =
    let cursor = or_default s.checkpoint s.start_block in
    record s { cursor = cursor; readiness = record s.readiness { cursor = cursor } }

-- `observedKeys.has(key)`.
abbrev pub observes : List PendingMessage → Text → Bool
observes ps k = any (λ p. text_eq (key_string_of p) k) ps

unfoldable pub prune :
    List PendingMessage → JsMap Text MessageRetryState → JsMap Text MessageRetryState
prune ps [] = []
prune ps ((k, r) ∷ m) = let rest = prune ps m in if observes ps k then (k, r) ∷ rest else rest

-- The map `resultByKey`.
unfoldable pub by_key : List RelayResult → JsMap Text RelayResult → JsMap Text RelayResult
by_key [] m = m
by_key (r ∷ rs) m = by_key rs (JsMap.set (message_key_string r.key) r m)

-- `result && !result.resolved`.
abbrev pub is_unresolved : Option RelayResult → Bool
is_unresolved none = false
is_unresolved (some r) = not r.resolved

-- `Math.min(lowest, n)`, where no number is Infinity.
abbrev pub min_with : Option ℕ → ℕ → ℕ
min_with none n = n
min_with (some l) n = min l n

-- The loop for `lowestUnresolved`.
unfoldable pub lowest_unresolved :
    ℕ → JsMap Text RelayResult → List PendingMessage → Option ℕ → Option ℕ
lowest_unresolved confirmed_head results [] lowest = lowest
lowest_unresolved confirmed_head results (p ∷ ps) lowest =
    lowest_unresolved confirmed_head results ps (
      if ltb confirmed_head p.src_block
      then lowest
      else if is_unresolved (JsMap.get (key_string_of p) results)
      then some (min_with lowest p.src_block)
      else lowest)

unfoldable pub count_unresolved : List RelayResult → ℕ
count_unresolved [] = 0
count_unresolved (r ∷ rs) = let rest = count_unresolved rs in if r.resolved then rest else rest + 1

-- The readiness figures, and the retry states of the messages that are still observed.
abbrev pub refresh : Poll → Relayer → Relayer
refresh poll s = record s {
  readiness = record {
    cursor = s.cursor;
    head = poll.head;
    confirmed_head = poll.head - s.confirmations;
    lag = poll.head - s.confirmations + 1 - s.cursor;
  };
  attempts = prune poll.messages s.attempts;
}

-- The cursor after the results are in, and what is saved.
abbrev pub advance : ℕ → Poll → List RelayResult → Relayer → Relayer
advance confirmed_head poll results s =
    let lowest = lowest_unresolved confirmed_head (by_key results []) poll.messages none in
    let cursor = max s.cursor (min_with lowest (confirmed_head + 1)) in
    record s {
      metrics = record s.metrics { unresolved_messages = count_unresolved results };
      cursor = cursor;
      readiness = record s.readiness { cursor = cursor };
      checkpoint = some cursor;
    }

-- The part of `tick` after the test for a reorganisation.
unfoldable pub process : (ℕ → Attempt) → Poll → Relayer → Result Text (Relayer × List RelayResult)
process attempt_of poll s =
    elim (relay_all (poll.head - s.confirmations) attempt_of 0 poll.messages (refresh poll s)) [
      | err e ↦ err e
      | ok (t, results) ↦ ok (advance (poll.head - s.confirmations) poll results t, results)
    ]

-- `recordHeaders` on the window of the relayer.
abbrev pub with_headers : Poll → Text → Text → Relayer → Relayer
with_headers poll head_hash parent_hash s = record s {
  block_window =
      record_headers s.confirmations poll.block_headers poll.head head_hash parent_hash
        s.block_window;
}

-- `reorgDepth > this.config.confirmations && !isLocalRollback`.
abbrev pub is_deep : ℕ → Poll → Relayer → Bool
is_deep depth poll s =
    ltb s.confirmations depth && not (poll.head == s.cursor && ltb 0 (length poll.messages))

abbrev pub roll_back : ℕ → Poll → Relayer → Relayer
roll_back depth poll s =
    let cursor = max s.start_block (poll.head - depth) in
    record s { cursor = cursor; readiness = record s.readiness { cursor = cursor } }

unfoldable pub tick : (ℕ → Attempt) → Poll → Relayer → Result Text (Relayer × List RelayResult)
tick attempt_of poll s = elim poll.head_hash [
  | none ↦ process attempt_of poll s
  | some head_hash ↦ elim poll.parent_hash [
    | none ↦ process attempt_of poll s
    | some parent_hash ↦
        let depth = detect_reorg s.start_block poll.head parent_hash s.block_window in
        if ltb 0 depth && not (is_deep depth poll s)
        then ok (with_headers poll head_hash parent_hash (roll_back depth poll s), [])
        else process attempt_of poll (with_headers poll head_hash parent_hash s)
  ]
]
