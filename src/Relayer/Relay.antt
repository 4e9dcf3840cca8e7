-- ===== src/Relayer/Relay.antt =====
-- relayer/src/relayer.ts: the state of a directional Relayer, `relayOne`, and the loop of `tick`
-- over the messages. The destination and the clock enter as an `Attempt` for each message. The
-- status report after a cancel is best-effort and changes no state of the relayer.
pub mod Resolved
pub mod Frame
pub mod Budget
use perihelion.Prelude.{
  ℕ, zero, suc, ◌+◌, ◌-◌, ◌*◌, ◌^◌, max, Bool, true, false, List, [], ◌∷◌, ◌++◌, Option, none, some,
  ltb, leb, if◌then◌else◌, ite,
}
use perihelion.Prelude.Result.{Result, ok, err}
use perihelion.Prelude.JsMap
use perihelion.Prelude.JsMap.{JsMap}
use perihelion.Prelude.Text.{Text, codes, text_key}
use perihelion.Sdk.Decimal.{to_text}
use perihelion.Relayer.Types.{MessageKey, PendingMessage, RelayResult, message_key_string, key_of}
use perihelion.Relayer.DeadLetter
use perihelion.Relayer.DeadLetter.{DeadLetterStore}
use perihelion.Relayer.Window.{BlockRecord}

pub record MessageRetryState : Type 0 where
  pub attempts : ℕ
  pub next_retry_at : ℕ

pub record RetryPolicy : Type 0 where
  pub max_attempts : ℕ
  pub base_backoff_ms : ℕ

pub record RelayMetrics : Type 0 where
  pub delivered : ℕ
  pub already_delivered : ℕ
  pub failed : ℕ
  pub dead_lettered : ℕ
  pub max_retry_depth : ℕ
  pub unresolved_messages : ℕ

pub record ReadinessState : Type 0 where
  pub cursor : ℕ
  pub head : ℕ
  pub confirmed_head : ℕ
  pub lag : ℕ

pub record Relayer : Type 0 where
  pub cursor : ℕ
  pub start_block : ℕ
  pub confirmations : ℕ
  pub retry : RetryPolicy
  pub attempts : JsMap Text MessageRetryState
  pub metrics : RelayMetrics
  pub block_window : List BlockRecord
  pub readiness : ReadinessState
  pub dead_letter : DeadLetterStore
  pub checkpoint : Option ℕ

-- What `isDelivered` and `deliver` give: a result, an error that is not fatal, or a FatalError.
pub data Outcome : Type 0 where
  already_delivered : Outcome
  delivered : Text → Outcome
  failed : Text → Outcome
  fatal : Text → Outcome

-- One turn of the loop: the clock at the backoff test, the outcome, the clock after a failure.
pub record Attempt : Type 0 where
  pub now : ℕ
  pub outcome : Outcome
  pub failed_at : ℕ

abbrev pub attempts_of : Option MessageRetryState → ℕ
attempts_of none = 0
attempts_of (some r) = r.attempts

abbrev pub next_retry_of : Option MessageRetryState → ℕ
next_retry_of none = 0
next_retry_of (some r) = r.next_retry_at

-- `retryState && Date.now() < retryState.nextRetryAt`.
abbrev pub is_deferred : Option MessageRetryState → ℕ → Bool
is_deferred none now = false
is_deferred (some r) now = ltb now r.next_retry_at

abbrev pub unresolved : MessageKey → Text → RelayResult
unresolved key error = record {
  intent_hash = key.intent_hash;
  key = key;
  delivered = false;
  resolved = false;
  already_delivered = false;
  dst_tx_hash = none;
  error = some error;
}

-- The same result, resolved.
abbrev pub resolved : MessageKey → Text → RelayResult
resolved key error = record (unresolved key error) { resolved = true }

-- The `catch` branch for an error that is not fatal.
unfoldable pub on_failure : PendingMessage → Text → ℕ → Relayer → Relayer × RelayResult
on_failure p error now s =
    let key = key_of p in
    let key_str = message_key_string key in
    let attempt = attempts_of (JsMap.get key_str s.attempts) + 1 in
    let backoff = s.retry.base_backoff_ms * 2 ^ (attempt - 1) in
    let attempts =
      JsMap.set key_str (record { attempts = attempt; next_retry_at = now + backoff }) s.attempts in
    let metrics = record s.metrics { max_retry_depth = max s.metrics.max_retry_depth attempt } in
    if leb s.retry.max_attempts attempt
    then (
      record s {
        attempts = JsMap.delete key_str attempts;
        dead_letter = DeadLetter.add key p attempt error now s.dead_letter;
        metrics = record metrics { dead_lettered = metrics.dead_lettered + 1 };
      },
      resolved key
          (codes "dead-lettered after " ++ to_text attempt ++ codes " attempts: " ++ error),
    )
    else (
      record s { attempts = attempts; metrics = record metrics { failed = metrics.failed + 1 } },
      unresolved key error,
    )

unfoldable pub relay_one : PendingMessage → Attempt → Relayer → Result Text (Relayer × RelayResult)
relay_one p a s =
    let key = key_of p in
    let key_str = message_key_string key in
    if DeadLetter.has key s.dead_letter
    then ok (s, resolved key (codes "dead-lettered"))
    else if is_deferred (JsMap.get key_str s.attempts) a.now
    then ok (
      s,
      unresolved key
          (codes "retry deferred until " ++ to_text (next_retry_of (JsMap.get key_str s.attempts))),
    )
    else elim a.outcome [
      | already_delivered ↦ ok (
        record s {
          attempts = JsMap.delete key_str s.attempts;
          metrics = record s.metrics { already_delivered = s.metrics.already_delivered + 1 };
        },
        record (resolved key []) { already_delivered = true; error = none },
      )
      | delivered tx ↦ ok (
        record s {
          attempts = JsMap.delete key_str s.attempts;
          metrics = record s.metrics { delivered = s.metrics.delivered + 1 };
        },
        record (resolved key []) { delivered = true; dst_tx_hash = some tx; error = none },
      )
      | failed error ↦ ok (on_failure p error a.failed_at s)
      | fatal error ↦ err error
    ]

-- The loop over the messages, those that are not yet final left out; the results in order.
-- `attempt_of` gives the turn of the message at each place. A fatal error ends the process.
unfoldable pub relay_all :
    ℕ → (ℕ → Attempt) → ℕ → List PendingMessage → Relayer → Result Text (Relayer × List RelayResult)
relay_all confirmed_head attempt_of i [] s = ok (s, [])
relay_all confirmed_head attempt_of i (p ∷ ps) s =
    if ltb confirmed_head p.src_block
    then relay_all confirmed_head attempt_of (i + 1) ps s
    else elim (relay_one p (attempt_of i) s) [
      | err e ↦ err e
      | ok (s', r) ↦ elim (relay_all confirmed_head attempt_of (i + 1) ps s') [
        | err e ↦ err e
        | ok (s'', rs) ↦ ok (s'', r ∷ rs)
      ]
    ]
