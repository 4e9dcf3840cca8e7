-- ===== src/Solver/Caches.antt =====
-- solver/src/solver.ts: VerificationCache, RetryStateLRU, `seenTtlMs` and `retryBackoff`. The clock
-- is an argument, in milliseconds.
use perihelion.Prelude.{
  ℕ, ◌+◌, ◌*◌, ◌^◌, max, Bool, false, [], ◌∷◌, ◌++◌, Option, none, some, length, ltb, leb,
  if◌then◌else◌,
}
use perihelion.Prelude.JsMap
use perihelion.Prelude.JsMap.{JsMap}
use perihelion.Prelude.Text.{Text, text_key}
use perihelion.Sdk.Decimal.{to_text}
use perihelion.Sdk.Signature.{Domain}

abbrev pub negative_verification_ttl_ms : ℕ
negative_verification_ttl_ms = 60000

abbrev pub max_fill_retries : ℕ
max_fill_retries = 3

abbrev pub min_seen_ttl_ms : ℕ
min_seen_ttl_ms = 600000

unfoldable pub verification_cache_key : Domain → Text → Text → Text
verification_cache_key domain hash signature =
    to_text domain.chain_id
    ++ b':' ∷ (domain.verifying_contract ++ b':' ∷ (hash ++ b':' ∷ signature))

pub record CacheEntry : Type 0 where
  pub valid : Bool
  pub expires_at : Option ℕ

pub record VerificationCache : Type 0 where
  pub cache : JsMap Text CacheEntry
  pub max_size : ℕ

-- `entry.expiresAt !== undefined && now > entry.expiresAt`.
abbrev pub is_stale : ℕ → Option ℕ → Bool
is_stale now none = false
is_stale now (some t) = ltb t now

unfoldable pub cached : Text → ℕ → VerificationCache → VerificationCache × Option Bool
cached key now c = elim (JsMap.get key c.cache) [
  | none ↦ (c, none)
  | some e ↦
      if is_stale now e.expires_at
      then (record c { cache = JsMap.delete key c.cache }, none)
      else (record c { cache = JsMap.set key e (JsMap.delete key c.cache) }, some e.valid)
]

-- `this.cache.delete(oldest)` for the entry that was inserted first.
unfoldable pub drop_oldest : {V : Type 0} → JsMap Text V → JsMap Text V
drop_oldest [] = []
drop_oldest ((k, v) ∷ m) = JsMap.delete k ((k, v) ∷ m)

unfoldable pub cache_verdict : Text → Bool → ℕ → VerificationCache → VerificationCache
cache_verdict key valid now c =
    let full = if JsMap.has key c.cache then false else leb c.max_size (length c.cache) in
    let room = if full then drop_oldest c.cache else c.cache in
    record c {
      cache =
          JsMap.set key
            (record {
              valid = valid;
              expires_at = if valid then none else some (now + negative_verification_ttl_ms);
            })
            room;
    }

-- The deadline is finite, as a validated intent has it.
unfoldable pub seen_ttl_ms : ℕ → ℕ → ℕ
seen_ttl_ms deadline now = max (deadline * 1000) (now + min_seen_ttl_ms)

unfoldable pub retry_backoff : ℕ → ℕ
retry_backoff attempt = 1000 * 2 ^ attempt

pub record RetryEntry : Type 0 where
  pub attempts : ℕ
  pub next_retry_at : ℕ
  pub deadline_ms : ℕ

pub record RetryStateLru : Type 0 where
  pub cache : JsMap Text RetryEntry
  pub max_size : ℕ

unfoldable pub get_retry : Text → ℕ → RetryStateLru → RetryStateLru × Option RetryEntry
get_retry hash now l = elim (JsMap.get hash l.cache) [
  | none ↦ (l, none)
  | some e ↦
      if ltb e.deadline_ms now
      then (record l { cache = JsMap.delete hash l.cache }, none)
      else (record l { cache = JsMap.set hash e (JsMap.delete hash l.cache) }, some e)
]

unfoldable pub set_retry : Text → RetryEntry → RetryStateLru → RetryStateLru
set_retry hash e l =
    let cleared = JsMap.delete hash l.cache in
    let room = if leb l.max_size (length cleared) then drop_oldest cleared else cleared in
    record l { cache = JsMap.set hash e room }

unfoldable pub delete_retry : Text → RetryStateLru → RetryStateLru
delete_retry hash l = record l { cache = JsMap.delete hash l.cache }

unfoldable pub evict_retries : ℕ → RetryStateLru → RetryStateLru
evict_retries now l = record l { cache = JsMap.retain (λ e. leb now e.deadline_ms) l.cache }
