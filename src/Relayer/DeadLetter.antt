-- ===== src/Relayer/DeadLetter.antt =====
-- relayer/src/dead-letter.ts, class InMemoryDeadLetterStore; the clock is an argument.
use perihelion.Prelude.{ℕ, ◌≡◌, Bool, true, List, [], ◌∷◌, ite, arith}
use perihelion.Prelude.JsMap
use perihelion.Prelude.JsMap.{JsMap, Distinct}
use perihelion.Prelude.Text.{Text, text_key, text_discrete}
use perihelion.Relayer.Types.{MessageKey, PendingMessage, message_key_string}

pub record DeadLetterEntry : Type 0 where
  pub key : MessageKey
  pub pending : PendingMessage
  pub attempts : ℕ
  pub last_error : Text
  pub dead_lettered_at : ℕ

abbrev pub DeadLetterStore : Type 0
DeadLetterStore = JsMap Text DeadLetterEntry

unfoldable pub add : MessageKey → PendingMessage → ℕ → Text → ℕ → DeadLetterStore → DeadLetterStore
add key pending attempts last_error now d =
    JsMap.set (message_key_string key)
      (record {
        key = key;
        pending = pending;
        attempts = attempts;
        last_error = last_error;
        dead_lettered_at = now;
      })
      d

unfoldable pub list : DeadLetterStore → List DeadLetterEntry
list [] = []
list ((k, e) ∷ d) = e ∷ list d

unfoldable pub drain : DeadLetterStore → DeadLetterStore × List DeadLetterEntry
drain d = ([], list d)

unfoldable pub discard : MessageKey → DeadLetterStore → DeadLetterStore × Bool
discard key d = (JsMap.delete (message_key_string key) d, JsMap.has (message_key_string key) d)

unfoldable pub has : MessageKey → DeadLetterStore → Bool
has key d = JsMap.has (message_key_string key) d

-- A recorded message is in the store, and no other changes its place.
pub has-add :
    (k : Text) (key : MessageKey) (p : PendingMessage) (n : ℕ) (e : Text) (now : ℕ)
    (d : DeadLetterStore)
    → JsMap.has k (add key p n e now d)
      ≡ ite (text_discrete (message_key_string key) k) true (JsMap.has k d)
unfolding add
has-add k key p n e now d = ground (arith, JsMap.get-set (message_key_string key) k v d)
  where
    v : DeadLetterEntry
    v = record { key = key; pending = p; attempts = n; last_error = e; dead_lettered_at = now }
