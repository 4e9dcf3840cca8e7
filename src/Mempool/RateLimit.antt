-- ===== src/Mempool/RateLimit.antt =====
-- mempool/src/server.ts, `rateLimit`: the middleware that admits at most `limit` requests of one
-- client within a window. `hits` is `rateLimitHits`; the clock is an argument.
pub mod Window
use perihelion.Prelude.{
  ℕ, ◌+◌, Bool, true, false, List, [], ◌∷◌, ◌++◌, Option, none, some, length, keep_if, ltb, leb,
  if◌then◌else◌, or_default,
}
use perihelion.Prelude.JsMap
use perihelion.Prelude.JsMap.{JsMap}
use perihelion.Prelude.Text.{Text, codes, text_key}

pub record Limiter : Type 0 where
  pub hits : JsMap Text (List ℕ)
  pub window_ms : ℕ
  pub rejections : ℕ

-- `now - t < this.rateLimitWindowMs`, which holds too where the clock went back.
abbrev pub in_window : ℕ → ℕ → ℕ → Bool
in_window window now t = ltb now (t + window)

-- `(this.rateLimitHits.get(key) ?? []).filter(...)`.
abbrev pub recent : Text → ℕ → Limiter → List ℕ
recent key now l = keep_if (in_window l.window_ms now) (or_default (JsMap.get key l.hits) [])

-- The template literal of the key.
abbrev pub client_key : Text → Option Text → Text
client_key kind ip = kind ++ codes ":" ++ or_default ip (codes "unknown")

-- The test and the two ways on, for one key: the limiter afterwards, and whether `next` is called.
unfoldable pub admit : Text → ℕ → ℕ → Limiter → Limiter × Bool
admit key limit now l =
    if leb limit (length (recent key now l))
    then (record l { rejections = l.rejections + 1 }, false)
    else (record l { hits = JsMap.set key (recent key now l ++ now ∷ []) l.hits }, true)

unfoldable pub rate_limit : Text → ℕ → Option Text → ℕ → Limiter → Limiter × Bool
rate_limit kind limit ip now l = admit (client_key kind ip) limit now l
