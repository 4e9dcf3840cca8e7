-- ===== src/Sdk/Expiry.antt =====
-- `isExpired` of sdk/src/intent.ts, the one clock test that the mempool and the solver share.
use perihelion.Prelude.{ℕ, ◌+◌, ◌≤◌, ◌≡◌, ◌↔◌, Bool, true, arith}
use perihelion.Prelude.Int.{ℤ, pos, ◌-ℤ◌, leb_ℤ}
use perihelion.Sdk.Types.{Intent}

-- `intent.deadline <= now - clockSkew`, over the integers.
unfoldable pub is_expired : Intent → ℕ → ℤ → Bool
is_expired intent now clock_skew = leb_ℤ (pos intent.deadline) (pos now -ℤ clock_skew)

-- A positive skew delays the verdict by as many seconds, a negative one brings it forward.
pub is_expired_late :
    (intent : Intent) (now skew : ℕ)
    → (is_expired intent now (pos skew) ≡ true) ↔ (intent.deadline + skew ≤ now)
unfolding is_expired ◌-ℤ◌
is_expired_late intent now skew = ground arith

pub is_expired_early :
    (intent : Intent) (now skew : ℕ)
    → (is_expired intent now (pos 0 -ℤ pos skew) ≡ true) ↔ (intent.deadline ≤ now + skew)
unfolding is_expired ◌-ℤ◌
is_expired_early intent now skew = ground arith
