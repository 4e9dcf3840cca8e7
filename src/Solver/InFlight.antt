-- ===== src/Solver/InFlight.antt =====
-- solver/src/inventory.ts, class InFlightTracker: amounts reserved for fills in flight, and held
-- after a fill until the next tick. Amounts are never negative.
use perihelion.Prelude.{
  ℕ, ◌+◌, ◌-◌, ◌≡◌, [], length, ltb, ◌==◌, if◌then◌else◌, or_default, ite, arith,
}
use perihelion.Prelude.JsMap
use perihelion.Prelude.JsMap.{JsMap}
use perihelion.Prelude.Text.{Text, text_key, text_discrete}

pub record InFlightTracker : Type 0 where
  pub reserved : JsMap Text ℕ
  pub held : JsMap Text ℕ

-- `m.get(asset) ?? 0n`.
abbrev pub amount_of : Text → JsMap Text ℕ → ℕ
amount_of asset m = or_default (JsMap.get asset m) 0

unfoldable pub reserve : Text → ℕ → InFlightTracker → InFlightTracker
reserve asset amount t = record t {
  reserved = JsMap.set asset (amount_of asset t.reserved + amount) t.reserved;
}

unfoldable pub active_reserved_for : Text → InFlightTracker → ℕ
active_reserved_for asset t = amount_of asset t.reserved

unfoldable pub release : Text → ℕ → InFlightTracker → InFlightTracker
release asset amount t =
    let current = amount_of asset t.reserved in
    let next = if ltb amount current then current - amount else 0 in
    if next == 0
    then record t { reserved = JsMap.delete asset t.reserved }
    else record t { reserved = JsMap.set asset next t.reserved }

unfoldable pub hold_for_refresh : Text → ℕ → InFlightTracker → InFlightTracker
hold_for_refresh asset amount t =
    let t' = release asset amount t in
    record t' { held = JsMap.set asset (amount_of asset t'.held + amount) t'.held }

unfoldable pub flush_held : InFlightTracker → InFlightTracker × ℕ
flush_held t = (record t { held = [] }, length t.held)

unfoldable pub reserved_for : Text → InFlightTracker → ℕ
reserved_for asset t = amount_of asset t.reserved + amount_of asset t.held

-- The amount in flight once one asset has it set.
amount_of-set :
    (a b : Text) (n : ℕ) (m : JsMap Text ℕ)
    → amount_of b (JsMap.set a n m) ≡ ite (text_discrete a b) n (amount_of b m)
amount_of-set a b n m = ground (arith, JsMap.get-set a b n m)

pub reserve_lem :
    (a b : Text) (n : ℕ) (t : InFlightTracker)
    → (amount_of b (reserve a n t).reserved ≡ amount_of b t.reserved + ite (text_discrete a b) n 0)
      × ((reserve a n t).held ≡ t.held)
unfolding reserve
reserve_lem a b n t = ground (arith, amount_of-set a b (amount_of a t.reserved + n) t.reserved)

pub release_lem :
    (a b : Text) (n : ℕ) (t : InFlightTracker)
    → (amount_of b (release a n t).reserved ≡ amount_of b t.reserved - ite (text_discrete a b) n 0)
      × ((release a n t).held ≡ t.held)
unfolding release
release_lem a b n t = ground (
  arith,
  amount_of-set a b (amount_of a t.reserved - n) t.reserved,
  JsMap.get-delete a b t.reserved,
)

-- A reservation followed by a release of the same amount gives every asset the commitments it had,
-- and one followed by a hold commits the amount until the next flush, which leaves exactly the
-- active reservations from before.
pub reservation_balance :
    (a b : Text) (n : ℕ) (t : InFlightTracker)
    → (reserved_for b (release a n (reserve a n t)) ≡ reserved_for b t)
      × (reserved_for b (hold_for_refresh a n (reserve a n t))
          ≡ reserved_for b t + ite (text_discrete a b) n 0)
      × (reserved_for b (flush_held (hold_for_refresh a n (reserve a n t))).0
          ≡ active_reserved_for b t)
unfolding hold_for_refresh flush_held reserved_for active_reserved_for JsMap.get
reservation_balance a b n t =
    let t' = reserve a n t in
    let t'' = release a n t' in
    ground (
      arith,
      reserve_lem a b n t,
      release_lem a b n t',
      amount_of-set a b (amount_of a t''.held + n) t''.held,
    )

-- Both ends of a reservation leave the active amounts as they were before it.
pub active_balance :
    (a b : Text) (n : ℕ) (t : InFlightTracker)
    → (active_reserved_for b (release a n (reserve a n t)) ≡ active_reserved_for b t)
      × (active_reserved_for b (hold_for_refresh a n (reserve a n t)) ≡ active_reserved_for b t)
unfolding hold_for_refresh active_reserved_for
active_balance a b n t = ground (arith, reserve_lem a b n t, release_lem a b n (reserve a n t))
