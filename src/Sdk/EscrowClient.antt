-- ===== src/Sdk/EscrowClient.antt =====
-- sdk/src/escrow-client.ts: reading a lock and whether its refund would succeed. The RPC client is
-- given by its answers at one block: the fields of `locks` and `confirmationGrace`.
use perihelion.Prelude.{
  ℕ, ◌+◌, ◌≤◌, ◌≡◌, ◌↔◌, refl, Bool, true, false, ◌||◌, Option, none, some, ltb, if◌then◌else◌,
  arith, Option-cases, inl, inr,
}
use perihelion.Prelude.Text.{Text, codes, text_eq}

pub record Lock : Type 0 where
  pub solver : Text
  pub user : Text
  pub asset : Text
  pub amount : ℕ
  pub min_dest_amount : ℕ
  pub deadline : ℕ
  pub released : Bool
  pub refunded : Bool

pub data RefundBlocker : Type 0 where
  not_locked already_finalized deadline_not_passed : RefundBlocker

pub record RefundStatus : Type 0 where
  pub refundable : Bool
  pub reason : Option RefundBlocker
  pub lock : Option Lock
  pub refundable_at : Option ℕ
  pub block_number : ℕ
  pub block_timestamp : ℕ

abbrev zero_address : Text
zero_address = codes "0x0000000000000000000000000000000000000000"

-- `_readLock`: the contract returns zeros for a hash that it does not know.
unfoldable pub read_lock : Lock → Option Lock
read_lock fields = if text_eq fields.user zero_address then none else some fields

-- The answer about a lock that exists.
abbrev answer : Lock → ℕ → ℕ → ℕ → Bool → Option RefundBlocker → RefundStatus
answer lock grace block_number block_timestamp refundable reason = record {
  refundable = refundable;
  reason = reason;
  lock = some lock;
  refundable_at = some (lock.deadline + grace);
  block_number = block_number;
  block_timestamp = block_timestamp;
}

unfoldable pub refund_status : Lock → ℕ → ℕ → ℕ → RefundStatus
refund_status fields grace block_number block_timestamp = elim (read_lock fields) [
  | none ↦ record {
    refundable = false;
    reason = some not_locked;
    lock = none;
    refundable_at = none;
    block_number = block_number;
    block_timestamp = block_timestamp;
  }
  | some lock ↦
      let say = answer lock grace block_number block_timestamp in
      if lock.released || lock.refunded
      then say false (some already_finalized)
      else if ltb block_timestamp (lock.deadline + grace)
      then say false (some deadline_not_passed)
      else say true none
]

unfoldable pub is_refundable : Lock → ℕ → ℕ → ℕ → Bool
is_refundable fields grace block_number block_timestamp =
    (refund_status fields grace block_number block_timestamp).refundable

-- What `cancelExpired` checks of a lock that exists: it is not finalized and its deadline with the
-- grace has passed.
abbrev pub Open : ℕ → ℕ → Lock → Type 0
Open grace block_timestamp lock =
    (lock.released ≡ false) × (lock.refunded ≡ false) × (lock.deadline + grace ≤ block_timestamp)

-- An answer fits a lock: it says refundable exactly if the lock exists and is open at the block,
-- and otherwise gives the first reason that holds, or no lock.
abbrev pub Fits : ℕ → ℕ → Option Lock → RefundStatus → Type 0
Fits grace block_timestamp none s = (s.refundable ≡ false) × (s.reason ≡ some not_locked)
Fits grace block_timestamp (some lock) s =
    ((s.refundable ≡ true) ↔ Open grace block_timestamp lock)
    × ((s.reason ≡ none) ↔ Open grace block_timestamp lock)
    × ((s.reason ≡ some already_finalized) ↔ ((lock.released || lock.refunded) ≡ true))
    × (s.lock ≡ some lock)

Fits-lock :
    (lock : Lock) (grace block_number block_timestamp : ℕ) (r f late : Bool)
    → lock.released ≡ r
    → lock.refunded ≡ f
    → ltb block_timestamp (lock.deadline + grace) ≡ late
    → Fits grace block_timestamp (some lock) (
        if r || f
        then answer lock grace block_number block_timestamp false (some already_finalized)
        else if late
        then answer lock grace block_number block_timestamp false (some deadline_not_passed)
        else answer lock grace block_number block_timestamp true none)
Fits-lock lock grace n t true f late hr hf hl = (
  (λ e. ground arith, λ o. ground arith),
  (λ e. ground arith, λ o. ground arith),
  (λ e. ground arith, λ o. ground arith),
  refl,
)
Fits-lock lock grace n t false true late hr hf hl = (
  (λ e. ground arith, λ o. ground arith),
  (λ e. ground arith, λ o. ground arith),
  (λ e. ground arith, λ o. ground arith),
  refl,
)
Fits-lock lock grace n t false false true hr hf hl = (
  (λ e. ground arith, λ o. ground arith),
  (λ e. ground arith, λ o. ground arith),
  (λ e. ground arith, λ o. ground arith),
  refl,
)
Fits-lock lock grace n t false false false hr hf hl = (
  (λ e. ground arith, λ o. ground arith),
  (λ e. ground arith, λ o. ground arith),
  (λ e. ground arith, λ o. ground arith),
  refl,
)

-- The refund status says refundable, with no reason against it, exactly of a lock that exists, is
-- neither released nor refunded, and whose deadline with the grace has passed at the block. A
-- missing lock is reported as not locked, a finalized one as finalized, whatever the time.
pub refund_status-Fits :
    (fields : Lock) (grace block_number block_timestamp : ℕ)
    → Fits grace block_timestamp
        (read_lock fields)
        (refund_status fields grace block_number block_timestamp)
unfolding refund_status
refund_status-Fits fields grace n t = elim (Option-cases (read_lock fields)) [
  | inl e ↦ rw (e, refund_status) (refl, refl)
  | inr (lock, e) ↦
      rw (e, refund_status)
        (Fits-lock lock grace n t lock.released lock.refunded (ltb t (lock.deadline + grace)) refl
          refl refl)
]
