-- ===== src/Relayer/EvmWatcher/Poll/Rounds.antt =====
-- The rounds of the scan, and runs over the logs of neighbouring blocks.
use perihelion.Prelude.{
  ℕ, zero, suc, ◌+◌, ◌-◌, ◌/◌, ◌≤◌, ◌≡◌, inl, inr, refl, sym, ap, ◌∙◌, min, max, true, false, List,
  [], ◌∷◌, ◌++◌, append_assoc, Option, arith,
}
use perihelion.Prelude.Text.{Text}
use perihelion.Prelude.Result.{Result, err, ok, ◌>>=◌, >>=-eq-ok, Result-cases}
use perihelion.Relayer.EvmWatcher.{Log, LockedData, ReceiptLog, Config, Nonces}
use perihelion.Relayer.EvmWatcher.Poll.{
  Failure, thrown, Scan, is_provider_range_error, message_of, process_log, process_logs, scan,
  has_left, is_least,
}

-- The logs of `count` blocks from `from` on, in the order of the chain.
unfoldable pub logs_in : (ℕ → List Log) → ℕ → ℕ → List Log
logs_in chain from zero = []
logs_in chain from (suc count) = chain from ++ logs_in chain (from + 1) count

pub logs_in-add :
    (chain : ℕ → List Log) (from m n : ℕ)
    → logs_in chain from (m + n) ≡ logs_in chain from m ++ logs_in chain (from + m) n
unfolding logs_in
logs_in-add chain from zero n =
    let same : 0 + n ≡ n = omega arith in
    let at : from + 0 ≡ from = omega arith in rw (same, at) refl
logs_in-add chain from (suc m) n =
    let more : suc m + n ≡ suc (m + n) = omega arith in
    let at : from + suc m ≡ from + 1 + m = omega arith in
    rw (more, at, logs_in-add chain (from + 1) m n) (sym (append_assoc (chain from) _ _))

module _ (utf8 : Text → List ℕ) (decode_locked : Text → Option LockedData)
    (decode_packet : Text → Option Text) (receipt : Text → Option (List ReceiptLog))
    (config : Config) where
  abbrev run : List Log → Scan → Result (Failure × Nonces) Scan
  run = process_logs utf8 decode_locked decode_packet receipt config

  pub run-append : (xs ys : List Log) (s : Scan) → run (xs ++ ys) s ≡ run xs s >>= run ys
  unfolding process_logs
  run-append [] ys s = refl
  run-append (x ∷ xs) ys s =
      elim (Result-cases (process_log utf8 decode_locked decode_packet receipt config x s)) [
        | inl (f, e) ↦ rw e refl
        | inr (t, e) ↦ rw e (run-append xs ys t)
      ]

  -- A run over two lists stops between them.
  pub run-split :
      (xs ys : List Log) (s t : Scan)
      → run (xs ++ ys) s ≡ ok t
      → (u : Scan) × (run xs s ≡ ok u) × (run ys u ≡ ok t)
  run-split xs ys s t h = >>=-eq-ok (run xs s) (run ys) (sym (run-append xs ys s) ∙ h)

  pub chunk :
      (chain : ℕ → List Log) (from to head : ℕ)
      → from ≤ to + 1
      → to ≤ head
      → logs_in chain from (head + 1 - from)
        ≡ logs_in chain from (to + 1 - from) ++ logs_in chain (to + 1) (head + 1 - (to + 1))
  chunk chain from to head h k =
      let e : head + 1 - from ≡ to + 1 - from + (head + 1 - (to + 1)) = omega arith in
      let at : from + (to + 1 - from) ≡ to + 1 = omega arith in
      ap (logs_in chain from) e
      ∙ logs_in-add chain from (to + 1 - from) (head + 1 - (to + 1))
      ∙ ap (λ k. logs_in chain from (to + 1 - from) ++ logs_in chain k (head + 1 - (to + 1))) at

  module _ (get_logs : ℕ → ℕ → ℕ → Result (Option Text) (List Log)) where
    abbrev scans : ℕ → ℕ → ℕ → ℕ → ℕ → Scan → Result (Failure × ℕ × Nonces) (ℕ × Scan)
    scans = scan utf8 decode_locked decode_packet receipt config get_logs

    -- The five ways a round can go.
    pub past :
        (fuel i from head range : ℕ) (s : Scan)
        → has_left from head ≡ false
        → scans (suc fuel) i from head range s ≡ ok (range, s)
    unfolding scan
    past fuel i from head range s e = rw (e, scan) refl

    pub refused :
        (fuel i from head range : ℕ) (s : Scan) (x : Option Text)
        → has_left from head ≡ true
        → get_logs i from (min (from + range - 1) head) ≡ err x
        → is_provider_range_error x ≡ false
        → scans (suc fuel) i from head range s ≡ err (thrown (message_of x), range, s.nonces)
    unfolding scan
    refused fuel i from head range s x e f p = rw (e, f, p, scan) refl

    pub at_least :
        (fuel i from head range : ℕ) (s : Scan) (x : Option Text)
        → has_left from head ≡ true
        → get_logs i from (min (from + range - 1) head) ≡ err x
        → is_provider_range_error x ≡ true
        → is_least range ≡ true
        → scans (suc fuel) i from head range s ≡ err (thrown (message_of x), range, s.nonces)
    unfolding scan
    at_least fuel i from head range s x e f p q = rw (e, f, p, q, scan) refl

    pub halved :
        (fuel i from head range : ℕ) (s : Scan) (x : Option Text)
        → has_left from head ≡ true
        → get_logs i from (min (from + range - 1) head) ≡ err x
        → is_provider_range_error x ≡ true
        → is_least range ≡ false
        → scans (suc fuel) i from head range s ≡ scans fuel (i + 1) from head (max 1 (range / 2)) s
    unfolding scan
    halved fuel i from head range s x e f p q = rw (e, f, p, q, scan) refl

    pub undecoded :
        (fuel i from head range : ℕ) (s : Scan) (logs : List Log) (x : Failure) (n : Nonces)
        → has_left from head ≡ true
        → get_logs i from (min (from + range - 1) head) ≡ ok logs
        → run logs s ≡ err (x, n)
        → scans (suc fuel) i from head range s ≡ err (x, range, n)
    unfolding scan
    undecoded fuel i from head range s logs x n e f g = rw (e, f, g, scan) refl

    pub advanced :
        (fuel i from head range : ℕ) (s u : Scan) (logs : List Log)
        → has_left from head ≡ true
        → get_logs i from (min (from + range - 1) head) ≡ ok logs
        → run logs s ≡ ok u
        → scans (suc fuel) i from head range s
          ≡ scans fuel (i + 1) (min (from + range - 1) head + 1) head range u
    unfolding scan
    advanced fuel i from head range s u logs e f g = rw (e, f, g, scan) refl
