-- ===== src/Relayer/EvmWatcher/Poll/Progress.antt =====
-- The scan ends, and succeeds where the provider answers short ranges.
use perihelion.Prelude.{
  ℕ, zero, suc, ◌+◌, ◌-◌, ◌/◌, ◌≤◌, ◌<◌, ◌≡◌, ◌≢◌, ◌⊎◌, inl, inr, sym, ap, ◌∙◌, min, max, true,
  false, List, [], ◌∷◌, Option, none, some, arith, Bool-cases, subst,
}
use perihelion.Prelude.Text.{Text}
use perihelion.Prelude.Result.{Result, err, ok, Result-cases}
use perihelion.Relayer.EvmWatcher.{
  Log, LockedData, ReceiptLog, Config, Nonces, decode_locked_log_with_nonce,
}
use perihelion.Relayer.EvmWatcher.Poll.{
  Failure, out_of_fuel, Scan, is_provider_range_error, process_log, process_logs, scan, scan_fuel,
  has_left, is_least,
}
use perihelion.Relayer.EvmWatcher.Poll.Rounds.{
  logs_in, run-split, chunk, past, refused, at_least, halved, undecoded, advanced,
}

-- The provider answers every request of at most `k` blocks, and refuses others with a range error
-- or answers them too.
abbrev pub AnswersUpTo : ℕ → (ℕ → List Log) → (ℕ → ℕ → ℕ → Result (Option Text) (List Log)) → Type 0
AnswersUpTo k chain get_logs =
    (i from to : ℕ)
    → (get_logs i from to ≡ ok (logs_in chain from (to + 1 - from)))
      ⊎ ((k < to + 1 - from)
          × ((x : Option Text) × (get_logs i from to ≡ err x) × (is_provider_range_error x ≡ true)))

module _ (utf8 : Text → List ℕ) (decode_locked : Text → Option LockedData)
    (decode_packet : Text → Option Text) (receipt : Text → Option (List ReceiptLog))
    (config : Config) where
  abbrev run : List Log → Scan → Result (Failure × Nonces) Scan
  run = process_logs utf8 decode_locked decode_packet receipt config

  process_log-ne-out_of_fuel :
      (log : Log) (s : Scan) (n : Nonces)
      → process_log utf8 decode_locked decode_packet receipt config log s ≢ err (out_of_fuel, n)
  unfolding process_log
  process_log-ne-out_of_fuel log s n e =
      elim (Result-cases (
        decode_locked_log_with_nonce utf8 decode_locked decode_packet receipt config log
          s.nonces)) [
            | inl (x, f) ↦ cc (rw (f, process_log) at e)
            | inr (none, f) ↦ cc (rw (f, process_log) at e)
            | inr (some p, f) ↦ cc (rw (f, process_log) at e)
          ]

  run-ne-out_of_fuel : (logs : List Log) (s : Scan) (n : Nonces) → run logs s ≢ err (out_of_fuel, n)
  unfolding process_logs
  run-ne-out_of_fuel [] s n e = cc
  run-ne-out_of_fuel (log ∷ logs) s n e =
      elim (Result-cases (process_log utf8 decode_locked decode_packet receipt config log s)) [
        | inl (x, f) ↦ process_log-ne-out_of_fuel log s n (f ∙ (rw (f, process_logs) at e))
        | inr (t, f) ↦ run-ne-out_of_fuel logs t n (rw (f, process_logs) at e)
      ]

  module _ (get_logs : ℕ → ℕ → ℕ → Result (Option Text) (List Log)) where
    abbrev scans : ℕ → ℕ → ℕ → ℕ → ℕ → Scan → Result (Failure × ℕ × Nonces) (ℕ × Scan)
    scans = scan utf8 decode_locked decode_packet receipt config get_logs

    -- From a range of at least 1 the loop ends whatever the provider answers: it makes at most one
    -- request for each block and one for each unit of the range.
    pub scan-ends :
        (fuel i from head range : ℕ) (s : Scan) (r : ℕ) (n : Nonces)
        → 1 ≤ range
        → scan_fuel from head range ≤ fuel
        → scans fuel i from head range s ≢ err (out_of_fuel, r, n)
    unfolding has_left is_least scan
    scan-ends zero i from head range s r n hr hf h = absurd (omega arith)
    scan-ends (suc fuel) i from head range s r n hr hf h = elim (Bool-cases (has_left from head)) [
      | inr e ↦
          cc (
            past utf8 decode_locked decode_packet receipt config get_logs fuel i from head range s
              e)
      | inl e ↦
          let to = min (from + range - 1) head in
          elim (Result-cases (get_logs i from to)) [
            | inl (x, f) ↦ elim (Bool-cases (is_provider_range_error x)) [
              | inr p ↦ cc (
                  refused utf8 decode_locked decode_packet receipt config get_logs fuel i from head
                    range s x e f p)
              | inl p ↦ elim (Bool-cases (is_least range)) [
                | inl q ↦ cc (
                    at_least utf8 decode_locked decode_packet receipt config get_logs fuel i from
                      head range s x e f p q)
                | inr q ↦
                    scan-ends fuel (i + 1) from head (max 1 (range / 2)) s r n (omega arith)
                      (ground arith)
                      (sym (
                          halved utf8 decode_locked decode_packet receipt config get_logs fuel i
                            from head range s x e f p q)
                        ∙ h)
              ]
            ]
            | inr (logs, f) ↦ elim (Result-cases (run logs s)) [
              | inl (x, g) ↦
                  let same : x ≡ (out_of_fuel, n) = cc (
                    undecoded utf8 decode_locked decode_packet receipt config get_logs fuel i from
                      head range s logs x.0 x.1 e f g) in
                  run-ne-out_of_fuel logs s n (g ∙ ap err same)
              | inr (u, g) ↦ scan-ends fuel (i + 1) (to + 1) head range u r n hr (ground arith) (
                  sym (
                    advanced utf8 decode_locked decode_packet receipt config get_logs fuel i from
                      head range s u logs e f g)
                  ∙ h)
            ]
          ]
    ]

    -- If the provider answers requests of up to `k` blocks, k at least 1, and every log of the
    -- blocks decodes, the scan succeeds with the messages of all those logs.
    pub scan-succeeds :
        (k : ℕ) (chain : ℕ → List Log) (fuel i from head range : ℕ) (s t : Scan)
        → 1 ≤ k
        → AnswersUpTo k chain get_logs
        → 1 ≤ range
        → scan_fuel from head range ≤ fuel
        → run (logs_in chain from (head + 1 - from)) s ≡ ok t
        → (final : ℕ) × (scans fuel i from head range s ≡ ok (final, t))
    unfolding has_left is_least scan logs_in process_logs
    scan-succeeds k chain zero i from head range s t hk ha hr hf h = absurd (omega arith)
    scan-succeeds k chain (suc fuel) i from head range s t hk ha hr hf h =
        elim (Bool-cases (has_left from head)) [
          | inr e ↦
              let none_left : head + 1 - from ≡ 0 = ground arith in
              let same : s ≡ t =
                cc (subst (λ c. run (logs_in chain from c) s ≡ ok t) none_left h) in
              (
                range,
                past utf8 decode_locked decode_packet receipt config get_logs fuel i from head range
                      s e
                    ∙ ap (λ z. ok (range, z)) same,
              )
          | inl e ↦
              let to = min (from + range - 1) head in
              elim (ha i from to) [
                | inr (wide, (x, f, p)) ↦
                    let q : is_least range ≡ false = ground arith in
                    let (final, g) =
                      scan-succeeds k chain fuel (i + 1) from head (max 1 (range / 2)) s t hk ha
                        (omega arith) (ground arith) h in
                    (
                      final,
                      halved utf8 decode_locked decode_packet receipt config get_logs fuel i from
                            head range s x e f p q
                          ∙ g,
                    )
                | inl f ↦
                    let (u, g, more) =
                      run-split utf8 decode_locked decode_packet receipt config
                        (logs_in chain from (to + 1 - from)) _ s t
                        (ap (λ (ls : List Log). run ls s)
                            (sym (
                              chunk utf8 decode_locked decode_packet receipt config chain from to
                                head (ground arith) (ground arith)))
                          ∙ h) in
                    let (final, w) =
                      scan-succeeds k chain fuel (i + 1) (to + 1) head range u t hk ha hr
                        (ground arith) more in
                    (
                      final,
                      advanced utf8 decode_locked decode_packet receipt config get_logs fuel i from
                            head range s u _ e f g
                          ∙ w,
                    )
              ]
        ]
