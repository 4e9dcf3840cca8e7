-- ===== src/Relayer/EvmWatcher/Poll/Scanning.antt =====
-- The scan in chunks sees each block once.
use perihelion.Prelude.{
  ℕ, zero, suc, ◌+◌, ◌-◌, ◌/◌, ◌≤◌, ◌<◌, ◌≡◌, inl, inr, refl, sym, ap, ◌∙◌, min, max, List, Option,
  arith, Bool-cases, if-eq,
}
use perihelion.Prelude.Text.{Text}
use perihelion.Prelude.Result.{Result, ok, Result-cases}
use perihelion.Relayer.EvmWatcher.{Log, LockedData, ReceiptLog, Config, Nonces}
use perihelion.Relayer.EvmWatcher.Poll.{
  Failure, Scan, is_provider_range_error, process_logs, scan, has_left, is_least,
}
use perihelion.Relayer.EvmWatcher.Poll.Rounds.{
  logs_in, run-append, chunk, past, refused, at_least, halved, undecoded, advanced,
}

-- An answer lists the logs of the blocks asked for.
abbrev pub Serves : (ℕ → List Log) → (ℕ → ℕ → ℕ → Result (Option Text) (List Log)) → Type 0
Serves chain get_logs =
    (i from to : ℕ) (logs : List Log)
    → get_logs i from to ≡ ok logs
    → logs ≡ logs_in chain from (to + 1 - from)

module _ (utf8 : Text → List ℕ) (decode_locked : Text → Option LockedData)
    (decode_packet : Text → Option Text) (receipt : Text → Option (List ReceiptLog))
    (config : Config) where
  abbrev run : List Log → Scan → Result (Failure × Nonces) Scan
  run = process_logs utf8 decode_locked decode_packet receipt config

  module _ (get_logs : ℕ → ℕ → ℕ → Result (Option Text) (List Log)) where
    abbrev scans : ℕ → ℕ → ℕ → ℕ → ℕ → Scan → Result (Failure × ℕ × Nonces) (ℕ × Scan)
    scans = scan utf8 decode_locked decode_packet receipt config get_logs

    done :
        (chain : ℕ → List Log) (from head : ℕ) (s t : Scan)
        → head < from
        → s ≡ t
        → run (logs_in chain from (head + 1 - from)) s ≡ ok t
    unfolding logs_in process_logs
    done chain from head s t h same =
        let none_left : head + 1 - from ≡ 0 = omega arith in rw (none_left, same) refl

    onward :
        (chain : ℕ → List Log) (from to head : ℕ) (logs : List Log) (s u : Scan)
        → from ≤ to + 1
        → to ≤ head
        → logs ≡ logs_in chain from (to + 1 - from)
        → run logs s ≡ ok u
        → run (logs_in chain from (head + 1 - from)) s
          ≡ run (logs_in chain (to + 1) (head + 1 - (to + 1))) u
    onward chain from to head logs s u h k same g =
        ap (λ (ls : List Log). run ls s)
          (chunk utf8 decode_locked decode_packet receipt config chain from to head h k)
        ∙ run-append utf8 decode_locked decode_packet receipt config
            (logs_in chain from (to + 1 - from)) _ s
        ∙ rw (sym same, g) refl

    -- What a scan that succeeds has processed: the logs of every block from the first to the head,
    -- each once and in the order of the chain, however often the range was halved.
    pub scan-run :
        (chain : ℕ → List Log) (fuel i from head range : ℕ) (s t : Scan) (final : ℕ)
        → Serves chain get_logs
        → 1 ≤ range
        → scans fuel i from head range s ≡ ok (final, t)
        → run (logs_in chain from (head + 1 - from)) s ≡ ok t
    unfolding has_left scan
    scan-run chain zero i from head range s t final sv hr h = elim (if-eq (has_left from head) h) [
      | inl (_, e) ↦ cc
      | inr (e, same) ↦ done chain from head s t (ground arith) (cc same)
    ]
    scan-run chain (suc fuel) i from head range s t final sv hr h =
        elim (Bool-cases (has_left from head)) [
          | inr e ↦ done chain from head s t (ground arith) (
              cc (
                past utf8 decode_locked decode_packet receipt config get_logs fuel i from head range
                  s e))
          | inl e ↦
              let to = min (from + range - 1) head in
              let low : from ≤ to + 1 = ground arith in
              let high : to ≤ head = ground arith in
              elim (Result-cases (get_logs i from to)) [
                | inl (x, f) ↦ elim (Bool-cases (is_provider_range_error x)) [
                  | inr p ↦ cc (
                      refused utf8 decode_locked decode_packet receipt config get_logs fuel i from
                        head range s x e f p)
                  | inl p ↦ elim (Bool-cases (is_least range)) [
                    | inl q ↦ cc (
                        at_least utf8 decode_locked decode_packet receipt config get_logs fuel i
                          from head range s x e f p q)
                    | inr q ↦
                        scan-run chain fuel (i + 1) from head (max 1 (range / 2)) s t final sv
                          (omega arith)
                          (sym (
                              halved utf8 decode_locked decode_packet receipt config get_logs fuel i
                                from head range s x e f p q)
                            ∙ h)
                  ]
                ]
                | inr (logs, f) ↦ elim (Result-cases (run logs s)) [
                  | inl (x, g) ↦ cc (
                      undecoded utf8 decode_locked decode_packet receipt config get_logs fuel i from
                        head range s logs x.0 x.1 e f g)
                  | inr (u, g) ↦
                      onward chain from to head logs s u low high (sv i from to logs f) g
                      ∙ scan-run chain fuel (i + 1) (to + 1) head range u t final sv hr (
                          sym (
                            advanced utf8 decode_locked decode_packet receipt config get_logs fuel i
                              from head range s u logs e f g)
                          ∙ h)
                ]
              ]
        ]
