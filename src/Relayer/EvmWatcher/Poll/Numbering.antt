-- ===== src/Relayer/EvmWatcher/Poll/Numbering.antt =====
-- The nonces that the fallback counter gives.
use perihelion.Prelude.{
  ℕ, zero, suc, ◌+◌, ◌≡◌, inl, inr, refl, sym, ap, ◌∙◌, List, [], ◌∷◌, ◌++◌, append_assoc,
  append-nil, map, length, Option, none, some, or_default, arith,
}
use perihelion.Prelude.JsMap
use perihelion.Prelude.JsMap.{get-set}
use perihelion.Prelude.Text.{Text, text_key}
use perihelion.Prelude.Result.{ok, Result-cases, >>=-eq-ok}
use perihelion.Relayer.Types.{PendingMessage}
use perihelion.Relayer.EvmWatcher.{
  Log, LockedData, ReceiptLog, Config, Nonces, decode_locked_log, decode_locked_log_with_nonce,
  next_fallback_nonce, next_nonce, resolve_transport_nonce, packet_sent_nonce, path_key,
}
use perihelion.Relayer.EvmWatcher.Poll.{Scan, add_block, process_log, process_logs}

-- n + 1, n + 2, and so on.
unfoldable pub count_up : ℕ → ℕ → List ℕ
count_up n zero = []
count_up n (suc k) = (n + 1) ∷ count_up (n + 1) k

abbrev pub nonces_of : List PendingMessage → List ℕ
nonces_of ps = map (λ (p : PendingMessage). p.message.nonce) ps

nonces_of-snoc :
    (ps : List PendingMessage) (p : PendingMessage)
    → nonces_of (ps ++ p ∷ []) ≡ nonces_of ps ++ p.message.nonce ∷ []
nonces_of-snoc [] p = refl
nonces_of-snoc (q ∷ ps) p = ap (λ ns. q.message.nonce ∷ ns) (nonces_of-snoc ps p)

-- The nonce that the path was given last.
abbrev pub last_nonce : Config → Nonces → ℕ
last_nonce config n = or_default (JsMap.get (path_key config) n.fallback) 0

next_nonce-fallback :
    (config : Config) (n : Nonces)
    → config.nonce_counter ≡ none
    → ((next_nonce config n).0 ≡ last_nonce config n + 1)
      × (last_nonce config (next_nonce config n).1 ≡ last_nonce config n + 1)
unfolding next_nonce next_fallback_nonce
next_nonce-fallback config n hc =
    let next = last_nonce config n + 1 in
    rw hc (refl, rw (get-set (path_key config) (path_key config) next n.fallback) (ground arith))

module _ (utf8 : Text → List ℕ) (decode_locked : Text → Option LockedData)
    (decode_packet : Text → Option Text) (receipt : Text → Option (List ReceiptLog))
    (config : Config) (no_endpoint : config.endpoint_address ≡ none)
    (no_counter : config.nonce_counter ≡ none) where
  resolve_transport_nonce-fallback :
      (log : Log) (n : Nonces)
      → ((resolve_transport_nonce utf8 decode_locked decode_packet receipt config log n).0
          ≡ last_nonce config n + 1)
        × (last_nonce config
              (resolve_transport_nonce utf8 decode_locked decode_packet receipt config log n).1
            ≡ last_nonce config n + 1)
  unfolding resolve_transport_nonce packet_sent_nonce
  resolve_transport_nonce-fallback log n =
      let (a, b) = next_nonce-fallback config n no_counter in rw no_endpoint (ground arith)

  process_log-nonce :
      (log : Log) (s t : Scan)
      → process_log utf8 decode_locked decode_packet receipt config log s ≡ ok t
      → (p : PendingMessage) × (t.messages ≡ s.messages ++ p ∷ [])
        × (p.message.nonce ≡ last_nonce config s.nonces + 1)
        × (last_nonce config t.nonces ≡ last_nonce config s.nonces + 1)
  unfolding process_log decode_locked_log_with_nonce
  process_log-nonce log s t h =
      elim (Result-cases (decode_locked_log utf8 decode_locked decode_packet receipt config log)) [
        | inl (x, f) ↦ cc (rw (f, process_log) at h)
        | inr (none, f) ↦ cc (rw (f, process_log) at h)
        | inr (some base, f) ↦
            let r =
              resolve_transport_nonce utf8 decode_locked decode_packet receipt config log
                s.nonces in
            let p : PendingMessage = record base {
              message = record base.message { nonce = r.0 };
            } in
            let u : Scan = record {
              nonces = r.1;
              blocks = add_block log.block_number s.blocks;
              messages = s.messages ++ p ∷ [];
            } in
            let e : u ≡ t = cc (rw (f, process_log) at h) in
            let (a, b) = resolve_transport_nonce-fallback log s.nonces in
            (
              p,
              ap (λ (x : Scan). x.messages) (sym e),
              a,
              ap (λ (x : Scan). last_nonce config x.nonces) (sym e) ∙ b,
            )
      ]

  -- Without an endpoint address and a configured counter, the messages of a run of logs are
  -- numbered one after the other from the number behind the last one given, which is kept
  -- for the next poll.
  pub process_logs-nonces :
      (logs : List Log) (s t : Scan)
      → process_logs utf8 decode_locked decode_packet receipt config logs s ≡ ok t
      → (nonces_of t.messages
          ≡ nonces_of s.messages ++ count_up (last_nonce config s.nonces) (length logs))
        × (last_nonce config t.nonces ≡ last_nonce config s.nonces + length logs)
  unfolding process_logs count_up
  process_logs-nonces [] s t h =
      let e : s ≡ t = cc in (rw e (sym (append-nil _)), rw e (omega arith))
  process_logs-nonces (log ∷ logs) s t h =
      let (u, one, more) =
        >>=-eq-ok (process_log utf8 decode_locked decode_packet receipt config log s)
          (process_logs utf8 decode_locked decode_packet receipt config logs) h in
      let (p, shown, number, last) = process_log-nonce log s u one in
      let (ih, total) = process_logs-nonces logs u t more in
      let shown_nonces : nonces_of u.messages
          ≡ nonces_of s.messages ++ (last_nonce config s.nonces + 1) ∷ [] =
        ap nonces_of shown
        ∙ nonces_of-snoc s.messages p
        ∙ ap (λ (k : ℕ). nonces_of s.messages ++ k ∷ []) number in
      (
        ih
            ∙ rw (shown_nonces, last)
                (append_assoc (nonces_of s.messages) ((last_nonce config s.nonces + 1) ∷ [])
                  (count_up (last_nonce config s.nonces + 1) (length logs))),
        omega (arith, total, last),
      )
