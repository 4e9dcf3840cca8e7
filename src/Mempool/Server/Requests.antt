-- ===== src/Mempool/Server/Requests.antt =====
-- The requests that change the state of the mempool server, in any sequence: what a submission does
-- on every branch, and what holds of the store after every history.
use perihelion.Prelude.{
  ℕ, ◌+◌, ◌/◌, ◌<◌, ◌⊎◌, ◌≡◌, refl, Bool, true, List, [], ◌∷◌, Option, none, some, arith,
  Option-cases, Bool-cases, inl, inr,
}
use perihelion.Prelude.Result.{ok, err, Result-cases}
use perihelion.Prelude.JsMap
use perihelion.Prelude.Text.{Text, codes, text_key}
use perihelion.Sdk.Types.{Intent, MempoolIntentStatus}
use perihelion.Sdk.Json.{Value, as_text}
use perihelion.Sdk.Validate.{parse_intent}
use perihelion.Sdk.Signature.{Domain, verify_intent, hash_intent}
use perihelion.Mempool.Store
use perihelion.Mempool.Store.{MempoolIntentRecord, IntentStore, is_terminal, new_store}
use perihelion.Mempool.Store.Invariant.{Inv, set-Inv, update_status-Inv, evict_loop-Inv}
use perihelion.Mempool.Server.{
  MempoolServer, as_fields, check_submission, new_record, handle_submit_intent,
  handle_update_status, is_authorized, is_signature, optional_prop, parse_hash_param, status_of,
}

-- What the state changes on: a submission with the clock before and after the await, a report of a
-- status, the sweep of the timer.
pub data Request : Type 0 where
  submit : Value → ℕ → ℕ → Request
  report : Option Text → Text → Value → Request
  sweep : ℕ → Request

module _ (is_address : Text → Bool) (hash_typed_data : Intent → Domain → Text)
    (recover : Intent → Domain → Text → Option Text) where
  unfoldable pub step : Request → MempoolServer → MempoolServer
  step (submit body now later) s =
      (handle_submit_intent is_address hash_typed_data recover body now later s).0
  step (report auth raw body) s = (handle_update_status auth raw body s).0
  step (sweep now) s = record s { store = (Store.evict_expired now s.store).0 }

  unfoldable pub run : List Request → MempoolServer → MempoolServer
  run [] s = s
  run (q ∷ qs) s = run qs (step q s)

  step-submit_err :
      (body : Value) (now later : ℕ) (s : MempoolServer) (m : Text)
      → check_submission is_address hash_typed_data recover body now s ≡ err m
      → step (submit body now later) s ≡ record s { rejected = s.rejected + 1 }
  unfolding step handle_submit_intent
  step-submit_err body now later s m e = rw (e, step, handle_submit_intent) refl

  step-submit_ok :
      (body : Value) (now later : ℕ) (s : MempoolServer) (parsed : Intent) (signature : Text)
      → check_submission is_address hash_typed_data recover body now s ≡ ok (parsed, signature)
      → (step (submit body now later) s).store
        ≡ Store.set
            (hash_intent hash_typed_data recover parsed s.domain)
            (new_record is_address hash_typed_data recover parsed signature later s)
            s.store
  unfolding step handle_submit_intent
  step-submit_ok body now later s parsed signature e = rw (e, step, handle_submit_intent) refl

  -- What the text of the signature and the parsed intent must have passed.
  abbrev Passed : Value → Intent → Text → ℕ → MempoolServer → Type 0
  Passed v parsed signature now s =
      (is_signature signature ≡ true)
      × (parse_intent is_address v ≡ ok parsed)
      × (now / 1000 < parsed.deadline)
      × (verify_intent hash_typed_data recover parsed signature s.domain
            (record { client = s.client; is_contract = none })
          ≡ some true)

  -- What a submission must have passed: the body has an intent, which the SDK's parser reads, and
  -- the text of a signature.
  abbrev pub Sound : Value → Intent → Text → ℕ → MempoolServer → Type 0
  Sound body parsed signature now s =
      (p : Text → Value) × (as_fields body ≡ some p)
      × ((q : Text → Value) × (as_fields (p (codes "intent")) ≡ some q))
      × (as_text (p (codes "signature")) ≡ some signature)
      × Passed (p (codes "intent")) parsed signature now s

  submit-Inv :
      (body : Value) (now later : ℕ) (s : MempoolServer)
      → Inv s.store
      → Inv (step (submit body now later) s).store
  submit-Inv body now later s v =
      elim (Result-cases (check_submission is_address hash_typed_data recover body now s)) [
        | inl (m, e) ↦ rw (step-submit_err body now later s m e) v
        | inr ((parsed, signature), e) ↦
            rw (step-submit_ok body now later s parsed signature e) (set-Inv _ _ s.store v refl)
      ]

  report_store :
      (auth : Option Text) (raw : Text) (body : Value) (s : MempoolServer)
      → ((step (report auth raw body) s).store ≡ s.store)
        ⊎ ((hash : Text) × (t : MempoolIntentStatus) × ((step (report auth raw body) s).store
              ≡ (Store.update_status hash t s.store).0))
  unfolding step handle_update_status
  report_store auth raw body s = elim (Bool-cases (is_authorized s.status_token auth)) [
    | inr e ↦ inl (ground arith)
    | inl e ↦ elim (Option-cases (parse_hash_param raw)) [
      | inl f ↦ inl (ground arith)
      | inr (hash, f) ↦ elim (Option-cases (as_text (optional_prop (codes "status") body))) [
        | inl g ↦ inl (ground arith)
        | inr (name, g) ↦ elim (Option-cases (status_of name)) [
          | inl k ↦ inl (ground arith)
          | inr (t, k) ↦ inr (hash, t, ground arith)
        ]
      ]
    ]
  ]

  pub step-Inv : (q : Request) (s : MempoolServer) → Inv s.store → Inv (step q s).store
  unfolding step Store.evict_expired
  step-Inv (submit body now later) s v = submit-Inv body now later s v
  step-Inv (report auth raw body) s v = elim (report_store auth raw body s) [
    | inl e ↦ rw e v
    | inr (hash, t, e) ↦ rw e (update_status-Inv hash t s.store v)
  ]
  step-Inv (sweep now) s v = evict_loop-Inv now s.store.records s.store 0 v

  -- Through any sequence of submissions, reports and sweeps, valid or not, a store that satisfies
  -- the invariant keeps it: a hash has at most one record, the record carries that hash, and the
  -- index of each status lists exactly the hashes of the records with that status, each once.
  pub run-Inv : (qs : List Request) (s : MempoolServer) → Inv s.store → Inv (run qs s).store
  unfolding run
  run-Inv [] s v = v
  run-Inv (q ∷ qs) s v = run-Inv qs (step q s) (step-Inv q s v)
