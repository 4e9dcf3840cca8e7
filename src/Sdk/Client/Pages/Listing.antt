-- ===== src/Sdk/Client/Pages/Listing.antt =====
-- The listing through the client of everything that a mempool's server lists.
use perihelion.Prelude.{
  ℕ, zero, suc, ◌*◌, ◌≤◌, ◌<◌, ◌≡◌, refl, sym, Bool, true, List, [], ◌∷◌, All, map, Option, none,
  some, length, take, drop, leb, arith, Option-cases, Bool-cases, inl, inr, subst,
}
use perihelion.Prelude.Int.{pos}
use perihelion.Prelude.JsMap
use perihelion.Prelude.JsMap.{JsMap}
use perihelion.Prelude.Text.{Text, text_key, text_discrete, to_lower_case}
use perihelion.Prelude.Result.{ok}
use perihelion.Sdk.Types.{MempoolIntentStatus}
use perihelion.Sdk.Decimal.{to_text}
use perihelion.Sdk.Json.{Number, int}
use perihelion.Sdk.Client.Pages.{list_pending}
use perihelion.Sdk.Client.Pages.Mempool.{Answers, Comes, list_pages-matches}
use perihelion.Mempool.Store
use perihelion.Mempool.Store.{MempoolIntentRecord, IntentStore, hashes_of, set_has}
use perihelion.Mempool.Store.Invariant.{Inv}
use perihelion.Mempool.Store.Pages.{Query, list, on_chain}
use perihelion.Mempool.Store.Paging.{visible, matches, rest_of, list_lem}
use perihelion.Mempool.Store.Walk.{hashes}
use perihelion.Mempool.Server.{MempoolServer, is_hash, parse_hash_param}
use perihelion.Mempool.Server.Listing.{
  Param, absent, single, handle_list_intents, list_query, status_param, chain_param, limit_param,
  cursor_param, max_list_limit,
}
use perihelion.Sdk.Client.Pages.Answers.{
  server_page, cursor_arg, status_text, client_record, Readable, status_sent,
  list_pending_page-page,
}

-- The matching records are in the store under their hashes.
visible-stored :
    (m : JsMap Text MempoolIntentRecord) (c : Option ℕ) (hs : List Text)
    → ((h : Text) (r : MempoolIntentRecord) → JsMap.get h m ≡ some r → r.hash ≡ h)
    → All (λ r. JsMap.get r.hash m ≡ some r) (visible m c hs)
unfolding visible
visible-stored m c [] k = tt
visible-stored m c (h ∷ hs) k = elim (Option-cases (JsMap.get h m)) [
  | inl e ↦ rw (e, visible) (visible-stored m c hs k)
  | inr (r, e) ↦
      let later = visible-stored m c hs k in
      let here : JsMap.get r.hash m ≡ some r =
        subst (λ g. JsMap.get g m ≡ some r) (sym (k h r e)) e in
      elim (Bool-cases (on_chain c r)) [
        | inl f ↦ rw (e, f, visible) (here, later)
        | inr f ↦ rw (e, f, visible) later
      ]
]

-- A known cursor is the hash of one of the records.
with_hash :
    (P Q : MempoolIntentRecord → Type 0) (rs : List MempoolIntentRecord) (d : Text)
    → All P rs
    → All Q rs
    → set_has d (hashes rs) ≡ true
    → (r : MempoolIntentRecord) × P r × Q r × (r.hash ≡ d)
unfolding set_has
with_hash P Q [] d p q h = cc
with_hash P Q (r ∷ rs) d p q h = elim (text_discrete r.hash d) [
  | yes e ↦ (r, p.0, q.0, e)
  | no n ↦ with_hash P Q rs d p.1 q.1 (ground arith)
]

All-take :
    (P : MempoolIntentRecord → Type 0) (n : ℕ) (rs : List MempoolIntentRecord)
    → All P rs
    → All P (take n rs)
All-take P zero rs h = tt
All-take P (suc n) [] h = tt
All-take P (suc n) (r ∷ rs) h = (h.0, All-take P n rs h.1)

All-drop :
    (P : MempoolIntentRecord → Type 0) (n : ℕ) (rs : List MempoolIntentRecord)
    → All P rs
    → All P (drop n rs)
All-drop P zero rs h = h
All-drop P (suc n) [] h = tt
All-drop P (suc n) (r ∷ rs) h = All-drop P n rs h.1

length-take-le : (n : ℕ) (rs : List MempoolIntentRecord) → length (take n rs) ≤ n
length-take-le zero rs = omega arith
length-take-le (suc n) [] = omega arith
length-take-le (suc n) (r ∷ rs) = omega (arith, length-take-le n rs)

single_cursor : (d : Text) → is_hash d ≡ true → cursor_arg (some d) ≡ single d
unfolding is_hash text_discrete
single_cursor [] h = cc
single_cursor (c ∷ cs) h = refl

module _ (is_address : Text → Bool) (max_retries : ℕ) (number_of : Text → Number)
    (status : MempoolIntentStatus) (limit : ℕ) (s : MempoolServer) where
  abbrev pub query : Query
  query = record { status = some status; chain_id = none; cursor = none; limit = limit }

  abbrev matching : List MempoolIntentRecord
  matching = matches query s.store

  -- The server understands what the client asks for.
  asked :
      (c : Param) (d : Option Text)
      → 0 < limit
      → limit ≤ max_list_limit
      → number_of (to_text limit) ≡ int (pos limit)
      → cursor_param c s.store ≡ ok d
      → list_query number_of (single (status_text status)) absent (single (to_text limit)) c s.store
        ≡ ok (record query { cursor = d })
  unfolding list_query status_param chain_param limit_param
  asked c d positive bounded printed h =
      let wide : leb 1 limit ≡ true = ground arith in
      let narrow : leb limit max_list_limit ≡ true = ground arith in
      rw (status_sent status, printed, wide, narrow, h, list_query, status_param, limit_param) refl

  cursor_known :
      (c : Option Text)
      → Inv s.store
      → All (Readable is_address) matching
      → Comes matching c
      → cursor_param (cursor_arg c) s.store ≡ ok c
  unfolding cursor_param parse_hash_param Store.get
  cursor_known none valid h known = refl
  cursor_known (some d) valid h known =
      let stored =
        visible-stored s.store.records none (hashes_of (some status) s.store) valid.keyed in
      let (r, readable, found, same) =
        with_hash (Readable is_address) _ matching d h stored known in
      let hashed : is_hash d ≡ true = rw same at readable.lower in
      let lower : to_lower_case d ≡ d = rw same at readable.same_case in
      let there : JsMap.get d s.store.records ≡ some r = rw same at found in
      rw (single_cursor d hashed, lower, hashed, there, cursor_param, parse_hash_param) refl

  server_page-Answers :
      0 < limit
      → limit ≤ max_list_limit
      → number_of (to_text limit) ≡ int (pos limit)
      → Inv s.store
      → All (Readable is_address) matching
      → Answers query s.store client_record
          (server_page is_address max_retries number_of status limit s)
  unfolding server_page handle_list_intents
  server_page-Answers positive bounded printed valid h n k c at known =
      let (shown, next) = list_lem (record query { cursor = c }) s.store valid in
      let part : All (Readable is_address) (list (record query { cursor = c }) s.store).records =
        rw (shown, at)
          (All-take (Readable is_address) limit (drop k matching)
            (All-drop (Readable is_address) k matching h)) in
      let few : length (list (record query { cursor = c }) s.store).records ≤ 5000 =
        rw shown (omega (arith, length-take-le limit (rest_of c matching), bounded)) in
      let query_read =
        asked (cursor_arg c) c positive bounded printed (cursor_known c valid h known) in
      rw (query_read, server_page, handle_list_intents)
        (list_pending_page-page is_address max_retries
          (list (record query { cursor = c }) s.store).records
          (list (record query { cursor = c }) s.store).next_cursor part few)

  -- Listing a mempool through its handler, the JSON of its pages and the SDK's parser, with a limit
  -- from 1 to 1000 and no change of the store in between, returns every matching record once and in
  -- order, if the pages allowed suffice for them, the store satisfies its invariant and the SDK
  -- reads each of the records, which it does not for the status "filled". `Number` is assumed to
  -- read the limit back.
  pub list_pending-matches :
      (most : ℕ)
      → 0 < limit
      → limit ≤ max_list_limit
      → number_of (to_text limit) ≡ int (pos limit)
      → Inv s.store
      → All (Readable is_address) matching
      → 0 < most
      → length matching ≤ most * limit
      → list_pending (server_page is_address max_retries number_of status limit s) most
        ≡ ok (map client_record matching)
  list_pending-matches most positive bounded printed valid h some_page few =
      list_pages-matches query s.store client_record
        (server_page is_address max_retries number_of status limit s) valid positive
        (server_page-Answers positive bounded printed valid h) most some_page few
