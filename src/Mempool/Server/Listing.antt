-- ===== src/Mempool/Server/Listing.antt =====
-- `handleListIntents` of MempoolServer: the query parameters and the page they select. A parameter
-- is absent, repeated (no single text), or a text. `number_of` is JavaScript's `Number(text)`.
use perihelion.Prelude.{ℕ, ◌≤◌, ◌≡◌, Option, none, some, leb, if◌then◌else◌, is_some, arith}
use perihelion.Prelude.Int.{pos}
use perihelion.Prelude.Result.{Result, ok, err, ◌>>=◌}
use perihelion.Prelude.Text.{Text, codes}
use perihelion.Sdk.Types.{MempoolIntentStatus}
use perihelion.Sdk.Json.{Number, int}
use perihelion.Mempool.Store
use perihelion.Mempool.Store.{IntentStore}
use perihelion.Mempool.Store.Pages.{Query, list}
use perihelion.Mempool.Server.{MempoolServer, Response, page_of, fail, status_of, parse_hash_param}

abbrev pub default_list_limit : ℕ
default_list_limit = 100

abbrev pub max_list_limit : ℕ
max_list_limit = 1000

pub data Param : Type 0 where
  absent : Param
  repeated : Param
  single : Text → Param

unfoldable pub status_param : Param → Result Text (Option MempoolIntentStatus)
status_param absent = ok none
status_param repeated = err (codes "Invalid status filter")
status_param (single s) = elim (status_of s) [
  | none ↦ err (codes "Invalid status filter")
  | some status ↦ ok (some status)
]

-- `!this.store.get(cursor)` refuses a cursor without a record.
unfoldable pub cursor_param : Param → IntentStore → Result Text (Option Text)
cursor_param absent st = ok none
cursor_param repeated st = err (codes "Invalid cursor")
cursor_param (single c) st = elim (parse_hash_param c) [
  | none ↦ err (codes "Invalid cursor")
  | some hash ↦ if is_some (Store.get hash st) then ok (some hash) else err (codes "Invalid cursor")
]

-- `Number.isInteger(n) && n >= 1`.
abbrev pub positive_number : Number → Option ℕ
positive_number (int (pos n)) = if leb 1 n then some n else none
positive_number _ = none

module _ (number_of : Text → Number) where
  unfoldable pub chain_param : Param → Result Text (Option ℕ)
  chain_param absent = ok none
  chain_param repeated = err (codes "Invalid chainId filter")
  chain_param (single s) = elim (positive_number (number_of s)) [
    | none ↦ err (codes "Invalid chainId filter")
    | some n ↦ ok (some n)
  ]

  unfoldable pub limit_param : Param → Result Text ℕ
  limit_param absent = ok default_list_limit
  limit_param repeated = err (codes "Invalid limit")
  limit_param (single s) = elim (positive_number (number_of s)) [
    | none ↦ err (codes "Invalid limit")
    | some n ↦ if leb n max_list_limit then ok n else err (codes "Invalid limit")
  ]

  unfoldable pub list_query : Param → Param → Param → Param → IntentStore → Result Text Query
  list_query status chain_id limit cursor st = status_param status >>= λ s.
      chain_param chain_id >>= λ c. limit_param limit >>= λ n. cursor_param cursor st >>= λ k.
      ok (record { status = s; chain_id = c; cursor = k; limit = n })

  unfoldable pub handle_list_intents : Param → Param → Param → Param → MempoolServer → Response
  handle_list_intents status chain_id limit cursor s =
      elim (list_query status chain_id limit cursor s.store) [
        | err message ↦ fail 400 message
        | ok q ↦ record { status = 200; body = page_of (list q s.store) }
      ]

  limit_param_lem : (p : Param) {n : ℕ} → limit_param p ≡ ok n → (1 ≤ n) × (n ≤ max_list_limit)
  unfolding limit_param
  limit_param_lem absent h = ground arith
  limit_param_lem repeated h = cc
  limit_param_lem (single s) h = ground arith
