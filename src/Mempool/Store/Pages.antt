-- ===== src/Mempool/Store/Pages.antt =====
-- `list` of the intent store: one page of the records that match a filter, after a cursor.
use perihelion.Prelude.{
  ℕ, Bool, true, false, List, [], ◌∷◌, ◌++◌, Option, none, some, length, leb, ◌==◌, if◌then◌else◌,
  ite, not, is_some,
}
use perihelion.Prelude.JsMap
use perihelion.Prelude.JsMap.{JsMap}
use perihelion.Prelude.Text.{Text, text_discrete, text_key}
use perihelion.Sdk.Types.{MempoolIntentStatus}
use perihelion.Mempool.Store.{MempoolIntentRecord, IntentStore, hashes_of}

pub record Query : Type 0 where
  pub status : Option MempoolIntentStatus
  pub chain_id : Option ℕ
  pub cursor : Option Text
  pub limit : ℕ

pub record Page : Type 0 where
  pub records : List MempoolIntentRecord
  pub next_cursor : Option Text

-- `chainId === undefined || record.intent.sourceChainId === chainId`.
abbrev pub on_chain : Option ℕ → MempoolIntentRecord → Bool
on_chain none r = true
on_chain (some c) r = r.intent.source_chain_id == c

-- `hash === cursor`.
abbrev pub is_cursor : Text → Option Text → Bool
is_cursor h none = false
is_cursor h (some c) = ite (text_discrete h c) true false

-- `page[page.length - 1]?.hash`.
unfoldable pub last_hash : List MempoolIntentRecord → Option Text
last_hash [] = none
last_hash (r ∷ []) = some r.hash
last_hash (r ∷ s ∷ rs) = last_hash (s ∷ rs)

-- The loop over the hashes: `reached`, the page so far, and at the end the page and `more`.
unfoldable pub page_loop :
    JsMap Text MempoolIntentRecord
    → Query
    → List Text
    → Bool
    → List MempoolIntentRecord
    → List MempoolIntentRecord × Bool
page_loop records q [] reached page = (page, false)
page_loop records q (h ∷ hs) reached page = elim (JsMap.get h records) [
  | none ↦ page_loop records q hs reached page
  | some r ↦ elim (on_chain q.chain_id r) [
    | false ↦ page_loop records q hs reached page
    | true ↦ elim reached [
      | false ↦ page_loop records q hs (is_cursor h q.cursor) page
      | true ↦ elim (leb q.limit (length page)) [
        | true ↦ (page, true)
        | false ↦ page_loop records q hs true (page ++ r ∷ [])
      ]
    ]
  ]
]

unfoldable pub list : Query → IntentStore → Page
list q st =
    let (page, more) = page_loop st.records q (hashes_of q.status st) (not (is_some q.cursor)) [] in
    record { records = page; next_cursor = if more then last_hash page else none }
