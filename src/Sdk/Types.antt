-- ===== src/Sdk/Types.antt =====
-- sdk/src/types.ts: the intent and its mempool statuses. Numbers that the package has validated
-- (chain id, deadline, timestamps) are natural numbers; amounts stay decimal strings.
use perihelion.Prelude.{ℕ, Bool, true, false, ite}
use perihelion.Prelude.JsMap.{Key}
use perihelion.Prelude.Text.{Text}

pub record Intent : Type 0 where
  pub user : Text
  pub destination : Text
  pub source_chain_id : ℕ
  pub source_asset : Text
  pub source_amount : Text
  pub dest_asset : Text
  pub min_dest_amount : Text
  pub deadline : ℕ
  pub nonce : Text
  pub preferred_solver : Text

pub data MempoolIntentStatus : Type 0 where
  pending filled settled refunded expired : MempoolIntentStatus

pub record SignedIntent : Type 0 where
  pub intent : Intent
  pub signature : Text
  pub hash : Text

unfoldable pub status_discrete : Discrete MempoolIntentStatus
status_discrete = hlevel

instance abbrev pub status_key : Key MempoolIntentStatus
status_key = record { same = status_discrete }

abbrev pub same_status : MempoolIntentStatus → MempoolIntentStatus → Bool
same_status s t = ite (status_discrete s t) true false
