-- ===== src/Relayer/SorobanDelivery.antt =====
-- relayer/src/soroban-delivery.ts: submitting a transaction, the checks on a message before its
-- delivery, and what counts as delivered. The RPC server is given by its answers: to the k-th
-- submission of a transaction, and to the k-th question after its hash; a call may throw. The pauses between them and
-- the building of transactions are left out.
pub mod Submission
pub mod Payload
use perihelion.Prelude.{
  ℕ, zero, suc, ◌+◌, ◌*◌, List, Bool, true, false, ◌&&◌, Option, none, some, leb, ◌==◌, take, drop,
  length, if◌then◌else◌,
}
use perihelion.Prelude.Int.{pos, negsuc}
use perihelion.Prelude.Text.{Text, codes, text_eq, all_units, is_hex_digit}
use perihelion.Prelude.Result.{Result, err, ok, require, ◌>>◌}
use perihelion.Sdk.Bytes.{hex_bytes}
use perihelion.Sdk.Json.{Value, num, int}
use perihelion.Relayer.Types.{
  MessageType, fill_instruction, fill_confirmed, cancel_intent, BridgeMessage,
}
use perihelion.Relayer.Wire.{fill_instruction_length}

pub data IntentStatus : Type 0 where
  locked filled confirmation_sent cancelled : IntentStatus

abbrev of_discriminant : ℕ → Option IntentStatus
of_discriminant n =
    if n == 0
    then some locked
    else if n == 1
    then some filled
    else if n == 2
    then some confirmation_sent
    else if n == 3
    then some cancelled
    else none

-- The argument is the native value.
unfoldable pub decode_intent_status : Value → Option IntentStatus
decode_intent_status (num (int (pos n))) = of_discriminant n
decode_intent_status _ = none

-- `isDelivered`, given what `readStatus` returns or throws.
unfoldable pub is_delivered : MessageType → Result Text (Option IntentStatus) → Bool
is_delivered kind (err e) = false
is_delivered fill_instruction (ok (some s)) = true
is_delivered cancel_intent (ok (some cancelled)) = true
is_delivered fill_confirmed (ok (some filled)) = true
is_delivered fill_confirmed (ok (some confirmation_sent)) = true
is_delivered _ (ok _) = false

pub data FatalError : Type 0 where
  missing_payload invalid_payload_length invalid_deadline no_trusted_peer : FatalError

abbrev cancel_intent_length : ℕ
cancel_intent_length = 35

abbrev expected_length : MessageType → ℕ
expected_length fill_instruction = fill_instruction_length
expected_length fill_confirmed = cancel_intent_length
expected_length cancel_intent = cancel_intent_length

-- `/^0x[0-9a-fA-F]+$/`.
unfoldable pub is_hex : Text → Bool
is_hex s = text_eq (take 2 s) (codes "0x") && leb 3 (length s) && all_units is_hex_digit (drop 2 s)

abbrev has_deadline : BridgeMessage → Bool
has_deadline message = elim message.message_type [
  | fill_instruction ↦ leb 1 message.deadline
  | _ ↦ true
]

-- The checks of `appendLzReceiveCall`, given what `getPeer` returns; the deadline is a number. The
-- result is the peer and the bytes that the contract is called with.
unfoldable pub append_lz_receive_call :
    BridgeMessage → Option (List ℕ) → Result FatalError (List ℕ × List ℕ)
append_lz_receive_call message peer =
    require (is_hex message.raw_payload) missing_payload
    >> require (length message.raw_payload == 2 * expected_length message.message_type + 2)
        invalid_payload_length
    >> require (has_deadline message) invalid_deadline
    >> elim peer [
      | none ↦ err no_trusted_peer
      | some sender ↦ ok (sender, hex_bytes (drop 2 message.raw_payload))
    ]

-- What `sendTransaction` answers; `accepted` stands for PENDING and DUPLICATE.
pub data SendStatus : Type 0 where
  rejected : Text → SendStatus
  try_again_later accepted : SendStatus

pub record SendResult : Type 0 where
  pub hash : Text
  pub status : SendStatus

-- What `getTransaction` answers.
pub data TransactionStatus : Type 0 where
  success pending : TransactionStatus
  failed : Text → TransactionStatus

pub data SubmitError : Type 0 where
  rejected_by_rpc : Text → SubmitError
  not_accepted : ℕ → Text → SubmitError
  transaction_failed : Text → SubmitError
  confirmation_timeout : Text → SubmitError
  rpc_failed : Text → SubmitError
  out_of_fuel : SubmitError

module _ (send : ℕ → Result Text SendResult)
    (get_transaction : Text → ℕ → Result Text TransactionStatus)
    (max_attempts max_resubmits : ℕ) where
  -- The loop over `attempts`.
  unfoldable pub confirm_loop : ℕ → Text → ℕ → Result SubmitError Text
  confirm_loop zero hash attempts = err out_of_fuel
  confirm_loop (suc fuel) hash attempts = elim (leb max_attempts attempts) [
    | true ↦ err (confirmation_timeout hash)
    | false ↦ elim (get_transaction hash attempts) [
      | err thrown ↦ err (rpc_failed thrown)
      | ok status ↦ elim status [
        | success ↦ ok hash
        | failed result ↦ err (transaction_failed result)
        | pending ↦ confirm_loop fuel hash (attempts + 1)
      ]
    ]
  ]

  -- The outer loop; it is left after `resubmits` has reached its maximum.
  unfoldable pub submit_loop : ℕ → ℕ → Result SubmitError Text
  submit_loop zero resubmits = err out_of_fuel
  submit_loop (suc fuel) resubmits = elim (send resubmits) [
    | err thrown ↦ err (rpc_failed thrown)
    | ok result ↦ elim result.status [
      | rejected error ↦ err (rejected_by_rpc error)
      | try_again_later ↦ elim (leb max_resubmits resubmits) [
        | true ↦ err (not_accepted resubmits result.hash)
        | false ↦ submit_loop fuel (resubmits + 1)
      ]
      | accepted ↦ confirm_loop (max_attempts + 1) result.hash 0
    ]
  ]

  unfoldable pub submit_and_wait : Result SubmitError Text
  submit_and_wait = submit_loop (max_resubmits + 1) 0
