-- ===== src/Tests/Delivery.antt =====
-- Deliveries to Soroban: a transaction that is accepted at the second attempt and confirmed by the
-- third answer, and a message of 35 bytes.
use perihelion.Prelude.{
  ℕ, zero, suc, ◌≡◌, ◌<◌, ◌++◌, refl, ◌==◌, leb, if◌then◌else◌, List, All, some, length, arith,
}
use perihelion.Prelude.Text.{Text, codes}
use perihelion.Prelude.Result.{Result, ok, err}
use perihelion.Relayer.SorobanDelivery.{
  SendResult, try_again_later, accepted, TransactionStatus, success, pending, submit_and_wait,
  submit_loop, confirm_loop, confirmation_timeout, append_lz_receive_call, invalid_payload_length,
}
use perihelion.Relayer.SorobanDelivery.Submission.{Submits, submit_and_wait-Submits}
use perihelion.Relayer.SorobanDelivery.Payload.{append_lz_receive_call-to_hex}
use perihelion.Relayer.Types.{BridgeMessage, cancel_intent}
use perihelion.Sdk.Bytes.{repeated, to_hex}
use perihelion.Sdk.Bytes.Laws.{length-repeated}

abbrev send : ℕ → Result Text SendResult
send n =
    ok (record { hash = codes "hash"; status = (if n == 0 then try_again_later else accepted) })

abbrev answer : Text → ℕ → Result Text TransactionStatus
answer hash n = ok (if leb 2 n then success else pending)

submit_and_wait-Submits_example : Submits send answer 20 3 0 (submit_and_wait send answer 20 3)
submit_and_wait-Submits_example = submit_and_wait-Submits send answer 20 3

confirmed : submit_and_wait send answer 20 3 ≡ ok (codes "hash")
unfolding submit_and_wait submit_loop confirm_loop
confirmed = refl

given_up : submit_and_wait send answer 2 3 ≡ err (confirmation_timeout (codes "hash"))
unfolding submit_and_wait submit_loop confirm_loop
given_up = refl

abbrev sevens : List ℕ
sevens = repeated 7 35

abbrev cancellation : BridgeMessage
cancellation = record {
  src_eid = 30101;
  dst_eid = 30316;
  intent_hash = codes "0xaa";
  message_type = cancel_intent;
  solver = codes "";
  recipient = codes "";
  dest_asset = codes "";
  amount = codes "0";
  nonce = 4;
  deadline = 0;
  raw_payload = codes "0x" ++ to_hex sevens;
}

repeated-small : (n : ℕ) → All (λ b. b < 256) (repeated 7 n)
unfolding repeated
repeated-small zero = tt
repeated-small (suc n) = (omega arith, repeated-small n)

append_lz_receive_call-to_hex_example :
    append_lz_receive_call cancellation (some (repeated 1 32))
    ≡ (if length sevens == 35 then ok (repeated 1 32, sevens) else err invalid_payload_length)
append_lz_receive_call-to_hex_example =
    append_lz_receive_call-to_hex cancellation (repeated 1 32) sevens refl (repeated-small 35)
      (omega (arith, length-repeated 7 35)) refl
