-- ===== src/Tests/Client.antt =====
-- A client: retries, a listing, a settlement that is awaited, amounts.
use perihelion.Prelude.{
  ℕ, ◌+◌, ◌≡◌, ◌≢◌, refl, List, [], ◌∷◌, Option, none, some, leb, ◌==◌, if◌then◌else◌, arith,
}
use perihelion.Prelude.Int.{pos}
use perihelion.Prelude.Text.{Text, codes, text_discrete}
use perihelion.Prelude.Result.{Result, err, ok, ◌>>=◌}
use perihelion.Sdk.Types.{MempoolIntentStatus, pending, settled}
use perihelion.Sdk.Json.{int}
use perihelion.Sdk.Validate.Records.{IntentRecord}
use perihelion.Sdk.Decimal.{to_text, trim, digits_value}
use perihelion.Sdk.Client.{
  ClientError, Thrown, error, Response, settle, is_transient, is_abort_error, fetch_with_retry,
  backoff,
}
use perihelion.Sdk.Client.Retry.{Decides, backoffs, fetch_with_retry_lem}
use perihelion.Sdk.Client.Pages.{list_pending, seen_has, is_below}
use perihelion.Sdk.Client.Pages.Complete.{Ends, list_pending-Ends}
use perihelion.Sdk.Client.Waiting.{done, out_of_fuel, is_late, is_terminal, wait_for_settlement}
use perihelion.Sdk.Client.Waiting.Ends.{
  Polled, statuses, changes, wait_for_settlement_returns, wait_for_settlement_ends,
}
use perihelion.Sdk.Units.{
  to_smallest_units, from_smallest_units, assert_valid_decimals, signed_digits, print_units,
}
use perihelion.Sdk.Units.RoundTrip.{to_smallest_units-from_smallest_units}
use perihelion.Tests.Orders.{intent}

-- A broken connection, then a server error, then an answer.
abbrev fetch : ℕ → Result Thrown Response
fetch n =
    if n == 0
    then err (error (codes "TypeError") (codes "fetch failed"))
    else ok (record { status = (if n == 1 then 503 else 200); text = []; json = none })

fetch_with_retry_lem_example :
    (n : ℕ) × Decides (codes "getIntent") fetch 0 3 n
    × ((fetch_with_retry (codes "getIntent") fetch 3).result
        ≡ settle (codes "getIntent") (fetch (0 + n)))
    × ((fetch_with_retry (codes "getIntent") fetch 3).waits ≡ backoffs 0 n)
fetch_with_retry_lem_example = fetch_with_retry_lem (codes "getIntent") fetch 3

retried : (fetch_with_retry (codes "getIntent") fetch 3).waits ≡ 100 ∷ 200 ∷ []
unfolding fetch_with_retry is_transient is_abort_error text_discrete backoff
retried = refl

-- Two pages and no more.
abbrev two_pages : ℕ → Option Text → Result ClientError (List ℕ × Option Text)
two_pages n none = ok (1 ∷ 2 ∷ [], some (codes "c"))
two_pages n (some c) = ok (3 ∷ [], none)

list_pending-Ends_example : Ends two_pages 0 2 none [] (list_pending two_pages 2)
list_pending-Ends_example = list_pending-Ends two_pages 2

listed : list_pending two_pages 2 ≡ ok (1 ∷ 2 ∷ 3 ∷ [])
unfolding list_pending seen_has is_below
listed = refl

abbrev seen_as : MempoolIntentStatus → IntentRecord
seen_as s = record {
  signed = record { intent = intent 100; signature = []; hash = codes "0x01" };
  status = s;
  solver = none;
  settlement_tx = none;
  created_at = 5;
}

abbrev polled : ℕ → Result ClientError IntentRecord
polled n = ok (seen_as (if leb 2 n then settled else pending))

abbrev clock : ℕ → ℕ
clock n = 1000 + n

awaited : (wait_for_settlement 1000 10 3 clock clock polled).outcome ≡ done (seen_as settled)
unfolding wait_for_settlement is_late is_terminal
awaited = refl

wait_for_settlement_ends_example :
    (wait_for_settlement 1000 10 3 clock clock polled).outcome ≢ out_of_fuel
wait_for_settlement_ends_example =
    wait_for_settlement_ends 1000 10 3 clock clock polled (omega arith) (λ j. omega arith)

wait_for_settlement_returns_example :
    (ps : List IntentRecord) × Polled (1000 + 10) 3 clock clock polled 0 ps (seen_as settled)
    × ((wait_for_settlement 1000 10 3 clock clock polled).notes
        ≡ changes none (statuses (1000 + 10) 3 clock clock polled ps (seen_as settled)))
wait_for_settlement_returns_example =
    wait_for_settlement_returns 1000 10 3 clock clock polled (seen_as settled) awaited

to_smallest_units-from_smallest_units_example :
    from_smallest_units (to_text 1500000) (int (pos 6)) >>= (λ t. to_smallest_units t (int (pos 6)))
    ≡ ok (to_text 1500000)
to_smallest_units-from_smallest_units_example =
    to_smallest_units-from_smallest_units 1500000 6 (omega arith)

in_units : from_smallest_units (codes "-1500000") (int (pos 6)) ≡ ok (codes "-1.5")
unfolding from_smallest_units assert_valid_decimals signed_digits trim print_units digits_value
    to_text
in_units = refl
