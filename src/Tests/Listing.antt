-- ===== src/Tests/Listing.antt =====
-- Listing a mempool with one record through the SDK.
use perihelion.Prelude.{◌≡◌, refl, [], ◌∷◌, All, map, none, arith}
use perihelion.Prelude.Int.{pos}
use perihelion.Prelude.JsMap
use perihelion.Prelude.Text.{
  codes, text_key, text_discrete, to_lower_case, is_hex_digit, is_digit, all_units,
}
use perihelion.Prelude.Result.{ok}
use perihelion.Sdk.Types.{pending, status_discrete}
use perihelion.Sdk.Json.{int}
use perihelion.Sdk.Stellar.{is_stellar_address, is_stellar_asset}
use perihelion.Sdk.Decimal.{is_positive_int_string, is_non_neg_int_string}
use perihelion.Sdk.Validate.{is_hex_of}
use perihelion.Sdk.Intent.Accepted.{Parses}
use perihelion.Sdk.Client.Pages.{list_pending}
use perihelion.Sdk.Client.Pages.Answers.{server_page, client_record, Readable}
use perihelion.Sdk.Client.Pages.Listing.{query, list_pending-matches}
use perihelion.Mempool.Store
use perihelion.Mempool.Store.{MempoolIntentRecord}
use perihelion.Mempool.Store.Invariant.{Inv, set-Inv, new_store-Inv}
use perihelion.Mempool.Store.Paging.{matches, visible}
use perihelion.Mempool.Server.{MempoolServer, is_hash, is_lower_hex_digit}
use perihelion.Tests.Requests.{any_address, intent, signature, server}

abbrev stored : MempoolIntentRecord
stored = record {
  intent = intent;
  signature = signature;
  hash = codes "0x00112233445566778899aabbccddeeff00112233445566778899aabbccddeeff";
  status = pending;
  created_at = 1002;
}

abbrev filled_server : MempoolServer
filled_server = record server { store = Store.set stored.hash stored (Store.new_store none none) }

filled_server-Inv : Inv filled_server.store
filled_server-Inv =
    set-Inv stored.hash stored (Store.new_store none none) (new_store-Inv none none) refl

stored-Parses : Parses any_address intent
unfolding is_stellar_address is_stellar_asset is_positive_int_string is_non_neg_int_string is_digit
    text_discrete all_units
stored-Parses = record {
  user = refl;
  destination = refl;
  chain = omega arith;
  asset = refl;
  amount = refl;
  dest = refl;
  least = refl;
  deadline = omega arith;
  nonce = refl;
  solver = refl;
}

stored-Readable : Readable any_address stored
unfolding is_hex_of is_hex_digit is_digit all_units is_hash is_lower_hex_digit text_discrete
    to_lower_case
stored-Readable = record {
  intent = stored-Parses;
  signature = refl;
  hash = refl;
  lower = refl;
  same_case = refl;
  status = λ e. cc;
  created = omega arith;
}

one_matches :
    matches (query any_address 3 (λ t. int (pos 2)) pending 2 filled_server) filled_server.store
    ≡ stored ∷ []
unfolding Store.set Store.put Store.make_room Store.evict_one Store.victim Store.first_terminal
    Store.delete Store.index_add Store.index_remove Store.new_store JsMap.get JsMap.set JsMap.delete
    text_discrete status_discrete Store.set_add Store.set_has Store.set_delete Store.keys visible
one_matches = refl

all-Readable :
    All
      (Readable any_address)
      (matches (query any_address 3 (λ t. int (pos 2)) pending 2 filled_server) filled_server.store)
all-Readable = rw one_matches (stored-Readable, tt)

list_pending-matches_example :
    list_pending (server_page any_address 3 (λ t. int (pos 2)) pending 2 filled_server) 1
    ≡ ok (
        map client_record (
          matches
            (query any_address 3 (λ t. int (pos 2)) pending 2 filled_server)
            filled_server.store))
list_pending-matches_example =
    list_pending-matches any_address 3 (λ t. int (pos 2)) pending 2 filled_server 1 (omega arith)
      (omega arith) refl filled_server-Inv all-Readable (omega arith) (rw one_matches (omega arith))
