-- ===== src/Tests/Orders.antt =====
-- A small order book: the store, its pages, its sweep and the rate limiter.
use perihelion.Prelude.{
  ℕ, ◌+◌, ◌≤◌, ◌≡◌, ◌≢◌, refl, false, not, List, [], ◌∷◌, none, some, length, arith,
}
use perihelion.Prelude.JsMap
use perihelion.Prelude.Text.{Text, codes, text_key, text_discrete, ne_of_text_eq}
use perihelion.Sdk.Types.{
  Intent, MempoolIntentStatus, pending, filled, settled, refunded, status_discrete,
}
use perihelion.Mempool.Store
use perihelion.Mempool.Store.{MempoolIntentRecord, IntentStore}
use perihelion.Mempool.Store.Invariant.{Inv, set-Inv, new_store-Inv}
use perihelion.Mempool.Store.Eviction.{IsBounded, set-IsBounded, set_spares_live}
use perihelion.Mempool.Store.Status.{
  update_all, terminal_is_final, update_status_lem, is_open, with_status,
}
use perihelion.Mempool.Store.Sweep.{evict_expired_lem, evict_expired_early, is_swept}
use perihelion.Mempool.Store.Pages.{Query}
use perihelion.Mempool.Store.Paging.{matches}
use perihelion.Mempool.Store.Walk.{walk, walk_complete}
use perihelion.Mempool.RateLimit.{Limiter}
use perihelion.Mempool.RateLimit.Window.{passed, count_in, passed_bounded}

abbrev pub intent : ℕ → Intent
intent deadline = record {
  user = codes "0xuser";
  destination = codes "G";
  source_chain_id = 1;
  source_asset = codes "0xusdc";
  source_amount = codes "1000";
  dest_asset = codes "native";
  min_dest_amount = codes "900";
  deadline = deadline;
  nonce = codes "7";
  preferred_solver = codes "0x0";
}

abbrev entry : Text → MempoolIntentStatus → ℕ → MempoolIntentRecord
entry h s deadline = record {
  intent = intent deadline;
  signature = codes "0xab";
  hash = h;
  status = s;
  created_at = 5;
}

abbrev first : Text
first = codes "0x01"

abbrev second : Text
second = codes "0x02"

abbrev third : Text
third = codes "0x03"

abbrev empty : IntentStore
empty = Store.new_store (some 2) (some 60000)

abbrev one : IntentStore
one = Store.set first (entry first pending 100) empty

abbrev pub two : IntentStore
two = Store.set second (entry second settled 200) one

one-Inv : Inv one
one-Inv = set-Inv first (entry first pending 100) empty (new_store-Inv (some 2) (some 60000)) refl

pub two-Inv : Inv two
two-Inv = set-Inv second (entry second settled 200) one one-Inv refl

set_drops_terminal : JsMap.get second (Store.set third (entry third pending 300) two).records ≡ none
unfolding Store.set Store.put Store.make_room Store.evict_one Store.victim Store.first_terminal
    Store.delete Store.index_add Store.index_remove Store.new_store JsMap.get JsMap.set JsMap.delete
    text_discrete status_discrete Store.set_add Store.set_has Store.set_delete
set_drops_terminal = refl

two-IsBounded : IsBounded two
unfolding Store.set Store.put Store.make_room Store.evict_one Store.victim Store.first_terminal
    Store.delete Store.index_add Store.index_remove Store.new_store JsMap.get JsMap.set JsMap.delete
    text_discrete status_discrete Store.set_add Store.set_has Store.set_delete
two-IsBounded = omega arith

set-IsBounded_example : IsBounded (Store.set third (entry third pending 300) two)
set-IsBounded_example = set-IsBounded third (entry third pending 300) two two-Inv two-IsBounded

found_second : JsMap.get second two.records ≡ some (entry second settled 200)
unfolding Store.set Store.put Store.make_room Store.evict_one Store.victim Store.first_terminal
    Store.delete Store.index_add Store.index_remove Store.new_store JsMap.get JsMap.set JsMap.delete
    text_discrete status_discrete Store.set_add Store.set_has Store.set_delete
found_second = refl

found_first : JsMap.get first two.records ≡ some (entry first pending 100)
unfolding Store.set Store.put Store.make_room Store.evict_one Store.victim Store.first_terminal
    Store.delete Store.index_add Store.index_remove Store.new_store JsMap.get JsMap.set JsMap.delete
    text_discrete status_discrete Store.set_add Store.set_has Store.set_delete
found_first = refl

third_ne_first : third ≢ first
unfolding text_discrete
third_ne_first = ne_of_text_eq third first refl

third_ne_second : third ≢ second
unfolding text_discrete
third_ne_second = ne_of_text_eq third second refl

set_spares_live_example :
    JsMap.get first (Store.set third (entry third pending 300) two).records
    ≡ some (entry first pending 100)
set_spares_live_example =
    set_spares_live third first second (entry third pending 300) two two-Inv found_first refl
      found_second refl third_ne_first third_ne_second

terminal_is_final_example :
    JsMap.get second
      (update_all ((second, refunded) ∷ (first, filled) ∷ (second, pending) ∷ []) two).records
    ≡ some (entry second settled 200)
terminal_is_final_example =
    terminal_is_final ((second, refunded) ∷ (first, filled) ∷ (second, pending) ∷ []) second
      (entry second settled 200) two found_second refl

update_status_lem_example :
    (((Store.update_status first filled two).1 ≡ is_open (JsMap.get first two.records))
      × (JsMap.get first (Store.update_status first filled two).0.records
          ≡ with_status filled (JsMap.get first two.records))
      × (first ≢ second
          → JsMap.get second (Store.update_status first filled two).0.records
            ≡ JsMap.get second two.records)
      × ((Store.update_status first filled two).1 ≡ false
          → (Store.update_status first filled two).0 ≡ two))
    × ((Store.keys (Store.update_status first filled two).0.records ≡ Store.keys two.records)
        × ((Store.update_status first filled two).0.max_size ≡ two.max_size)
        × ((Store.update_status first filled two).0.expiry_grace_ms ≡ two.expiry_grace_ms))
    × Inv (Store.update_status first filled two).0
update_status_lem_example = update_status_lem first second filled two two-Inv

evict_expired_lem_example :
    Inv (Store.evict_expired 150 two).0
    × ((h : Text)
        → JsMap.get h (Store.evict_expired 150 two).0.records
          ≡ JsMap.kept (λ r. not (is_swept 150 two.expiry_grace_ms r)) (JsMap.get h two.records))
    × (length (Store.evict_expired 150 two).0.records + (Store.evict_expired 150 two).1
        ≡ length two.records)
evict_expired_lem_example = evict_expired_lem 150 two two-Inv

two_grace : two.expiry_grace_ms ≡ 60000
unfolding Store.set Store.put Store.make_room Store.evict_one Store.victim Store.first_terminal
    Store.delete Store.index_add Store.index_remove Store.new_store JsMap.get JsMap.set JsMap.delete
    text_discrete status_discrete Store.set_add Store.set_has Store.set_delete
two_grace = refl

-- The record expires at 200; the sweep at 150 already drops it.
evict_expired_early_example : JsMap.get second (Store.evict_expired 150 two).0.records ≡ none
evict_expired_early_example =
    evict_expired_early 150 two second (entry second settled 200) two-Inv found_second (omega arith)
      (omega (arith, two_grace))

abbrev pub by_one : Query
by_one = record { status = none; chain_id = some 1; cursor = none; limit = 1 }

walk_complete_example : walk (length (matches by_one two) + 1) by_one two ≡ matches by_one two
walk_complete_example = walk_complete by_one two two-Inv (omega arith) refl

abbrev limiter : Limiter
limiter = record { hits = []; window_ms = 100; rejections = 0 }

abbrev arrivals : List (Text × ℕ)
arrivals = (first, 10) ∷ (second, 20) ∷ (first, 30) ∷ (first, 50) ∷ (first, 120) ∷ []

first_limited : JsMap.get first limiter.hits ≡ none
unfolding JsMap.get
first_limited = refl

passed_bounded_example : count_in 10 limiter.window_ms (passed first 2 arrivals limiter) ≤ 2
passed_bounded_example =
    passed_bounded first 2 10 arrivals 0 limiter
      (omega arith, (omega arith, (omega arith, (omega arith, (omega arith, tt))))) first_limited
