-- ===== src/IdMap/Tests.antt =====
-- The request map at work, and its theorems at two requests.
use dns_relay_server.Base.{ℕ, ◌≡◌, refl, none, some, [], ◌∷◌, arith, ◌<◌}
use dns_relay_server.Net.{SockAddr}
use dns_relay_server.IdMap.{MapNode, IdMap, map_init, is_live, add_to_map, query_map}
use dns_relay_server.IdMap.View.{view, add_to_map-view}
use dns_relay_server.IdMap.Live.{Request, add_all, query_map-add_all}

abbrev alice : SockAddr
alice = record { sin_addr = 10; sin_port = 53 }

abbrev bob : SockAddr
bob = record { sin_addr = 11; sin_port = 54 }

abbrev one_waits : IdMap
unfolding add_to_map map_init
one_waits = (add_to_map 100 100 77 (some alice) map_init).1

-- The first request gets the serial number 1.
first_serial : (add_to_map 100 100 77 (some alice) map_init).0 ≡ 1
unfolding add_to_map map_init
first_serial = refl

-- The answer goes to the client under its own id, and a second answer to nobody.
one_answer : (query_map 1 one_waits).0 ≡ some (77, alice)
unfolding query_map one_waits
one_answer = refl

second_answer : (query_map 1 (query_map 1 one_waits).1).0 ≡ none
unfolding query_map one_waits
second_answer = refl

add_to_map-view_example :
    (2 < 65535)
    × ((add_to_map 101 101 78 (some bob) one_waits).0 ≡ 2)
    × (view (add_to_map 101 101 78 (some bob) one_waits).1 1 ≡ view one_waits 1)
unfolding is_live view one_waits
add_to_map-view_example = add_to_map-view 101 101 78 bob one_waits 1

abbrev request : ℕ → Request
request now = record { checked = now; filled = now; origin = 5; addr = some bob }

abbrev waiting : MapNode
waiting = record { last = 0; origin = 77; from = alice; time_out = 105 }

query_map-add_all_example :
    (query_map 1 (add_all (request 102 ∷ request 104 ∷ []) one_waits)).0 ≡ view one_waits 1
unfolding one_waits
query_map-add_all_example =
    query_map-add_all 1 waiting (request 102 ∷ request 104 ∷ []) one_waits refl
      (omega arith, (omega arith, tt))
