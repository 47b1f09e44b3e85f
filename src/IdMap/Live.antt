-- ===== src/IdMap/Live.antt =====
-- A request that has not timed out keeps its slot, whatever other requests come in.
use dns_relay_server.Base.{
  ℕ, ◌%◌, ◌<◌, ◌≡◌, Option, some, List, [], ◌∷◌, arith, Option-cases, inl, inr,
}
use dns_relay_server.Net.{SockAddr}
use dns_relay_server.IdMap.{MapNode, IdMap, max_map_size, add_to_map, query_map}
use dns_relay_server.IdMap.View.{view}

-- A client's request: the two readings of the clock, the id and the address.
pub record Request : Type 0 where
  pub checked : ℕ
  pub filled : ℕ
  pub origin : ℕ
  pub addr : Option SockAddr

abbrev pub add : Request → IdMap → ℕ × IdMap
add r = add_to_map r.checked r.filled r.origin r.addr

-- The requests come in one after another.
pub add_all : List Request → IdMap → IdMap
add_all [] m = m
add_all (r ∷ rs) m = add_all rs (add r m).1

-- Every request of the list is checked before the time `t`.
abbrev pub AllBefore : ℕ → List Request → Type 0
AllBefore t [] = Unit
AllBefore t (r ∷ rs) = (r.checked < t) × AllBefore t rs

add-slots :
    (i : ℕ) (node : MapNode) (r : Request) (m : IdMap)
    → m.slots i ≡ some node
    → r.checked < node.time_out
    → (add r m).1.slots i ≡ some node
unfolding add_to_map
add-slots i node r m held early = elim (Option-cases r.addr) [
  | inl e ↦ rw (e, held)
  | inr (a, e) ↦ rw e (ground arith)
]

add_all-slots :
    (i : ℕ) (node : MapNode) (rs : List Request) (m : IdMap)
    → m.slots i ≡ some node
    → AllBefore node.time_out rs
    → (add_all rs m).slots i ≡ some node
unfolding add_all
add_all-slots i node [] m held early = held
add_all-slots i node (r ∷ rs) m held early =
    add_all-slots i node rs (add r m).1 (add-slots i node r m held early.0) early.1

-- After any number of requests that are checked before the time-out of the request in the slot of
-- `serial`, an answer with that serial number still goes to the same client.
pub query_map-add_all :
    (serial : ℕ) (node : MapNode) (rs : List Request) (m : IdMap)
    → m.slots (serial % max_map_size) ≡ some node
    → AllBefore node.time_out rs
    → (query_map serial (add_all rs m)).0 ≡ view m serial
unfolding query_map view
query_map-add_all serial node rs m held early =
    rw (add_all-slots (serial % max_map_size) node rs m held early, held) (ground arith)
