-- ===== src/IdMap/View.antt =====
-- What the map promises: a partial function from the serial numbers in use to clients.
use dns_relay_server.Base.{
  ℕ, ◌+◌, ◌/◌, ◌%◌, ◌<◌, ◌≡◌, ◌≢◌, Option, none, some, ◌==◌, if◌then◌else◌, arith, true, Bool,
}
use dns_relay_server.Net.{SockAddr}
use dns_relay_server.IdMap.{
  MapNode, IdMap, max_map_size, uint16_max, is_live, add_to_map, query_map,
}

client_of : ℕ → Option MapNode → Option (ℕ × SockAddr)
client_of serial none = none
client_of serial (some node) =
    if node.last == serial / max_map_size then some (node.origin, node.from) else none

-- The client that waits for the answer with this serial number.
unfoldable pub view : IdMap → ℕ → Option (ℕ × SockAddr)
unfolding client_of
view m serial = client_of serial (m.slots (serial % max_map_size))

-- The serial number that the next request is offered.
abbrev pub next_serial : IdMap → ℕ
next_serial m = (m.alloc + 1) % uint16_max

-- The slot that it maps to is held by a request that has not timed out.
abbrev pub slot_busy : ℕ → IdMap → Bool
slot_busy now m = is_live now (m.slots (next_serial m % max_map_size))

-- `queryMap` returns the waiting client and from then on no client waits under that serial
-- number; the clients under all other numbers (below 65536) still wait.
pub query_map-view :
    (serial : ℕ) (m : IdMap) (other : ℕ)
    → ((query_map serial m).0 ≡ view m serial)
      × (view (query_map serial m).1 other ≡ (if other == serial then none else view m other))
unfolding query_map view
query_map-view serial m other = (ground arith, ground arith)

-- `addToMap` with a client address: it returns 65535 and leaves every waiting client alone when
-- the slot of the next serial number is live; otherwise it returns that number, which is below
-- 65535, the new client waits under it, no other client waits under a number of the same slot,
-- and the clients of all other slots still wait.
pub add_to_map-view :
    (checked filled origin : ℕ) (addr : SockAddr) (m : IdMap) (other : ℕ)
    → (next_serial m < uint16_max)
      × ((add_to_map checked filled origin (some addr) m).0
          ≡ (if slot_busy checked m then uint16_max else next_serial m))
      × (view (add_to_map checked filled origin (some addr) m).1 other ≡ (
          if slot_busy checked m
          then view m other
          else if other == next_serial m
          then some (origin, addr)
          else if other % max_map_size == next_serial m % max_map_size
          then none
          else view m other))
unfolding add_to_map view
add_to_map-view checked filled origin addr m other = (omega arith, ground arith, ground arith)

-- A forwarded request is answered to the client that sent it, under its own id, and only once.
pub query_map-add_to_map :
    (checked filled origin : ℕ) (addr : SockAddr) (m : IdMap)
    → slot_busy checked m ≢ true
    → let (serial, m') = add_to_map checked filled origin (some addr) m in
      ((query_map serial m').0 ≡ some (origin, addr))
      × ((query_map serial (query_map serial m').1).0 ≡ none)
unfolding add_to_map query_map
query_map-add_to_map checked filled origin addr m free = (ground arith, ground arith)
