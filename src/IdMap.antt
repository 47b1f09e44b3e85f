-- ===== src/IdMap.antt =====
-- The request map of src/Server/map.c and include/utils/map.h: a client's request is forwarded under
-- a serial number, and the answer to it is sent back under the client's own id.
-- `time(NULL)` is read twice by `addToMap`, and both readings are arguments. The array is a
-- function that is read and written below `max_map_size`; the calls run one after another.
pub mod View
pub mod Live
pub mod Known
mod Tests
use dns_relay_server.Base.{
  ℕ, ◌+◌, ◌/◌, ◌%◌, Bool, false, Option, none, some, ltb, ◌==◌, not, ◌||◌, if◌then◌else◌, update,
}
use dns_relay_server.Net.{SockAddr}

abbrev pub max_map_size : ℕ
max_map_size = 128

abbrev pub convert_ttl : ℕ
convert_ttl = 5

abbrev pub uint16_max : ℕ
uint16_max = 65535

pub record MapNode : Type 0 where
  pub last : ℕ
  pub origin : ℕ
  pub from : SockAddr
  pub time_out : ℕ

-- `__ID_MAP__` and `__MAP_ALLOC__`.
pub record IdMap : Type 0 where
  pub slots : ℕ → Option MapNode
  pub alloc : ℕ

unfoldable pub map_init : IdMap
map_init = record { slots = λ _. none; alloc = 0 }

-- The slot holds a request that has not timed out.
unfoldable pub is_live : ℕ → Option MapNode → Bool
is_live now none = false
is_live now (some node) = ltb now node.time_out

fill : ℕ → ℕ → SockAddr → ℕ → IdMap → IdMap
fill now origin addr serial m = record m {
  slots = update m.slots (serial % max_map_size) (
      some (record {
        last = serial / max_map_size;
        origin = origin;
        from = addr;
        time_out = now + convert_ttl;
      }));
}

-- The counter moves also when the slot is taken.
add_at : ℕ → ℕ → ℕ → SockAddr → ℕ → IdMap → ℕ × IdMap
unfolding is_live fill
add_at checked filled origin addr serial m =
    if is_live checked (m.slots (serial % max_map_size))
    then (uint16_max, record m { alloc = serial })
    else (serial, fill filled origin addr serial (record m { alloc = serial }))

unfoldable pub add_to_map : ℕ → ℕ → ℕ → Option SockAddr → IdMap → ℕ × IdMap
unfolding add_at
add_to_map checked filled origin none m = (uint16_max, m)
add_to_map checked filled origin (some addr) m =
    add_at checked filled origin addr ((m.alloc + 1) % uint16_max) m

-- `none` is the return value -1.
take_slot : ℕ → Option MapNode → IdMap → Option (ℕ × SockAddr) × IdMap
take_slot serial none m = (none, m)
take_slot serial (some node) m = if not (node.last == serial / max_map_size) then (none, m) else (
  some (node.origin, node.from),
  record m { slots = update m.slots (serial % max_map_size) none },
)

unfoldable pub query_map : ℕ → IdMap → Option (ℕ × SockAddr) × IdMap
unfolding take_slot
query_map serial m = take_slot serial (m.slots (serial % max_map_size)) m
