-- ===== src/Server.antt =====
-- The handler of src/Server/basic.c: what `connectHandle` does with a packet, from `packetParse` to
-- `sendto`. What it sends is the received packet under another id, or the response that
-- `responseFormat` makes of the packet with its answers.
pub mod Relay
pub mod Bytes
pub mod Datagram
pub mod Known
pub mod CacheSteps
pub mod Steps
pub mod Answers
pub mod Under
pub mod Cached
pub mod Forwarded
pub mod Sample
pub mod Inserted
mod Tests
use dns_relay_server.Base.{
  ℕ, ◌/◌, ◌==◌, if◌then◌else◌, Option, none, some, List, [], Run, ok, ◌>>=◌,
}
use dns_relay_server.Net.{SockAddr}
use dns_relay_server.IdMap.{IdMap, uint16_max, add_to_map, query_map}
use dns_relay_server.Protocol.{Packet}
unfoldable pub use dns_relay_server.Protocol.{get_qr}
use dns_relay_server.Cache.{Cache}
use dns_relay_server.Host.{Hosts}
use dns_relay_server.Query.{Status, refused, count, UrlResult, url_store, url_query}

-- `__URL_CACHE__`, `__HOST_HASHMAP__` if `__HOST_EXIST__` is set, and `__ID_MAP__`.
pub record Server : Type 0 where
  pub cache : Cache
  pub hosts : Option Hosts
  pub ids : IdMap

-- What is sent: nothing, the packet to the DNS server under a serial number, the packet to a client
-- under its own id, or a response to the client that asks.
pub data Sent : Type 0 where
  nothing : Sent
  forwarded : (serial : ℕ) → Sent
  relayed : (origin : ℕ) → (to : SockAddr) → Sent
  responded : Packet → (to : SockAddr) → Sent

-- What is sent, the state behind it, the nodes that wait for their rotation, and the number of
-- the detached threads that query the host table.
pub record Handled : Type 0 where
  pub sent : Sent
  pub server : Server
  pub rotations : List (List ℕ)
  pub detached : ℕ

abbrev pub relay : Option (ℕ × SockAddr) → Sent
relay none = nothing
relay (some (origin, to)) = relayed origin to

-- The branch of a response: the answers are stored before the id is looked up.
unfoldable pub handle_response : (len now : ℕ) → Packet → Server → Run Handled
handle_response len now p s = do
  c ← url_store len now p s.cache
  let (client, ids) = query_map p.id s.ids
  ok (record {
    sent = relay client;
    server = record s { cache = c; ids = ids };
    rotations = [];
    detached = 0;
  })

-- A request that has no answer here.
unfoldable pub forward : (now : ℕ) → Packet → SockAddr → Server → Sent × Server
forward now p from s =
    let (converted, ids) = add_to_map now now p.id (some from) s.ids in
    (if converted == uint16_max then nothing else forwarded converted, record s { ids = ids })

abbrev pub answer_request :
    (now : ℕ) → Packet → SockAddr → Server → List (List ℕ) → ℕ → Status → Packet → Handled
answer_request now p from s rotations detached refused response = record {
  sent = responded response from;
  server = s;
  rotations = rotations;
  detached = detached;
}
answer_request now p from s rotations detached (count n) response =
    let (sent, s') = forward now p from s in
    if n == 0
    then record { sent = sent; server = s'; rotations = rotations; detached = detached }
    else record {
      sent = responded response from;
      server = s;
      rotations = rotations;
      detached = detached;
    }

-- The branch of a request.
unfoldable pub handle_request : (len now : ℕ) → Packet → SockAddr → Server → Run Handled
handle_request len now p from s = do
  r ← url_query len now s.hosts p s.cache
  ok (answer_request now p from s r.rotations r.detached r.status (record p { ans = r.ans }))

unfoldable pub connect_handle : (len now : ℕ) → Packet → SockAddr → Server → Run Handled
connect_handle len now p from s =
    if get_qr p.flags == 1 then handle_response len now p s else handle_request len now p from s
