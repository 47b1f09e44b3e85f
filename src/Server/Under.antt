-- ===== src/Server/Under.antt =====
-- What `send` makes of a packet that it passes on.
use dns_relay_server.Base.{
  ℕ, ◌+◌, ◌*◌, ◌/◌, ◌%◌, ◌≤◌, ◌<◌, ◌≡◌, refl, Option, some, List, [], ◌∷◌, arith, ok, Returns,
}
use dns_relay_server.Net.{SockAddr}
use dns_relay_server.Memory.{Memory}
use dns_relay_server.Memory.Stored.{Stored, SameOutside}
use dns_relay_server.Address.{Family}
use dns_relay_server.Address.RoundTrip.{store_bytes-Stored}
use dns_relay_server.Packet.{RawPacket, load16_host}
use dns_relay_server.Server.{forwarded, relayed}
use dns_relay_server.Server.Datagram.{Datagram, id_bytes, set_id, send}

set_id-Stored :
    (buf : Memory) (id : ℕ)
    → 2 ≤ buf.size
    → Returns (set_id buf id) λ k. Stored k 0 (id_bytes id) × SameOutside buf k 0 2
unfolding set_id
set_id-Stored buf id room = store_bytes-Stored (id_bytes id) buf 0 room

-- The datagram is `buf` with another id, for the address `to`.
pub record IsUnder (buf : Memory) (buf_len : ℕ) (id : List ℕ) (to : SockAddr)
    (sent : Option Datagram) : Type 0 where
  pub datagram : Datagram
  pub sent_one : sent ≡ some datagram
  pub len : datagram.len ≡ buf_len
  pub to_whom : datagram.to ≡ to
  pub id_there : Stored datagram.bytes 0 id
  pub others : SameOutside buf datagram.bytes 0 2

module _ (v4 v6 : Family) (fuel : ℕ) (contents : ℕ → ℕ) (dns_server : SockAddr) (buf : Memory)
    (buf_len : ℕ) (raw : RawPacket) (same : raw.req_buf ≡ buf) (size : raw.buf_len ≡ buf_len)
    (room : 2 ≤ buf.size) where
  under :
      (id : ℕ) (to : SockAddr)
      → (k : Memory) × (set_id raw.req_buf id ≡ ok k)
        × IsUnder buf buf_len
            (id_bytes id)
            to
            (some (record { bytes = k; len = raw.buf_len; to = to }))
  under id to =
      let (k, run, (stored, others)) = set_id-Stored buf id room in
      (
        k,
        rw same run,
        record {
          datagram = record { bytes = k; len = raw.buf_len; to = to };
          sent_one = refl;
          len = size;
          to_whom = refl;
          id_there = stored;
          others = others;
        },
      )

  pub send-forwarded :
      (serial : ℕ)
      → Returns
          (send v4 v6 fuel contents dns_server raw (forwarded serial))
          λ sent. IsUnder buf buf_len (id_bytes serial) dns_server sent
  unfolding send
  send-forwarded serial = let (k, run, is) = under serial dns_server in (_, rw run, is)

  pub send-relayed :
      (origin : ℕ) (to : SockAddr)
      → Returns
          (send v4 v6 fuel contents dns_server raw (relayed origin to))
          λ sent. IsUnder buf buf_len (id_bytes origin) to sent
  unfolding send
  send-relayed origin to = let (k, run, is) = under origin to in (_, rw run, is)

pub id_bytes-bytes : (i0 i1 : ℕ) → i0 < 256 → i1 < 256 → id_bytes (i1 * 256 + i0) ≡ i0 ∷ i1 ∷ []
id_bytes-bytes i0 i1 low high =
    let first : (i1 * 256 + i0) % 256 ≡ i0 = omega arith in
    let second : (i1 * 256 + i0) / 256 % 256 ≡ i1 = omega arith in rw (first, second)

pub load_id :
    (buf : Memory) (id : ℕ)
    → id < 65536
    → 2 ≤ buf.size
    → Stored buf 0 (id_bytes id)
    → load16_host buf 0 ≡ ok id
load_id buf id small room s = ground (arith, s.0, s.1.0)
