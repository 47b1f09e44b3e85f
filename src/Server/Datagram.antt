-- ===== src/Server/Datagram.antt =====
-- `connectHandle` from the bytes that are received to those that are sent. `contents` are the bytes
-- that `malloc` returns, and those of `args->buf` behind the ones received. `dns_server` is the
-- address of `__DNS_SERVER__`.
use dns_relay_server.Base.{
  ℕ, ◌+◌, ◌*◌, ◌/◌, ◌%◌, Option, none, some, List, [], ◌∷◌, ◌++◌, length, Run, ok, ◌>>=◌,
}
use dns_relay_server.Net.{SockAddr}
use dns_relay_server.Entry.{Text, deref}
use dns_relay_server.Memory.{Memory, store_bytes}
use dns_relay_server.Protocol.{Answer, type_buf_size}
use dns_relay_server.Address.{Family}
use dns_relay_server.Packet.{RawAnswer, RawPacket, packet_parse, response_format}
use dns_relay_server.Packet.View.{packet_of}
use dns_relay_server.Server.{
  Sent, Server, Handled, nothing, forwarded, relayed, responded, connect_handle,
}

-- What `sendto` is given: a buffer, a number of bytes, and the address.
pub record Datagram : Type 0 where
  pub bytes : Memory
  pub len : ℕ
  pub to : SockAddr

-- SET_ID: the two bytes as the host has them in memory.
abbrev pub id_bytes : ℕ → Text
id_bytes id = id % 256 ∷ id / 256 % 256 ∷ []

unfoldable pub set_id : Memory → ℕ → Run Memory
set_id buf id = store_bytes (id_bytes id) buf 0

module _ (contents : ℕ → ℕ) where
  -- An answer as `urlQuery` makes it: its string is copied into TYPE_BUF_SIZE bytes. NAME and RDLEN
  -- are what `realloc` returned.
  unfoldable pub raw_answer : Answer → Run RawAnswer
  raw_answer a = do
    ip ← deref a.rdata
    rdata ← store_bytes (ip ++ 0 ∷ []) (record { size = type_buf_size a.type; at = contents }) 0
    ok (record {
      qpos = a.qpos;
      name = contents 2 % 256 + contents 3 % 256 * 256;
      type = a.type;
      class = a.class;
      rdlen = contents 8 % 256 + contents 9 % 256 * 256;
      ttl = a.ttl;
      addition = a.addition;
      rdata = some rdata;
    })

  unfoldable pub raw_answers : List Answer → Run (List RawAnswer)
  raw_answers [] = ok []
  raw_answers (a ∷ ans) = do raw ← raw_answer a; rest ← raw_answers ans; ok (raw ∷ rest)

module _ (v4 v6 : Family) (fuel : ℕ) (contents : ℕ → ℕ) where
  -- The calls of `sendto`: the received bytes under another id, or the response.
  unfoldable pub send : (dns_server : SockAddr) → RawPacket → Sent → Run (Option Datagram)
  send dns_server raw nothing = ok none
  send dns_server raw (forwarded serial) = do
    bytes ← set_id raw.req_buf serial
    ok (some (record { bytes = bytes; len = raw.buf_len; to = dns_server }))
  send dns_server raw (relayed origin to) = do
    bytes ← set_id raw.req_buf origin
    ok (some (record { bytes = bytes; len = raw.buf_len; to = to }))
  send dns_server raw (responded p to) = do
    ans ← raw_answers contents p.ans
    (bytes, len) ←
        response_format v4 v6 fuel contents (record raw { ancount = length p.ans; ans = ans })
    ok (some (record { bytes = bytes; len = len; to = to }))

  -- The whole handler, for `buf_len` bytes in `buf` from the address `from`.
  unfoldable pub connect_datagram :
      (dns_server : SockAddr) (buf : Memory) (buf_len : ℕ) (len now : ℕ)
      → SockAddr
      → Server
      → Run (Option Datagram × Handled)
  connect_datagram dns_server buf buf_len len now from s = do
    raw ← packet_parse v4 v6 fuel contents buf buf_len
    p ← packet_of fuel raw
    r ← connect_handle len now p from s
    sent ← send dns_server raw r.sent
    ok (sent, r)
