-- ===== src/Server/Steps.antt =====
-- The steps of the handler, and what a chain of them that returns says of each.
use dns_relay_server.Base.{
  ℕ, ◌≡◌, ◌∙◌, ap, sym, Option, [], ◌∷◌, ok, bind-ok, ok-same, if◌then◌else◌, ◌==◌,
}
use dns_relay_server.Net.{SockAddr}
use dns_relay_server.Memory.{Memory, load16}
use dns_relay_server.Protocol.{Packet}
use dns_relay_server.Address.{Family}
use dns_relay_server.Question.{read_quests}
use dns_relay_server.Packet.{RawPacket, packet_parse, parse_answers, load16_host}
use dns_relay_server.Packet.View.{packet_of, quests_of, answers_of, is_stored}
use dns_relay_server.Server.{Server, Sent, Handled, connect_handle}
use dns_relay_server.Server.Relay.{exchange}
use dns_relay_server.Server.Datagram.{Datagram, send, connect_datagram}

module _ (v4 v6 : Family) (fuel : ℕ) (contents : ℕ → ℕ) (buf : Memory) (len : ℕ) where
  -- Whatever `packetParse` returns has the bytes that it was given, and the ID in front of them.
  pub packet_parse-bytes :
      (raw : RawPacket)
      → packet_parse v4 v6 fuel contents buf len ≡ ok raw
      → (load16_host buf 0 ≡ ok raw.id) × (raw.req_buf ≡ buf) × (raw.buf_len ≡ len)
  unfolding packet_parse
  packet_parse-bytes raw e =
      let (id, e1, rest1) = bind-ok (load16_host buf 0) _ raw e in
      let (flags, _, rest2) = bind-ok (load16 buf 2) _ raw rest1 in
      let (qdcount, _, rest3) = bind-ok (load16 buf 4) _ raw rest2 in
      let (ancount, _, rest4) = bind-ok (load16 buf 6) _ raw rest3 in
      let ((quests, behind), _, rest5) =
        bind-ok (read_quests fuel contents qdcount buf 12) _ raw rest4 in
      let (ans, _, rest6) =
        bind-ok
          (if ancount == 0 then ok [] else parse_answers v4 v6 fuel contents ancount buf behind) _
          raw rest5 in
      let same = ok-same _ raw rest6 in
      (
        e1 ∙ ap (λ (r : RawPacket). ok r.id) same,
        sym (ap (λ r. r.req_buf) same),
        sym (ap (λ r. r.buf_len) same),
      )

pub packet_of-id :
    (fuel : ℕ) (raw : RawPacket) (p : Packet) → packet_of fuel raw ≡ ok p → p.id ≡ raw.id
packet_of-id fuel raw p e =
    let (quests, _, rest) = bind-ok (quests_of fuel raw.quests) _ p e in
    let (ans, _, rest') =
      bind-ok (answers_of fuel (is_stored raw.flags raw.quests) raw.ans) _ p rest in
    sym (ap (λ (q : Packet). q.id) (ok-same _ p rest'))

pub exchange-parts :
    (len now : ℕ) (p : Packet) (from : SockAddr) (later : ℕ) (p' : Packet) (anyone : SockAddr)
    (s s' : Server) (one two : Sent)
    → exchange len now p from later p' anyone s ≡ ok (one ∷ two ∷ [], s')
    → (r r' : Handled) × (connect_handle len now p from s ≡ ok r)
      × (connect_handle len later p' anyone r.server ≡ ok r')
      × (r.sent ≡ one)
      × (r'.sent ≡ two)
      × (r'.server ≡ s')
unfolding exchange
exchange-parts len now p from later p' anyone s s' one two e =
    let (r, run, rest) = bind-ok (connect_handle len now p from s) _ (one ∷ two ∷ [], s') e in
    let (r', run', rest') =
      bind-ok (connect_handle len later p' anyone r.server) _ (one ∷ two ∷ [], s') rest in
    let same = ok-same (r.sent ∷ r'.sent ∷ [], r'.server) (one ∷ two ∷ [], s') rest' in
    let sent : r.sent ∷ r'.sent ∷ [] ≡ one ∷ two ∷ [] = ap (λ t. t.0) same in
    (r, r', run, run', cc, cc, ap (λ t. t.1) same)

-- The steps of the handler, one after the other.
pub connect_datagram-steps :
    (v4 v6 : Family) (fuel : ℕ) (contents : ℕ → ℕ) (dns_server : SockAddr) (buf : Memory)
    (buf_len len now : ℕ) (from : SockAddr) (s : Server) (raw : RawPacket) (p : Packet)
    (r : Handled) (sent : Option Datagram)
    → packet_parse v4 v6 fuel contents buf buf_len ≡ ok raw
    → packet_of fuel raw ≡ ok p
    → connect_handle len now p from s ≡ ok r
    → send v4 v6 fuel contents dns_server raw r.sent ≡ ok sent
    → connect_datagram v4 v6 fuel contents dns_server buf buf_len len now from s ≡ ok (sent, r)
unfolding connect_datagram
connect_datagram-steps v4 v6 fuel contents dns_server buf buf_len len now from s raw p r sent e1 e2
      e3 e4 =
    rw (e1, e2, e3, e4)
