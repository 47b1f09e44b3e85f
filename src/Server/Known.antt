-- ===== src/Server/Known.antt =====
-- Where `connectHandle` sends to, for any bytes: to the DNS server, to the sender, or to a client
-- that waits.
use dns_relay_server.Base.{
  ℕ, ◌≡◌, ap, refl, Option, none, some, ◌==◌, Bool-cases, inl, inr, ◌⊎◌, List, length, ok, bind-ok,
  ok-same,
}
use dns_relay_server.Net.{SockAddr}
use dns_relay_server.Memory.{Memory}
use dns_relay_server.Protocol.{Packet}
use dns_relay_server.Address.{Family}
use dns_relay_server.IdMap.{uint16_max, query_map, add_to_map}
use dns_relay_server.IdMap.Known.{
  AllWaiting, query_map-AllWaiting, query_map-client, add_to_map-AllWaiting,
}
use dns_relay_server.Query.{Status, refused, count, url_store, url_query}
use dns_relay_server.Packet.{RawPacket, packet_parse, response_format}
use dns_relay_server.Packet.View.{packet_of}
use dns_relay_server.Server.{
  Server, Sent, Handled, nothing, forwarded, relayed, responded, relay, get_qr, forward,
  answer_request, handle_response, handle_request, connect_handle,
}
use dns_relay_server.Server.Datagram.{Datagram, set_id, raw_answers, send, connect_datagram}

-- The client that is sent to, if any.
abbrev pub ToClient : (SockAddr → Type 0) → Sent → Type 0
ToClient P nothing = Unit
ToClient P (forwarded serial) = Unit
ToClient P (relayed origin to) = P to
ToClient P (responded p to) = P to

abbrev pub SentTo : (SockAddr → Type 0) → Option Datagram → Type 0
SentTo P none = Unit
SentTo P (some d) = P d.to

module _ (P : SockAddr → Type 0) where
  ToClient-relay :
      (client : Option (ℕ × SockAddr))
      → ((origin : ℕ) → (to : SockAddr) → client ≡ some (origin, to) → P to)
      → ToClient P (relay client)
  ToClient-relay none h = tt
  ToClient-relay (some (origin, to)) h = h origin to refl

  module _ (s : Server) (all : AllWaiting P s.ids) where
    handle_response-ToClient :
        (len now : ℕ) (p : Packet) (h : Handled)
        → handle_response len now p s ≡ ok h
        → ToClient P h.sent × AllWaiting P h.server.ids
    unfolding handle_response
    handle_response-ToClient len now p h e =
        let (c, _, rest) = bind-ok (url_store len now p s.cache) _ h e in
        let same = ok-same _ h rest in
        (
          rw (← same) (
              ToClient-relay (query_map p.id s.ids).0
                (λ origin to. query_map-client P s.ids all p.id origin to)),
          rw (← same) (query_map-AllWaiting P s.ids all p.id),
        )

    forward-ToClient :
        (now : ℕ) (p : Packet) (from : SockAddr)
        → P from
        → ToClient P (forward now p from s).0 × AllWaiting P (forward now p from s).1.ids
    unfolding forward
    forward-ToClient now p from known =
        let rest = add_to_map-AllWaiting P s.ids all now now p.id from known in
        elim (Bool-cases ((add_to_map now now p.id (some from) s.ids).0 == uint16_max)) [
          | inl busy ↦ (rw busy tt, rest)
          | inr free ↦ (rw free tt, rest)
        ]

    answer_request-ToClient :
        (now : ℕ) (p : Packet) (from : SockAddr) (rotations : List (List ℕ)) (detached : ℕ)
        (status : Status) (response : Packet)
        → P from
        → ToClient P (answer_request now p from s rotations detached status response).sent
          × AllWaiting P (answer_request now p from s rotations detached status response).server.ids
    answer_request-ToClient now p from rotations detached refused response known = (known, all)
    answer_request-ToClient now p from rotations detached (count n) response known =
        elim (Bool-cases (n == 0)) [
          | inl empty ↦ rw empty (forward-ToClient now p from known)
          | inr others ↦ rw others (known, all)
        ]

    handle_request-ToClient :
        (len now : ℕ) (p : Packet) (from : SockAddr) (h : Handled)
        → P from
        → handle_request len now p from s ≡ ok h
        → ToClient P h.sent × AllWaiting P h.server.ids
    unfolding handle_request
    handle_request-ToClient len now p from h known e =
        let (r, _, rest) = bind-ok (url_query len now s.hosts p s.cache) _ h e in
        let same = ok-same _ h rest in
        rw (← same) (
          answer_request-ToClient now p from r.rotations r.detached r.status
            (record p { ans = r.ans }) known)

    connect_handle-ToClient :
        (len now : ℕ) (p : Packet) (from : SockAddr) (h : Handled)
        → P from
        → connect_handle len now p from s ≡ ok h
        → ToClient P h.sent × AllWaiting P h.server.ids
    unfolding connect_handle
    connect_handle-ToClient len now p from h known e = elim (Bool-cases (get_qr p.flags == 1)) [
      | inl response ↦ handle_response-ToClient len now p h (rw response at e)
      | inr request ↦ handle_request-ToClient len now p from h known (rw request at e)
    ]

  module _ (v4 v6 : Family) (fuel : ℕ) (contents : ℕ → ℕ) (dns_server : SockAddr) where
    abbrev pub Allowed : SockAddr → Type 0
    Allowed to = (to ≡ dns_server) ⊎ P to

    send-SentTo :
        (raw : RawPacket) (out : Sent) (sent : Option Datagram)
        → ToClient P out
        → send v4 v6 fuel contents dns_server raw out ≡ ok sent
        → SentTo Allowed sent
    unfolding send
    send-SentTo raw nothing sent known e = rw (← ok-same none sent e) tt
    send-SentTo raw (forwarded serial) sent known e =
        let (k, _, rest) = bind-ok (set_id raw.req_buf serial) _ sent e in
        rw (← ok-same _ sent rest) (inl refl)
    send-SentTo raw (relayed origin to) sent known e =
        let (k, _, rest) = bind-ok (set_id raw.req_buf origin) _ sent e in
        rw (← ok-same _ sent rest) (inr known)
    send-SentTo raw (responded p to) sent known e =
        let (ans, _, rest) = bind-ok (raw_answers contents p.ans) _ sent e in
        let (r, _, rest') =
          bind-ok
            (response_format v4 v6 fuel contents (record raw { ancount = length p.ans; ans = ans }))
            _ sent rest in
        rw (← ok-same _ sent rest') (inr known)

    -- The whole handler, for any bytes from an address with the property, when all clients that
    -- wait have it: what it sends goes to the DNS server or to an address with the property, and
    -- then again all clients that wait have it.
    pub connect_datagram-SentTo :
        (buf : Memory) (buf_len len now : ℕ) (from : SockAddr) (s : Server) (sent : Option Datagram)
        (h : Handled)
        → P from
        → AllWaiting P s.ids
        → connect_datagram v4 v6 fuel contents dns_server buf buf_len len now from s ≡ ok (sent, h)
        → SentTo Allowed sent × AllWaiting P h.server.ids
    unfolding connect_datagram
    connect_datagram-SentTo buf buf_len len now from s sent h known all e =
        let (raw, _, rest) = bind-ok (packet_parse v4 v6 fuel contents buf buf_len) _ (sent, h) e in
        let (p, _, rest1) = bind-ok (packet_of fuel raw) _ (sent, h) rest in
        let (h', run, rest2) = bind-ok (connect_handle len now p from s) _ (sent, h) rest1 in
        let (sent', out, rest3) =
          bind-ok (send v4 v6 fuel contents dns_server raw h'.sent) _ (sent, h) rest2 in
        let same = ok-same (sent', h') (sent, h) rest3 in
        let (to, waiting) = connect_handle-ToClient s all len now p from h' known run in
        let first : sent' ≡ sent = ap (λ t. t.0) same in
        let second : h' ≡ h = ap (λ t. t.1) same in
        (rw (← first) (send-SentTo raw h'.sent sent' to out), rw (← second) waiting)
