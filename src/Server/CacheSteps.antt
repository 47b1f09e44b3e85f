-- ===== src/Server/CacheSteps.antt =====
-- `connectHandle` as steps of the cache, in the sense of Cache.Steps.
use dns_relay_server.Base.{
  ℕ, ◌<◌, ◌≡◌, ap, refl, ◌==◌, Bool-cases, inl, inr, arith, Option, List, reverse_onto, All, ok,
  bind-ok, ok-same,
}
use dns_relay_server.Net.{SockAddr}
use dns_relay_server.Memory.{Memory}
use dns_relay_server.Protocol.{Packet}
use dns_relay_server.Address.{Family}
use dns_relay_server.Cache.Steps.{State, Reach}
use dns_relay_server.Query.{Status, refused, count, url_store, url_query}
use dns_relay_server.Query.Steps.{IsNamed, AllStored, at, url_store-Reach, url_query-Reach}
use dns_relay_server.Packet.{packet_parse}
use dns_relay_server.Packet.View.{packet_of}
use dns_relay_server.Packet.Strings.{packet_of-strings}
use dns_relay_server.Server.{
  Server, Handled, get_qr, forward, answer_request, handle_response, handle_request, connect_handle,
}
use dns_relay_server.Server.Datagram.{Datagram, send, connect_datagram}

-- The cache and the rotations behind a handler.
abbrev pub behind : Handled → List (List ℕ) → State
behind h waiting = at h.server.cache (reverse_onto h.rotations waiting)

module _ (len now : ℕ) (pos : 0 < len) (waiting : List (List ℕ)) (s : Server)
    (reached : Reach len (at s.cache waiting)) where
  handle_response-Reach :
      (p : Packet) (h : Handled)
      → All IsNamed p.quests
      → AllStored p.quests p.ans
      → handle_response len now p s ≡ ok h
      → Reach len (behind h waiting)
  unfolding handle_response
  handle_response-Reach p h named all run =
      let (c, stored, rest) = bind-ok (url_store len now p s.cache) _ h run in
      let same = ok-same _ h rest in
      rw (← same)
        (url_store-Reach len now pos waiting p p.quests s.cache c refl named all reached stored)

  answer_request-same :
      (p : Packet) (from : SockAddr) (rotations : List (List ℕ)) (detached : ℕ) (status : Status)
      (response : Packet)
      → Reach len (at s.cache (reverse_onto rotations waiting))
      → Reach len (behind (answer_request now p from s rotations detached status response) waiting)
  unfolding forward
  answer_request-same p from rotations detached refused response h = h
  answer_request-same p from rotations detached (count n) response h = elim (Bool-cases (n == 0)) [
    | inl empty ↦ rw empty h
    | inr others ↦ rw others h
  ]

  handle_request-Reach :
      (p : Packet) (from : SockAddr) (h : Handled)
      → All IsNamed p.quests
      → handle_request len now p from s ≡ ok h
      → Reach len (behind h waiting)
  unfolding handle_request
  handle_request-Reach p from h named run =
      let (r, queried, rest) = bind-ok (url_query len now s.hosts p s.cache) _ h run in
      let same = ok-same _ h rest in
      let after = url_query-Reach len now s.hosts s.cache p r waiting named reached queried in
      rw (← same) (
        answer_request-same p from r.rotations r.detached r.status (record p { ans = r.ans }) after)

  connect_handle-Reach :
      (p : Packet) (from : SockAddr) (h : Handled)
      → All IsNamed p.quests
      → (get_qr p.flags ≡ 1 → AllStored p.quests p.ans)
      → connect_handle len now p from s ≡ ok h
      → Reach len (behind h waiting)
  unfolding connect_handle
  connect_handle-Reach p from h named all run = elim (Bool-cases (get_qr p.flags == 1)) [
    | inl response ↦
        handle_response-Reach p h named (all (ground (arith, response))) (rw response at run)
    | inr request ↦ handle_request-Reach p from h named (rw request at run)
  ]

  -- The whole handler, for any bytes, when it returns: insertions or queries of the cache.
  pub connect_datagram-Reach :
      (v4 v6 : Family) (fuel : ℕ) (contents : ℕ → ℕ) (dns_server : SockAddr) (buf : Memory)
      (buf_len : ℕ) (from : SockAddr) (sent : Option Datagram) (h : Handled)
      → connect_datagram v4 v6 fuel contents dns_server buf buf_len len now from s ≡ ok (sent, h)
      → Reach len (behind h waiting)
  unfolding connect_datagram
  connect_datagram-Reach v4 v6 fuel contents dns_server buf buf_len from sent h run =
      let (raw, parsed, rest) =
        bind-ok (packet_parse v4 v6 fuel contents buf buf_len) _ (sent, h) run in
      let (p, viewed, rest1) = bind-ok (packet_of fuel raw) _ (sent, h) rest in
      let (h', handled, rest2) = bind-ok (connect_handle len now p from s) _ (sent, h) rest1 in
      let (sent', _, rest3) =
        bind-ok (send v4 v6 fuel contents dns_server raw h'.sent) _ (sent, h) rest2 in
      let same : h' ≡ h = ap (λ t. t.1) (ok-same (sent', h') (sent, h) rest3) in
      let (named, all) = packet_of-strings v4 v6 fuel contents buf buf_len raw p parsed viewed in
      rw (← same) (connect_handle-Reach p from h' named all handled)
