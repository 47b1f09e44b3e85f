-- ===== src/Server/Forwarded.antt =====
-- A request that is forwarded, and its response, in bytes.
use dns_relay_server.Base.{
  All, ℕ, ◌+◌, ◌*◌, ◌≤◌, ◌<◌, ◌≡◌, ◌≢◌, ◌∙◌, ap, refl, sym, Option, true, List, [], ◌∷◌, ◌++◌, map,
  select, length, arith, Run, ok, Returns, ◌>>=◌, ok-same,
}
use dns_relay_server.Net.{SockAddr}
use dns_relay_server.Entry.{DnsEntry}
use dns_relay_server.Memory.{Memory}
use dns_relay_server.Memory.Stored.{Stored}
use dns_relay_server.Protocol.{Quest, Packet}
use dns_relay_server.Inet.Names.{dotted}
use dns_relay_server.Address.{Family}
use dns_relay_server.IdMap.{IdMap}
use dns_relay_server.IdMap.View.{next_serial, slot_busy}
use dns_relay_server.Cache.{Cache}
use dns_relay_server.Cache.Inv.{Holds}
use dns_relay_server.Cache.Query.{is_answer}
use dns_relay_server.Packet.Strings.{packet_of-strings}
use dns_relay_server.Query.Steps.{IsNamed, AllStored}
use dns_relay_server.Query.Store.{entry_of, insert_all, of_type}
use dns_relay_server.Question.Read.{WireQuest, IsWireQuest, encoded, name_of}
use dns_relay_server.Packet.{RawPacket, packet_parse}
use dns_relay_server.Packet.Parse.{request_header, packet_parse-request}
use dns_relay_server.Packet.View.{packet_of, quest_for, packet_of-packet_parse}
use dns_relay_server.Server.{Server, forwarded, relayed, get_qr}
use dns_relay_server.Server.Relay.{Asks, no_host, connect_handle-relay}
use dns_relay_server.Server.Datagram.{Datagram, id_bytes, send, connect_datagram}
use dns_relay_server.Server.Steps.{
  packet_parse-bytes, packet_of-id, exchange-parts, connect_datagram-steps,
}
use dns_relay_server.Server.Under.{IsUnder, send-forwarded, send-relayed, id_bytes-bytes, load_id}

-- Two datagrams, one after the other: what is sent for each, and the state behind both.
abbrev pub exchange_datagrams :
    (v4 v6 : Family) (fuel : ℕ) (contents : ℕ → ℕ) (dns_server : SockAddr) (buf : Memory)
    (buf_len : ℕ) (buf' : Memory) (buf_len' : ℕ) (len now later : ℕ) (from anyone : SockAddr)
    → Server
    → Run ((Option Datagram × Option Datagram) × Server)
exchange_datagrams v4 v6 fuel contents dns_server buf buf_len buf' buf_len' len now later from
      anyone s =
    do
      (sent, r) ← connect_datagram v4 v6 fuel contents dns_server buf buf_len len now from s
      (sent', r') ←
          connect_datagram v4 v6 fuel contents dns_server buf' buf_len' len later anyone r.server
      ok ((sent, sent'), r'.server)

module _ (v4 v6 : Family) (fuel : ℕ) (contents : ℕ → ℕ) (dns_server : SockAddr) (enough : 64 < fuel)
    (buf : Memory) (i0 i1 flags n0 n1 r0 r1 buf_len : ℕ) (q : WireQuest) (small : flags < 65536)
    (low : i0 < 256) (high : i1 < 256) (request : get_qr flags ≡ 0) (type : q.qtype < 256)
    (is : IsWireQuest q)
    (stored : Stored buf 0 (request_header i0 i1 flags 1 n0 n1 r0 r1 ++ encoded (q ∷ [])))
    (inside : 12 + length (encoded (q ∷ [])) ≤ buf.size)
    (f : length (encoded (q ∷ [])) < fuel) where
  pub connect_datagram-relay :
      (len now later : ℕ) (from anyone : SockAddr) (c : Cache) (ids : IdMap) (es : List DnsEntry)
      (buf' : Memory) (buf_len' : ℕ) (raw' : RawPacket) (p' : Packet) (q' : Quest) (qs : List Quest)
      → Holds len c es
      → 0 < len
      → select (is_answer now (dotted (name_of q)) q.qtype) es ≡ []
      → slot_busy now ids ≢ true
      → packet_parse v4 v6 fuel contents buf' buf_len' ≡ ok raw'
      → packet_of fuel raw' ≡ ok p'
      → 2 ≤ buf'.size
      → Stored buf' 0 (id_bytes (next_serial ids))
      → get_qr p'.flags ≡ 1
      → p'.quests ≡ q' ∷ qs
      → Returns
          (exchange_datagrams v4 v6 fuel contents dns_server buf buf_len buf' buf_len' len now later
            from anyone
            (no_host c ids))
          λ (sent, s').
            IsUnder buf buf_len (id_bytes (next_serial ids)) dns_server sent.0
            × IsUnder buf' buf_len' (i0 ∷ i1 ∷ []) from sent.1
            × Holds len s'.cache (
                insert_all len
                  (map (entry_of later q'.qname) (select (of_type q'.qtype) p'.ans))
                  es)
  unfolding send
  connect_datagram-relay len now later from anyone c ids es buf' buf_len' raw' p' q' qs h pos
        missing free parsed' viewed' room' there response asked =
      let (raw, parsed, (_, _, _, _, _, _, req_buf, size)) =
        packet_parse-request v4 v6 fuel contents buf i0 i1 flags n0 n1 r0 r1 buf_len (q ∷ []) small
          (omega arith) (is, tt) stored inside f in
      let p : Packet = record {
        id = i1 * 256 + i0;
        flags = flags;
        quests = quest_for fuel q ∷ [];
        ans = [];
      } in
      let viewed =
        packet_of-packet_parse fuel v4 v6 contents buf i0 i1 flags n0 n1 r0 r1 buf_len (q ∷ [])
          small (omega arith) (is, tt) stored inside f enough in
      let view : packet_of fuel raw ≡ ok p = rw parsed at viewed in
      let asks : Asks p (quest_for fuel q) (dotted (name_of q)) = record {
        request = request;
        one = refl;
        named = refl;
        small = omega (arith, type);
      } in
      let (id', req_buf', size') =
        packet_parse-bytes v4 v6 fuel contents buf' buf_len' raw' parsed' in
      let (all_named, all_stored) =
        packet_of-strings v4 v6 fuel contents buf' buf_len' raw' p' parsed' viewed' in
      let named : All IsNamed (q' ∷ qs) = rw asked at all_named in
      let all : AllStored (q' ∷ qs) p'.ans = rw asked at (all_stored response) in
      let number = load_id buf' (next_serial ids) (omega arith) room' there in
      let serial : p'.id ≡ next_serial ids =
        packet_of-id fuel raw' p' viewed' ∙ ok-same raw'.id (next_serial ids) (sym id' ∙ number) in
      let ((sents, s'), run, (both, held)) =
        connect_handle-relay len now p (quest_for fuel q) (dotted (name_of q)) asks from c ids es h
          later p' q' qs anyone pos missing free response serial asked named.0 all in
      let (r, r', run1, run2, sent1, sent2, last) =
        exchange-parts len now p from later p' anyone (no_host c ids) s'
          (forwarded (next_serial ids)) (relayed p.id from) (run ∙ ap (λ t. ok (t, s')) both) in
      let (one, e1, under1) =
        send-forwarded v4 v6 fuel contents dns_server buf buf_len raw req_buf size (omega arith)
          (next_serial ids) in
      let (two, e2, under2) =
        send-relayed v4 v6 fuel contents dns_server buf' buf_len' raw' req_buf' size' room' p.id
          from in
      let step1 =
        connect_datagram-steps v4 v6 fuel contents dns_server buf buf_len len now from
          (no_host c ids) raw p r one parsed view run1 (rw sent1 e1) in
      let step2 =
        connect_datagram-steps v4 v6 fuel contents dns_server buf' buf_len' len later anyone
          r.server raw' p' r' two parsed' viewed' run2 (rw sent2 e2) in
      let own_id = id_bytes-bytes i0 i1 low high in
      (((one, two), r'.server), rw (step1, step2), (under1, rw own_id at under2, rw last held))
