-- ===== src/Server/Cached.antt =====
-- A request that the cache answers, in bytes.
use dns_relay_server.Base.{
  ◌^◌, ℕ, ◌+◌, ◌*◌, ◌/◌, ◌%◌, ap, ◌≤◌, ◌<◌, ◌≡◌, ◌∙◌, refl, some, List, [], ◌∷◌, ◌++◌, map, select,
  length, arith, ok, Returns,
}
use dns_relay_server.Net.{SockAddr}
use dns_relay_server.Entry.{DnsEntry}
use dns_relay_server.Memory.{Memory}
use dns_relay_server.Memory.Stored.{Stored, Stored-same, bytes16}
use dns_relay_server.Protocol.{Packet, type_a}
use dns_relay_server.Inet.Names.{dotted}
use dns_relay_server.Question.{RawQuest}
use dns_relay_server.Question.Read.{WireQuest, IsWireQuest, AllRead, encoded, name_of}
use dns_relay_server.Wire.{WireAnswer, write_answers}
use dns_relay_server.Address.{Family}
use dns_relay_server.IdMap.{IdMap}
use dns_relay_server.Cache.{Cache}
use dns_relay_server.Cache.Inv.{Holds}
use dns_relay_server.Cache.Query.{is_answer}
use dns_relay_server.Query.Answers.{answer_for}
use dns_relay_server.Packet.{response_flags}
use dns_relay_server.Packet.Parse.{request_header, packet_parse-request}
use dns_relay_server.Packet.View.{packet_of, quest_for, packet_of-packet_parse}
use dns_relay_server.Server.{get_qr}
use dns_relay_server.Server.Relay.{Asks, no_host, connect_handle-responded}
use dns_relay_server.Server.Datagram.{Datagram, send, connect_datagram}
use dns_relay_server.Server.Answers.{AllAnswersOf, AllAnswersOf-AllFit, send-responded}
use dns_relay_server.Server.Steps.{connect_datagram-steps}

AllRead-cons :
    (read : List RawQuest) (q : WireQuest) (qs : List WireQuest)
    → AllRead read (q ∷ qs)
    → (r : RawQuest) × (rs : List RawQuest) × (read ≡ r ∷ rs)
AllRead-cons [] q qs same = absurd same
AllRead-cons (r ∷ rs) q qs same = (r, rs, refl)

module _ (v4 v6 : Family) (fuel : ℕ) (contents : ℕ → ℕ) (enough : 64 < fuel) (buf : Memory)
    (i0 i1 flags n0 n1 r0 r1 : ℕ) (q : WireQuest) (small : flags < 65536)
    (request : get_qr flags ≡ 0) (of_a : q.qtype ≡ type_a) (is : IsWireQuest q)
    (stored : Stored buf 0 (request_header i0 i1 flags 1 n0 n1 r0 r1 ++ encoded (q ∷ [])))
    (inside : 12 + length (encoded (q ∷ [])) ≤ buf.size)
    (f : length (encoded (q ∷ [])) < fuel) where
  pub connect_datagram-cached :
      (dns_server : SockAddr) (len now : ℕ) (from : SockAddr) (c : Cache) (ids : IdMap)
      (es : List DnsEntry) (e : DnsEntry) (hits : List DnsEntry) (ws : List WireAnswer)
      → Holds len c es
      → select (is_answer now (dotted (name_of q)) q.qtype) es ≡ e ∷ hits
      → AllAnswersOf v4 v6 fuel contents enough now (quest_for fuel q) of_a (e ∷ hits) ws
      → length (e ∷ hits) < 2 ^ 16
      → Returns
          (connect_datagram v4 v6 fuel contents dns_server buf
            (12 + length (encoded (q ∷ [])))
            len
            now
            from
            (no_host c ids))
          λ (sent, r).
            (d : Datagram) × (sent ≡ some d)
            × (d.to ≡ from)
            × (d.len ≡ 12 + length (encoded (q ∷ [])) + length (write_answers ws []))
            × Stored d.bytes 0 (
                i0
                ∷ i1
                ∷ (bytes16 (response_flags flags (length (e ∷ hits)))
                    ++ 0
                      ∷ 1
                      ∷ (bytes16 (length (e ∷ hits))
                          ++ (n0 ∷ n1 ∷ r0 ∷ r1 ∷ encoded (q ∷ []))
                          ++ write_answers ws [])))
            × (r.server ≡ no_host c ids)
  connect_datagram-cached dns_server len now from c ids es e hits ws h found all few =
      let buf_len = 12 + length (encoded (q ∷ [])) in
      let (raw, parsed, (_, flag, _, _, same, _, req_buf, size)) =
        packet_parse-request v4 v6 fuel contents buf i0 i1 flags n0 n1 r0 r1 buf_len (q ∷ []) small
          (omega arith) (is, tt) stored inside f in
      let p : Packet = record {
        id = i1 * 256 + i0;
        flags = flags;
        quests = quest_for fuel q ∷ [];
        ans = [];
      } in
      let viewed =
        packet_of-packet_parse fuel v4 v6 contents buf i0 i1 flags n0 n1 r0 r1 buf_len (q ∷ [])
          small (omega arith) (is, tt) stored inside f enough in
      let view : packet_of fuel raw ≡ ok p = rw parsed at viewed in
      let asks : Asks p (quest_for fuel q) (dotted (name_of q)) = record {
        request = request;
        one = refl;
        named = refl;
        small = rw of_a;
      } in
      let (r, run, (sent, server)) =
        connect_handle-responded len now p (quest_for fuel q) (dotted (name_of q)) asks from c ids
          es h e hits found
          (AllAnswersOf-AllFit v4 v6 fuel contents enough now (quest_for fuel q) of_a (e ∷ hits) ws
            all)
          few in
      let (first, others, one) = AllRead-cons raw.quests q [] same in
      let here =
        Stored-same buf raw.req_buf 0 (request_header i0 i1 flags 1 n0 n1 r0 r1 ++ encoded (q ∷ []))
          req_buf stored in
      let (done, made, (d, some_sent, to, length_of, bytes)) =
        send-responded v4 v6 fuel contents enough now (quest_for fuel q) of_a dns_server raw
          (record p { ans = map (answer_for now (quest_for fuel q)) (e ∷ hits) }) from first others
          flags (e ∷ hits) ws i0 i1 (flags / 256 % 256) (flags % 256) 0 1 0 0
          (n0 ∷ n1 ∷ r0 ∷ r1 ∷ encoded (q ∷ [])) one flag (omega (arith, size))
          (omega (arith, size, ap (λ (m : Memory). m.size) req_buf, inside)) here all refl in
      let sending : send v4 v6 fuel contents dns_server raw r.sent ≡ ok done = rw sent made in
      (
        (done, r),
        connect_datagram-steps v4 v6 fuel contents dns_server buf buf_len len now from
            (no_host c ids) raw p r done parsed view run sending,
        (
          d,
          some_sent,
          to,
          length_of ∙ ap (λ n. n + length (write_answers ws [])) size,
          bytes,
          server,
        ),
      )
