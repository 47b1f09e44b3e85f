-- ===== src/Server/Bytes.antt =====
-- From the bytes of a request to the answers of the cache: `packetParse`, and then the handler.
use dns_relay_server.Base.{
  ◌^◌, ℕ, ◌+◌, ◌*◌, ◌≤◌, ◌<◌, ◌≡◌, ◌∙◌, refl, List, [], ◌∷◌, ◌++◌, map, select, length, arith, Run,
  ok, fault, out_of_fuel, Returns, ◌>>=◌,
}
use dns_relay_server.Net.{SockAddr}
use dns_relay_server.Entry.{DnsEntry}
use dns_relay_server.Memory.{Memory}
use dns_relay_server.Memory.Stored.{Stored}
use dns_relay_server.Protocol.{Packet}
use dns_relay_server.Inet.Names.{dotted}
use dns_relay_server.Question.Read.{WireQuest, IsWireQuest, encoded, name_of}
use dns_relay_server.Address.{Family}
use dns_relay_server.IdMap.{IdMap}
use dns_relay_server.Cache.{Cache}
use dns_relay_server.Cache.Inv.{Holds}
use dns_relay_server.Cache.Query.{is_answer}
use dns_relay_server.Query.Answers.{AllFit, answer_for}
use dns_relay_server.Packet.{RawPacket, packet_parse}
use dns_relay_server.Packet.Parse.{request_header}
use dns_relay_server.Packet.View.{packet_of, quest_for, packet_of-packet_parse}
use dns_relay_server.Server.{Handled, Server, responded, get_qr, connect_handle}
use dns_relay_server.Server.Relay.{Asks, no_host, connect_handle-responded}

-- What `packetParse` makes of a buffer, with its strings, goes to the handler.
abbrev pub receive :
    (v4 v6 : Family) (fuel : ℕ) (contents : ℕ → ℕ) (buf : Memory) (buf_len : ℕ) (len now : ℕ)
    → SockAddr
    → Server
    → Run Handled
receive v4 v6 fuel contents buf buf_len len now from s = do
  raw ← packet_parse v4 v6 fuel contents buf buf_len
  p ← packet_of fuel raw
  connect_handle len now p from s

handled :
    (raw : Run RawPacket) (view : RawPacket → Run Packet) (handle : Packet → Run Handled)
    (p : Packet)
    → (raw >>= view) ≡ ok p
    → (raw >>= λ r. view r >>= handle) ≡ handle p
handled (ok r) view handle p e = rw e
handled fault view handle p e = cc
handled out_of_fuel view handle p e = cc

module _ (v4 v6 : Family) (fuel : ℕ) (contents : ℕ → ℕ) (buf : Memory)
    (i0 i1 flags n0 n1 r0 r1 buf_len : ℕ) (q : WireQuest) (small : flags < 65536)
    (request : get_qr flags ≡ 0) (type : q.qtype < 256) (is : IsWireQuest q)
    (stored : Stored buf 0 (request_header i0 i1 flags 1 n0 n1 r0 r1 ++ encoded (q ∷ [])))
    (inside : 12 + length (encoded (q ∷ [])) ≤ buf.size) (f : length (encoded (q ∷ [])) < fuel)
    (f' : 64 < fuel) where
  -- The bytes of a request with one question, for a type below 256, inside the buffer and shorter
  -- than the fuel, which is above 64; no host file, and a well-formed cache with entries for the
  -- name and the type that fit their buffers and are fewer than 2 ^ 16: what is sent to the client is the packet that the
  -- bytes say, with the answers of exactly these entries, and the server's state is the same.
  pub connect_handle-packet_parse :
      (len now : ℕ) (from : SockAddr) (c : Cache) (ids : IdMap) (es : List DnsEntry) (e : DnsEntry)
      (hits : List DnsEntry)
      → Holds len c es
      → select (is_answer now (dotted (name_of q)) q.qtype) es ≡ e ∷ hits
      → AllFit q.qtype (e ∷ hits)
      → length (e ∷ hits) < 2 ^ 16
      → Returns (receive v4 v6 fuel contents buf buf_len len now from (no_host c ids)) λ r.
        (r.sent
          ≡ responded
              (record {
                id = i1 * 256 + i0;
                flags = flags;
                quests = quest_for fuel q ∷ [];
                ans = map (answer_for now (quest_for fuel q)) (e ∷ hits);
              })
              from)
        × (r.server ≡ no_host c ids)
  connect_handle-packet_parse len now from c ids es e hits h found fit few =
      let p : Packet = record {
        id = i1 * 256 + i0;
        flags = flags;
        quests = quest_for fuel q ∷ [];
        ans = [];
      } in
      let parsed =
        packet_of-packet_parse fuel v4 v6 contents buf i0 i1 flags n0 n1 r0 r1 buf_len (q ∷ [])
          small (omega arith) (is, tt) stored inside f f' in
      let asks : Asks p (quest_for fuel q) (dotted (name_of q)) = record {
        request = request;
        one = refl;
        named = refl;
        small = omega (arith, type);
      } in
      let (r, run, post) =
        connect_handle-responded len now p (quest_for fuel q) (dotted (name_of q)) asks from c ids
          es h e hits found fit few in
      let joined =
        handled (packet_parse v4 v6 fuel contents buf buf_len) (packet_of fuel)
          (λ p. connect_handle len now p from (no_host c ids)) p parsed in
      (r, joined ∙ run, post)
