-- ===== src/Packet/Parse.antt =====
-- `packetParse` of a request, and of answers with IPv4 addresses.
use dns_relay_server.Base.{
  ℕ, ◌+◌, ◌*◌, ◌≤◌, ◌<◌, ◌≡◌, refl, List, [], ◌∷◌, ◌++◌, length, arith, ok, Returns,
}
use dns_relay_server.Entry.{Text}
use dns_relay_server.Memory.{Memory}
use dns_relay_server.Memory.Stored.{Stored, load16-Stored, load16-bytes16, bytes16}
use dns_relay_server.Question.Read.{WireQuest, encoded, AllWireQuests, AllRead, read_quests-encoded}
use dns_relay_server.Address.{Family}
use dns_relay_server.Packet.{packet_parse, load16_host}

-- The header of a request.
abbrev pub request_header : (i0 i1 flags qdcount n0 n1 r0 r1 : ℕ) → Text
request_header i0 i1 flags qdcount n0 n1 r0 r1 =
    i0 ∷ i1 ∷ (bytes16 flags ++ (bytes16 qdcount ++ 0 ∷ 0 ∷ n0 ∷ n1 ∷ r0 ∷ r1 ∷ []))

module _ (v4 v6 : Family) (fuel : ℕ) (contents : ℕ → ℕ) (buf : Memory) where
  -- `packetParse` of a request: a header without answers and the wire form of its questions, whose
  -- names are made of labels and fit 65 bytes, inside the buffer and shorter than the fuel. There is
  -- no fault: the ID is that of the first two bytes as the host reads them, the flags and the number
  -- of questions are those of the header, the questions are read, and there are no answers.
  pub packet_parse-request :
      (i0 i1 flags n0 n1 r0 r1 len : ℕ) (quests : List WireQuest)
      → flags < 65536
      → length quests < 65536
      → AllWireQuests quests
      → Stored buf 0 (request_header i0 i1 flags (length quests) n0 n1 r0 r1 ++ encoded quests)
      → 12 + length (encoded quests) ≤ buf.size
      → length (encoded quests) < fuel
      → Returns (packet_parse v4 v6 fuel contents buf len) λ p.
        (p.id ≡ i1 * 256 + i0)
        × (p.flags ≡ flags)
        × (p.qdcount ≡ length quests)
        × (p.ancount ≡ 0)
        × AllRead p.quests quests
        × (p.ans ≡ [])
        × (p.req_buf ≡ buf)
        × (p.buf_len ≡ len)
  unfolding packet_parse
  packet_parse-request i0 i1 flags n0 n1 r0 r1 len quests small many all s inside f =
      let later = s.1.1.1.1.1.1 in
      let flags' = load16-bytes16 buf 2 flags small (s.1.1.0, (s.1.1.1.0, tt)) (omega arith) in
      let qdcount =
        load16-bytes16 buf 4 (length quests) many (s.1.1.1.1.0, (s.1.1.1.1.1.0, tt))
          (omega arith) in
      let ancount = load16-Stored buf 6 0 later.0 later.1.0 (omega arith) in
      let id : load16_host buf 0 ≡ ok (i1 * 256 + i0) = ground (arith, s.0, s.1.0) in
      let ((read, behind), run, (same, _)) =
        read_quests-encoded fuel contents buf quests 12 all later.1.1.1.1.1.1 inside f in
      (
        record {
          req_buf = buf;
          buf_len = len;
          id = i1 * 256 + i0;
          flags = flags;
          qdcount = length quests;
          ancount = 0;
          quests = read;
          ans = [];
        },
        rw (id, flags', qdcount, ancount, run),
        (refl, refl, refl, refl, same, refl, refl, refl),
      )
