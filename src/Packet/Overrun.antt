-- ===== src/Packet/Overrun.antt =====
-- `packetParse` of a request with a name that the buffer of a question has no room for.
use dns_relay_server.Base.{ℕ, ◌+◌, ◌*◌, ◌≤◌, ◌<◌, ◌≡◌, List, ◌∷◌, ◌++◌, length, arith, ok, fault}
use dns_relay_server.Memory.{Memory}
use dns_relay_server.Memory.Stored.{Stored, load16-Stored, load16-bytes16}
use dns_relay_server.Question.Read.{WireQuest, encoded, AllWireQuests}
use dns_relay_server.Question.Overrun.{IsTooLong, read_quests-IsTooLong}
use dns_relay_server.Address.{Family}
use dns_relay_server.Packet.{packet_parse, load16_host}
use dns_relay_server.Packet.Parse.{request_header}

module _ (v4 v6 : Family) (fuel : ℕ) (contents : ℕ → ℕ) (buf : Memory) where
  -- `packetParse` of a request with questions in their wire form, the names made of labels, inside
  -- the buffer and shorter than the fuel: if the dotted string of a name has 65 bytes or more, and
  -- those in front of it have less, `packetParse` writes behind the end of that question's buffer.
  pub packet_parse-IsTooLong :
      (i0 i1 flags n0 n1 r0 r1 len : ℕ) (front : List WireQuest) (q : WireQuest)
      (rest : List WireQuest)
      → flags < 65536
      → length (front ++ q ∷ rest) < 65536
      → AllWireQuests front
      → IsTooLong q
      → Stored buf 0 (
          request_header i0 i1 flags (length (front ++ q ∷ rest)) n0 n1 r0 r1
          ++ encoded (front ++ q ∷ rest))
      → 12 + length (encoded (front ++ q ∷ rest)) ≤ buf.size
      → length (encoded (front ++ q ∷ rest)) < fuel
      → packet_parse v4 v6 fuel contents buf len ≡ fault
  unfolding packet_parse
  packet_parse-IsTooLong i0 i1 flags n0 n1 r0 r1 len front q rest small many all v s inside f =
      let later = s.1.1.1.1.1.1 in
      let flags' = load16-bytes16 buf 2 flags small (s.1.1.0, (s.1.1.1.0, tt)) (omega arith) in
      let count = length (front ++ q ∷ rest) in
      let qdcount =
        load16-bytes16 buf 4 count many (s.1.1.1.1.0, (s.1.1.1.1.1.0, tt)) (omega arith) in
      let ancount = load16-Stored buf 6 0 later.0 later.1.0 (omega arith) in
      let id : load16_host buf 0 ≡ ok (i1 * 256 + i0) = ground (arith, s.0, s.1.0) in
      let run =
        read_quests-IsTooLong fuel contents buf front q rest 12 all v later.1.1.1.1.1.1 inside f in
      rw (id, flags', qdcount, ancount, run)
