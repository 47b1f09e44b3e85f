-- ===== src/Packet/View.antt =====
-- A packet in memory as the packet with lists that Query and Server take.
use dns_relay_server.Base.{
  ℕ, ◌+◌, ◌*◌, ◌≤◌, ◌<◌, ◌≡◌, refl, Option, none, some, List, [], ◌∷◌, ◌++◌, map, length, arith,
  Run, ok, ◌>>=◌, Bool, true, false, ◌==◌, ◌&&◌,
}
use dns_relay_server.Memory.{Memory}
use dns_relay_server.Memory.Stored.{Stored}
use dns_relay_server.Protocol.{Quest, Answer, Packet, get_qr}
use dns_relay_server.Inet.Names.{dotted, dotted-no_zero}
use dns_relay_server.Question.{RawQuest}
use dns_relay_server.Question.Read.{WireQuest, encoded, AllWireQuests, AllRead, name_of}
use dns_relay_server.Address.{Family, load_text}
use dns_relay_server.Address.RoundTrip.{load_text-Stored}
use dns_relay_server.Packet.{RawAnswer, RawPacket, packet_parse}
use dns_relay_server.Packet.Parse.{request_header, packet_parse-request}

-- `urlStore` stores the answers of a response that have the type of the first question.
abbrev pub is_stored : (flags : ℕ) → List RawQuest → (type : ℕ) → Bool
is_stored flags [] type = false
is_stored flags (q ∷ quests) type = (get_qr flags == 1) && (type == q.qtype)

module _ (fuel : ℕ) where
  abbrev pub quests_of : List RawQuest → Run (List Quest)
  quests_of [] = ok []
  quests_of (q ∷ quests) = do
    qname ← load_text fuel q.qname 0
    rest ← quests_of quests
    ok (record { qname = some qname; qtype = q.qtype; qclass = q.qclass } ∷ rest)

  abbrev pub text_of : Option Memory → Run (Option (List ℕ))
  text_of none = ok none
  text_of (some m) = do s ← load_text fuel m 0; ok (some s)

  abbrev pub data_of : Bool → Option Memory → Run (Option (List ℕ))
  data_of true m = text_of m
  data_of false m = ok none

  -- The strings of some types are read.
  abbrev pub answers_of : (wanted : ℕ → Bool) → List RawAnswer → Run (List Answer)
  answers_of wanted [] = ok []
  answers_of wanted (a ∷ ans) = do
    rdata ← data_of (wanted a.type) a.rdata
    rest ← answers_of wanted ans
    let here : Answer = record {
      qpos = a.qpos;
      type = a.type;
      class = a.class;
      ttl = a.ttl;
      addition = a.addition;
      rdata = rdata;
    }
    ok (here ∷ rest)

  -- The strings are read from their buffers: the names, and of a response those of the answers that
  -- `urlStore` stores. No other string of an answer is read.
  abbrev pub packet_of : RawPacket → Run Packet
  packet_of p = do
    quests ← quests_of p.quests
    ans ← answers_of (is_stored p.flags p.quests) p.ans
    ok (record { id = p.id; flags = p.flags; quests = quests; ans = ans })

  -- The question that stands in the packet.
  abbrev pub quest_for : WireQuest → Quest
  quest_for q = record { qname = some (dotted (name_of q)); qtype = q.qtype; qclass = q.qclass }

  quests_of-AllRead :
      (read : List RawQuest) (quests : List WireQuest)
      → 64 < fuel
      → AllWireQuests quests
      → AllRead read quests
      → quests_of read ≡ ok (map quest_for quests)
  quests_of-AllRead [] [] f all same = refl
  quests_of-AllRead [] (q ∷ qs) f all same = absurd same
  quests_of-AllRead (r ∷ rs) [] f all same = absurd same
  quests_of-AllRead (r ∷ rs) (q ∷ qs) f all same =
      let (stored, qtype, qclass, size) = same.0 in
      let text =
        load_text-Stored r.qname (dotted (name_of q)) [] fuel 0
          (dotted-no_zero q.label q.others all.0.labelled) stored (omega (arith, size, all.0.room))
          (omega (arith, f, all.0.room)) in
      rw (text, qtype, qclass, quests_of-AllRead rs qs f all.1 same.1)

  -- `packetParse` of a request, and its strings: as for `packet_parse-request`, with fuel above 64,
  -- the packet is exactly the one with the ID, the flags and the questions that the bytes say.
  pub packet_of-packet_parse :
      (v4 v6 : Family) (contents : ℕ → ℕ) (buf : Memory) (i0 i1 flags n0 n1 r0 r1 len : ℕ)
      (quests : List WireQuest)
      → flags < 65536
      → length quests < 65536
      → AllWireQuests quests
      → Stored buf 0 (request_header i0 i1 flags (length quests) n0 n1 r0 r1 ++ encoded quests)
      → 12 + length (encoded quests) ≤ buf.size
      → length (encoded quests) < fuel
      → 64 < fuel
      → (do raw ← packet_parse v4 v6 fuel contents buf len; packet_of raw)
        ≡ ok (record { id = i1 * 256 + i0; flags = flags; quests = map quest_for quests; ans = [] })
  packet_of-packet_parse v4 v6 contents buf i0 i1 flags n0 n1 r0 r1 len quests small many all s
        inside f f' =
      let (raw, run, (id, flag, _, _, same, ans, _, _)) =
        packet_parse-request v4 v6 fuel contents buf i0 i1 flags n0 n1 r0 r1 len quests small many
          all s inside f in
      let strings = quests_of-AllRead raw.quests quests f' all same in
      rw (run, strings, ans, id, flag)
