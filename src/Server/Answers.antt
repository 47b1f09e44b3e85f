-- ===== src/Server/Answers.antt =====
-- The response with the answers of some entries, as `send` makes it.
use dns_relay_server.Base.{
  ℕ, ◌+◌, ◌-◌, ◌*◌, ◌%◌, ◌^◌, ◌≤◌, ◌<◌, ◌≡◌, refl, sym, true, false, ltb, some, List, [], ◌∷◌, ◌++◌,
  map, length, length-append, has, arith, ok, Returns,
}
use dns_relay_server.Net.{SockAddr}
use dns_relay_server.Entry.{Text, DnsEntry}
use dns_relay_server.Memory.{Memory}
use dns_relay_server.Memory.Stored.{Stored}
use dns_relay_server.Protocol.{Quest, Packet, type_a, type_buf_size}
use dns_relay_server.Question.{RawQuest}
use dns_relay_server.Wire.{WireAnswer, write_answers}
use dns_relay_server.Address.{Family}
use dns_relay_server.Address.RoundTrip.{store_bytes-Stored}
use dns_relay_server.Query.Answers.{AllFit, answer_for, length-map}
use dns_relay_server.Packet.{RawAnswer, RawPacket, response_flags}
use dns_relay_server.Packet.Data.{IsAddress, AllAddresses}
use dns_relay_server.Packet.Response.{answered, response_format-addresses}
use dns_relay_server.Server.{responded}
use dns_relay_server.Server.Datagram.{Datagram, raw_answer, raw_answers, send}

module _ (v4 v6 : Family) (fuel : ℕ) (contents : ℕ → ℕ) (enough : 64 < fuel) (now : ℕ) (q : Quest)
    (of_a : q.qtype ≡ type_a) where
  -- The entry has the string of an IPv4 address, short enough for its buffer, and `w` is the answer
  -- to the first question with that address and the time that is left of the entry's.
  pub record IsAnswerOf (e : DnsEntry) (w : WireAnswer) : Type 0 where
    pub ip : Text
    pub here : e.ip ≡ some ip
    pub no_zero : has 0 ip ≡ false
    pub short : length ip < 22
    pub address : v4.inet_pton ip ≡ some w.rdata
    pub four_bytes : length w.rdata ≡ 4
    pub name : w.name ≡ 49164
    pub type : w.type ≡ type_a
    pub class : w.class ≡ q.qclass
    pub ttl : w.ttl ≡ (e.timestamp + 2 ^ 32 - now % 2 ^ 32) % 2 ^ 32

  abbrev pub AllAnswersOf : List DnsEntry → List WireAnswer → Type 0
  AllAnswersOf [] [] = Unit
  AllAnswersOf [] (w ∷ ws) = ⊥
  AllAnswersOf (e ∷ es) [] = ⊥
  AllAnswersOf (e ∷ es) (w ∷ ws) = IsAnswerOf e w × AllAnswersOf es ws

  raw_answer-IsAddress :
      (e : DnsEntry) (w : WireAnswer)
      → IsAnswerOf e w
      → (r : RawAnswer) × (raw_answer contents (answer_for now q e) ≡ ok r)
        × IsAddress v4 v6 fuel r w
  unfolding raw_answer type_buf_size
  raw_answer-IsAddress e w is =
      let total = length-append {0} is.ip (0 ∷ []) in
      let (m, run, (stored, same)) =
        store_bytes-Stored (is.ip ++ 0 ∷ []) (record { size = 22; at = contents }) 0
          (omega (arith, is.short)) in
      let place : 0 + (length is.ip + 1) ≡ length is.ip + 1 = omega arith in
      (
        record {
          qpos = 0;
          name = contents 2 % 256 + contents 3 % 256 * 256;
          type = q.qtype;
          class = q.qclass;
          rdlen = contents 8 % 256 + contents 9 % 256 * 256;
          ttl = (e.timestamp + 2 ^ 32 - now % 2 ^ 32) % 2 ^ 32;
          addition = e.addition;
          rdata = some m;
        },
        rw (is.here, of_a, run),
        record {
          qpos = refl;
          type = of_a;
          type' = is.type;
          name = is.name;
          class = sym is.class;
          ttl = sym is.ttl;
          rdata = m;
          here = refl;
          string = is.ip;
          no_zero = is.no_zero;
          stored = stored;
          inside = omega (arith, same.size, is.short);
          fuel_enough = omega (arith, is.short);
          address = is.address;
          four_bytes = is.four_bytes;
          room = omega (arith, same.size);
        },
      )

  pub raw_answers-AllAddresses :
      (es : List DnsEntry) (ws : List WireAnswer)
      → AllAnswersOf es ws
      → Returns
          (raw_answers contents (map (answer_for now q) es))
          λ rs. AllAddresses v4 v6 fuel rs ws × (length rs ≡ length (map (answer_for now q) es))
  unfolding raw_answers
  raw_answers-AllAddresses [] [] all = ([], refl, (tt, refl))
  raw_answers-AllAddresses [] (w ∷ ws) all = absurd all
  raw_answers-AllAddresses (e ∷ es) [] all = absurd all
  raw_answers-AllAddresses (e ∷ es) (w ∷ ws) all =
      let (r, run, is) = raw_answer-IsAddress e w all.0 in
      let (rs, run', (all', count)) = raw_answers-AllAddresses es ws all.1 in
      (r ∷ rs, rw (run, run'), ((is, all'), rw count))

  pub AllAnswersOf-AllFit :
      (es : List DnsEntry) (ws : List WireAnswer) → AllAnswersOf es ws → AllFit q.qtype es
  unfolding type_buf_size
  AllAnswersOf-AllFit [] ws all = tt
  AllAnswersOf-AllFit (e ∷ es) [] all = absurd all
  AllAnswersOf-AllFit (e ∷ es) (w ∷ ws) all =
      let room : ltb (length all.0.ip) 22 ≡ true = ground (arith, all.0.short) in
      (rw (all.0.here, of_a) room, AllAnswersOf-AllFit es ws all.1)

answered-same :
    (k : Memory) (request more : Text) (flags flags' count count' : ℕ)
    → flags ≡ flags'
    → count ≡ count'
    → Stored k 0 (answered request (response_flags flags count) count ++ more)
    → Stored k 0 (answered request (response_flags flags' count') count' ++ more)
answered-same k request more flags flags' count count' e e' s = rw (e, e') at s

-- The response to the packet `raw`, with the answers of some entries.
pub send-responded :
    (v4 v6 : Family) (fuel : ℕ) (contents : ℕ → ℕ) (enough : 64 < fuel) (now : ℕ) (q : Quest)
    (of_a : q.qtype ≡ type_a) (dns_server : SockAddr) (raw : RawPacket) (p : Packet)
    (from : SockAddr) (r : RawQuest) (rs : List RawQuest) (flags : ℕ) (es : List DnsEntry)
    (ws : List WireAnswer) (i0 i1 f0 f1 q0 q1 a0 a1 : ℕ) (rest : Text)
    → raw.quests ≡ r ∷ rs
    → raw.flags ≡ flags
    → raw.buf_len ≡ 8 + length rest
    → raw.buf_len ≤ raw.req_buf.size
    → Stored raw.req_buf 0 (i0 ∷ i1 ∷ f0 ∷ f1 ∷ q0 ∷ q1 ∷ a0 ∷ a1 ∷ rest)
    → AllAnswersOf v4 v6 fuel contents enough now q of_a es ws
    → p.ans ≡ map (answer_for now q) es
    → Returns (send v4 v6 fuel contents dns_server raw (responded p from)) λ sent.
      (d : Datagram) × (sent ≡ some d)
      × (d.to ≡ from)
      × (d.len ≡ raw.buf_len + length (write_answers ws []))
      × Stored d.bytes 0 (
          answered
            (i0 ∷ i1 ∷ f0 ∷ f1 ∷ q0 ∷ q1 ∷ a0 ∷ a1 ∷ rest)
            (response_flags flags (length es))
            (length es)
          ++ write_answers ws [])
unfolding send
send-responded v4 v6 fuel contents enough now q of_a dns_server raw p from r rs flags es ws i0 i1 f0
      f1 q0 q1 a0 a1 rest one flag size inside s all answers =
    let (ans, made, (addresses, count)) =
      raw_answers-AllAddresses v4 v6 fuel contents enough now q of_a es ws all in
    let total = length-map (answer_for now q) es in
    let src : RawPacket = record raw { ancount = length (map (answer_for now q) es); ans = ans } in
    let ((k, len), run, (whole, len', _)) =
      response_format-addresses v4 v6 fuel contents src r rs ws i0 i1 f0 f1 q0 q1 a0 a1 rest one
        (sym count) addresses size inside s in
    (
      some (record { bytes = k; len = len; to = from }),
      rw (answers, made, run),
      (
        record { bytes = k; len = len; to = from },
        refl,
        refl,
        len',
        answered-same k (i0 ∷ i1 ∷ f0 ∷ f1 ∷ q0 ∷ q1 ∷ a0 ∷ a1 ∷ rest) (write_answers ws [])
            raw.flags flags (length (map (answer_for now q) es)) (length es) flag total whole,
      ),
    )
