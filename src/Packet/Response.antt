-- ===== src/Packet/Response.antt =====
-- The response with IPv4 addresses for the first question of a request, whole.
use dns_relay_server.Base.{
  ℕ, ◌+◌, ◌≤◌, ◌≡◌, ◌∙◌, refl, List, [], ◌∷◌, ◌++◌, length, arith, ok, Returns,
}
use dns_relay_server.Entry.{Text}
use dns_relay_server.Memory.{Memory, store16, copy_bytes}
use dns_relay_server.Memory.Stored.{
  Stored, Stored-frame, Stored-append, store16-Stored, copy_bytes-Stored, bytes16,
}
use dns_relay_server.Question.{RawQuest}
use dns_relay_server.Address.{Family}
use dns_relay_server.Wire.{WireAnswer, write_answers}
use dns_relay_server.Packet.{
  RawAnswer, RawPacket, name_pointers, format_data, put_answers, response_flags, response_length,
  response_format,
}
use dns_relay_server.Packet.Format.{put_answers-write_answers, response_length-write_answers}
use dns_relay_server.Packet.Data.{AllAddresses, own_pointers, name_pointers-own, format_data-own}

-- A request with other flags and another count of answers.
abbrev pub answered : Text → (flags ancount : ℕ) → Text
answered (i0 ∷ i1 ∷ f0 ∷ f1 ∷ q0 ∷ q1 ∷ a0 ∷ a1 ∷ rest) flags ancount =
    i0 ∷ i1 ∷ (bytes16 flags ++ q0 ∷ q1 ∷ (bytes16 ancount ++ rest))
answered request flags ancount = request

put_header :
    (d0 : Memory) (flags ancount i0 i1 f0 f1 q0 q1 a0 a1 : ℕ) (rest : Text)
    → Stored d0 0 (i0 ∷ i1 ∷ f0 ∷ f1 ∷ q0 ∷ q1 ∷ a0 ∷ a1 ∷ rest)
    → 8 + length rest ≤ d0.size
    → (d1 d2 : Memory) × (store16 d0 2 flags ≡ ok d1)
      × (store16 d1 6 ancount ≡ ok d2)
      × Stored d2 0 (i0 ∷ i1 ∷ (bytes16 flags ++ q0 ∷ q1 ∷ (bytes16 ancount ++ rest)))
      × (d2.size ≡ d0.size)
put_header d0 flags ancount i0 i1 f0 f1 q0 q1 a0 a1 rest s room =
    let (d1, r1, (w1, o1)) = store16-Stored d0 2 flags (omega (arith, room)) in
    let (d2, r2, (w2, o2)) = store16-Stored d1 6 ancount (omega (arith, room, o1.size)) in
    let later = s.1.1.1.1 in
    let rest' =
      Stored-frame d0 d2 8 rest later.1.1.1.1
        (λ i h j. o2.above i (omega arith) ∙ o1.above i (omega arith)) in
    let flags' = Stored-frame d1 d2 2 (bytes16 flags) w1 (λ i h j. o2.below i (omega arith)) in
    (
      d1,
      d2,
      r1,
      r2,
      (
        o2.below 0 (omega arith) ∙ (o1.below 0 (omega arith) ∙ s.0),
        (
          o2.below 1 (omega arith) ∙ (o1.below 1 (omega arith) ∙ s.1.0),
          (
            flags'.0,
            (
              flags'.1.0,
              (
                o2.below 4 (omega arith) ∙ (o1.above 4 (omega arith) ∙ later.0),
                (
                  o2.below 5 (omega arith) ∙ (o1.above 5 (omega arith) ∙ later.1.0),
                  (w2.0, (w2.1.0, (rest'))),
                ),
              ),
            ),
          ),
        ),
      ),
      o2.size ∙ o1.size,
    )

-- The steps of `responseFormat`, one after the other.
response_format-steps :
    (v4 v6 : Family) (fuel : ℕ) (contents : ℕ → ℕ) (src : RawPacket) (pointers : List ℕ)
    (ans : List RawAnswer) (len : ℕ) (d0 d1 d2 d3 : Memory)
    → name_pointers fuel src.ancount src.quests src.ans ≡ ok pointers
    → format_data v4 v6 fuel src.quests (record { size = 255; at = contents }) pointers src.ans
      ≡ ok ans
    → response_length src.buf_len ans ≡ len
    → copy_bytes src.buf_len src.req_buf 0 (record { size = len + 1; at = contents }) 0 ≡ ok d0
    → store16 d0 2 (response_flags src.flags src.ancount) ≡ ok d1
    → store16 d1 6 src.ancount ≡ ok d2
    → put_answers d2 src.buf_len pointers ans ≡ ok d3
    → response_format v4 v6 fuel contents src ≡ ok (d3, len)
unfolding response_format
response_format-steps v4 v6 fuel contents src pointers ans len d0 d1 d2 d3 e1 e2 e3 e4 e5 e6 e7 =
    rw (e1, e2, e3, e4, e5, e6, e7)

-- `responseFormat` for a packet of at least one question, whose answers, as many as ANCOUNT says, are
-- strings of IPv4 addresses for the first one, and whose request is at least a header's first eight
-- bytes: there is no fault, and the buffer holds the request with the flags of a response and
-- the count of the answers, and behind it the answers as Wire writes them, with the pointer to the
-- first question's name; the length is that of all these bytes.
pub response_format-addresses :
    (v4 v6 : Family) (fuel : ℕ) (contents : ℕ → ℕ) (src : RawPacket) (q : RawQuest)
    (quests : List RawQuest) (ws : List WireAnswer) (i0 i1 f0 f1 q0 q1 a0 a1 : ℕ) (rest : Text)
    → src.quests ≡ q ∷ quests
    → src.ancount ≡ length src.ans
    → AllAddresses v4 v6 fuel src.ans ws
    → src.buf_len ≡ 8 + length rest
    → src.buf_len ≤ src.req_buf.size
    → Stored src.req_buf 0 (i0 ∷ i1 ∷ f0 ∷ f1 ∷ q0 ∷ q1 ∷ a0 ∷ a1 ∷ rest)
    → Returns (response_format v4 v6 fuel contents src) λ (k, len).
      Stored k 0 (
        answered
          (i0 ∷ i1 ∷ f0 ∷ f1 ∷ q0 ∷ q1 ∷ a0 ∷ a1 ∷ rest)
          (response_flags src.flags src.ancount)
          src.ancount
        ++ write_answers ws [])
      × (len ≡ src.buf_len + length (write_answers ws []))
      × (k.size ≡ len + 1)
response_format-addresses v4 v6 fuel contents src q quests ws i0 i1 f0 f1 q0 q1 a0 a1 rest e counted
      all size inside s =
    let n = length (write_answers ws []) in
    let pointers = own_pointers v4 v6 fuel src.ans in
    let named = name_pointers-own v4 v6 fuel src.quests src.ans ws all in
    let (done, run, all') =
      format_data-own v4 v6 fuel q quests (record { size = 255; at = contents }) src.ans ws all
        refl in
    let len = response_length-write_answers pointers done ws src.buf_len all' in
    let request = i0 ∷ i1 ∷ f0 ∷ f1 ∷ q0 ∷ q1 ∷ a0 ∷ a1 ∷ rest in
    let (d0, copied, (here, same)) =
      copy_bytes-Stored request src.req_buf 0 (record { size = src.buf_len + n + 1; at = contents })
        0 s (omega (arith, size, inside)) (omega (arith, size)) in
    let count : length request ≡ src.buf_len = omega (arith, size) in
    let copied' : copy_bytes src.buf_len src.req_buf 0
          (record { size = src.buf_len + n + 1; at = contents }) 0
        ≡ ok d0 =
      rw count at copied in
    let (d1, d2, r1, r2, header, size') =
      put_header d0 (response_flags src.flags src.ancount) src.ancount i0 i1 f0 f1 q0 q1 a0 a1 rest
        here (omega (arith, same.size, size)) in
    let (k, r3, (answers, outside)) =
      put_answers-write_answers pointers done ws d2 src.buf_len all'
        (omega (arith, same.size, size')) in
    let named' : name_pointers fuel src.ancount src.quests src.ans ≡ ok pointers =
      rw counted named in
    let run' : format_data v4 v6 fuel src.quests (record { size = 255; at = contents }) pointers
          src.ans
        ≡ ok done =
      rw e run in
    let front =
      Stored-frame d2 k 0 (answered request (response_flags src.flags src.ancount) src.ancount)
        header (λ i h j. outside.below i (omega (arith, size))) in
    let whole =
      Stored-append k 0 src.buf_len
        (answered request (response_flags src.flags src.ancount) src.ancount) (write_answers ws [])
        (omega (arith, size)) front answers in
    (
      (k, src.buf_len + n),
      response_format-steps v4 v6 fuel contents src pointers done (src.buf_len + n) d0 d1 d2 k
          named' run' len copied' r1 r2 r3,
      (whole, refl, outside.size ∙ (size' ∙ same.size)),
    )
