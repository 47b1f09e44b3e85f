-- ===== src/Packet/Addresses.antt =====
-- `packetParse` of answers with IPv4 addresses, as `responseFormat` writes them.
use dns_relay_server.Base.{
  ℕ, suc, ◌+◌, ◌*◌, ◌/◌, ◌%◌, ◌^◌, ◌≤◌, ◌<◌, ◌≡◌, sym, refl, List, [], ◌∷◌, ◌++◌, length, some,
  arith, ok, Returns,
}
use dns_relay_server.Entry.{Text}
use dns_relay_server.Memory.{Memory, load16}
use dns_relay_server.Memory.Stored.{Stored, Stored-split, load16-bytes16, bytes16}
use dns_relay_server.Protocol.{type_a, type_buf_size}
use dns_relay_server.Address.{Family}
use dns_relay_server.Address.RoundTrip.{parse_address-Stored}
use dns_relay_server.Url.{url_parse}
use dns_relay_server.Wire.{WireAnswer, write_answers}
use dns_relay_server.Packet.{RawAnswer, parse_answer, parse_answers, load16_host, load32}
use dns_relay_server.Packet.Format.{front_of, bytes_of, write_answer-append, length-write_answer}

module _ (v4 v6 : Family) (fuel : ℕ) (contents : ℕ → ℕ) where
  -- The fields fit their widths, and the data are an IPv4 address whose string there is room for.
  pub record IsAddressAnswer (w : WireAnswer) : Type 0 where
    pub name : w.name < 2 ^ 16
    pub type : w.type ≡ type_a
    pub class : w.class < 2 ^ 16
    pub ttl : w.ttl < 2 ^ 32
    pub four_bytes : length w.rdata ≡ 4
    pub short : length (v4.inet_ntop w.rdata) < 16

  abbrev pub AllAddressAnswers : List WireAnswer → Type 0
  AllAddressAnswers [] = Unit
  AllAddressAnswers (w ∷ ws) = IsAddressAnswer w × AllAddressAnswers ws

  -- The answer has the fields of `w`, the two bytes of NAME exchanged, and the string of its address.
  pub record IsParsed (a : RawAnswer) (w : WireAnswer) : Type 0 where
    pub qpos : a.qpos ≡ 0
    pub name : a.name ≡ w.name % 256 * 256 + w.name / 256
    pub type : a.type ≡ w.type
    pub class : a.class ≡ w.class
    pub ttl : a.ttl ≡ w.ttl
    pub rdlen : a.rdlen ≡ 4
    pub rdata : Memory
    pub here : a.rdata ≡ some rdata
    pub stored : Stored rdata 0 (v4.inet_ntop w.rdata ++ 0 ∷ [])

  abbrev pub AllParsed : List RawAnswer → List WireAnswer → Type 0
  AllParsed [] [] = Unit
  AllParsed [] (w ∷ ws) = ⊥
  AllParsed (a ∷ ans) [] = ⊥
  AllParsed (a ∷ ans) (w ∷ ws) = IsParsed a w × AllParsed ans ws

  -- The bytes behind NAME.
  abbrev tail_of : WireAnswer → Text → Text
  tail_of w rest =
      bytes16 w.type
      ++ (bytes16 w.class ++ (bytes16 (w.ttl / 65536) ++ (bytes16 w.ttl ++ (bytes16 4 ++ rest))))

  module _ (buf : Memory) where
    -- The next two bytes, where `m` is what the number `n` leaves of 16 bits.
    next16 :
        (q q' n m : ℕ) (rest : Text)
        → q' ≡ q + 2
        → m ≡ n % 65536
        → Stored buf q (bytes16 n ++ rest)
        → q + 1 < buf.size
        → (load16 buf q ≡ ok m) × Stored buf q' rest
    next16 q q' n m rest e e' s inside =
        let (front, back) = Stored-split buf q q' (bytes16 n) rest e s in
        let low : n % 256 ≡ m % 256 = omega (arith, e') in
        let high : n / 256 % 256 ≡ m / 256 % 256 = omega (arith, e') in
        let front' : Stored buf q (bytes16 m) = (rw high at front.0, (rw low at front.1.0, tt)) in
        (load16-bytes16 buf q m (omega (arith, e')) front' inside, back)

    -- The fields in front of the data.
    load_fields :
        (pos : ℕ) (w : WireAnswer) (rest : Text)
        → IsAddressAnswer w
        → Stored buf pos (front_of w ++ (bytes16 4 ++ rest))
        → pos + 12 ≤ buf.size
        → (load16_host buf pos ≡ ok (w.name % 256 * 256 + w.name / 256))
          × (load16 buf (pos + 2) ≡ ok type_a)
          × (load16 buf (pos + 4) ≡ ok w.class)
          × (load32 buf (pos + 6) ≡ ok w.ttl)
          × (load16 buf (pos + 10) ≡ ok 4)
          × Stored buf (pos + 12) rest
    load_fields pos w rest is s inside =
        let r4 = bytes16 4 ++ rest in
        let r3 = bytes16 w.ttl ++ r4 in
        let r2 = bytes16 (w.ttl / 65536) ++ r3 in
        let r1 = bytes16 w.class ++ r2 in
        let (high, _) = Stored-split buf pos (pos + 2) (bytes16 w.name) (tail_of w rest) refl s in
        let next : suc pos ≡ pos + 1 = omega arith in
        let low : buf.at (pos + 1) ≡ w.name % 256 = rw next at high.1.0 in
        let (_, s2) =
          next16 pos (pos + 2) w.name w.name (tail_of w rest) refl (omega (arith, is.name)) s
            (omega (arith, inside)) in
        let (type, s4) =
          next16 (pos + 2) (pos + 4) w.type type_a r1 (omega arith) (omega (arith, is.type)) s2
            (omega (arith, inside)) in
        let (class, s6) =
          next16 (pos + 4) (pos + 6) w.class w.class r2 (omega arith) (omega (arith, is.class)) s4
            (omega (arith, inside)) in
        let (high_ttl, s8) =
          next16 (pos + 6) (pos + 6 + 2) (w.ttl / 65536) (w.ttl / 65536) r3 refl
            (omega (arith, is.ttl)) s6 (omega (arith, inside)) in
        let (low_ttl, s10) =
          next16 (pos + 6 + 2) (pos + 10) w.ttl (w.ttl % 65536) r4 (omega arith) refl s8
            (omega (arith, inside)) in
        let (rdlen, s12) =
          next16 (pos + 10) (pos + 12) 4 4 rest (omega arith) refl s10 (omega (arith, inside)) in
        let sum : w.ttl / 65536 * 65536 + w.ttl % 65536 ≡ w.ttl = omega arith in
        let ttl : load32 buf (pos + 6) ≡ ok w.ttl = rw (high_ttl, low_ttl, sum) in
        let host : load16_host buf pos ≡ ok (w.name % 256 * 256 + w.name / 256) =
          ground (arith, high.0, low, inside, is.name) in
        (host, type, class, ttl, rdlen, s12)

    parse_answer-IsAddressAnswer :
        (pos : ℕ) (w : WireAnswer) (rest : Text)
        → IsAddressAnswer w
        → Stored buf pos (bytes_of w ++ rest)
        → pos + 16 ≤ buf.size
        → (a : RawAnswer) × (parse_answer v4 v6 fuel contents buf pos ≡ ok (a, pos + 12 + 4))
          × IsParsed a w
    unfolding parse_answer url_parse type_buf_size
    parse_answer-IsAddressAnswer pos w rest is s inside =
        let bytes : Stored buf pos (front_of w ++ (bytes16 4 ++ (w.rdata ++ rest))) =
          rw is.four_bytes at s in
        let (name, type, class, ttl, rdlen, behind) =
          load_fields pos w (w.rdata ++ rest) is bytes (omega (arith, inside)) in
        let (rdata, _) =
          Stored-split buf (pos + 12) (pos + 16) w.rdata rest (omega (arith, is.four_bytes))
            behind in
        let (k, run, (stored, _)) =
          parse_address-Stored 4 16 v4 w.rdata buf (pos + 12) (record { size = 22; at = contents })
            is.four_bytes is.short (omega arith) rdata (omega (arith, is.four_bytes, inside)) in
        (
          record {
            qpos = 0;
            name = w.name % 256 * 256 + w.name / 256;
            type = type_a;
            class = w.class;
            rdlen = 4;
            ttl = w.ttl;
            addition = contents 0 % 256 + contents 1 % 256 * 256;
            rdata = some k;
          },
          rw (name, type, class, ttl, rdlen, run),
          record {
            qpos = refl;
            name = refl;
            type = sym is.type;
            class = refl;
            ttl = refl;
            rdlen = refl;
            rdata = k;
            here = refl;
            stored = stored;
          },
        )

    -- The loop of `packetParse` over answers with IPv4 addresses whose strings there is room for, as
    -- Wire writes them, inside the buffer: there is no fault, and each answer has the fields that
    -- were written, the two bytes of NAME exchanged, and the string of the address.
    pub parse_answers-write_answers :
        (ws : List WireAnswer) (pos : ℕ)
        → AllAddressAnswers ws
        → Stored buf pos (write_answers ws [])
        → pos + length (write_answers ws []) ≤ buf.size
        → Returns (parse_answers v4 v6 fuel contents (length ws) buf pos) λ ans. AllParsed ans ws
    unfolding parse_answers write_answers
    parse_answers-write_answers [] pos all s inside = ([], refl, tt)
    parse_answers-write_answers (w ∷ ws) pos all s inside =
        let rest = write_answers ws [] in
        let size = length-write_answer w rest in
        let bytes : Stored buf pos (bytes_of w ++ rest) = rw (write_answer-append w rest) at s in
        let (a, run, parsed) =
          parse_answer-IsAddressAnswer pos w rest all.0 bytes
            (omega (arith, size, inside, all.0.four_bytes)) in
        let (_, behind) =
          Stored-split buf pos (pos + 12 + 4) (bytes_of w) rest (omega (arith, all.0.four_bytes))
            bytes in
        let (ans, run', parsed') =
          parse_answers-write_answers ws (pos + 12 + 4) all.1 behind
            (omega (arith, size, inside, all.0.four_bytes)) in
        (a ∷ ans, rw (run, run'), (parsed, parsed'))
