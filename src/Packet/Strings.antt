-- ===== src/Packet/Strings.antt =====
-- Whatever `packetParse` returns has the names, and the strings of the answers that are stored.
use dns_relay_server.Base.{
  ℕ, zero, suc, ◌+◌, ◌≡◌, ap, refl, Bool, true, false, not, ◌||◌, ◌==◌, Bool-cases, inl, inr,
  Option, none, some, List, [], ◌∷◌, All, ok, bind-ok, ok-same, if◌then◌else◌, arith,
}
use dns_relay_server.Memory.{Memory, load16}
use dns_relay_server.Protocol.{Quest, Answer, Packet, get_qr, type_buf_size}
use dns_relay_server.Address.{Family, load_text}
use dns_relay_server.Url.{url_parse}
use dns_relay_server.Cache.Inv.{is_some}
use dns_relay_server.Query.Store.{AllData}
use dns_relay_server.Query.Steps.{IsNamed, AllStored}
use dns_relay_server.Question.{RawQuest, read_quests}
use dns_relay_server.Packet.{
  RawAnswer, RawPacket, load16_host, load32, parse_answer, parse_answers, packet_parse,
}
use dns_relay_server.Packet.View.{is_stored, quests_of, text_of, data_of, answers_of, packet_of}

-- The data were allocated.
abbrev pub HasData : RawAnswer → Type 0
HasData a = is_some a.rdata ≡ true

HasData-same : (ans ans' : List RawAnswer) → ans ≡ ans' → All HasData ans → All HasData ans'
HasData-same ans ans' e all = rw e at all

quests_of-IsNamed :
    (fuel : ℕ) (read : List RawQuest) (quests : List Quest)
    → quests_of fuel read ≡ ok quests
    → All IsNamed quests
quests_of-IsNamed fuel [] quests run = let same = ok-same [] quests run in rw (← same) tt
quests_of-IsNamed fuel (q ∷ read) quests run =
    let (qname, _, rest) = bind-ok (load_text fuel q.qname 0) _ quests run in
    let (others, run', rest') = bind-ok (quests_of fuel read) _ quests rest in
    let same = ok-same _ quests rest' in rw (← same) (refl, quests_of-IsNamed fuel read others run')

text_of-some :
    (fuel : ℕ) (m : Option Memory) (s : Option (List ℕ))
    → is_some m ≡ true
    → text_of fuel m ≡ ok s
    → is_some s ≡ true
text_of-some fuel none s h run = absurd (cc h)
text_of-some fuel (some m) s h run =
    let (t, _, rest) = bind-ok (load_text fuel m 0) _ s run in
    let same = ok-same (some t) s rest in rw (← same)

data_of-some :
    (fuel : ℕ) (wanted same : Bool) (m : Option Memory) (s : Option (List ℕ))
    → (not same || wanted) ≡ true
    → is_some m ≡ true
    → data_of fuel wanted m ≡ ok s
    → (not same || is_some s) ≡ true
data_of-some fuel wanted false m s read h run = refl
data_of-some fuel true true m s read h run = text_of-some fuel m s h run
data_of-some fuel false true m s read h run = absurd (cc read)

answers_of-AllData :
    (fuel : ℕ) (wanted : ℕ → Bool) (type : ℕ) (raw : List RawAnswer) (ans : List Answer)
    → ((t : ℕ) → (not (t == type) || wanted t) ≡ true)
    → All HasData raw
    → answers_of fuel wanted raw ≡ ok ans
    → AllData type ans
answers_of-AllData fuel wanted type [] ans reads all run =
    let same = ok-same [] ans run in rw (← same) tt
answers_of-AllData fuel wanted type (a ∷ raw) ans reads all run =
    let (rdata, text, rest) = bind-ok (data_of fuel (wanted a.type) a.rdata) _ ans run in
    let (others, run', rest') = bind-ok (answers_of fuel wanted raw) _ ans rest in
    let same = ok-same _ ans rest' in
    rw (← same) (
      data_of-some fuel (wanted a.type) (a.type == type) a.rdata rdata (reads a.type) all.0 text,
      answers_of-AllData fuel wanted type raw others reads all.1 run',
    )

-- The strings of the answers that are stored, for a response.
answers_of-AllStored :
    (fuel flags : ℕ) (read : List RawQuest) (quests : List Quest) (raw : List RawAnswer)
    (ans : List Answer)
    → get_qr flags ≡ 1
    → All HasData raw
    → quests_of fuel read ≡ ok quests
    → answers_of fuel (is_stored flags read) raw ≡ ok ans
    → AllStored quests ans
answers_of-AllStored fuel flags [] quests raw ans response all named run =
    let same = ok-same [] quests named in rw (← same) tt
answers_of-AllStored fuel flags (q ∷ read) quests raw ans response all named run =
    let (qname, _, rest) = bind-ok (load_text fuel q.qname 0) _ quests named in
    let (others, _, rest') = bind-ok (quests_of fuel read) _ quests rest in
    let same = ok-same _ quests rest' in
    let has_data =
      answers_of-AllData fuel (is_stored flags (q ∷ read)) q.qtype raw ans
        (λ t. rw response (ground arith)) all run in
    rw (← same) has_data

module _ (v4 v6 : Family) (fuel : ℕ) (contents : ℕ → ℕ) where
  parse_answer-HasData :
      (buf : Memory) (pos : ℕ) (r : RawAnswer × ℕ)
      → parse_answer v4 v6 fuel contents buf pos ≡ ok r
      → HasData r.0
  unfolding parse_answer
  parse_answer-HasData buf pos r run =
      let (name, _, rest1) = bind-ok (load16_host buf pos) _ r run in
      let (type, _, rest2) = bind-ok (load16 buf (pos + 2)) _ r rest1 in
      let (class, _, rest3) = bind-ok (load16 buf (pos + 4)) _ r rest2 in
      let (ttl, _, rest4) = bind-ok (load32 buf (pos + 6)) _ r rest3 in
      let (rdlen, _, rest5) = bind-ok (load16 buf (pos + 10)) _ r rest4 in
      let ((rdata, addition), _, rest6) =
        bind-ok
          (url_parse v4 v6 fuel type buf (pos + 12) rdlen (record { size = 255; at = contents })
            (record { size = type_buf_size type; at = contents }))
          _ r rest5 in
      let same = ok-same _ r rest6 in rw (← same)

  parse_answers-HasData :
      (n : ℕ) (buf : Memory) (pos : ℕ) (ans : List RawAnswer)
      → parse_answers v4 v6 fuel contents n buf pos ≡ ok ans
      → All HasData ans
  unfolding parse_answers
  parse_answers-HasData zero buf pos ans run = let same = ok-same [] ans run in rw (← same) tt
  parse_answers-HasData (suc n) buf pos ans run =
      let ((a, behind), here, rest) =
        bind-ok (parse_answer v4 v6 fuel contents buf pos) _ ans run in
      let (others, run', rest') =
        bind-ok (parse_answers v4 v6 fuel contents n buf behind) _ ans rest in
      let same = ok-same _ ans rest' in
      rw (← same) (
        parse_answer-HasData buf pos (a, behind) here,
        parse_answers-HasData n buf behind others run',
      )

  any_answers-HasData :
      (ancount : ℕ) (buf : Memory) (pos : ℕ) (ans : List RawAnswer)
      → (if ancount == 0 then ok [] else parse_answers v4 v6 fuel contents ancount buf pos) ≡ ok ans
      → All HasData ans
  any_answers-HasData ancount buf pos ans run = elim (Bool-cases (ancount == 0)) [
    | inl empty ↦ let same = ok-same [] ans (rw empty at run) in rw (← same) tt
    | inr others ↦ parse_answers-HasData ancount buf pos ans (rw others at run)
  ]

  packet_parse-HasData :
      (buf : Memory) (len : ℕ) (raw : RawPacket)
      → packet_parse v4 v6 fuel contents buf len ≡ ok raw
      → All HasData raw.ans
  unfolding packet_parse
  packet_parse-HasData buf len raw run =
      let (id, _, rest1) = bind-ok (load16_host buf 0) _ raw run in
      let (flags, _, rest2) = bind-ok (load16 buf 2) _ raw rest1 in
      let (qdcount, _, rest3) = bind-ok (load16 buf 4) _ raw rest2 in
      let (ancount, _, rest4) = bind-ok (load16 buf 6) _ raw rest3 in
      let ((quests, behind), _, rest5) =
        bind-ok (read_quests fuel contents qdcount buf 12) _ raw rest4 in
      let (ans, parsed, rest6) =
        bind-ok
          (if ancount == 0 then ok [] else parse_answers v4 v6 fuel contents ancount buf behind) _
          raw rest5 in
      let same : ans ≡ raw.ans = ap (λ (r : RawPacket). r.ans) (ok-same _ raw rest6) in
      HasData-same ans raw.ans same (any_answers-HasData ancount buf behind ans parsed)

  -- The packet of any bytes that `packetParse` takes: its questions have their names, and, if it
  -- is a response, the answers that are stored have their strings.
  pub packet_of-strings :
      (buf : Memory) (len : ℕ) (raw : RawPacket) (p : Packet)
      → packet_parse v4 v6 fuel contents buf len ≡ ok raw
      → packet_of fuel raw ≡ ok p
      → All IsNamed p.quests × (get_qr p.flags ≡ 1 → AllStored p.quests p.ans)
  packet_of-strings buf len raw p parsed viewed =
      let (quests, named, rest) = bind-ok (quests_of fuel raw.quests) _ p viewed in
      let (ans, full, rest') =
        bind-ok (answers_of fuel (is_stored raw.flags raw.quests) raw.ans) _ p rest in
      let same = ok-same _ p rest' in
      rw (← same) (
        quests_of-IsNamed fuel raw.quests quests named,
        λ response.
            answers_of-AllStored fuel raw.flags raw.quests quests raw.ans ans response
              (packet_parse-HasData buf len raw parsed) named full,
      )
