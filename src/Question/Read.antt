-- ===== src/Question/Read.antt =====
-- What `packetParse` reads of a question section in its wire form.
use dns_relay_server.Base.{
  ℕ, suc, ◌+◌, ◌/◌, ◌%◌, ◌≤◌, ◌<◌, ◌≡◌, refl, ap, ◌∙◌, List, [], ◌∷◌, ◌++◌, length, length-append,
  arith, ok, Returns,
}
use dns_relay_server.Entry.{Text}
use dns_relay_server.Memory.{Memory, load16}
use dns_relay_server.Memory.Stored.{Stored, Stored-split, load16-Stored}
use dns_relay_server.Inet.Names.{AllLabels, wire, dotted}
use dns_relay_server.Inet.Body.{body, wire-body, body-no_zero, length-others}
use dns_relay_server.Inet.Parse.{inet_parse_name-dotted}
use dns_relay_server.Inet.Format.{string_length-Stored}
use dns_relay_server.Question.{RawQuest, read_quest, read_quests}

-- A question as its first label, its other labels, its type and its class.
pub record WireQuest : Type 0 where
  pub label : Text
  pub others : List Text
  pub qtype : ℕ
  pub qclass : ℕ

abbrev pub name_of : WireQuest → List Text
name_of q = q.label ∷ q.others

abbrev pub tail_of : WireQuest → Text
tail_of q = q.qtype / 256 ∷ q.qtype % 256 ∷ q.qclass / 256 ∷ q.qclass % 256 ∷ []

-- The name, the type and the class, and then what follows.
abbrev pub encoded : List WireQuest → Text
encoded [] = []
encoded (q ∷ qs) = wire (name_of q) ++ (tail_of q ++ encoded qs)

-- The name is made of labels, and its dotted string fits 65 bytes with its 0.
pub record IsWireQuest (q : WireQuest) : Type 0 where
  pub labelled : AllLabels (name_of q)
  pub room : length (dotted (name_of q)) < 65

abbrev pub AllWireQuests : List WireQuest → Type 0
AllWireQuests [] = Unit
AllWireQuests (q ∷ qs) = IsWireQuest q × AllWireQuests qs

-- The buffers hold the dotted strings; the types and classes are the same.
abbrev pub AllRead : List RawQuest → List WireQuest → Type 0
AllRead [] [] = Unit
AllRead [] (q ∷ qs) = ⊥
AllRead (r ∷ rs) [] = ⊥
AllRead (r ∷ rs) (q ∷ qs) =
    (Stored r.qname 0 (dotted (name_of q) ++ 0 ∷ [])
      × (r.qtype ≡ q.qtype)
      × (r.qclass ≡ q.qclass)
      × (r.qname.size ≡ 65))
    × AllRead rs qs

tail_of-Stored :
    (src : Memory) (pos : ℕ) (q : WireQuest) (rest : Text)
    → Stored src pos (tail_of q ++ rest)
    → pos + 4 ≤ src.size
    → (load16 src pos ≡ ok q.qtype) × (load16 src (pos + 2) ≡ ok q.qclass)
tail_of-Stored src pos q rest s inside =
    let one : pos + 1 ≡ suc pos = omega arith in
    let two : pos + 2 ≡ suc (suc pos) = omega arith in
    let three : pos + 2 + 1 ≡ suc (suc (suc pos)) = omega arith in
    (
      load16-Stored src pos q.qtype s.0 (rw one s.1.0) (omega arith),
      load16-Stored src (pos + 2) q.qclass (rw two s.1.1.0) (rw three s.1.1.1.0) (omega arith),
    )

module _ (fuel : ℕ) (contents : ℕ → ℕ) (src : Memory) where
  pub read_quest-IsWireQuest :
      (q : WireQuest) (pos : ℕ) (rest : Text)
      → IsWireQuest q
      → Stored src pos (wire (name_of q) ++ (tail_of q ++ rest))
      → pos + length (wire (name_of q)) + 4 ≤ src.size
      → length (wire (name_of q)) < fuel
      → (r : RawQuest) × (read_quest fuel contents src pos
          ≡ ok (r, pos + length (wire (name_of q)) + 4))
        × (Stored r.qname 0 (dotted (name_of q) ++ 0 ∷ [])
            × (r.qtype ≡ q.qtype)
            × (r.qclass ≡ q.qclass)
            × (r.qname.size ≡ 65))
  unfolding read_quest
  read_quest-IsWireQuest q pos rest v s inside f =
      let ls = name_of q in
      let bytes = wire-body ls in
      let total : length (wire ls) ≡ length (body ls) + 1 =
        ap length bytes ∙ length-append (body ls) (0 ∷ []) in
      let behind = pos + length (body ls) + 1 in
      let (front, back) =
        Stored-split src pos behind (wire ls) (tail_of q ++ rest) (omega arith) s in
      let measured =
        string_length-Stored src (body ls) [] fuel pos (body-no_zero ls v.labelled)
          (rw bytes at front) (omega arith) (omega arith) in
      let (k, run, (name, size)) =
        inet_parse_name-dotted src pos q.label q.others fuel (record { size = 65; at = contents })
          v.labelled front (omega arith) v.room (omega (arith, length-others ls v.labelled)) in
      let (qtype, qclass) = tail_of-Stored src behind q rest back (omega arith) in
      let place : behind + 4 ≡ pos + length (wire ls) + 4 = omega (arith, total) in
      (
        record { qname = k; qtype = q.qtype; qclass = q.qclass },
        rw (measured, run, qtype, qclass, place),
        (name, refl, refl, size),
      )

  -- A question section in its wire form, where each name is made of labels and its dotted string
  -- fits 65 bytes with its 0, inside the packet's buffer and shorter than the fuel: there is no
  -- fault, the buffers hold the dotted strings, the types and classes are those of the questions,
  -- and the place behind the section is returned.
  pub read_quests-encoded :
      (quests : List WireQuest) (pos : ℕ)
      → AllWireQuests quests
      → Stored src pos (encoded quests)
      → pos + length (encoded quests) ≤ src.size
      → length (encoded quests) < fuel
      → Returns
          (read_quests fuel contents (length quests) src pos)
          λ (read, behind). AllRead read quests × (behind ≡ pos + length (encoded quests))
  unfolding read_quests
  read_quests-encoded [] pos all s inside f = (([], pos), refl, (tt, omega arith))
  read_quests-encoded (q ∷ qs) pos all s inside f =
      let name = wire (name_of q) in
      let total : length (encoded (q ∷ qs)) ≡ length name + 4 + length (encoded qs) =
        omega (arith, length-append {0} name (tail_of q ++ encoded qs)) in
      let next = pos + length name + 4 in
      let (r, run, same) =
        read_quest-IsWireQuest q pos (encoded qs) all.0 s (omega arith) (omega arith) in
      let (_, back) =
        Stored-split src pos (pos + length name) name (tail_of q ++ encoded qs) refl s in
      let (_, rest) =
        Stored-split src (pos + length name) next (tail_of q) (encoded qs) (omega arith) back in
      let ((rs, behind'), run', (same', place')) =
        read_quests-encoded qs next all.1 rest (omega arith) (omega arith) in
      ((r ∷ rs, behind'), rw (run, run'), ((same, same'), omega arith))
