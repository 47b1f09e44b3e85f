-- ===== src/Packet/Format.antt =====
-- The answer section of a response: what is written into memory is what Wire writes.
use dns_relay_server.Base.{
  ℕ, ◌+◌, ◌/◌, ◌≤◌, ◌<◌, ◌≡◌, ◌∙◌, refl, List, [], ◌∷◌, ◌++◌, length, length-append, some, arith,
  Run, ok, Returns, ◌>>=◌,
}
use dns_relay_server.Entry.{Text}
use dns_relay_server.Memory.{Memory, store16, copy_bytes}
use dns_relay_server.Memory.Stored.{
  Stored, SameOutside, SameOutside-join, Stored-frame, Stored-append, store16-Stored,
  store16-append, copy_bytes-Stored, bytes16,
}
use dns_relay_server.Wire.{WireAnswer, write_answer, write_answers}
use dns_relay_server.Packet.{RawAnswer, put_answer, put_answers, response_length, store32}

-- The answer in memory, with its pointer, is `w`; the buffer of the data holds them.
pub record IsAnswer (pointer : ℕ) (a : RawAnswer) (w : WireAnswer) : Type 0 where
  pub name : pointer ≡ w.name
  pub type : a.type ≡ w.type
  pub class : a.class ≡ w.class
  pub ttl : a.ttl ≡ w.ttl
  pub rdlen : a.rdlen ≡ length w.rdata
  pub rdata : Memory
  pub here : a.rdata ≡ some rdata
  pub room : length w.rdata ≤ rdata.size
  pub stored : Stored rdata 0 w.rdata

abbrev pub AllAnswers : List ℕ → List RawAnswer → List WireAnswer → Type 0
AllAnswers [] [] [] = Unit
AllAnswers (pointer ∷ pointers) (a ∷ ans) (w ∷ ws) =
    IsAnswer pointer a w × AllAnswers pointers ans ws
AllAnswers [] [] (w ∷ ws) = ⊥
AllAnswers [] (a ∷ ans) ws = ⊥
AllAnswers (pointer ∷ pointers) [] ws = ⊥
AllAnswers (pointer ∷ pointers) (a ∷ ans) [] = ⊥

-- The first ten bytes of an answer.
abbrev pub front_of : WireAnswer → Text
front_of w =
    bytes16 w.name
    ++ (bytes16 w.type ++ (bytes16 w.class ++ (bytes16 (w.ttl / 65536) ++ bytes16 w.ttl)))

put_front :
    (dest : Memory) (pos : ℕ) (w : WireAnswer) (go_on : Memory → Run Memory)
    → pos + 10 < dest.size
    → (k : Memory) × ((do
      d1 ← store16 dest pos w.name
      d2 ← store16 d1 (pos + 2) w.type
      d3 ← store16 d2 (pos + 4) w.class
      d4 ← store32 d3 (pos + 6) w.ttl
      go_on d4)
        ≡ go_on k)
      × Stored k pos (front_of w)
      × SameOutside dest k pos 10
put_front dest pos w go_on room =
    let none_yet : SameOutside dest dest pos 0 = record {
      size = refl;
      below = λ i h. refl;
      above = λ i h. refl;
    } in
    let (d1, r1, (s1, o1)) =
      store16-append dest dest pos pos w.name [] (omega arith) tt none_yet (omega arith) in
    let (d2, r2, (s2, o2)) =
      store16-append dest d1 pos (pos + 2) w.type (bytes16 w.name) refl s1 o1
        (omega (arith, o1.size)) in
    let (d3, r3, (s3, o3)) =
      store16-append dest d2 pos (pos + 4) w.class (bytes16 w.name ++ bytes16 w.type) refl s2 o2
        (omega (arith, o2.size)) in
    let (d4, r4, (s4, o4)) =
      store16-append dest d3 pos (pos + 6) (w.ttl / 65536)
        (bytes16 w.name ++ (bytes16 w.type ++ bytes16 w.class)) refl s3 o3
        (omega (arith, o3.size)) in
    let (d5, r5, (s5, o5)) =
      store16-append dest d4 pos (pos + 6 + 2) w.ttl
        (bytes16 w.name ++ (bytes16 w.type ++ (bytes16 w.class ++ bytes16 (w.ttl / 65536))))
        (omega arith) s4 o4 (omega (arith, o4.size)) in
    (d5, rw (r1, r2, r3, r4, r5), s5, o5)

-- All bytes of an answer.
abbrev pub bytes_of : WireAnswer → Text
bytes_of w = front_of w ++ (bytes16 (length w.rdata) ++ w.rdata)

pub write_answer-append : (w : WireAnswer) (rest : Text) → write_answer w rest ≡ bytes_of w ++ rest
unfolding write_answer
write_answer-append w rest = refl

put_answer-Stored :
    (dest : Memory) (pos pointer : ℕ) (a : RawAnswer) (w : WireAnswer)
    → IsAnswer pointer a w
    → pos + 12 + length w.rdata ≤ dest.size
    → Returns
        (put_answer dest pos pointer a)
        λ k. Stored k pos (bytes_of w) × SameOutside dest k pos (12 + length w.rdata)
unfolding put_answer
put_answer-Stored dest pos pointer a w is room =
    let n = length w.rdata in
    let (d4, run, front, same) =
      put_front dest pos w
        (λ d4. copy_bytes n is.rdata 0 d4 (pos + 12) >>= λ d5. store16 d5 (pos + 10) n)
        (omega (arith, room)) in
    let (d5, run', (copied, same')) =
      copy_bytes-Stored w.rdata is.rdata 0 d4 (pos + 12) is.stored (omega (arith, is.room))
        (omega (arith, same.size)) in
    let (d6, run'', (length_bytes, same'')) =
      store16-Stored d5 (pos + 10) n (omega (arith, same.size, same'.size)) in
    let last : (copy_bytes n is.rdata 0 d4 (pos + 12) >>= λ d5. store16 d5 (pos + 10) n) ≡ ok d6 =
      rw run' run'' in
    let front' =
      Stored-frame d4 d6 pos (front_of w) front
        (λ i h j. same''.below i (omega arith) ∙ same'.below i (omega arith)) in
    let copied' =
      Stored-frame d5 d6 (pos + 12) w.rdata copied (λ i h j. same''.above i (omega arith)) in
    let behind =
      Stored-append d6 (pos + 10) (pos + 12) (bytes16 n) w.rdata (omega arith) length_bytes
        copied' in
    let whole =
      Stored-append d6 pos (pos + 10) (front_of w) (bytes16 n ++ w.rdata) refl front' behind in
    let outer =
      SameOutside-join dest d4 d5 pos (pos + 12) 10 n (12 + n) (omega arith) (omega arith)
        (omega arith) same same' in
    (
      d6,
      rw (is.name, is.type, is.class, is.ttl, is.here, is.rdlen) (run ∙ last),
      (
        whole,
        SameOutside-join dest d5 d6 pos (pos + 10) (12 + n) 2 (12 + n) (omega arith) (omega arith)
            (omega arith) outer same'',
      ),
    )

pub length-write_answer :
    (w : WireAnswer) (rest : Text)
    → length (write_answer w rest) ≡ 12 + length w.rdata + length rest
unfolding write_answer
length-write_answer w rest = omega (arith, length-append {0} w.rdata rest)

pub response_length-write_answers :
    (pointers : List ℕ) (ans : List RawAnswer) (ws : List WireAnswer) (n : ℕ)
    → AllAnswers pointers ans ws
    → response_length n ans ≡ n + length (write_answers ws [])
unfolding write_answers
response_length-write_answers [] [] [] n all = omega arith
response_length-write_answers [] [] (w ∷ ws) n all = absurd all
response_length-write_answers [] (a ∷ ans) ws n all = absurd all
response_length-write_answers (pointer ∷ pointers) [] ws n all = absurd all
response_length-write_answers (pointer ∷ pointers) (a ∷ ans) [] n all = absurd all
response_length-write_answers (pointer ∷ pointers) (a ∷ ans) (w ∷ ws) n all =
    let rest = write_answers ws [] in
    let size = length-write_answer w rest in
    omega (
      arith,
      size,
      all.0.rdlen,
      response_length-write_answers pointers ans ws (n + (a.rdlen + 12)) all.1,
    )

-- Answers whose pointers, fields and data are those of a list of answers for the wire, with room for
-- them behind `pos`: there is no fault, the bytes that Wire writes for the list stand at `pos`, and
-- nothing else changes.
pub put_answers-write_answers :
    (pointers : List ℕ) (ans : List RawAnswer) (ws : List WireAnswer) (dest : Memory) (pos : ℕ)
    → AllAnswers pointers ans ws
    → pos + length (write_answers ws []) ≤ dest.size
    → Returns (put_answers dest pos pointers ans) λ k.
      Stored k pos (write_answers ws []) × SameOutside dest k pos (length (write_answers ws []))
unfolding put_answers write_answers
put_answers-write_answers [] [] [] dest pos all room =
    (dest, refl, (tt, record { size = refl; below = λ i h. refl; above = λ i h. refl }))
put_answers-write_answers [] [] (w ∷ ws) dest pos all room = absurd all
put_answers-write_answers [] (a ∷ ans) ws dest pos all room = absurd all
put_answers-write_answers (pointer ∷ pointers) [] ws dest pos all room = absurd all
put_answers-write_answers (pointer ∷ pointers) (a ∷ ans) [] dest pos all room = absurd all
put_answers-write_answers (pointer ∷ pointers) (a ∷ ans) (w ∷ ws) dest pos all room =
    let rest = write_answers ws [] in
    let n = length w.rdata in
    let size = length-write_answer w rest in
    let (k, run, (stored, same)) =
      put_answer-Stored dest pos pointer a w all.0 (omega (arith, size, room)) in
    let next : pos + (a.rdlen + 12) ≡ pos + (12 + n) = omega (arith, all.0.rdlen) in
    let (k', run', (stored', same')) =
      put_answers-write_answers pointers ans ws k (pos + (12 + n)) all.1
        (omega (arith, size, room, same.size)) in
    let kept = Stored-frame k k' pos (bytes_of w) stored (λ i h j. same'.below i (omega arith)) in
    let whole =
      Stored-append k' pos (pos + (12 + n)) (bytes_of w) rest (omega arith) kept stored' in
    let outside =
      SameOutside-join dest k k' pos (pos + (12 + n)) (12 + n) (length rest)
        (length (write_answer w rest)) (omega arith) (omega (arith, size)) (omega (arith, size))
        same same' in
    (k', rw (run, next) run', (rw (write_answer-append w rest) whole, outside))
