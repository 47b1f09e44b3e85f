-- ===== src/Wire/RoundTrip.antt =====
-- The answers that `responseFormat` writes are read again by `packetParse`.
use dns_relay_server.Base.{
  ℕ, ◌+◌, ◌*◌, ◌/◌, ◌%◌, ◌^◌, ◌<◌, ◌≡◌, refl, List, [], ◌∷◌, ◌++◌, map, length, arith, ok,
}
use dns_relay_server.Entry.{Text}
use dns_relay_server.Wire.{
  WireAnswer, write_answer, write_answers, split_at, read_answer, read_answers,
}

-- The fields fit their widths.
pub record IsWireAnswer (a : WireAnswer) : Type 0 where
  pub name : a.name < 2 ^ 16
  pub type : a.type < 2 ^ 16
  pub class : a.class < 2 ^ 16
  pub ttl : a.ttl < 2 ^ 32
  pub rdlen : length a.rdata < 2 ^ 16

abbrev pub AllWireAnswers : List WireAnswer → Type 0
AllWireAnswers [] = Unit
AllWireAnswers (a ∷ ans) = IsWireAnswer a × AllWireAnswers ans

-- The answer with the two bytes of its NAME exchanged.
abbrev pub swapped : WireAnswer → WireAnswer
swapped a = record a { name = a.name % 256 * 256 + a.name / 256 }

split_at-append : (xs ys : Text) → split_at (length xs) (xs ++ ys) ≡ ok (xs, ys)
unfolding split_at
split_at-append [] ys = refl
split_at-append (x ∷ xs) ys = rw (split_at-append xs ys)

bytes16 : (n : ℕ) → n < 2 ^ 16 → n / 256 % 256 * 256 + n % 256 ≡ n
bytes16 n h = omega arith

bytes32 :
    (n : ℕ)
    → n < 2 ^ 32
    → (n / 65536 / 256 % 256 * 256 + n / 65536 % 256) * 65536 + (n / 256 % 256 * 256 + n % 256) ≡ n
bytes32 n h = omega arith

read_answer-write_answer :
    (a : WireAnswer) (rest : Text)
    → IsWireAnswer a
    → read_answer (write_answer a rest) ≡ ok (swapped a, rest)
unfolding read_answer write_answer split_at
read_answer-write_answer a rest fit =
    let high : a.name / 256 % 256 ≡ a.name / 256 = omega (arith, fit.name) in
    rw (
      bytes16 a.type fit.type,
      bytes16 a.class fit.class,
      bytes32 a.ttl fit.ttl,
      bytes16 (length a.rdata) fit.rdlen,
      split_at-append a.rdata rest,
      high,
    )

-- Answers whose fields fit their widths, written by the loop of `responseFormat` in front of other
-- bytes, are read by the loop of `packetParse` without a fault: they are the same answers but for
-- the NAME, whose two bytes are exchanged, and the other bytes are left.
pub read_answers-write_answers :
    (ans : List WireAnswer) (rest : Text)
    → AllWireAnswers ans
    → read_answers (length ans) (write_answers ans rest) ≡ ok (map swapped ans, rest)
unfolding read_answers write_answers
read_answers-write_answers [] rest all = refl
read_answers-write_answers (a ∷ ans) rest all = rw (
  read_answer-write_answer a (write_answers ans rest) all.0,
  read_answers-write_answers ans rest all.1,
)
