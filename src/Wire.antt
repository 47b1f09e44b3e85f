-- ===== src/Wire.antt =====
-- The answer section of src/Service/packet.c: the bytes that `responseFormat` writes for the answers,
-- and how `packetParse` reads them. The data of an answer are the bytes that `urlFormat` has made,
-- or that `urlParse` is given. The host is little-endian. A buffer is the list of its bytes from
-- the place of reading on; to read behind its end is a fault.
pub mod RoundTrip
mod Tests
use dns_relay_server.Base.{
  ℕ, zero, suc, ◌+◌, ◌*◌, ◌/◌, ◌%◌, Option, none, some, List, [], ◌∷◌, ◌++◌, length, get_elem?, Run,
  ok, fault, ◌>>=◌,
}
use dns_relay_server.Entry.{Text}

pub record WireAnswer : Type 0 where
  pub name : ℕ
  pub type : ℕ
  pub class : ℕ
  pub ttl : ℕ
  pub rdata : Text

-- `htons` and `htonl`, and the copy of the bytes.
abbrev pub put16 : ℕ → Text → Text
put16 n bytes = n / 256 % 256 ∷ n % 256 ∷ bytes

abbrev pub put32 : ℕ → Text → Text
put32 n bytes = put16 (n / 65536) (put16 n bytes)

-- The bytes of an answer, in front of those of the next. RDLEN is a `uint16_t`.
unfoldable pub write_answer : WireAnswer → Text → Text
write_answer a bytes =
    put16 a.name
      (put16 a.type (put16 a.class (put32 a.ttl (put16 (length a.rdata) (a.rdata ++ bytes)))))

-- The loop of `responseFormat` over the answers.
unfoldable pub write_answers : List WireAnswer → Text → Text
write_answers [] bytes = bytes
write_answers (a ∷ ans) bytes = write_answer a (write_answers ans bytes)

abbrev pub byte_at : Text → ℕ → Run ℕ
byte_at bytes i = elim (get_elem? bytes i) [ none ↦ fault | some b ↦ ok b ]

-- `ntohs` of the two bytes at a place, and `ntohl` of four.
abbrev pub get16 : Text → ℕ → Run ℕ
get16 bytes i = do high ← byte_at bytes i; low ← byte_at bytes (i + 1); ok (high * 256 + low)

abbrev pub get32 : Text → ℕ → Run ℕ
get32 bytes i = do high ← get16 bytes i; low ← get16 bytes (i + 2); ok (high * 65536 + low)

-- The first bytes, and the others.
unfoldable pub split_at : ℕ → Text → Run (Text × Text)
split_at zero bytes = ok ([], bytes)
split_at (suc n) [] = fault
split_at (suc n) (b ∷ bytes) = do (front, back) ← split_at n bytes; ok (b ∷ front, back)

-- The NAME is read without `ntohs`: its two bytes are the other way round.
unfoldable pub read_answer : Text → Run (WireAnswer × Text)
read_answer bytes = do
  low ← byte_at bytes 0
  high ← byte_at bytes 1
  type ← get16 bytes 2
  class ← get16 bytes 4
  ttl ← get32 bytes 6
  rdlen ← get16 bytes 10
  (header, behind) ← split_at 12 bytes
  (rdata, rest) ← split_at rdlen behind
  ok (
    record { name = high * 256 + low; type = type; class = class; ttl = ttl; rdata = rdata },
    rest,
  )

-- The loop of `packetParse` over `ANCOUNT` answers.
unfoldable pub read_answers : ℕ → Text → Run (List WireAnswer × Text)
read_answers zero bytes = ok ([], bytes)
read_answers (suc n) bytes = do
  (a, rest) ← read_answer bytes
  (ans, rest') ← read_answers n rest
  ok (a ∷ ans, rest')
