-- ===== src/Question.antt =====
-- The question section in src/Service/packet.c: the loop of `packetParse` over the questions of the
-- packet in `src`, from the place `pos` on. `contents` are the bytes that `malloc` returns for the
-- 64 + 1 bytes of a name. The loops in `strlen` and `inetParse` take the fuel.
pub mod Read
pub mod Overrun
use dns_relay_server.Base.{ℕ, zero, suc, ◌+◌, List, [], ◌∷◌, Run, ok, ◌>>=◌}
use dns_relay_server.Memory.{Memory, load16}
use dns_relay_server.Inet.{string_length, inet_parse_name}

-- A question with the buffer of its name.
pub record RawQuest : Type 0 where
  pub qname : Memory
  pub qtype : ℕ
  pub qclass : ℕ

-- A question, and the place behind it.
unfoldable pub read_quest : (fuel : ℕ) (contents : ℕ → ℕ) → Memory → (pos : ℕ) → Run (RawQuest × ℕ)
read_quest fuel contents src pos = do
  q_len ← string_length fuel src pos
  qname ← inet_parse_name fuel src pos (record { size = 65; at = contents })
  let behind = pos + q_len + 1
  qtype ← load16 src behind
  qclass ← load16 src (behind + 2)
  ok (record { qname = qname; qtype = qtype; qclass = qclass }, behind + 4)

-- The loop over `QDCOUNT` questions.
unfoldable pub read_quests :
    (fuel : ℕ) (contents : ℕ → ℕ) → (qdcount : ℕ) → Memory → (pos : ℕ) → Run (List RawQuest × ℕ)
read_quests fuel contents zero src pos = ok ([], pos)
read_quests fuel contents (suc n) src pos = do
  (q, behind) ← read_quest fuel contents src pos
  (qs, behind') ← read_quests fuel contents n src behind
  ok (q ∷ qs, behind')
