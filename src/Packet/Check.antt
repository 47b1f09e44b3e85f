-- ===== src/Packet/Check.antt =====
-- What `packetCheck` and `bufferCheck` of src/Service/packet.c print. A byte in hexadecimal digits
-- stands as the byte, and a string as its bytes.
use dns_relay_server.Base.{
  ℕ, zero, suc, ◌+◌, ◌/◌, ◌%◌, ltb, ◌==◌, ◌&&◌, if◌then◌else◌, Option, none, some, List, [], ◌∷◌,
  ◌++◌, Run, ok, fault, ◌>>=◌,
}
use dns_relay_server.Entry.{Text}
use dns_relay_server.Memory.{Memory, load}
use dns_relay_server.Net.{htons}
use dns_relay_server.Protocol.{type_mx, get_qr}
use dns_relay_server.Address.{load_text}
use dns_relay_server.Question.{RawQuest}
use dns_relay_server.Packet.{RawAnswer, RawPacket, existing}

pub data Shown : Type 0 where
  null_pointer : Shown
  packet_length : ℕ → Shown
  origin : Shown
  byte : ℕ → Shown
  line_end : Shown
  check_begin : Shown
  id : ℕ → Shown
  flags : (qr rd ra rcode : ℕ) → Shown
  counts : (qdcount ancount : ℕ) → Shown
  question : (i : ℕ) → (qname : Text) → (qtype qclass : ℕ) → Shown
  resource : (i name_ptr type class ttl rdlen : ℕ) → (rdata : Text) → (pref : Option ℕ) → Shown
  check_end : Shown

-- Behind the last byte, and behind each sixteenth, the line ends.
unfoldable pub row_end : (i len : ℕ) → List Shown
row_end i len =
    if i + 1 == len
    then line_end ∷ []
    else if ltb 0 i && ((i + 1) % 16 == 0)
    then line_end ∷ []
    else []

-- The rounds of the loop from `i` on.
unfoldable pub dump_bytes : (rounds i len : ℕ) → Memory → Run (List Shown)
dump_bytes zero i len buf = ok []
dump_bytes (suc n) i len buf = do
  b ← load buf i
  rest ← dump_bytes n (suc i) len buf
  ok (byte b ∷ (row_end i len ++ rest))

-- `none` is NULL.
unfoldable pub buffer_check : (debug : ℕ) → Option Memory → (len : ℕ) → Run (List Shown)
buffer_check debug none len = ok (null_pointer ∷ [])
buffer_check debug (some buf) len =
    let dump = (do bytes ← dump_bytes len 0 len buf; ok (packet_length len ∷ origin ∷ bytes)) in
    if len == 0
    then ok (null_pointer ∷ [])
    else if ltb debug 2
    then ok (packet_length len ∷ [])
    else dump

module _ (fuel : ℕ) where
  -- The loop over `QDCOUNT` questions.
  unfoldable pub check_quests : (rounds i : ℕ) → List RawQuest → Run (List Shown)
  check_quests zero i quests = ok []
  check_quests (suc n) i [] = fault
  check_quests (suc n) i (q ∷ quests) = do
    qname ← load_text fuel q.qname 0
    rest ← check_quests n (suc i) quests
    ok (question i qname q.qtype q.qclass ∷ rest)

  -- The loop over `ANCOUNT` answers.
  unfoldable pub check_answers : (rounds i : ℕ) → List RawAnswer → Run (List Shown)
  check_answers zero i ans = ok []
  check_answers (suc n) i [] = fault
  check_answers (suc n) i (a ∷ ans) = do
    m ← existing a.rdata
    rdata ← load_text fuel m 0
    rest ← check_answers n (suc i) ans
    let pref = if a.type == type_mx then some a.addition else none
    ok (resource i (htons a.name) a.type a.class a.ttl a.rdlen rdata pref ∷ rest)

  unfoldable pub packet_check : (debug : ℕ) → RawPacket → Run (List Shown)
  packet_check zero src = ok []
  packet_check (suc debug) src = do
    buffer ← buffer_check (suc debug) (some src.req_buf) src.buf_len
    quests ← check_quests src.qdcount 0 src.quests
    ans ← check_answers src.ancount 0 src.ans
    let head =
        id src.id
        ∷ flags (get_qr src.flags) (src.flags / 256 % 2) (src.flags / 128 % 2) (src.flags % 16)
        ∷ counts src.qdcount src.ancount
        ∷ []
    ok (check_begin ∷ (buffer ++ (head ++ (quests ++ (ans ++ check_end ∷ [])))))
