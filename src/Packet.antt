-- ===== src/Packet.antt =====
-- The packets of src/Service/packet.c in memory: `packetParse` reads a packet from a buffer, and
-- `responseFormat` makes the buffer of a response. `contents` are the bytes that `malloc` returns,
-- and those of a local array before its first write. Macros of include/protocol.h that set bits stand
-- as arithmetic on 16 bits. The host is little-endian. The loops over a string take the fuel.
pub mod Parse
pub mod Overrun
pub mod View
pub mod Strings
pub mod Check
pub mod Checked
pub mod Pointers
pub mod Flags
pub mod Format
pub mod Addresses
pub mod Data
pub mod Response
mod Tests
use dns_relay_server.Base.{
  ℕ, zero, suc, ◌+◌, ◌-◌, ◌*◌, ◌/◌, ◌%◌, ◌==◌, ◌||◌, Bool, if◌then◌else◌, Option, none, some, List,
  [], ◌∷◌, length, get_elem?, Run, ok, fault, ◌>>=◌,
}
use dns_relay_server.Memory.{Memory, load, load16, store16, copy_bytes}
use dns_relay_server.Protocol.{type_buf_size}
use dns_relay_server.Inet.{string_length}
use dns_relay_server.Question.{RawQuest, read_quests}
use dns_relay_server.Address.{Family}
use dns_relay_server.Url.{url_parse, url_format, data_length}

-- An answer with the buffer of its data; `none` is NULL.
pub record RawAnswer : Type 0 where
  pub qpos : ℕ
  pub name : ℕ
  pub type : ℕ
  pub class : ℕ
  pub rdlen : ℕ
  pub ttl : ℕ
  pub addition : ℕ
  pub rdata : Option Memory

pub record RawPacket : Type 0 where
  pub req_buf : Memory
  pub buf_len : ℕ
  pub id : ℕ
  pub flags : ℕ
  pub qdcount : ℕ
  pub ancount : ℕ
  pub quests : List RawQuest
  pub ans : List RawAnswer

-- A 16-bit number as the host has it in memory, without `ntohs`.
abbrev pub load16_host : Memory → ℕ → Run ℕ
load16_host m i = do low ← load m i; high ← load m (i + 1); ok (high * 256 + low)

-- `ntohl(*(uint32_t*)p)`, and `*(uint32_t*)p = htonl(n)`.
abbrev pub load32 : Memory → ℕ → Run ℕ
load32 m i = do high ← load16 m i; low ← load16 m (i + 2); ok (high * 65536 + low)

abbrev pub store32 : Memory → ℕ → ℕ → Run Memory
store32 m i n = do m' ← store16 m i (n / 65536); store16 m' (i + 2) n

module _ (v4 v6 : Family) (fuel : ℕ) (contents : ℕ → ℕ) where
  -- A new buffer.
  abbrev fresh : ℕ → Memory
  fresh n = record { size = n; at = contents }

  -- An answer, and the place behind it. Without a preference ADDITION is what `malloc` returned.
  unfoldable pub parse_answer : Memory → (pos : ℕ) → Run (RawAnswer × ℕ)
  parse_answer buf pos = do
    name ← load16_host buf pos
    type ← load16 buf (pos + 2)
    class ← load16 buf (pos + 4)
    ttl ← load32 buf (pos + 6)
    rdlen ← load16 buf (pos + 10)
    (rdata, addition) ←
        url_parse v4 v6 fuel type buf (pos + 12) rdlen (fresh 255) (fresh (type_buf_size type))
    ok (
      record {
        qpos = 0;
        name = name;
        type = type;
        class = class;
        rdlen = rdlen;
        ttl = ttl;
        addition = elim addition [ none ↦ contents 0 % 256 + contents 1 % 256 * 256 | some n ↦ n ];
        rdata = some rdata;
      },
      pos + 12 + rdlen,
    )

  -- The loop over `ANCOUNT` answers.
  unfoldable pub parse_answers : (ancount : ℕ) → Memory → (pos : ℕ) → Run (List RawAnswer)
  parse_answers zero buf pos = ok []
  parse_answers (suc n) buf pos = do
    (a, behind) ← parse_answer buf pos
    ans ← parse_answers n buf behind
    ok (a ∷ ans)

  unfoldable pub packet_parse : (buf : Memory) (len : ℕ) → Run RawPacket
  packet_parse buf len = do
    id ← load16_host buf 0
    flags ← load16 buf 2
    qdcount ← load16 buf 4
    ancount ← load16 buf 6
    (quests, behind) ← read_quests fuel contents qdcount buf 12
    ans ← if ancount == 0 then ok [] else parse_answers ancount buf behind
    ok (record {
      req_buf = buf;
      buf_len = len;
      id = id;
      flags = flags;
      qdcount = qdcount;
      ancount = ancount;
      quests = quests;
      ans = ans;
    })

-- `n | bit`, for one bit, and SET_RCODE.
abbrev pub set_bit : (bit : ℕ) → ℕ → ℕ
set_bit bit n = if n / bit % 2 == 0 then n + bit else n

abbrev pub set_rcode : (code : ℕ) → ℕ → ℕ
set_rcode code n = n / 16 * 16 + code

-- The flags of the response: QR and RD, and for a count of 0 or 65535 also AA and RCODE_NAME_ERROR.
unfoldable pub response_flags : (flags ancount : ℕ) → ℕ
response_flags flags ancount =
    let flag = set_bit 256 (set_bit 32768 flags) in
    if (ancount == 0) || (ancount == 65535)
    then set_rcode 3 (set_bit 1024 flag)
    else set_rcode 0 flag

-- The inner loop for one name pointer: past the first `qpos` questions.
unfoldable pub name_pointer : (fuel qpos : ℕ) → List RawQuest → (start : ℕ) → Run ℕ
name_pointer fuel zero quests start = ok start
name_pointer fuel (suc n) [] start = fault
name_pointer fuel (suc n) (q ∷ quests) start = do
  len ← string_length fuel q.qname 0
  name_pointer fuel n quests ((start + len + 5) % 65536)

-- The array `names`. A count above the number of answers is a fault.
unfoldable pub name_pointers : (fuel ancount : ℕ) → List RawQuest → List RawAnswer → Run (List ℕ)
name_pointers fuel zero quests ans = ok []
name_pointers fuel (suc n) quests [] = fault
name_pointers fuel (suc n) quests (a ∷ ans) = do
  pointer ← name_pointer fuel a.qpos quests 49164
  pointers ← name_pointers fuel n quests ans
  ok (pointer ∷ pointers)

-- An element of an array, or what a pointer points to; there is none behind the end or through NULL.
abbrev pub existing : {A : Type 0} → Option A → Run A
existing none = fault
existing (some a) = ok a

-- The loop over the data of the answers: `res_data` is one array for all of them, and RDATA and RDLEN
-- are overwritten. It returns the answers that have data now, with their pointers.
unfoldable pub format_data :
    (v4 v6 : Family) (fuel : ℕ)
    → List RawQuest
    → (res_data : Memory) → List ℕ
    → List RawAnswer
    → Run (List RawAnswer)
format_data v4 v6 fuel quests res_data [] ans = ok []
format_data v4 v6 fuel quests res_data (pointer ∷ pointers) [] = fault
format_data v4 v6 fuel quests res_data (pointer ∷ pointers) (a ∷ ans) = do
  q ← existing (get_elem? quests a.qpos)
  rdata ← existing a.rdata
  (res_data', len) ← url_format v4 v6 fuel a.type rdata res_data q.qname pointer a.addition
  rdata' ← copy_bytes (data_length len) res_data' 0 rdata 0
  ans' ← format_data v4 v6 fuel quests res_data' pointers ans
  ok (record a { rdlen = data_length len; rdata = some rdata' } ∷ ans')

-- `*len`.
abbrev pub response_length : (buf_len : ℕ) → List RawAnswer → ℕ
response_length n [] = n
response_length n (a ∷ ans) = response_length (n + (a.rdlen + 12)) ans

-- One answer in the response, at `pos`.
unfoldable pub put_answer : Memory → (pos pointer : ℕ) → RawAnswer → Run Memory
put_answer dest pos pointer a = do
  d1 ← store16 dest pos pointer
  d2 ← store16 d1 (pos + 2) a.type
  d3 ← store16 d2 (pos + 4) a.class
  d4 ← store32 d3 (pos + 6) a.ttl
  rdata ← existing a.rdata
  d5 ← copy_bytes a.rdlen rdata 0 d4 (pos + 12)
  store16 d5 (pos + 10) a.rdlen

unfoldable pub put_answers : Memory → (pos : ℕ) → List ℕ → List RawAnswer → Run Memory
put_answers dest pos [] ans = ok dest
put_answers dest pos (pointer ∷ pointers) [] = fault
put_answers dest pos (pointer ∷ pointers) (a ∷ ans) = do
  dest' ← put_answer dest pos pointer a
  put_answers dest' (pos + (a.rdlen + 12)) pointers ans

-- The response and its length.
unfoldable pub response_format :
    (v4 v6 : Family) (fuel : ℕ) (contents : ℕ → ℕ) → RawPacket → Run (Memory × ℕ)
response_format v4 v6 fuel contents src = do
  pointers ← name_pointers fuel src.ancount src.quests src.ans
  ans ← format_data v4 v6 fuel src.quests (record { size = 255; at = contents }) pointers src.ans
  let len = response_length src.buf_len ans
  dest ← copy_bytes src.buf_len src.req_buf 0 (record { size = len + 1; at = contents }) 0
  dest' ← store16 dest 2 (response_flags src.flags src.ancount)
  dest'' ← store16 dest' 6 src.ancount
  dest''' ← put_answers dest'' src.buf_len pointers ans
  ok (dest''', len)
