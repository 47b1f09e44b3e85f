-- ===== src/Protocol.antt =====
-- The packets of include/protocol.h, after `packetParse`. A list has the length that its count says
-- (QDCOUNT, ANCOUNT). A string is the list of its bytes, as in Entry.
use Prim.Native.Nat.{bit_and}
use dns_relay_server.Base.{ℕ, ◌/◌, ◌==◌, ◌||◌, if◌then◌else◌, Option, List}
use dns_relay_server.Entry.{Text}

abbrev pub type_a : ℕ
type_a = 1

abbrev pub type_ns : ℕ
type_ns = 2

abbrev pub type_cname : ℕ
type_cname = 5

abbrev pub type_mx : ℕ
type_mx = 15

abbrev pub type_aaaa : ℕ
type_aaaa = 28

-- TYPE_BUF_SIZE: the bytes that are allocated for the string of a record.
unfoldable pub type_buf_size : ℕ → ℕ
type_buf_size type =
    if type == type_a
    then 22
    else if type == type_aaaa
    then 50
    else if (type == type_ns) || ((type == type_mx) || (type == type_cname))
    then 255
    else 0

-- GET_QR.
unfoldable pub get_qr : ℕ → ℕ
get_qr flags = bit_and flags 32768 / 32768

pub record Quest : Type 0 where
  pub qname : Option Text
  pub qtype : ℕ
  pub qclass : ℕ

-- Without NAME and RDLEN, which `packetParse` and `responseFormat` use and no other code.
pub record Answer : Type 0 where
  pub qpos : ℕ
  pub type : ℕ
  pub class : ℕ
  pub ttl : ℕ
  pub addition : ℕ
  pub rdata : Option Text

pub record Packet : Type 0 where
  pub id : ℕ
  pub flags : ℕ
  pub quests : List Quest
  pub ans : List Answer
