-- ===== src/Server/Sample.antt =====
-- A request for the name "a", a cache with its address, and who takes part, for the tests.
use dns_relay_server.Base.{◌≡◌, ◌≢◌, true, ok, ◌>>=◌, refl, some, [], ◌∷◌, arith, Returns}
use dns_relay_server.Net.{SockAddr}
use dns_relay_server.Entry.{Text, DnsEntry}
use dns_relay_server.Memory.Sample.{sample, sample-Stored}
use dns_relay_server.Protocol.{Quest, Packet}
use dns_relay_server.IdMap.{map_init, is_live}
use dns_relay_server.IdMap.View.{slot_busy}
use dns_relay_server.Cache.{cache_init, cache_insert}
use dns_relay_server.Cache.Inv.{Holds}
use dns_relay_server.Cache.Insert.{cache_init-Holds, cache_insert-Holds}
use dns_relay_server.Wire.{WireAnswer}
use dns_relay_server.Inet.Names.{wire, dotted}
use dns_relay_server.Question.Read.{WireQuest, IsWireQuest, AllRead}
use dns_relay_server.Address.{Family}
use dns_relay_server.Packet.{packet_parse}
use dns_relay_server.Packet.Parse.{packet_parse-request}
use dns_relay_server.Packet.View.{packet_of, packet_of-packet_parse}

abbrev pub entry : DnsEntry
entry = record {
  domain_name = some (97 ∷ []);
  ip = some (49 ∷ []);
  type = 1;
  addition = 0;
  timestamp = 60;
}

abbrev pub start :
    Returns (cache_init (λ _. entry) (record { next = λ p. p; prev = λ p. p })) λ c. Holds 2 c []
start = cache_init-Holds 2 (λ _. entry) (record { next = λ p. p; prev = λ p. p })

abbrev pub one : Returns (cache_insert 2 entry start.0) λ c. Holds 2 c (entry ∷ [])
one = cache_insert-Holds 2 entry refl start.0 [] (omega arith) start.2

abbrev pub question : Quest
question = record { qname = some (97 ∷ []); qtype = 1; qclass = 1 }

abbrev pub client : SockAddr
client = record { sin_addr = 10; sin_port = 53 }

abbrev pub upstream : SockAddr
upstream = record { sin_addr = 8; sin_port = 13568 }

abbrev pub wire_quest : WireQuest
wire_quest = record { label = 97 ∷ []; others = []; qtype = 1; qclass = 1 }

pub wire_quest-IsWireQuest : IsWireQuest wire_quest
unfolding dotted
wire_quest-IsWireQuest = record {
  labelled =
      (record { nonempty = omega arith; short = omega arith; no_dot = refl; no_zero = refl }, tt);
  room = omega arith;
}

-- The request in bytes, with the flag RD.
abbrev pub request_bytes : Text
request_bytes = 0 ∷ 77 ∷ 1 ∷ 0 ∷ 0 ∷ 1 ∷ 0 ∷ 0 ∷ 0 ∷ 0 ∷ 0 ∷ 0 ∷ 1 ∷ 97 ∷ 0 ∷ 0 ∷ 1 ∷ 0 ∷ 1 ∷ []

-- The entry's string stands for 10.0.0.1.
abbrev pub some_family : Family
some_family = record { inet_ntop = λ b. b; inet_pton = λ s. some (10 ∷ 0 ∷ 0 ∷ 1 ∷ []) }

abbrev pub wire_answer : WireAnswer
wire_answer = record { name = 49164; type = 1; class = 1; ttl = 20; rdata = 10 ∷ 0 ∷ 0 ∷ 1 ∷ [] }

pub nothing_waits : slot_busy 30 map_init ≢ true
unfolding map_init is_live
nothing_waits e = ground arith

-- The DNS server's response under the serial number 1: the name does not exist.
abbrev pub negative : Text
negative = 1 ∷ 0 ∷ 128 ∷ 3 ∷ 0 ∷ 1 ∷ 0 ∷ 0 ∷ 0 ∷ 0 ∷ 0 ∷ 0 ∷ 1 ∷ 97 ∷ 0 ∷ 0 ∷ 1 ∷ 0 ∷ 1 ∷ []

abbrev pub negative_raw :
    Returns (packet_parse some_family some_family 65 (λ _. 255) (sample 512 negative) 19) λ p.
      (p.id ≡ 1)
      × (p.flags ≡ 32771)
      × (p.qdcount ≡ 1)
      × (p.ancount ≡ 0)
      × AllRead p.quests (wire_quest ∷ [])
      × (p.ans ≡ [])
      × (p.req_buf ≡ sample 512 negative)
      × (p.buf_len ≡ 19)
unfolding wire dotted
negative_raw =
    packet_parse-request some_family some_family 65 (λ _. 255) (sample 512 negative) 1 0 32771 0 0 0
      0 19 (wire_quest ∷ []) (omega arith) (omega arith) (wire_quest-IsWireQuest, tt)
      (sample-Stored 512 negative) (omega arith) (omega arith)

abbrev pub negative_packet : Packet
negative_packet = record { id = 1; flags = 32771; quests = question ∷ []; ans = [] }

pub negative_viewed : packet_of 65 negative_raw.0 ≡ ok negative_packet
unfolding wire dotted
negative_viewed =
    let viewed : (do
      raw ← packet_parse some_family some_family 65 (λ _. 255) (sample 512 negative) 19
      packet_of 65 raw)
        ≡ ok negative_packet =
      packet_of-packet_parse 65 some_family some_family (λ _. 255) (sample 512 negative) 1 0 32771 0
        0 0 0 19 (wire_quest ∷ []) (omega arith) (omega arith) (wire_quest-IsWireQuest, tt)
        (sample-Stored 512 negative) (omega arith) (omega arith) (omega arith) in
    rw negative_raw.1 at viewed
