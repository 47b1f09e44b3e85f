-- ===== src/Packet/Tests.antt =====
-- A request for the name "ab", and a response to it with one address.
use dns_relay_server.Base.{
  ok, none, fault, ◌>>=◌, ◌++◌, ◌+◌, ◌-◌, ◌/◌, ◌%◌, ◌≡◌, refl, [], ◌∷◌, map, some, arith, Returns,
}
use dns_relay_server.Entry.{Text}
use dns_relay_server.Memory.Stored.{Stored}
use dns_relay_server.Memory.Sample.{sample, sample-Stored}
use dns_relay_server.Inet.Names.{wire, dotted, IsLabel}
use dns_relay_server.Question.Read.{WireQuest, IsWireQuest, encoded}
use dns_relay_server.Packet.Parse.{request_header}
use dns_relay_server.Protocol.{get_qr}
use dns_relay_server.Address.{Family, load_text}
use dns_relay_server.Wire.{WireAnswer, write_answer, write_answers}
use dns_relay_server.Packet.{
  RawAnswer, RawPacket, packet_parse, parse_answers, response_format, response_flags,
}
use dns_relay_server.Packet.Check.{
  packet_length, check_begin, id, flags, counts, question, resource, check_end, check_quests,
  check_answers, buffer_check, packet_check,
}
use dns_relay_server.Packet.Overrun.{packet_parse-IsTooLong}
use dns_relay_server.Packet.Addresses.{AllParsed, parse_answers-write_answers}
use dns_relay_server.Packet.Flags.{response_flags-fields}
use dns_relay_server.Packet.Response.{response_format-addresses}

abbrev v4 : Family
v4 = record { inet_ntop = map (λ b. b + 1); inet_pton = λ s. some (map (λ b. b - 1) s) }

abbrev v6 : Family
v6 = v4

-- The flag RD, and one question.
abbrev request : Text
request = 171 ∷ 205 ∷ 1 ∷ 0 ∷ 0 ∷ 1 ∷ 0 ∷ 0 ∷ 0 ∷ 0 ∷ 0 ∷ 0 ∷ 2 ∷ 97 ∷ 98 ∷ 0 ∷ 0 ∷ 1 ∷ 0 ∷ 1 ∷ []

abbrev quest : WireQuest
quest = record { label = 97 ∷ 98 ∷ []; others = []; qtype = 1; qclass = 1 }

quest-IsWireQuest : IsWireQuest quest
unfolding dotted
quest-IsWireQuest = record {
  labelled =
      (record { nonempty = omega arith; short = omega arith; no_dot = refl; no_zero = refl }, tt);
  room = omega arith;
}

-- The address 7.7.7.7.
abbrev answer : WireAnswer
answer = record { name = 49164; type = 1; class = 1; ttl = 60; rdata = 7 ∷ 7 ∷ 7 ∷ 7 ∷ [] }

abbrev answer_bytes : Text
answer_bytes = 192 ∷ 12 ∷ 0 ∷ 1 ∷ 0 ∷ 1 ∷ 0 ∷ 0 ∷ 0 ∷ 60 ∷ 0 ∷ 4 ∷ 7 ∷ 7 ∷ 7 ∷ 7 ∷ []

parse_answers-write_answers_example :
    Returns
      (parse_answers v4 v6 20 (λ _. 255) 1 (sample 16 answer_bytes) 0)
      λ ans. AllParsed v4 v6 20 (λ _. 255) ans (answer ∷ [])
unfolding write_answers write_answer
parse_answers-write_answers_example =
    parse_answers-write_answers v4 v6 20 (λ _. 255) (sample 16 answer_bytes) (answer ∷ []) 0
      (
        record {
          name = omega arith;
          type = refl;
          class = omega arith;
          ttl = omega arith;
          four_bytes = refl;
          short = omega arith;
        },
        tt,
      )
      (sample-Stored 16 answer_bytes) (omega arith)

response_flags-fields_example :
    (response_flags 256 0 / 32768 ≡ 1)
    × (response_flags 256 0 / 256 % 2 ≡ 1)
    × (response_flags 256 0 % 16 ≡ 3)
    × (response_flags 256 0 / 1024 % 2 ≡ 1)
    × (response_flags 256 0 / 2048 % 16 ≡ 0)
    × (response_flags 256 0 / 512 % 2 ≡ 0)
    × (response_flags 256 0 / 16 % 16 ≡ 0)
response_flags-fields_example = response_flags-fields 256 0 (omega arith)

-- The string is "\b\b\b\b".
abbrev raw_answer : RawAnswer
raw_answer = record {
  qpos = 0;
  name = 0;
  type = 1;
  class = 1;
  rdlen = 0;
  ttl = 60;
  addition = 0;
  rdata = some (sample 22 (8 ∷ 8 ∷ 8 ∷ 8 ∷ []));
}

abbrev packet : RawPacket
packet = record {
  req_buf = sample 512 request;
  buf_len = 20;
  id = 52651;
  flags = 256;
  qdcount = 1;
  ancount = 1;
  quests = record { qname = sample 65 (97 ∷ 98 ∷ []); qtype = 1; qclass = 1 } ∷ [];
  ans = raw_answer ∷ [];
}

response_format-addresses_example : Returns (response_format v4 v6 20 (λ _. 255) packet) λ (k, len).
    Stored k 0 (
      171 ∷ 205 ∷ 129 ∷ 0 ∷ 0 ∷ 1 ∷ 0 ∷ 1 ∷ 0 ∷ 0 ∷ 0 ∷ 0 ∷ 2 ∷ 97 ∷ 98 ∷ 0 ∷ 0 ∷ 1 ∷ 0 ∷ 1
      ∷ answer_bytes)
    × (len ≡ 36)
    × (k.size ≡ len + 1)
unfolding write_answers write_answer response_flags
response_format-addresses_example =
    response_format-addresses v4 v6 20 (λ _. 255) packet
      (record { qname = sample 65 (97 ∷ 98 ∷ []); qtype = 1; qclass = 1 }) [] (answer ∷ []) 171 205
      1 0 0 1 0 0 (0 ∷ 0 ∷ 0 ∷ 0 ∷ 2 ∷ 97 ∷ 98 ∷ 0 ∷ 0 ∷ 1 ∷ 0 ∷ 1 ∷ []) refl refl
      (
        record {
          qpos = refl;
          type = refl;
          type' = refl;
          name = refl;
          class = refl;
          ttl = refl;
          rdata = sample 22 (8 ∷ 8 ∷ 8 ∷ 8 ∷ []);
          here = refl;
          string = 8 ∷ 8 ∷ 8 ∷ 8 ∷ [];
          no_zero = refl;
          stored = (refl, (refl, (refl, (refl, (refl, tt)))));
          inside = omega arith;
          fuel_enough = omega arith;
          address = refl;
          four_bytes = refl;
          room = omega arith;
        },
        tt,
      )
      refl (omega arith) (sample-Stored 512 request)

-- 33 times the letter a.
abbrev eleven : Text
eleven = 97 ∷ 97 ∷ 97 ∷ 97 ∷ 97 ∷ 97 ∷ 97 ∷ 97 ∷ 97 ∷ 97 ∷ 97 ∷ []

abbrev long_label : Text
long_label = eleven ++ (eleven ++ eleven)

long_label-IsLabel : IsLabel long_label
long_label-IsLabel = record {
  nonempty = omega arith;
  short = omega arith;
  no_dot = refl;
  no_zero = refl;
}

abbrev long_quest : WireQuest
long_quest = record { label = long_label; others = long_label ∷ []; qtype = 1; qclass = 1 }

abbrev long_request : Text
long_request = request_header 171 205 256 2 0 0 0 0 ++ encoded (quest ∷ long_quest ∷ [])

-- The second name does not fit.
packet_parse-IsTooLong_example :
    packet_parse v4 v6 200 (λ _. 255) (sample 1024 long_request) 93 ≡ fault
unfolding wire dotted
packet_parse-IsTooLong_example =
    packet_parse-IsTooLong v4 v6 200 (λ _. 255) (sample 1024 long_request) 171 205 256 0 0 0 0 93
      (quest ∷ []) long_quest [] (omega arith) (omega arith) (quest-IsWireQuest, tt)
      (record { labelled = (long_label-IsLabel, (long_label-IsLabel, tt)); long = omega arith })
      (sample-Stored 1024 long_request) (omega arith) (omega arith)

abbrev two_questions : Text
two_questions = request_header 171 205 256 2 0 0 0 0 ++ encoded (quest ∷ quest ∷ [])

-- At the debug level 1 the bytes themselves are not printed.
packet_check_test :
    packet_check 20 1 packet
    ≡ ok (
        check_begin
        ∷ packet_length 20
        ∷ id 52651
        ∷ flags 0 1 0 0
        ∷ counts 1 1
        ∷ question 0 (97 ∷ 98 ∷ []) 1 1
        ∷ resource 0 0 1 1 60 0 (8 ∷ 8 ∷ 8 ∷ 8 ∷ []) none
        ∷ check_end
        ∷ [])
unfolding packet_check check_quests check_answers buffer_check load_text get_qr
packet_check_test = refl
