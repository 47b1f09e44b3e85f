-- ===== src/Server/Inserted.antt =====
-- A response with an answer, for the tests.
use dns_relay_server.Base.{Bool, true, false, ◌≡◌, refl, ok, fault, out_of_fuel, Run, [], ◌∷◌}
use dns_relay_server.Entry.{Text}
use dns_relay_server.Memory.{copy_bytes, load_bytes, store_bytes}
use dns_relay_server.Question.{read_quests, read_quest}
use dns_relay_server.Inet.{string_length, inet_parse_name, parse_name, label_length}
use dns_relay_server.Url.{url_parse}
use dns_relay_server.Address.{load_text, parse_address}
use dns_relay_server.Protocol.{type_buf_size, get_qr}
use dns_relay_server.Memory.Sample.{sample}
use dns_relay_server.Packet.{RawPacket, packet_parse, parse_answers, parse_answer}
use dns_relay_server.Packet.View.{packet_of}
use dns_relay_server.Protocol.{Packet}
use dns_relay_server.Server.Sample.{some_family}

abbrev pub is_ok {ℓ} : {A : Type ℓ} → Run A → Bool
is_ok (ok a) = true
is_ok fault = false
is_ok out_of_fuel = false

pub false-true : false ≡ true → ⊥
false-true e = cc e

abbrev pub returned {ℓ} : {A : Type ℓ} (run : Run A) → is_ok run ≡ true → (a : A) × (run ≡ ok a)
returned (ok a) e = (a, refl)
returned fault e = absurd (false-true e)
returned out_of_fuel e = absurd (false-true e)

-- The DNS server's response under the serial number 1, with the address 1.2.3.4.
abbrev pub positive : Text
positive =
    1 ∷ 0 ∷ 128 ∷ 0 ∷ 0 ∷ 1 ∷ 0 ∷ 1 ∷ 0 ∷ 0 ∷ 0 ∷ 0 ∷ 1 ∷ 97 ∷ 0 ∷ 0 ∷ 1 ∷ 0 ∷ 1 ∷ 192 ∷ 12 ∷ 0 ∷ 1
    ∷ 0 ∷ 1 ∷ 0 ∷ 0 ∷ 0 ∷ 60 ∷ 0 ∷ 4 ∷ 1 ∷ 2 ∷ 3 ∷ 4 ∷ []

unfoldable pub positive_raw :
    (raw : RawPacket) × (packet_parse some_family some_family 65 (λ _. 255) (sample 512 positive) 35
      ≡ ok raw)
unfolding packet_parse read_quests read_quest string_length inet_parse_name parse_name copy_bytes
    label_length parse_answers parse_answer url_parse parse_address load_bytes store_bytes
    type_buf_size
positive_raw =
    returned (packet_parse some_family some_family 65 (λ _. 255) (sample 512 positive) 35) refl

unfoldable pub positive_viewed : (p : Packet) × (packet_of 65 positive_raw.0 ≡ ok p)
unfolding positive_raw load_text get_qr
positive_viewed = returned (packet_of 65 positive_raw.0) refl
