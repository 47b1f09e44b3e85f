-- ===== src/Packet/Data.antt =====
-- The pointers and the data of answers with IPv4 addresses for the first question.
use dns_relay_server.Base.{
  ℕ, ◌≤◌, ◌<◌, ◌≡◌, ◌∙◌, sym, refl, false, List, [], ◌∷◌, ◌++◌, length, has, some, arith, ok,
  Returns,
}
use dns_relay_server.Entry.{Text}
use dns_relay_server.Memory.{Memory, copy_bytes}
use dns_relay_server.Memory.Stored.{Stored, copy_bytes-Stored}
use dns_relay_server.Protocol.{type_a}
use dns_relay_server.Question.{RawQuest}
use dns_relay_server.Address.{Family}
use dns_relay_server.Address.RoundTrip.{format_address-Stored}
use dns_relay_server.Url.{url_format}
use dns_relay_server.Wire.{WireAnswer}
use dns_relay_server.Packet.{RawAnswer, name_pointers, name_pointer, format_data}
use dns_relay_server.Packet.Format.{IsAnswer, AllAnswers}

module _ (v4 v6 : Family) (fuel : ℕ) where
  -- The answer is for the first question, and its data are the string of an IPv4 address, in a buffer
  -- of at least four bytes; `w` has the address, and the pointer behind the header.
  pub record IsAddress (a : RawAnswer) (w : WireAnswer) : Type 0 where
    pub qpos : a.qpos ≡ 0
    pub type : a.type ≡ type_a
    pub type' : w.type ≡ type_a
    pub name : w.name ≡ 49164
    pub class : a.class ≡ w.class
    pub ttl : a.ttl ≡ w.ttl
    pub rdata : Memory
    pub here : a.rdata ≡ some rdata
    pub string : Text
    pub no_zero : has 0 string ≡ false
    pub stored : Stored rdata 0 (string ++ 0 ∷ [])
    pub inside : length string < rdata.size
    pub fuel_enough : length string < fuel
    pub address : v4.inet_pton string ≡ some w.rdata
    pub four_bytes : length w.rdata ≡ 4
    pub room : 4 ≤ rdata.size

  abbrev pub AllAddresses : List RawAnswer → List WireAnswer → Type 0
  AllAddresses [] [] = Unit
  AllAddresses [] (w ∷ ws) = ⊥
  AllAddresses (a ∷ ans) [] = ⊥
  AllAddresses (a ∷ ans) (w ∷ ws) = IsAddress a w × AllAddresses ans ws

  abbrev pub own_pointers : List RawAnswer → List ℕ
  own_pointers [] = []
  own_pointers (a ∷ ans) = 49164 ∷ own_pointers ans

  pub name_pointers-own :
      (quests : List RawQuest) (ans : List RawAnswer) (ws : List WireAnswer)
      → AllAddresses ans ws
      → name_pointers fuel (length ans) quests ans ≡ ok (own_pointers ans)
  unfolding name_pointers name_pointer
  name_pointers-own quests [] ws all = refl
  name_pointers-own quests (a ∷ ans) [] all = absurd all
  name_pointers-own quests (a ∷ ans) (w ∷ ws) all =
      rw (all.0.qpos, name_pointers-own quests ans ws all.1)

  url_format-address :
      (url dest name : Memory) (pointer addition : ℕ) (s bytes : Text)
      → v4.inet_pton s ≡ some bytes
      → length bytes ≡ 4
      → has 0 s ≡ false
      → Stored url 0 (s ++ 0 ∷ [])
      → length s < url.size
      → length s < fuel
      → dest.size ≡ 255
      → (k : Memory) × (url_format v4 v6 fuel type_a url dest name pointer addition
          ≡ ok (k, some 4))
        × Stored k 0 bytes
        × (k.size ≡ 255)
  unfolding url_format
  url_format-address url dest name pointer addition s bytes e n nz st inside f size =
      let ((k, len), run, (stored, same, count)) =
        format_address-Stored 4 v4 fuel url dest 0 s [] bytes e n nz st inside f (omega arith) in
      let len' : len ≡ 4 = count in (k, rw (run, len'), stored, same.size ∙ size)

  pub format_data-own :
      (q : RawQuest) (quests : List RawQuest) (res_data : Memory) (ans : List RawAnswer)
      (ws : List WireAnswer)
      → AllAddresses ans ws
      → res_data.size ≡ 255
      → Returns
          (format_data v4 v6 fuel (q ∷ quests) res_data (own_pointers ans) ans)
          λ done. AllAnswers (own_pointers ans) done ws
  unfolding format_data
  format_data-own q quests res_data [] [] all size = ([], refl, tt)
  format_data-own q quests res_data [] (w ∷ ws) all size = absurd all
  format_data-own q quests res_data (a ∷ ans) [] all size = absurd all
  format_data-own q quests res_data (a ∷ ans) (w ∷ ws) all size =
      let is = all.0 in
      let (r, run, bytes, size') =
        url_format-address is.rdata res_data q.qname 49164 a.addition is.string w.rdata is.address
          is.four_bytes is.no_zero is.stored is.inside is.fuel_enough size in
      let (copy, copied, (here, same)) =
        copy_bytes-Stored w.rdata r 0 is.rdata 0 bytes (omega (arith, is.four_bytes))
          (omega (arith, is.four_bytes, is.room)) in
      let copied' : copy_bytes 4 r 0 is.rdata 0 ≡ ok copy = rw is.four_bytes at copied in
      let (done, rest, all') = format_data-own q quests r ans ws all.1 size' in
      let answer : IsAnswer 49164 (record a { rdlen = 4; rdata = some copy }) w = record {
        name = sym is.name;
        type = is.type ∙ sym is.type';
        class = is.class;
        ttl = is.ttl;
        rdlen = sym is.four_bytes;
        rdata = copy;
        here = refl;
        room = omega (arith, is.four_bytes, is.room, same.size);
        stored = here;
      } in
      (
        record a { rdlen = 4; rdata = some copy } ∷ done,
        rw (is.qpos, is.here, is.type, run, copied', rest),
        (answer, all'),
      )
