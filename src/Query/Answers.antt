-- ===== src/Query/Answers.antt =====
-- What `urlQuery` answers to one question.
use dns_relay_server.Base.{
  ℕ, suc, ◌<◌, ◌==◌, ◌+◌, ◌-◌, ◌%◌, ◌^◌, ◌≡◌, refl, Bool, true, false, ltb, none, some, List, [],
  ◌∷◌, map, select, length, arith, ok, inl, inr, Option-cases,
}
use dns_relay_server.Entry.{Text, DnsEntry}
use dns_relay_server.Protocol.{Quest, Answer, Packet, type_buf_size}
use dns_relay_server.Cache.{Cache}
use dns_relay_server.Cache.Inv.{Holds}
use dns_relay_server.Cache.Query.{is_answer, on_node}
use dns_relay_server.Query.{
  results, count, qname_search, load_answer, load_answers, query_quests, url_query,
}
use dns_relay_server.Query.Local.{cache_query-type}

-- The string of the entry, with its final 0, fits the buffer for this type.
abbrev pub fits : ℕ → DnsEntry → Bool
fits type e = elim e.ip [ none ↦ false | some ip ↦ ltb (length ip) (type_buf_size type) ]

abbrev pub AllFit : ℕ → List DnsEntry → Type 0
AllFit type [] = Unit
AllFit type (e ∷ es) = (fits type e ≡ true) × AllFit type es

-- The answer to the first question that an entry gives: the time to live is what is left of it.
abbrev pub answer_for : ℕ → Quest → DnsEntry → Answer
answer_for now q e = record {
  qpos = 0;
  type = q.qtype;
  class = q.qclass;
  ttl = (e.timestamp + 2 ^ 32 - now % 2 ^ 32) % 2 ^ 32;
  addition = e.addition;
  rdata = e.ip;
}

load_answer-fits :
    (now : ℕ) (q : Quest) (e : DnsEntry)
    → fits q.qtype e ≡ true
    → load_answer now 0 q e ≡ ok (answer_for now q e)
unfolding load_answer
load_answer-fits now q e fit = elim (Option-cases e.ip) [
  | inl absent ↦ ground (arith, absent)
  | inr (ip, present) ↦
      let room : ltb (length ip) (type_buf_size q.qtype) ≡ true = rw present at fit in
      rw (present, room)
]

load_answers-AllFit :
    (now : ℕ) (q : Quest) (es : List DnsEntry)
    → AllFit q.qtype es
    → load_answers now 0 q es ≡ ok (map (answer_for now q) es)
unfolding load_answers
load_answers-AllFit now q [] all = refl
load_answers-AllFit now q (e ∷ es) all =
    rw (load_answer-fits now q e all.0, load_answers-AllFit now q es all.1)

pub length-map {ℓ κ} :
    {A : Type ℓ} {B : Type κ} (f : A → B) (xs : List A) → length (map f xs) ≡ length xs
length-map f [] = refl
length-map f (x ∷ xs) = rw (length-map f xs)

module _ (len now : ℕ) (q : Quest) (name : Text) (asked : q.qname ≡ some name)
    (small : q.qtype % 256 ≡ q.qtype) (c : Cache) (es : List DnsEntry) (h : Holds len c es) where
  single :
      (hits : List DnsEntry) (temp : List ℕ)
      → qname_search len now q.qname q.qtype none c
        ≡ ok (record { found = results hits; resource = none; temp = temp; detached = false })
      → AllFit q.qtype hits
      → length hits < 2 ^ 16
      → query_quests len now none c 0 (q ∷ []) []
        ≡ ok (record {
          status = count (length hits);
          ans = map (answer_for now q) hits;
          rotations = temp ∷ [];
          detached = 0;
        })
  unfolding query_quests
  single [] temp run all few = rw run
  single (e ∷ es') temp run all few =
      let size = length-map (answer_for now q) es' in
      let whole : (suc (length (map (answer_for now q) es'))
            == suc (length (map (answer_for now q) es')) % 2 ^ 16)
          ≡ true =
        ground (arith, size) in
      rw (run, load_answers-AllFit now q (e ∷ es') all, whole, size)

  -- `urlQuery` of a packet with one question, for a name and a type below 256, with no host file
  -- and a well-formed cache, whose entries that answer fit the buffers of the type and are fewer
  -- than 2 ^ 16: there is no fault, the answers are those of exactly these entries, the most recent first, their number is
  -- returned, and their nodes wait for the rotation.
  pub url_query-answers :
      (src : Packet)
      → src.quests ≡ q ∷ []
      → AllFit q.qtype (select (is_answer now name q.qtype) es)
      → length (select (is_answer now name q.qtype) es) < 2 ^ 16
      → url_query len now none src c
        ≡ ok (record {
          status = count (length (select (is_answer now name q.qtype) es));
          ans = map (answer_for now q) (select (is_answer now name q.qtype) es);
          rotations = select (on_node (is_answer now name q.qtype) c) h.nodes ∷ [];
          detached = 0;
        })
  unfolding url_query qname_search
  url_query-answers src one all few =
      let hits = select (is_answer now name q.qtype) es in
      let temp = select (on_node (is_answer now name q.qtype) c) h.nodes in
      let run = cache_query-type len now name q.qtype small c es h in
      rw one (single hits temp (rw (asked, run)) all few)
