-- ===== src/Query/Store.antt =====
-- What `urlStore` makes of a well-formed cache.
use dns_relay_server.Base.{
  ℕ, ◌<◌, ◌≡◌, refl, Bool, true, ◌==◌, ◌||◌, not, Option, List, [], ◌∷◌, map, select, arith,
  Returns, inl, inr, Bool-cases,
}
use dns_relay_server.Entry.{Text, DnsEntry, entry_set}
use dns_relay_server.Protocol.{Quest, Answer, Packet}
use dns_relay_server.Cache.{Cache}
use dns_relay_server.Cache.Inv.{Holds, is_some, is_named}
use dns_relay_server.Cache.Insert.{insert_spec, cache_insert-Holds}
use dns_relay_server.Query.{store_answers, url_store}

-- The answer as an entry for the name.
abbrev pub entry_of : ℕ → Option Text → Answer → DnsEntry
entry_of now name a = entry_set now name a.rdata a.ttl a.type a.addition

-- The entries go in one after another.
abbrev pub insert_all : ℕ → List DnsEntry → List DnsEntry → List DnsEntry
insert_all len [] es = es
insert_all len (e ∷ new) es = insert_all len new (insert_spec len e es)

-- Every answer of the type has its string, as `packetParse` leaves it.
abbrev pub AllData : ℕ → List Answer → Type 0
AllData type [] = Unit
AllData type (a ∷ ans) = ((not (a.type == type) || is_some a.rdata) ≡ true) × AllData type ans

abbrev pub of_type : ℕ → Answer → Bool
of_type type a = a.type == type

module _ (len now : ℕ) (pos : 0 < len) (q : Quest) (qs : List Quest)
    (named : is_some q.qname ≡ true) where
  pub entry_of-is_named :
      (a : Answer) → is_some a.rdata ≡ true → is_named (entry_of now q.qname a) ≡ true
  unfolding entry_set
  entry_of-is_named a h = ground (arith, named)

  store_answers-Holds :
      (ans : List Answer) (c : Cache) (es : List DnsEntry)
      → AllData q.qtype ans
      → Holds len c es
      → Returns (store_answers len now (q ∷ qs) ans c) λ c'.
        Holds len c' (insert_all len (map (entry_of now q.qname) (select (of_type q.qtype) ans)) es)
  unfolding store_answers
  store_answers-Holds [] c es all h = (c, refl, h)
  store_answers-Holds (a ∷ ans) c es all h = elim (Bool-cases (a.type == q.qtype)) [
    | inl same ↦
        let entry = entry_of now q.qname a in
        let full : is_some a.rdata ≡ true = rw same at all.0 in
        let (c', run, h') = cache_insert-Holds len entry (entry_of-is_named a full) c es pos h in
        let rest = store_answers-Holds ans c' (insert_spec len entry es) all.1 h' in
        rw (same, run) rest
    | inr other ↦ rw other (store_answers-Holds ans c es all.1 h)
  ]

  -- `urlStore` of a packet with a question, into a well-formed cache of a capacity that is not 0,
  -- where the question has its name and the answers of its type their strings: there is no fault,
  -- the cache is well formed, and the answers of the first question's type have been inserted
  -- under its name, in their order.
  pub url_store-Holds :
      (src : Packet) (c : Cache) (es : List DnsEntry)
      → src.quests ≡ q ∷ qs
      → AllData q.qtype src.ans
      → Holds len c es
      → Returns (url_store len now src c) λ c'.
        Holds len c'
          (insert_all len (map (entry_of now q.qname) (select (of_type q.qtype) src.ans)) es)
  unfolding url_store
  url_store-Holds src c es asked all h = rw asked (store_answers-Holds src.ans c es all h)
