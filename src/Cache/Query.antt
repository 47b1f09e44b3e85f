-- ===== src/Cache/Query.antt =====
-- `cacheQuery` returns the entries that answer the query, the most recent first.
use dns_relay_server.Base.{
  select, ℕ, suc, ◌+◌, ◌≤◌, ◌<◌, ◌≡◌, refl, Bool, true, false, ◌&&◌, ◌==◌, leb, List, [], ◌∷◌,
  arith, has, length, Option, none, some, ok, inl, inr, Bool-cases,
}
use dns_relay_server.Entry.{Text, text_eq, DnsEntry}
use dns_relay_server.Ring.Walk.{for_each-IsRing}
use dns_relay_server.Cache.{Cache, head, matches, copy_entry, query_nodes, cache_query}
use dns_relay_server.Cache.Inv.{Holds, view, is_named, index, used-le, slot_of-index}

abbrev name_is : Text → Option Text → Bool
name_is name none = false
name_is name (some s) = text_eq s name

-- The entry has the wanted name and type, and is not overdue at the time `now`.
abbrev pub is_answer : ℕ → Text → ℕ → DnsEntry → Bool
is_answer now name type e = name_is name e.domain_name && (leb now e.timestamp && (e.type == type))

-- The test on the entry of a node.
abbrev pub on_node : (DnsEntry → Bool) → Cache → ℕ → Bool
on_node test c p = test (c.list (index p))

module _ (now : ℕ) (name : Text) (query : DnsEntry) (asked : query.domain_name ≡ some name) where
  matches-is_answer :
      (e : DnsEntry)
      → is_named e ≡ true
      → matches now query e ≡ ok (is_answer now name query.type e)
  unfolding matches
  matches-is_answer e full = ground (arith, asked)

  copy_entry-ok : (e : DnsEntry) → is_named e ≡ true → copy_entry e ≡ ok e
  unfolding copy_entry
  copy_entry-ok e full = ground arith

  module _ (len : ℕ) (c : Cache) where
    query_nodes-answers :
        (ps : List ℕ)
        → ((p : ℕ) → has p ps ≡ true → (2 ≤ p) × (p < len + 2))
        → ((p : ℕ) → has p ps ≡ true → is_named (c.list (index p)) ≡ true)
        → query_nodes len now query c ps
          ≡ ok (
            select (is_answer now name query.type) (view c ps),
            select (on_node (is_answer now name query.type) c) ps,
          )
    unfolding query_nodes
    query_nodes-answers [] inside named = refl
    query_nodes-answers (p ∷ ps) inside named =
        let e = c.list (index p) in
        let full = named p (ground arith) in
        let rest =
          query_nodes-answers ps (λ q h. inside q (ground arith)) (λ q h. named q (ground arith)) in
        let (low, high) = inside p (ground arith) in
        rw (slot_of-index len p low high, matches-is_answer e full, rest)
          (elim (Bool-cases (is_answer now name query.type e)) [
            | inl hit ↦ rw (hit, copy_entry-ok e full)
            | inr miss ↦ rw miss
          ])

    -- `cacheQuery` for a name in a well-formed cache: there is no fault, and it returns the entries
    -- with that name and the query's type that are not overdue, the most recent first, and their
    -- nodes.
    pub cache_query-answers :
        (es : List DnsEntry) (h : Holds len c es)
        → cache_query len now query c
          ≡ ok (
            select (is_answer now name query.type) es,
            select (on_node (is_answer now name query.type) c) h.nodes,
          )
    unfolding cache_query
    cache_query-answers es h =
        let v = h.valid in
        let short : length h.nodes < suc len =
          omega (arith, v.counted, v.in_use, used-le len c.set) in
        rw (for_each-IsRing (suc len) c.links head h.nodes v.ring short, ← h.entries)
          (query_nodes-answers h.nodes v.in_array v.named)
