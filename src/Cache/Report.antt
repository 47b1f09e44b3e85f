-- ===== src/Cache/Report.antt =====
-- `cacheCheck` and `cacheOutput`: the records that they print, and the total. `time(NULL)` is one
-- reading; a file that cannot be opened ends `cacheOutput`.
use dns_relay_server.Base.{
  ℕ, suc, ◌+◌, ◌≤◌, ◌<◌, ◌≡◌, ◌∙◌, sym, refl, ap, true, Bool, Option, none, some, List, [], ◌∷◌,
  map, length, has, arith, ◌==◌, if◌then◌else◌, Run, ok, ◌>>=◌,
}
use dns_relay_server.Entry.{Text, DnsEntry}
use dns_relay_server.Protocol.{type_mx}
use dns_relay_server.Ring.{for_each}
use dns_relay_server.Ring.Walk.{for_each-IsRing}
use dns_relay_server.Cache.{Cache, head, slot_of}
use dns_relay_server.Cache.Inv.{Holds, view, slot_of-index, used-le}
use dns_relay_server.Cache.Slots.{length-view}

-- The TTL is printed as the difference of `timestamp` and `now`.
pub record Printed : Type 0 where
  pub domain_name : Option Text
  pub ip : Option Text
  pub type : ℕ
  pub timestamp : ℕ
  pub now : ℕ
  pub preference : Option ℕ

unfoldable pub print_entry : (now : ℕ) → DnsEntry → Printed
print_entry now e = record {
  domain_name = e.domain_name;
  ip = e.ip;
  type = e.type;
  timestamp = e.timestamp;
  now = now;
  preference = if e.type == type_mx then some e.addition else none;
}

unfoldable pub print_nodes : (len now : ℕ) → Cache → List ℕ → Run (List Printed)
print_nodes len now c [] = ok []
print_nodes len now c (p ∷ ps) = do
  i ← slot_of len p
  records ← print_nodes len now c ps
  ok (print_entry now (c.list i) ∷ records)

unfoldable pub cache_check : (len now : ℕ) → Cache → Run (List Printed × ℕ)
cache_check len now c = do
  nodes ← for_each (suc len) head c.links
  records ← print_nodes len now c nodes
  ok (records, c.length)

unfoldable pub cache_output :
    (len now : ℕ) (opened : Bool) → Cache → Run (Option (List Printed × ℕ))
cache_output len now opened c =
    let written = (do r ← cache_check len now c; ok (some r)) in if opened then written else ok none

module _ (len now : ℕ) (c : Cache) where
  print_nodes-view :
      (ps : List ℕ)
      → ((p : ℕ) → has p ps ≡ true → (2 ≤ p) × (p < len + 2))
      → print_nodes len now c ps ≡ ok (map (print_entry now) (view c ps))
  unfolding print_nodes
  print_nodes-view [] inside = refl
  print_nodes-view (p ∷ ps) inside =
      let (low, high) = inside p (ground arith) in
      rw (slot_of-index len p low high, print_nodes-view ps (λ q h. inside q (ground (arith, h))))

  -- `cacheCheck` of a well-formed cache, and `cacheOutput` with a file that is open: no fault, and
  -- the records of exactly the entries, the most recent first, and their number are printed.
  pub cache_output-Holds :
      (es : List DnsEntry)
      → Holds len c es
      → (cache_check len now c ≡ ok (map (print_entry now) es, length es))
        × (cache_output len now true c ≡ ok (some (map (print_entry now) es, length es)))
  unfolding cache_check cache_output
  cache_output-Holds es h =
      let v = h.valid in
      let short : length h.nodes < suc len =
        omega (arith, v.counted, v.in_use, used-le len c.set) in
      let total : c.length ≡ length es =
        v.counted ∙ (sym (length-view c h.nodes) ∙ ap length h.entries) in
      let checked : cache_check len now c ≡ ok (map (print_entry now) es, length es) = rw (
        for_each-IsRing (suc len) c.links head h.nodes v.ring short,
        print_nodes-view h.nodes v.in_array,
        total,
        h.entries,
      ) in
      (checked, rw checked)
