-- ===== src/Cache.antt =====
-- The LRU cache of src/Service/cache.c: an array of entries, the flags of the slots in use, a count,
-- and the circular list of the used slots, the most recent first. The `head` of the list has the
-- address 1, the node of slot `i` the address `i + 2`. An index outside the array, NULL and the
-- entry around `head` are faults. `__CACHE_LEN__` is the parameter `len` and `time(NULL)` the
-- parameter `now`, one reading for each call. A call holds the lock from its first to its last
-- access, so calls follow one another; `cache_rotate` is the thread that `cacheQuery` starts, and
-- may come at any later time.
pub mod Inv
pub mod Slots
pub mod Insert
pub mod Scan
pub mod Query
pub mod Rotate
pub mod Flush
pub mod Alone
pub mod Stale
pub mod Steps
pub mod Report
pub mod Kept
pub mod Safe
mod Tests
use dns_relay_server.Base.{
  ℕ, zero, suc, ◌+◌, ◌-◌, Bool, true, false, List, [], ◌∷◌, ◌&&◌, ltb, leb, ◌==◌, if◌then◌else◌,
  update, Run, ok, fault, out_of_fuel, ◌>>=◌, Option,
}
use dns_relay_server.Entry.{Text, text_eq, DnsEntry, entry_free, deref}
use dns_relay_server.Ring.{
  Links, get_next, get_prev, init_list_head, add_head, del, is_last, rotate_node_head, for_each,
}

pub record Cache : Type 0 where
  pub list : ℕ → DnsEntry
  pub set : ℕ → ℕ
  pub length : ℕ
  pub links : Links

abbrev pub head : ℕ
head = 1

abbrev pub node_of : ℕ → ℕ
node_of i = suc (suc i)

-- `mylist_entry(p, DNS_entry, node)`, as an index of the array.
abbrev pub slot_of : ℕ → ℕ → Run ℕ
slot_of len zero = fault
slot_of len (suc zero) = fault
slot_of len (suc (suc i)) = if ltb i len then ok i else fault

-- For a capacity that is not negative. `list` and `links` are what `malloc` returns: their contents
-- are arbitrary.
unfoldable pub cache_init : (list : ℕ → DnsEntry) (links : Links) → Run Cache
cache_init list links = do
  l ← init_list_head head links
  ok (record { list = list; set = λ _. 0; length = 0; links = l })

-- The pointers that `memcpy` copies into the node are overwritten by `mylist_add_head`.
unfoldable pub lru_list_add : ℕ → DnsEntry → (location : ℕ) → Cache → Run Cache
lru_list_add len entry i c =
    if ltb i len
    then (do
      l ← add_head (node_of i) head c.links
      ok (record c { list = update c.list i entry; links = l }))
    else fault

unfoldable pub lru_list_del : (entry : ℕ) → Cache → Run Cache
lru_list_del i c = do
  l ← del (node_of i) c.links
  ok (record c { list = update c.list i (entry_free (c.list i)); links = l })

-- `for(i = 0; i < __CACHE_LEN__; i++) if(cache->set[i] == 0) break;`
unfoldable pub find_free : (rounds i : ℕ) → (ℕ → ℕ) → ℕ
find_free zero i flags = i
find_free (suc r) i flags = elim (flags i == 0) [ true ↦ i | false ↦ find_free r (suc i) flags ]

unfoldable pub insert_new : ℕ → DnsEntry → Cache → Run Cache
insert_new len entry c = do
  let i = find_free len 0 c.set
  c' ← lru_list_add len entry i c
  ok (record c' { set = update c'.set i 1; length = c'.length + 1 })

unfoldable pub replace_tail : ℕ → DnsEntry → (tail : ℕ) → Cache → Run Cache
replace_tail len entry tail c = do
  i ← slot_of len tail
  c' ← lru_list_del i c
  lru_list_add len entry i c'

unfoldable pub cache_insert : ℕ → DnsEntry → Cache → Run Cache
cache_insert len entry c = if ltb c.length len then insert_new len entry c else (do
  tail ← get_prev head c.links
  last ← is_last tail head c.links
  if last then replace_tail len entry tail c else ok c)

-- An entry is an answer to the query: the same name, not overdue, of the same type.
unfoldable pub matches : (now : ℕ) (query e : DnsEntry) → Run Bool
matches now query e = do
  name ← deref e.domain_name
  wanted ← deref query.domain_name
  ok (text_eq name wanted && (leb now e.timestamp && (e.type == query.type)))

-- The copy that is returned, with new strings.
unfoldable pub copy_entry : DnsEntry → Run DnsEntry
copy_entry e = do
  name ← deref e.domain_name
  ip ← deref e.ip
  ok (record e { domain_name = Option.some name; ip = Option.some ip })

-- The loop over the nodes: the copies for `result`, and the matching nodes for `temp`.
unfoldable pub query_nodes :
    (len now : ℕ) → DnsEntry → Cache → List ℕ → Run (List DnsEntry × List ℕ)
query_nodes len now query c [] = ok ([], [])
query_nodes len now query c (p ∷ ps) = do
  i ← slot_of len p
  found ← matches now query (c.list i)
  (results, temp) ← query_nodes len now query c ps
  if found then (do e ← copy_entry (c.list i); ok (e ∷ results, p ∷ temp)) else ok (results, temp)

unfoldable pub cache_query : (len now : ℕ) → DnsEntry → Cache → Run (List DnsEntry × List ℕ)
cache_query len now query c = do
  nodes ← for_each (suc len) head c.links
  query_nodes len now query c nodes

-- `__LRU_cache_rotate`, with the nodes that the query has found.
unfoldable pub cache_rotate : List ℕ → Cache → Run Cache
cache_rotate [] c = ok c
cache_rotate (p ∷ ps) c = do
  l ← rotate_node_head p head c.links
  cache_rotate ps (record c { links = l })

-- An overdue entry is deleted, and its slot set free.
unfoldable pub scan_delete : (entry : ℕ) → Cache → Run Cache
scan_delete i c = do
  c' ← lru_list_del i c
  ok (record c' { set = update c'.set i 0; length = c'.length - 1 })

-- The loop of `cacheScan` from the node `p` on; it steps back before it deletes.
unfoldable pub scan_from : (fuel len now p : ℕ) → Cache → Bool → Run (Cache × Bool)
scan_from zero len now p c flag = out_of_fuel
scan_from (suc fuel) len now p c flag =
    let delete = (do
      i ← slot_of len p
      before ← get_prev p c.links
      c' ← scan_delete i c
      after ← get_next before c'.links
      scan_from fuel len now after c' true) in
    let keep = (do after ← get_next p c.links; scan_from fuel len now after c flag) in
    let step = (do i ← slot_of len p; if ltb (c.list i).timestamp now then delete else keep) in
    if p == head then ok (c, flag) else step

unfoldable pub cache_scan : (len now : ℕ) → Cache → Run (Cache × Bool)
cache_scan len now c = do first ← get_next head c.links; scan_from (suc len) len now first c false

-- The loop of `cacheFlush` over the slots from `i` on.
unfoldable pub flush_slots : (rounds i len : ℕ) → Cache → Run Cache
flush_slots zero i len c = ok c
flush_slots (suc r) i len c = do
  c' ← if ltb i len then lru_list_del i c else fault
  flush_slots r (suc i) len c'

unfoldable pub cache_flush : ℕ → Cache → Run Cache
cache_flush len c = do
  c' ← flush_slots c.length 0 len c
  l ← init_list_head head c'.links
  ok (record c' { set = λ _. 0; length = 0; links = l })

-- `cacheFree`: the strings of the slots below the count are freed. The lock is not given back.
unfoldable pub free_slots : (rounds i len : ℕ) → Cache → Run Cache
free_slots zero i len c = ok c
free_slots (suc r) i len c =
    let c' = record c { list = update c.list i (entry_free (c.list i)) } in
    let rest = free_slots r (suc i) len c' in if ltb i len then rest else fault

unfoldable pub cache_free : ℕ → Cache → Run Cache
cache_free len c = free_slots c.length 0 len c
