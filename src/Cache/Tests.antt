-- ===== src/Cache/Tests.antt =====
-- Runs of the cache, and its theorems at small caches.
use dns_relay_server.Base.{
  ◌++◌, ℕ, ◌+◌, ◌≡◌, refl, true, Option, none, some, List, [], ◌∷◌, map, arith, select, update, ltb,
  if◌then◌else◌, Run, ok, fault, Returns, ◌>>=◌,
}
use dns_relay_server.Entry.{Text, text_eq, DnsEntry, entry_set, entry_free}
use dns_relay_server.Ring.{
  Links, init_list_head, list_add, add_head, list_del, unlink, del, is_last, is_empty, move_head,
  rotate_node_head, walk, for_each,
}
use dns_relay_server.Cache.{
  Cache, head, cache_init, lru_list_add, lru_list_del, find_free, insert_new, replace_tail,
  cache_insert, matches, copy_entry, query_nodes, cache_query, cache_rotate, scan_delete, scan_from,
  cache_scan, flush_slots, cache_flush,
}
use dns_relay_server.Ring.Chain.{IsRing}
use dns_relay_server.Cache.Inv.{IsCache, Holds, index}
use dns_relay_server.Cache.Insert.{cache_insert-Holds, cache_init-Holds}
use dns_relay_server.Cache.Query.{is_answer, on_node, cache_query-answers}
use dns_relay_server.Cache.Rotate.{cache_rotate-cache_query}
use dns_relay_server.Cache.Scan.{cache_scan-Holds}
use dns_relay_server.Cache.Report.{print_entry, cache_check, cache_output, cache_output-Holds}
use dns_relay_server.Cache.Steps.{State, Step, Reach}
use dns_relay_server.Cache.Safe.{AllTurns, Reach-safe}
use dns_relay_server.Cache.Flush.{cache_flush-Holds}
use dns_relay_server.Cache.Stale.{cache_rotate-cache_scan, cache_flush-cache_scan}

abbrev entry : ℕ → ℕ → DnsEntry
entry name timestamp = record {
  domain_name = some (name ∷ []);
  ip = some (49 ∷ []);
  type = 1;
  addition = 0;
  timestamp = timestamp;
}

abbrev garbage : Links
garbage = record { next = λ p. p + 7; prev = λ p. 99 }

program : Unit {0}
unfolding init_list_head list_add add_head list_del unlink del is_last is_empty move_head
    rotate_node_head walk for_each cache_init lru_list_add lru_list_del find_free insert_new
    replace_tail cache_insert matches copy_entry query_nodes cache_query cache_rotate scan_delete
    scan_from cache_scan flush_slots cache_flush text_eq entry_free entry_set
program = tt

-- The names in the order of the list.
abbrev names : Run Cache → Run (List (Option Text))
names run = do
  c ← run
  nodes ← for_each 9 head c.links
  ok (map (λ p. (c.list (index p)).domain_name) nodes)

abbrev start : Run Cache
start = cache_init (λ _. entry 0 0) garbage

-- Three insertions into two slots: the oldest entry goes.
abbrev three : Run Cache
three = do
  c₀ ← start
  c₁ ← cache_insert 2 (entry 97 5) c₀
  c₂ ← cache_insert 2 (entry 98 50) c₁
  cache_insert 2 (entry 99 50) c₂

oldest_goes : names three ≡ ok (some (99 ∷ []) ∷ some (98 ∷ []) ∷ [])
unfolding program
oldest_goes = refl

-- The entry that a query finds comes to the front.
found_comes_first :
    names (do c ← three; (results, temp) ← cache_query 2 9 (entry 98 0) c; cache_rotate temp c)
    ≡ ok (some (98 ∷ []) ∷ some (99 ∷ []) ∷ [])
unfolding program
found_comes_first = refl

-- The entry that a query finds is overdue when the next scan runs, and the waiting rotation faults.
stale_rotation :
    (do
      c₀ ← start
      c₁ ← cache_insert 2 (entry 97 5) c₀
      c₂ ← cache_insert 2 (entry 98 50) c₁
      (results, temp) ← cache_query 2 5 (entry 97 0) c₂
      (c₃, found) ← cache_scan 2 6 c₂
      cache_rotate temp c₃)
    ≡ fault
unfolding program
stale_rotation = refl

-- A scan that frees slot 0 but not slot 1, and then a flush.
stale_flush :
    (do
      c₀ ← start
      c₁ ← cache_insert 2 (entry 97 5) c₀
      c₂ ← cache_insert 2 (entry 98 50) c₁
      (c₃, found) ← cache_scan 2 6 c₂
      cache_flush 2 c₃)
    ≡ fault
unfolding program
stale_flush = refl

-- With the option `-c0` the first insertion deletes the entry around the list's head.
no_capacity : (start >>= cache_insert 0 (entry 97 5)) ≡ fault
unfolding program
no_capacity = refl

-- A query type above 255 is cut off: type 257 becomes type 1.
wide_type : (entry_set 0 none none 0 257 0).type ≡ 1
unfolding program
wide_type = refl

abbrev empty : Cache
empty = (cache_init-Holds 2 (λ _. entry 0 0) garbage).0

abbrev one : Returns (cache_insert 2 (entry 97 5) empty) λ c. Holds 2 c (entry 97 5 ∷ [])
one =
    cache_insert-Holds 2 (entry 97 5) refl empty [] (omega arith)
      (cache_init-Holds 2 (λ _. entry 0 0) garbage).2

abbrev two :
    Returns (cache_insert 2 (entry 98 50) one.0) λ c. Holds 2 c (entry 98 50 ∷ entry 97 5 ∷ [])
two = cache_insert-Holds 2 (entry 98 50) refl one.0 (entry 97 5 ∷ []) (omega arith) one.2

cache_insert-Holds_example :
    Returns (cache_insert 2 (entry 99 50) two.0) λ c. Holds 2 c (entry 99 50 ∷ entry 98 50 ∷ [])
cache_insert-Holds_example =
    cache_insert-Holds 2 (entry 99 50) refl two.0 (entry 98 50 ∷ entry 97 5 ∷ []) (omega arith)
      two.2

cache_query-answers_example :
    cache_query 2 9 (entry 98 0) two.0
    ≡ ok (entry 98 50 ∷ [], select (on_node (is_answer 9 (98 ∷ []) 1) two.0) two.2.nodes)
unfolding text_eq
cache_query-answers_example =
    cache_query-answers 9 (98 ∷ []) (entry 98 0) refl 2 two.0 (entry 98 50 ∷ entry 97 5 ∷ []) two.2

cache_rotate-cache_query_example :
    Returns
      (do (results, temp) ← cache_query 2 3 (entry 97 0) two.0; cache_rotate temp two.0)
      λ c. Holds 2 c (entry 97 5 ∷ entry 98 50 ∷ [])
unfolding text_eq
cache_rotate-cache_query_example =
    cache_rotate-cache_query 2 3 (97 ∷ []) (entry 97 0) two.0 (entry 98 50 ∷ entry 97 5 ∷ []) refl
      two.2

cache_scan-Holds_example :
    Returns (cache_scan 2 6 two.0) λ (c, flag). Holds 2 c (entry 98 50 ∷ []) × (flag ≡ true)
cache_scan-Holds_example = cache_scan-Holds 2 6 two.0 (entry 98 50 ∷ entry 97 5 ∷ []) two.2

-- The list of two slots, by its pointers: slot 1 in front of slot 0.
abbrev two_links : Links
two_links = record {
  next = update (update (update (λ _. 0) 1 3) 3 2) 2 1;
  prev = update (update (update (λ _. 0) 1 2) 2 3) 3 1;
}

abbrev full : Cache
full = record {
  list = update (update (λ _. entry 0 0) 0 (entry 97 5)) 1 (entry 98 50);
  set = λ i. if ltb i 2 then 1 else 0;
  length = 2;
  links = two_links;
}

abbrev full_nodes : List ℕ
full_nodes = 3 ∷ 2 ∷ []

full-IsRing : IsRing two_links head full_nodes
full-IsRing = record {
  chain = (refl, refl, (refl, refl, (refl, refl)));
  apart = refl;
  distinct = ground arith;
  nonnull = refl;
  head_nonnull = omega arith;
}

full-IsCache : IsCache 2 full full_nodes
full-IsCache = record {
  ring = full-IsRing;
  in_array = λ p h. ground arith;
  flags = λ i h. ground arith;
  counted = refl;
  in_use = refl;
  named = λ p h. ground arith;
}

abbrev full-Holds : Holds 2 full (entry 98 50 ∷ entry 97 5 ∷ [])
full-Holds = record { nodes = full_nodes; valid = full-IsCache; entries = refl }

cache_flush-Holds_example : Returns (cache_flush 2 full) λ c. Holds 2 c []
cache_flush-Holds_example =
    cache_flush-Holds 2 full (entry 98 50 ∷ entry 97 5 ∷ []) full-Holds (λ j h. ground arith)

cache_rotate-cache_scan_example :
    Returns (cache_scan 2 6 full) λ (c, flag). (flag ≡ true) × (cache_rotate (2 ∷ []) c ≡ fault)
cache_rotate-cache_scan_example =
    cache_rotate-cache_scan 2 6 full (3 ∷ []) 0 [] full-IsCache (λ e. cc) [] refl refl refl

cache_flush-cache_scan_example :
    Returns (cache_scan 2 6 full) λ (c, flag). (flag ≡ true) × (cache_flush 2 c ≡ fault)
cache_flush-cache_scan_example =
    cache_flush-cache_scan 2 6 full (3 ∷ []) [] full-IsCache (λ e. cc) refl refl refl

abbrev answer_nodes : List ℕ
answer_nodes = select (on_node (is_answer 9 (98 ∷ []) 1) two.0) two.2.nodes

-- After two insertions and a query, whose rotation waits.
abbrev waiting_state : State
waiting_state = record { cache = two.0; waiting = answer_nodes ∷ [] }

waiting_state-Reach : Reach 2 waiting_state
waiting_state-Reach =
    let s₀ : State = record { cache = empty; waiting = [] } in
    let s₁ : State = record { cache = one.0; waiting = [] } in
    let s₂ : State = record { cache = two.0; waiting = [] } in
    let r₀ : Reach 2 s₀ =
      Reach.begun (λ _. entry 0 0) garbage empty (cache_init-Holds 2 (λ _. entry 0 0) garbage).1 in
    let r₁ : Reach 2 s₁ = Reach.stepped s₀ s₁ r₀ (Step.inserted (entry 97 5) one.0 refl one.1) in
    let r₂ : Reach 2 s₂ = Reach.stepped s₁ s₂ r₁ (Step.inserted (entry 98 50) two.0 refl two.1) in
    let asked =
      cache_query-answers 9 (98 ∷ []) (entry 98 0) refl 2 two.0 (entry 98 50 ∷ entry 97 5 ∷ [])
        two.2 in
    Reach.stepped s₂ waiting_state r₂
      (Step.queried 9 (98 ∷ []) (entry 98 0) _ answer_nodes refl asked)

Reach-safe_example :
    Returns
      (cache_insert 2 (entry 99 50) two.0)
      (λ c. Reach 2 (record { cache = c; waiting = answer_nodes ∷ [] }))
    × Returns (cache_query 2 9 (entry 97 0) two.0) (λ (results, found).
      Reach 2 (record { cache = two.0; waiting = found ∷ answer_nodes ∷ [] }))
    × AllTurns
        (λ before temp after.
          Returns
            (cache_rotate temp two.0)
            λ c. Reach 2 (record { cache = c; waiting = before ++ after }))
        (answer_nodes ∷ [])
Reach-safe_example =
    Reach-safe 2 (omega arith) waiting_state (entry 99 50) 9 (97 ∷ []) (entry 97 0)
      waiting_state-Reach refl refl

cache_output-Holds_example :
    (cache_check 2 9 two.0 ≡ ok (print_entry 9 (entry 98 50) ∷ print_entry 9 (entry 97 5) ∷ [], 2))
    × (cache_output 2 9 true two.0
        ≡ ok (some (print_entry 9 (entry 98 50) ∷ print_entry 9 (entry 97 5) ∷ [], 2)))
cache_output-Holds_example = cache_output-Holds 2 9 two.0 (entry 98 50 ∷ entry 97 5 ∷ []) two.2
