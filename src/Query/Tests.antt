-- ===== src/Query/Tests.antt =====
-- The queries at a cache with one entry.
use dns_relay_server.Base.{
  true, ◌≡◌, refl, none, some, [], ◌∷◌, map, select, arith, ok, ◌>>=◌, Returns,
}
use dns_relay_server.Entry.{text_eq, DnsEntry, entry_set}
use dns_relay_server.Protocol.{Quest, Answer, Packet, type_buf_size}
use dns_relay_server.Cache.{cache_init, cache_insert}
use dns_relay_server.Cache.Inv.{Holds}
use dns_relay_server.Cache.Insert.{cache_init-Holds, cache_insert-Holds}
use dns_relay_server.Cache.Query.{is_answer, on_node}
use dns_relay_server.Host.{no_hosts, host_load}
use dns_relay_server.Host.Load.{HostLine, parts}
use dns_relay_server.Query.{results, count, qname_search, url_store, url_query}
use dns_relay_server.Query.Store.{url_store-Holds}
use dns_relay_server.Query.Local.{qname_search-host_load}
use dns_relay_server.Query.Answers.{answer_for, url_query-answers}

abbrev entry : DnsEntry
entry = record {
  domain_name = some (97 ∷ []);
  ip = some (49 ∷ []);
  type = 1;
  addition = 0;
  timestamp = 60;
}

abbrev start :
    Returns (cache_init (λ _. entry) (record { next = λ p. p; prev = λ p. p })) λ c. Holds 2 c []
start = cache_init-Holds 2 (λ _. entry) (record { next = λ p. p; prev = λ p. p })

abbrev one : Returns (cache_insert 2 entry start.0) λ c. Holds 2 c (entry ∷ [])
one = cache_insert-Holds 2 entry refl start.0 [] (omega arith) start.2

abbrev question : Quest
question = record { qname = some (97 ∷ []); qtype = 1; qclass = 1 }

abbrev stored : Answer
stored = record { qpos = 0; type = 1; class = 1; ttl = 30; addition = 0; rdata = some (50 ∷ []) }

abbrev response : Packet
response = record { id = 1; flags = 32768; quests = question ∷ []; ans = stored ∷ [] }

url_store-Holds_example :
    Returns
      (url_store 2 40 response one.0)
      λ c. Holds 2 c (record entry { ip = some (50 ∷ []); timestamp = 70 } ∷ entry ∷ [])
unfolding entry_set
url_store-Holds_example =
    url_store-Holds 2 40 (omega arith) question [] refl response one.0 (entry ∷ []) refl (refl, tt)
      one.2

abbrev line : HostLine
line = record { address = 50 ∷ []; name = 97 ∷ [] }

qname_search-host_load_example :
    Returns
      (do
        hosts ← host_load 5 (map parts (line ∷ [])) (no_hosts (λ _. []) 16)
        qname_search 2 40 (some (97 ∷ [])) 1 (some hosts) one.0)
      λ s.
        (s.found ≡ results (entry ∷ []))
        × (s.temp ≡ select (on_node (is_answer 40 (97 ∷ []) 1) one.0) one.2.nodes)
        × (s.detached ≡ true)
unfolding text_eq
qname_search-host_load_example =
    qname_search-host_load 2 40 (97 ∷ []) 1 refl one.0 (entry ∷ []) one.2 5 (λ _. []) 16 (line ∷ [])

url_query-answers_example :
    url_query 2 40 none (record response { flags = 0; ans = [] }) one.0
    ≡ ok (record {
      status = count 1;
      ans = answer_for 40 question entry ∷ [];
      rotations = select (on_node (is_answer 40 (97 ∷ []) 1) one.0) one.2.nodes ∷ [];
      detached = 0;
    })
unfolding text_eq type_buf_size
url_query-answers_example =
    url_query-answers 2 40 question (97 ∷ []) refl refl one.0 (entry ∷ []) one.2
      (record response { flags = 0; ans = [] }) refl (refl, tt) (omega arith)
