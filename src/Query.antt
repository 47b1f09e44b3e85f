-- ===== src/Query.antt =====
-- The queries of src/Service/query.c: a question is looked up in the cache and in the host table, and
-- the answers of a response are stored in the cache. The cache is read and written under its lock,
-- so each call on it is one step; the rotations that `cacheQuery` starts are returned, for a later
-- step. The thread that queries the host table is joined before its result is used. If the cache
-- answers, it is detached: it may end, and write through its pointers to the variables of the call,
-- after the call has returned. That write is not modelled; the results say which threads are left. `time(NULL)` is one argument for a call. ANCOUNT has 16
-- bits: from 2 ^ 16 answers on the array is allocated for fewer than are written, a fault.
pub mod Store
pub mod Steps
pub mod Local
pub mod Answers
mod Tests
use dns_relay_server.Base.{
  ℕ, zero, suc, ◌+◌, ◌-◌, ◌%◌, ◌^◌, ◌==◌, ltb, leb, Bool, true, false, if◌then◌else◌, Option, none,
  some, List, [], ◌∷◌, ◌++◌, length, get_elem?, Run, ok, fault, ◌>>=◌,
}
use dns_relay_server.Entry.{Text, DnsEntry, entry_set, deref}
use dns_relay_server.Protocol.{Quest, Answer, Packet, type_buf_size}
use dns_relay_server.Cache.{Cache, cache_insert, cache_query}
use dns_relay_server.Host.{Hosts, HostResult, host_query}

-- `src->QUESTS[i]`.
abbrev pub quest_at : ℕ → List Quest → Run Quest
quest_at i quests = elim (get_elem? quests i) [ none ↦ fault | some q ↦ ok q ]

-- The loop of `urlStore`: an answer whose type is not the first question's is passed over.
unfoldable pub store_answers : (len now : ℕ) → List Quest → List Answer → Cache → Run Cache
store_answers len now quests [] c = ok c
store_answers len now quests (a ∷ ans) c = do
  q ← quest_at 0 quests
  let entry = entry_set now q.qname a.rdata a.ttl a.type a.addition
  let insert = λ (_ : Unit {0}). cache_insert len entry c
  c' ← (if a.type == q.qtype then insert else λ _. ok c) tt
  store_answers len now quests ans c'

-- The returned length is the cache's.
unfoldable pub url_store : (len now : ℕ) → Packet → Cache → Run Cache
url_store len now src c = store_answers len now src.quests src.ans c

-- RESOURCE_CACHE and RESOURCE_HOST.
pub data Resource : Type 0 where
  cache host : Resource

-- What `qnameSearch` returns: -1 for a blocked name, or the number of the results; with them the
-- value of `resource`, `none` where it is not set, the nodes that wait for their rotation, and whether
-- the thread of `hostQuery` has been detached.
pub data Found : Type 0 where
  blocked : Found
  results : List DnsEntry → Found

pub record Search : Type 0 where
  pub found : Found
  pub resource : Option Resource
  pub temp : List ℕ
  pub detached : Bool

abbrev pub of_host : HostResult → Found
of_host HostResult.blocked = blocked
of_host (HostResult.found es) = results es

-- The host's result if the cache has none.
unfoldable pub choose : List DnsEntry → List ℕ → HostResult → Search
choose [] temp r = record { found = of_host r; resource = some host; temp = temp; detached = false }
choose (e ∷ es) temp r = record {
  found = results (e ∷ es);
  resource = some cache;
  temp = temp;
  detached = true;
}

-- `hosts` is `none` if no host file was read. The two results that are compared are those of
-- `cacheQuery` and of the thread that runs `hostQuery`.
unfoldable pub qname_search :
    (len now : ℕ) → Option Text → (qtype : ℕ) → Option Hosts → Cache → Run Search
qname_search len now none qtype hosts c =
    ok (record { found = results []; resource = none; temp = []; detached = false })
qname_search len now (some qname) qtype none c = do
  (es, temp) ← cache_query len now (entry_set now (some qname) none 0 qtype 0) c
  ok (record { found = results es; resource = none; temp = temp; detached = false })
qname_search len now (some qname) qtype (some hosts) c = do
  let entry = entry_set now (some qname) none 0 qtype 0
  (es, temp) ← cache_query len now entry c
  r ← host_query now entry hosts
  ok (choose es temp r)

-- An answer, with its string copied into TYPE_BUF_SIZE bytes.
unfoldable pub load_answer : (now i : ℕ) → Quest → DnsEntry → Run Answer
load_answer now i q e = do
  ip ← deref e.ip
  let answer : Answer = record {
    qpos = i % 2 ^ 8;
    type = q.qtype;
    class = q.qclass;
    ttl = (e.timestamp + 2 ^ 32 - now % 2 ^ 32) % 2 ^ 32;
    addition = e.addition;
    rdata = Option.some ip;
  }
  if ltb (length ip) (type_buf_size q.qtype) then ok answer else fault

unfoldable pub load_answers : (now i : ℕ) → Quest → List DnsEntry → Run (List Answer)
load_answers now i q [] = ok []
load_answers now i q (e ∷ es) = do
  a ← load_answer now i q e
  rest ← load_answers now i q es
  ok (a ∷ rest)

-- What `urlQuery` returns: -1, or the number of the answers.
pub data Status : Type 0 where
  refused : Status
  count : ℕ → Status

-- The status, the answers that `urlQuery` leaves in the packet, and the nodes that wait for their
-- rotation, a list for each question, and the number of the detached threads.
pub record UrlResult : Type 0 where
  pub status : Status
  pub ans : List Answer
  pub rotations : List (List ℕ)
  pub detached : ℕ

abbrev pub one_if : Bool → ℕ
one_if true = 1
one_if false = 0

-- The array of the answers after `realloc` for ANCOUNT, modulo 2 ^ 16, of them, when all are written.
abbrev pub in_array : List Answer → Run (List Answer)
in_array ans = if length ans == length ans % 2 ^ 16 then ok ans else fault

-- The questions from the place `i` on, when those before it have the answers `ans`.
unfoldable pub query_quests :
    (len now : ℕ) → Option Hosts → Cache → (i : ℕ) → List Quest → List Answer → Run UrlResult
query_quests len now hosts c i [] ans =
    ok (record { status = count (length ans); ans = ans; rotations = []; detached = 0 })
query_quests len now hosts c i (q ∷ qs) ans = do
  s ← qname_search len now q.qname q.qtype hosts c
  elim s.found [
    | blocked ↦ ok (record {
      status = refused;
      ans = [];
      rotations = s.temp ∷ [];
      detached = one_if s.detached;
    })
    | results [] ↦ ok (record {
      status = count 0;
      ans = [];
      rotations = s.temp ∷ [];
      detached = one_if s.detached;
    })
    | results (e ∷ es) ↦ do
      loaded ← load_answers now i q (e ∷ es)
      fitting ← in_array (ans ++ loaded)
      r ← query_quests len now hosts c (suc i) qs fitting
      ok (record r { rotations = s.temp ∷ r.rotations; detached = one_if s.detached + r.detached })
  ]

unfoldable pub url_query : (len now : ℕ) → Option Hosts → Packet → Cache → Run UrlResult
url_query len now hosts src c = query_quests len now hosts c 0 src.quests []
