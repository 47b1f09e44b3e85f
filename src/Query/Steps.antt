-- ===== src/Query/Steps.antt =====
-- `urlStore` and `urlQuery` as steps of the cache, in the sense of Cache.Steps.
use dns_relay_server.Base.{
  ℕ, suc, ◌<◌, ◌≡◌, ◌∙◌, sym, ap, refl, true, ◌==◌, Bool-cases, inl, inr, ◌⊎◌, Option, none, some,
  List, [], ◌∷◌, ◌++◌, reverse_onto, All, ok, bind-ok, ok-same,
}
use dns_relay_server.Entry.{Text, DnsEntry, entry_set}
use dns_relay_server.Protocol.{Quest, Answer, Packet}
use dns_relay_server.Cache.{Cache, cache_insert, cache_query}
use dns_relay_server.Cache.Inv.{is_some}
use dns_relay_server.Cache.Steps.{State, Step, Reach}
use dns_relay_server.Host.{Hosts, HostResult, host_query}
use dns_relay_server.Query.{
  Found, Search, blocked, results, UrlResult, choose, qname_search, load_answers, in_array,
  query_quests, store_answers, url_store, url_query,
}
use dns_relay_server.Query.Store.{AllData, entry_of, entry_of-is_named}

-- The question has its name.
abbrev pub IsNamed : Quest → Type 0
IsNamed q = is_some q.qname ≡ true

-- The answers that `urlStore` stores have their strings.
abbrev pub AllStored : List Quest → List Answer → Type 0
AllStored [] ans = Unit
AllStored (q ∷ qs) ans = AllData q.qtype ans

abbrev pub at : Cache → List (List ℕ) → State
at c waiting = record { cache = c; waiting = waiting }

module _ (len now : ℕ) (pos : 0 < len) (waiting : List (List ℕ)) where
  store_answers-Reach :
      (q : Quest) (qs : List Quest) (named : IsNamed q) (ans : List Answer) (c c' : Cache)
      → AllData q.qtype ans
      → Reach len (at c waiting)
      → store_answers len now (q ∷ qs) ans c ≡ ok c'
      → Reach len (at c' waiting)
  unfolding store_answers
  store_answers-Reach q qs named [] c c' all reached run =
      let same = ok-same c c' run in rw (← same) reached
  store_answers-Reach q qs named (a ∷ ans) c c' all reached run =
      elim (Bool-cases (a.type == q.qtype)) [
        | inl same ↦
            let entry = entry_of now q.qname a in
            let (c1, inserted, rest) =
              bind-ok (cache_insert len entry c) (λ c1. store_answers len now (q ∷ qs) ans c1) c'
                (rw same at run) in
            let has_data : is_some a.rdata ≡ true = rw same at all.0 in
            let full = entry_of-is_named len now pos q qs named a has_data in
            store_answers-Reach q qs named ans c1 c' all.1
              (Reach.stepped _ _ reached (Step.inserted entry c1 full inserted)) rest
        | inr other ↦ store_answers-Reach q qs named ans c c' all.1 reached (rw other at run)
      ]

  store_answers-no_quest :
      (ans : List Answer) (c c' : Cache)
      → Reach len (at c waiting)
      → store_answers len now [] ans c ≡ ok c'
      → Reach len (at c' waiting)
  unfolding store_answers
  store_answers-no_quest [] c c' reached run = let same = ok-same c c' run in rw (← same) reached
  store_answers-no_quest (a ∷ ans) c c' reached run = absurd (cc run)

  -- `urlStore` of a packet, when it returns: some insertions.
  pub url_store-Reach :
      (src : Packet) (quests : List Quest) (c c' : Cache)
      → src.quests ≡ quests
      → All IsNamed quests
      → AllStored quests src.ans
      → Reach len (at c waiting)
      → url_store len now src c ≡ ok c'
      → Reach len (at c' waiting)
  unfolding url_store
  url_store-Reach src [] c c' e named all reached run =
      store_answers-no_quest src.ans c c' reached (rw e at run)
  url_store-Reach src (q ∷ qs) c c' e named all reached run =
      store_answers-Reach q qs named.0 src.ans c c' all reached (rw e at run)

choose-temp : (es : List DnsEntry) (temp : List ℕ) (r : HostResult) → (choose es temp r).temp ≡ temp
unfolding choose
choose-temp [] temp r = refl
choose-temp (e ∷ es) temp r = refl

Found-cases :
    (f : Found)
    → (f ≡ blocked)
      ⊎ ((f ≡ results []) ⊎ ((e : DnsEntry) × (es : List DnsEntry) × (f ≡ results (e ∷ es))))
Found-cases blocked = inl refl
Found-cases (results []) = inr (inl refl)
Found-cases (results (e ∷ es)) = inr (inr (e, es, refl))

-- A search for a name that is there is one query of the cache.
qname_search-queried :
    (len now qtype : ℕ) (qname : Option Text) (hosts : Option Hosts) (c : Cache) (s : Search)
    → is_some qname ≡ true
    → qname_search len now qname qtype hosts c ≡ ok s
    → (name : Text) × (query : DnsEntry) × (found : List DnsEntry) × (query.domain_name ≡ some name)
      × (cache_query len now query c ≡ ok (found, s.temp))
unfolding qname_search entry_set
qname_search-queried len now qtype none hosts c s named run = absurd (cc named)
qname_search-queried len now qtype (some name) none c s named run =
    let query = entry_set now (some name) none 0 qtype 0 in
    let ((es, temp), asked, rest) = bind-ok (cache_query len now query c) _ s run in
    let same : temp ≡ s.temp = ap (λ (r : Search). r.temp) (ok-same _ s rest) in
    (name, query, es, refl, asked ∙ ap (λ t. ok (es, t)) same)
qname_search-queried len now qtype (some name) (some hosts) c s named run =
    let query = entry_set now (some name) none 0 qtype 0 in
    let ((es, temp), asked, rest) = bind-ok (cache_query len now query c) _ s run in
    let (r, _, rest') = bind-ok (host_query now query hosts) _ s rest in
    let same : temp ≡ s.temp =
      sym (choose-temp es temp r) ∙ ap (λ (r : Search). r.temp) (ok-same _ s rest') in
    (name, query, es, refl, asked ∙ ap (λ t. ok (es, t)) same)

module _ (len now : ℕ) (hosts : Option Hosts) (c : Cache) where
  query_quests-Reach :
      (qs : List Quest) (i : ℕ) (ans : List Answer) (r : UrlResult) (waiting : List (List ℕ))
      → All IsNamed qs
      → Reach len (at c waiting)
      → query_quests len now hosts c i qs ans ≡ ok r
      → Reach len (at c (reverse_onto r.rotations waiting))
  unfolding query_quests
  query_quests-Reach [] i ans r waiting named reached run =
      let same = ok-same _ r run in
      let rotations : [] ≡ r.rotations = ap (λ (r : UrlResult). r.rotations) same in
      rw (← rotations) reached
  query_quests-Reach (q ∷ qs) i ans r waiting named reached run =
      let (s, searched, rest) = bind-ok (qname_search len now q.qname q.qtype hosts c) _ r run in
      let (name, query, found, has_name, asked) =
        qname_search-queried len now q.qtype q.qname hosts c s named.0 searched in
      let reached' : Reach len (at c (s.temp ∷ waiting)) =
        Reach.stepped _ _ reached (Step.queried now name query found s.temp has_name asked) in
      elim (Found-cases s.found) [
        | inl none_found ↦
            let same = ok-same _ r (rw none_found at rest) in
            let rotations : s.temp ∷ [] ≡ r.rotations = ap (λ (r : UrlResult). r.rotations) same in
            rw (← rotations) reached'
        | inr (inl nothing) ↦
            let same = ok-same _ r (rw nothing at rest) in
            let rotations : s.temp ∷ [] ≡ r.rotations = ap (λ (r : UrlResult). r.rotations) same in
            rw (← rotations) reached'
        | inr (inr (e, es, some_found)) ↦
            let (loaded, _, rest1) =
              bind-ok (load_answers now i q (e ∷ es)) _ r (rw some_found at rest) in
            let (fitting, _, rest2) = bind-ok (in_array (ans ++ loaded)) _ r rest1 in
            let (r', later, rest3) =
              bind-ok (query_quests len now hosts c (suc i) qs fitting) _ r rest2 in
            let same = ok-same _ r rest3 in
            let rotations : s.temp ∷ r'.rotations ≡ r.rotations =
              ap (λ (r : UrlResult). r.rotations) same in
            let all =
              query_quests-Reach qs (suc i) fitting r' (s.temp ∷ waiting) named.1 reached' later in
            rw (← rotations) all
      ]

  -- `urlQuery` of a packet, when it returns: a query for each question up to one without an answer.
  pub url_query-Reach :
      (src : Packet) (r : UrlResult) (waiting : List (List ℕ))
      → All IsNamed src.quests
      → Reach len (at c waiting)
      → url_query len now hosts src c ≡ ok r
      → Reach len (at c (reverse_onto r.rotations waiting))
  unfolding url_query
  url_query-Reach src r waiting named reached run =
      query_quests-Reach src.quests 0 [] r waiting named reached run
