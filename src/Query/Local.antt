-- ===== src/Query/Local.antt =====
-- What `qnameSearch` finds in the cache and in the host table.
use dns_relay_server.Base.{
  Bool, true, false, not, ℕ, ◌%◌, ◌≡◌, refl, ap, ◌∙◌, none, some, List, [], ◌∷◌, map, select,
  reverse_onto, ok, ◌>>=◌, Returns,
}
use dns_relay_server.Entry.{Text, DnsEntry, entry_set}
use dns_relay_server.Cache.{Cache, cache_query}
use dns_relay_server.Cache.Inv.{Holds}
use dns_relay_server.Cache.Query.{is_answer, on_node, cache_query-answers}
use dns_relay_server.Host.{HostResult, no_hosts, host_load}
use dns_relay_server.Host.Load.{HostLine, parts, hosts_spec, host_query-host_load}
use dns_relay_server.Query.{Found, results, of_host, choose, qname_search}

abbrev pub is_nil {ℓ} : {A : Type ℓ} → List A → Bool
is_nil [] = true
is_nil (x ∷ xs) = false

-- The cache goes first, and the host file answers only if the cache has nothing.
abbrev pub prefer : List DnsEntry → Found → Found
prefer [] other = other
prefer (e ∷ es) other = results (e ∷ es)

choose-prefer :
    (es : List DnsEntry) (temp : List ℕ) (r : HostResult)
    → ((choose es temp r).found ≡ prefer es (of_host r))
      × ((choose es temp r).temp ≡ temp)
      × ((choose es temp r).detached ≡ not (is_nil es))
unfolding choose
choose-prefer [] temp r = (refl, refl, refl)
choose-prefer (e ∷ es) temp r = (refl, refl, refl)

module _ (len now : ℕ) (name : Text) (type : ℕ) (small : type % 256 ≡ type) (c : Cache)
    (es : List DnsEntry) (h : Holds len c es) where
  -- `cacheQuery` with the entry that `qnameSearch` makes.
  pub cache_query-type :
      cache_query len now (entry_set now (some name) none 0 type 0) c
      ≡ ok (
        select (is_answer now name type) es,
        select (on_node (is_answer now name type) c) h.nodes,
      )
  unfolding entry_set
  cache_query-type =
      cache_query-answers now name (entry_set now (some name) none 0 type 0) refl len c es h
      ∙ ap
          (λ t.
            ok
              (select (is_answer now name t) es, select (on_node (is_answer now name t) c) h.nodes))
          small

  -- `hostInit` over lines that have both parts, and then `qnameSearch` for a name and a type below
  -- 256, with a well-formed cache: neither the call nor the query of the host table is a fault;
  -- the results are the cached entries that answer if there is one, and otherwise what the lines of
  -- the host file say. The thread that queries the host table is joined if the cache has none, and
  -- otherwise it is detached; what it then writes is not part of this.
  pub qname_search-host_load :
      (since : ℕ) (lists : ℕ → List DnsEntry) (fresh : ℕ) (lines : List HostLine)
      → Returns
          (do
            hosts ← host_load since (map parts lines) (no_hosts lists fresh)
            qname_search len now (some name) type (some hosts) c)
          λ s.
            (s.found
              ≡ prefer
                  (select (is_answer now name type) es)
                  (of_host (hosts_spec now name type (reverse_onto lines []))))
            × (s.temp ≡ select (on_node (is_answer now name type) c) h.nodes)
            × (s.detached ≡ not (is_nil (select (is_answer now name type) es)))
  unfolding qname_search
  qname_search-host_load since lists fresh lines =
      let (m, run, answered) = host_query-host_load since lists fresh lines now type name small in
      let hits = select (is_answer now name type) es in
      let temp = select (on_node (is_answer now name type) c) h.nodes in
      let spec = hosts_spec now name type (reverse_onto lines []) in
      (choose hits temp spec, rw (run, cache_query-type, answered), choose-prefer hits temp spec)
