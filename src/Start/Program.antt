-- ===== src/Start/Program.antt =====
-- The program from `main` on.
use dns_relay_server.Base.{
  ℕ, ◌<◌, ◌≡◌, ◌≢◌, ◌∙◌, sym, ap, Bool, Bool-cases, inl, inr, ◌⊎◌, All, Option, none, some, List,
  ok, bind-ok, ok-same, Returns,
}
use dns_relay_server.Net.{SockAddr}
use dns_relay_server.Entry.{Text, DnsEntry}
use dns_relay_server.Address.{Family, load_text}
use dns_relay_server.IdMap.{map_init}
use dns_relay_server.Ring.{Links}
use dns_relay_server.Cache.{Cache, cache_init, cache_rotate}
use dns_relay_server.Cache.Inv.{Holds}
use dns_relay_server.Console.{ℤ, Options, console_parse}
use dns_relay_server.Socket.{Socket, Call}
use dns_relay_server.Server.Datagram.{Datagram}
use dns_relay_server.Start.{new_cache, System, Started, exited, serving, host_init, start, main}
use dns_relay_server.Start.Loop.{Event, Service, new_service, Runs}
use dns_relay_server.Start.Clients.{WasServer, CameFrom, Runs-clients}
use dns_relay_server.Start.Sound.{Quiet, Runs-Holds}

not_serving : (st : Started) → exited ≢ serving st
not_serving st e = cc e

serving-same : (s t : Started) → serving s ≡ serving t → s ≡ t
serving-same s t e = cc e

new_cache-cache_init :
    (len : ℤ) (list : ℕ → DnsEntry) (links : Links) (c : Cache)
    → new_cache len list links ≡ ok c
    → cache_init list links ≡ ok c
unfolding new_cache
new_cache-cache_init (ℤ.pos len) list links c made = made
new_cache-cache_init (ℤ.negsuc n) list links c made = absurd (cc made)

-- The server that `start` has made, when its loop begins.
start-server :
    (sys : System) (now : ℕ) (s : Option Socket) (dns_server : SockAddr) (options : Options)
    (calls : List Call) (st : Started)
    → start sys now s dns_server options calls ≡ ok (serving st)
    → (cache_init sys.list sys.links ≡ ok st.server.cache)
      × (st.server.ids ≡ map_init)
      × (st.dns_server ≡ dns_server)
unfolding start
start-server sys now none dns_server options calls st run =
    absurd (not_serving st (ok-same exited (serving st) run))
start-server sys now (some s) dns_server options calls st run =
    elim (Bool-cases (sys.bind s.fd s.addr)) [
      | inr free ↦ absurd (not_serving st (ok-same exited (serving st) (rw free at run)))
      | inl bound ↦
          let (cache, made, rest) =
            bind-ok (new_cache options.cache_len sys.list sys.links) _ (serving st)
              (rw bound at run) in
          let (hosts, _, rest') = bind-ok (host_init sys now) _ (serving st) rest in
          let same = serving-same _ st (ok-same _ (serving st) rest') in
          (
            new_cache-cache_init options.cache_len sys.list sys.links cache made
                ∙ ap (λ (t : Started). ok t.server.cache) same,
            sym (ap (λ (t : Started). t.server.ids) same),
            sym (ap (λ (t : Started). t.dns_server) same),
          )
    ]

module _ (sys : System) (fuel now : ℕ) (blank zeroed : Socket) (args : List Text)
    (options₀ : Options) (st : Started)
    (begun : main sys fuel now blank zeroed args options₀ ≡ ok (serving st)) where
  main-server : (cache_init sys.list sys.links ≡ ok st.server.cache) × (st.server.ids ≡ map_init)
  unfolding main
  main-server =
      let (options, _, rest) =
        bind-ok (console_parse sys.atoi args options₀) _ (serving st) begun in
      let (local, _, rest') =
        bind-ok (load_text fuel options.local_dns_addr 0) _ (serving st) rest in
      let (made, ids, _) = start-server sys now _ _ options _ st rest' in (made, ids)

  -- The program has come from `main` to the loop, with a capacity of the cache that is not 0, in a
  -- run in which no step is a fault, scans come only while no rotation waits and the cache is not
  -- flushed: whatever it receives, whether or not the threads of its handlers and rotations can be
  -- created, and in whatever order they run, each datagram that it has sent went to the address of
  -- the DNS server at the beginning, to one that the command "server" has set, or to one from which
  -- a datagram has come, the cache is well formed, and each rotation that waits can run without a fault and leaves
  -- it well formed.
  pub main-Runs :
      (v4 v6 : Family) (fuel' : ℕ) (contents : ℕ → ℕ) (len : ℕ) (scan_created debug_created : Bool)
      (es : List Event) (s : Service)
      (run : Runs v4 v6 fuel' contents len
        (new_service st.server st.dns_server scan_created debug_created)
        es
        s)
      → st.options.cache_len ≡ ℤ.pos len
      → 0 < len
      → Quiet v4 v6 fuel' contents len
          (new_service st.server st.dns_server scan_created debug_created)
          es
          s
          run
      → All
          (λ (d : Datagram).
            WasServer v4 v6 fuel' contents len
              (new_service st.server st.dns_server scan_created debug_created)
              es
              s
              run
              d.to
            ⊎ CameFrom es d.to)
          s.sent
        × ((entries : List DnsEntry) × Holds len s.server.cache entries
            × All
                (λ temp.
                  Returns
                    (cache_rotate temp s.server.cache)
                    λ c. (entries' : List DnsEntry) × Holds len c entries')
                s.rotations)
  main-Runs v4 v6 fuel' contents len scan_created debug_created es s run capacity pos quiet =
      let (made, empty) = main-server in
      (
        Runs-clients v4 v6 fuel' contents len st.server st.dns_server scan_created debug_created
            empty es s run,
        Runs-Holds v4 v6 fuel' contents len pos st.server st.dns_server scan_created debug_created
            sys.list sys.links made es s run quiet,
      )
