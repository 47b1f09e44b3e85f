-- ===== src/Start/Clients.antt =====
-- Whom the server sends to, and what it holds, whatever it receives and in whatever order its threads
-- run.
use dns_relay_server.Base.{
  ℕ, ◌≡◌, ◌==◌, refl, Bool, true, false, Bool-cases, inl, inr, ◌⊎◌, Option, none, some, List, [],
  ◌∷◌, length, All, All-map, All-parts,
}
use dns_relay_server.Net.{SockAddr}
use dns_relay_server.Address.{Family}
use dns_relay_server.IdMap.{map_init}
use dns_relay_server.IdMap.Known.{AllWaiting}
use dns_relay_server.Server.{Server}
use dns_relay_server.Server.Datagram.{Datagram}
use dns_relay_server.Server.Known.{connect_datagram-SentTo, SentTo}
use dns_relay_server.Start.Loop.{
  redirect, ThreadArgs, Event, not_selected, not_set, failed, received, Service, thread_create,
  thread_exit, round, add, finish, new_service, Runs,
}

-- A datagram has come from the address.
abbrev pub CameFrom : List Event → SockAddr → Type 0
CameFrom [] a = ⊥
CameFrom (received bytes from ∷ es) a = (a ≡ from) ⊎ CameFrom es a
CameFrom (not_selected ∷ es) a = CameFrom es a
CameFrom (not_set ∷ es) a = CameFrom es a
CameFrom (failed ∷ es) a = CameFrom es a

-- The address of the DNS server at the beginning of the run, and those that it was given.
abbrev pub WasServer :
    (v4 v6 : Family) (fuel : ℕ) (contents : ℕ → ℕ) (len : ℕ) (begin : Service) (es : List Event)
    (s : Service)
    → Runs v4 v6 fuel contents len begin es s
    → SockAddr
    → Type 0
WasServer v4 v6 fuel contents len begin es s Runs.begun a = a ≡ begin.dns_server
WasServer v4 v6 fuel contents len begin es s (Runs.looped es' s' e created run) a =
    WasServer v4 v6 fuel contents len begin es' s' run a
WasServer v4 v6 fuel contents len begin es s
      (Runs.handled es' s' before job after now created sent h run waits done) a =
    WasServer v4 v6 fuel contents len begin es' s' run a
WasServer v4 v6 fuel contents len begin es s
      (Runs.rotated es' s' before temp after c run waits done) a =
    WasServer v4 v6 fuel contents len begin es' s' run a
WasServer v4 v6 fuel contents len begin es s (Runs.scanned es' s' now c flag run done) a =
    WasServer v4 v6 fuel contents len begin es' s' run a
WasServer v4 v6 fuel contents len begin es s (Runs.flushed es' s' c run done) a =
    WasServer v4 v6 fuel contents len begin es' s' run a
WasServer v4 v6 fuel contents len begin es s (Runs.left es' s' others run waits) a =
    WasServer v4 v6 fuel contents len begin es' s' run a
WasServer v4 v6 fuel contents len begin es s (Runs.redirected es' s' address run) a =
    (a ≡ record s'.dns_server { sin_addr = address })
    ⊎ WasServer v4 v6 fuel contents len begin es' s' run a

module _ (Was : SockAddr → Type 0) where
  pub record IsKnown (es : List Event) (s : Service) : Type 0 where
    pub upstream : Was s.dns_server
    pub jobs : All (λ (job : ThreadArgs). CameFrom es job.from) s.jobs
    pub waiting : AllWaiting (CameFrom es) s.server.ids
    pub sent : All (λ (d : Datagram). Was d.to ⊎ CameFrom es d.to) s.sent

  later : (es : List Event) (e : Event) (a : SockAddr) → CameFrom es a → CameFrom (e ∷ es) a
  later es not_selected a h = h
  later es not_set a h = h
  later es failed a h = h
  later es (received bytes from) a h = inr h

  IsKnown-later : (es : List Event) (e : Event) (s : Service) → IsKnown es s → IsKnown (e ∷ es) s
  IsKnown-later es e s h = record {
    upstream = h.upstream;
    jobs = All-map _ _ s.jobs (λ job. later es e job.from) h.jobs;
    waiting = λ i node at. later es e node.from (h.waiting i node at);
    sent =
        All-map _ _ s.sent
          (λ d to. elim to [ inl own ↦ inl own | inr known ↦ inr (later es e d.to known) ]) h.sent;
  }

  thread_create-IsKnown :
      (es : List Event) (created : Bool) (job : ThreadArgs) (s : Service)
      → CameFrom es job.from
      → IsKnown es s
      → IsKnown es (thread_create created job s)
  unfolding thread_create
  thread_create-IsKnown es true job s from h = record {
    upstream = h.upstream;
    jobs = (from, h.jobs);
    waiting = h.waiting;
    sent = h.sent;
  }
  thread_create-IsKnown es false job s from h = record {
    upstream = h.upstream;
    jobs = h.jobs;
    waiting = h.waiting;
    sent = h.sent;
  }

  round-IsKnown :
      (contents : ℕ → ℕ) (es : List Event) (e : Event) (created : Bool) (s : Service)
      → IsKnown es s
      → IsKnown (e ∷ es) (round contents e created s)
  unfolding round
  round-IsKnown contents es not_selected created s h = record {
    upstream = h.upstream;
    jobs = h.jobs;
    waiting = h.waiting;
    sent = h.sent;
  }
  round-IsKnown contents es not_set created s h = record {
    upstream = h.upstream;
    jobs = h.jobs;
    waiting = h.waiting;
    sent = h.sent;
  }
  round-IsKnown contents es failed created s h = record {
    upstream = h.upstream;
    jobs = h.jobs;
    waiting = h.waiting;
    sent = h.sent;
  }
  round-IsKnown contents es (received bytes from) created s h =
      let h' = IsKnown-later es (received bytes from) s h in
      elim (Bool-cases (length bytes == 0)) [
        | inl empty ↦ rw empty (record {
          upstream = h'.upstream;
          jobs = h'.jobs;
          waiting = h'.waiting;
          sent = h'.sent;
        })
        | inr others ↦ rw others (
            thread_create-IsKnown (received bytes from ∷ es) created _ _ (inl refl) (record {
              upstream = h'.upstream;
              jobs = h'.jobs;
              waiting = h'.waiting;
              sent = h'.sent;
            }))
      ]

  add-sent :
      (P R : SockAddr → Type 0) (weaker : (a : SockAddr) → P a → R a) (sent : Option Datagram)
      (ds : List Datagram)
      → SentTo P sent
      → All (λ (d : Datagram). R d.to) ds
      → All (λ (d : Datagram). R d.to) (add sent ds)
  add-sent P R weaker none ds to all = all
  add-sent P R weaker (some d) ds to all = (weaker d.to to, all)

module _ (v4 v6 : Family) (fuel : ℕ) (contents : ℕ → ℕ) (len : ℕ) (server : Server)
    (dns_server : SockAddr) (scan_created debug_created : Bool) (new : server.ids ≡ map_init) where
  abbrev first : Service
  first = new_service server dns_server scan_created debug_created

  abbrev Was :
      (es : List Event) (s : Service) → Runs v4 v6 fuel contents len first es s → SockAddr → Type 0
  Was es s run a = WasServer v4 v6 fuel contents len first es s run a

  new_service-IsKnown : IsKnown (λ a. a ≡ first.dns_server) [] first
  unfolding new_service map_init
  new_service-IsKnown = record {
    upstream = refl;
    jobs = tt;
    waiting = λ i node at. let bad : none ≡ some node = rw new at at in absurd (cc bad);
    sent = tt;
  }

  Runs-IsKnown :
      (es : List Event) (s : Service) (run : Runs v4 v6 fuel contents len first es s)
      → IsKnown (Was es s run) es s
  unfolding finish thread_exit redirect
  Runs-IsKnown es s Runs.begun = new_service-IsKnown
  Runs-IsKnown es s (Runs.looped es' s' e created run) =
      round-IsKnown (Was es' s' run) contents es' e created s' (Runs-IsKnown es' s' run)
  Runs-IsKnown es s (Runs.handled es' s' before job after now created sent h run waits done) =
      let known = Runs-IsKnown es' s' run in
      let (from, others) = All-parts _ before job after (rw waits at known.jobs) in
      let (to, waiting) =
        connect_datagram-SentTo (CameFrom es') v4 v6 fuel contents s'.dns_server job.buf job.buf_len
          len now job.from s'.server sent h from known.waiting done in
      record {
        upstream = known.upstream;
        jobs = others;
        waiting = waiting;
        sent =
            add-sent (Was es' s' run) (λ a. (a ≡ s'.dns_server) ⊎ CameFrom es' a)
              (λ a. Was es' s' run a ⊎ CameFrom es' a)
              (λ a to. elim to [ inl own ↦ inl (rw own known.upstream) | inr client ↦ inr client ])
              sent s'.sent to known.sent;
      }
  Runs-IsKnown es s (Runs.rotated es' s' before temp after c run waits done) =
      let k = Runs-IsKnown es' s' run in
      record { upstream = k.upstream; jobs = k.jobs; waiting = k.waiting; sent = k.sent }
  Runs-IsKnown es s (Runs.scanned es' s' now c flag run done) =
      let k = Runs-IsKnown es' s' run in
      record { upstream = k.upstream; jobs = k.jobs; waiting = k.waiting; sent = k.sent }
  Runs-IsKnown es s (Runs.flushed es' s' c run done) =
      let k = Runs-IsKnown es' s' run in
      record { upstream = k.upstream; jobs = k.jobs; waiting = k.waiting; sent = k.sent }
  Runs-IsKnown es s (Runs.left es' s' others run waits) =
      let k = Runs-IsKnown es' s' run in
      record { upstream = k.upstream; jobs = k.jobs; waiting = k.waiting; sent = k.sent }
  Runs-IsKnown es s (Runs.redirected es' s' address run) =
      let k = Runs-IsKnown es' s' run in
      record {
        upstream = inl refl;
        jobs = k.jobs;
        waiting = k.waiting;
        sent =
            All-map _ _ s'.sent
              (λ d to. elim to [ inl was ↦ inl (inr was) | inr client ↦ inr client ]) k.sent;
      }

  -- The server begins without a waiting request. In a run in which no step is a fault, whatever it
  -- receives, whether or not the threads of its handlers and rotations can be created, and in
  -- whatever order they run: each datagram that it has sent went to the address of the DNS server at
  -- the beginning, to one that the command "server" has set, or to one from which a datagram has
  -- come.
  pub Runs-clients :
      (es : List Event) (s : Service) (run : Runs v4 v6 fuel contents len first es s)
      → All
          (λ (d : Datagram).
            WasServer v4 v6 fuel contents len first es s run d.to ⊎ CameFrom es d.to)
          s.sent
  Runs-clients es s run = (Runs-IsKnown es s run).sent
