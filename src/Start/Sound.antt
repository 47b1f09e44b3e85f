-- ===== src/Start/Sound.antt =====
-- Every run of the server is a run of its cache.
use mathlib.Core.List.{append_assoc}
use dns_relay_server.Base.{
  reverse_onto, sym, ap, ◌∙◌, ◌++◌, ◌∷◌, refl, ℕ, All, ◌<◌, ◌≡◌, ◌==◌, Bool, true, false,
  Bool-cases, inl, inr, length, List, [], ok, Returns,
}
use dns_relay_server.Net.{SockAddr}
use dns_relay_server.Entry.{DnsEntry}
use dns_relay_server.Ring.{Links}
use dns_relay_server.Address.{Family}
use dns_relay_server.Cache.{Cache, cache_init, cache_rotate}
use dns_relay_server.Cache.Steps.{Step, Reach}
use dns_relay_server.Cache.Safe.{Reach-Holds}
use dns_relay_server.Cache.Inv.{Holds}
use dns_relay_server.Query.Steps.{at}
use dns_relay_server.Server.{Server}
use dns_relay_server.Server.CacheSteps.{connect_datagram-Reach}
use dns_relay_server.Start.Loop.{
  chosen, redirect, Event, Service, new_service, not_selected, not_set, failed, received,
  thread_create, thread_exit, round, finish, Runs,
}

reverse_onto-append {ℓ} :
    {A : Type ℓ} (xs ys : List A) → reverse_onto xs ys ≡ reverse_onto xs [] ++ ys
reverse_onto-append [] ys = refl
reverse_onto-append (x ∷ xs) ys =
    reverse_onto-append xs (x ∷ ys)
    ∙ (sym (append_assoc (reverse_onto xs []) (x ∷ []) ys)
        ∙ ap (λ zs. zs ++ ys) (sym (reverse_onto-append xs (x ∷ []))))

module _ (v4 v6 : Family) (fuel : ℕ) (contents : ℕ → ℕ) (len : ℕ) where
  -- A scan comes only while no rotation waits, and the cache is not flushed.
  abbrev pub Quiet :
      (begin : Service) (es : List Event) (s : Service)
      → Runs v4 v6 fuel contents len begin es s
      → Type 0
  Quiet begin es s Runs.begun = Unit
  Quiet begin es s (Runs.looped es' s' e created run) = Quiet begin es' s' run
  Quiet begin es s (Runs.handled es' s' before job after now created sent h run waits done) =
      Quiet begin es' s' run
  Quiet begin es s (Runs.rotated es' s' before temp after c run waits done) = Quiet begin es' s' run
  Quiet begin es s (Runs.scanned es' s' now c flag run done) =
      (s'.rotations ≡ []) × Quiet begin es' s' run
  Quiet begin es s (Runs.flushed es' s' c run done) = ⊥
  Quiet begin es s (Runs.left es' s' others run waits) = Quiet begin es' s' run
  Quiet begin es s (Runs.redirected es' s' address run) = Quiet begin es' s' run

  round-cache :
      (e : Event) (created : Bool) (s : Service)
      → Reach len (at s.server.cache s.rotations)
      → Reach len
          (at (round contents e created s).server.cache (round contents e created s).rotations)
  unfolding round thread_create
  round-cache not_selected created s h = h
  round-cache not_set created s h = h
  round-cache failed created s h = h
  round-cache (received bytes from) true s h = elim (Bool-cases (length bytes == 0)) [
    | inl empty ↦ rw empty h
    | inr others ↦ rw others h
  ]
  round-cache (received bytes from) false s h = elim (Bool-cases (length bytes == 0)) [
    | inl empty ↦ rw empty h
    | inr others ↦ rw others h
  ]

  drop-Reach :
      (temp : List ℕ) (rotations waiting : List (List ℕ)) (c : Cache)
      → Reach len (at c (reverse_onto rotations (temp ∷ waiting)))
      → Reach len (at c (reverse_onto rotations waiting))
  drop-Reach temp rotations waiting c reached = rw (reverse_onto-append rotations waiting) (
      Reach.stepped _ _ reached (
        Step.dropped (reverse_onto rotations []) temp waiting
          (reverse_onto-append rotations (temp ∷ waiting))))

  -- Rotations whose threads are not created do not wait.
  chosen-Reach :
      (created : List Bool) (rotations waiting : List (List ℕ)) (c : Cache)
      → Reach len (at c (reverse_onto rotations waiting))
      → Reach len (at c (reverse_onto (chosen created rotations) waiting))
  chosen-Reach [] [] waiting c reached = reached
  chosen-Reach [] (temp ∷ rotations) waiting c reached =
      chosen-Reach [] rotations waiting c (drop-Reach temp rotations waiting c reached)
  chosen-Reach (b ∷ created) [] waiting c reached = reached
  chosen-Reach (true ∷ created) (temp ∷ rotations) waiting c reached =
      chosen-Reach created rotations (temp ∷ waiting) c reached
  chosen-Reach (false ∷ created) (temp ∷ rotations) waiting c reached =
      chosen-Reach created rotations waiting c (drop-Reach temp rotations waiting c reached)

  module _ (pos : 0 < len) (server : Server) (dns_server : SockAddr)
      (scan_created debug_created : Bool) (list : ℕ → DnsEntry) (links : Links)
      (new : cache_init list links ≡ ok server.cache) where
    -- For a capacity that is not 0, a server that begins with the cache of `cacheInit`, and a run in
    -- which no step is a fault, scans come only while no rotation waits and the cache is not flushed:
    -- whatever the server has received, whichever threads of handlers and rotations could be created,
    -- and in whatever order they have run, the cache and the
    -- rotations that wait are a state that insertions, queries, rotations,
    -- such scans, and rotations that are dropped reach.
    pub Runs-Reach :
        (es : List Event) (s : Service)
        (run : Runs v4 v6 fuel contents len
          (new_service server dns_server scan_created debug_created)
          es
          s)
        → Quiet (new_service server dns_server scan_created debug_created) es s run
        → Reach len (at s.server.cache s.rotations)
    unfolding new_service finish thread_exit redirect
    Runs-Reach es s Runs.begun quiet = Reach.begun list links server.cache new
    Runs-Reach es s (Runs.looped es' s' e created run) quiet =
        round-cache e created s' (Runs-Reach es' s' run quiet)
    Runs-Reach es s (Runs.handled es' s' before job after now created sent h run waits done) quiet =
        let reached =
          connect_datagram-Reach len now pos s'.rotations s'.server (Runs-Reach es' s' run quiet) v4
            v6 fuel contents s'.dns_server job.buf job.buf_len job.from sent h done in
        chosen-Reach created h.rotations s'.rotations h.server.cache reached
    Runs-Reach es s (Runs.rotated es' s' before temp after c run waits done) quiet =
        Reach.stepped _ _ (Runs-Reach es' s' run quiet)
          (Step.rotated before temp after c waits done)
    Runs-Reach es s (Runs.scanned es' s' now c flag run done) quiet =
        Reach.stepped _ _ (Runs-Reach es' s' run quiet.1) (Step.scanned now c flag quiet.0 done)
    Runs-Reach es s (Runs.flushed es' s' c run done) quiet = absurd quiet
    Runs-Reach es s (Runs.left es' s' others run waits) quiet = Runs-Reach es' s' run quiet
    Runs-Reach es s (Runs.redirected es' s' address run) quiet = Runs-Reach es' s' run quiet

    -- In such a run, whatever the server has received and in whatever order its threads have run:
    -- the cache is well formed, and each rotation that waits can run without a fault and leaves it
    -- well formed.
    pub Runs-Holds :
        (es : List Event) (s : Service)
        (run : Runs v4 v6 fuel contents len
          (new_service server dns_server scan_created debug_created)
          es
          s)
        → Quiet (new_service server dns_server scan_created debug_created) es s run
        → (entries : List DnsEntry) × Holds len s.server.cache entries
          × All
              (λ temp.
                Returns
                  (cache_rotate temp s.server.cache)
                  λ c. (entries' : List DnsEntry) × Holds len c entries')
              s.rotations
    Runs-Holds es s run quiet = Reach-Holds len pos _ (Runs-Reach es s run quiet)
