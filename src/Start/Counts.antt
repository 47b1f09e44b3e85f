-- ===== src/Start/Counts.antt =====
-- What the server has allocated, and its count of threads.
use dns_relay_server.Base.{
  ℕ, ◌+◌, ◌≡◌, ◌∙◌, ap, ◌==◌, refl, Bool, true, false, Bool-cases, inl, inr, List, [], ◌∷◌, length,
  length-parts, reverse_onto, arith,
}
use dns_relay_server.Net.{SockAddr}
use dns_relay_server.Address.{Family}
use dns_relay_server.Query.{one_if}
use dns_relay_server.Server.{Server}
use dns_relay_server.Start.Loop.{
  chosen, redirect, ThreadArgs, Event, not_selected, not_set, failed, received, Service,
  new_service, thread_create, thread_exit, round, finish, Runs,
}

-- One `thread_args` is allocated for each thread that has not run yet, and the threads are counted.
pub record IsCounted (helpers : ℕ) (s : Service) : Type 0 where
  pub args : s.args ≡ length s.jobs
  pub threads : s.threads ≡ helpers + length s.jobs + length s.rotations + s.detached

length-reverse_onto {ℓ} :
    {A : Type ℓ} (xs ys : List A) → length (reverse_onto xs ys) ≡ length xs + length ys
length-reverse_onto [] ys = omega arith
length-reverse_onto (x ∷ xs) ys = omega (arith, length-reverse_onto xs (x ∷ ys))

module _ (helpers : ℕ) where
  thread_create-IsCounted :
      (created : Bool) (job : ThreadArgs) (s : Service)
      → IsCounted helpers s
      → IsCounted helpers (thread_create created job (record s { args = s.args + 1 }))
  unfolding thread_create
  thread_create-IsCounted true job s h = record {
    args = omega (arith, h.args);
    threads = omega (arith, h.threads);
  }
  thread_create-IsCounted false job s h = record {
    args = omega (arith, h.args);
    threads = h.threads;
  }

  round-IsCounted :
      (contents : ℕ → ℕ) (e : Event) (created : Bool) (s : Service)
      → IsCounted helpers s
      → IsCounted helpers (round contents e created s)
  unfolding round
  round-IsCounted contents not_selected created s h = h
  round-IsCounted contents not_set created s h = h
  round-IsCounted contents failed created s h = record {
    args = omega (arith, h.args);
    threads = h.threads;
  }
  round-IsCounted contents (received bytes from) created s h =
      elim (Bool-cases (length bytes == 0)) [
        | inl empty ↦ rw empty (record { args = omega (arith, h.args); threads = h.threads })
        | inr others ↦ rw others (thread_create-IsCounted created _ s h)
      ]

module _ (v4 v6 : Family) (fuel : ℕ) (contents : ℕ → ℕ) (dns_server : SockAddr) (len : ℕ)
    (server : Server) (scan_created debug_created : Bool) where
  -- In a run in which no step is a fault, whatever the server receives, whether or not the threads of
  -- handlers and rotations can be created, and in whatever order they run, when those that query the
  -- host table can be created and each change of `__THREAD__` is one step: one `thread_args` is allocated for each handler that has not run yet,
  -- so each is freed once, and `__THREAD__` is the number of the two threads that were created at
  -- the beginning, of these handlers, of the rotations whose thread was created and has not run yet,
  -- and of the detached threads that query the host table and have not ended.
  pub Runs-IsCounted :
      (es : List Event) (s : Service)
      → Runs v4 v6 fuel contents len (new_service server dns_server scan_created debug_created) es s
      → IsCounted (one_if scan_created + one_if debug_created) s
  unfolding new_service finish thread_exit redirect
  Runs-IsCounted es s Runs.begun = record { args = refl; threads = omega arith }
  Runs-IsCounted es s (Runs.looped es' s' e created run) =
      round-IsCounted (one_if scan_created + one_if debug_created) contents e created s'
        (Runs-IsCounted es' s' run)
  Runs-IsCounted es s (Runs.handled es' s' before job after now created sent h run waits done) =
      let counted = Runs-IsCounted es' s' run in
      let jobs = ap length waits ∙ length-parts before job after in
      let total = length-reverse_onto (chosen created h.rotations) s'.rotations in
      record {
        args = omega (arith, counted.args, jobs);
        threads = omega (arith, counted.threads, jobs, total);
      }
  Runs-IsCounted es s (Runs.rotated es' s' before temp after c run waits done) =
      let counted = Runs-IsCounted es' s' run in
      let rotations = ap length waits ∙ length-parts before temp after in
      record { args = counted.args; threads = omega (arith, counted.threads, rotations) }
  Runs-IsCounted es s (Runs.scanned es' s' now c flag run done) =
      let counted = Runs-IsCounted es' s' run in
      record { args = counted.args; threads = counted.threads }
  Runs-IsCounted es s (Runs.flushed es' s' c run done) =
      let counted = Runs-IsCounted es' s' run in
      record { args = counted.args; threads = counted.threads }
  Runs-IsCounted es s (Runs.left es' s' others run waits) =
      let counted = Runs-IsCounted es' s' run in
      record { args = counted.args; threads = omega (arith, counted.threads, waits) }
  Runs-IsCounted es s (Runs.redirected es' s' address run) =
      let counted = Runs-IsCounted es' s' run in
      record { args = counted.args; threads = counted.threads }
