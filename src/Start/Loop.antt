-- ===== src/Start/Loop.antt =====
-- The loop of `start` in src/Server/basic.c with the threads that it starts, and `threadCreate` and
-- `threadExit` of src/Utils/thread.c. A thread runs its handler at some later time, and the handlers
-- of several threads in any order, each as one step; so do the rotations that they start. The
-- thread that queries the host table starts within its handler's step, and can be created; it ends
-- there too, or it is detached and ends later. What it then writes through pointers to the variables
-- of `qnameSearch` is not modelled.
use dns_relay_server.Base.{
  suc, ℕ, ◌+◌, ◌-◌, ◌≡◌, ◌==◌, Bool, true, false, if◌then◌else◌, Option, none, some, List, [], ◌∷◌,
  ◌++◌, length, get_elem?, reverse_onto, ok,
}
use dns_relay_server.Net.{SockAddr}
use dns_relay_server.Entry.{Text}
use dns_relay_server.Memory.{Memory}
use dns_relay_server.Address.{Family}
use dns_relay_server.Cache.{Cache, cache_flush, cache_rotate, cache_scan}
use dns_relay_server.Query.{one_if}
use dns_relay_server.Server.{Server, Handled}
use dns_relay_server.Server.Datagram.{Datagram, connect_datagram}

-- BUFFER_SIZE.
abbrev pub buffer_size : ℕ
buffer_size = 1024

-- `thread_args`, with the address of `connect`.
pub record ThreadArgs : Type 0 where
  pub buf : Memory
  pub buf_len : ℕ
  pub from : SockAddr

-- What `select`, FD_ISSET and `recvfrom` give: no socket, another socket, an error, or the bytes of
-- a datagram, at most BUFFER_SIZE of them, and where it comes from.
pub data Event : Type 0 where
  not_selected : Event
  not_set : Event
  failed : Event
  received : Text → SockAddr → Event

-- The memory of the server: `jobs` are the arguments of the threads that have not run yet,
-- `rotations` the nodes of the rotations that have not run yet, the last first,
-- `detached` the number of the detached threads that have not ended, `args` the number of `thread_args`
-- that are allocated and not freed, `sent` what was sent, the last first.
pub record Service : Type 0 where
  pub server : Server
  pub jobs : List ThreadArgs
  pub rotations : List (List ℕ)
  pub detached : ℕ
  pub threads : ℕ
  pub args : ℕ
  pub sent : List Datagram
  pub dns_server : SockAddr

-- Before the loop, after `threadCreate` for `cacheScanHandle` and for `debugHandle`.
unfoldable pub new_service : Server → SockAddr → (scan_created debug_created : Bool) → Service
new_service server dns_server scan_created debug_created = record {
  server = server;
  jobs = [];
  rotations = [];
  detached = 0;
  threads = one_if scan_created + one_if debug_created;
  args = 0;
  sent = [];
  dns_server = dns_server;
}

-- `threadCreate(connectHandle, args)`: whether `pthread_create` succeeds is given.
unfoldable pub thread_create : (created : Bool) → ThreadArgs → Service → Service
thread_create true job s = record s { jobs = job ∷ s.jobs; threads = s.threads + 1 }
thread_create false job s = record s { args = s.args - 1 }

-- `-- __THREAD__`.
unfoldable pub thread_exit : Service → Service
thread_exit s = record s { threads = s.threads - 1 }

module _ (contents : ℕ → ℕ) where
  -- The array `buf` of new arguments, after `recvfrom`.
  abbrev pub received_in : Text → Memory
  received_in bytes = record {
    size = buffer_size;
    at = λ i. elim (get_elem? bytes i) [ none ↦ contents i | some b ↦ b ];
  }

  -- One round of the loop.
  unfoldable pub round : Event → (created : Bool) → Service → Service
  round not_selected created s = s
  round not_set created s = s
  round failed created s =
      let s' = record s { args = s.args + 1 } in record s' { args = s'.args - 1 }
  round (received bytes from) created s =
      let s' = record s { args = s.args + 1 } in
      let job : ThreadArgs = record {
        buf = received_in bytes;
        buf_len = length bytes;
        from = from;
      } in
      if length bytes == 0 then record s' { args = s'.args - 1 } else thread_create created job s'

abbrev pub add : Option Datagram → List Datagram → List Datagram
add none sent = sent
add (some d) sent = d ∷ sent

-- The rotations whose threads are created; nothing is known of those behind the list of answers, and
-- they count as not created.
abbrev pub chosen : (created : List Bool) → List (List ℕ) → List (List ℕ)
chosen [] rotations = []
chosen (b ∷ created) [] = []
chosen (true ∷ created) (temp ∷ rotations) = temp ∷ chosen created rotations
chosen (false ∷ created) (temp ∷ rotations) = chosen created rotations

-- The end of `connectHandle`: the arguments are freed, and the thread exits. Which of the threads for
-- its rotations `pthread_create` has created is given.
unfoldable pub finish :
    (created : List Bool) (others : List ThreadArgs) → Option Datagram → Handled → Service → Service
finish created others sent h s = thread_exit (record s {
  server = h.server;
  jobs = others;
  rotations = reverse_onto (chosen created h.rotations) s.rotations;
  detached = s.detached + h.detached;
  threads = s.threads + length (chosen created h.rotations) + h.detached;
  args = s.args - 1;
  sent = add sent s.sent;
})

-- The command "server" of `debugHandle` with an address that `inet_addr` reads.
unfoldable pub redirect : (address : ℕ) → Service → Service
redirect address s = record s { dns_server = record s.dns_server { sin_addr = address } }

module _ (v4 v6 : Family) (fuel : ℕ) (contents : ℕ → ℕ) (len : ℕ) where
  -- A round of the loop, a handler, a rotation, a scan of the thread `cacheScanHandle`, or the
  -- command "flush" or "server" of `debugHandle`. The list is that of the events of the loop. These
  -- are the runs in which no step has been a fault; a handler that does not end stays among the jobs.
  pub data Runs (begin : Service) : List Event → Service → Type 0 where
    begun : Runs begin [] begin
    looped :
        (es : List Event) (s : Service) (e : Event) (created : Bool)
        → Runs begin es s
        → Runs begin (e ∷ es) (round contents e created s)
    handled :
        (es : List Event) (s : Service) (before : List ThreadArgs) (job : ThreadArgs)
        (after : List ThreadArgs) (now : ℕ) (created : List Bool) (sent : Option Datagram)
        (h : Handled)
        → Runs begin es s
        → s.jobs ≡ before ++ job ∷ after
        → connect_datagram v4 v6 fuel contents s.dns_server job.buf job.buf_len len now job.from
            s.server
          ≡ ok (sent, h)
        → Runs begin es (finish created (before ++ after) sent h s)
    rotated :
        (es : List Event) (s : Service) (before : List (List ℕ)) (temp : List ℕ)
        (after : List (List ℕ)) (c : Cache)
        → Runs begin es s
        → s.rotations ≡ before ++ temp ∷ after
        → cache_rotate temp s.server.cache ≡ ok c
        → Runs begin es (
            thread_exit
              (record s { server = record s.server { cache = c }; rotations = before ++ after }))
    scanned :
        (es : List Event) (s : Service) (now : ℕ) (c : Cache) (flag : Bool)
        → Runs begin es s
        → cache_scan len now s.server.cache ≡ ok (c, flag)
        → Runs begin es (record s { server = record s.server { cache = c } })
    flushed :
        (es : List Event) (s : Service) (c : Cache)
        → Runs begin es s
        → cache_flush len s.server.cache ≡ ok c
        → Runs begin es (record s { server = record s.server { cache = c } })
    left :
        (es : List Event) (s : Service) (others : ℕ)
        → Runs begin es s
        → s.detached ≡ suc others
        → Runs begin es (thread_exit (record s { detached = others }))
    redirected :
        (es : List Event) (s : Service) (address : ℕ)
        → Runs begin es s
        → Runs begin es (redirect address s)
