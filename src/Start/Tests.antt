-- ===== src/Start/Tests.antt =====
-- The server started, and a request that a thread answers.
use dns_relay_server.Base.{
  ℕ, ◌+◌, ◌≡◌, refl, true, Option, none, some, List, [], ◌∷◌, ok, arith, All, ◌⊎◌, Returns, bind-ok,
}
use dns_relay_server.Start
use dns_relay_server.Entry.{text_eq, DnsEntry}
use dns_relay_server.Memory.Stored.{Stored, Stored-elements}
use dns_relay_server.Memory.Sample.{sample}
use dns_relay_server.Address.{load_text}
use dns_relay_server.Inet.Names.{wire, dotted}
use dns_relay_server.IdMap.{map_init}
use dns_relay_server.Console.{ℤ, Options, console_parse}
use dns_relay_server.Socket.{
  Socket, reuse_addr, send_timeout, sockaddr_init, socket_init, set_time_out,
}
use dns_relay_server.Start.Program.{main-Runs}
use dns_relay_server.Server.{Handled, get_qr}
use dns_relay_server.Server.Relay.{no_host}
use dns_relay_server.Server.Datagram.{Datagram, connect_datagram}
use dns_relay_server.Server.Cached.{connect_datagram-cached}
use dns_relay_server.Cache.{cache_rotate}
use dns_relay_server.Cache.Inv.{Holds}
use dns_relay_server.Cache.Steps.{Reach}
use dns_relay_server.Query.Steps.{at}
use dns_relay_server.Server.Forwarded.{connect_datagram-relay}
use dns_relay_server.Start.Sound.{Quiet, Runs-Reach}
use dns_relay_server.Server.Sample.{
  start, question, negative, negative_raw, negative_packet, negative_viewed, nothing_waits, entry,
  one, client, upstream, some_family, wire_quest, wire_quest-IsWireQuest, request_bytes,
  wire_answer,
}
use dns_relay_server.Start.{new_cache, System, Started, serving, host_init, main}
use dns_relay_server.Start.Main.{own_addr, IsStarted, main-bind}
use dns_relay_server.Start.Loop.{
  ThreadArgs, Event, not_set, received, Service, new_service, thread_create, received_in, round,
  finish, Runs,
}
use dns_relay_server.Start.Clients.{WasServer, CameFrom, Runs-clients}
use dns_relay_server.Start.Counts.{IsCounted, Runs-IsCounted}

abbrev sys : System
sys = record {
  socket = λ protocol. some 3;
  bind = λ fd addr. true;
  atoi = λ s. ℤ.pos 0;
  inet_addr = λ s. 8;
  host_file = none;
  list = λ i. entry;
  links = record { next = λ p. p; prev = λ p. p };
  lists = λ p. [];
  fresh = 100;
  stack = (0, 0);
}

abbrev blank : Socket
blank = record { fd = none; sin_family = 0; addr = record { sin_addr = 0; sin_port = 0 } }

abbrev options : Options
options = record {
  debug = 0;
  cache_len = ℤ.pos 2;
  local_dns_addr = sample 64 (57 ∷ []);
  host_dest = sample 255 [];
}

options_parsed : console_parse sys.atoi [] options ≡ ok options
unfolding console_parse
options_parsed = refl

address_read : load_text 9 options.local_dns_addr 0 ≡ ok (57 ∷ [])
unfolding load_text
address_read = refl

no_file : host_init sys 40 ≡ ok none
unfolding host_init
no_file = refl

main-bind_example :
    (st : Started) × (main sys 9 40 blank blank [] options ≡ ok (serving st))
    × IsStarted sys 9 40 blank blank [] options options
        (57 ∷ [])
        none
        options_parsed
        address_read
        no_file
        2
        st
main-bind_example =
    main-bind sys 9 40 blank blank [] options options (57 ∷ []) none options_parsed address_read
      no_file 2 refl

abbrev garbage : ℕ → ℕ
garbage i = 255

request_there : Stored (received_in garbage request_bytes) 0 request_bytes
request_there =
    Stored-elements request_bytes (received_in garbage request_bytes) 0
      (λ i b e. let here : 0 + i ≡ i = omega arith in rw (here, e))

-- The handler at the request.
abbrev answered_request :
    (r : Option Datagram × Handled) × (connect_datagram some_family some_family 65 garbage upstream
        (received_in garbage request_bytes)
        19
        2
        40
        client
        (no_host one.0 map_init)
      ≡ ok r)
unfolding text_eq wire dotted get_qr
answered_request =
    let (r, run, _) =
      connect_datagram-cached some_family some_family 65 garbage (omega arith)
        (received_in garbage request_bytes) 0 77 256 0 0 0 0 wire_quest (omega arith) refl refl
        wire_quest-IsWireQuest request_there (omega arith) (omega arith) upstream 2 40 client one.0
        map_init (entry ∷ []) entry [] (wire_answer ∷ []) one.2 refl
        (
          record {
            ip = 49 ∷ [];
            here = refl;
            no_zero = refl;
            short = omega arith;
            address = refl;
            four_bytes = refl;
            name = refl;
            type = refl;
            class = refl;
            ttl = refl;
          },
          tt,
        )
        (omega arith) in
    (r, run)

abbrev events : List Event
events = received request_bytes client ∷ not_set ∷ []

abbrev before_answer : Service
before_answer =
    round garbage (received request_bytes client) true
      (round garbage not_set true (new_service (no_host one.0 map_init) upstream true true))

abbrev after_answer : Service
after_answer = finish (true ∷ []) [] answered_request.0.0 answered_request.0.1 before_answer

abbrev job : ThreadArgs
job = record { buf = received_in garbage request_bytes; buf_len = 19; from = client }

abbrev begin : Service
begin = new_service (no_host one.0 map_init) upstream true true

one_answer : Runs some_family some_family 65 garbage 2 begin events after_answer
unfolding round thread_create new_service
one_answer =
    Runs.handled events before_answer [] job [] 40 (true ∷ []) answered_request.0.0
      answered_request.0.1
      (Runs.looped (not_set ∷ []) begin (received request_bytes client) true
        (Runs.looped [] begin not_set true Runs.begun))
      refl answered_request.1

Runs-clients_example :
    All
      (λ (d : Datagram).
        WasServer some_family some_family 65 garbage 2 begin events after_answer one_answer d.to
        ⊎ CameFrom events d.to)
      after_answer.sent
Runs-clients_example =
    Runs-clients some_family some_family 65 garbage 2 (no_host one.0 map_init) upstream true true
      refl events after_answer one_answer

Runs-IsCounted_example : IsCounted 2 after_answer
Runs-IsCounted_example =
    Runs-IsCounted some_family some_family 65 garbage upstream 2 (no_host one.0 map_init) true true
      events after_answer one_answer

-- The handler at the same request, when the cache is new.
abbrev forwarded_request :
    (r : Option Datagram × Handled) × (connect_datagram some_family some_family 65 garbage upstream
        (received_in garbage request_bytes)
        19
        2
        30
        client
        (no_host start.0 map_init)
      ≡ ok r)
unfolding map_init get_qr wire dotted
forwarded_request =
    let (done, both, _) =
      connect_datagram-relay some_family some_family 65 garbage upstream (omega arith)
        (received_in garbage request_bytes) 0 77 256 0 0 0 0 19 wire_quest (omega arith)
        (omega arith) (omega arith) refl (omega arith) wire_quest-IsWireQuest request_there
        (omega arith) (omega arith) 2 30 30 client upstream start.0 map_init []
        (sample 512 negative) 19 negative_raw.0 negative_packet question [] start.2 (omega arith)
        refl nothing_waits negative_raw.1 negative_viewed (omega arith) (refl, (refl, tt)) refl
        refl in
    let (r, run, _) =
      bind-ok
        (connect_datagram some_family some_family 65 garbage upstream
          (received_in garbage request_bytes) 19 2 30 client (no_host start.0 map_init))
        _ done both in
    (r, run)

abbrev fresh : Service
fresh = new_service (no_host start.0 map_init) upstream true true

abbrev waiting_request : Service
waiting_request = round garbage (received request_bytes client) true fresh

abbrev after_forward : Service
after_forward = finish (true ∷ []) [] forwarded_request.0.0 forwarded_request.0.1 waiting_request

one_forward :
    Runs some_family some_family 65 garbage 2 fresh
      (received request_bytes client ∷ [])
      after_forward
unfolding round thread_create new_service
one_forward =
    Runs.handled (received request_bytes client ∷ []) waiting_request [] job [] 30 (true ∷ [])
      forwarded_request.0.0 forwarded_request.0.1
      (Runs.looped [] fresh (received request_bytes client) true Runs.begun) refl
      forwarded_request.1

one_forward-Quiet :
    Quiet some_family some_family 65 garbage 2 fresh
      (received request_bytes client ∷ [])
      after_forward
      one_forward
unfolding one_forward
one_forward-Quiet = tt

Runs-Reach_example : Reach 2 (at after_forward.server.cache after_forward.rotations)
Runs-Reach_example =
    Runs-Reach some_family some_family 65 garbage 2 (omega arith) (no_host start.0 map_init)
      upstream true true (λ _. entry) sys.links start.1 (received request_bytes client ∷ [])
      after_forward one_forward one_forward-Quiet

-- What `main` comes to.
abbrev started : Started
started = record {
  server = no_host start.0 map_init;
  socket = record { fd = some 3; sin_family = 2; addr = own_addr };
  dns_server = upstream;
  options = options;
  calls = reuse_addr (some 3) 1 ∷ send_timeout (some 3) 2 0 ∷ [];
}

main-started : main sys 9 40 blank blank [] options ≡ ok (serving started)
unfolding main dns_relay_server.Start.start new_cache map_init sockaddr_init socket_init
    set_time_out
main-started = rw (options_parsed, address_read, start.1, no_file)

main-Runs_example :
    All
      (λ (d : Datagram).
        WasServer some_family some_family 65 garbage 2 fresh
          (received request_bytes client ∷ [])
          after_forward
          one_forward
          d.to
        ⊎ CameFrom (received request_bytes client ∷ []) d.to)
      after_forward.sent
    × ((entries : List DnsEntry) × Holds 2 after_forward.server.cache entries
        × All
            (λ temp.
              Returns
                (cache_rotate temp after_forward.server.cache)
                λ c. (entries' : List DnsEntry) × Holds 2 c entries')
            after_forward.rotations)
main-Runs_example =
    main-Runs sys 9 40 blank blank [] options started main-started some_family some_family 65
      garbage 2 true true (received request_bytes client ∷ []) after_forward one_forward refl
      (omega arith) one_forward-Quiet
