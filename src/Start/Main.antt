-- ===== src/Start/Main.antt =====
-- What `main` starts.
use dns_relay_server.Base.{
  ℕ, ◌≡◌, refl, ◌∙◌, Bool-cases, inl, inr, if◌then◌else◌, Option, none, some, List, [], ◌∷◌, ◌++◌,
  ok,
}
use dns_relay_server.Net.{SockAddr}
use dns_relay_server.Entry.{Text}
use dns_relay_server.Address.{load_text}
use dns_relay_server.IdMap.{map_init}
use dns_relay_server.Cache.Inv.{Holds}
use dns_relay_server.Cache.Insert.{cache_init-Holds}
use dns_relay_server.Host.{Hosts}
use dns_relay_server.Console.{ℤ, Options, console_parse}
use dns_relay_server.Socket.{
  Socket, Call, reuse_addr, send_timeout, sockaddr_init, socket_init, set_time_out,
}
use dns_relay_server.Start.{
  new_cache, System, Started, exited, serving, inaddr_any, ipproto_udp, host_init, start, main,
}

-- Port 53 in network order, as a little-endian host reads it.
abbrev pub port_53 : ℕ
port_53 = 13568

abbrev pub own_addr : SockAddr
own_addr = record { sin_addr = inaddr_any; sin_port = port_53 }

-- What `socketInit` asks of the system.
abbrev pub first_calls : Option ℕ → List Call
first_calls none = []
first_calls (some fd) = reuse_addr (some fd) 1 ∷ []

module _ (sys : System) (fuel now : ℕ) (blank zeroed : Socket) (args : List Text)
    (options₀ options : Options) (local : Text) (hosts : Option Hosts)
    (parsed : console_parse sys.atoi args options₀ ≡ ok options)
    (address : load_text fuel options.local_dns_addr 0 ≡ ok local)
    (loaded : host_init sys now ≡ ok hosts) where
  abbrev pub dns_addr : SockAddr
  dns_addr = record { sin_addr = sys.inet_addr local; sin_port = port_53 }

  -- The state at the beginning of the loop.
  pub record IsStarted (len : ℕ) (st : Started) : Type 0 where
    pub empty : Holds len st.server.cache []
    pub hosts_loaded : st.server.hosts ≡ hosts
    pub no_request : st.server.ids ≡ map_init
    pub descriptor : st.socket.fd ≡ sys.socket ipproto_udp
    pub bound_to : st.socket.addr ≡ own_addr
    pub upstream : st.dns_server ≡ dns_addr
    pub with_options : st.options ≡ options
    pub asked :
        st.calls
        ≡ first_calls (sys.socket ipproto_udp)
          ++ send_timeout (sys.socket ipproto_udp) 2 sys.stack.0 ∷ []

  main-start :
      (fd : Option ℕ)
      → sys.socket ipproto_udp ≡ fd
      → main sys fuel now blank zeroed args options₀
        ≡ start sys now
            (some (record { fd = fd; sin_family = 2; addr = own_addr }))
            dns_addr
            options
            (first_calls fd)
  unfolding main sockaddr_init socket_init
  main-start none e = rw (parsed, address, e)
  main-start (some fd) e = rw (parsed, address, e)

  -- `main` with arguments that are parsed, an address of the DNS server whose string is read, and a
  -- host file that is loaded or not there, and a capacity of the cache that is not negative: if `bind` of the socket, whether `socket` has returned
  -- one or -1, to port 53 of any address succeeds, the loop begins, and otherwise the program ends.
  -- At the beginning of the loop the cache is well formed and empty, the hosts are loaded, no request
  -- waits, the server has that socket and address and the DNS server port 53, and the options that
  -- were set are SO_REUSEADDR, if there is a socket, and SO_SNDTIMEO with two seconds.
  pub main-bind :
      (len : ℕ)
      → options.cache_len ≡ ℤ.pos len
      → (st : Started) × (main sys fuel now blank zeroed args options₀
          ≡ ok (if sys.bind (sys.socket ipproto_udp) own_addr then serving st else exited))
        × IsStarted len st
  unfolding start new_cache set_time_out
  main-bind len capacity =
      let fd = sys.socket ipproto_udp in
      let (c, made, empty) = cache_init-Holds len sys.list sys.links in
      let st : Started = record {
        server = record { cache = c; hosts = hosts; ids = map_init };
        socket = record { fd = fd; sin_family = 2; addr = own_addr };
        dns_server = dns_addr;
        options = options;
        calls = first_calls fd ++ send_timeout fd 2 sys.stack.0 ∷ [];
      } in
      (
        st,
        main-start fd refl ∙ elim (Bool-cases (sys.bind fd own_addr)) [
          | inl bound ↦ rw (bound, capacity, made, loaded)
          | inr free ↦ rw free
        ],
        record {
          empty = empty;
          hosts_loaded = refl;
          no_request = refl;
          descriptor = refl;
          bound_to = refl;
          upstream = refl;
          with_options = refl;
          asked = refl;
        },
      )
