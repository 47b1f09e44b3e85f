-- ===== src/Start.antt =====
-- The start of the server: `main` of src/main.c, and `start` of src/Server/basic.c up to its loop.
-- What the system, the C library and the file system answer is given as a `System`. The variables
-- of src/Server/basic.c have their initial values, those that the options set in `Options`.
pub mod Main
pub mod Loop
pub mod Clients
pub mod Counts
pub mod Sound
pub mod Program
mod Tests
use dns_relay_server.Base.{
  fault, ℕ, Bool, if◌then◌else◌, Option, none, some, List, [], ◌∷◌, ◌++◌, Run, ok, ◌>>=◌,
}
use dns_relay_server.Net.{SockAddr}
use dns_relay_server.Entry.{Text, DnsEntry}
use dns_relay_server.Ring.{Links}
use dns_relay_server.Address.{load_text}
use dns_relay_server.IdMap.{map_init}
use dns_relay_server.Cache.{Cache, cache_init}
use dns_relay_server.Host.{Hosts, no_hosts, host_load}
use dns_relay_server.Console.{ℤ, Options, console_parse}
use dns_relay_server.Server.{Server}
use dns_relay_server.Socket.{Socket, Call, sockaddr_init, socket_init, set_time_out}

-- `socket` and `bind`, `atoi` and `inet_addr`, the lines of the host file if it can be opened, the
-- memory that `malloc` returns for the cache and the lists of the host table, and what the stack
-- holds.
pub record System : Type 0 where
  pub socket : ℕ → Option ℕ
  pub bind : Option ℕ → SockAddr → Bool
  pub atoi : Text → ℤ
  pub inet_addr : Text → ℕ
  pub host_file : Option (List (Option Text × Option Text))
  pub list : ℕ → DnsEntry
  pub links : Links
  pub lists : ℕ → List DnsEntry
  pub fresh : ℕ
  pub stack : ℕ × ℕ

-- INADDR_ANY and IPPROTO_UDP.
abbrev pub inaddr_any : ℕ
inaddr_any = 0

abbrev pub ipproto_udp : ℕ
ipproto_udp = 17

-- The server behind the beginning of `start`: its socket, the address of the DNS server, the
-- options, and the calls that were made.
pub record Started : Type 0 where
  pub server : Server
  pub socket : Socket
  pub dns_server : SockAddr
  pub options : Options
  pub calls : List Call

-- The program ends with `exit(-1)`, or the loop begins.
pub data Outcome : Type 0 where
  exited : Outcome
  serving : Started → Outcome

-- `hostInit`; `none` is its result -1, after which `__HOST_EXIST__` is 0.
unfoldable pub host_init : System → (now : ℕ) → Run (Option Hosts)
host_init sys now = elim sys.host_file [
  | none ↦ ok none
  | some lines ↦ do m ← host_load now lines (no_hosts sys.lists sys.fresh); ok (some m)
]

-- `cacheInit` for the value of `__CACHE_LEN__`. For a negative one `malloc` is asked for more than
-- there is, and `memset` is given the NULL that it returns.
unfoldable pub new_cache : ℤ → (list : ℕ → DnsEntry) (links : Links) → Run Cache
new_cache (ℤ.pos len) list links = cache_init list links
new_cache (ℤ.negsuc n) list links = fault

-- `start` for the socket that `main` has made, up to the loop. A NULL does not occur.
unfoldable pub start :
    (sys : System) (now : ℕ) → Option Socket → SockAddr → Options → List Call → Run Outcome
start sys now none dns_server options calls = ok exited
start sys now (some s) dns_server options calls =
    let serve = (do
      cache ← new_cache options.cache_len sys.list sys.links
      hosts ← host_init sys now
      ok (
          serving (record {
            server = record { cache = cache; hosts = hosts; ids = map_init };
            socket = s;
            dns_server = dns_server;
            options = options;
            calls = calls ++ set_time_out sys.stack (some s) 2 0;
          }))) in
    if sys.bind s.fd s.addr then serve else ok exited

-- The address of a socket that is not NULL.
abbrev pub addr_of : Option Socket → SockAddr
addr_of none = record { sin_addr = 0; sin_port = 0 }
addr_of (some s) = s.addr

-- `main`. The two sockets are on the stack and a global variable: `blank` and `zeroed` are what they
-- hold. The result of `socketInit` is not used. `platformInit` returns 0.
unfoldable pub main :
    (sys : System) (fuel now : ℕ) (blank zeroed : Socket)
    → (args : List Text) → Options
    → Run Outcome
main sys fuel now blank zeroed args options₀ = do
  options ← console_parse sys.atoi args options₀
  let relay_service = sockaddr_init (some blank) inaddr_any 53
  let (_, relay_service', calls) = socket_init sys.socket relay_service ipproto_udp
  local ← load_text fuel options.local_dns_addr 0
  let dns_server = sockaddr_init (some zeroed) (sys.inet_addr local) 53
  start sys now relay_service' (addr_of dns_server) options calls
