-- ===== src/Socket.antt =====
-- The sockets of src/Server/socket.c, as they are built for POSIX. A descriptor is what `socket`
-- returns, and `none` is -1. The calls of the system that return nothing that is used stand as a
-- list of what they are given. The host is little-endian.
use dns_relay_server.Base.{
  ℕ, ◌==◌, Bool, true, false, if◌then◌else◌, Option, none, some, List, [], ◌∷◌, ◌++◌,
}
use dns_relay_server.Net.{SockAddr, htons}

pub record Socket : Type 0 where
  pub fd : Option ℕ
  pub sin_family : ℕ
  pub addr : SockAddr

-- `setsockopt` with SO_REUSEADDR, SO_SNDTIMEO and SO_RCVTIMEO (seconds and microseconds), and
-- `close`.
pub data Call : Type 0 where
  reuse_addr : Option ℕ → (value : ℕ) → Call
  send_timeout : Option ℕ → (tv_sec tv_usec : ℕ) → Call
  recv_timeout : Option ℕ → (tv_sec tv_usec : ℕ) → Call
  close : Option ℕ → Call

-- AF_INET.
abbrev pub af_inet : ℕ
af_inet = 2

-- `none` is NULL.
unfoldable pub sockaddr_init : Option Socket → (address port : ℕ) → Option Socket
sockaddr_init none address port = none
sockaddr_init (some s) address port =
    some (record s {
      sin_family = af_inet;
      addr = record { sin_addr = address; sin_port = htons port };
    })

abbrev pub opened : Socket → Option ℕ → Bool × Option Socket × List Call
opened s none = (false, some (record s { fd = none }), [])
opened s (some fd) = (true, some (record s { fd = some fd }), reuse_addr (some fd) 1 ∷ [])

-- `socket` is the system's, for AF_INET, SOCK_DGRAM and a protocol. The first component is whether
-- 0 is returned.
unfoldable pub socket_init :
    (socket : ℕ → Option ℕ) → Option Socket → (protocol : ℕ) → Bool × Option Socket × List Call
socket_init socket none protocol = (false, none, [])
socket_init socket (some s) protocol = opened s (socket protocol)

unfoldable pub socket_close : Option Socket → List Call
socket_close none = []
socket_close (some s) = close s.fd ∷ []

-- The microseconds of the two times are never set: they are what the stack holds.
unfoldable pub set_time_out : (stack : ℕ × ℕ) → Option Socket → (send recv : ℕ) → List Call
set_time_out stack none send recv = []
set_time_out stack (some s) send recv =
    (if send == 0 then [] else send_timeout s.fd send stack.0 ∷ [])
    ++ (if recv == 0 then [] else recv_timeout s.fd recv stack.1 ∷ [])
