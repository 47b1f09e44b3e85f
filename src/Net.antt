-- ===== src/Net.antt =====
-- The addresses of include/main.h: the fields of `struct sockaddr_in` that the relay copies, and the
-- order of the bytes in its ports. The host is little-endian.
use dns_relay_server.Base.{ℕ, ◌+◌, ◌*◌, ◌/◌, ◌%◌}

pub record SockAddr : Type 0 where
  pub sin_addr : ℕ
  pub sin_port : ℕ

-- `htons` of a 16-bit number, as the host reads its result.
abbrev pub htons : ℕ → ℕ
htons n = n % 256 * 256 + n / 256 % 256
