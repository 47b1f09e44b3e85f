-- ===== src/Packet/Pointers.antt =====
-- The name pointers that `responseFormat` makes for the questions behind the first.
use dns_relay_server.Base.{◌>>=◌}
use dns_relay_server.Memory.{Memory}
use dns_relay_server.Memory.Stored.{Stored}
