-- ===== src/Server/Tests.antt =====
-- The handler at a request, its answer from the DNS server, and the next request.
use dns_relay_server.Base.{[], ◌∷◌}
use dns_relay_server.Entry.{Text}
use dns_relay_server.Memory.{Memory}
use dns_relay_server.Memory.Stored.{Stored}
use dns_relay_server.Server.Datagram.{Datagram}
use dns_relay_server.Memory.Sample.{sample}
use dns_relay_server.Server.Sample.{request_bytes}

abbrev buffer : Memory
buffer = sample 512 request_bytes

abbrev response_bytes : Text
response_bytes =
    0 ∷ 77 ∷ 129 ∷ 0 ∷ 0 ∷ 1 ∷ 0 ∷ 1 ∷ 0 ∷ 0 ∷ 0 ∷ 0 ∷ 1 ∷ 97 ∷ 0 ∷ 0 ∷ 1 ∷ 0 ∷ 1 ∷ 192 ∷ 12 ∷ 0 ∷ 1
    ∷ 0 ∷ 1 ∷ 0 ∷ 0 ∷ 0 ∷ 20 ∷ 0 ∷ 4 ∷ 10 ∷ 0 ∷ 0 ∷ 1 ∷ []
