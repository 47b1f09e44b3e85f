-- ===== src/Packet/Flags.antt =====
-- The flags of a response.
use dns_relay_server.Base.{ℕ, ◌/◌, ◌%◌, ◌<◌, ◌≡◌, ◌==◌, ◌||◌, if◌then◌else◌, arith}
use dns_relay_server.Packet.{response_flags}

-- QR and RD are set, RCODE is 3 exactly for a count of 0 or 65535, in which case AA is set too, and
-- the other bits are those of the request: Opcode and TC, RA and Z, and AA in the other case.
pub response_flags-fields :
    (flags ancount : ℕ)
    → flags < 65536
    → (response_flags flags ancount / 32768 ≡ 1)
      × (response_flags flags ancount / 256 % 2 ≡ 1)
      × (response_flags flags ancount % 16
          ≡ (if (ancount == 0) || (ancount == 65535) then 3 else 0))
      × (response_flags flags ancount / 1024 % 2
          ≡ (if (ancount == 0) || (ancount == 65535) then 1 else flags / 1024 % 2))
      × (response_flags flags ancount / 2048 % 16 ≡ flags / 2048 % 16)
      × (response_flags flags ancount / 512 % 2 ≡ flags / 512 % 2)
      × (response_flags flags ancount / 16 % 16 ≡ flags / 16 % 16)
unfolding response_flags
response_flags-fields flags ancount h = (
  ground arith,
  ground arith,
  ground arith,
  ground arith,
  ground arith,
  ground arith,
  ground arith,
)
