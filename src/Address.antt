-- ===== src/Address.antt =====
-- The branches AF_INET and AF_INET6 of src/Utils/inet.c, as they are built for POSIX. `inet_ntop` and
-- `inet_pton` are the C library's and are given: from the bytes of an address to its string, and
-- from a string to the bytes of an address if it is one. The memory is written only if there is
-- room, or if the string is an address.
pub mod RoundTrip
use dns_relay_server.Base.{
  ℕ, zero, suc, ◌==◌, ltb, if◌then◌else◌, Option, none, some, List, [], ◌∷◌, ◌++◌, length, Run, ok,
  out_of_fuel, ◌>>=◌,
}
use dns_relay_server.Entry.{Text}
use dns_relay_server.Memory.{Memory, load, load_bytes, store_bytes}

-- The two functions of the C library for one address family.
pub record Family : Type 0 where
  pub inet_ntop : Text → Text
  pub inet_pton : Text → Option Text

-- The C string at a place.
unfoldable pub load_text : (fuel : ℕ) → Memory → (pos : ℕ) → Run Text
load_text zero m pos = out_of_fuel
load_text (suc fuel) m pos =
    let rest = λ (b : ℕ). (do s ← load_text fuel m (suc pos); ok (b ∷ s)) in
    do b ← load m pos; if b == 0 then ok [] else rest b

-- `inetParse` for a family whose addresses have `size` bytes, with `room` bytes for the string.
unfoldable pub parse_address : (size room : ℕ) → Family → Memory → (src : ℕ) → Memory → Run Memory
parse_address size room f buf src dest = do
  bytes ← load_bytes size buf src
  if ltb (length (f.inet_ntop bytes)) room
      then store_bytes (f.inet_ntop bytes ++ 0 ∷ []) dest 0
      else ok dest

-- `inetFormat` for such a family: the memory, and the length that is returned.
unfoldable pub format_address :
    (size : ℕ) → Family → (fuel : ℕ) → Memory → Memory → (to : ℕ) → Run (Memory × ℕ)
format_address size f fuel url dest to = do
  s ← load_text fuel url 0
  elim (f.inet_pton s) [
    | none ↦ ok (dest, 0)
    | some bytes ↦ store_bytes bytes dest to >>= λ m. ok (m, size)
  ]
