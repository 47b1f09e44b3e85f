-- ===== src/Address/RoundTrip.antt =====
-- An address is made a string, and a string an address.
use dns_relay_server.Base.{
  ℕ, zero, suc, ◌+◌, ◌≤◌, ◌<◌, ◌≡◌, refl, true, false, ltb, ◌==◌, some, update, [], ◌∷◌, ◌++◌,
  length, length-append, has, arith, ok, Returns,
}
use dns_relay_server.Entry.{Text}
use dns_relay_server.Memory.{Memory, load_bytes, store_bytes}
use dns_relay_server.Memory.Stored.{Stored, SameOutside}
use dns_relay_server.Address.{Family, load_text, parse_address, format_address}

pub load_text-Stored :
    (m : Memory) (s t : Text) (fuel p : ℕ)
    → has 0 s ≡ false
    → Stored m p (s ++ 0 ∷ t)
    → p + length s < m.size
    → length s < fuel
    → load_text fuel m p ≡ ok s
unfolding load_text
load_text-Stored m s t zero p nz st inside f = absurd (omega arith)
load_text-Stored m [] t (suc fuel) p nz st inside f =
    let readable : ltb p m.size ≡ true = ground arith in rw (readable, st.0)
load_text-Stored m (b ∷ s) t (suc fuel) p nz st inside f =
    let readable : ltb p m.size ≡ true = ground arith in
    let more : (b == 0) ≡ false = ground arith in
    let rest =
      load_text-Stored m s t fuel (suc p) (ground arith) st.1 (omega arith) (omega arith) in
    rw (readable, st.0, more, rest)

load_bytes-Stored :
    (bs : Text) (m : Memory) (p : ℕ)
    → Stored m p bs
    → p + length bs ≤ m.size
    → load_bytes (length bs) m p ≡ ok bs
unfolding load_bytes
load_bytes-Stored [] m p s room = refl
load_bytes-Stored (b ∷ bs) m p s room =
    let readable : ltb p m.size ≡ true = ground arith in
    rw (readable, s.0, load_bytes-Stored bs m (suc p) s.1 (omega arith))

pub store_bytes-Stored :
    (bs : Text) (m : Memory) (p : ℕ)
    → p + length bs ≤ m.size
    → Returns (store_bytes bs m p) λ k. Stored k p bs × SameOutside m k p (length bs)
unfolding store_bytes
store_bytes-Stored [] m p room =
    (m, refl, (tt, record { size = refl; below = λ i h. refl; above = λ i h. refl }))
store_bytes-Stored (b ∷ bs) m p room =
    let writable : ltb p m.size ≡ true = ground arith in
    let m' : Memory = record m { at = update m.at p b } in
    let (k, run, (stored, same)) = store_bytes-Stored bs m' (suc p) (omega arith) in
    (
      k,
      rw writable run,
      (
        (ground (arith, same.below p), stored),
        record {
          size = same.size;
          below = λ i h. ground (arith, same.below i);
          above = λ i h. ground (arith, same.above i);
        },
      ),
    )

-- `inetFormat` of the string of an address: its bytes, and their number.
pub format_address-Stored :
    (size : ℕ) (v : Family) (fuel : ℕ) (url dest : Memory) (to : ℕ) (s t bytes : Text)
    → v.inet_pton s ≡ some bytes
    → length bytes ≡ size
    → has 0 s ≡ false
    → Stored url 0 (s ++ 0 ∷ t)
    → length s < url.size
    → length s < fuel
    → to + size ≤ dest.size
    → Returns
        (format_address size v fuel url dest to)
        λ (k, len). Stored k to bytes × SameOutside dest k to size × (len ≡ size)
unfolding format_address
format_address-Stored size v fuel url dest to s t bytes e count nz st inside f room =
    let text = load_text-Stored url s t fuel 0 nz st (omega arith) f in
    let (k, run, (stored, same)) = store_bytes-Stored bytes dest to (omega arith) in
    ((k, size), rw (text, e, run), (stored, rw count at same, refl))

-- `inetParse` of an address whose string there is room for.
pub parse_address-Stored :
    (size room : ℕ) (v : Family) (bytes : Text) (buf : Memory) (src : ℕ) (dest : Memory)
    → length bytes ≡ size
    → length (v.inet_ntop bytes) < room
    → room ≤ dest.size
    → Stored buf src bytes
    → src + length bytes ≤ buf.size
    → Returns
        (parse_address size room v buf src dest)
        λ k. Stored k 0 (v.inet_ntop bytes ++ 0 ∷ []) × (k.size ≡ dest.size)
unfolding parse_address
parse_address-Stored size room v bytes buf src dest count short fits_dest st inside =
    let string = v.inet_ntop bytes in
    let read : load_bytes size buf src ≡ ok bytes =
      rw count at (load_bytes-Stored bytes buf src st inside) in
    let fits : ltb (length string) room ≡ true = ground (arith, short) in
    let total = length-append {0} string (0 ∷ []) in
    let (k, run, (stored, same)) = store_bytes-Stored (string ++ 0 ∷ []) dest 0 (omega arith) in
    (k, rw (read, fits, run), (stored, same.size))
