-- ===== src/Packet/Checked.antt =====
-- What `packetCheck` prints of a request.
use dns_relay_server.Base.{
  ℕ, suc, ◌+◌, ◌/◌, ◌%◌, ◌≤◌, ◌<◌, ◌≡◌, ◌≢◌, ◌∙◌, ap, refl, Bool-cases, inl, inr, ◌&&◌, true, false,
  ltb, ◌==◌, List, [], ◌∷◌, ◌++◌, length, some, arith, ok, Returns,
}
use dns_relay_server.Entry.{Text}
use dns_relay_server.Memory.{Memory}
use dns_relay_server.Memory.Stored.{Stored}
use dns_relay_server.Packet.Check.{
  Shown, null_pointer, packet_length, origin, byte, line_end, check_begin, id, flags, counts,
  question, resource, check_end, row_end, dump_bytes, buffer_check,
}

-- The bytes that are printed, and the lines that are ended.
abbrev pub bytes_in : List Shown → Text
bytes_in [] = []
bytes_in (byte b ∷ ps) = b ∷ bytes_in ps
bytes_in (null_pointer ∷ ps) = bytes_in ps
bytes_in (packet_length n ∷ ps) = bytes_in ps
bytes_in (origin ∷ ps) = bytes_in ps
bytes_in (line_end ∷ ps) = bytes_in ps
bytes_in (check_begin ∷ ps) = bytes_in ps
bytes_in (id n ∷ ps) = bytes_in ps
bytes_in (flags qr rd ra rcode ∷ ps) = bytes_in ps
bytes_in (counts qdcount ancount ∷ ps) = bytes_in ps
bytes_in (question i qname qtype qclass ∷ ps) = bytes_in ps
bytes_in (resource i name_ptr type class ttl rdlen rdata pref ∷ ps) = bytes_in ps
bytes_in (check_end ∷ ps) = bytes_in ps

abbrev pub lines_in : List Shown → ℕ
lines_in [] = 0
lines_in (line_end ∷ ps) = suc (lines_in ps)
lines_in (byte b ∷ ps) = lines_in ps
lines_in (null_pointer ∷ ps) = lines_in ps
lines_in (packet_length n ∷ ps) = lines_in ps
lines_in (origin ∷ ps) = lines_in ps
lines_in (check_begin ∷ ps) = lines_in ps
lines_in (id n ∷ ps) = lines_in ps
lines_in (flags qr rd ra rcode ∷ ps) = lines_in ps
lines_in (counts qdcount ancount ∷ ps) = lines_in ps
lines_in (question i qname qtype qclass ∷ ps) = lines_in ps
lines_in (resource i name_ptr type class ttl rdlen rdata pref ∷ ps) = lines_in ps
lines_in (check_end ∷ ps) = lines_in ps

dump_bytes-next :
    (n i len b : ℕ) (buf : Memory) (ps : List Shown)
    → ltb i buf.size ≡ true
    → buf.at i ≡ b
    → dump_bytes n (suc i) len buf ≡ ok ps
    → dump_bytes (suc n) i len buf ≡ ok (byte b ∷ (row_end i len ++ ps))
unfolding dump_bytes
dump_bytes-next n i len b buf ps readable e run = rw (readable, e, run)

row_end-bytes_in : (i len : ℕ) (ps : List Shown) → bytes_in (row_end i len ++ ps) ≡ bytes_in ps
unfolding row_end
row_end-bytes_in i len ps = elim (Bool-cases (i + 1 == len)) [
  | inl last ↦ rw last
  | inr more ↦ elim (Bool-cases (ltb 0 i && ((i + 1) % 16 == 0))) [
    | inl full ↦ rw (more, full)
    | inr part ↦ rw (more, part)
  ]
]

row_end-lines_in :
    (i len : ℕ) (ps : List Shown)
    → suc i < len
    → lines_in (row_end i len ++ ps) + i / 16 ≡ lines_in ps + suc i / 16
unfolding row_end
row_end-lines_in i len ps h =
    let more : (i + 1 == len) ≡ false = ground arith in
    elim (Bool-cases (ltb 0 i && ((i + 1) % 16 == 0))) [
      | inl full ↦
          let sixteenth : (i + 1) % 16 ≡ 0 = ground (arith, full) in
          rw (more, full) (omega (arith, sixteenth))
      | inr part ↦
          let other : (i + 1) % 16 ≢ 0 = λ e. ground (arith, part, e) in
          rw (more, part) (omega (arith, other))
    ]

dump_bytes-Stored :
    (bs : Text) (b i len : ℕ) (buf : Memory)
    → Stored buf i (b ∷ bs)
    → i + length (b ∷ bs) ≡ len
    → len ≤ buf.size
    → Returns
        (dump_bytes (length (b ∷ bs)) i len buf)
        λ ps. (bytes_in ps ≡ b ∷ bs) × (lines_in ps + i / 16 ≡ (len + 15) / 16)
dump_bytes-Stored [] b i len buf s e room =
    let readable : ltb i buf.size ≡ true = ground arith in
    let last : (i + 1 == len) ≡ true = ground arith in
    unfold dump_bytes row_end in
    (byte b ∷ line_end ∷ [], rw (readable, s.0, last), (refl, omega arith))
dump_bytes-Stored (c ∷ bs) b i len buf s e room =
    let readable : ltb i buf.size ≡ true = ground arith in
    let (ps, run, (bytes, lines)) = dump_bytes-Stored bs c (suc i) len buf s.1 (omega arith) room in
    (
      byte b ∷ (row_end i len ++ ps),
      dump_bytes-next (length (c ∷ bs)) i len b buf ps readable s.0 run,
      (
        ap (λ t. b ∷ t) (row_end-bytes_in i len ps ∙ bytes),
        row_end-lines_in i len ps (omega arith) ∙ lines,
      ),
    )

-- `bufferCheck` at the debug level 2, of bytes that stand in the buffer, at least one: there is no
-- fault, exactly these bytes are printed, in their order, and as many lines as have 16 bytes.
pub buffer_check-bytes :
    (debug b : ℕ) (bs : Text) (buf : Memory)
    → 2 ≤ debug
    → Stored buf 0 (b ∷ bs)
    → length (b ∷ bs) ≤ buf.size
    → Returns
        (buffer_check debug (some buf) (length (b ∷ bs)))
        λ ps. (bytes_in ps ≡ b ∷ bs) × (lines_in ps ≡ (length (b ∷ bs) + 15) / 16)
unfolding buffer_check
buffer_check-bytes debug b bs buf level s room =
    let full : ltb debug 2 ≡ false = ground arith in
    let more : (length (b ∷ bs) == 0) ≡ false = ground arith in
    let (ps, run, (bytes, lines)) =
      dump_bytes-Stored bs b 0 (length (b ∷ bs)) buf s (omega arith) room in
    (
      packet_length (length (b ∷ bs)) ∷ origin ∷ ps,
      rw (more, full, run),
      (bytes, omega (arith, lines)),
    )
