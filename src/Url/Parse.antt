-- ===== src/Url/Parse.antt =====
-- `urlParse` of a name, with a pointer at its end or without.
use dns_relay_server.Base.{
  ltb, ℕ, suc, ap, ◌+◌, ◌-◌, ◌*◌, ◌/◌, ◌%◌, ◌≤◌, ◌<◌, ◌≡◌, ◌∙◌, refl, true, false, ◌==◌, ◌||◌, List,
  [], ◌∷◌, ◌++◌, length, length-append, none, arith, ok, Returns,
}
use dns_relay_server.Entry.{Text}
use dns_relay_server.Memory.{Memory, load16, copy_bytes}
use dns_relay_server.Memory.Stored.{
  Stored, Stored-frame, Stored-append, Stored-split, load16-Stored, copy_bytes-Stored,
}
use dns_relay_server.Protocol.{type_ns, type_cname}
use dns_relay_server.Inet.{inet_parse_name}
use dns_relay_server.Inet.Names.{wire, dotted, AllLabels}
use dns_relay_server.Inet.Body.{
  body, length-wire, wire-body, wire-append, AllLabels-append, nonempty-append, length-others,
}
use dns_relay_server.Inet.Parse.{inet_parse_name-dotted}
use dns_relay_server.Address.{Family}
use dns_relay_server.Url.{is_pointer, expand, parse_url_name, url_parse}
use dns_relay_server.Url.Expand.{IsBytes, expand-pointer}

-- The two bytes of a name pointer.
abbrev pub pointer_bytes : ℕ → Text
pointer_bytes offset = (49152 + offset) / 256 ∷ (49152 + offset) % 256 ∷ []

-- `inetParse` at the beginning of a buffer, of any name that has a label.
parse_cons :
    (l : Text) (ls : List Text) (fuel : ℕ) (temp dest : Memory)
    → AllLabels (l ∷ ls)
    → Stored temp 0 (wire (l ∷ ls))
    → length (wire (l ∷ ls)) ≤ temp.size
    → length (dotted (l ∷ ls)) < dest.size
    → length (wire (l ∷ ls)) < fuel
    → Returns (inet_parse_name fuel temp 0 dest) λ k. Stored k 0 (dotted (l ∷ ls) ++ 0 ∷ [])
parse_cons l ls fuel temp dest all s in_temp in_dest f =
    let (k, run, (stored, _)) =
      inet_parse_name-dotted temp 0 l ls fuel dest all s (omega arith) in_dest
        (omega (arith, length-others (l ∷ ls) all)) in
    (k, run, stored)

parse_whole :
    (names : List Text) (l : Text) (ls : List Text) (fuel : ℕ) (temp dest : Memory)
    → names ≡ l ∷ ls
    → AllLabels names
    → Stored temp 0 (wire names)
    → length (wire names) ≤ temp.size
    → length (dotted names) < dest.size
    → length (wire names) < fuel
    → Returns (inet_parse_name fuel temp 0 dest) λ k. Stored k 0 (dotted names ++ 0 ∷ [])
parse_whole names l ls fuel temp dest e all s in_temp in_dest f = rw e (
    parse_cons l ls fuel temp dest (rw e at all) (rw e at s) (rw e at in_temp) (rw e at in_dest)
      (rw e at f))

module _ (buf : Memory) (fuel src : ℕ) (temp dest : Memory) where
  -- The labels `front` and a pointer to the name `m ∷ ms`.
  module _ (front : List Text) (m : Text) (ms : List Text) (offset : ℕ) (first : AllLabels front)
      (second : AllLabels (m ∷ ms)) (small : offset < 16384)
      (s : Stored buf src (body front ++ pointer_bytes offset))
      (in_src : src + length (body front) + 2 ≤ buf.size)
      (bytes : IsBytes buf offset (length (wire (m ∷ ms)))) (t : Stored buf offset (wire (m ∷ ms)))
      (in_buf : offset + length (wire (m ∷ ms)) ≤ buf.size)
      (in_temp : length (wire (front ++ m ∷ ms)) ≤ temp.size)
      (in_dest : length (dotted (front ++ m ∷ ms)) < dest.size)
      (f : length (wire (front ++ m ∷ ms)) + 2 < fuel) where
    abbrev n : ℕ
    n = length (body front)

    total : length (wire (front ++ m ∷ ms)) ≡ n + length (wire (m ∷ ms))
    total = ap length (wire-append front (m ∷ ms)) ∙ length-append (body front) (wire (m ∷ ms))

    -- What `temp` holds after the loop over the pointers.
    expanded :
        (k : Memory) × (k' : Memory) × (copy_bytes (n + 2) buf src temp 0 ≡ ok k)
        × (load16 buf (src + (n + 2) - 2) ≡ ok (49152 + offset))
        × (expand fuel buf k (n + 2 - 2) (49152 + offset) ≡ ok k')
        × (k'.size ≡ temp.size)
        × Stored k' 0 (wire (front ++ m ∷ ms))
    expanded =
        let sum : length (body front ++ pointer_bytes offset) ≡ n + 2 =
          length-append (body front) (pointer_bytes offset) in
        let (k, run, (copied, same)) =
          copy_bytes-Stored (body front ++ pointer_bytes offset) buf src temp 0 s (omega arith)
            (omega (arith, total, length-wire (m ∷ ms), length-others (m ∷ ms) second)) in
        let (_, tail) = Stored-split buf src (src + n) (body front) (pointer_bytes offset) refl s in
        let (head, _) =
          Stored-split k 0 n (body front) (pointer_bytes offset) (omega arith) copied in
        let next : suc (src + n) ≡ src + n + 1 = omega arith in
        let second_byte : buf.at (src + n + 1) ≡ (49152 + offset) % 256 = rw next at tail.1.0 in
        let name_ptr =
          load16-Stored buf (src + n) (49152 + offset) tail.0 second_byte (omega arith) in
        let place : src + (n + 2) - 2 ≡ src + n = omega arith in
        let place' : n + 2 - 2 ≡ n = omega arith in
        let (k', run', (behind, size, below)) =
          expand-pointer buf (m ∷ ms) fuel offset n k second small bytes t in_buf
            (omega (arith, total, same.size))
            (omega (arith, total, length-others (m ∷ ms) second)) in
        let kept = Stored-frame k k' 0 (body front) head (λ i h j. below i (omega arith)) in
        (
          k,
          k',
          rw sum at run,
          rw place name_ptr,
          ap (λ t. expand fuel buf k t (49152 + offset)) place' ∙ run',
          size ∙ same.size,
          rw (wire-append front (m ∷ ms))
              (Stored-append k' 0 n (body front) (wire (m ∷ ms)) (omega arith) kept behind),
        )

    parse_url_name-pointer :
        Returns
          (parse_url_name fuel buf src (n + 2) temp dest)
          λ k. Stored k 0 (dotted (front ++ m ∷ ms) ++ 0 ∷ [])
    unfolding parse_url_name
    parse_url_name-pointer =
        let (l, ls, e) = nonempty-append front m ms in
        let (k, k', copied, name_ptr, run, size, stored) = expanded in
        let (k'', parsed, text) =
          parse_whole (front ++ m ∷ ms) l ls fuel k' dest e
            (AllLabels-append front (m ∷ ms) first second) stored (omega (arith, size)) in_dest
            (omega arith) in
        let pointer : is_pointer (49152 + offset) ≡ true = ground arith in
        let long : ltb (n + 2) 2 ≡ false = ground arith in
        (k'', rw (copied, name_ptr, pointer, long, run) parsed, text)

    -- `urlParse` for CNAME or NS, of labels and a pointer to a further name in the packet, at least
    -- one label behind the pointer, all inside the packet and with room in the two buffers: there
    -- is no fault, fuel above the length of the whole name is enough, and `dest` holds the dotted
    -- string of all the labels.
    pub url_parse-pointer :
        (v4 v6 : Family) (mode : ℕ)
        → ((mode == type_cname) || (mode == type_ns)) ≡ true
        → Returns
            (url_parse v4 v6 fuel mode buf src (length (body front) + 2) temp dest)
            λ (k, addition). Stored k 0 (dotted (front ++ m ∷ ms) ++ 0 ∷ []) × (addition ≡ none)
    unfolding url_parse
    url_parse-pointer v4 v6 mode named =
        let (k, run, text) = parse_url_name-pointer in
        ((k, none), rw run (ground (arith, named)), (text, refl))

module _ (buf : Memory) (fuel src : ℕ) (temp dest : Memory) where
  -- `urlParse` for CNAME or NS, of a whole name without a pointer, whose last byte of text is not
  -- above 191: the same.
  pub url_parse-wire :
      (v4 v6 : Family) (mode : ℕ) (l : Text) (ls : List Text)
      → ((mode == type_cname) || (mode == type_ns)) ≡ true
      → AllLabels (l ∷ ls)
      → Stored buf src (wire (l ∷ ls))
      → src + length (wire (l ∷ ls)) ≤ buf.size
      → is_pointer (buf.at (src + length (wire (l ∷ ls)) - 2) * 256) ≡ false
      → length (wire (l ∷ ls)) ≤ temp.size
      → length (dotted (l ∷ ls)) < dest.size
      → length (wire (l ∷ ls)) < fuel
      → Returns
          (url_parse v4 v6 fuel mode buf src (length (wire (l ∷ ls))) temp dest)
          λ (k, addition). Stored k 0 (dotted (l ∷ ls) ++ 0 ∷ []) × (addition ≡ none)
  unfolding url_parse parse_url_name
  url_parse-wire v4 v6 mode l ls named all s in_buf last in_temp in_dest f =
      let n = length (wire (l ∷ ls)) in
      let size = length-wire (l ∷ ls) in
      let (k, run, (copied, same)) =
        copy_bytes-Stored (wire (l ∷ ls)) buf src temp 0 s in_buf (omega arith) in
      let (k', parsed, text) =
        parse_cons l ls fuel k dest all copied (omega (arith, same.size)) in_dest f in
      let split : Stored buf src (body (l ∷ ls) ++ 0 ∷ []) = rw (wire-body (l ∷ ls)) at s in
      let (_, end) =
        Stored-split buf src (src + length (body (l ∷ ls))) (body (l ∷ ls)) (0 ∷ []) refl split in
      let place : src + n - 2 + 1 ≡ src + length (body (l ∷ ls)) = omega (arith, size) in
      let final : buf.at (src + n - 2 + 1) ≡ 0 = rw place end.0 in
      let name_ptr : load16 buf (src + n - 2) ≡ ok (buf.at (src + n - 2) * 256) =
        ground (arith, final, size) in
      ((k', none), rw (run, name_ptr, last, parsed) (ground (arith, named)), (text, refl))
