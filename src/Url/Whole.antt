-- ===== src/Url/Whole.antt =====
-- `urlFormat` of a name that shares no end with the question's name.
use dns_relay_server.Base.{
  ℕ, ◌+◌, ◌/◌, ◌%◌, ◌≤◌, ◌<◌, ◌≡◌, ◌∙◌, refl, true, ltb, ◌==◌, ◌||◌, update, List, [], ◌∷◌, ◌++◌,
  length, none, some, arith, ok, Returns,
}
use dns_relay_server.Entry.{Text}
use dns_relay_server.Memory.{Memory, store16}
use dns_relay_server.Memory.Stored.{bytes16, Stored, Stored-frame, Stored-append, Stored-split}
use dns_relay_server.Protocol.{type_cname, type_mx, type_ns}
use dns_relay_server.Inet.Names.{wire, dotted, AllLabels, dotted-no_zero}
use dns_relay_server.Inet.Body.{body, wire-body, length-wire}
use dns_relay_server.Inet.Format.{string_length-Stored}
use dns_relay_server.Address.{Family}
use dns_relay_server.Url.{suffix_pos, compress, format_url_name, url_format}
use dns_relay_server.Url.Format.{format_cons}

-- The further 0 is written over the last byte of the name.
compress-none :
    (dest : Memory) (to res_len name_len pointer shift : ℕ) (l : Text) (ls : List Text)
    → Stored dest to (wire (l ∷ ls))
    → res_len + 1 ≡ length (wire (l ∷ ls))
    → to + length (wire (l ∷ ls)) ≤ dest.size
    → (k : Memory) × (compress dest to res_len name_len pointer shift none ≡ ok (k, res_len + 1))
      × Stored k to (wire (l ∷ ls))
      × ((i : ℕ) → i < to → k.at i ≡ dest.at i)
unfolding compress
compress-none dest to res_len name_len pointer shift l ls stored total room =
    let size = length-wire (l ∷ ls) in
    let in_dest : ltb (to + res_len) dest.size ≡ true = ground arith in
    let k : Memory = record dest { at = update dest.at (to + res_len) 0 } in
    let split : Stored dest to (body (l ∷ ls) ++ 0 ∷ []) = rw (wire-body (l ∷ ls)) at stored in
    let (front, end) =
      Stored-split dest to (to + res_len) (body (l ∷ ls)) (0 ∷ []) (omega arith) split in
    let kept = Stored-frame dest k to (body (l ∷ ls)) front (λ i h j. ground (arith, size)) in
    let joined =
      Stored-append k to (to + res_len) (body (l ∷ ls)) (0 ∷ []) (omega (arith, size, total)) kept
        (ground arith, tt) in
    (k, rw in_dest, rw (wire-body (l ∷ ls)) joined, λ i h. ground arith)

module _ (fuel : ℕ) (url dest name : Memory) (pointer addition : ℕ) (l : Text) (ls : List Text)
    (m : Text) (ms : List Text) (v4 v6 : Family) (first : AllLabels (l ∷ ls))
    (second : AllLabels (m ∷ ms)) (s : Stored url 0 (dotted (l ∷ ls) ++ 0 ∷ 0 ∷ []))
    (in_url : length (dotted (l ∷ ls)) + 2 ≤ url.size)
    (t : Stored name 0 (dotted (m ∷ ms) ++ 0 ∷ [])) (in_name : length (dotted (m ∷ ms)) < name.size)
    (in_dest : 2 + length (wire (l ∷ ls)) ≤ dest.size) (f : length (dotted (l ∷ ls)) + 2 < fuel)
    (f' : length (dotted (m ∷ ms)) < fuel)
    (found : suffix_pos url.at name.at (length (dotted (l ∷ ls))) (length (dotted (m ∷ ms))) none
      ≡ none) where
  format_url_name-none :
      (start : Memory) (to shift : ℕ)
      → to + length (wire (l ∷ ls)) ≤ start.size
      → (k : Memory) × (format_url_name fuel url start to name pointer shift
          ≡ ok (k, length (wire (l ∷ ls))))
        × Stored k to (wire (l ∷ ls))
        × ((i : ℕ) → i < to → k.at i ≡ start.at i)
  unfolding format_url_name
  format_url_name-none start to shift room =
      let url_len =
        string_length-Stored url (dotted (l ∷ ls)) (0 ∷ []) fuel 0 (dotted-no_zero l ls first) s
          (omega arith) (omega arith) in
      let name_len =
        string_length-Stored name (dotted (m ∷ ms)) [] fuel 0 (dotted-no_zero m ms second) t
          (omega arith) f' in
      let (k, res_len, run, stored, size, below, total) =
        format_cons url start to fuel l ls first s in_url room f in
      let (k', run', stored', below') =
        compress-none k to res_len (length (dotted (m ∷ ms))) pointer shift l ls stored total
          (omega (arith, size)) in
      (
        k',
        rw (url_len, name_len, run, found) (rw total at run'),
        stored',
        λ i h. below' i h ∙ below i h,
      )

  -- `urlFormat` for CNAME or NS: the whole name, and its length.
  pub url_format-whole :
      (mode : ℕ)
      → ((mode == type_cname) || (mode == type_ns)) ≡ true
      → Returns
          (url_format v4 v6 fuel mode url dest name pointer addition)
          λ (k, len). Stored k 0 (wire (l ∷ ls)) × (len ≡ some (length (wire (l ∷ ls))))
  unfolding url_format
  url_format-whole mode named =
      let (k, run, stored, _) = format_url_name-none dest 0 0 (omega arith) in
      ((k, some (length (wire (l ∷ ls)))), rw run (ground (arith, named)), (stored, refl))

  -- `urlFormat` for MX, of a string with a further 0 behind its final 0, whose name and the
  -- question's name, both of at least one label, have no common end that the comparison finds, with
  -- room for the preference and the wire form, and fuel above the lengths of both strings and two:
  -- no fault, the preference and behind it the whole name are written, but the length that is
  -- returned is that of the name without the preference.
  pub url_format-mx_short :
      Returns (url_format v4 v6 fuel type_mx url dest name pointer addition) λ (k, len).
        Stored k 0 (bytes16 addition ++ wire (l ∷ ls)) × (len ≡ some (length (wire (l ∷ ls))))
  unfolding url_format
  url_format-mx_short =
      let in_dest0 : ltb 0 dest.size ≡ true = ground (arith, in_dest) in
      let in_dest1 : ltb 1 dest.size ≡ true = ground (arith, in_dest) in
      let start : Memory = record dest {
        at = update (update dest.at 0 (addition / 256 % 256)) 1 (addition % 256);
      } in
      let (k, run, stored, below) = format_url_name-none start 2 2 in_dest in
      let begin : store16 dest 0 addition ≡ ok start = rw (in_dest0, in_dest1) in
      (
        (k, some (length (wire (l ∷ ls)))),
        rw (begin, run),
        ((ground (arith, below 0), (ground (arith, below 1), stored)), refl),
      )
