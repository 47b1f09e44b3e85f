-- ===== src/Url/Format.antt =====
-- `urlFormat` of a name that ends as the question's name does.
use dns_relay_server.Base.{
  ℕ, suc, ap, ◌+◌, ◌-◌, ◌/◌, ◌%◌, ◌≤◌, ◌<◌, ◌≡◌, ◌∙◌, refl, true, ltb, update, List, [], ◌∷◌, ◌++◌,
  length, length-append, none, some, arith, ok, Returns,
}
use dns_relay_server.Entry.{Text}
use dns_relay_server.Memory.{Memory}
use dns_relay_server.Memory.Stored.{bytes16, Stored, Stored-frame, Stored-append, Stored-split}
use dns_relay_server.Inet.{string_length, inet_format_name}
use dns_relay_server.Inet.Names.{wire, dotted, AllLabels}
use dns_relay_server.Inet.Body.{
  body, wire-append, nonempty-append, length-dotted_append, dotted_append-no_zero, length-others,
  AllLabels-back,
}
use dns_relay_server.Inet.Format.{string_length-Stored}
use dns_relay_server.Inet.RoundTrip.{inet_format_name-wire}
use dns_relay_server.Url.{suffix_pos, compress, format_url_name}

pub format_cons :
    (src dest : Memory) (to fuel : ℕ) (l : Text) (ls : List Text)
    → AllLabels (l ∷ ls)
    → Stored src 0 (dotted (l ∷ ls) ++ 0 ∷ 0 ∷ [])
    → length (dotted (l ∷ ls)) + 2 ≤ src.size
    → to + length (wire (l ∷ ls)) ≤ dest.size
    → length (dotted (l ∷ ls)) + 2 < fuel
    → (k : Memory) × (len : ℕ) × (inet_format_name fuel src 0 dest to ≡ ok (k, len))
      × Stored k to (wire (l ∷ ls))
      × (k.size ≡ dest.size)
      × ((i : ℕ) → i < to → k.at i ≡ dest.at i)
      × (len + 1 ≡ length (wire (l ∷ ls)))
format_cons src dest to fuel l ls all s in_src in_dest f =
    let ((k, len), run, (stored, size, below, total)) =
      inet_format_name-wire src 0 dest to fuel l ls all s (omega arith) in_dest f in
    (k, len, run, stored, size, below, total)

-- `inetFormat` of any name that has a label.
pub format_whole :
    (src dest : Memory) (to fuel : ℕ) (names : List Text) (l : Text) (ls : List Text)
    → names ≡ l ∷ ls
    → AllLabels names
    → Stored src 0 (dotted names ++ 0 ∷ 0 ∷ [])
    → length (dotted names) + 2 ≤ src.size
    → to + length (wire names) ≤ dest.size
    → length (dotted names) + 2 < fuel
    → (k : Memory) × (len : ℕ) × (inet_format_name fuel src 0 dest to ≡ ok (k, len))
      × Stored k to (wire names)
      × (k.size ≡ dest.size)
      × ((i : ℕ) → i < to → k.at i ≡ dest.at i)
      × (len + 1 ≡ length (wire names))
format_whole src dest to fuel names l ls e all s in_src in_dest f = rw e (
    format_cons src dest to fuel l ls (rw e at all) (rw e at s) (rw e at in_src) (rw e at in_dest)
      (rw e at f))

-- `url` is the dotted string of `front ++ m ∷ ms` with a further 0, and `name`, the question's, of
-- `own ++ m ∷ ms`.
module _ (fuel : ℕ) (url dest : Memory) (to : ℕ) (name : Memory) (pointer shift : ℕ)
    (front own : List Text) (m : Text) (ms : List Text) (first : AllLabels (front ++ m ∷ ms))
    (second : AllLabels (own ++ m ∷ ms)) (s : Stored url 0 (dotted (front ++ m ∷ ms) ++ 0 ∷ 0 ∷ []))
    (in_url : length (dotted (front ++ m ∷ ms)) + 2 ≤ url.size)
    (t : Stored name 0 (dotted (own ++ m ∷ ms) ++ 0 ∷ []))
    (in_name : length (dotted (own ++ m ∷ ms)) < name.size)
    (in_dest : to + length (wire (front ++ m ∷ ms)) ≤ dest.size)
    (f : length (dotted (front ++ m ∷ ms)) + 2 < fuel)
    (f' : length (dotted (own ++ m ∷ ms)) < fuel) where
  url_len : string_length fuel url 0 ≡ ok (length (dotted (front ++ m ∷ ms)))
  url_len =
      string_length-Stored url (dotted (front ++ m ∷ ms)) (0 ∷ []) fuel 0
        (dotted_append-no_zero front m ms first) s (omega arith) (omega arith)

  name_len : string_length fuel name 0 ≡ ok (length (dotted (own ++ m ∷ ms)))
  name_len =
      string_length-Stored name (dotted (own ++ m ∷ ms)) [] fuel 0
        (dotted_append-no_zero own m ms second) t (omega arith) f'

  -- The pointer is written over the common end.
  compress-pointer :
      (k : Memory) (res_len : ℕ)
      → Stored k to (wire (front ++ m ∷ ms))
      → k.size ≡ dest.size
      → res_len + 1 ≡ length (wire (front ++ m ∷ ms))
      → (k' : Memory) × (compress k to res_len
            (length (dotted (own ++ m ∷ ms)))
            pointer
            shift
            (some (length (body own)))
          ≡ ok (k', length (body front) + 2 + shift))
        × Stored k' to (body front ++ bytes16 ((pointer + length (body own)) % 65536))
        × (k'.size ≡ dest.size)
        × ((i : ℕ) → i < to → k'.at i ≡ k.at i)
  unfolding compress
  compress-pointer k res_len stored size total =
      let n = length (body front) in
      let value = (pointer + length (body own)) % 65536 in
      let whole : length (wire (front ++ m ∷ ms)) ≡ n + length (wire (m ∷ ms)) =
        ap length (wire-append front (m ∷ ms)) ∙ length-append (body front) (wire (m ∷ ms)) in
      let whole' : length (wire (own ++ m ∷ ms)) ≡ length (body own) + length (wire (m ∷ ms)) =
        ap length (wire-append own (m ∷ ms)) ∙ length-append (body own) (wire (m ∷ ms)) in
      let long = length-dotted_append front m ms in
      let long' = length-dotted_append own m ms in
      let other = length-others (m ∷ ms) (AllLabels-back own (m ∷ ms) second) in
      let cmp_len = length (dotted (own ++ m ∷ ms)) - length (body own) in
      let place : to + (res_len - 1 - cmp_len) ≡ to + n =
        omega (arith, whole, whole', long, long', total, other) in
      let len : res_len - cmp_len + 1 + shift ≡ n + 2 + shift =
        omega (arith, whole, whole', long, long', total, other) in
      let room : to + n + 1 < k.size = omega (arith, whole, size, other) in
      let in_k : ltb (to + n) k.size ≡ true = ground (arith, room) in
      let in_k' : ltb (to + n + 1) k.size ≡ true = ground (arith, room) in
      let k' : Memory = record k {
        at = update (update k.at (to + n) (value / 256 % 256)) (to + n + 1) (value % 256);
      } in
      let split : Stored k to (body front ++ wire (m ∷ ms)) =
        rw (wire-append front (m ∷ ms)) at stored in
      let (head, _) = Stored-split k to (to + n) (body front) (wire (m ∷ ms)) refl split in
      let kept = Stored-frame k k' to (body front) head (λ i h j. ground arith) in
      let next : suc (to + n) ≡ to + n + 1 = omega arith in
      let written : Stored k' (to + n) (bytes16 value) = (ground arith, (ground arith, tt)) in
      (
        k',
        rw (place, len, in_k, in_k'),
        Stored-append k' to (to + n) (body front) (bytes16 value) refl kept written,
        size,
        λ i h. ground arith,
      )

  -- `urlFormat` for CNAME, MX and NS behind the preference, of a name whose labels from `m` on end
  -- the question's name too, where the comparison finds this place.
  module _
      (found : suffix_pos url.at name.at
          (length (dotted (front ++ m ∷ ms)))
          (length (dotted (own ++ m ∷ ms)))
          none
        ≡ some (length (body own))) where
    pub format_url_name-pointer :
        Returns (format_url_name fuel url dest to name pointer shift) λ (k, len).
          Stored k to (body front ++ bytes16 ((pointer + length (body own)) % 65536))
          × (k.size ≡ dest.size)
          × ((i : ℕ) → i < to → k.at i ≡ dest.at i)
          × (len ≡ length (body front) + 2 + shift)
    unfolding format_url_name
    format_url_name-pointer =
        let (l, ls, e) = nonempty-append front m ms in
        let (k, res_len, run, stored, size, below, total) =
          format_whole url dest to fuel (front ++ m ∷ ms) l ls e first s in_url in_dest f in
        let (k', run', stored', size', below') = compress-pointer k res_len stored size total in
        (
          (k', length (body front) + 2 + shift),
          rw (url_len, name_len, run, found) run',
          (stored', size', λ i h. below' i h ∙ below i h, refl),
        )
