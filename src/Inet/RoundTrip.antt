-- ===== src/Inet/RoundTrip.antt =====
-- `inetFormat(AF_MAX, …)` of a string, and `inetParse(AF_MAX, …)` of what it writes.
use dns_relay_server.Base.{
  ℕ, ◌+◌, ◌≤◌, ◌<◌, ◌≡◌, ◌∙◌, refl, List, [], ◌∷◌, ◌++◌, length, length-append, arith, Returns,
  ◌>>=◌, ap,
}
use dns_relay_server.Entry.{Text}
use dns_relay_server.Memory.{Memory}
use dns_relay_server.Memory.Stored.{Stored}
use dns_relay_server.Inet.{inet_format_name, inet_parse_name}
use dns_relay_server.Inet.Names.{
  wire, dotted, IsLabel, AllLabels, joined, ended, joined-ended, labels-ended, ended-AllEnded,
  dotted-no_zero, length-dotted, length-le-dotted,
}
use dns_relay_server.Inet.Parse.{inet_parse_name-dotted}
use dns_relay_server.Inet.Format.{format_name-joined, string_length-Stored}

length-twice : (l m : Text) → length (joined ((l, 0) ∷ (m, 0) ∷ [])) ≡ length l + length m + 3
unfolding joined
length-twice l m =
    omega (arith, length-append {0} l (0 ∷ (m ++ 0 ∷ 0 ∷ [])), length-append {0} m (0 ∷ 0 ∷ []))

length-wire_two : (l m : Text) → length (wire (l ∷ m ∷ [])) ≡ length l + length m + 3
unfolding wire
length-wire_two l m =
    omega (arith, length-append {0} l (length m ∷ (m ++ 0 ∷ [])), length-append {0} m (0 ∷ []))

module _ (src : Memory) (from : ℕ) (dest : Memory) (to fuel : ℕ) where
  -- A dotted string with a further 0 behind its final 0, inside its buffer, and a destination with
  -- room for the wire form: no fault, and two rounds more than the string has bytes are enough; the
  -- destination holds the wire form, nothing in front of it changes, and the return value is the
  -- length of the string with its 0, one less than the length of the wire form.
  pub inet_format_name-wire :
      (l : Text) (ls : List Text)
      → AllLabels (l ∷ ls)
      → Stored src from (dotted (l ∷ ls) ++ 0 ∷ 0 ∷ [])
      → from + length (dotted (l ∷ ls)) + 2 ≤ src.size
      → to + length (wire (l ∷ ls)) ≤ dest.size
      → length (dotted (l ∷ ls)) + 2 < fuel
      → Returns (inet_format_name fuel src from dest to) λ (k, len).
        Stored k to (wire (l ∷ ls))
        × (k.size ≡ dest.size)
        × ((i : ℕ) → i < to → k.at i ≡ dest.at i)
        × (len + 1 ≡ length (wire (l ∷ ls)))
  unfolding inet_format_name
  inet_format_name-wire l ls all s in_src in_dest f =
      let string = dotted (l ∷ ls) in
      let text : Stored src from (joined (ended l ls)) = rw (joined-ended l ls) s in
      let size : length (joined (ended l ls)) ≡ length string + 2 =
        ap length (joined-ended l ls) ∙ length-append string (0 ∷ 0 ∷ []) in
      let (k, run, post) =
        format_name-joined src (ended l ls) fuel from to dest (ended-AllEnded l ls all) text
          (omega arith) (rw (labels-ended l ls) in_dest) (omega arith) in
      let measured =
        string_length-Stored src string (0 ∷ []) fuel from (dotted-no_zero l ls all) s (omega arith)
          (omega arith) in
      let (stored, size', below) = rw (labels-ended l ls) at post in
      (
        (k, length string + 1),
        rw (run, measured),
        (stored, size', below, omega (arith, length-dotted l ls)),
      )

  -- Where another string stands behind the final 0, the loop runs on into it, and its label is
  -- appended to the wire form.
  pub inet_format_name-overrun :
      (l m : Text)
      → IsLabel l
      → IsLabel m
      → Stored src from (l ++ 0 ∷ (m ++ 0 ∷ 0 ∷ []))
      → from + length l + length m + 3 ≤ src.size
      → to + length l + length m + 3 ≤ dest.size
      → length l + length m + 3 < fuel
      → Returns
          (inet_format_name fuel src from dest to)
          λ (k, len). Stored k to (wire (l ∷ m ∷ [])) × (len ≡ length l + 1)
  unfolding inet_format_name joined
  inet_format_name-overrun l m is is' s in_src in_dest f =
      let twice : List (Text × ℕ) = (l, 0) ∷ (m, 0) ∷ [] in
      let text : Stored src from (joined twice) = s in
      let size : length (joined twice) ≡ length l + length m + 3 = length-twice l m in
      let size' : length (wire (l ∷ m ∷ [])) ≡ length l + length m + 3 = length-wire_two l m in
      let (k, run, (stored, _, _)) =
        format_name-joined src twice fuel from to dest (is, refl, (is', refl, tt)) text
          (omega arith) (omega arith) (omega arith) in
      let measured =
        string_length-Stored src l (m ++ 0 ∷ 0 ∷ []) fuel from is.no_zero s (omega arith)
          (omega arith) in
      ((k, length l + 1), rw (run, measured), (stored, refl))

-- A dotted string that is turned into its wire form and back is the same string.
pub inet_parse_name-inet_format_name :
    (src dest back : Memory) (from to fuel : ℕ) (l : Text) (ls : List Text)
    → AllLabels (l ∷ ls)
    → Stored src from (dotted (l ∷ ls) ++ 0 ∷ 0 ∷ [])
    → from + length (dotted (l ∷ ls)) + 2 ≤ src.size
    → to + length (wire (l ∷ ls)) ≤ dest.size
    → length (dotted (l ∷ ls)) < back.size
    → length (dotted (l ∷ ls)) + 2 < fuel
    → Returns
        (do
          (formatted, len) ← inet_format_name fuel src from dest to
          inet_parse_name fuel formatted to back)
        λ k. Stored k 0 (dotted (l ∷ ls) ++ 0 ∷ [])
inet_parse_name-inet_format_name src dest back from to fuel l ls all s in_src in_dest room f =
    let ((k, len), run, (stored, size, _, _)) =
      inet_format_name-wire src from dest to fuel l ls all s in_src in_dest f in
    let (k', run', (stored', _)) =
      inet_parse_name-dotted k to l ls fuel back all stored (rw size in_dest) room
        (omega (arith, length-le-dotted l ls all)) in
    (k', rw run run', stored')
