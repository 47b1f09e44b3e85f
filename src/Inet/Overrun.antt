-- ===== src/Inet/Overrun.antt =====
-- `inetParse(AF_MAX, …)` of a name that the destination has no room for.
use dns_relay_server.Base.{
  ℕ, zero, suc, ◌+◌, ◌≤◌, ◌<◌, ◌≡◌, ◌∙◌, refl, true, false, ltb, ◌==◌, List, [], ◌∷◌, length,
  length-append, update, arith, fault, Bool-cases, inl, inr,
}
use dns_relay_server.Entry.{Text}
use dns_relay_server.Memory.{Memory, copy_bytes}
use dns_relay_server.Memory.Stored.{Stored, Stored-split, copy_bytes-Stored}
use dns_relay_server.Inet.{dot, label_length, parse_name, inet_parse_name}
use dns_relay_server.Inet.Names.{wire, dotted, IsLabel, AllLabels}
use dns_relay_server.Inet.Parse.{parse_name-label}

-- A copy behind the end of the destination.
copy_bytes-overrun :
    (bs : Text) (src : Memory) (from : ℕ) (dest : Memory) (to : ℕ)
    → 0 < length bs
    → from + length bs ≤ src.size
    → dest.size < to + length bs
    → copy_bytes (length bs) src from dest to ≡ fault
unfolding copy_bytes
copy_bytes-overrun [] src from dest to some room over = absurd (omega arith)
copy_bytes-overrun (b ∷ bs) src from dest to some room over =
    let readable : ltb from src.size ≡ true = ground arith in
    elim (Bool-cases (ltb to dest.size)) [
      | inr h ↦ rw (readable, h)
      | inl h ↦
          let more : 0 < length bs = ground (arith, h) in
          rw (readable, h)
            (copy_bytes-overrun bs src (suc from)
              (record dest { at = update dest.at to (src.at from) }) (suc to) more (omega arith)
              (omega arith))
    ]

module _ (src : Memory) (start : ℕ) where
  -- A round whose dot has no room.
  parse_name-label_overrun :
      (fuel pos : ℕ) (dest : Memory) (l : Text)
      → IsLabel l
      → Stored src (start + pos) (length l ∷ l)
      → start + pos + length l < src.size
      → dest.size ≤ pos + length l
      → parse_name (suc fuel) src start pos dest ≡ fault
  unfolding parse_name label_length
  parse_name-label_overrun fuel pos dest l is s in_src over =
      let n = length l in
      let shift : suc (start + pos) ≡ start + pos + 1 = omega arith in
      let body : Stored src (start + pos + 1) l = rw shift at s.1 in
      let readable : ltb (start + pos) src.size ≡ true = ground arith in
      let nonzero : (n == 0) ≡ false = ground (arith, is.nonempty) in
      let positive : ltb n 128 ≡ true = ground (arith, is.short) in
      let unclamped : ltb 64 n ≡ false = ground (arith, is.short) in
      elim (Bool-cases (ltb dest.size (pos + n))) [
        | inl h ↦
            let run =
              copy_bytes-overrun l src (start + pos + 1) dest pos is.nonempty (omega arith)
                (ground (arith, h)) in
            rw (readable, s.0, nonzero, positive, unclamped, run)
        | inr h ↦
            let (k, run, (stored, same)) =
              copy_bytes-Stored l src (start + pos + 1) dest pos body (omega arith)
                (ground (arith, h)) in
            let full : ltb (pos + n) k.size ≡ false = ground (arith, same.size) in
            rw (readable, s.0, nonzero, positive, unclamped, run, full)
      ]

  parse_name-overrun :
      (l : Text) (ls : List Text) (fuel pos : ℕ) (dest : Memory)
      → AllLabels (l ∷ ls)
      → Stored src (start + pos) (wire (l ∷ ls))
      → start + pos + length (wire (l ∷ ls)) ≤ src.size
      → dest.size ≤ pos + length (dotted (l ∷ ls))
      → length ls < fuel
      → parse_name fuel src start pos dest ≡ fault
  unfolding wire dotted
  parse_name-overrun l ls zero pos dest all s in_src over f = absurd (omega arith)
  parse_name-overrun l [] (suc fuel) pos dest all s in_src over f =
      let total = length-append {0} l (0 ∷ []) in
      let (front, _) =
        Stored-split src (suc (start + pos)) (suc (start + pos) + length l) l (0 ∷ []) refl s.1 in
      parse_name-label_overrun fuel pos dest l all.0 (s.0, front) (omega arith) over
  parse_name-overrun l (m ∷ ls) (suc fuel) pos dest all s in_src over f =
      let n = length l in
      let total = length-append {0} l (wire (m ∷ ls)) in
      let total' = length-append {0} l (dot ∷ dotted (m ∷ ls)) in
      let (front, back) =
        Stored-split src (suc (start + pos)) (start + (pos + n + 1)) l (wire (m ∷ ls)) (omega arith)
          s.1 in
      elim (Bool-cases (ltb (pos + n) dest.size)) [
        | inr h ↦
            parse_name-label_overrun fuel pos dest l all.0 (s.0, front) (omega arith)
              (ground (arith, h))
        | inl h ↦
            let (k, run, stored, size, below) =
              parse_name-label src start fuel pos dest l all.0 (s.0, front) (omega arith)
                (ground (arith, h)) in
            run
            ∙ parse_name-overrun m ls fuel (pos + n + 1) k all.1 back (omega arith)
                (omega (arith, size)) (omega arith)
      ]

  -- The wire form of a name with labels, inside its buffer: when the destination is not larger than
  -- the dotted string, `inetParse` writes behind its end.
  pub inet_parse_name-overrun :
      (l : Text) (ls : List Text) (fuel : ℕ) (dest : Memory)
      → AllLabels (l ∷ ls)
      → Stored src start (wire (l ∷ ls))
      → start + length (wire (l ∷ ls)) ≤ src.size
      → dest.size ≤ length (dotted (l ∷ ls))
      → length ls < fuel
      → inet_parse_name fuel src start dest ≡ fault
  unfolding inet_parse_name
  inet_parse_name-overrun l ls fuel dest all s in_src over f =
      let base : start ≡ start + 0 = omega arith in
      parse_name-overrun l ls fuel 0 dest all (rw base at s) (omega arith) (omega (arith, over)) f
