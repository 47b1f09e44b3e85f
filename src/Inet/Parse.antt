-- ===== src/Inet/Parse.antt =====
-- `inetParse(AF_MAX, …)` of the wire form of a name.
use mathlib.Core.List.{append_assoc}
use dns_relay_server.Base.{
  ℕ, zero, suc, ◌+◌, ◌-◌, ◌≤◌, ◌<◌, ◌≡◌, refl, ◌∙◌, true, false, ltb, ◌==◌, List, [], ◌∷◌, ◌++◌,
  length, length-append, update, arith, Returns, ok, fault,
}
use dns_relay_server.Entry.{Text}
use dns_relay_server.Memory.{Memory}
use dns_relay_server.Memory.Stored.{
  Stored, Stored-frame, Stored-append, Stored-split, copy_bytes-Stored,
}
use dns_relay_server.Inet.{dot, label_length, parse_name, inet_parse_name}
use dns_relay_server.Inet.Names.{wire, dotted, IsLabel, AllLabels}

-- What the loop leaves in the destination from the place `pos` on.
abbrev Parsed : Memory → ℕ → Text → Memory → Type 0
Parsed dest pos s k =
    Stored k pos (s ++ 0 ∷ []) × (k.size ≡ dest.size) × ((i : ℕ) → i < pos → k.at i ≡ dest.at i)

module _ (src : Memory) (start : ℕ) where
  -- One round of the loop: a label and a dot are written.
  pub parse_name-label :
      (fuel pos : ℕ) (dest : Memory) (l : Text)
      → IsLabel l
      → Stored src (start + pos) (length l ∷ l)
      → start + pos + length l < src.size
      → pos + length l < dest.size
      → (k : Memory) × (parse_name (suc fuel) src start pos dest
          ≡ parse_name fuel src start (pos + length l + 1) k)
        × Stored k pos (l ++ dot ∷ [])
        × (k.size ≡ dest.size)
        × ((i : ℕ) → i < pos → k.at i ≡ dest.at i)
  unfolding parse_name label_length
  parse_name-label fuel pos dest l is s in_src in_dest =
      let n = length l in
      let shift : suc (start + pos) ≡ start + pos + 1 = omega arith in
      let body : Stored src (start + pos + 1) l = rw shift at s.1 in
      let (k, run, (stored, same)) =
        copy_bytes-Stored l src (start + pos + 1) dest pos body (omega arith) (omega arith) in
      let k' : Memory = record k { at = update k.at (pos + n) dot } in
      let readable : ltb (start + pos) src.size ≡ true = ground arith in
      let nonzero : (n == 0) ≡ false = ground (arith, is.nonempty) in
      let positive : ltb n 128 ≡ true = ground (arith, is.short) in
      let unclamped : ltb 64 n ≡ false = ground (arith, is.short) in
      let writable : ltb (pos + n) k.size ≡ true = ground (arith, same.size) in
      (
        k',
        rw (readable, s.0, nonzero, positive, unclamped, run, writable),
        Stored-append k' pos (pos + n) l (dot ∷ []) refl
            (Stored-frame k k' pos l stored (λ i h j. ground arith)) (ground arith, tt),
        same.size,
        λ i h. ground (arith, same.below i),
      )

  parse_name-end :
      (fuel pos : ℕ) (dest : Memory)
      → 0 < pos
      → src.at (start + pos) ≡ 0
      → start + pos < src.size
      → pos ≤ dest.size
      → parse_name (suc fuel) src start pos dest
        ≡ ok (record dest { at = update dest.at (pos - 1) 0 })
  unfolding parse_name
  parse_name-end fuel pos dest h z in_src in_dest =
      let readable : ltb (start + pos) src.size ≡ true = ground arith in
      let writable : ltb (pos - 1) dest.size ≡ true = ground arith in
      let later : (pos == 0) ≡ false = ground arith in rw (readable, z, later, writable)

  parse_name-Parsed :
      (l : Text) (ls : List Text) (fuel pos : ℕ) (dest : Memory)
      → AllLabels (l ∷ ls)
      → Stored src (start + pos) (wire (l ∷ ls))
      → start + pos + length (wire (l ∷ ls)) ≤ src.size
      → pos + length (dotted (l ∷ ls)) < dest.size
      → length ls + 1 < fuel
      → Returns (parse_name fuel src start pos dest) (Parsed dest pos (dotted (l ∷ ls)))
  unfolding wire dotted
  parse_name-Parsed l ls zero pos dest all s in_src in_dest f = absurd (omega arith)
  parse_name-Parsed l [] (suc zero) pos dest all s in_src in_dest f = absurd (omega arith)
  parse_name-Parsed l [] (suc (suc fuel)) pos dest all s in_src in_dest f =
      let n = length l in
      let total = length-append {0} l (0 ∷ []) in
      let (front, back) =
        Stored-split src (suc (start + pos)) (start + (pos + n + 1)) l (0 ∷ []) (omega arith) s.1 in
      let (k, run, stored, size, below) =
        parse_name-label (suc fuel) pos dest l all.0 (s.0, front) (omega arith) (omega arith) in
      let end =
        parse_name-end fuel (pos + n + 1) k (omega arith) back.0 (omega arith) (omega arith) in
      let k' : Memory = record k { at = update k.at (pos + n + 1 - 1) 0 } in
      let (label, _) = Stored-split k pos (pos + n) l (dot ∷ []) refl stored in
      (
        k',
        run ∙ end,
        (
          Stored-append k' pos (pos + n) l (0 ∷ []) refl
              (Stored-frame k k' pos l label (λ i h j. ground arith)) (ground arith, tt),
          size,
          λ i h. ground (arith, below i),
        ),
      )
  parse_name-Parsed l (m ∷ ls) (suc fuel) pos dest all s in_src in_dest f =
      let n = length l in
      let total = length-append {0} l (wire (m ∷ ls)) in
      let total' = length-append {0} l (dot ∷ dotted (m ∷ ls)) in
      let (front, back) =
        Stored-split src (suc (start + pos)) (start + (pos + n + 1)) l (wire (m ∷ ls)) (omega arith)
          s.1 in
      let (k, run, stored, size, below) =
        parse_name-label fuel pos dest l all.0 (s.0, front) (omega arith) (omega arith) in
      let (k', run', (stored', size', below')) =
        parse_name-Parsed m ls fuel (pos + n + 1) k all.1 back (omega arith) (omega arith)
          (omega arith) in
      let (label, point) = Stored-split k pos (pos + n) l (dot ∷ []) refl stored in
      let shift : pos + n + 1 ≡ suc (pos + n) = omega arith in
      let tail : Stored k' (suc (pos + n)) (dotted (m ∷ ls) ++ 0 ∷ []) = rw shift at stored' in
      let label' = Stored-frame k k' pos l label (λ i h j. below' i (omega arith)) in
      let point' : k'.at (pos + n) ≡ dot = ground (arith, below' (pos + n), point.0) in
      (
        k',
        run ∙ run',
        (
          rw append_assoc (Stored-append k' pos (pos + n) l _ refl label' (point', tail)),
          size' ∙ size,
          λ i h. ground (arith, below i, below' i),
        ),
      )

  -- A name of at least one label, read from its wire form inside a buffer into a buffer with room
  -- for the string and its final 0: there is no fault, one round for each label and one more are
  -- enough, and the destination holds the labels with dots between them and a final 0.
  pub inet_parse_name-dotted :
      (l : Text) (ls : List Text) (fuel : ℕ) (dest : Memory)
      → AllLabels (l ∷ ls)
      → Stored src start (wire (l ∷ ls))
      → start + length (wire (l ∷ ls)) ≤ src.size
      → length (dotted (l ∷ ls)) < dest.size
      → length ls + 1 < fuel
      → Returns
          (inet_parse_name fuel src start dest)
          λ k. Stored k 0 (dotted (l ∷ ls) ++ 0 ∷ []) × (k.size ≡ dest.size)
  unfolding inet_parse_name
  inet_parse_name-dotted l ls fuel dest all s in_src in_dest f =
      let base : start ≡ start + 0 = omega arith in
      let (k, run, (stored, size, _)) =
        parse_name-Parsed l ls fuel 0 dest all (rw base at s) (omega arith) (omega arith) f in
      (k, run, (stored, size))

  -- The wire form of the root, a name with no label, makes `inetParse` write in front of the
  -- destination: a fault, whatever the buffers.
  pub inet_parse_name-root :
      (fuel : ℕ) (dest : Memory)
      → Stored src start (wire [])
      → start < src.size
      → inet_parse_name (suc fuel) src start dest ≡ fault
  unfolding inet_parse_name parse_name wire
  inet_parse_name-root fuel dest s in_src =
      let base : start + 0 ≡ start = omega arith in
      let readable : ltb start src.size ≡ true = ground arith in rw (base, readable, s.0)
