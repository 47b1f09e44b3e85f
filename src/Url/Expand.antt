-- ===== src/Url/Expand.antt =====
-- The labels behind a name pointer are copied to where the pointer stood.
use dns_relay_server.Base.{
  ℕ, zero, suc, ◌+◌, ◌*◌, ◌≤◌, ◌<◌, ◌≡◌, ◌∙◌, refl, true, false, ltb, ◌==◌, List, [], ◌∷◌, ◌++◌,
  length, length-append, update, arith, ok, Returns,
}
use dns_relay_server.Entry.{Text}
use dns_relay_server.Memory.{Memory, copy_bytes}
use dns_relay_server.Memory.Stored.{
  Stored, SameOutside, Stored-frame, Stored-append, Stored-split, copy_bytes-Stored,
}
use dns_relay_server.Inet.Names.{wire, IsLabel, AllLabels}
use dns_relay_server.Inet.Body.{body}
use dns_relay_server.Url.{is_pointer, qname_ptr, copy_labels, expand}

-- The `n` cells from `p` on hold bytes.
abbrev pub IsBytes : Memory → ℕ → ℕ → Type 0
IsBytes m p n = (i : ℕ) → p ≤ i → i < p + n → m.at i < 256

module _ (buf : Memory) where
  -- One round: a label behind its length is copied.
  copy_labels-label :
      (fuel zip pos : ℕ) (temp : Memory) (l : Text)
      → IsLabel l
      → IsBytes buf zip (length l + 1)
      → Stored buf zip (length l ∷ l)
      → zip + length l + 1 ≤ buf.size
      → pos + length l + 1 ≤ temp.size
      → (k : Memory) × (copy_labels (suc fuel) buf zip temp pos
          ≡ copy_labels fuel buf (zip + (length l + 1)) k (pos + (length l + 1)))
        × Stored k pos (length l ∷ l)
        × SameOutside temp k pos (length l + 1)
  unfolding copy_labels
  copy_labels-label fuel zip pos temp l is bytes s in_buf in_temp =
      let n = length l in
      let readable : ltb zip buf.size ≡ true = ground arith in
      let readable' : ltb (zip + 1) buf.size ≡ true = ground (arith, is.nonempty) in
      let nonzero : (n == 0) ≡ false = ground (arith, is.nonempty) in
      let plain : is_pointer (n * 256 + buf.at (zip + 1)) ≡ false =
        ground (arith, is.short, is.nonempty, bytes (zip + 1)) in
      let count : n + 1 ≡ suc n = omega arith in
      let (k, run, (stored, same)) =
        copy_bytes-Stored (n ∷ l) buf zip temp pos s (omega arith) (omega arith) in
      let run' : copy_bytes (n + 1) buf zip temp pos ≡ ok k = rw count run in
      let same' : SameOutside temp k pos (n + 1) = rw count same in
      (k, rw (readable, s.0, nonzero, readable', plain, run'), stored, same')

  -- All labels of a name in its wire form, and its final 0.
  pub copy_labels-wire :
      (ls : List Text) (fuel zip pos : ℕ) (temp : Memory)
      → AllLabels ls
      → IsBytes buf zip (length (wire ls))
      → Stored buf zip (wire ls)
      → zip + length (wire ls) ≤ buf.size
      → pos + length (wire ls) ≤ temp.size
      → length ls < fuel
      → (k : Memory) × (copy_labels fuel buf zip temp pos ≡ ok (k, pos + length (body ls), 0))
        × Stored k pos (wire ls)
        × (k.size ≡ temp.size)
        × ((i : ℕ) → i < pos → k.at i ≡ temp.at i)
  unfolding wire
  copy_labels-wire ls zero zip pos temp all bytes s in_buf in_temp f = absurd (omega arith)
  copy_labels-wire [] (suc fuel) zip pos temp all bytes s in_buf in_temp f =
      unfold copy_labels in
      (let readable : ltb zip buf.size ≡ true = ground arith in
        let writable : ltb pos temp.size ≡ true = ground arith in
        let place : pos + 0 ≡ pos = omega arith in
        (
          record temp { at = update temp.at pos 0 },
          rw (readable, s.0, writable, place),
          (ground arith, tt),
          refl,
          λ i h. ground arith,
        ))
  copy_labels-wire (l ∷ ls) (suc fuel) zip pos temp all bytes s in_buf in_temp f =
      let n = length l in
      let total = length-append {0} l (wire ls) in
      let total' = length-append {0} l (body ls) in
      let (front, back) = Stored-split buf zip (zip + (n + 1)) (n ∷ l) (wire ls) (omega arith) s in
      let (k, run, stored, same) =
        copy_labels-label fuel zip pos temp l all.0 (λ i h h'. bytes i h (omega arith)) front
          (omega arith) (omega arith) in
      let (k', run', stored', size', below') =
        copy_labels-wire ls fuel (zip + (n + 1)) (pos + (n + 1)) k all.1
          (λ i h h'. bytes i (omega arith) (omega arith)) back (omega arith)
          (omega (arith, same.size)) (omega arith) in
      let label = Stored-frame k k' pos (n ∷ l) stored (λ i h j. below' i (omega arith)) in
      let place : pos + (n + 1) + length (body ls) ≡ pos + suc (length (l ++ body ls)) =
        omega arith in
      (
        k',
        rw place at (run ∙ run'),
        Stored-append k' pos (pos + (n + 1)) (n ∷ l) (wire ls) (omega arith) label stored',
        size' ∙ same.size,
        λ i h. ground (arith, same.below i, below' i),
      )

  -- A pointer to a name without a pointer: two rounds are enough.
  pub expand-pointer :
      (ls : List Text) (fuel offset pos : ℕ) (temp : Memory)
      → AllLabels ls
      → offset < 16384
      → IsBytes buf offset (length (wire ls))
      → Stored buf offset (wire ls)
      → offset + length (wire ls) ≤ buf.size
      → pos + length (wire ls) ≤ temp.size
      → length ls + 2 < fuel
      → Returns (expand fuel buf temp pos (49152 + offset)) λ k.
        Stored k pos (wire ls) × (k.size ≡ temp.size) × ((i : ℕ) → i < pos → k.at i ≡ temp.at i)
  unfolding expand
  expand-pointer ls zero offset pos temp all small bytes s in_buf in_temp f = absurd (omega arith)
  expand-pointer ls (suc zero) offset pos temp all small bytes s in_buf in_temp f =
      absurd (omega arith)
  expand-pointer ls (suc (suc fuel)) offset pos temp all small bytes s in_buf in_temp f =
      let pointer : is_pointer (49152 + offset) ≡ true = ground arith in
      let place : qname_ptr (49152 + offset) ≡ offset = omega arith in
      let (k, run, stored, size, below) =
        copy_labels-wire ls (suc fuel) offset pos temp all bytes s in_buf in_temp (omega arith) in
      (k, rw (pointer, place, run), (stored, size, below))

-- No pointer at the end: nothing is expanded.
pub expand-plain :
    (fuel : ℕ) (buf temp : Memory) (pos n : ℕ)
    → 0 < fuel
    → is_pointer n ≡ false
    → expand fuel buf temp pos n ≡ ok temp
unfolding expand
expand-plain zero buf temp pos n f plain = absurd (omega arith)
expand-plain (suc fuel) buf temp pos n f plain = rw plain
