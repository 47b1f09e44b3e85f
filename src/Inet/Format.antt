-- ===== src/Inet/Format.antt =====
-- `inetFormat(AF_MAX, …)` of a dotted string.
use dns_relay_server.Base.{
  ℕ, zero, suc, ◌+◌, ◌-◌, ◌%◌, ◌≤◌, ◌<◌, ◌≡◌, ◌∙◌, refl, true, false, ltb, ◌==◌, ◌||◌, List, [],
  ◌∷◌, ◌++◌, length, length-append, update, has, arith, Returns, ok,
}
use dns_relay_server.Entry.{Text}
use dns_relay_server.Memory.{Memory}
use dns_relay_server.Memory.Stored.{Stored, SameOutside, Stored-frame, Stored-append, Stored-split}
use dns_relay_server.Inet.{dot, format_label, format_name, string_length}
use dns_relay_server.Inet.Names.{wire, IsLabel, joined, labels, AllEnded}

module _ (src : Memory) where
  -- The inner loop copies and counts the bytes up to a dot or a 0.
  format_label-copies :
      (l : Text) (fuel p q len p' q' len' : ℕ) (dest : Memory)
      → (p' ≡ p + length l) × (q' ≡ q + length l) × (len' ≡ len + length l)
      → has dot l ≡ false
      → has 0 l ≡ false
      → Stored src p l
      → ((src.at p' == dot) || (src.at p' == 0)) ≡ true
      → p' < src.size
      → q' ≤ dest.size
      → len' < 256
      → length l < fuel
      → (k : Memory) × (format_label fuel src p q len dest ≡ ok (len', p', q', k))
        × Stored k q l
        × SameOutside dest k q (length l)
  unfolding format_label
  format_label-copies l zero p q len p' q' len' dest eqs nd nz s e in_src in_dest small f =
      absurd (omega arith)
  format_label-copies [] (suc fuel) p q len p' q' len' dest eqs nd nz s e in_src in_dest small f =
      let ep : p ≡ p' = omega arith in
      let eq : q ≡ q' = omega arith in
      let el : len ≡ len' = omega arith in
      let readable : ltb p' src.size ≡ true = ground arith in
      (
        dest,
        rw (ep, eq, el, readable, e),
        tt,
        record { size = refl; below = λ i h. refl; above = λ i h. refl },
      )
  format_label-copies (b ∷ l) (suc fuel) p q len p' q' len' dest eqs nd nz s e in_src in_dest small
        f =
      let dest' : Memory = record dest { at = update dest.at q b } in
      let readable : ltb p src.size ≡ true = ground arith in
      let writable : ltb q dest.size ≡ true = ground arith in
      let inner : ((b == dot) || (b == 0)) ≡ false = ground arith in
      let (k, run, stored, same) =
        format_label-copies l fuel (suc p) (suc q) ((len + 1) % 256) p' q' len' dest' (omega arith)
          (ground arith) (ground arith) s.1 e in_src in_dest small (omega arith) in
      (
        k,
        rw (readable, s.0, inner, writable) run,
        (ground (arith, same.below q), stored),
        record {
          size = same.size;
          below = λ i h. ground (arith, same.below i);
          above = λ i h. ground (arith, same.above i);
        },
      )

  -- One round of the outer loop: the label stands behind its length.
  format_name-label :
      (l : Text) (fuel p q p' q' : ℕ) (dest : Memory)
      → (p' ≡ p + length l) × (q' ≡ suc q + length l)
      → IsLabel l
      → Stored src p l
      → ((src.at p' == dot) || (src.at p' == 0)) ≡ true
      → p' < src.size
      → q' ≤ dest.size
      → length l < fuel
      → (k : Memory) × (format_name (suc fuel) src p q (suc q) dest
          ≡ format_name fuel src (suc p') q' (suc q') k)
        × Stored k q (length l ∷ l)
        × SameOutside dest k q (suc (length l))
  unfolding format_name
  format_name-label l fuel p q p' q' dest eqs is s e in_src in_dest f =
      let (k, run, stored, same) =
        format_label-copies l fuel p (suc q) 0 p' q' (length l) dest (omega arith) is.no_dot
          is.no_zero s e in_src in_dest (omega (arith, is.short)) f in
      let k' : Memory = record k { at = update k.at q (length l) } in
      let readable : ltb p src.size ≡ true = ground arith in
      let writable : ltb q k.size ≡ true = ground (arith, same.size) in
      let more : (src.at p == 0) ≡ false = starts l is s in
      (
        k',
        rw (readable, more, run, writable),
        (ground arith, Stored-frame k k' (suc q) l stored (λ i h j. ground arith)),
        record {
          size = same.size;
          below = λ i h. ground (arith, same.below i);
          above = λ i h. ground (arith, same.above i);
        },
      )
    where
      starts : (l : Text) → IsLabel l → Stored src p l → (src.at p == 0) ≡ false
      starts [] is s = absurd (omega (arith, is.nonempty))
      starts (b ∷ l) is s = ground (arith, is.no_zero, s.0)

  pub format_name-joined :
      (r : List (Text × ℕ)) (fuel p q : ℕ) (dest : Memory)
      → AllEnded r
      → Stored src p (joined r)
      → p + length (joined r) ≤ src.size
      → q + length (wire (labels r)) ≤ dest.size
      → length (joined r) < fuel
      → Returns (format_name fuel src p q (suc q) dest) λ k.
        Stored k q (wire (labels r)) × (k.size ≡ dest.size) × ((i : ℕ) → i < q → k.at i ≡ dest.at i)
  unfolding wire joined
  format_name-joined r zero p q dest all s in_src in_dest f = absurd (omega arith)
  format_name-joined [] (suc fuel) p q dest all s in_src in_dest f =
      unfold format_name in
      (let readable : ltb p src.size ≡ true = ground arith in
        let writable : ltb q dest.size ≡ true = ground arith in
        let place : suc q - 1 ≡ q = omega arith in
        (
          record dest { at = update dest.at q 0 },
          rw (readable, s.0, place, writable),
          ((ground arith, tt), refl, λ i h. ground arith),
        ))
  format_name-joined ((l, e) ∷ r) (suc fuel) p q dest all s in_src in_dest f =
      let n = length l in
      let total = length-append {0} l (e ∷ joined r) in
      let total' = length-append {0} l (wire (labels r)) in
      let (front, back) = Stored-split src p (p + n) l (e ∷ joined r) refl s in
      let (k, run, stored, same) =
        format_name-label l fuel p q (p + n) (suc q + n) dest (refl, refl) all.0 front
          (rw back.0 all.1) (omega arith) (omega arith) (omega arith) in
      let (k', run', (stored', size', below')) =
        format_name-joined r fuel (suc (p + n)) (suc q + n) k all.2 back.1 (omega arith)
          (omega (arith, same.size)) (omega arith) in
      let label = Stored-frame k k' q (n ∷ l) stored (λ i h j. below' i (omega arith)) in
      (
        k',
        run ∙ run',
        (
          Stored-append k' q (suc q + n) (n ∷ l) (wire (labels r)) (omega arith) label stored',
          size' ∙ same.size,
          λ i h. ground (arith, same.below i, below' i),
        ),
      )

  pub string_length-Stored :
      (s t : Text) (fuel p : ℕ)
      → has 0 s ≡ false
      → Stored src p (s ++ 0 ∷ t)
      → p + length s < src.size
      → length s < fuel
      → string_length fuel src p ≡ ok (length s)
  unfolding string_length
  string_length-Stored s t zero p nz st in_src f = absurd (omega arith)
  string_length-Stored [] t (suc fuel) p nz st in_src f =
      let readable : ltb p src.size ≡ true = ground arith in rw (readable, st.0)
  string_length-Stored (b ∷ s) t (suc fuel) p nz st in_src f =
      let readable : ltb p src.size ≡ true = ground arith in
      let more : (b == 0) ≡ false = ground arith in
      let rest =
        string_length-Stored s t fuel (suc p) (ground arith) st.1 (omega arith) (omega arith) in
      rw (readable, st.0, more, rest)
