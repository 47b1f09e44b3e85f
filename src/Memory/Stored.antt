-- ===== src/Memory/Stored.antt =====
-- When a buffer holds given bytes from a given place on.
use dns_relay_server.Base.{
  ℕ, suc, ◌+◌, ◌/◌, ◌%◌, ok, ◌≤◌, ◌<◌, ◌≡◌, ◌∙◌, refl, true, ltb, update, List, [], ◌∷◌, ◌++◌,
  length, get_elem?, some, arith, Returns,
}
use dns_relay_server.Memory.{Memory, load16, store16, copy_bytes}

abbrev pub Stored : Memory → ℕ → List ℕ → Type 0
Stored m p [] = Unit
Stored m p (b ∷ bs) = (m.at p ≡ b) × Stored m (suc p) bs

-- The two buffers have the same size and the same contents outside `[p, p + n)`.
pub record SameOutside (m k : Memory) (p n : ℕ) : Type 0 where
  pub size : k.size ≡ m.size
  pub below : (i : ℕ) → i < p → k.at i ≡ m.at i
  pub above : (i : ℕ) → p + n ≤ i → k.at i ≡ m.at i

pub Stored-frame :
    (m k : Memory) (p : ℕ) (bs : List ℕ)
    → Stored m p bs
    → ((i : ℕ) → p ≤ i → i < p + length bs → k.at i ≡ m.at i)
    → Stored k p bs
Stored-frame m k p [] s same = tt
Stored-frame m k p (b ∷ bs) s same = (
  ground (arith, s.0, same p),
  Stored-frame m k (suc p) bs s.1 (λ i h j. same i (omega arith) (omega arith)),
)

pub Stored-append :
    (m : Memory) (p q : ℕ) (xs ys : List ℕ)
    → q ≡ p + length xs
    → Stored m p xs
    → Stored m q ys
    → Stored m p (xs ++ ys)
Stored-append m p q [] ys e s t = let e' : q ≡ p = omega arith in rw e' at t
Stored-append m p q (x ∷ xs) ys e s t = (s.0, Stored-append m (suc p) q xs ys (omega arith) s.1 t)

pub Stored-split :
    (m : Memory) (p q : ℕ) (xs ys : List ℕ)
    → q ≡ p + length xs
    → Stored m p (xs ++ ys)
    → Stored m p xs × Stored m q ys
Stored-split m p q [] ys e s = let e' : p ≡ q = omega arith in (tt, rw e' at s)
Stored-split m p q (x ∷ xs) ys e s =
    let (front, back) = Stored-split m (suc p) q xs ys (omega arith) s.1 in ((s.0, front), back)

-- Copying puts the bytes where they shall be and writes nothing else.
pub copy_bytes-Stored :
    (bs : List ℕ) (src : Memory) (from : ℕ) (dest : Memory) (to : ℕ)
    → Stored src from bs
    → from + length bs ≤ src.size
    → to + length bs ≤ dest.size
    → Returns
        (copy_bytes (length bs) src from dest to)
        λ k. Stored k to bs × SameOutside dest k to (length bs)
unfolding copy_bytes
copy_bytes-Stored [] src from dest to s room room' =
    (dest, refl, (tt, record { size = refl; below = λ i h. refl; above = λ i h. refl }))
copy_bytes-Stored (b ∷ bs) src from dest to s room room' =
    let in_src : ltb from src.size ≡ true = ground arith in
    let in_dest : ltb to dest.size ≡ true = ground arith in
    let dest' : Memory = record dest { at = update dest.at to b } in
    let (k, run, (stored, same)) =
      copy_bytes-Stored bs src (suc from) dest' (suc to) s.1 (omega arith) (omega arith) in
    (
      k,
      rw (in_src, s.0, in_dest) run,
      (
        (ground (arith, same.below to, s.0), stored),
        record {
          size = same.size;
          below = λ i h. ground (arith, same.below i);
          above = λ i h. ground (arith, same.above i);
        },
      ),
    )

pub load16-Stored :
    (src : Memory) (pos n : ℕ)
    → src.at pos ≡ n / 256
    → src.at (pos + 1) ≡ n % 256
    → pos + 1 < src.size
    → load16 src pos ≡ ok n
load16-Stored src pos n high low inside = ground (arith)

-- The two bytes that `htons` makes of a number.
abbrev pub bytes16 : ℕ → List ℕ
bytes16 n = n / 256 % 256 ∷ n % 256 ∷ []

-- Two changes inside one region.
pub SameOutside-join :
    (m k j : Memory) (p p' n n' N : ℕ)
    → p ≤ p'
    → n ≤ N
    → p' + n' ≤ p + N
    → SameOutside m k p n
    → SameOutside k j p' n'
    → SameOutside m j p N
SameOutside-join m k j p p' n n' N le fits fits' one two = record {
  size = two.size ∙ one.size;
  below = λ i h. two.below i (omega arith) ∙ one.below i h;
  above = λ i h. two.above i (omega arith) ∙ one.above i (omega arith);
}

pub store16-Stored :
    (m : Memory) (q n : ℕ)
    → q + 1 < m.size
    → Returns (store16 m q n) λ k. Stored k q (bytes16 n) × SameOutside m k q 2
store16-Stored m q n room =
    let first : ltb q m.size ≡ true = ground (arith, room) in
    let second : ltb (q + 1) m.size ≡ true = ground (arith, room) in
    let next : suc q ≡ q + 1 = omega arith in
    let k : Memory = record m { at = update (update m.at q (n / 256 % 256)) (q + 1) (n % 256) } in
    (
      k,
      rw (first, second),
      (
        (ground arith, (ground arith, tt)),
        record { size = refl; below = λ i h. ground arith; above = λ i h. ground arith },
      ),
    )

-- A number behind what was written so far.
pub store16-append :
    (base m : Memory) (pos q n : ℕ) (xs : List ℕ)
    → q ≡ pos + length xs
    → Stored m pos xs
    → SameOutside base m pos (length xs)
    → q + 1 < m.size
    → Returns
        (store16 m q n)
        λ k. Stored k pos (xs ++ bytes16 n) × SameOutside base k pos (length xs + 2)
store16-append base m pos q n xs e stored same room =
    let (k, run, (written, same')) = store16-Stored m q n room in
    let kept = Stored-frame m k pos xs stored (λ i h j. same'.below i (omega arith)) in
    (
      k,
      run,
      (
        Stored-append k pos q xs (bytes16 n) e kept written,
        SameOutside-join base m k pos q (length xs) 2 (length xs + 2) (omega arith) (omega arith)
            (omega arith) same same',
      ),
    )

-- Two bytes that stand there are read as the number.
pub load16-bytes16 :
    (m : Memory) (q n : ℕ) → n < 65536 → Stored m q (bytes16 n) → q + 1 < m.size → load16 m q ≡ ok n
load16-bytes16 m q n small s room =
    let next : suc q ≡ q + 1 = omega arith in
    let low : m.at (q + 1) ≡ n % 256 = rw next at s.1.0 in
    load16-Stored m q n (ground (arith, s.0, small)) low room

pub Stored-same : (m k : Memory) (p : ℕ) (bs : List ℕ) → k ≡ m → Stored m p bs → Stored k p bs
Stored-same m k p [] e s = tt
Stored-same m k p (b ∷ bs) e s = (rw e s.0, Stored-same m k (suc p) bs e s.1)

-- The bytes are the elements from a place on.
pub Stored-elements :
    (bs : List ℕ) (m : Memory) (p : ℕ)
    → ((i b : ℕ) → get_elem? bs i ≡ some b → m.at (p + i) ≡ b)
    → Stored m p bs
Stored-elements [] m p same = tt
Stored-elements (b ∷ bs) m p same =
    let first : p + 0 ≡ p = omega arith in
    (
      rw first at (same 0 b refl),
      Stored-elements bs m (suc p) (λ i c e.
          let next : p + suc i ≡ suc p + i = omega arith in rw next at (same (suc i) c e)),
    )
