-- ===== src/Ring/Chain.antt =====
-- When a part of the memory is a list: `Chain l a xs b` follows `next` from `a` through the nodes
-- `xs` to `b`, and `prev` back again; `IsRing l head xs` is the circular list of `xs` at `head`.
use dns_relay_server.Base.{
  ℕ, ◌≡◌, ◌≢◌, true, false, List, [], ◌∷◌, ◌++◌, arith, has, Distinct, has-append,
}
use dns_relay_server.Ring.{null, Links}

abbrev pub Chain : Links → ℕ → List ℕ → ℕ → Type 0
Chain l a [] b = (l.next a ≡ b) × (l.prev b ≡ a)
Chain l a (x ∷ xs) b = (l.next a ≡ x) × (l.prev x ≡ a) × Chain l x xs b

pub record IsRing (l : Links) (head : ℕ) (xs : List ℕ) : Type 0 where
  pub chain : Chain l head xs head
  pub apart : has head xs ≡ false
  pub distinct : Distinct xs
  pub nonnull : has null xs ≡ false
  pub head_nonnull : head ≢ null

-- The last node of `a ∷ xs` and the first of `xs ++ [b]`.
abbrev pub last_of : ℕ → List ℕ → ℕ
last_of a [] = a
last_of a (x ∷ xs) = last_of x xs

abbrev pub first_of : List ℕ → ℕ → ℕ
first_of [] b = b
first_of (x ∷ xs) b = x

pub has-last_of : (a : ℕ) (xs : List ℕ) → has (last_of a xs) (a ∷ xs) ≡ true
has-last_of a [] = ground arith
has-last_of a (x ∷ xs) = ground (arith, has-last_of x xs)

pub Chain-ends :
    (l : Links) (a : ℕ) (xs : List ℕ) (b : ℕ)
    → Chain l a xs b
    → (l.next a ≡ first_of xs b) × (l.prev b ≡ last_of a xs)
Chain-ends l a [] b c = c
Chain-ends l a (x ∷ xs) b c = (c.0, (Chain-ends l x xs b c.2).1)

pub Chain-append :
    (l : Links) (a : ℕ) (xs : List ℕ) (m : ℕ) (ys : List ℕ) (b : ℕ)
    → Chain l a xs m
    → Chain l m ys b
    → Chain l a (xs ++ m ∷ ys) b
Chain-append l a [] m ys b c d = (c.0, c.1, d)
Chain-append l a (x ∷ xs) m ys b c d = (c.0, c.1, Chain-append l x xs m ys b c.2 d)

pub Chain-split :
    (l : Links) (a : ℕ) (xs : List ℕ) (m : ℕ) (ys : List ℕ) (b : ℕ)
    → Chain l a (xs ++ m ∷ ys) b
    → Chain l a xs m × Chain l m ys b
Chain-split l a [] m ys b c = ((c.0, c.1), c.2)
Chain-split l a (x ∷ xs) m ys b c =
    let (front, back) = Chain-split l x xs m ys b c.2 in ((c.0, c.1, front), back)

-- A chain that is led to another end: its inner pointers stay, and its last node is linked to `q`.
pub Chain-end :
    (l k : Links) (a : ℕ) (xs : List ℕ) (b q : ℕ)
    → Chain l a xs b
    → has a xs ≡ false
    → Distinct xs
    → ((p : ℕ) → has p xs ≡ true → k.prev p ≡ l.prev p)
    → ((p : ℕ) → has p (a ∷ xs) ≡ true → p ≢ last_of a xs → k.next p ≡ l.next p)
    → k.next (last_of a xs) ≡ q
    → k.prev q ≡ last_of a xs
    → Chain k a xs q
Chain-end l k a [] b q c out apart back on n p = (n, p)
Chain-end l k a (x ∷ xs) b q c out apart back on n p = (
  ground (arith, on a, has-last_of x xs),
  ground (arith, back x),
  Chain-end l k x xs b q c.2 apart.0 apart.1 (λ r h. back r (ground arith))
      (λ r h ne. on r (ground arith) ne) n p,
)

-- A chain whose nodes are not written stays a chain.
pub Chain-frame :
    (l k : Links) (a : ℕ) (xs : List ℕ) (b : ℕ)
    → Chain l a xs b
    → ((p : ℕ) → has p (xs ++ b ∷ []) ≡ true → k.prev p ≡ l.prev p)
    → ((p : ℕ) → has p (a ∷ xs) ≡ true → k.next p ≡ l.next p)
    → Chain k a xs b
Chain-frame l k a [] b c back on = ground (arith, on a, back b)
Chain-frame l k a (x ∷ xs) b c back on = (
  ground (arith, on a),
  ground (arith, back x),
  Chain-frame l k x xs b c.2 (λ r h. back r (ground arith)) (λ r h. on r (ground arith)),
)

pub has-first_of : (ys : List ℕ) (b : ℕ) → has (first_of ys b) (b ∷ ys) ≡ true
has-first_of [] b = ground arith
has-first_of (y ∷ ys) b = ground arith

pub Distinct-append :
    (xs ys : List ℕ)
    → Distinct (xs ++ ys)
    → Distinct xs × Distinct ys × ((p : ℕ) → has p xs ≡ true → has p ys ≡ false)
Distinct-append [] ys d = (tt, d, λ p h. cc)
Distinct-append (x ∷ xs) ys d =
    let (dx, dy, xy) = Distinct-append xs ys d.1 in
    let e = has-append x xs ys in ((ground arith, dx), dy, λ p h. ground (arith, xy p))

pub Distinct-without :
    (xs : List ℕ) (m : ℕ) (ys : List ℕ) → Distinct (xs ++ m ∷ ys) → Distinct (xs ++ ys)
Distinct-without [] m ys d = d.1
Distinct-without (x ∷ xs) m ys d =
    (ground (arith, has-append x xs (m ∷ ys), has-append x xs ys), Distinct-without xs m ys d.1)

pub Distinct-with :
    (xs : List ℕ) (m : ℕ) (ys : List ℕ)
    → Distinct (xs ++ ys)
    → has m (xs ++ ys) ≡ false
    → Distinct (xs ++ m ∷ ys)
Distinct-with [] m ys d out = (out, d)
Distinct-with (x ∷ xs) m ys d out = (
  ground (arith, has-append x xs (m ∷ ys), has-append x xs ys),
  Distinct-with xs m ys d.1 (ground arith),
)

-- A chain that starts at another node `p`: the mirror image of `Chain-end`.
pub Chain-start :
    (l k : Links) (a p : ℕ) (xs : List ℕ) (b : ℕ)
    → Chain l a xs b
    → has b xs ≡ false
    → Distinct xs
    → ((r : ℕ) → has r (xs ++ b ∷ []) ≡ true → r ≢ first_of xs b → k.prev r ≡ l.prev r)
    → ((r : ℕ) → has r xs ≡ true → k.next r ≡ l.next r)
    → k.next p ≡ first_of xs b
    → k.prev (first_of xs b) ≡ p
    → Chain k p xs b
Chain-start l k a p [] b c out apart back on n m = (n, m)
Chain-start l k a p (x ∷ xs) b c out apart back on n m = (
  n,
  m,
  Chain-frame l k x xs b c.2
      (λ r h. back r (ground arith) (ground (arith, has-append r xs (b ∷ [])))) on,
)

-- A chain falls into two at any place, and two such chains make one.
pub Chain-front :
    (l : Links) (a : ℕ) (xs ys : List ℕ) (b : ℕ)
    → Chain l a (xs ++ ys) b
    → Chain l a xs (first_of ys b)
Chain-front l a [] [] b c = c
Chain-front l a [] (y ∷ ys) b c = (c.0, c.1)
Chain-front l a (x ∷ xs) ys b c = (c.0, c.1, Chain-front l x xs ys b c.2)

pub Chain-back :
    (l : Links) (a : ℕ) (xs ys : List ℕ) (b : ℕ)
    → Chain l a (xs ++ ys) b
    → Chain l (last_of a xs) ys b
Chain-back l a [] ys b c = c
Chain-back l a (x ∷ xs) ys b c = Chain-back l x xs ys b c.2

pub Chain-glue :
    (l : Links) (a : ℕ) (xs ys : List ℕ) (b : ℕ)
    → Chain l a xs (first_of ys b)
    → Chain l (last_of a xs) ys b
    → Chain l a (xs ++ ys) b
Chain-glue l a [] ys b c d = d
Chain-glue l a (x ∷ xs) ys b c d = (c.0, c.1, Chain-glue l x xs ys b c.2 d)

-- What the two parts of a circular list, and the neighbours where they meet, have in common.
pub record Parts (head : ℕ) (ys zs : List ℕ) : Type 0 where
  pub front_apart : has head ys ≡ false
  pub back_apart : has head zs ≡ false
  pub front_distinct : Distinct ys
  pub back_distinct : Distinct zs
  pub disjoint : (p : ℕ) → has p ys ≡ true → has p zs ≡ false
  pub last_in : has (last_of head ys) (head ∷ ys) ≡ true
  pub first_in : has (first_of zs head) (head ∷ zs) ≡ true
  pub last_nonnull : last_of head ys ≢ null
  pub first_nonnull : first_of zs head ≢ null

pub IsRing-Parts :
    (l : Links) (head : ℕ) (ys zs : List ℕ) → IsRing l head (ys ++ zs) → Parts head ys zs
IsRing-Parts l head ys zs ring =
    let (dy, dz, dis) = Distinct-append ys zs ring.distinct in
    let e = has-append head ys zs in
    let n = has-append null ys zs in
    record {
      front_apart = ground (arith, ring.apart);
      back_apart = ground (arith, ring.apart);
      front_distinct = dy;
      back_distinct = dz;
      disjoint = dis;
      last_in = has-last_of head ys;
      first_in = has-first_of zs head;
      last_nonnull = ground (arith, ring.nonnull, ring.head_nonnull, has-last_of head ys);
      first_nonnull = ground (arith, ring.nonnull, ring.head_nonnull, has-first_of zs head);
    }
