-- ===== src/Ring/Walk.antt =====
-- What the functions of list.h that write nothing tell of a list.
use dns_relay_server.Base.{
  ℕ, zero, suc, ◌<◌, ◌≡◌, Bool, true, false, List, [], ◌∷◌, arith, has, length, ok, ◌==◌,
}
use dns_relay_server.Ring.{null, Links, is_empty, is_singular, walk, for_each}
use dns_relay_server.Ring.Chain.{Chain, IsRing, Chain-ends, has-last_of}

abbrev pub is_nil : List ℕ → Bool
is_nil [] = true
is_nil (x ∷ xs) = false

-- `mylist_empty` says whether the list has no node.
pub is_empty-is_nil :
    (l : Links) (head : ℕ) (xs : List ℕ) → IsRing l head xs → is_empty head l ≡ ok (is_nil xs)
unfolding is_empty
is_empty-is_nil l head [] ring = ground (arith, ring.chain, ring.head_nonnull)
is_empty-is_nil l head (x ∷ xs) ring = ground (arith, ring.chain.0, ring.head_nonnull, ring.apart)

-- `mylist_is_singular` says whether the list has exactly one node.
pub is_singular-length :
    (l : Links) (head : ℕ) (xs : List ℕ)
    → IsRing l head xs
    → is_singular head l ≡ ok (length xs == 1)
unfolding is_singular
is_singular-length l head [] ring =
    rw (is_empty-is_nil l head [] ring) (ground (arith, ring.head_nonnull))
is_singular-length l head (x ∷ []) ring =
    rw (is_empty-is_nil l head (x ∷ []) ring)
      (ground (arith, ring.chain.0, ring.chain.2, ring.head_nonnull))
is_singular-length l head (x ∷ y ∷ xs) ring = rw (is_empty-is_nil l head (x ∷ y ∷ xs) ring) (
    ground (
      arith,
      ring.chain.0,
      (Chain-ends l head (x ∷ y ∷ xs) head ring.chain).1,
      ring.head_nonnull,
      ring.distinct,
      has-last_of y xs,
    ))

walk-Chain :
    (fuel : ℕ) (l : Links) (head a : ℕ) (xs : List ℕ)
    → Chain l a xs head
    → has head xs ≡ false
    → has null xs ≡ false
    → length xs < fuel
    → walk fuel (l.next a) head l ≡ ok xs
unfolding walk
walk-Chain zero l head a xs c out n f = absurd (omega arith)
walk-Chain (suc fuel) l head a [] c out n f = ground (arith, c.0)
walk-Chain (suc fuel) l head a (x ∷ xs) c out n f =
    let here : (x == head) ≡ false = ground arith in
    let nonnull : (x == null) ≡ false = ground arith in
    let rest = walk-Chain fuel l head x xs c.2 (ground arith) (ground arith) (omega arith) in
    rw (c.0, here, nonnull, rest)

-- `mylist_for_each` visits the nodes in their order, once each, and stops: as many rounds as there
-- are nodes are enough.
pub for_each-IsRing :
    (fuel : ℕ) (l : Links) (head : ℕ) (xs : List ℕ)
    → IsRing l head xs
    → length xs < fuel
    → for_each fuel head l ≡ ok xs
unfolding for_each
for_each-IsRing fuel l head xs ring f =
    let nonnull : (head == null) ≡ false = ground (arith, ring.head_nonnull) in
    rw (nonnull, walk-Chain fuel l head head xs ring.chain ring.apart ring.nonnull f)
