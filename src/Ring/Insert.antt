-- ===== src/Ring/Insert.antt =====
-- `_mylist_add`, `mylist_add_head` and `mylist_add_tail` put a new node between two neighbours.
use mathlib.Core.List.{append-nil}
use dns_relay_server.Base.{
  ◌==◌, ℕ, ◌≡◌, refl, ◌≢◌, false, List, [], ◌∷◌, ◌++◌, arith, has, has-append, update, ok, Returns,
}
use dns_relay_server.Ring.{null, Links, list_add, add_head, add_tail, init_list_head}
use dns_relay_server.Ring.Chain.{
  IsRing, last_of, first_of, Chain-end, Chain-start, Chain-front, Chain-back, Chain-append,
  Distinct-with, IsRing-Parts, Chain-ends,
}

-- The memory after `_mylist_add(new, p, q)`.
abbrev pub added : (new p q : ℕ) → Links → Links
added new p q l = record {
  next = update (update l.next new q) p new;
  prev = update (update l.prev q new) new p;
}

list_add-ok :
    (new p q : ℕ) (l : Links)
    → new ≢ null
    → p ≢ null
    → q ≢ null
    → list_add new p q l ≡ ok (added new p q l)
unfolding list_add
list_add-ok new p q l hn hp hq = ground arith

module _ {l : Links} {head : ℕ} (new : ℕ) (ys zs : List ℕ) (ring : IsRing l head (ys ++ zs)) where
  -- The pointers are those of the list with the node between the two.
  pub added-IsRing :
      new ≢ null
      → new ≢ head
      → has new (ys ++ zs) ≡ false
      → IsRing (added new (last_of head ys) (first_of zs head) l) head (ys ++ new ∷ zs)
  added-IsRing hn hh out =
      let parts = IsRing-Parts l head ys zs ring in
      let open_new = has-append new ys zs in
      let p = last_of head ys in
      let q = first_of zs head in
      let front =
        Chain-end l (added new p q l) head ys q new (Chain-front l head ys zs head ring.chain)
          parts.front_apart parts.front_distinct (λ r h. ground (arith, parts.disjoint r))
          (λ r h ne. ground arith) (ground arith) (ground arith) in
      let back =
        Chain-start l (added new p q l) p new zs head (Chain-back l head ys zs head ring.chain)
          parts.back_apart parts.back_distinct
          (λ r h ne. ground (arith, has-append r zs (head ∷ [])))
          (λ r h. ground (arith, parts.disjoint p)) (ground arith) (ground arith) in
      record {
        chain = Chain-append _ head ys new zs head front back;
        apart = ground (arith, has-append head ys (new ∷ zs));
        distinct = Distinct-with ys new zs ring.distinct out;
        nonnull =
            ground (arith, has-append null ys (new ∷ zs), has-append null ys zs, ring.nonnull);
        head_nonnull = ring.head_nonnull;
      }

  -- `_mylist_add` between two neighbours of a list puts a node that is not in it between them.
  pub list_add-IsRing :
      new ≢ null
      → new ≢ head
      → has new (ys ++ zs) ≡ false
      → Returns
          (list_add new (last_of head ys) (first_of zs head) l)
          λ k. IsRing k head (ys ++ new ∷ zs)
  list_add-IsRing hn hh out =
      let parts = IsRing-Parts l head ys zs ring in
      (
        added new (last_of head ys) (first_of zs head) l,
        list_add-ok new _ _ l hn parts.last_nonnull parts.first_nonnull,
        added-IsRing hn hh out,
      )

module _ {l : Links} {head : ℕ} (new : ℕ) (xs : List ℕ) (ring : IsRing l head xs) where
  -- `mylist_add_head` puts a node that is not in the list in front.
  pub add_head-IsRing :
      new ≢ null
      → new ≢ head
      → has new xs ≡ false
      → Returns (add_head new head l) λ k. IsRing k head (new ∷ xs)
  unfolding add_head
  add_head-IsRing hn hh out =
      let ends = Chain-ends l head xs head ring.chain in
      let nonnull : (head == null) ≡ false = ground (arith, ring.head_nonnull) in
      rw (nonnull, ends.0) (list_add-IsRing new [] xs ring hn hh out)

  -- `mylist_add_tail` puts a node that is not in the list at its end.
  pub add_tail-IsRing :
      new ≢ null
      → new ≢ head
      → has new xs ≡ false
      → Returns (add_tail new head l) λ k. IsRing k head (xs ++ new ∷ [])
  unfolding add_tail
  add_tail-IsRing hn hh out =
      let ends = Chain-ends l head xs head ring.chain in
      let nonnull : (head == null) ≡ false = ground (arith, ring.head_nonnull) in
      let whole : IsRing l head (xs ++ []) = rw append-nil ring in
      rw (nonnull, ends.1) (list_add-IsRing new xs [] whole hn hh (rw append-nil out))

-- `INIT_MY_LIST_HEAD` makes a node the head of an empty list.
pub init_list_head-IsRing :
    (l : Links) (head : ℕ) → head ≢ null → Returns (init_list_head head l) λ k. IsRing k head []
unfolding init_list_head
init_list_head-IsRing l head h = (
  record { next = update l.next head head; prev = update l.prev head head },
  ground arith,
  record {
    chain = (ground arith, ground arith);
    apart = refl;
    distinct = tt;
    nonnull = refl;
    head_nonnull = h;
  },
)
