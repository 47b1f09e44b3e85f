-- ===== src/Ring/Delete.antt =====
-- `mylist_del` and `mylist_del_init` take a node out of its list; `mylist_move_head`,
-- `mylist_move_tail` and the two rotations take it out and put it back at one of the ends.
use dns_relay_server.Base.{
  ℕ, ◌≡◌, refl, ◌≢◌, ap, ◌∙◌, true, false, List, [], ◌∷◌, ◌++◌, arith, has, has-append, update, ok,
  Returns, ◌==◌,
}
use dns_relay_server.Ring.{
  null, Links, list_del, unlink, init_list_head, del, del_init, is_last, move_head, move_tail,
  is_empty, rotate_node_head, rotate_node_tail,
}
use dns_relay_server.Ring.Chain.{
  IsRing, last_of, first_of, has-first_of, Chain-end, Chain-start, Chain-split, Chain-glue,
  Chain-frame, Chain-ends, Distinct-without, IsRing-Parts,
}
use dns_relay_server.Ring.Walk.{is_nil, is_empty-is_nil}
use dns_relay_server.Ring.Insert.{add_head-IsRing, add_tail-IsRing}

-- The memory after `_mylist_del(p, q)`.
abbrev pub joined : (p q : ℕ) → Links → Links
joined p q l = record { next = update l.next p q; prev = update l.prev q p }

unlink-ok :
    (x p q : ℕ) (l : Links)
    → x ≢ null
    → p ≢ null
    → q ≢ null
    → l.prev x ≡ p
    → l.next x ≡ q
    → unlink x l ≡ ok (joined p q l)
unfolding unlink list_del
unlink-ok x p q l hx hp hq e f = ground arith

-- The pointers of a list do not depend on a node that is not in it.
pub IsRing-frame :
    (l k : Links) (head : ℕ) (xs : List ℕ)
    → IsRing l head xs
    → ((p : ℕ) → has p (head ∷ xs) ≡ true → k.prev p ≡ l.prev p)
    → ((p : ℕ) → has p (head ∷ xs) ≡ true → k.next p ≡ l.next p)
    → IsRing k head xs
IsRing-frame l k head xs ring back on = record {
  chain =
      Chain-frame l k head xs head ring.chain
        (λ r h. back r (ground (arith, has-append r xs (head ∷ [])))) on;
  apart = ring.apart;
  distinct = ring.distinct;
  nonnull = ring.nonnull;
  head_nonnull = ring.head_nonnull;
}

is_nil-append : (ys : List ℕ) (x : ℕ) (zs : List ℕ) → is_nil (ys ++ x ∷ zs) ≡ false
is_nil-append [] x zs = refl
is_nil-append (y ∷ ys) x zs = refl

first_of-is_nil :
    (head : ℕ) (zs : List ℕ) → has head zs ≡ false → (first_of zs head == head) ≡ is_nil zs
first_of-is_nil head [] out = ground arith
first_of-is_nil head (z ∷ zs) out = ground arith

module _ {l : Links} {head : ℕ} (x : ℕ) (ys zs : List ℕ) (ring : IsRing l head (ys ++ x ∷ zs)) where
  pub without : IsRing (joined (last_of head ys) (first_of zs head) l) head (ys ++ zs)
  without =
      let p = last_of head ys in
      let q = first_of zs head in
      let parts = IsRing-Parts l head ys (x ∷ zs) ring in
      let (front, back) = Chain-split l head ys x zs head ring.chain in
      record {
        chain =
            Chain-glue _ head ys zs head
              (Chain-end l (joined p q l) head ys x q front parts.front_apart parts.front_distinct
                (λ r h. ground (arith, has-first_of zs head, parts.disjoint r, parts.front_apart))
                (λ r h ne. ground arith) (ground arith) (ground arith))
              (Chain-start l (joined p q l) x p zs head back (ground (arith, parts.back_apart))
                parts.back_distinct.1 (λ r h ne. ground arith)
                (λ r h. ground (arith, parts.last_in, parts.disjoint p, parts.back_apart))
                (ground arith) (ground arith));
        apart = ground (arith, has-append head ys (x ∷ zs), has-append head ys zs, ring.apart);
        distinct = Distinct-without ys x zs ring.distinct;
        nonnull = ground (arith, has-append null ys (x ∷ zs), has-append null ys zs, ring.nonnull);
        head_nonnull = ring.head_nonnull;
      }

  pub outside : (x ≢ null) × (x ≢ head) × (has x (ys ++ zs) ≡ false)
  outside =
      let parts = IsRing-Parts l head ys (x ∷ zs) ring in
      (
        ground (arith, has-append null ys (x ∷ zs), ring.nonnull),
        ground (arith, has-append head ys (x ∷ zs), ring.apart),
        ground (arith, has-append x ys zs, parts.disjoint x, parts.back_distinct),
      )

  -- The two neighbours of a node are linked to each other.
  pub unlink-IsRing : Returns (unlink x l) λ k. IsRing k head (ys ++ zs)
  unlink-IsRing =
      let parts = IsRing-Parts l head ys (x ∷ zs) ring in
      let (front, back) = Chain-split l head ys x zs head ring.chain in
      let before = (Chain-ends l head ys x front).1 in
      let after = (Chain-ends l x zs head back).0 in
      (
        joined (last_of head ys) (first_of zs head) l,
        unlink-ok x (last_of head ys) (first_of zs head) l outside.0 parts.last_nonnull
            (ground (
              arith,
              without.nonnull,
              ring.head_nonnull,
              has-first_of zs head,
              has-append null ys zs,
            ))
            before after,
        without,
      )

  -- `mylist_del` takes the node out, keeps the order of the others, and clears its two pointers.
  pub del-IsRing :
      Returns (del x l) λ k. IsRing k head (ys ++ zs) × (k.next x ≡ null) × (k.prev x ≡ null)
  unfolding del
  del-IsRing =
      let (k, run, ring') = unlink-IsRing in
      let nonnull : (x == null) ≡ false = ground (arith, outside.0) in
      let out = outside.2 in
      let ne = outside.1 in
      (
        record { next = update k.next x null; prev = update k.prev x null },
        rw (run, nonnull),
        (
          IsRing-frame k _ head (ys ++ zs) ring' (λ r h. ground arith) (λ r h. ground arith),
          ground arith,
          ground arith,
        ),
      )

  -- `mylist_del_init` takes the node out, keeps the order of the others, and leaves the node as an
  -- empty list of its own.
  pub del_init-IsRing : Returns (del_init x l) λ k. IsRing k head (ys ++ zs) × IsRing k x []
  unfolding del_init init_list_head
  del_init-IsRing =
      let (k, run, ring') = unlink-IsRing in
      let nonnull : (x == null) ≡ false = ground (arith, outside.0) in
      let out = outside.2 in
      let ne = outside.1 in
      (
        record { next = update k.next x x; prev = update k.prev x x },
        rw (run, nonnull),
        (
          IsRing-frame k _ head (ys ++ zs) ring' (λ r h. ground arith) (λ r h. ground arith),
          record {
            chain = (ground arith, ground arith);
            apart = refl;
            distinct = tt;
            nonnull = refl;
            head_nonnull = outside.0;
          },
        ),
      )

  -- `mylist_is_last` says whether a node has no node behind it.
  pub is_last-is_nil : is_last x head l ≡ ok (is_nil zs)
  unfolding is_last
  is_last-is_nil =
      let parts = IsRing-Parts l head ys (x ∷ zs) ring in
      let (front, back) = Chain-split l head ys x zs head ring.chain in
      let after = (Chain-ends l x zs head back).0 in
      let nonnull : (x == null) ≡ false = ground (arith, outside.0) in
      rw (nonnull, after)
        (ap ok (first_of-is_nil head zs (ground (arith, ring.apart, has-append head ys (x ∷ zs)))))

  -- `mylist_move_head` takes the node to the front of its list.
  pub move_head-IsRing : Returns (move_head x head l) λ k. IsRing k head (x ∷ ys ++ zs)
  unfolding move_head
  move_head-IsRing =
      let (k, run, ring') = unlink-IsRing in
      rw run (add_head-IsRing x (ys ++ zs) ring' outside.0 outside.1 outside.2)

  -- `mylist_move_tail` takes the node to the end of its list.
  pub move_tail-IsRing : Returns (move_tail x head l) λ k. IsRing k head ((ys ++ zs) ++ x ∷ [])
  unfolding move_tail
  move_tail-IsRing =
      let (k, run, ring') = unlink-IsRing in
      rw run (add_tail-IsRing x (ys ++ zs) ring' outside.0 outside.1 outside.2)

  is_empty-false : is_empty head l ≡ ok false
  is_empty-false = is_empty-is_nil l head (ys ++ x ∷ zs) ring ∙ ap ok (is_nil-append ys x zs)

  -- `mylist_rotate_node_head` takes the node to the front of its list, which is not empty.
  pub rotate_node_head-IsRing :
      Returns (rotate_node_head x head l) λ k. IsRing k head (x ∷ ys ++ zs)
  unfolding rotate_node_head
  rotate_node_head-IsRing = rw is_empty-false move_head-IsRing

  -- `mylist_rotate_node_tail` takes the node to the end of its list, which is not empty.
  pub rotate_node_tail-IsRing :
      Returns (rotate_node_tail x head l) λ k. IsRing k head ((ys ++ zs) ++ x ∷ [])
  unfolding rotate_node_tail
  rotate_node_tail-IsRing = rw is_empty-false move_tail-IsRing
