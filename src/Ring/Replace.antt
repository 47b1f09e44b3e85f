-- ===== src/Ring/Replace.antt =====
-- `mylist_replace` puts a node in the place of another, and `mylist_replace_init` leaves the other as
-- an empty list of its own.
use dns_relay_server.Base.{
  ◌==◌, ℕ, ◌≡◌, refl, ◌≢◌, false, List, [], ◌∷◌, ◌++◌, arith, has, has-append, update, ok, Returns,
}
use dns_relay_server.Ring.{null, Links, init_list_head, replace, replace_init}
use dns_relay_server.Ring.Chain.{
  IsRing, last_of, first_of, has-first_of, Chain-split, Chain-ends, IsRing-Parts,
}
use dns_relay_server.Ring.Insert.{added, added-IsRing}
use dns_relay_server.Ring.Delete.{joined, IsRing-frame, without, outside}

replace-ok :
    (old new p q : ℕ) (l : Links)
    → old ≢ null
    → new ≢ null
    → p ≢ null
    → q ≢ null
    → old ≢ q
    → l.prev old ≡ p
    → l.next old ≡ q
    → replace old new l ≡ ok (added new p q l)
unfolding replace
replace-ok old new p q l ho hn hp hq apart e f = ground arith

module _ {l : Links} {head : ℕ} (old new : ℕ) (ys zs : List ℕ)
    (ring : IsRing l head (ys ++ old ∷ zs)) (hn : new ≢ null) (hh : new ≢ head)
    (out : has new (ys ++ old ∷ zs) ≡ false) where
  abbrev replaced : Links
  replaced = added new (last_of head ys) (first_of zs head) l

  replaced-IsRing : IsRing replaced head (ys ++ new ∷ zs)
  replaced-IsRing =
      let p = last_of head ys in
      let q = first_of zs head in
      IsRing-frame (added new p q (joined p q l)) replaced head (ys ++ new ∷ zs)
        (added-IsRing new ys zs (without old ys zs ring) hn hh
          (ground (arith, out, has-append new ys (old ∷ zs), has-append new ys zs)))
        (λ r h. ground arith) (λ r h. ground arith)

  replace-replaced : replace old new l ≡ ok replaced
  replace-replaced =
      let parts = IsRing-Parts l head ys (old ∷ zs) ring in
      let (front, back) = Chain-split l head ys old zs head ring.chain in
      let (nonnull, apart, gone) = outside old ys zs ring in
      let rest = without old ys zs ring in
      replace-ok old new (last_of head ys) (first_of zs head) l nonnull hn parts.last_nonnull
        (ground
          (arith, rest.nonnull, ring.head_nonnull, has-first_of zs head, has-append null ys zs))
        (ground (arith, apart, gone, has-first_of zs head, has-append old ys zs))
        (Chain-ends l head ys old front).1 (Chain-ends l old zs head back).0

  -- The new node stands in the place of the old one, and the order of the others is kept.
  pub replace-IsRing : Returns (replace old new l) λ k. IsRing k head (ys ++ new ∷ zs)
  replace-IsRing = (replaced, replace-replaced, replaced-IsRing)

  -- The old node is an empty list in the end.
  pub replace_init-IsRing :
      Returns (replace_init old new l) λ k. IsRing k head (ys ++ new ∷ zs) × IsRing k old []
  unfolding replace_init init_list_head
  replace_init-IsRing =
      let (present, apart, gone) = outside old ys zs ring in
      let nonnull : (old == null) ≡ false = ground (arith, present) in
      let old_out : has old (ys ++ new ∷ zs) ≡ false = ground (
        arith,
        gone,
        out,
        has-append old ys zs,
        has-append old ys (new ∷ zs),
        has-append new ys (old ∷ zs),
      ) in
      (
        record { next = update replaced.next old old; prev = update replaced.prev old old },
        rw (replace-replaced, nonnull),
        (
          IsRing-frame replaced _ head (ys ++ new ∷ zs) replaced-IsRing (λ r h. ground arith)
              (λ r h. ground arith),
          record {
            chain = (ground arith, ground arith);
            apart = refl;
            distinct = tt;
            nonnull = refl;
            head_nonnull = present;
          },
        ),
      )
