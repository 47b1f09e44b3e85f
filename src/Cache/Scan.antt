-- ===== src/Cache/Scan.antt =====
-- `cacheScan` deletes exactly the overdue entries.
use mathlib.Core.List.{map-append, append_assoc, append-nil}
use dns_relay_server.Base.{
  ℕ, zero, suc, ◌-◌, ◌<◌, ◌≡◌, refl, ◌≢◌, sym, ◌∙◌, Bool, true, false, ◌||◌, ◌==◌, ltb,
  if◌then◌else◌, List, [], ◌∷◌, ◌++◌, arith, has, update, length, length-append, ok, Returns,
  has-append, inl, inr, Bool-cases,
}
use dns_relay_server.Entry.{DnsEntry, entry_free}
use dns_relay_server.Ring.{null}
use dns_relay_server.Ring.Chain.{
  last_of, first_of, Chain-ends, Chain-split, Chain-back, IsRing-Parts,
}
use dns_relay_server.Cache.{Cache, head, node_of, scan_delete, scan_from, cache_scan}
use dns_relay_server.Cache.Inv.{
  IsCache, Holds, view, used-update, used-le, node_of-index, view-update,
}
use dns_relay_server.Cache.Slots.{lru_list_del-IsRing}

-- The entries that are not overdue at the time `now`, in their order.
abbrev pub fresh_only : ℕ → List DnsEntry → List DnsEntry
fresh_only now [] = []
fresh_only now (e ∷ es) = if ltb e.timestamp now then fresh_only now es else e ∷ fresh_only now es

abbrev pub any_overdue : ℕ → List DnsEntry → Bool
any_overdue now [] = false
any_overdue now (e ∷ es) = ltb e.timestamp now || any_overdue now es

module _ (len now : ℕ) where
  -- Deleting the entry of a slot in use leaves the others as they are.
  pub scan_delete-IsCache :
      (c : Cache) (ys : List ℕ) (i : ℕ) (zs : List ℕ)
      → IsCache len c (ys ++ node_of i ∷ zs)
      → Returns (scan_delete i c) λ c'.
        IsCache len c' (ys ++ zs)
        × (view c' ys ≡ view c ys)
        × (view c' zs ≡ view c zs)
        × (c'.links.next (node_of i) ≡ null)
        × (c'.links.prev (node_of i) ≡ null)
  unfolding scan_delete
  scan_delete-IsCache c ys i zs v =
      let parts = IsRing-Parts c.links head ys (node_of i ∷ zs) v.ring in
      let at = λ (q : ℕ). has-append q ys (node_of i ∷ zs) in
      let at' = λ (q : ℕ). has-append q ys zs in
      let inside : i < len = ground (arith, at (node_of i), v.in_array (node_of i)) in
      let (l, run, ring, n, p) = lru_list_del-IsRing i c ys zs v.ring in
      let out_ys : has (node_of i) ys ≡ false = ground (arith, parts.disjoint (node_of i)) in
      let out_zs : has (node_of i) zs ≡ false = parts.back_distinct.0 in
      (
        record {
          list = update c.list i (entry_free (c.list i));
          set = update c.set i 0;
          length = c.length - 1;
          links = l;
        },
        rw run,
        (
          record {
            ring = ring;
            in_array = λ q h. ground (arith, v.in_array q, at q, at' q);
            flags = λ j k. ground (arith, v.flags j, at (node_of j), at' (node_of j));
            counted =
                omega (
                  arith,
                  v.counted,
                  length-append {0} ys (node_of i ∷ zs),
                  length-append {0} ys zs,
                );
            in_use = ground (arith, used-update len i 0 c.set, v.in_use, v.flags i, at (node_of i));
            named = λ q h.
                ground
                  (arith, v.named q, v.in_array q, at q, at' q, at' (node_of i), node_of-index q);
          },
          view-update c i (entry_free (c.list i)) ys
              (λ q h. (v.in_array q (ground (arith, at q))).0) out_ys,
          view-update c i (entry_free (c.list i)) zs
              (λ q h. (v.in_array q (ground (arith, at q))).0) out_zs,
          n,
          p,
        ),
      )

  module _ (fuel : ℕ) (c : Cache) (flag : Bool) (ys : List ℕ) (i : ℕ) (zs : List ℕ)
      (v : IsCache len c (ys ++ node_of i ∷ zs)) where
    node-facts :
        (i < len)
        × (c.links.next (node_of i) ≡ first_of zs head)
        × (c.links.prev (node_of i) ≡ last_of head ys)
        × (last_of head ys ≢ null)
    node-facts =
        let parts = IsRing-Parts c.links head ys (node_of i ∷ zs) v.ring in
        let (front, back) = Chain-split c.links head ys (node_of i) zs head v.ring.chain in
        (
          ground (arith, has-append (node_of i) ys (node_of i ∷ zs), v.in_array (node_of i)),
          (Chain-ends c.links (node_of i) zs head back).0,
          (Chain-ends c.links head ys (node_of i) front).1,
          parts.last_nonnull,
        )

    pub scan_from-keep :
        ltb (c.list i).timestamp now ≡ false
        → scan_from (suc fuel) len now (node_of i) c flag
          ≡ scan_from fuel len now (first_of zs head) c flag
    unfolding scan_from
    scan_from-keep young =
        let (inside, after, before, nonnull) = node-facts in
        let at_node : (node_of i == head) ≡ false = ground arith in
        let at_null : (node_of i == null) ≡ false = ground arith in
        let bound : ltb i len ≡ true = ground arith in rw (at_node, bound, young, at_null, after)

    pub scan_from-delete :
        (c' : Cache)
        → ltb (c.list i).timestamp now ≡ true
        → scan_delete i c ≡ ok c'
        → IsCache len c' (ys ++ zs)
        → scan_from (suc fuel) len now (node_of i) c flag
          ≡ scan_from fuel len now (first_of zs head) c' true
    unfolding scan_from
    scan_from-delete c' old run v' =
        let (inside, after, before, nonnull) = node-facts in
        let at_node : (node_of i == head) ≡ false = ground arith in
        let at_null : (node_of i == null) ≡ false = ground arith in
        let at_last : (last_of head ys == null) ≡ false = ground arith in
        let bound : ltb i len ≡ true = ground arith in
        let back = Chain-back c'.links head ys zs head v'.ring.chain in
        let next = (Chain-ends c'.links (last_of head ys) zs head back).0 in
        rw (at_node, bound, old, at_null, before, run, at_last, next)

  abbrev Scanned : Cache → List ℕ → List ℕ → Bool → Cache × Bool → Type 0
  Scanned c ys zs flag (c', flag') =
      Holds len c' (view c ys ++ fresh_only now (view c zs))
      × (flag' ≡ (flag || any_overdue now (view c zs)))

  scan_from-Scanned :
      (zs : List ℕ) (fuel : ℕ) (ys : List ℕ) (c : Cache) (flag : Bool)
      → IsCache len c (ys ++ zs)
      → length zs < fuel
      → Returns (scan_from fuel len now (first_of zs head) c flag) (Scanned c ys zs flag)
  unfolding scan_from
  scan_from-Scanned zs zero ys c flag v f = absurd (omega arith)
  scan_from-Scanned [] (suc fuel) ys c flag v f = (
    (c, flag),
    refl,
    (
      record { nodes = ys; valid = rw append-nil at v; entries = sym (append-nil (view c ys)) },
      ground arith,
    ),
  )
  scan_from-Scanned (zero ∷ zs) (suc fuel) ys c flag v f =
      absurd (ground (arith, v.in_array 0, has-append 0 ys (0 ∷ zs)))
  scan_from-Scanned (suc zero ∷ zs) (suc fuel) ys c flag v f =
      absurd (ground (arith, v.in_array 1, has-append 1 ys (1 ∷ zs)))
  scan_from-Scanned (suc (suc i) ∷ zs) (suc fuel) ys c flag v f =
      elim (Bool-cases (ltb (c.list i).timestamp now)) [
        | inl old ↦
            let (c', run, (v', same_ys, same_zs, _, _)) = scan_delete-IsCache c ys i zs v in
            let (r, run', (holds, found)) = scan_from-Scanned zs fuel ys c' true v' (omega arith) in
            (
              r,
              scan_from-delete fuel c flag ys i zs v c' old run v' ∙ run',
              (rw old (rw (same_ys, same_zs) at holds), ground (arith, found, old)),
            )
        | inr young ↦
            let v' : IsCache len c ((ys ++ suc (suc i) ∷ []) ++ zs) = rw append_assoc v in
            let (r, run', (holds, found)) =
              scan_from-Scanned zs fuel (ys ++ suc (suc i) ∷ []) c flag v' (omega arith) in
            (
              r,
              scan_from-keep fuel c flag ys i zs v young ∙ run',
              (rw young (rw (map-append, append_assoc) at holds), ground (arith, found, young)),
            )
      ]

  -- `cacheScan` of a well-formed cache: there is no fault and the loop ends; exactly the overdue
  -- entries are gone, the others keep their order, the cache is well formed again, and the return
  -- value tells whether an entry was overdue.
  pub cache_scan-Holds :
      (c : Cache) (es : List DnsEntry)
      → Holds len c es
      → Returns
          (cache_scan len now c)
          λ (c', flag). Holds len c' (fresh_only now es) × (flag ≡ any_overdue now es)
  unfolding cache_scan
  cache_scan-Holds c es h =
      let v = h.valid in
      let first = (Chain-ends c.links head h.nodes head v.ring.chain).0 in
      rw (first, ← h.entries)
        (scan_from-Scanned h.nodes (suc len) [] c false v
          (omega (arith, v.counted, v.in_use, used-le len c.set)))
