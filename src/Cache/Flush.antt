-- ===== src/Cache/Flush.antt =====
-- `cacheFlush`: it deletes the entries of the slots below the count, whichever slots are in use.
use dns_relay_server.Base.{
  ℕ, zero, suc, ◌+◌, ◌≤◌, ◌<◌, ◌≡◌, refl, sym, ap, true, ◌==◌, ltb, List, [], ◌∷◌, ◌++◌, arith, has,
  has-append, Returns, inl, inr, Bool-cases,
}
use dns_relay_server.Entry.{DnsEntry}
use dns_relay_server.Ring.Chain.{IsRing, IsRing-Parts}
use dns_relay_server.Ring.Insert.{init_list_head-IsRing}
use dns_relay_server.Cache.{Cache, head, node_of, flush_slots, cache_flush}
use dns_relay_server.Cache.Inv.{Holds, used-le, used-clear}
use dns_relay_server.Cache.Slots.{lru_list_del-IsRing}

has-split :
    (p : ℕ) (xs : List ℕ) → has p xs ≡ true → (ys : List ℕ) × (zs : List ℕ) × (xs ≡ ys ++ p ∷ zs)
has-split p [] h = absurd (ground arith)
has-split p (x ∷ xs) h = elim (Bool-cases (x == p)) [
  | inl here ↦ ([], xs, ground arith)
  | inr on ↦ let (ys, zs, e) = has-split p xs (ground arith) in (x ∷ ys, zs, ap (◌∷◌ x) e)
]

module _ (len : ℕ) where
  flush_slots-ok :
      (r i n : ℕ) (c : Cache) (xs : List ℕ)
      → i + r ≡ n
      → n ≤ len
      → IsRing c.links head xs
      → ((j : ℕ) → i ≤ j → j < n → has (node_of j) xs ≡ true)
      → Returns (flush_slots r i len c) λ c'. Unit {0}
  unfolding flush_slots
  flush_slots-ok zero i n c xs e bound ring all = (c, refl, tt)
  flush_slots-ok (suc r) i n c xs e bound ring all =
      let (ys, zs, split) = has-split (node_of i) xs (all i (omega arith) (omega arith)) in
      let ring' : IsRing c.links head (ys ++ node_of i ∷ zs) = rw split at ring in
      let (l, run, cut, _, _) = lru_list_del-IsRing i c ys zs ring' in
      let parts = IsRing-Parts c.links head ys (node_of i ∷ zs) ring' in
      let inside : ltb i len ≡ true = ground arith in
      let rest = flush_slots-ok r (suc i) n _ (ys ++ zs) (omega arith) bound cut (λ j h k. ground (
        arith,
        split,
        all j,
        has-append (node_of j) ys (node_of i ∷ zs),
        has-append (node_of j) ys zs,
      )) in
      rw (inside, run) rest

  -- `cacheFlush` of a well-formed cache whose entries fill the slots below the count: there is no
  -- fault, and the cache is well formed and empty.
  pub cache_flush-Holds :
      (c : Cache) (es : List DnsEntry) (h : Holds len c es)
      → ((j : ℕ) → j < c.length → has (node_of j) h.nodes ≡ true)
      → Returns (cache_flush len c) λ c'. Holds len c' []
  unfolding cache_flush
  cache_flush-Holds c es h dense =
      let v = h.valid in
      let (c', run, _) =
        flush_slots-ok c.length 0 c.length c h.nodes (omega arith)
          (omega (arith, v.in_use, used-le len c.set)) v.ring (λ j _ k. dense j k) in
      let (l, run', ring) = init_list_head-IsRing c'.links head (omega arith) in
      (
        record c' { set = λ _. 0; length = 0; links = l },
        rw (run, run'),
        record {
          nodes = [];
          valid = record {
            ring = ring;
            in_array = λ p h. cc;
            flags = λ i h. refl;
            counted = refl;
            in_use = sym (used-clear len);
            named = λ p h. cc;
          };
          entries = refl;
        },
      )
