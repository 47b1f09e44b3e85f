-- ===== src/Cache/Rotate.antt =====
-- `__LRU_cache_rotate`, the thread that a query starts.
use mathlib.Core.List.{append_assoc}
use dns_relay_server.Base.{
  select, reject, reverse_onto, to_front, map-to_front, ◌∙◌, some, ℕ, ◌≡◌, refl, ap, Bool, List, [],
  ◌∷◌, ◌++◌, arith, has-append, length-append, ok, Returns, inl, inr, Bool-cases, ◌>>=◌,
}
use dns_relay_server.Entry.{DnsEntry, Text}
use dns_relay_server.Ring.{Links, rotate_node_head}
use dns_relay_server.Ring.Delete.{rotate_node_head-IsRing}
use dns_relay_server.Cache.{Cache, head, node_of, cache_query, cache_rotate}
use dns_relay_server.Cache.Inv.{IsCache, Holds, index}
use dns_relay_server.Cache.Query.{on_node, is_answer, cache_query-answers}

module _ (len : ℕ) where
  -- One node of the list goes to the front.
  pub rotate-IsCache :
      (c : Cache) (ys : List ℕ) (p : ℕ) (zs : List ℕ)
      → IsCache len c (ys ++ p ∷ zs)
      → (l : Links) × (rotate_node_head p head c.links ≡ ok l)
        × IsCache len (record c { links = l }) (p ∷ ys ++ zs)
  rotate-IsCache c ys p zs v =
      let (l, run, ring) = rotate_node_head-IsRing p ys zs v.ring in
      let at = λ (q : ℕ). has-append q ys (p ∷ zs) in
      let at' = λ (q : ℕ). has-append q ys zs in
      (
        l,
        run,
        record {
          ring = ring;
          in_array = λ q h. v.in_array q (ground (arith, at q, at' q));
          flags = λ j k. ground (arith, v.flags j k, at (node_of j), at' (node_of j));
          counted =
              omega (arith, v.counted, length-append {0} ys (p ∷ zs), length-append {0} ys zs);
          in_use = v.in_use;
          named = λ q h. v.named q (ground (arith, at q, at' q));
        },
      )

  -- The nodes `ys` have been passed; those of `zs` that satisfy the test are still to come.
  cache_rotate-IsCache :
      (test : ℕ → Bool) (zs ys : List ℕ) (c : Cache)
      → IsCache len c (ys ++ zs)
      → (l : Links) × (cache_rotate (select test zs) c ≡ ok (record c { links = l }))
        × IsCache len
            (record c { links = l })
            (reverse_onto (select test zs) (ys ++ reject test zs))
  unfolding cache_rotate
  cache_rotate-IsCache test [] ys c v = (c.links, refl, v)
  cache_rotate-IsCache test (z ∷ zs) ys c v = elim (Bool-cases (test z)) [
    | inl hit ↦
        let (l, run, v') = rotate-IsCache c ys z zs v in
        let (l', run', v'') = cache_rotate-IsCache test zs (z ∷ ys) (record c { links = l }) v' in
        (l', rw (hit, run) run', rw hit v'')
    | inr miss ↦
        let v' : IsCache len c ((ys ++ z ∷ []) ++ zs) = rw append_assoc v in
        let (l', run', v'') = cache_rotate-IsCache test zs (ys ++ z ∷ []) c v' in
        (l', rw miss run', rw miss (rw append_assoc at v''))
  ]

  -- A query and then, with no other call between them, the rotation that it starts: no fault, the
  -- cache is well formed, and the entries that were found are in front of all others, the one that
  -- was last among them first. No entry is lost or changed.
  pub cache_rotate-cache_query :
      (now : ℕ) (name : Text) (query : DnsEntry) (c : Cache) (es : List DnsEntry)
      → query.domain_name ≡ some name
      → Holds len c es
      → Returns
          (do (results, temp) ← cache_query len now query c; cache_rotate temp c)
          λ c'. Holds len c' (to_front (is_answer now name query.type) es)
  cache_rotate-cache_query now name query c es asked h =
      let test = is_answer now name query.type in
      let (l, run, v) = cache_rotate-IsCache (on_node test c) h.nodes [] c h.valid in
      (
        record c { links = l },
        rw (cache_query-answers now name query asked len c es h) run,
        record {
          nodes = to_front (on_node test c) h.nodes;
          valid = v;
          entries =
              map-to_front (λ p. c.list (index p)) test h.nodes ∙ ap (to_front test) h.entries;
        },
      )
