-- ===== src/Cache/Insert.antt =====
-- `cacheInit` and `cacheInsert`: a new entry stands in front, in a free slot or in that of the
-- entry that was used longest ago.
use mathlib.Core.List.{append-nil}
use dns_relay_server.Base.{
  ℕ, ◌+◌, ◌≤◌, ◌<◌, ◌≡◌, refl, sym, ap, ◌∙◌, ltb→lt, true, false, ◌==◌, ltb, if◌then◌else◌, List,
  [], ◌∷◌, ◌++◌, arith, has, update, length, length-append, ok, Returns, has-append, inl, inr,
  Bool-cases,
}
use dns_relay_server.Entry.{DnsEntry, entry_free}
use dns_relay_server.Ring.{null, Links, is_last}
use dns_relay_server.Ring.Chain.{IsRing, Chain-split, IsRing-Parts}
use dns_relay_server.Ring.Insert.{init_list_head-IsRing}
use dns_relay_server.Cache.{
  Cache, head, node_of, slot_of, find_free, cache_init, cache_insert, insert_new, replace_tail,
}
use dns_relay_server.Cache.Slots.{length-view, lru_list_add-IsRing, lru_list_del-IsRing}
use dns_relay_server.Cache.Inv.{
  IsCache, Holds, view, is_named, index, used-update, used-clear, find_free-clear, node_of-index,
  view-update,
}

-- All entries but the last.
abbrev pub init_of : List DnsEntry → List DnsEntry
init_of [] = []
init_of (e ∷ []) = []
init_of (e ∷ f ∷ es) = e ∷ init_of (f ∷ es)

-- What an insertion makes of the entries of a cache with room for `len`.
abbrev pub insert_spec : ℕ → DnsEntry → List DnsEntry → List DnsEntry
insert_spec len e es = if ltb (length es) len then e ∷ es else e ∷ init_of es

module _ (len : ℕ) (e : DnsEntry) (full : is_named e ≡ true) (c : Cache) where
  insert_new-Holds :
      (xs : List ℕ)
      → IsCache len c xs
      → c.length < len
      → Returns (insert_new len e c) λ c'. Holds len c' (e ∷ view c xs)
  unfolding insert_new
  insert_new-Holds xs v room =
      let i = find_free len 0 c.set in
      let (inside, free) = find_free-clear len c.set (omega (arith, v.in_use)) in
      let out : has (node_of i) xs ≡ false = ground (arith, v.flags i) in
      let (l, run, ring) = lru_list_add-IsRing len e i c xs v.ring inside out in
      let c' : Cache = record {
        list = update c.list i e;
        set = update c.set i 1;
        length = c.length + 1;
        links = l;
      } in
      (
        c',
        rw run,
        record {
          nodes = node_of i ∷ xs;
          valid = record {
            ring = ring;
            in_array = λ p h. ground (arith, v.in_array p);
            flags = λ j k. ground (arith, v.flags j);
            counted = omega (arith, v.counted);
            in_use = ground (arith, used-update len i 1 c.set, v.in_use);
            named = λ p h. ground (arith, v.named p, v.in_array p, node_of-index p);
          };
          entries = ground (arith, view-update c i e xs (λ p h. (v.in_array p h).0) out);
        },
      )

  -- The last node of the list is in slot `i`.
  module _ (ys : List ℕ) (i : ℕ) (v : IsCache len c (ys ++ node_of i ∷ [])) where
    tail-facts : (i < len) × (has (node_of i) ys ≡ false)
    tail-facts =
        let parts = IsRing-Parts c.links head ys (node_of i ∷ []) v.ring in
        (
          ground (arith, has-append (node_of i) ys (node_of i ∷ []), v.in_array (node_of i)),
          ground (arith, parts.disjoint (node_of i)),
        )

    replace_tail-Holds :
        Returns (replace_tail len e (node_of i) c) λ c'. Holds len c' (e ∷ view c ys)
    unfolding replace_tail
    replace_tail-Holds =
        let (inside, out) = tail-facts in
        let in_slot : slot_of len (node_of i) ≡ ok i = ground arith in
        let (l, run, cut, n, p) = lru_list_del-IsRing i c ys [] v.ring in
        let c₁ : Cache = record c { list = update c.list i (entry_free (c.list i)); links = l } in
        let shorter : IsRing l head ys = rw append-nil at cut in
        let (l', run', ring) = lru_list_add-IsRing len e i c₁ ys shorter inside out in
        let low = λ (p : ℕ) (h : has p ys ≡ true).
          (v.in_array p (ground (arith, has-append p ys (node_of i ∷ [])))).0 in
        (
          record c { list = update c₁.list i e; links = l' },
          rw (in_slot, run, run'),
          record {
            nodes = node_of i ∷ ys;
            valid = record {
              ring = ring;
              in_array = λ p h. ground (arith, v.in_array p, has-append p ys (node_of i ∷ []));
              flags = λ j k. ground (arith, v.flags j, has-append (node_of j) ys (node_of i ∷ []));
              counted = omega (arith, v.counted, length-append {0} ys (node_of i ∷ []));
              in_use = v.in_use;
              named = λ p h.
                  ground
                    (arith, v.named p, has-append p ys (node_of i ∷ []), low p, node_of-index p);
            };
            entries = ground (
              arith,
              view-update c₁ i e ys low out,
              view-update c i (entry_free (c.list i)) ys low out,
            );
          },
        )

    evict-Holds :
        (c.length < len → ⊥) → Returns (cache_insert len e c) λ c'. Holds len c' (e ∷ view c ys)
    unfolding cache_insert is_last
    evict-Holds full_up =
        let full_test : ltb c.length len ≡ false = ground arith in
        let (front, back) = Chain-split c.links head ys (node_of i) [] head v.ring.chain in
        let last_node : c.links.prev head ≡ node_of i = back.1 in
        let nonnull : (node_of i == null) ≡ false = ground arith in
        rw (full_test, last_node, nonnull, back.0) replace_tail-Holds

snoc-cases : (xs : List ℕ) → 0 < length xs → (ys : List ℕ) × (x : ℕ) × (xs ≡ ys ++ x ∷ [])
snoc-cases [] h = absurd (omega arith)
snoc-cases (x ∷ []) h = ([], x, refl)
snoc-cases (x ∷ y ∷ xs) h =
    let (ys, z, e) = snoc-cases (y ∷ xs) (omega arith) in (x ∷ ys, z, ap (◌∷◌ x) e)

init_of-view : (c : Cache) (ys : List ℕ) (x : ℕ) → init_of (view c (ys ++ x ∷ [])) ≡ view c ys
init_of-view c [] x = refl
init_of-view c (y ∷ []) x = refl
init_of-view c (y ∷ z ∷ ys) x = ap (◌∷◌ (c.list (index y))) (init_of-view c (z ∷ ys) x)

module _ (len : ℕ) (e : DnsEntry) (full : is_named e ≡ true) (c : Cache) where
  evict_any :
      (xs ys : List ℕ) (x : ℕ)
      → xs ≡ ys ++ x ∷ []
      → IsCache len c xs
      → (c.length < len → ⊥)
      → Returns (cache_insert len e c) λ c'. Holds len c' (e ∷ init_of (view c xs))
  evict_any xs ys x eq v full_up =
      let v' : IsCache len c (ys ++ x ∷ []) = rw eq at v in
      let low : 2 ≤ x = ground (arith, v'.in_array x, has-append x ys (x ∷ [])) in
      let node = node_of-index x low in
      let v'' : IsCache len c (ys ++ node_of (index x) ∷ []) = rw node v' in
      rw (eq, init_of-view c ys x) (evict-Holds len e full c ys (index x) v'' full_up)

  cache_insert-room : ltb c.length len ≡ true → cache_insert len e c ≡ insert_new len e c
  unfolding cache_insert
  cache_insert-room room = rw room

  insert-IsCache :
      (xs : List ℕ)
      → IsCache len c xs
      → 0 < len
      → Returns (cache_insert len e c) λ c'. Holds len c' (insert_spec len e (view c xs))
  insert-IsCache xs v pos =
      let measured : c.length ≡ length (view c xs) = v.counted ∙ sym (length-view c xs) in
      elim (Bool-cases (ltb c.length len)) [
        | inl room ↦
            rw (← measured, room, cache_insert-room room)
              (insert_new-Holds len e full c xs v (ltb→lt c.length len room))
        | inr no_room ↦
            let (ys, x, eq) = snoc-cases xs (ground (arith, v.counted)) in
            rw (← measured, no_room) (evict_any xs ys x eq v (λ h. ground arith))
      ]

  -- `cacheInsert` of an entry with both strings, into a well-formed cache of a capacity that is
  -- not 0: there is no fault, the cache is well formed, the entry stands in front of the others,
  -- and the last of them is gone exactly if the cache was full.
  pub cache_insert-Holds :
      (es : List DnsEntry)
      → 0 < len
      → Holds len c es
      → Returns (cache_insert len e c) λ c'. Holds len c' (insert_spec len e es)
  cache_insert-Holds es pos h = rw (sym h.entries) (insert-IsCache h.nodes h.valid pos)

-- `cacheInit` makes a well-formed empty cache, whatever `malloc` returns.
pub cache_init-Holds :
    (len : ℕ) (list : ℕ → DnsEntry) (links : Links)
    → Returns (cache_init list links) λ c. Holds len c []
unfolding cache_init
cache_init-Holds len list links =
    let (l, run, ring) = init_list_head-IsRing links head (omega arith) in
    (
      record { list = list; set = λ _. 0; length = 0; links = l },
      rw run,
      record {
        nodes = [];
        valid = record {
          ring = ring;
          in_array = λ p h. cc;
          flags = λ i h. refl;
          counted = refl;
          in_use = sym (used-clear len);
          named = λ p h. cc;
        };
        entries = refl;
      },
    )
