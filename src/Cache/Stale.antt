-- ===== src/Cache/Stale.antt =====
-- Two faults behind a deletion: a rotation that still waits with the node, and a flush that reaches
-- the free slot.
use dns_relay_server.Base.{
  sym, ok-same, ℕ, suc, ◌-◌, ◌<◌, ◌≡◌, refl, ◌≢◌, ◌∙◌, ap, true, false, ltb, List, [], ◌∷◌, ◌++◌,
  arith, length, ok, fault, Returns,
}
use dns_relay_server.Ring.{null, Links, list_del, unlink, del, move_head, rotate_node_head}
use dns_relay_server.Ring.Walk.{is_nil, is_empty-is_nil}
use dns_relay_server.Cache.{
  cache_scan, Cache, head, node_of, lru_list_del, scan_delete, cache_rotate, flush_slots,
  cache_flush,
}
use dns_relay_server.Cache.Inv.{view, IsCache, used-le}
use dns_relay_server.Cache.Alone.{cache_scan-alone}
use dns_relay_server.Cache.Scan.{any_overdue, scan_delete-IsCache}

unlink-null : (x : ℕ) (l : Links) → l.next x ≡ null → l.prev x ≡ null → unlink x l ≡ fault
unfolding unlink list_del
unlink-null x l n p = ground arith

is_nil-false : (xs : List ℕ) → xs ≢ [] → is_nil xs ≡ false
is_nil-false [] h = absurd (h refl)
is_nil-false (x ∷ xs) h = refl

nonempty-length : (xs : List ℕ) → xs ≢ [] → 0 < length xs
nonempty-length [] h = absurd (h refl)
nonempty-length (x ∷ xs) h = omega arith

flush_slots-null :
    (r i len : ℕ) (c : Cache)
    → i < len
    → c.links.next (node_of i) ≡ null
    → c.links.prev (node_of i) ≡ null
    → flush_slots (suc r) i len c ≡ fault
unfolding flush_slots lru_list_del del
flush_slots-null r i len c inside n p =
    let bound : ltb i len ≡ true = ground arith in rw (bound, unlink-null (node_of i) c.links n p)

module _ (len now : ℕ) (c : Cache) (ys : List ℕ) (i : ℕ) (zs : List ℕ)
    (v : IsCache len c (ys ++ node_of i ∷ zs)) (more : ys ++ zs ≢ []) where
  -- The deletion that `cacheScan` makes of one entry of a well-formed cache, in slot `i`, and other
  -- entries are left: it is no fault, and right behind it a rotation whose first node is that of the
  -- slot is a fault.
  cache_rotate-scan_delete :
      (ps : List ℕ) → Returns (scan_delete i c) λ c'. cache_rotate (node_of i ∷ ps) c' ≡ fault
  unfolding cache_rotate rotate_node_head move_head
  cache_rotate-scan_delete ps =
      let (c', run, (v', _, _, n, p)) = scan_delete-IsCache len now c ys i zs v in
      let filled =
        is_empty-is_nil c'.links head (ys ++ zs) v'.ring ∙ ap ok (is_nil-false (ys ++ zs) more) in
      (c', run, rw (filled, unlink-null (node_of i) c'.links n p))

  -- `cacheScan` of a well-formed cache with at least two entries, of which only the one in slot `i` is
  -- overdue: it returns, and right behind it a rotation whose first node is that of the slot is a
  -- fault.
  pub cache_rotate-cache_scan :
      (ps : List ℕ)
      → ltb (c.list i).timestamp now ≡ true
      → any_overdue now (view c ys) ≡ false
      → any_overdue now (view c zs) ≡ false
      → Returns
          (cache_scan len now c)
          λ (c', flag). (flag ≡ true) × (cache_rotate (node_of i ∷ ps) c' ≡ fault)
  cache_rotate-cache_scan ps old before after =
      let (c', run, stuck) = cache_rotate-scan_delete ps in
      let (d, run', scanned) = cache_scan-alone len now c ys i zs v old before after in
      let same = ok-same d c' (sym run' ∙ run) in ((d, true), scanned, (refl, rw same stuck))

-- The deletion that `cacheScan` makes of one entry of a well-formed cache, in slot 0, and other
-- entries are left: it is no fault, and right behind it `cacheFlush` is a fault.
cache_flush-scan_delete :
    (len now : ℕ) (c : Cache) (ys zs : List ℕ)
    → IsCache len c (ys ++ node_of 0 ∷ zs)
    → ys ++ zs ≢ []
    → Returns (scan_delete 0 c) λ c'. cache_flush len c' ≡ fault
unfolding cache_flush
cache_flush-scan_delete len now c ys zs v more =
    let (c', run, (v', _, _, n, p)) = scan_delete-IsCache len now c ys 0 zs v in
    let some_left = nonempty-length (ys ++ zs) more in
    let some_room = used-le len c'.set in
    let e : c'.length ≡ suc (c'.length - 1) = omega (arith, v'.counted) in
    let stuck =
      flush_slots-null (c'.length - 1) 0 len c' (omega (arith, v'.counted, v'.in_use)) n p in
    (c', run, rw (e, stuck))

-- `cacheScan` of a well-formed cache with at least two entries, of which only the one in slot 0 is
-- overdue: it returns, and right behind it `cacheFlush` is a fault.
pub cache_flush-cache_scan :
    (len now : ℕ) (c : Cache) (ys zs : List ℕ)
    → IsCache len c (ys ++ node_of 0 ∷ zs)
    → ys ++ zs ≢ []
    → ltb (c.list 0).timestamp now ≡ true
    → any_overdue now (view c ys) ≡ false
    → any_overdue now (view c zs) ≡ false
    → Returns (cache_scan len now c) λ (c', flag). (flag ≡ true) × (cache_flush len c' ≡ fault)
cache_flush-cache_scan len now c ys zs v more old before after =
    let (c', run, stuck) = cache_flush-scan_delete len now c ys zs v more in
    let (d, run', scanned) = cache_scan-alone len now c ys 0 zs v old before after in
    let same = ok-same d c' (sym run' ∙ run) in ((d, true), scanned, (refl, rw same stuck))
