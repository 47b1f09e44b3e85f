-- ===== src/Cache/Slots.antt =====
-- `__LRU_list_add` and `__LRU_list_del` on the list of the used slots.
use dns_relay_server.Base.{
  ℕ, ◌<◌, ◌≡◌, refl, true, false, ltb, List, [], ◌∷◌, ◌++◌, arith, has, update, length, ok,
}
use dns_relay_server.Entry.{DnsEntry, entry_free}
use dns_relay_server.Ring.{null, Links}
use dns_relay_server.Ring.Chain.{IsRing}
use dns_relay_server.Ring.Insert.{add_head-IsRing}
use dns_relay_server.Ring.Delete.{del-IsRing}
use dns_relay_server.Cache.{Cache, head, node_of, lru_list_add, lru_list_del}
use dns_relay_server.Cache.Inv.{view}

pub length-view : (c : Cache) (xs : List ℕ) → length (view c xs) ≡ length xs
length-view c [] = refl
length-view c (x ∷ xs) = omega (arith, length-view c xs)

pub lru_list_add-IsRing :
    (len : ℕ) (e : DnsEntry) (i : ℕ) (c : Cache) (xs : List ℕ)
    → IsRing c.links head xs
    → i < len
    → has (node_of i) xs ≡ false
    → (l : Links) × (lru_list_add len e i c ≡ ok (record c { list = update c.list i e; links = l }))
      × IsRing l head (node_of i ∷ xs)
unfolding lru_list_add
lru_list_add-IsRing len e i c xs ring room out =
    let (l, run, ring') = add_head-IsRing (node_of i) xs ring (omega arith) (omega arith) out in
    let inside : ltb i len ≡ true = ground arith in (l, rw (inside, run), ring')

pub lru_list_del-IsRing :
    (i : ℕ) (c : Cache) (ys zs : List ℕ)
    → IsRing c.links head (ys ++ node_of i ∷ zs)
    → (l : Links) × (lru_list_del i c
        ≡ ok (record c { list = update c.list i (entry_free (c.list i)); links = l }))
      × IsRing l head (ys ++ zs)
      × (l.next (node_of i) ≡ null)
      × (l.prev (node_of i) ≡ null)
unfolding lru_list_del
lru_list_del-IsRing i c ys zs ring =
    let (l, run, (ring', n, p)) = del-IsRing (node_of i) ys zs ring in (l, rw run, ring', n, p)
