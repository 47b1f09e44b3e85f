-- ===== src/Cache/Alone.antt =====
-- `cacheScan` of a cache with one overdue entry.
use mathlib.Core.List.{append_assoc, append-nil}
use dns_relay_server.Base.{
  ℕ, zero, suc, ◌+◌, ◌-◌, ◌<◌, ◌≡◌, refl, ◌∙◌, true, false, ltb, Bool, List, [], ◌∷◌, ◌++◌, arith,
  length, length-append, has-append, ok,
}
use dns_relay_server.Ring.Chain.{first_of, Chain-ends}
use dns_relay_server.Cache.{Cache, head, node_of, scan_from, scan_delete, cache_scan}
use dns_relay_server.Cache.Inv.{IsCache, used-le, view}
use dns_relay_server.Cache.Scan.{any_overdue, scan_from-keep, scan_from-delete, scan_delete-IsCache}

module _ (len now : ℕ) where
  -- The loop goes past entries that are not overdue.
  scan_from-young :
      (us : List ℕ) (n fuel : ℕ) (ys rest : List ℕ) (c : Cache) (flag : Bool)
      → n ≡ length us + fuel
      → IsCache len c (ys ++ (us ++ rest))
      → any_overdue now (view c us) ≡ false
      → scan_from n len now (first_of (us ++ rest) head) c flag
        ≡ scan_from fuel len now (first_of rest head) c flag
  scan_from-young [] n fuel ys rest c flag e v young =
      let same : n ≡ fuel = omega (arith, e) in rw same
  scan_from-young (zero ∷ us) n fuel ys rest c flag e v young =
      absurd (ground (arith, v.in_array 0, has-append 0 ys (0 ∷ (us ++ rest))))
  scan_from-young (suc zero ∷ us) n fuel ys rest c flag e v young =
      absurd (ground (arith, v.in_array 1, has-append 1 ys (1 ∷ (us ++ rest))))
  scan_from-young (suc (suc i) ∷ us) n fuel ys rest c flag e v young =
      let v' : IsCache len c ((ys ++ suc (suc i) ∷ []) ++ (us ++ rest)) = rw append_assoc v in
      let more : n ≡ suc (length us + fuel) = omega (arith, e) in
      rw more (
        scan_from-keep len now (length us + fuel) c flag ys i (us ++ rest) v (ground (arith, young))
        ∙ scan_from-young us (length us + fuel) fuel (ys ++ suc (suc i) ∷ []) rest c flag refl v'
            (ground (arith, young)))

  scan_from-end :
      (zs : List ℕ) (n : ℕ) (ys : List ℕ) (c : Cache) (flag : Bool)
      → length zs < n
      → IsCache len c (ys ++ zs)
      → any_overdue now (view c zs) ≡ false
      → scan_from n len now (first_of zs head) c flag ≡ ok (c, flag)
  unfolding scan_from
  scan_from-end zs n ys c flag enough v young =
      let v' : IsCache len c (ys ++ (zs ++ [])) = rw append-nil v in
      let split : n ≡ length zs + suc (n - length zs - 1) = omega (arith, enough) in
      let run = scan_from-young zs n (suc (n - length zs - 1)) ys [] c flag split v' young in
      rw append-nil at run

  -- `cacheScan` of a well-formed cache, in which the entry in slot `i` is overdue and no other is: it
  -- deletes this entry, and no other.
  pub cache_scan-alone :
      (c : Cache) (ys : List ℕ) (i : ℕ) (zs : List ℕ)
      → IsCache len c (ys ++ node_of i ∷ zs)
      → ltb (c.list i).timestamp now ≡ true
      → any_overdue now (view c ys) ≡ false
      → any_overdue now (view c zs) ≡ false
      → (c' : Cache) × (scan_delete i c ≡ ok c') × (cache_scan len now c ≡ ok (c', true))
  unfolding cache_scan
  cache_scan-alone c ys i zs v old before after =
      let (c', run, (v', _, same_zs, _, _)) = scan_delete-IsCache len now c ys i zs v in
      let first = (Chain-ends c.links head (ys ++ node_of i ∷ zs) head v.ring.chain).0 in
      let young : any_overdue now (view c' zs) ≡ false = rw same_zs after in
      let total = length-append {0} ys (node_of i ∷ zs) in
      let room = used-le len c.set in
      let fuel = len - length ys in
      let all : suc len ≡ length ys + suc fuel = omega (arith, v.counted, v.in_use, total, room) in
      let left : length zs < fuel = omega (arith, v.counted, v.in_use, total, room) in
      (
        c',
        run,
        rw first (
            scan_from-young ys (suc len) (suc fuel) [] (node_of i ∷ zs) c false all v before
            ∙ (scan_from-delete len now fuel c false ys i zs v c' old run v'
                ∙ scan_from-end zs fuel ys c' true left v' young)),
      )
