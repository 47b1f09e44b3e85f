-- ===== src/Cache/Kept.antt =====
-- The slots in use stay in use until a scan, so a waiting rotation finds its nodes in the list.
use dns_relay_server.Base.{
  ℕ, ◌+◌, ◌<◌, ◌≡◌, ◌∙◌, sym, ap, refl, ltb, true, false, Bool-cases, inl, inr, ◌==◌, if◌then◌else◌,
  update, has, has-append, List, [], ◌∷◌, ◌++◌, Bool, ok, fault, ◌>>=◌, arith, select, bind-ok,
  ok-same,
}
use dns_relay_server.Entry.{DnsEntry, entry_free}
use dns_relay_server.Ring.{Links, get_prev, is_last, add_head, del}
use dns_relay_server.Cache.{
  Cache, head, node_of, slot_of, find_free, cache_insert, insert_new, replace_tail, lru_list_add,
  lru_list_del, cache_rotate,
}
use dns_relay_server.Cache.Inv.{IsCache, index, node_of-index}
use dns_relay_server.Cache.Rotate.{rotate-IsCache}

module _ (len : ℕ) (e : DnsEntry) where
  lru_list_add-set : (i : ℕ) (c c' : Cache) → lru_list_add len e i c ≡ ok c' → c'.set ≡ c.set
  unfolding lru_list_add
  lru_list_add-set i c c' run = elim (Bool-cases (ltb i len)) [
    | inl inside ↦
        let (l, _, e') =
          bind-ok (add_head (node_of i) head c.links)
            (λ l. ok (record c { list = update c.list i e; links = l })) c' (rw inside at run) in
        sym (ap (λ d. d.set) (ok-same (record c { list = update c.list i e; links = l }) c' e'))
    | inr outside ↦ let bad : fault ≡ ok c' = rw outside at run in cc
  ]

  lru_list_del-set : (i : ℕ) (c c' : Cache) → lru_list_del i c ≡ ok c' → c'.set ≡ c.set
  unfolding lru_list_del
  lru_list_del-set i c c' run =
      let freed =
        λ (l : Links). record c { list = update c.list i (entry_free (c.list i)); links = l } in
      let (l, _, e') = bind-ok (del (node_of i) c.links) (λ l. ok (freed l)) c' run in
      sym (ap (λ d. d.set) (ok-same (freed l) c' e'))

  -- A slot in use is in use after an insertion.
  pub cache_insert-set :
      (c c' : Cache)
      → cache_insert len e c ≡ ok c'
      → (i : ℕ) → (c.set i == 0) ≡ false
      → (c'.set i == 0) ≡ false
  unfolding cache_insert insert_new replace_tail
  cache_insert-set c c' run i busy = elim (Bool-cases (ltb c.length len)) [
    | inl room ↦
        let j = find_free len 0 c.set in
        let grown = λ (d : Cache). record d { set = update d.set j 1; length = d.length + 1 } in
        let (d, r, e') = bind-ok (lru_list_add len e j c) (λ d. ok (grown d)) c' (rw room at run) in
        let same = ap (λ d. d.set i) (ok-same (grown d) c' e') in
        let before = ap (λ f. f i) (lru_list_add-set j c d r) in ground (arith, same, before, busy)
    | inr full ↦
        let choose = λ (tail : ℕ) (last : Bool). if last then replace_tail len e tail c else ok c in
        let (tail, _, e₁) =
          bind-ok (get_prev head c.links) (λ tail. is_last tail head c.links >>= choose tail) c'
            (rw full at run) in
        let (last, _, e₂) = bind-ok (is_last tail head c.links) (choose tail) c' e₁ in
        elim (Bool-cases last) [
          | inl found ↦
              let (j, _, e₃) =
                bind-ok (slot_of len tail) (λ j. lru_list_del j c >>= λ d. lru_list_add len e j d)
                  c' (rw found at e₂) in
              let (d, r, e₄) = bind-ok (lru_list_del j c) (λ d. lru_list_add len e j d) c' e₃ in
              let same = lru_list_add-set j d c' e₄ ∙ lru_list_del-set j c d r in
              let here = ap (λ f. f i) same in ground (arith, here, busy)
          | inr empty ↦
              let same = ok-same c c' (rw empty at e₂) in
              let here = ap (λ d. d.set i) same in ground (arith, here, busy)
        ]
  ]

-- The nodes of the list are those of the slots in use.
pub kept :
    (len : ℕ) (c c' : Cache) (xs ys : List ℕ)
    → IsCache len c xs
    → IsCache len c' ys
    → ((i : ℕ) → (c.set i == 0) ≡ false → (c'.set i == 0) ≡ false)
    → (p : ℕ) → has p xs ≡ true
    → has p ys ≡ true
kept len c c' xs ys v w stay p there =
    let (low, high) = v.in_array p there in
    let node = node_of-index p low in
    let inside : index p < len = omega (arith, node, high) in
    let there' : has (node_of (index p)) xs ≡ true = rw node there in
    let busy : (c.set (index p) == 0) ≡ false = ground (arith, v.flags (index p), there', inside) in
    let busy' = stay (index p) busy in
    let here : has (node_of (index p)) ys ≡ true =
      ground (arith, w.flags (index p), inside, busy') in
    rw node at here

pub has-select :
    (test : ℕ → Bool) (xs : List ℕ) (p : ℕ) → has p (select test xs) ≡ true → has p xs ≡ true
has-select test [] p h = h
has-select test (x ∷ xs) p h = elim (Bool-cases (test x)) [
  | inl hit ↦ ground (arith, has-select test xs p, rw hit at h)
  | inr miss ↦ ground (arith, has-select test xs p (rw miss at h))
]

-- A member stands somewhere.
has-parts : (p : ℕ) (xs : List ℕ) → has p xs ≡ true → (ys zs : List ℕ) × (xs ≡ ys ++ p ∷ zs)
has-parts p [] h = absurd (ground (arith, h))
has-parts p (x ∷ xs) h = elim (Bool-cases (x == p)) [
  | inl same ↦ ([], xs, let e : x ≡ p = ground arith in rw e)
  | inr other ↦ let (ys, zs, e) = has-parts p xs (ground arith) in (x ∷ ys, zs, ap (◌∷◌ x) e)
]

-- Every node of the list `t` is in the cache's list.
abbrev pub Found : List ℕ → List ℕ → Type 0
Found xs t = (p : ℕ) → has p t ≡ true → has p xs ≡ true

-- A rotation of nodes that are in the list, in whatever order they stand there.
pub rotate_any :
    (len : ℕ) (t xs : List ℕ) (c : Cache)
    → IsCache len c xs
    → Found xs t
    → (c' : Cache) × (ys : List ℕ) × (cache_rotate t c ≡ ok c') × IsCache len c' ys × Found ys xs
unfolding cache_rotate
rotate_any len [] xs c v found = (c, xs, refl, v, λ p h. h)
rotate_any len (p ∷ t) xs c v found =
    let (ys, zs, e) = has-parts p xs (found p (ground arith)) in
    let (l, run, v') = rotate-IsCache len c ys p zs (rw e at v) in
    let moved : Found (p ∷ ys ++ zs) xs =
      λ q h. ground (arith, has-append q ys (p ∷ zs), has-append q ys zs, rw e at h) in
    let (c', ks, run', w, kept') =
      rotate_any len t (p ∷ ys ++ zs) (record c { links = l }) v'
        (λ q h. moved q (found q (ground arith))) in
    (c', ks, rw run run', w, λ q h. kept' q (moved q h))
