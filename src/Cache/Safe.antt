-- ===== src/Cache/Safe.antt =====
-- No order of the cache's calls and of the rotations that queries have started is a fault, as long as
-- no scan comes while a rotation waits.
use dns_relay_server.Base.{
  ℕ, ◌<◌, ◌≡◌, ◌∙◌, sym, ap, refl, true, List, [], ◌∷◌, ◌++◌, Returns, some, ok-same, All,
}
use dns_relay_server.Entry.{DnsEntry, Text}
use dns_relay_server.Cache.{Cache, cache_insert, cache_query, cache_rotate, cache_scan}
use dns_relay_server.Cache.Inv.{IsCache, Holds, is_named, view}
use dns_relay_server.Cache.Insert.{cache_init-Holds, cache_insert-Holds}
use dns_relay_server.Cache.Query.{is_answer, on_node, cache_query-answers}
use dns_relay_server.Cache.Scan.{cache_scan-Holds}
use dns_relay_server.Cache.Kept.{Found, cache_insert-set, kept, has-select, rotate_any}
use dns_relay_server.Cache.Steps.{State, Step, Reach}

abbrev AllFound : List ℕ → List (List ℕ) → Type 0
AllFound xs [] = Unit
AllFound xs (t ∷ ts) = Found xs t × AllFound xs ts

AllFound-kept :
    (xs ys : List ℕ) (ts : List (List ℕ)) → Found ys xs → AllFound xs ts → AllFound ys ts
AllFound-kept xs ys [] same all = tt
AllFound-kept xs ys (t ∷ ts) same all =
    (λ p h. same p (all.0 p h), AllFound-kept xs ys ts same all.1)

AllFound-parts :
    (xs : List ℕ) (before : List (List ℕ)) (t : List ℕ) (after : List (List ℕ))
    → AllFound xs (before ++ t ∷ after)
    → Found xs t × AllFound xs (before ++ after)
AllFound-parts xs [] t after all = all
AllFound-parts xs (s ∷ before) t after all =
    let (here, others) = AllFound-parts xs before t after all.1 in (here, (all.0, others))

-- What holds of each element with those in front of it and those behind it.
abbrev pub AllTurns {ℓ} : {A : Type ℓ} → (List A → A → List A → Type 0) → List A → Type 0
AllTurns P [] = Unit
AllTurns P (x ∷ xs) = P [] x xs × AllTurns (λ before y after. P (x ∷ before) y after) xs

AllTurns-all {ℓ} :
    {A : Type ℓ} (P : List A → A → List A → Type 0) (xs : List A)
    → ((before : List A) → (x : A) → (after : List A) → xs ≡ before ++ x ∷ after → P before x after)
    → AllTurns P xs
AllTurns-all P [] h = tt
AllTurns-all P (x ∷ xs) h = (
  h [] x xs refl,
  AllTurns-all (λ before y after. P (x ∷ before) y after) xs
      (λ before y after e. h (x ∷ before) y after (ap (λ ys. x ∷ ys) e)),
)

-- The cache is well formed, and each node that a rotation waits for is in its list.
pub record IsSound (len : ℕ) (s : State) : Type 0 where
  pub nodes : List ℕ
  pub valid : IsCache len s.cache nodes
  pub found : AllFound nodes s.waiting

module _ (len : ℕ) (pos : 0 < len) where
  abbrev holds : (s : State) (sound : IsSound len s) → Holds len s.cache (view s.cache sound.nodes)
  holds s sound = record { nodes = sound.nodes; valid = sound.valid; entries = refl }

  Step-IsSound : (s t : State) → IsSound len s → Step len s t → IsSound len t
  Step-IsSound s t sound (Step.inserted e c full run) =
      let (c', run', h) =
        cache_insert-Holds len e full s.cache (view s.cache sound.nodes) pos (holds s sound) in
      let same = ok-same c' c (sym run' ∙ run) in
      let valid : IsCache len c h.nodes = rw same at h.valid in
      record {
        nodes = h.nodes;
        valid = valid;
        found =
            AllFound-kept sound.nodes h.nodes s.waiting
              (kept len s.cache c sound.nodes h.nodes sound.valid valid
                (cache_insert-set len e s.cache c run))
              sound.found;
      }
  Step-IsSound s t sound (Step.queried now name query results temp asked run) =
      let h : Holds len s.cache (view s.cache sound.nodes) = holds s sound in
      let answers =
        cache_query-answers now name query asked len s.cache (view s.cache sound.nodes) h in
      let test = on_node (is_answer now name query.type) s.cache in
      let both = ok-same _ (results, temp) (sym answers ∙ run) in
      let nodes = ap (λ r. r.1) both in
      record {
        nodes = sound.nodes;
        valid = sound.valid;
        found = (λ p there. has-select test sound.nodes p (rw (sym nodes) at there), sound.found);
      }
  Step-IsSound s t sound (Step.dropped before temp after e) =
      let all : AllFound sound.nodes (before ++ temp ∷ after) = rw e at sound.found in
      record {
        nodes = sound.nodes;
        valid = sound.valid;
        found = (AllFound-parts sound.nodes before temp after all).1;
      }
  Step-IsSound s t sound (Step.rotated before temp after c e run) =
      let all : AllFound sound.nodes (before ++ temp ∷ after) = rw e at sound.found in
      let (here, others) = AllFound-parts sound.nodes before temp after all in
      let (c', ys, run', valid, same) = rotate_any len temp sound.nodes s.cache sound.valid here in
      let eq = ok-same c' c (sym run' ∙ run) in
      record {
        nodes = ys;
        valid = rw eq at valid;
        found = AllFound-kept sound.nodes ys (before ++ after) same others;
      }
  Step-IsSound s t sound (Step.scanned now c flag none_waits run) =
      let ((c', flag'), run', (h, _)) =
        cache_scan-Holds len now s.cache (view s.cache sound.nodes) (holds s sound) in
      let same = ap (λ r. r.0) (ok-same (c', flag') (c, flag) (sym run' ∙ run)) in
      let valid : IsCache len c h.nodes = rw same at h.valid in
      record { nodes = h.nodes; valid = valid; found = rw none_waits tt }

  Reach-IsSound : (s : State) → Reach len s → IsSound len s
  Reach-IsSound s (Reach.begun list links c run) =
      let (c', run', h) = cache_init-Holds len list links in
      let same = ok-same c' c (sym run' ∙ run) in
      record { nodes = h.nodes; valid = rw same at h.valid; found = tt }
  Reach-IsSound s (Reach.stepped r t reached step) = Step-IsSound r s (Reach-IsSound r reached) step

  pub Reach-rotate :
      (s : State) (before : List (List ℕ)) (temp : List ℕ) (after : List (List ℕ))
      → Reach len s
      → s.waiting ≡ before ++ temp ∷ after
      → Returns
          (cache_rotate temp s.cache)
          (λ c. Reach len (record { cache = c; waiting = before ++ after }))
  Reach-rotate s before temp after reached waits =
      let sound = Reach-IsSound s reached in
      let all : AllFound sound.nodes (before ++ temp ∷ after) = rw waits at sound.found in
      let (here, _) = AllFound-parts sound.nodes before temp after all in
      let (c, _, rotated, _, _) = rotate_any len temp sound.nodes s.cache sound.valid here in
      (c, rotated, Reach.stepped s _ reached (Step.rotated before temp after c waits rotated))

  -- In whatever order insertions, queries, the rotations that queries have started, and scans while
  -- no rotation waits have followed each other since `cacheInit`, for a capacity that is not 0, and
  -- whether or not a rotation waits: none of the next calls is a fault, neither the insertion of an
  -- entry with both strings, nor a query for a name, nor any of the rotations that wait; and each
  -- leads to a state that is reached again.
  pub Reach-safe :
      (s : State) (e : DnsEntry) (now : ℕ) (name : Text) (query : DnsEntry)
      → Reach len s
      → is_named e ≡ true
      → query.domain_name ≡ some name
      → Returns (cache_insert len e s.cache) (λ c. Reach len (record s { cache = c }))
        × Returns
            (cache_query len now query s.cache)
            (λ (results, found). Reach len (record s { waiting = found ∷ s.waiting }))
        × AllTurns
            (λ before temp after.
              Returns
                (cache_rotate temp s.cache)
                λ c. Reach len (record { cache = c; waiting = before ++ after }))
            s.waiting
  Reach-safe s e now name query reached full asked =
      let sound = Reach-IsSound s reached in
      let es = view s.cache sound.nodes in
      let (c, inserted, _) = cache_insert-Holds len e full s.cache es pos (holds s sound) in
      let answers = cache_query-answers now name query asked len s.cache es (holds s sound) in
      (
        (c, inserted, Reach.stepped s _ reached (Step.inserted e c full inserted)),
        (_, answers, Reach.stepped s _ reached (Step.queried now name query _ _ asked answers)),
        AllTurns-all _ s.waiting (λ before temp after. Reach-rotate s before temp after reached),
      )

  -- The same for a scan while no rotation waits.
  pub Reach-scan :
      (s : State) (now : ℕ)
      → Reach len s
      → s.waiting ≡ []
      → Returns (cache_scan len now s.cache) (λ (c, flag). Reach len (record s { cache = c }))
  Reach-scan s now reached waits =
      let sound = Reach-IsSound s reached in
      let ((c, flag), run, _) =
        cache_scan-Holds len now s.cache (view s.cache sound.nodes) (holds s sound) in
      ((c, flag), run, Reach.stepped s _ reached (Step.scanned now c flag waits run))

  rotate-All :
      (xs : List ℕ) (c : Cache) (ts : List (List ℕ))
      → IsCache len c xs
      → AllFound xs ts
      → All (λ temp. Returns (cache_rotate temp c) λ c'. (es : List DnsEntry) × Holds len c' es) ts
  rotate-All xs c [] valid all = tt
  rotate-All xs c (temp ∷ ts) valid all =
      let (c', ys, run, valid', _) = rotate_any len temp xs c valid all.0 in
      (
        (c', run, (view c' ys, record { nodes = ys; valid = valid'; entries = refl })),
        rotate-All xs c ts valid all.1,
      )

  -- A state that is reached: the cache is well formed, and each rotation that waits leaves it so.
  pub Reach-Holds :
      (s : State)
      → Reach len s
      → (es : List DnsEntry) × Holds len s.cache es
        × All
            (λ temp.
              Returns (cache_rotate temp s.cache) λ c. (es' : List DnsEntry) × Holds len c es')
            s.waiting
  Reach-Holds s reached =
      let sound = Reach-IsSound s reached in
      (
        view s.cache sound.nodes,
        holds s sound,
        rotate-All sound.nodes s.cache s.waiting sound.valid sound.found,
      )
