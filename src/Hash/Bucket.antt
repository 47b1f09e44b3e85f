-- ===== src/Hash/Bucket.antt =====
-- The operations of a bucket as operations of a finite map, read by `find_node`.
use dns_relay_server.Base.{
  ℕ, ◌≡◌, refl, ap, Bool, true, false, not, Option, none, some, List, [], ◌∷◌, ◌++◌, ◌&&◌,
  if◌then◌else◌, length, length-append, arith, inl, inr, Option-cases,
}
use dns_relay_server.Entry.{Text, text_eq, text_eq_iff}
use dns_relay_server.Hash.{HashNode, HashBucket, key_match, find_node, insert_nodes, key_bytes}

pub text_eq-length : (s t : Text) → text_eq s t ≡ true → length s ≡ length t
text_eq-length s t h = ap length ((text_eq_iff s t).0 h)

pub text_eq-key_bytes : (s t : Text) → text_eq (key_bytes s) (key_bytes t) ≡ text_eq s t
unfolding key_bytes text_eq
text_eq-key_bytes [] [] = refl
text_eq-key_bytes [] (b ∷ []) = ground arith
text_eq-key_bytes [] (b ∷ c ∷ t) = ground arith
text_eq-key_bytes (a ∷ []) [] = ground arith
text_eq-key_bytes (a ∷ c ∷ s) [] = ground arith
text_eq-key_bytes (a ∷ s) (b ∷ t) = ground (arith, text_eq-key_bytes s t)

pub text_eq_symm : (s t : Text) → text_eq s t ≡ text_eq t s
unfolding text_eq
text_eq_symm [] [] = refl
text_eq_symm [] (b ∷ t) = refl
text_eq_symm (a ∷ s) [] = refl
text_eq_symm (a ∷ s) (b ∷ t) = ground (arith, text_eq_symm s t)

pub text_eq_congr : (s t u : Text) → text_eq s t ≡ true → text_eq s u ≡ text_eq t u
text_eq_congr s t u h = rw ((text_eq_iff s t).0 h)

abbrev pub found {ℓ} : {A : Type ℓ} → Option A → Bool
found none = false
found (some a) = true

module _ {ℓ} {V : Type ℓ} where
  pub key_match-text_eq : (n : HashNode V) (k : Text) → key_match n k ≡ text_eq n.key k
  unfolding key_match
  key_match-text_eq n k = ground (arith, text_eq-length n.key k)

  -- No key occurs twice.
  abbrev pub IsDistinct : List (HashNode V) → Type ℓ
  IsDistinct [] = Unit
  IsDistinct (n ∷ ns) = (find_node n.key ns ≡ none) × IsDistinct ns

  pub record IsBucket (bk : HashBucket V) : Type ℓ where
    pub distinct : IsDistinct bk.nodes
    pub counted : bk.bk_s ≡ length bk.nodes

  find_node-append :
      (j : Text) (ns : List (HashNode V)) (node : HashNode V)
      → find_node j (ns ++ node ∷ []) ≡ (
          if found (find_node j ns)
          then find_node j ns
          else if text_eq node.key j
          then some node
          else none)
  unfolding find_node
  find_node-append j [] node = rw (key_match-text_eq node j)
  find_node-append j (n ∷ ns) node = ground (arith, find_node-append j ns node)

  -- Lookups see a key only up to `text_eq`.
  find_node_congr :
      (j k : Text) (ns : List (HashNode V)) → text_eq j k ≡ true → find_node j ns ≡ find_node k ns
  find_node_congr j k ns h = rw ((text_eq_iff j k).0 h)

  IsDistinct-append :
      (ns : List (HashNode V)) (node : HashNode V)
      → IsDistinct ns
      → find_node node.key ns ≡ none
      → IsDistinct (ns ++ node ∷ [])
  unfolding find_node
  IsDistinct-append [] node d absent = (refl, tt)
  IsDistinct-append (n ∷ ns) node d absent = (
    rw (find_node-append n.key ns node, d.0)
        (ground (arith, key_match-text_eq n node.key, text_eq_symm n.key node.key)),
    IsDistinct-append ns node d.1
        (ground (arith, key_match-text_eq n node.key, text_eq_symm n.key node.key)),
  )

  pub find_node-insert_nodes :
      (ns : List (HashNode V)) (size : ℕ) (node : HashNode V) (j : Text)
      → (find_node j (insert_nodes ns size node).0.nodes ≡ (
          if text_eq node.key j && not (found (find_node node.key ns))
          then some node
          else find_node j ns))
        × ((insert_nodes ns size node).1 ≡ not (found (find_node node.key ns)))
  unfolding insert_nodes
  find_node-insert_nodes [] size node j =
      unfold find_node in (ground (arith, key_match-text_eq node j), ground arith)
  find_node-insert_nodes (n ∷ ns) size node j = (
    ground (arith, find_node-append j (n ∷ ns) node, find_node_congr node.key j (n ∷ ns)),
    ground arith,
  )

  pub insert_nodes-IsBucket :
      (ns : List (HashNode V)) (size : ℕ) (node : HashNode V)
      → IsDistinct ns
      → size ≡ length ns
      → IsBucket (insert_nodes ns size node).0
  unfolding insert_nodes
  insert_nodes-IsBucket [] size node d c =
      unfold find_node in record { distinct = (refl, tt); counted = refl }
  insert_nodes-IsBucket (n ∷ ns) size node d c = elim (Option-cases (find_node node.key (n ∷ ns))) [
    | inl absent ↦
        rw (absent, insert_nodes)
          (record {
            distinct = IsDistinct-append (n ∷ ns) node d absent;
            counted = omega (arith, length-append {ℓ} (n ∷ ns) (node ∷ []));
          })
    | inr (m, present) ↦ rw (present, insert_nodes) (record { distinct = d; counted = c })
  ]
