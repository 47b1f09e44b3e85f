-- ===== src/Hash/Change.antt =====
-- Removal and change of a node in a bucket.
use dns_relay_server.Base.{
  ℕ, ◌-◌, ◌<◌, ◌≡◌, refl, sym, ◌∙◌, true, false, Option, none, some, List, [], ◌∷◌, if◌then◌else◌,
  length, arith, Returns, inl, inr, Bool-cases, Option-cases,
}
use dns_relay_server.Entry.{Text, text_eq, text_eq_iff}
use dns_relay_server.Hash.{
  HashNode, HashBucket, modify_node, find_node, drop_node, remove_nodes, modify_nodes,
  modify_bucket,
}
use dns_relay_server.Hash.Bucket.{
  found, key_match-text_eq, text_eq_symm, text_eq_congr, IsDistinct, IsBucket,
}

module _ {ℓ} {V : Type ℓ} where
  -- The nodes less the first one with the key.
  abbrev without : Text → List (HashNode V) → List (HashNode V)
  without k [] = []
  without k (n ∷ ns) = if text_eq n.key k then ns else n ∷ without k ns

  -- The nodes with the value of the first one with the key replaced.
  abbrev assigned : Text → V → ℕ → List (HashNode V) → List (HashNode V)
  assigned k value v_len [] = []
  assigned k value v_len (n ∷ ns) =
      if text_eq n.key k
      then record n { value = value; val_s = v_len } ∷ ns
      else n ∷ assigned k value v_len ns

  abbrev pub with_value : V → ℕ → Option (HashNode V) → Option (HashNode V)
  with_value value v_len none = none
  with_value value v_len (some n) = some (record n { value = value; val_s = v_len })

  find_node_congr_key :
      (j k : Text) (ns : List (HashNode V)) → text_eq j k ≡ true → find_node j ns ≡ find_node k ns
  find_node_congr_key j k ns h = rw ((text_eq_iff j k).0 h)

  drop_node-without :
      (k : Text) (ns : List (HashNode V))
      → drop_node k ns ≡ (if found (find_node k ns) then some (without k ns) else none)
  unfolding drop_node find_node
  drop_node-without k [] = refl
  drop_node-without k (n ∷ ns) = rw (key_match-text_eq n k) (ground (arith, drop_node-without k ns))

  modify_nodes-assigned :
      (k : Text) (value : V) (v_len : ℕ) (ns : List (HashNode V))
      → modify_nodes k value v_len ns
        ≡ (if found (find_node k ns) then some (assigned k value v_len ns) else none)
  unfolding modify_nodes modify_node find_node
  modify_nodes-assigned k value v_len [] = refl
  modify_nodes-assigned k value v_len (n ∷ ns) =
      rw (key_match-text_eq n k) (ground (arith, modify_nodes-assigned k value v_len ns))

  find_node-without :
      (k j : Text) (ns : List (HashNode V))
      → IsDistinct ns
      → find_node j (without k ns) ≡ (if text_eq k j then none else find_node j ns)
  unfolding find_node
  find_node-without k j [] d = ground arith
  find_node-without k j (n ∷ ns) d = ground (
    arith,
    find_node-without k j ns,
    key_match-text_eq n j,
    text_eq_congr n.key k j,
    text_eq_symm n.key k,
    text_eq_congr k j n.key,
    text_eq_symm j n.key,
    find_node_congr_key n.key j ns,
  )

  find_node-assigned :
      (k j : Text) (value : V) (v_len : ℕ) (ns : List (HashNode V))
      → find_node j (assigned k value v_len ns)
        ≡ (if text_eq k j then with_value value v_len (find_node j ns) else find_node j ns)
  unfolding find_node
  find_node-assigned k j value v_len [] = ground arith
  find_node-assigned k j value v_len (n ∷ ns) = ground (
    arith,
    find_node-assigned k j value v_len ns,
    key_match-text_eq n j,
    key_match-text_eq (record n { value = value; val_s = v_len }) j,
    text_eq_congr n.key k j,
    text_eq_symm n.key k,
    text_eq_congr k j n.key,
    text_eq_symm j n.key,
  )

  IsDistinct-without :
      (k : Text) (ns : List (HashNode V)) → IsDistinct ns → IsDistinct (without k ns)
  IsDistinct-without k [] d = tt
  IsDistinct-without k (n ∷ ns) d = elim (Bool-cases (text_eq n.key k)) [
    | inl here ↦ rw here d.1
    | inr on ↦ rw on (
      rw (find_node-without k n.key ns d.1, text_eq_symm k n.key, on) d.0,
      IsDistinct-without k ns d.1,
    )
  ]

  length-pos : (k : Text) (ns : List (HashNode V)) → found (find_node k ns) ≡ true → 0 < length ns
  unfolding find_node
  length-pos k [] h = cc
  length-pos k (n ∷ ns) h = omega arith

  length-without :
      (k : Text) (ns : List (HashNode V))
      → found (find_node k ns) ≡ true
      → length (without k ns) ≡ length ns - 1
  unfolding find_node
  length-without k [] h = cc
  length-without k (n ∷ ns) h =
      ground (arith, key_match-text_eq n k, length-without k ns, length-pos k ns)

  IsDistinct-assigned :
      (k : Text) (value : V) (v_len : ℕ) (ns : List (HashNode V))
      → IsDistinct ns
      → IsDistinct (assigned k value v_len ns)
  IsDistinct-assigned k value v_len [] d = tt
  IsDistinct-assigned k value v_len (n ∷ ns) d = elim (Bool-cases (text_eq n.key k)) [
    | inl here ↦ rw here d
    | inr on ↦ rw on (
      rw (find_node-assigned k n.key value v_len ns, text_eq_symm k n.key, on) d.0,
      IsDistinct-assigned k value v_len ns d.1,
    )
  ]

  length-assigned :
      (k : Text) (value : V) (v_len : ℕ) (ns : List (HashNode V))
      → length (assigned k value v_len ns) ≡ length ns
  length-assigned k value v_len [] = refl
  length-assigned k value v_len (n ∷ ns) = ground (arith, length-assigned k value v_len ns)

  -- Removal from a bucket that is not empty takes the key out of the map, and says whether it was
  -- there; the bucket stays well formed.
  pub find_node-remove_nodes :
      (k j : Text) (n : HashNode V) (ns : List (HashNode V)) (size : ℕ)
      → IsBucket (record { nodes = n ∷ ns; bk_s = size })
      → Returns (remove_nodes k (n ∷ ns) size) λ r.
        IsBucket r.0
        × (find_node j r.0.nodes ≡ (if text_eq k j then none else find_node j (n ∷ ns)))
        × (r.1 ≡ found (find_node k (n ∷ ns)))
  unfolding remove_nodes
  find_node-remove_nodes k j n ns size b = elim (Option-cases (find_node k (n ∷ ns))) [
    | inl absent ↦ (
      (record { nodes = n ∷ ns; bk_s = size }, false),
      rw (drop_node-without k (n ∷ ns), absent, remove_nodes),
      (b, ground (arith, find_node_congr_key k j (n ∷ ns)), rw absent),
    )
    | inr (m, present) ↦ (
      (record { nodes = without k (n ∷ ns); bk_s = size - 1 }, true),
      rw (drop_node-without k (n ∷ ns), present, remove_nodes),
      (
        record {
          distinct = IsDistinct-without k (n ∷ ns) b.distinct;
          counted = ground (arith, b.counted, length-without k (n ∷ ns));
        },
        find_node-without k j (n ∷ ns) b.distinct,
        rw present,
      ),
    )
  ]

  -- A change gives the key's node the new value, if there is one, and says whether there is.
  pub find_node-modify_bucket :
      (bk : HashBucket V) (k j : Text) (value : V) (v_len : ℕ)
      → IsBucket bk
      → IsBucket (modify_bucket bk k value v_len).0
        × (find_node j (modify_bucket bk k value v_len).0.nodes ≡ (
            if text_eq k j
            then with_value value v_len (find_node j bk.nodes)
            else find_node j bk.nodes))
        × ((modify_bucket bk k value v_len).1 ≡ found (find_node k bk.nodes))
  unfolding modify_bucket
  find_node-modify_bucket bk k j value v_len b = elim (Option-cases (find_node k bk.nodes)) [
    | inl absent ↦
        rw (modify_nodes-assigned k value v_len bk.nodes, absent, modify_bucket)
          (b, ground (arith, find_node_congr_key k j bk.nodes), refl)
    | inr (m, present) ↦
        rw (modify_nodes-assigned k value v_len bk.nodes, present, modify_bucket)
          (
            record {
              distinct = IsDistinct-assigned k value v_len bk.nodes b.distinct;
              counted = b.counted ∙ sym (length-assigned k value v_len bk.nodes);
            },
            find_node-assigned k j value v_len bk.nodes,
            refl,
          )
  ]
