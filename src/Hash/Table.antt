-- ===== src/Hash/Table.antt =====
-- The map of src/Utils/hash.c as a finite map from strings to values.
use dns_relay_server.Base.{
  ◌∙◌, sym, ℕ, ◌<◌, ◌≡◌, ◌≢◌, refl, true, not, Option, none, some, List, [], ◌∷◌, ◌&&◌, ◌==◌, leb,
  if◌then◌else◌, update, arith, ok, fault, Returns, inl, inr, Bool-cases, Option-cases,
}
use dns_relay_server.Base.Bits.{bit_and-1023}
use dns_relay_server.Entry.{Text, text_eq, text_eq_iff}
use dns_relay_server.Hash.{
  HashNode, HashMap, make_node, find_node, bucket_size, bucket_id, key_bytes, init_hash,
  make_bucket, insert_hash, insert_bucket, remove_hash, remove_bucket, remove_nodes, query_hash,
  query_bucket, modify_hash,
}
use dns_relay_server.Hash.Bucket.{
  found, text_eq-key_bytes, IsBucket, find_node-insert_nodes, insert_nodes-IsBucket,
}
use dns_relay_server.Hash.Change.{find_node-remove_nodes, find_node-modify_bucket}

-- The index of a bucket lies in the array.
pub bucket_id-lt : (k : Text) → bucket_id k < bucket_size
unfolding bucket_id
bucket_id-lt k = omega (arith, bit_and-1023)

bucket_id_congr : (k j : Text) → text_eq k j ≡ true → bucket_id k ≡ bucket_id j
bucket_id_congr k j h = rw ((text_eq_iff k j).0 h)

module _ {ℓ} {V : Type ℓ} where
  abbrev pub payload : Option (HashNode V) → Option (V × ℕ)
  payload none = none
  payload (some n) = some (n.value, n.val_s)

  -- The value under a key, with its size.
  unfoldable pub lookup : HashMap V → Text → Option (V × ℕ)
  lookup m k = payload (find_node (key_bytes k) (m (bucket_id k)).nodes)

  abbrev pub IsHash : HashMap V → Type ℓ
  IsHash m = (i : ℕ) → IsBucket (m i)

  -- A new map has no keys, and is well formed.
  pub lookup-init_hash : (k : Text) → lookup (init_hash {V = V}) k ≡ none
  unfolding lookup init_hash make_bucket find_node
  lookup-init_hash k = refl

  pub init_hash-IsHash : IsHash (init_hash {V = V})
  unfolding init_hash make_bucket
  init_hash-IsHash i = record { distinct = tt; counted = refl }

  module _ (m : HashMap V) (k : Text) where
    -- `insert_hash` adds a key that is not there, with its value; it leaves the map as it is if the
    -- key is there, and says which.
    pub lookup-insert_hash :
        (value : V) (v_len : ℕ) (j : Text)
        → (lookup (insert_hash m k value v_len).0 j
            ≡ (if text_eq k j && not (found (lookup m k)) then some (value, v_len) else lookup m j))
          × ((insert_hash m k value v_len).1 ≡ not (found (lookup m k)))
    unfolding lookup insert_hash insert_bucket make_node
    lookup-insert_hash value v_len j =
        let bk = m (bucket_id k) in
        let node = make_node (key_bytes k) value v_len in
        let (reads, status) = find_node-insert_nodes bk.nodes bk.bk_s node (key_bytes j) in
        let same = text_eq-key_bytes k j in
        (ground (arith, reads, same, bucket_id_congr k j), ground (arith, status))

    -- `insert_hash` keeps the map well formed: in each bucket the keys differ, and the count is the
    -- number of nodes.
    pub insert_hash-IsHash :
        (value : V) (v_len : ℕ) → IsHash m → IsHash (insert_hash m k value v_len).0
    unfolding insert_hash insert_bucket
    insert_hash-IsHash value v_len h i = elim (Bool-cases (bucket_id k == i)) [
      | inl here ↦
          rw (here)
            (insert_nodes-IsBucket _ _ _ (h (bucket_id k)).distinct (h (bucket_id k)).counted)
      | inr other ↦ rw other (h i)
    ]

    -- `modify_hash` gives a key that is there the new value, changes nothing else, and says
    -- whether the key is there.
    pub lookup-modify_hash :
        (value : V) (v_len : ℕ) (j : Text)
        → IsHash m
        → (lookup (modify_hash m k value v_len).0 j
            ≡ (if text_eq k j && found (lookup m k) then some (value, v_len) else lookup m j))
          × ((modify_hash m k value v_len).1 ≡ found (lookup m k))
    unfolding lookup modify_hash
    lookup-modify_hash value v_len j h =
        let bk = m (bucket_id k) in
        let (_, reads, status) =
          find_node-modify_bucket bk (key_bytes k) (key_bytes j) value v_len (h (bucket_id k)) in
        let same = text_eq-key_bytes k j in
        (
          ground (arith, reads, same, bucket_id_congr k j, (text_eq_iff k j).0),
          ground (arith, status),
        )

    -- `modify_hash` keeps the map well formed.
    pub modify_hash-IsHash :
        (value : V) (v_len : ℕ) → IsHash m → IsHash (modify_hash m k value v_len).0
    unfolding modify_hash
    modify_hash-IsHash value v_len h i = elim (Bool-cases (bucket_id k == i)) [
      | inl here ↦
          rw here
            (find_node-modify_bucket (m (bucket_id k)) (key_bytes k) (key_bytes k) value v_len
              (h (bucket_id k))).0
      | inr other ↦ rw other (h i)
    ]

    -- `query_hash` copies the value of the key into a buffer that is large enough, says so if the
    -- key is not there, and overruns a buffer that is smaller than the value.
    pub query_hash-lookup :
        (r_len : ℕ)
        → query_hash m k r_len ≡ elim (lookup m k) [
          | none ↦ ok none
          | some (value, val_s) ↦ if leb val_s r_len then ok (some value) else fault
        ]
    unfolding query_hash query_bucket lookup
    query_hash-lookup r_len =
        elim (Option-cases (find_node (key_bytes k) (m (bucket_id k)).nodes)) [
          | inl absent ↦ rw (absent, query_hash)
          | inr (node, present) ↦ rw (present, query_hash)
        ]

    -- `remove_hash` of any key whose bucket is empty is a fault.
    pub remove_hash-fault : (m (bucket_id k)).nodes ≡ [] → remove_hash m k ≡ fault
    unfolding remove_hash remove_bucket remove_nodes
    remove_hash-fault empty = rw empty

    remove_from :
        (nodes : List (HashNode V)) (j : Text)
        → nodes ≢ []
        → (m (bucket_id k)).nodes ≡ nodes
        → IsHash m
        → Returns (remove_hash m k) λ r.
          IsHash r.0
          × (lookup r.0 j ≡ (if text_eq k j then none else lookup m j))
          × (r.1 ≡ found (lookup m k))
    unfolding remove_hash remove_bucket lookup
    remove_from [] j filled e h = absurd (filled refl)
    remove_from (n ∷ ns) j filled e h =
        let id = bucket_id k in
        let b : IsBucket (record { nodes = n ∷ ns; bk_s = (m id).bk_s }) = record {
          distinct = rw e at (h id).distinct;
          counted = rw e at (h id).counted;
        } in
        let (r, run, (b', reads, status)) =
          find_node-remove_nodes (key_bytes k) (key_bytes j) n ns (m id).bk_s b in
        (
          (update m id r.0, r.1),
          rw (e, run),
          (
            λ i. elim (Bool-cases (id == i)) [ inl here ↦ rw here b' | inr other ↦ rw other (h i) ],
            ground (arith, e, reads, text_eq-key_bytes k j, bucket_id_congr k j),
            ground (arith, e, status),
          ),
        )

    -- `remove_hash` of a key whose bucket is not empty: no fault, the key is not there any more,
    -- all other keys keep their values, and the status says whether the key was there.
    pub lookup-remove_hash :
        (j : Text)
        → (m (bucket_id k)).nodes ≢ []
        → IsHash m
        → Returns (remove_hash m k) λ r.
          IsHash r.0
          × (lookup r.0 j ≡ (if text_eq k j then none else lookup m j))
          × (r.1 ≡ found (lookup m k))
    lookup-remove_hash j filled h = remove_from (m (bucket_id k)).nodes j filled refl h

  -- `query_hash` after `insert_hash`: a key that was not there gives its value, if the buffer is large
  -- enough, and a fault if it is smaller than the value; every other key, and one that was there, is
  -- read as before.
  pub query_hash-insert_hash :
      (m : HashMap V) (k : Text) (value : V) (v_len : ℕ) (j : Text) (r_len : ℕ)
      → query_hash (insert_hash m k value v_len).0 j r_len ≡ (
          if text_eq k j && not (found (lookup m k))
          then (if leb v_len r_len then ok (some value) else fault)
          else query_hash m j r_len)
  query_hash-insert_hash m k value v_len j r_len =
      let reads = (lookup-insert_hash m k value v_len j).0 in
      elim (Bool-cases (text_eq k j && not (found (lookup m k)))) [
        | inl new ↦
            let here : lookup (insert_hash m k value v_len).0 j ≡ some (value, v_len) =
              rw new at reads in
            query_hash-lookup (insert_hash m k value v_len).0 j r_len ∙ rw (here, new)
        | inr old ↦
            let same : lookup (insert_hash m k value v_len).0 j ≡ lookup m j = rw old at reads in
            query_hash-lookup (insert_hash m k value v_len).0 j r_len
            ∙ rw (same, old) (sym (query_hash-lookup m j r_len))
      ]
