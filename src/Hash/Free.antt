-- ===== src/Hash/Free.antt =====
-- What `free_hash` leaves over.
use dns_relay_server.Base.{
  ℕ, zero, suc, ◌+◌, ◌≡◌, ◌==◌, refl, none, some, List, [], ◌∷◌, length, length-append,
  if◌then◌else◌, arith,
}
use dns_relay_server.Hash.{
  HashNode, HashBucket, HashMap, bucket_size, free_nodes, free_bucket, free_buckets, free_hash,
}

module _ {ℓ} {V : Type ℓ} where
  length-free_nodes :
      (node : HashNode V) (nodes : List (HashNode V))
      → length (free_nodes (some node) nodes) ≡ length nodes
  unfolding free_nodes
  length-free_nodes node [] = refl
  length-free_nodes node (now ∷ nodes) = omega (arith, length-free_nodes now nodes)

  length-free_bucket :
      (bk : HashBucket V)
      → length (free_bucket bk) + (if length bk.nodes == 0 then 0 else 1) ≡ length bk.nodes
  unfolding free_bucket free_nodes
  length-free_bucket bk = from bk.nodes
    where
      from :
          (nodes : List (HashNode V))
          → length (free_nodes none nodes) + (if length nodes == 0 then 0 else 1) ≡ length nodes
      from [] = refl
      from (node ∷ nodes) = ground (arith, length-free_nodes node nodes)

  -- The number of nodes, and of the buckets that have a node, among the first `n` buckets.
  abbrev pub all_nodes : ℕ → HashMap V → ℕ
  all_nodes zero m = 0
  all_nodes (suc n) m = all_nodes n m + length (m n).nodes

  abbrev pub filled : ℕ → HashMap V → ℕ
  filled zero m = 0
  filled (suc n) m = filled n m + (if length (m n).nodes == 0 then 0 else 1)

  length-free_buckets :
      (n : ℕ) (m : HashMap V) → length (free_buckets n m) + filled n m ≡ all_nodes n m
  unfolding free_buckets
  length-free_buckets zero m = refl
  length-free_buckets (suc n) m = omega (
    arith,
    length-append (free_buckets n m) (free_bucket (m n)),
    length-free_buckets n m,
    length-free_bucket (m n),
  )

  -- `free_hash` does not free one node of each bucket that has a node.
  pub free_hash-leak :
      (m : HashMap V) → length (free_hash m) + filled bucket_size m ≡ all_nodes bucket_size m
  unfolding free_hash
  free_hash-leak m = length-free_buckets bucket_size m
