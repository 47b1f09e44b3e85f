-- ===== src/Hash.antt =====
-- The string hash map of include/utils/hash.h and src/Utils/hash.c. A bucket is the list of its nodes
-- (`head` is the first and `tail` the last) with its count; a key is stored with its final 0. A
-- value is any type, with its size in bytes. SUCCUSS is `true` and FAILURE `false`. Each bucket is
-- locked during a call on it, so calls follow one another; `malloc` does not fail.
pub mod Bucket
pub mod Change
pub mod Table
pub mod Free
mod Tests
use Prim.Native.Nat.{bit_and, bit_xor}
use dns_relay_server.Base.{
  ℕ, zero, suc, ◌+◌, ◌-◌, ◌*◌, ◌/◌, ◌%◌, ◌^◌, Bool, true, false, Option, none, some, List, [], ◌∷◌,
  ◌++◌, ◌&&◌, ◌==◌, ltb, leb, if◌then◌else◌, length, update, Run, ok, fault, ◌>>=◌,
}
use dns_relay_server.Entry.{Text, text_eq}

abbrev pub bucket_size : ℕ
bucket_size = 1024

abbrev pub hash_mask : ℕ
hash_mask = bucket_size - 1

pub record HashNode {ℓ} (V : Type ℓ) : Type ℓ where
  pub key : Text
  pub value : V
  pub val_s : ℕ

pub record HashBucket {ℓ} (V : Type ℓ) : Type ℓ where
  pub nodes : List (HashNode V)
  pub bk_s : ℕ

-- The bytes of `key` with the 0 that STRMEM counts.
unfoldable pub key_bytes : Text → Text
key_bytes key = key ++ 0 ∷ []

-- One round for each byte: exclusive or, then the product modulo 2 ^ 32.
unfoldable pub fnv32_from : ℕ → Text → ℕ
fnv32_from hash [] = hash
fnv32_from hash (b ∷ str) = fnv32_from ((bit_xor hash b * 16777619) % 2 ^ 32) str

unfoldable pub fnv32 : Text → ℕ
unfolding fnv32_from
fnv32 str = fnv32_from 2166136261 str

-- The index of a key's bucket.
unfoldable pub bucket_id : Text → ℕ
unfolding key_bytes fnv32
bucket_id key = bit_and (fnv32 (key_bytes key)) hash_mask

module _ {ℓ} {V : Type ℓ} where
  -- KEY_MATCH.
  unfoldable pub key_match : HashNode V → Text → Bool
  key_match node k = (length node.key == length k) && text_eq node.key k

  unfoldable pub make_node : Text → V → ℕ → HashNode V
  make_node key value v_len = record { key = key; value = value; val_s = v_len }

  unfoldable pub modify_node : HashNode V → V → ℕ → HashNode V
  modify_node node value v_len = record node { value = value; val_s = v_len }

  unfoldable pub make_bucket : HashBucket V
  make_bucket = record { nodes = []; bk_s = 0 }

  -- The search that `insert_bucket`, `query_bucket` and `modify_bucket` make.
  unfoldable pub find_node : Text → List (HashNode V) → Option (HashNode V)
  find_node k [] = none
  find_node k (node ∷ nodes) = if key_match node k then some node else find_node k nodes

  -- The branch for an empty bucket, and the search and `cat_node` in any other.
  unfoldable pub insert_nodes : List (HashNode V) → ℕ → HashNode V → HashBucket V × Bool
  insert_nodes [] size node = (record { nodes = node ∷ []; bk_s = 1 }, true)
  insert_nodes (n ∷ ns) size node = elim (find_node node.key (n ∷ ns)) [
    | some _ ↦ (record { nodes = n ∷ ns; bk_s = size }, false)
    | none ↦ (record { nodes = (n ∷ ns) ++ node ∷ []; bk_s = size + 1 }, true)
  ]

  unfoldable pub insert_bucket : HashBucket V → HashNode V → HashBucket V × Bool
  insert_bucket bk node = insert_nodes bk.nodes bk.bk_s node

  abbrev pub keep_first : HashNode V → Option (List (HashNode V)) → Option (List (HashNode V))
  keep_first node none = none
  keep_first node (some nodes) = some (node ∷ nodes)

  -- The nodes without the first that has the key, if one has it.
  unfoldable pub drop_node : Text → List (HashNode V) → Option (List (HashNode V))
  drop_node k [] = none
  drop_node k (node ∷ nodes) =
      if key_match node k then some nodes else keep_first node (drop_node k nodes)

  -- The key is compared with the one at `head` before `head` is compared with NULL.
  unfoldable pub remove_nodes : Text → List (HashNode V) → ℕ → Run (HashBucket V × Bool)
  remove_nodes k [] size = fault
  remove_nodes k (n ∷ ns) size = elim (drop_node k (n ∷ ns)) [
    | some nodes ↦ ok (record { nodes = nodes; bk_s = size - 1 }, true)
    | none ↦ ok (record { nodes = n ∷ ns; bk_s = size }, false)
  ]

  unfoldable pub remove_bucket : HashBucket V → Text → Run (HashBucket V × Bool)
  remove_bucket bk k = remove_nodes k bk.nodes bk.bk_s

  unfoldable pub query_bucket : HashBucket V → Text → Option (HashNode V)
  query_bucket bk k = find_node k bk.nodes

  unfoldable pub modify_nodes : Text → V → ℕ → List (HashNode V) → Option (List (HashNode V))
  modify_nodes k value v_len [] = none
  modify_nodes k value v_len (node ∷ nodes) =
      if key_match node k
      then some (modify_node node value v_len ∷ nodes)
      else keep_first node (modify_nodes k value v_len nodes)

  unfoldable pub modify_bucket : HashBucket V → Text → V → ℕ → HashBucket V × Bool
  modify_bucket bk k value v_len = elim (modify_nodes k value v_len bk.nodes) [
    | some nodes ↦ (record bk { nodes = nodes }, true)
    | none ↦ (bk, false)
  ]

module _ {ℓ} {V : Type ℓ} where
  -- The nodes that the loop of `free_bucket` frees, in their order: each is freed when the loop
  -- stands at the next one.
  unfoldable pub free_nodes : Option (HashNode V) → List (HashNode V) → List (HashNode V)
  free_nodes prev [] = []
  free_nodes none (now ∷ nodes) = free_nodes (some now) nodes
  free_nodes (some node) (now ∷ nodes) = node ∷ free_nodes (some now) nodes

  unfoldable pub free_bucket : HashBucket V → List (HashNode V)
  free_bucket bk = free_nodes none bk.nodes

-- `struct string_hash`: an array that is read and written below `bucket_size`.
abbrev pub HashMap {ℓ} : Type ℓ → Type ℓ
HashMap V = ℕ → HashBucket V

module _ {ℓ} {V : Type ℓ} where
  unfoldable pub init_hash : HashMap V
  init_hash i = make_bucket

  unfoldable pub insert_hash : HashMap V → Text → V → ℕ → HashMap V × Bool
  insert_hash m key value v_len =
      let id = bucket_id key in
      let (bk, status) = insert_bucket (m id) (make_node (key_bytes key) value v_len) in
      (update m id bk, status)

  unfoldable pub remove_hash : HashMap V → Text → Run (HashMap V × Bool)
  remove_hash m key = do
    let id = bucket_id key
    (bk, status) ← remove_bucket (m id) (key_bytes key)
    ok (update m id bk, status)

  -- `ret` has room for `r_len` bytes, and `val_s` bytes are copied into it.
  unfoldable pub query_hash : HashMap V → Text → (r_len : ℕ) → Run (Option V)
  query_hash m key r_len = elim (query_bucket (m (bucket_id key)) (key_bytes key)) [
    | none ↦ ok none
    | some node ↦ if leb node.val_s r_len then ok (some node.value) else fault
  ]

  unfoldable pub modify_hash : HashMap V → Text → V → ℕ → HashMap V × Bool
  modify_hash m key value v_len =
      let id = bucket_id key in
      let (bk, status) = modify_bucket (m id) (key_bytes key) value v_len in
      (update m id bk, status)

  -- The two sums of `count_hash` over the first `n` buckets.
  unfoldable pub count_buckets : ℕ → HashMap V → ℕ × ℕ
  count_buckets zero m = (0, 0)
  count_buckets (suc n) m =
      let (deepest, total) = count_buckets n m in
      (if ltb (m n).bk_s deepest then deepest else (m n).bk_s, total + (m n).bk_s)

  unfoldable pub count_hash : HashMap V → ℕ × ℕ
  count_hash m = count_buckets bucket_size m

  -- What `free_hash` frees, over the first `n` buckets and over all.
  unfoldable pub free_buckets : ℕ → HashMap V → List (HashNode V)
  free_buckets zero m = []
  free_buckets (suc n) m = free_buckets n m ++ free_bucket (m n)

  unfoldable pub free_hash : HashMap V → List (HashNode V)
  free_hash m = free_buckets bucket_size m
