-- ===== src/Hash/Tests.antt =====
-- The string hash map at work, and its theorems at maps with one key.
use dns_relay_server.Base.{
  ℕ, ◌≡◌, refl, ◌≢◌, not, ◌&&◌, none, some, [], ◌∷◌, if◌then◌else◌, ok, fault, ◌>>=◌,
}
use dns_relay_server.Entry.{Text, text_eq}
use dns_relay_server.Hash.{
  HashMap, init_hash, insert_hash, remove_hash, query_hash, modify_hash, key_bytes, fnv32_from,
  fnv32, bucket_id, key_match, make_node, modify_node, make_bucket, find_node, insert_nodes,
  insert_bucket, drop_node, remove_nodes, remove_bucket, query_bucket, modify_nodes, modify_bucket,
}
use dns_relay_server.Hash.Bucket.{found}
use dns_relay_server.Hash.Table.{
  IsHash, lookup, init_hash-IsHash, lookup-init_hash, lookup-insert_hash, insert_hash-IsHash,
  query_hash-insert_hash,
}

abbrev name : Text
name = 97 ∷ []

abbrev other : Text
other = 98 ∷ []

abbrev empty : HashMap ℕ
empty = init_hash

abbrev one : HashMap ℕ
one = (insert_hash empty name 5 4).0

program : Unit {0}
unfolding init_hash insert_hash remove_hash query_hash modify_hash key_bytes fnv32_from fnv32
    bucket_id key_match make_node modify_node make_bucket find_node insert_nodes insert_bucket
    drop_node remove_nodes remove_bucket query_bucket modify_nodes modify_bucket text_eq
program = tt

-- The hash of the empty string with its final 0.
fnv32_zero : fnv32 (0 ∷ []) ≡ 84696351
unfolding program
fnv32_zero = refl

-- A value is found after its insertion, not after its removal, and the buffer must be large enough.
found_value : query_hash one name 4 ≡ ok (some 5)
unfolding program
found_value = refl

small_buffer : query_hash one name 3 ≡ fault
unfolding program
small_buffer = refl

removed_value : (do (m, status) ← remove_hash one name; query_hash m name 4) ≡ ok none
unfolding program
removed_value = refl

lookup-init_hash_example : lookup empty name ≡ none
lookup-init_hash_example = lookup-init_hash name

one-IsHash : IsHash one
one-IsHash = insert_hash-IsHash empty name 5 4 init_hash-IsHash

lookup-insert_hash_example :
    (lookup (insert_hash one other 6 4).0 name ≡ (
      if text_eq other name && not (found (lookup one other))
      then some (6, 4)
      else lookup one name))
    × ((insert_hash one other 6 4).1 ≡ not (found (lookup one other)))
lookup-insert_hash_example = lookup-insert_hash one other 6 4 name

query_hash-insert_hash_example : query_hash (insert_hash one other 6 4).0 other 3 ≡ fault
unfolding program lookup
query_hash-insert_hash_example = query_hash-insert_hash one other 6 4 other 3

one-nonempty : (one (bucket_id name)).nodes ≢ []
unfolding program
one-nonempty e = cc
