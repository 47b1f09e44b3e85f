-- ===== src/Host.antt =====
-- The table of src/Service/host.c: from a name to a list of entries, filled from the lines of the host
-- file. The table's values are pointers to list heads, and `lists` is the store that they point
-- into: what Ring proves of include/utils/list.h lets a circular list stand as a list. `malloc`
-- returns the addresses `fresh`, `fresh + 1`, ... The lines and their two parts, which `fgets` and
-- `strtok` give, are arguments, without the empty lines; a part that is not there is `none`.
pub mod Table
pub mod Load
mod Tests
use dns_relay_server.Base.{
  ℕ, ◌+◌, ◌==◌, Bool, false, if◌then◌else◌, Option, none, some, List, [], ◌∷◌, has, update, Run, ok,
  ◌>>=◌,
}
use dns_relay_server.Entry.{Text, text_eq, DnsEntry, entry_set, deref}
use dns_relay_server.Hash.{HashMap, init_hash, insert_hash, query_hash}
use dns_relay_server.Protocol.{type_a, type_aaaa}

pub record Hosts : Type 0 where
  pub table : HashMap ℕ
  pub lists : ℕ → List DnsEntry
  pub fresh : ℕ

-- The size of a pointer.
abbrev pub pointer_size : ℕ
pointer_size = 8

-- Before the first line, after `init_hash`.
unfoldable pub no_hosts : (lists : ℕ → List DnsEntry) (fresh : ℕ) → Hosts
no_hosts lists fresh = record { table = init_hash; lists = lists; fresh = fresh }

-- The entry of a line: of type AAAA if there is a colon in the address.
unfoldable pub host_entry : (now : ℕ) (val key : Option Text) → Run DnsEntry
host_entry now val key = do
  let entry = entry_set now key val 0 type_a 0
  ip ← deref val
  ok (if has 58 ip then record entry { type = type_aaaa } else entry)

-- The entry goes in front of the list at the head that the table has, or of a new list.
unfoldable pub add_node : DnsEntry → (name : Text) → (head : Option ℕ) → Hosts → Hosts
add_node entry name (some head) m = record m { lists = update m.lists head (entry ∷ m.lists head) }
add_node entry name none m = record {
  table = (insert_hash m.table name m.fresh pointer_size).0;
  lists = update m.lists m.fresh (entry ∷ []);
  fresh = m.fresh + 1;
}

unfoldable pub host_add : DnsEntry → Hosts → Run Hosts
host_add entry m = do
  name ← deref entry.domain_name
  head ← query_hash m.table name pointer_size
  ok (add_node entry name head m)

-- The loop of `hostInit`, over the two parts of each line.
unfoldable pub host_load : (now : ℕ) → List (Option Text × Option Text) → Hosts → Run Hosts
host_load now [] m = ok m
host_load now ((val, key) ∷ lines) m = do
  entry ← host_entry now val key
  m' ← host_add entry m
  host_load now lines m'

-- `blocked` is the return value -1; otherwise the value is the number of the results.
pub data HostResult : Type 0 where
  blocked : HostResult
  found : List DnsEntry → HostResult

-- "0.0.0.0".
abbrev pub zero_address : Text
zero_address = 48 ∷ 46 ∷ 48 ∷ 46 ∷ 48 ∷ 46 ∷ 48 ∷ []

abbrev pub prepend : DnsEntry → HostResult → HostResult
prepend e blocked = blocked
prepend e (found es) = found (e ∷ es)

-- For a query of type A, an entry with the address 0.0.0.0 blocks the name.
unfoldable pub is_blocking : (query e : DnsEntry) → Run Bool
is_blocking query e =
    if query.type == type_a then (do ip ← deref e.ip; ok (text_eq ip zero_address)) else ok false

-- The second loop of `hostQuery`.
unfoldable pub scan_list : (now : ℕ) → DnsEntry → List DnsEntry → Run HostResult
scan_list now query [] = ok (found [])
scan_list now query (e ∷ es) = do
  let rest = scan_list now query es
  let stamped = record e { timestamp = now + 128 }
  let kept =
      λ (result : HostResult). if e.type == query.type then prepend stamped result else result
  blocking ← is_blocking query e
  if blocking then ok blocked else (rest >>= λ result. ok (kept result))

-- The lists are read through the head that the table has. `flag` is never NULL.
unfoldable pub host_query : (now : ℕ) → DnsEntry → Hosts → Run HostResult
host_query now query m = do
  name ← deref query.domain_name
  head ← query_hash m.table name pointer_size
  elim head [ none ↦ ok (found []) | some h ↦ scan_list now query (m.lists h) ]
