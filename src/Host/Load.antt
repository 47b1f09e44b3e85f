-- ===== src/Host/Load.antt =====
-- What `hostQuery` answers after `hostInit` has read the lines of the host file.
use dns_relay_server.Base.{
  ℕ, ◌%◌, ◌+◌, ◌≡◌, refl, ◌∙◌, false, Bool, ◌&&◌, ◌||◌, Option, none, some, List, [], ◌∷◌, map,
  ◌==◌, if◌then◌else◌, has, select, reverse_onto, arith, ok, Returns, inl, inr, Bool-cases,
  Option-cases,
}
use dns_relay_server.Entry.{Text, text_eq, DnsEntry, entry_set}
use dns_relay_server.Hash.Table.{lookup, query_hash-lookup}
use dns_relay_server.Protocol.{type_a, type_aaaa}
use dns_relay_server.Host.{
  Hosts, HostResult, blocked, found, pointer_size, no_hosts, host_entry, host_load, host_query,
  scan_list, is_blocking, zero_address,
}
use dns_relay_server.Host.Table.{IsHosts, is_named_as, no_hosts-IsHosts, host_add-IsHosts}

-- A line of the host file: an address and a name.
pub record HostLine : Type 0 where
  pub address : Text
  pub name : Text

abbrev pub parts : HostLine → Option Text × Option Text
parts line = (some line.address, some line.name)

-- A line as an answer at the time `now`.
abbrev pub answer_of : ℕ → HostLine → DnsEntry
answer_of now line = record {
  domain_name = some line.name;
  ip = some line.address;
  type = if has 58 line.address then type_aaaa else type_a;
  addition = 0;
  timestamp = now + 128;
}

abbrev pub blocks : Text → HostLine → Bool
blocks name line = text_eq line.name name && text_eq line.address zero_address

abbrev any {ℓ} : {A : Type ℓ} → (A → Bool) → List A → Bool
any test [] = false
any test (x ∷ xs) = test x || any test xs

abbrev pub answers : Text → ℕ → HostLine → Bool
answers name type line =
    text_eq line.name name && ((if has 58 line.address then type_aaaa else type_a) == type)

-- What the lines, the last first, promise about a name and a type.
abbrev pub hosts_spec : ℕ → Text → ℕ → List HostLine → HostResult
hosts_spec now name type lines =
    if (type == type_a) && any (blocks name) lines
    then blocked
    else found (map (answer_of now) (select (answers name type) lines))

-- The entry that `hostInit` makes of a line at the time `then`.
abbrev stored : ℕ → HostLine → DnsEntry
stored since line = record (answer_of 0 line) { timestamp = since + 0 }

host_entry-stored :
    (since : ℕ) (line : HostLine)
    → host_entry since (some line.address) (some line.name) ≡ ok (stored since line)
unfolding host_entry entry_set
host_entry-stored since line = ground arith

load-IsHosts :
    (since : ℕ) (lines before : List HostLine) (m : Hosts)
    → IsHosts m (map (stored since) before)
    → Returns
        (host_load since (map parts lines) m)
        λ m'. IsHosts m' (map (stored since) (reverse_onto lines before))
unfolding host_load
load-IsHosts since [] before m v = (m, refl, v)
load-IsHosts since (line ∷ lines) before m v =
    let (m', run, v') =
      host_add-IsHosts (stored since line) line.name refl m (map (stored since) before) v in
    let (m'', run', v'') = load-IsHosts since lines (line ∷ before) m' v' in
    (m'', rw (host_entry-stored since line, run) run', v'')

scan-spec :
    (now since type : ℕ) (name : Text) (query : DnsEntry) (lines : List HostLine)
    → query.type ≡ type
    → scan_list now query (select (is_named_as name) (map (stored since) lines))
      ≡ ok (hosts_spec now name type lines)
unfolding scan_list is_blocking
scan-spec now since type name query [] e = ground arith
scan-spec now since type name query (line ∷ lines) e =
    let rest = scan-spec now since type name query lines e in
    elim (Bool-cases (text_eq line.name name)) [
      | inl same ↦ rw same (ground (arith, rest))
      | inr other ↦ rw other (ground (arith, rest))
    ]

host_query-scan_list :
    (now type : ℕ) (name : Text) (m : Hosts) (es : List DnsEntry)
    → IsHosts m es
    → host_query now (entry_set now (some name) none 0 type 0) m
      ≡ scan_list now (entry_set now (some name) none 0 type 0) (select (is_named_as name) es)
unfolding host_query scan_list entry_set
host_query-scan_list now type name m es v =
    let read = query_hash-lookup m.table name pointer_size in
    let listed = v.lists name in
    elim (Option-cases (lookup m.table name)) [
      | inl absent ↦ rw (← listed, read, absent)
      | inr ((h, s), present) ↦
          let size = (v.heads name h s present).0 in rw (← listed, read, present, size)
    ]

-- `hostInit` over lines that have both parts, and then `hostQuery` for a name and a type below 256:
-- there is no fault; if the type is A and a line of that name has the address 0.0.0.0, the name is
-- blocked; otherwise the results are the lines of that name and type, the last line first.
pub host_query-host_load :
    (since : ℕ) (lists : ℕ → List DnsEntry) (fresh : ℕ) (lines : List HostLine) (now type : ℕ)
    (name : Text)
    → type % 256 ≡ type
    → Returns (host_load since (map parts lines) (no_hosts lists fresh)) λ m.
      host_query now (entry_set now (some name) none 0 type 0) m
      ≡ ok (hosts_spec now name type (reverse_onto lines []))
unfolding entry_set
host_query-host_load since lists fresh lines now type name small =
    let (m, run, v) =
      load-IsHosts since lines [] (no_hosts lists fresh) (no_hosts-IsHosts lists fresh) in
    let query = entry_set now (some name) none 0 type 0 in
    let all = reverse_onto lines [] in
    (
      m,
      run,
      host_query-scan_list now type name m (map (stored since) all) v
          ∙ scan-spec now since type name query all small,
    )
