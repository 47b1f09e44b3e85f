-- ===== src/Host/Tests.antt =====
-- A host file of three lines.
use dns_relay_server.Base.{ℕ, ◌≡◌, refl, none, some, List, [], ◌∷◌, map, reverse_onto, ok, Returns}
use dns_relay_server.Entry.{Text, text_eq, entry_set}
use dns_relay_server.Host.{blocked, found, zero_address, no_hosts, host_load, host_query}
use dns_relay_server.Host.Load.{HostLine, parts, answer_of, hosts_spec, host_query-host_load}

abbrev line : Text → ℕ → HostLine
line address name = record { address = address; name = name ∷ [] }

-- Two lines for the name "a", and a blocked name "b".
abbrev lines : List HostLine
lines = line (49 ∷ []) 97 ∷ line zero_address 98 ∷ line (50 ∷ []) 97 ∷ []

-- The last line for "a" comes first.
two_answers :
    hosts_spec 7 (97 ∷ []) 1 (reverse_onto lines [])
    ≡ found (answer_of 7 (line (50 ∷ []) 97) ∷ answer_of 7 (line (49 ∷ []) 97) ∷ [])
unfolding text_eq
two_answers = refl

blocked_name : hosts_spec 7 (98 ∷ []) 1 (reverse_onto lines []) ≡ blocked
unfolding text_eq
blocked_name = refl

host_query-host_load_example :
    Returns
      (host_load 5 (map parts lines) (no_hosts (λ _. []) 16))
      λ m. host_query 7 (entry_set 7 (some (98 ∷ [])) none 0 1 0) m ≡ ok blocked
unfolding text_eq
host_query-host_load_example = host_query-host_load 5 (λ _. []) 16 lines 7 1 (98 ∷ []) refl
