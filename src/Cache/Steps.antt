-- ===== src/Cache/Steps.antt =====
-- The cache with the rotations that queries have started and that have not run yet. The lock makes
-- each call one step; a rotation runs at any later time, and rotations in any order, or its thread
-- could not be created and it is dropped. A scan is a step
-- only while no rotation waits.
use dns_relay_server.Base.{ℕ, ◌≡◌, true, List, [], ◌∷◌, ◌++◌, Bool, ok, some}
use dns_relay_server.Entry.{DnsEntry, Text}
use dns_relay_server.Cache.{Cache, cache_init, cache_insert, cache_query, cache_rotate, cache_scan}
use dns_relay_server.Cache.Inv.{is_named}
use dns_relay_server.Ring.{Links}

-- A cache, and the nodes that each waiting rotation has found.
pub record State : Type 0 where
  pub cache : Cache
  pub waiting : List (List ℕ)

pub data Step (len : ℕ) (s : State) : State → Type 0 where
  inserted :
      (e : DnsEntry) (c : Cache)
      → is_named e ≡ true
      → cache_insert len e s.cache ≡ ok c
      → Step len s (record s { cache = c })
  queried :
      (now : ℕ) (name : Text) (query : DnsEntry) (results : List DnsEntry) (temp : List ℕ)
      → query.domain_name ≡ some name
      → cache_query len now query s.cache ≡ ok (results, temp)
      → Step len s (record s { waiting = temp ∷ s.waiting })
  dropped :
      (before : List (List ℕ)) (temp : List ℕ) (after : List (List ℕ))
      → s.waiting ≡ before ++ temp ∷ after
      → Step len s (record s { waiting = before ++ after })
  rotated :
      (before : List (List ℕ)) (temp : List ℕ) (after : List (List ℕ)) (c : Cache)
      → s.waiting ≡ before ++ temp ∷ after
      → cache_rotate temp s.cache ≡ ok c
      → Step len s (record { cache = c; waiting = before ++ after })
  scanned :
      (now : ℕ) (c : Cache) (flag : Bool)
      → s.waiting ≡ []
      → cache_scan len now s.cache ≡ ok (c, flag)
      → Step len s (record s { cache = c })

-- What a new cache can become.
pub data Reach (len : ℕ) : State → Type 0 where
  begun :
      (list : ℕ → DnsEntry) (links : Links) (c : Cache)
      → cache_init list links ≡ ok c
      → Reach len (record { cache = c; waiting = [] })
  stepped : (s t : State) → Reach len s → Step len s t → Reach len t
