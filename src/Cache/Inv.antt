-- ===== src/Cache/Inv.antt =====
-- The well-formed states of the cache, and the sequence of entries that such a state stands for.
use dns_relay_server.Base.{
  ℕ, zero, suc, ◌+◌, ◌≤◌, ◌<◌, ◌≡◌, refl, Bool-cases, inl, inr, Bool, true, false, not, ◌==◌,
  if◌then◌else◌, List, [], ◌∷◌, map, arith, has, update, length, Option, none, some, ok, ◌&&◌, ltb,
}
use dns_relay_server.Entry.{DnsEntry}
use dns_relay_server.Ring.Chain.{IsRing}
use dns_relay_server.Cache.{Cache, head, node_of, slot_of, find_free}

abbrev pub is_some {ℓ} : {A : Type ℓ} → Option A → Bool
is_some none = false
is_some (some a) = true

-- Both strings are there.
abbrev pub is_named : DnsEntry → Bool
is_named e = is_some e.domain_name && is_some e.ip

abbrev pub index : ℕ → ℕ
index zero = 0
index (suc zero) = 0
index (suc (suc i)) = i

-- The number of flags that are set among the first `n`.
abbrev pub used : ℕ → (ℕ → ℕ) → ℕ
used zero flags = 0
used (suc n) flags = used n flags + (if flags n == 0 then 0 else 1)

-- `xs` are the nodes of the used slots, the most recent first.
pub record IsCache (len : ℕ) (c : Cache) (xs : List ℕ) : Type 0 where
  pub ring : IsRing c.links head xs
  pub in_array : (p : ℕ) → has p xs ≡ true → (2 ≤ p) × (p < len + 2)
  pub flags : (i : ℕ) → i < len → (c.set i == 0) ≡ not (has (node_of i) xs)
  pub counted : c.length ≡ length xs
  pub in_use : c.length ≡ used len c.set
  pub named : (p : ℕ) → has p xs ≡ true → is_named (c.list (index p)) ≡ true

abbrev pub view : Cache → List ℕ → List DnsEntry
view c xs = map (λ p. c.list (index p)) xs

-- The cache is well formed and holds the entries `es`, the most recent first.
pub record Holds (len : ℕ) (c : Cache) (es : List DnsEntry) : Type 0 where
  pub nodes : List ℕ
  pub valid : IsCache len c nodes
  pub entries : view c nodes ≡ es

pub used-update :
    (n i v : ℕ) (flags : ℕ → ℕ)
    → used n (update flags i v) + (if ltb i n then (if flags i == 0 then 0 else 1) else 0)
      ≡ used n flags + (if ltb i n then (if v == 0 then 0 else 1) else 0)
used-update zero i v flags = ground arith
used-update (suc n) i v flags = ground (arith, used-update n i v flags)

pub used-clear : (n : ℕ) → used n (λ _. 0) ≡ 0
used-clear zero = refl
used-clear (suc n) = rw (used-clear n)

pub used-le : (n : ℕ) (flags : ℕ → ℕ) → used n flags ≤ n
used-le zero flags = omega arith
used-le (suc n) flags = ground (arith, used-le n flags)

used-full : (n : ℕ) (flags : ℕ → ℕ) → ((j : ℕ) → j < n → (flags j == 0) ≡ false) → used n flags ≡ n
used-full zero flags h = refl
used-full (suc n) flags h =
    rw (h n (omega arith), used-full n flags (λ j k. h j (omega arith))) (omega arith)

find_free-flags :
    (r i : ℕ) (flags : ℕ → ℕ) (n : ℕ)
    → i + r ≡ n
    → used n flags < n
    → ((j : ℕ) → j < i → (flags j == 0) ≡ false)
    → (find_free r i flags < n) × ((flags (find_free r i flags) == 0) ≡ true)
unfolding find_free
find_free-flags zero i flags n e u before =
    let full = used-full n flags (λ j k. before j (omega arith)) in absurd (omega arith)
find_free-flags (suc r) i flags n e u before = elim (Bool-cases (flags i == 0)) [
  | inl free ↦ rw (free, find_free) (omega arith, free)
  | inr busy ↦
      rw (busy, find_free)
        (find_free-flags r (suc i) flags n (omega arith) u (λ j k. ground (arith, before j)))
]

-- While a flag is clear, the search finds a slot whose flag is clear.
pub find_free-clear :
    (n : ℕ) (flags : ℕ → ℕ)
    → used n flags < n
    → (find_free n 0 flags < n) × ((flags (find_free n 0 flags) == 0) ≡ true)
find_free-clear n flags u =
    find_free-flags n 0 flags n (omega arith) u (λ j k. absurd (omega arith))

pub slot_of-index : (len p : ℕ) → 2 ≤ p → p < len + 2 → slot_of len p ≡ ok (index p)
slot_of-index len zero h k = absurd (omega arith)
slot_of-index len (suc zero) h k = absurd (omega arith)
slot_of-index len (suc (suc i)) h k = ground arith

pub node_of-index : (p : ℕ) → 2 ≤ p → node_of (index p) ≡ p
node_of-index zero h = absurd (omega arith)
node_of-index (suc zero) h = absurd (omega arith)
node_of-index (suc (suc i)) h = refl

-- A write to a slot that is not in the list is not seen.
pub view-update :
    (c : Cache) (i : ℕ) (e : DnsEntry) (xs : List ℕ)
    → ((p : ℕ) → has p xs ≡ true → 2 ≤ p)
    → has (node_of i) xs ≡ false
    → map (λ p. update c.list i e (index p)) xs ≡ view c xs
view-update c i e [] low out = refl
view-update c i e (p ∷ xs) low out =
    let rest = view-update c i e xs (λ q h. low q (ground arith)) (ground arith) in
    let here = node_of-index p (low p (ground arith)) in ground (arith, rest)
