-- ===== src/Memory/Sample.antt =====
-- Buffers with given bytes, for the tests.
use dns_relay_server.Base.{
  ℕ, zero, suc, ◌+◌, ◌<◌, ◌≡◌, true, ltb, Bool, ◌&&◌, Option, none, some, List, [], ◌∷◌, get_elem?,
  arith,
}
use dns_relay_server.Memory.{Memory}
use dns_relay_server.Memory.Stored.{Stored, Stored-elements}

abbrev pub byte_or_zero : Option ℕ → ℕ
byte_or_zero none = 0
byte_or_zero (some b) = b

-- The bytes, and 0 behind them.
abbrev pub sample : (size : ℕ) → List ℕ → Memory
sample size bytes = record { size = size; at = λ i. byte_or_zero (get_elem? bytes i) }

abbrev pub all_bytes : List ℕ → Bool
all_bytes [] = true
all_bytes (b ∷ bytes) = ltb b 256 && all_bytes bytes

pub sample-lt :
    (bytes : List ℕ) → all_bytes bytes ≡ true → (i : ℕ) → byte_or_zero (get_elem? bytes i) < 256
sample-lt [] all i = omega arith
sample-lt (b ∷ bytes) all zero = ground (arith, all)
sample-lt (b ∷ bytes) all (suc i) = sample-lt bytes (ground (arith, all)) i

-- The bytes stand at the beginning of their sample.
pub sample-Stored : (size : ℕ) (bytes : List ℕ) → Stored (sample size bytes) 0 bytes
sample-Stored size bytes =
    Stored-elements bytes (sample size bytes) 0
      (λ i b e. let here : 0 + i ≡ i = omega arith in rw (here, e))
