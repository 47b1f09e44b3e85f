-- ===== src/Memory.antt =====
-- A buffer of bytes: its size and its contents. To read or write outside it is a fault.
pub mod Stored
pub mod Sample
use dns_relay_server.Base.{
  ℕ, zero, suc, ◌+◌, ◌*◌, ◌/◌, ◌%◌, ltb, if◌then◌else◌, update, List, [], ◌∷◌, Run, ok, fault,
  ◌>>=◌,
}

pub record Memory : Type 0 where
  pub size : ℕ
  pub at : ℕ → ℕ

abbrev pub load : Memory → ℕ → Run ℕ
load m i = if ltb i m.size then ok (m.at i) else fault

abbrev pub store : Memory → ℕ → ℕ → Run Memory
store m i b = if ltb i m.size then ok (record m { at = update m.at i b }) else fault

-- `for(i = 0; i < n; i++) dest[to + i] = src[from + i];`
unfoldable pub copy_bytes : (n : ℕ) → Memory → (from : ℕ) → Memory → (to : ℕ) → Run Memory
copy_bytes zero src from dest to = ok dest
copy_bytes (suc n) src from dest to = do
  b ← load src from
  dest' ← store dest to b
  copy_bytes n src (suc from) dest' (suc to)

-- `ntohs(*(uint16_t*)p)`, and `*(uint16_t*)p = htons(n)`.
abbrev pub load16 : Memory → ℕ → Run ℕ
load16 m i = do high ← load m i; low ← load m (i + 1); ok (high * 256 + low)

abbrev pub store16 : Memory → ℕ → ℕ → Run Memory
store16 m i n = do m' ← store m i (n / 256 % 256); store m' (i + 1) (n % 256)

-- The `n` bytes from a place on, and a write of bytes.
unfoldable pub load_bytes : (n : ℕ) → Memory → (from : ℕ) → Run (List ℕ)
load_bytes zero m from = ok []
load_bytes (suc n) m from = do b ← load m from; bytes ← load_bytes n m (suc from); ok (b ∷ bytes)

unfoldable pub store_bytes : List ℕ → Memory → (to : ℕ) → Run Memory
store_bytes [] m to = ok m
store_bytes (b ∷ bytes) m to = do m' ← store m to b; store_bytes bytes m' (suc to)
