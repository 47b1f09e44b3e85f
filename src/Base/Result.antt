-- ===== src/Base/Result.antt =====
-- What a call of a C function does: it returns a value, it commits a fault (a dereferenced null
-- pointer, an access outside an array), or a loop uses up the fuel of the model.
use mathlib.Core.Path.{◌≡◌, refl}

pub data Run {ℓ} (A : Type ℓ) : Type ℓ where
  ok : A → Run A
  fault : Run A
  out_of_fuel : Run A

infixl 5 ◌>>=◌
abbrev pub ◌>>=◌ {i j} : {A : Type i} → {B : Type j} → (run : Run A) → (next : A → Run B) → Run B
fault >>= next = fault
out_of_fuel >>= next = out_of_fuel
ok value >>= next = next value

-- A call that returns, with a postcondition of what it returns.
abbrev pub Returns {i j} : {A : Type i} → (run : Run A) → (post : A → Type j) → Type (i ⊔ j)
Returns {A} run post = (value : A) × (run ≡ ok value) × post value

-- A chain that returns: its first call does, and then the rest.
pub bind-ok {i j} :
    {A : Type i} {B : Type j} (run : Run A) (next : A → Run B) (b : B)
    → (run >>= next) ≡ ok b
    → (a : A) × (run ≡ ok a) × (next a ≡ ok b)
bind-ok (ok a) next b e = (a, refl, e)
bind-ok fault next b e = cc
bind-ok out_of_fuel next b e = cc

pub ok-same {i} : {A : Type i} (a b : A) → ok a ≡ ok b → a ≡ b
ok-same a b e = cc
