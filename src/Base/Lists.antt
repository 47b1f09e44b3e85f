-- ===== src/Base/Lists.antt =====
-- Lists measured by native numbers, Boolean membership, and arrays as functions.
use Prim.Native.Nat.{ℕ, zero, suc, ◌+◌}
use mathlib.Core.Bool.{Bool, false, ◌||◌}
use mathlib.Core.List.{List, [], ◌∷◌, ◌++◌, map}
use mathlib.Core.Logic.{inl, inr}
use mathlib.Core.Option.{Option, none, some}
use mathlib.Core.Path.{◌≡◌, refl}
use native.Mathlib.Omega.{arith}
use dns_relay_server.Base.Tests.{◌==◌, if◌then◌else◌, Bool-cases}

module _ {ℓ} {A : Type ℓ} where
  abbrev pub length : List A → ℕ
  length [] = 0
  length (x ∷ xs) = suc (length xs)

  abbrev pub get_elem? : List A → ℕ → Option A
  get_elem? [] i = none
  get_elem? (x ∷ xs) zero = some x
  get_elem? (x ∷ xs) (suc i) = get_elem? xs i

  -- The array `f` after `f[i] = v`.
  abbrev pub update : (ℕ → A) → ℕ → A → ℕ → A
  update f i v j = if i == j then v else f j

  pub length-append : (xs ys : List A) → length (xs ++ ys) ≡ length xs + length ys
  length-append [] ys = omega arith
  length-append (x ∷ xs) ys = omega (arith, length-append xs ys)

abbrev pub has : ℕ → List ℕ → Bool
has a [] = false
has a (x ∷ xs) = (x == a) || has a xs

abbrev pub Distinct : List ℕ → Type 0
Distinct [] = Unit
Distinct (x ∷ xs) = (has x xs ≡ false) × Distinct xs

pub has-append : (a : ℕ) (xs ys : List ℕ) → has a (xs ++ ys) ≡ (has a xs || has a ys)
has-append a [] ys = refl
has-append a (x ∷ xs) ys = ground (arith, has-append a xs ys)

-- The members that satisfy a test, and those that do not, in their order.
module _ {ℓ} {A : Type ℓ} where
  abbrev pub select : (A → Bool) → List A → List A
  select test [] = []
  select test (x ∷ xs) = if test x then x ∷ select test xs else select test xs

  abbrev pub reject : (A → Bool) → List A → List A
  reject test [] = []
  reject test (x ∷ xs) = if test x then reject test xs else x ∷ reject test xs

  -- `reverse xs ++ ys`.
  abbrev pub reverse_onto : List A → List A → List A
  reverse_onto [] ys = ys
  reverse_onto (x ∷ xs) ys = reverse_onto xs (x ∷ ys)

  -- Those that satisfy the test go in front, the last of them first.
  abbrev pub to_front : (A → Bool) → List A → List A
  to_front test xs = reverse_onto (select test xs) (reject test xs)

module _ {ℓ κ} {A : Type ℓ} {B : Type κ} (f : A → B) where
  map-reverse_onto :
      (xs ys : List A) → map f (reverse_onto xs ys) ≡ reverse_onto (map f xs) (map f ys)
  map-reverse_onto [] ys = refl
  map-reverse_onto (x ∷ xs) ys = map-reverse_onto xs (x ∷ ys)

  map-select :
      (test : B → Bool) (xs : List A) → map f (select (λ x. test (f x)) xs) ≡ select test (map f xs)
  map-select test [] = refl
  map-select test (x ∷ xs) = elim (Bool-cases (test (f x))) [
    | inl hit ↦ rw (hit, map-select test xs)
    | inr miss ↦ rw (miss, map-select test xs)
  ]

  map-reject :
      (test : B → Bool) (xs : List A) → map f (reject (λ x. test (f x)) xs) ≡ reject test (map f xs)
  map-reject test [] = refl
  map-reject test (x ∷ xs) = elim (Bool-cases (test (f x))) [
    | inl hit ↦ rw (hit, map-reject test xs)
    | inr miss ↦ rw (miss, map-reject test xs)
  ]

  pub map-to_front :
      (test : B → Bool) (xs : List A)
      → map f (to_front (λ x. test (f x)) xs) ≡ to_front test (map f xs)
  map-to_front test xs = rw (
    map-reverse_onto (select (λ x. test (f x)) xs) (reject (λ x. test (f x)) xs),
    map-select test xs,
    map-reject test xs,
  )

-- Every member has a property.
module _ {ℓ κ} {A : Type ℓ} where
  abbrev pub All : (A → Type κ) → List A → Type κ
  All P [] = Unit
  All P (x ∷ xs) = P x × All P xs

  pub All-map : (P Q : A → Type κ) (xs : List A) → ((x : A) → P x → Q x) → All P xs → All Q xs
  All-map P Q [] f all = tt
  All-map P Q (x ∷ xs) f all = (f x all.0, All-map P Q xs f all.1)

  -- A member taken out of the middle.
  pub All-parts :
      (P : A → Type κ) (before : List A) (x : A) (after : List A)
      → All P (before ++ x ∷ after)
      → P x × All P (before ++ after)
  All-parts P [] x after all = all
  All-parts P (y ∷ before) x after all =
      let (here, others) = All-parts P before x after all.1 in (here, (all.0, others))

pub length-parts {ℓ} :
    {A : Type ℓ} (before : List A) (x : A) (after : List A)
    → length (before ++ x ∷ after) ≡ length (before ++ after) + 1
length-parts [] x after = omega arith
length-parts (y ∷ before) x after = omega (arith, length-parts before x after)
