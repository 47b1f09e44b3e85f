-- ===== src/Inet/Names.antt =====
-- A name as its labels: the bytes on the wire, and the dotted string.
use mathlib.Core.List.{append_assoc}
use dns_relay_server.Base.{
  ◌||◌, true, ℕ, ◌+◌, ◌≤◌, ◌<◌, ◌≡◌, refl, false, ◌==◌, List, [], ◌∷◌, ◌++◌, length, length-append,
  has, has-append, arith,
}
use dns_relay_server.Entry.{Text}
use dns_relay_server.Inet.{dot}

-- Each label behind its length, and a 0 at the end.
unfoldable pub wire : List Text → Text
wire [] = 0 ∷ []
wire (l ∷ ls) = length l ∷ (l ++ wire ls)

-- The labels with dots between them.
unfoldable pub dotted : List Text → Text
dotted [] = []
dotted (l ∷ []) = l
dotted (l ∷ m ∷ ls) = l ++ dot ∷ dotted (m ∷ ls)

-- A label has 1 to 63 bytes, and neither a dot nor a 0 among them.
pub record IsLabel (l : Text) : Type 0 where
  pub nonempty : 0 < length l
  pub short : length l < 64
  pub no_dot : has dot l ≡ false
  pub no_zero : has 0 l ≡ false

abbrev pub AllLabels : List Text → Type 0
AllLabels [] = Unit
AllLabels (l ∷ ls) = IsLabel l × AllLabels ls

pub length-dotted :
    (l : Text) (ls : List Text) → length (wire (l ∷ ls)) ≡ length (dotted (l ∷ ls)) + 2
unfolding wire dotted
length-dotted l [] = omega (arith, length-append {0} l (0 ∷ []))
length-dotted l (m ∷ ls) = omega (
  arith,
  length-append {0} l (wire (m ∷ ls)),
  length-append {0} l (dot ∷ dotted (m ∷ ls)),
  length-dotted m ls,
)

-- Labels, each with the byte that ends it, and a 0 at the end.
unfoldable pub joined : List (Text × ℕ) → Text
joined [] = 0 ∷ []
joined ((l, e) ∷ r) = l ++ e ∷ joined r

abbrev pub labels : List (Text × ℕ) → List Text
labels [] = []
labels ((l, e) ∷ r) = l ∷ labels r

-- Each label is ended by a dot or by a 0.
abbrev pub AllEnded : List (Text × ℕ) → Type 0
AllEnded [] = Unit
AllEnded ((l, e) ∷ r) = IsLabel l × (((e == dot) || (e == 0)) ≡ true) × AllEnded r

-- The labels of a dotted string: dots between them, and the final 0 behind the last.
abbrev pub ended : Text → List Text → List (Text × ℕ)
ended l [] = (l, 0) ∷ []
ended l (m ∷ ls) = (l, dot) ∷ ended m ls

pub joined-ended : (l : Text) (ls : List Text) → joined (ended l ls) ≡ dotted (l ∷ ls) ++ 0 ∷ 0 ∷ []
unfolding joined dotted
joined-ended l [] = refl
joined-ended l (m ∷ ls) = rw (joined-ended m ls, append_assoc)

pub labels-ended : (l : Text) (ls : List Text) → labels (ended l ls) ≡ l ∷ ls
labels-ended l [] = refl
labels-ended l (m ∷ ls) = rw (labels-ended m ls)

pub ended-AllEnded : (l : Text) (ls : List Text) → AllLabels (l ∷ ls) → AllEnded (ended l ls)
ended-AllEnded l [] all = (all.0, refl, tt)
ended-AllEnded l (m ∷ ls) all = (all.0, refl, ended-AllEnded m ls all.1)

pub dotted-no_zero :
    (l : Text) (ls : List Text) → AllLabels (l ∷ ls) → has 0 (dotted (l ∷ ls)) ≡ false
unfolding dotted
dotted-no_zero l [] all = ground (arith, all.0)
dotted-no_zero l (m ∷ ls) all =
    ground (arith, has-append 0 l (dot ∷ dotted (m ∷ ls)), all.0, dotted-no_zero m ls all.1)

-- A dotted string is longer than the number of its dots.
pub length-le-dotted :
    (l : Text) (ls : List Text) → AllLabels (l ∷ ls) → length ls + 1 ≤ length (dotted (l ∷ ls))
unfolding dotted
length-le-dotted l [] all = omega (arith, all.0)
length-le-dotted l (m ∷ ls) all =
    omega (arith, length-append {0} l (dot ∷ dotted (m ∷ ls)), length-le-dotted m ls all.1)
