-- ===== src/Inet/Body.antt =====
-- The labels of a name in its wire form, without the final 0: what stands in front of a pointer.
use mathlib.Core.List.{append_assoc}
use dns_relay_server.Base.{
  ◌+◌, ◌<◌, ◌≡◌, refl, ap, ◌∙◌, false, List, [], ◌∷◌, ◌++◌, length, length-append, has, has-append,
  arith,
}
use dns_relay_server.Entry.{Text}
use dns_relay_server.Inet.{dot}
use dns_relay_server.Inet.Names.{AllLabels, wire, dotted, length-dotted, dotted-no_zero}

-- The wire form without its final 0.
abbrev pub body : List Text → Text
body [] = []
body (l ∷ ls) = length l ∷ (l ++ body ls)

pub wire-body : (ls : List Text) → wire ls ≡ body ls ++ 0 ∷ []
unfolding wire
wire-body [] = refl
wire-body (l ∷ ls) = rw (wire-body ls, append_assoc l (body ls) (0 ∷ []))

pub body-no_zero : (ls : List Text) → AllLabels ls → has 0 (body ls) ≡ false
body-no_zero [] all = refl
body-no_zero (l ∷ ls) all =
    ground (arith, has-append 0 l (body ls), all.0.no_zero, all.0.nonempty, body-no_zero ls all.1)

pub length-others : (ls : List Text) → AllLabels ls → length ls < length (wire ls)
unfolding wire
length-others [] all = omega arith
length-others (l ∷ ls) all =
    omega (arith, length-append {0} l (wire ls), length-others ls all.1, all.0.nonempty)

pub length-wire : (ls : List Text) → length (wire ls) ≡ length (body ls) + 1
length-wire ls = ap length (wire-body ls) ∙ length-append (body ls) (0 ∷ [])

pub wire-append : (front ls : List Text) → wire (front ++ ls) ≡ body front ++ wire ls
unfolding wire
wire-append [] ls = refl
wire-append (l ∷ front) ls = rw (wire-append front ls, append_assoc l (body front) (wire ls))

pub AllLabels-append :
    (front ls : List Text) → AllLabels front → AllLabels ls → AllLabels (front ++ ls)
AllLabels-append [] ls h k = k
AllLabels-append (l ∷ front) ls h k = (h.0, AllLabels-append front ls h.1 k)

pub nonempty-append :
    (front : List Text) (m : Text) (ms : List Text)
    → (l : Text) × (ls : List Text) × (front ++ m ∷ ms ≡ l ∷ ls)
nonempty-append [] m ms = (m, ms, refl)
nonempty-append (l ∷ front) m ms = (l, front ++ m ∷ ms, refl)

pub length-dotted_append :
    (front : List Text) (m : Text) (ms : List Text)
    → length (wire (front ++ m ∷ ms)) ≡ length (dotted (front ++ m ∷ ms)) + 2
length-dotted_append [] m ms = length-dotted m ms
length-dotted_append (l ∷ front) m ms = length-dotted l (front ++ m ∷ ms)

pub dotted_append-no_zero :
    (front : List Text) (m : Text) (ms : List Text)
    → AllLabels (front ++ m ∷ ms)
    → has 0 (dotted (front ++ m ∷ ms)) ≡ false
dotted_append-no_zero [] m ms all = dotted-no_zero m ms all
dotted_append-no_zero (l ∷ front) m ms all = dotted-no_zero l (front ++ m ∷ ms) all

pub AllLabels-back : (front ls : List Text) → AllLabels (front ++ ls) → AllLabels ls
AllLabels-back [] ls all = all
AllLabels-back (l ∷ front) ls all = AllLabels-back front ls all.1

-- The dotted string of some labels in front of others.
abbrev pub lead : List Text → Text
lead [] = []
lead (l ∷ ls) = l ++ dot ∷ lead ls

pub length-lead : (ls : List Text) → length (lead ls) ≡ length (body ls)
length-lead [] = refl
length-lead (l ∷ ls) =
    omega
      (arith, length-append {0} l (dot ∷ lead ls), length-append {0} l (body ls), length-lead ls)

pub dotted-append :
    (front : List Text) (m : Text) (ms : List Text)
    → dotted (front ++ m ∷ ms) ≡ lead front ++ dotted (m ∷ ms)
unfolding dotted
dotted-append [] m ms = refl
dotted-append (l ∷ []) m ms = rw (append_assoc l (dot ∷ []) (dotted (m ∷ ms)))
dotted-append (l ∷ k ∷ front) m ms =
    rw (dotted-append (k ∷ front) m ms, append_assoc l (dot ∷ lead (k ∷ front)) (dotted (m ∷ ms)))

pub AllLabels-front : (front ls : List Text) → AllLabels (front ++ ls) → AllLabels front
AllLabels-front [] ls all = tt
AllLabels-front (l ∷ front) ls all = (all.0, AllLabels-front front ls all.1)
