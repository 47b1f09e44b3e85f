-- ===== src/Ring/Tests.antt =====
-- The functions of list.h on a small list.
use dns_relay_server.Base.{◌+◌, ◌≡◌, refl, [], ◌∷◌, arith, ok, fault, Returns, ◌>>=◌, update}
use dns_relay_server.Ring.{
  Links, init_list_head, list_add, add_head, add_tail, list_del, unlink, del, replace, move_head,
  move_tail, is_last, is_empty, is_singular, rotate_node_head, rotate_node_tail, walk, for_each,
}
use dns_relay_server.Ring.Chain.{IsRing}
use dns_relay_server.Ring.Insert.{init_list_head-IsRing}
use dns_relay_server.Ring.Walk.{for_each-IsRing}

abbrev garbage : Links
garbage = record { next = λ p. p + 7; prev = λ p. 99 }

program : Unit {0}
unfolding init_list_head list_add add_head add_tail list_del unlink del replace move_head move_tail
    is_last is_empty is_singular rotate_node_head rotate_node_tail walk for_each
program = tt

-- 7 in front, 5 and 6 behind it, then 5 is replaced by 8, and 6 moves to the front.
changed_list :
    (do
      l₀ ← init_list_head 1 garbage
      l₁ ← add_head 7 1 l₀
      l₂ ← add_tail 5 1 l₁
      l₃ ← add_tail 6 1 l₂
      l₄ ← replace 5 8 l₃
      l₅ ← move_head 6 1 l₄
      for_each 9 1 l₅)
    ≡ ok (6 ∷ 7 ∷ 8 ∷ [])
unfolding program
changed_list = refl

-- A node that was deleted cannot be deleted again.
deleted_twice :
    (do l₀ ← init_list_head 1 garbage; l₁ ← add_head 7 1 l₀; l₂ ← del 7 l₁; del 7 l₂) ≡ fault
unfolding program
deleted_twice = refl

-- The list 3, 2 at the head 1.
abbrev two_links : Links
two_links = record {
  next = update (update (update (λ _. 0) 1 3) 3 2) 2 1;
  prev = update (update (update (λ _. 0) 1 2) 2 3) 3 1;
}

two-IsRing : IsRing two_links 1 (3 ∷ 2 ∷ [])
two-IsRing = record {
  chain = (refl, refl, (refl, refl, (refl, refl)));
  apart = refl;
  distinct = ground arith;
  nonnull = refl;
  head_nonnull = omega arith;
}

init_list_head-IsRing_example : Returns (init_list_head 1 garbage) λ l. IsRing l 1 []
init_list_head-IsRing_example = init_list_head-IsRing garbage 1 (omega arith)

for_each-IsRing_example : for_each 3 1 two_links ≡ ok (3 ∷ 2 ∷ [])
for_each-IsRing_example = for_each-IsRing 3 two_links 1 (3 ∷ 2 ∷ []) two-IsRing (omega arith)
