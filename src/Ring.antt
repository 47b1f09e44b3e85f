-- ===== src/Ring.antt =====
-- The circular doubly linked list of include/utils/list.h, over an explicit memory. A node is its
-- address, 0 is NULL, and the memory holds a `next` and a `prev` pointer at each address. To read
-- or write a field through NULL is a fault. The functions follow the C line by line.
pub mod Chain
pub mod Insert
pub mod Delete
pub mod Replace
pub mod Walk
mod Tests
use dns_relay_server.Base.{
  ℕ, zero, suc, Bool, true, false, List, [], ◌∷◌, not, ◌&&◌, ◌==◌, if◌then◌else◌, update, Run, ok,
  fault, out_of_fuel, ◌>>=◌,
}

abbrev pub null : ℕ
null = 0

pub record Links : Type 0 where
  pub next : ℕ → ℕ
  pub prev : ℕ → ℕ

-- Reads and writes of a field, `p->next`, `p->prev`, `p->next = q` and `p->prev = q`.
abbrev pub get_next : ℕ → Links → Run ℕ
get_next p l = if p == null then fault else ok (l.next p)

abbrev pub get_prev : ℕ → Links → Run ℕ
get_prev p l = if p == null then fault else ok (l.prev p)

abbrev pub set_next : ℕ → ℕ → Links → Run Links
set_next p q l = if p == null then fault else ok (record l { next = update l.next p q })

abbrev pub set_prev : ℕ → ℕ → Links → Run Links
set_prev p q l = if p == null then fault else ok (record l { prev = update l.prev p q })

unfoldable pub init_list_head : ℕ → Links → Run Links
init_list_head list l = do l₁ ← set_next list list l; set_prev list list l₁

unfoldable pub list_add : (new prev next : ℕ) → Links → Run Links
list_add new prev next l = do
  l₁ ← set_prev next new l
  l₂ ← set_next new next l₁
  l₃ ← set_prev new prev l₂
  set_next prev new l₃

unfoldable pub add_head : (new head : ℕ) → Links → Run Links
add_head new head l = do first ← get_next head l; list_add new head first l

unfoldable pub add_tail : (new head : ℕ) → Links → Run Links
add_tail new head l = do last ← get_prev head l; list_add new last head l

unfoldable pub list_del : (prev next : ℕ) → Links → Run Links
list_del prev next l = do l₁ ← set_prev next prev l; set_next prev next l₁

-- `_mylist_del(entry->prev, entry->next)`.
unfoldable pub unlink : ℕ → Links → Run Links
unlink entry l = do before ← get_prev entry l; after ← get_next entry l; list_del before after l

unfoldable pub del : ℕ → Links → Run Links
del entry l = do l₁ ← unlink entry l; l₂ ← set_next entry null l₁; set_prev entry null l₂

unfoldable pub del_init : ℕ → Links → Run Links
del_init entry l = do l₁ ← unlink entry l; init_list_head entry l₁

unfoldable pub replace : (old new : ℕ) → Links → Run Links
replace old new l = do
  after ← get_next old l
  l₁ ← set_next new after l
  after' ← get_next new l₁
  l₂ ← set_prev after' new l₁
  before ← get_prev old l₂
  l₃ ← set_prev new before l₂
  before' ← get_prev new l₃
  set_next before' new l₃

unfoldable pub replace_init : (old new : ℕ) → Links → Run Links
replace_init old new l = do l₁ ← replace old new l; init_list_head old l₁

unfoldable pub move_head : (list head : ℕ) → Links → Run Links
move_head list head l = do l₁ ← unlink list l; add_head list head l₁

unfoldable pub move_tail : (list head : ℕ) → Links → Run Links
move_tail list head l = do l₁ ← unlink list l; add_tail list head l₁

unfoldable pub is_last : (entry head : ℕ) → Links → Run Bool
is_last entry head l = do after ← get_next entry l; ok (after == head)

unfoldable pub is_empty : ℕ → Links → Run Bool
is_empty head l = do
  first ← get_next head l
  last ← get_prev head l
  ok ((first == head) && (first == last))

unfoldable pub is_singular : ℕ → Links → Run Bool
is_singular head l = do
  empty ← is_empty head l
  first ← get_next head l
  last ← get_prev head l
  ok (not empty && (first == last))

unfoldable pub rotate_node_head : (node head : ℕ) → Links → Run Links
rotate_node_head node head l = do
  empty ← is_empty head l
  if not empty then move_head node head l else ok l

unfoldable pub rotate_node_tail : (node head : ℕ) → Links → Run Links
rotate_node_tail node head l = do
  empty ← is_empty head l
  if not empty then move_tail node head l else ok l

-- The nodes that `mylist_for_each(pos, head)` visits, from `pos` on.
unfoldable pub walk : ℕ → (pos head : ℕ) → Links → Run (List ℕ)
walk zero pos head l = out_of_fuel
walk (suc fuel) pos head l =
    let rest = (do after ← get_next pos l; nodes ← walk fuel after head l; ok (pos ∷ nodes)) in
    if pos == head then ok [] else rest

unfoldable pub for_each : ℕ → ℕ → Links → Run (List ℕ)
unfolding walk
for_each fuel head l = do first ← get_next head l; walk fuel first head l
