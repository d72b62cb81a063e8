-- ===== src/Rbtree.antt =====
-- The red-black trees of lib/krbfunc.c, as a store of nodes that point to each other. Number 0 is the
-- node `nil` of the tree, whose fields can be written like those of any other.
pub mod Delete
pub mod Shape
pub mod Rotate
pub mod Turn
pub mod Search
pub mod Hang
pub mod Insert
mod Tests
use wei_os.Common.{zero, some, ltb, ◌&&◌, suc, not, none, ◌==◌, Option, if◌then◌else◌, ℕ, refl}

pub record Rbtree : Type 0 where
  pub left : ℕ → ℕ
  pub right : ℕ → ℕ
  pub parent : ℕ → ℕ
  pub key : ℕ → ℕ
  pub color : ℕ → ℕ
  pub root : ℕ

abbrev pub nil : ℕ
nil = 0

abbrev pub red : ℕ
red = 0

abbrev pub black : ℕ
black = 1

abbrev pub update : (ℕ → ℕ) → ℕ → ℕ → ℕ → ℕ
update f i a j = if i == j then a else f j

abbrev pub set_color : ℕ → ℕ → Rbtree → Rbtree
set_color i c t = record t { color = update t.color i c }

abbrev pub rbnode_init : ℕ → ℕ → ℕ → Rbtree → Rbtree
rbnode_init n key color t = record t {
  key = update t.key n key;
  left = update t.left n nil;
  right = update t.right n nil;
  parent = update t.parent n nil;
  color = update t.color n color;
}

abbrev pub rbtree_init : Rbtree → Rbtree
rbtree_init t = rbnode_init nil 0 black (record t { root = nil })

unfoldable pub rbtree_minimum : ℕ → ℕ → Rbtree → Option ℕ
rbtree_minimum zero n t = none
rbtree_minimum (suc k) n t =
    let rest = rbtree_minimum k (t.left n) t in if t.left n == nil then some n else rest

unfoldable pub search_from : ℕ → ℕ → ℕ → Rbtree → Option ℕ
search_from zero n key t = none
search_from (suc k) n key t =
    let below = search_from k (t.left n) key t in
    let above = search_from k (t.right n) key t in
    if n == nil
    then some nil
    else if ltb key (t.key n)
    then below
    else if ltb (t.key n) key
    then above
    else some n

abbrev pub rbtree_search : ℕ → ℕ → Rbtree → Option ℕ
rbtree_search k key t = search_from k t.root key t

-- The climb of the successor search, to the first parent that is reached from its left.
unfoldable pub climb : ℕ → ℕ → Rbtree → Option ℕ
climb zero n t = none
climb (suc k) n t =
    let rest = climb k (t.parent n) t in
    if not (t.parent n == nil) && n == t.right (t.parent n) then rest else some (t.parent n)

unfoldable pub rbnode_succeeder : ℕ → ℕ → Rbtree → Option ℕ
unfolding climb
rbnode_succeeder k n t =
    if not (n == nil) && not (t.right n == nil) then some (t.right n) else climb k n t

-- What pointed to `n` from above points to `m`.
abbrev pub replace_child : ℕ → ℕ → Rbtree → Rbtree
replace_child n m t =
    let p = t.parent n in
    record t {
      root = if p == nil then m else t.root;
      left = if not (p == nil) && n == t.left p then update t.left p m else t.left;
      right = if not (p == nil) && not (n == t.left p) then update t.right p m else t.right;
    }

abbrev pub set_parent : ℕ → ℕ → Rbtree → Rbtree
set_parent i p t = record t { parent = update t.parent i p }

abbrev pub set_child_parent : ℕ → ℕ → Rbtree → Rbtree
set_child_parent i p t = record t { parent = if i == nil then t.parent else update t.parent i p }

unfoldable pub left_rotate : ℕ → Rbtree → Rbtree
left_rotate n t =
    let m = t.right n in
    let t1 = set_child_parent (t.left m) n (record t { right = update t.right n (t.left m) }) in
    let t2 = replace_child n m (set_parent m (t1.parent n) t1) in
    set_parent n m (record t2 { left = update t2.left m n })

unfoldable pub right_rotate : ℕ → Rbtree → Rbtree
right_rotate n t =
    let m = t.left n in
    let t1 = set_child_parent (t.right m) n (record t { left = update t.left n (t.right m) }) in
    let t2 = replace_child n m (set_parent m (t1.parent n) t1) in
    set_parent n m (record t2 { right = update t2.right m n })

unfoldable pub rbtree_transplant : ℕ → ℕ → Rbtree → Rbtree
rbtree_transplant src dst t = set_parent dst (t.parent src) (replace_child src dst t)

-- The last lines of a round of the insertion's repair: the parent and the grandparent of `n` change
-- their colours, and the latter goes down.
abbrev turn_colors : ℕ → Rbtree → Rbtree
turn_colors n t = set_color (t.parent (t.parent n)) red (set_color (t.parent n) black t)

-- The uncle is red: the colours are pushed down from the grandparent.
abbrev push_colors : ℕ → ℕ → Rbtree → Rbtree
push_colors n uncle t =
    set_color (t.parent (t.parent n)) red (set_color uncle black (set_color (t.parent n) black t))

-- The two halves of a round with a black uncle.
unfoldable pub finish_left : ℕ → Rbtree → ℕ × Rbtree
unfolding left_rotate right_rotate
finish_left n t =
    let (n', t') : ℕ × Rbtree =
      if n == t.right (t.parent n) then (t.parent n, left_rotate (t.parent n) t) else (n, t) in
    (n', right_rotate (t'.parent (t'.parent n')) (turn_colors n' t'))

unfoldable pub finish_right : ℕ → Rbtree → ℕ × Rbtree
unfolding left_rotate right_rotate
finish_right n t =
    let (n', t') : ℕ × Rbtree =
      if n == t.left (t.parent n) then (t.parent n, right_rotate (t.parent n) t) else (n, t) in
    (n', left_rotate (t'.parent (t'.parent n')) (turn_colors n' t'))

unfoldable pub insert_round : ℕ → Rbtree → ℕ × Rbtree
unfolding finish_left finish_right
insert_round n t =
    let g = t.parent (t.parent n) in
    if t.parent n == t.left g
    then if t.color (t.right g) == red then (g, push_colors n (t.right g) t) else finish_left n t
    else if t.color (t.left g) == red
    then (g, push_colors n (t.left g) t)
    else finish_right n t

unfoldable pub rbtree_insert_fixup : ℕ → ℕ → Rbtree → Option Rbtree
unfolding insert_round
rbtree_insert_fixup zero n t = none
rbtree_insert_fixup (suc k) n t =
    let next = insert_round n t in
    let rest = rbtree_insert_fixup k next.0 next.1 in
    if t.color (t.parent n) == red then rest else some (set_color t.root black t)

-- The place of a new node: the node that gets it as a child.
unfoldable pub insert_place : ℕ → ℕ → ℕ → ℕ → Rbtree → Option ℕ
insert_place zero p c key t = none
insert_place (suc k) p c key t =
    let below = insert_place k c (t.left c) key t in
    let above = insert_place k c (t.right c) key t in
    if c == nil then some p else if ltb key (t.key c) then below else above

unfoldable pub insert_link : ℕ → ℕ → Rbtree → Rbtree
insert_link n p t =
    let t1 = set_parent n p t in
    if p == nil
    then record t1 { root = n }
    else if ltb (t1.key n) (t1.key p)
    then record t1 { left = update t1.left p n }
    else record t1 { right = update t1.right p n }

unfoldable pub rbtree_insert : ℕ → ℕ → Rbtree → Option Rbtree
unfolding insert_place insert_link rbtree_insert_fixup
rbtree_insert k n t = elim (insert_place k nil t.root (t.key n) t) [
  | none ↦ none
  | some p ↦ rbtree_insert_fixup k n (insert_link n p t)
]
