-- ===== src/Rbtree/Delete.antt =====
-- Deletion of lib/krbfunc.c: `RBTreeDeleteNode` and its repair `RBTreeDeleteFixup`.
use wei_os.Rbtree.{
  nil, set_parent, red, black, set_color, Rbtree, rbtree_minimum, rbtree_transplant, right_rotate,
  left_rotate, update,
}
use wei_os.Common.{zero, not, some, suc, ◌&&◌, none, ◌==◌, Option, Bool, if◌then◌else◌, ℕ}

-- The sibling of a left child is red: it is turned over its parent.
unfoldable pub raise_right : ℕ → Rbtree → Rbtree
unfolding left_rotate
raise_right n t =
    let w = t.right (t.parent n) in
    if t.color w == red
    then left_rotate (t.parent n) (set_color (t.parent w) red (set_color w black t))
    else t

unfoldable pub raise_left : ℕ → Rbtree → Rbtree
unfolding right_rotate
raise_left n t =
    let w = t.left (t.parent n) in
    if t.color w == red
    then right_rotate (t.parent n) (set_color (t.parent w) red (set_color w black t))
    else t

-- The sibling's outer child is black: its red inner child comes above it.
unfoldable pub outer_right : ℕ → Rbtree → Rbtree
unfolding right_rotate
outer_right n t =
    let w = t.right (t.parent n) in
    if t.color (t.right w) == black
    then right_rotate w (set_color w red (set_color (t.left w) black t))
    else t

unfoldable pub outer_left : ℕ → Rbtree → Rbtree
unfolding left_rotate
outer_left n t =
    let w = t.left (t.parent n) in
    if t.color (t.left w) == black
    then left_rotate w (set_color w red (set_color (t.right w) black t))
    else t

-- The last turn; the sibling of a left child gets RED, the one of a right child its parent's colour.
unfoldable pub close_right : ℕ → Rbtree → Rbtree
unfolding left_rotate
close_right n t =
    let p = t.parent n in
    let w = t.right p in
    left_rotate p (set_color (t.right w) black (set_color p black (set_color w red t)))

unfoldable pub close_left : ℕ → Rbtree → Rbtree
unfolding right_rotate
close_left n t =
    let p = t.parent n in
    let w = t.left p in
    right_rotate p (set_color (t.left w) black (set_color p black (set_color w (t.color p) t)))

abbrev has_black_children : ℕ → Rbtree → Bool
has_black_children w t = t.color (t.left w) == black && t.color (t.right w) == black

unfoldable pub repair_left : ℕ → Rbtree → ℕ × Rbtree
unfolding raise_right outer_right close_right
repair_left n t =
    let t1 = raise_right n t in
    let w = t1.right (t1.parent n) in
    let t2 = close_right n (outer_right n t1) in
    if has_black_children w t1 then (t1.parent n, set_color w red t1) else (t2.root, t2)

unfoldable pub repair_right : ℕ → Rbtree → ℕ × Rbtree
unfolding raise_left outer_left close_left
repair_right n t =
    let t1 = raise_left n t in
    let w = t1.left (t1.parent n) in
    let t2 = close_left n (outer_left n t1) in
    if has_black_children w t1 then (t1.parent n, set_color w red t1) else (t2.root, t2)

unfoldable pub delete_round : ℕ → Rbtree → ℕ × Rbtree
unfolding repair_left repair_right
delete_round n t = if n == t.left (t.parent n) then repair_left n t else repair_right n t

unfoldable pub rbtree_delete_fixup : ℕ → ℕ → Rbtree → Option Rbtree
unfolding delete_round
rbtree_delete_fixup zero n t = none
rbtree_delete_fixup (suc k) n t =
    let next = delete_round n t in
    let rest = rbtree_delete_fixup k next.0 next.1 in
    if not (n == t.root) && t.color n == black then rest else some (set_color n black t)

-- A node `y` that is the least on the right of `n` takes the place of `n`.
unfoldable pub delete_swap : ℕ → ℕ → Rbtree → Rbtree
unfolding rbtree_transplant
delete_swap n y t =
    let t1 =
      if t.parent y == n
      then set_parent (t.right y) y t
      else let u = rbtree_transplant y (t.right y) t in
        set_parent (u.right n) y (record u { right = update u.right y (u.right n) }) in
    let t2 = rbtree_transplant n y t1 in
    let t3 = record t2 { left = update t2.left y (t2.left n) } in
    set_color y (t3.color n) (set_parent (t3.left y) y t3)

-- The node where the repair begins, the colour that is lost, and the tree without `n`.
unfoldable pub delete_splice : ℕ → ℕ → Rbtree → Option (ℕ × ℕ × Rbtree)
unfolding rbtree_minimum rbtree_transplant delete_swap
delete_splice k n t =
    if t.left n == nil
    then some (t.right n, t.color n, rbtree_transplant n (t.right n) t)
    else if t.right n == nil
    then some (t.left n, t.color n, rbtree_transplant n (t.left n) t)
    else elim (rbtree_minimum k (t.right n) t) [
      | none ↦ none
      | some y ↦ some (t.right y, t.color y, delete_swap n y t)
    ]

unfoldable pub rbtree_delete_node : ℕ → ℕ → Rbtree → Option Rbtree
unfolding delete_splice rbtree_delete_fixup
rbtree_delete_node k n t = elim (delete_splice k n t) [
  | none ↦ none
  | some (x, c, u) ↦
      let u' : Rbtree = record u { left = update u.left n nil; right = update u.right n nil } in
      let fixed = rbtree_delete_fixup k x u' in if c == black then fixed else some u'
]
