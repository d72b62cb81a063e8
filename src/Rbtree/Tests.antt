-- ===== src/Rbtree/Tests.antt =====
-- Inputs of the theorems on red-black trees.
use wei_os.Rbtree.Insert.{insert_link-insert_leaf}
use wei_os.Rbtree.Rotate.{Once, Same}
use wei_os.Rbtree.Turn.{left_rotate-right_rotate, Under}
use wei_os.Rbtree.Hang.{insert_leaf}
use mathlib.Core.Path.{subst}
use wei_os.Rbtree.Search.{rbnode_succeeder_passes, rbtree_search-Finds, Finds, Ordered}
use wei_os.Rbtree.Shape.{in_order, Holds, leaf, node, Tree}
use wei_os.Rbtree.{
  finish_right, finish_left, right_rotate, insert_round, black, rbtree_insert_fixup, red,
  rbnode_init, insert_link, rbnode_succeeder, rbtree_init, left_rotate, insert_place,
  rbtree_minimum, rbtree_search, nil, rbtree_insert, Rbtree,
}
use wei_os.Common.{
  inr, inl, Bool-cases, none, ◌<◌, ◌≤◌, arith, ◌==◌, Option, ◌≡◌, if◌then◌else◌, ℕ, refl, some,
}

-- Node 1 with key 10 on top, 2 with key 5 and 3 with key 20 below it, and 4 with key 15 below 3; node
-- 5 with key 7 is free.
abbrev four : Rbtree
four = record {
  left = λ i. if i == 1 then 2 else if i == 3 then 4 else 0;
  right = λ i. if i == 1 then 3 else 0;
  parent = λ i. if i == 2 then 1 else if i == 3 then 1 else if i == 4 then 3 else 0;
  key = λ i.
      if i == 1 then 10 else if i == 2 then 5 else if i == 3 then 20 else if i == 4 then 15 else 7;
  color = λ i. if i == 4 then red else black;
  root = 1;
}

abbrev right_part : Tree
right_part = node (node leaf 4 leaf) 3 leaf

abbrev four_tree : Tree
four_tree = node (node leaf 2 leaf) 1 right_part

four-Holds : Holds four nil 1 four_tree
four-Holds = (
  refl,
  (λ e. ground arith),
  refl,
  (refl, (λ e. ground arith), refl, refl, refl),
  (refl, (λ e. ground arith), refl, (refl, (λ e. ground arith), refl, refl, refl), refl),
)

four-Once : Once four_tree
four-Once i = ground arith

four-Ordered : Ordered four.key four_tree
four-Ordered = (
  (λ j h. let e : 2 ≡ j = ground arith in subst (λ j. four.key j < 10) e (omega arith)),
  (λ j h. elim (Bool-cases (j == 3)) [ inl e ↦ ground arith | inr e ↦ ground arith ]),
  ((λ j h. absurd (omega arith)), (λ j h. absurd (omega arith)), tt, tt),
  (
    (λ j h. ground arith),
    (λ j h. absurd (omega arith)),
    ((λ j h. absurd (omega arith)), (λ j h. absurd (omega arith)), tt, tt),
    tt,
  ),
)

rbtree_search-Finds_example :
    (m : ℕ) × (rbtree_search 4 15 four ≡ some m) × Finds four four_tree 15 m
rbtree_search-Finds_example =
    rbtree_search-Finds 4 15 four four_tree four-Holds four-Ordered (omega arith)

rbnode_succeeder_passes_example :
    (m : ℕ) × (rbtree_minimum 2 3 four ≡ some m)
    × (rbnode_succeeder 1 1 four ≡ some 3)
    × (10 ≤ four.key m)
    × (four.key m < 20)
rbnode_succeeder_passes_example =
    rbnode_succeeder_passes 1 0 1 four (node leaf 2 leaf) right_part four-Holds four-Ordered
      (λ e. ground arith) (λ e. ground arith)

insert_link-insert_leaf_example :
    (q : ℕ) × (insert_place 4 nil 1 7 four ≡ some q)
    × Holds
        (insert_link 5 q four)
        nil
        (insert_link 5 q four).root
        (insert_leaf four.key 7 5 four_tree)
    × Ordered four.key (insert_leaf four.key 7 5 four_tree)
    × Once (insert_leaf four.key 7 5 four_tree)
insert_link-insert_leaf_example =
    insert_link-insert_leaf 4 5 four four_tree four-Holds four-Ordered four-Once refl
      (λ e. ground arith) refl refl (omega arith)

left_rotate-right_rotate_example :
    Holds (left_rotate 1 four) 0 3 (node (node (node leaf 2 leaf) 1 (node leaf 4 leaf)) 3 leaf)
    × (in_order (node (node (node leaf 2 leaf) 1 (node leaf 4 leaf)) 3 leaf) ≡ in_order four_tree)
    × Under (left_rotate 1 four) 0 3 (node (node (node leaf 2 leaf) 1 (node leaf 4 leaf)) 3 leaf)
    × ((i : ℕ) → Same four (right_rotate 3 (left_rotate 1 four)) i)
left_rotate-right_rotate_example =
    left_rotate-right_rotate four 0 1 3 (node leaf 2 leaf) (node leaf 4 leaf) leaf four-Holds
      four-Once refl ((λ e. refl), (λ e. absurd (e refl)))

abbrev empty_tree : Rbtree
empty_tree = rbtree_init four

-- The keys 1 to 3 in this order, in nodes with these numbers.
abbrev put : ℕ → Option Rbtree → Option Rbtree
put n none = none
put n (some t) = rbtree_insert 9 n (rbnode_init n n red t)

three_inserted :
    (t : Rbtree) × (put 3 (put 2 (put 1 (some empty_tree))) ≡ some t)
    × (t.root ≡ 2)
    × (t.left 2 ≡ 1)
    × (t.right 2 ≡ 3)
    × (t.color 3 ≡ red)
    × (t.color 2 ≡ black)
unfolding rbtree_insert insert_place insert_link rbtree_insert_fixup insert_round finish_left
    finish_right left_rotate right_rotate
three_inserted = (_, refl, refl, refl, refl, refl, refl)

-- Node 1 with the children 2 and 3 and the grandchildren 4 on the far left and 5 on the far right.
abbrev five : Rbtree
five = record {
  left = λ i. if i == 1 then 2 else if i == 2 then 4 else 0;
  right = λ i. if i == 1 then 3 else if i == 3 then 5 else 0;
  parent = λ i.
      if i == 2 then 1 else if i == 3 then 1 else if i == 4 then 2 else if i == 5 then 3 else 0;
  key = λ i. i;
  color = λ i. if i == 4 then red else if i == 5 then red else black;
  root = 1;
}
