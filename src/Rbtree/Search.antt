-- ===== src/Rbtree/Search.antt =====
-- Search in a tree that is ordered, its least node, and the node after another.
use wei_os.Rbtree.Shape.{height, times, Holds, node, Tree}
use wei_os.Rbtree.{rbnode_succeeder, rbtree_minimum, rbtree_search, nil, search_from, Rbtree}
use wei_os.Common.{
  sym, ◌∙◌, zero, false, ap, ◌==◌, ltb, suc, Bool-cases, some, inr, ◌⊎◌, arith, ◌≡◌, ◌≤◌, inl, ◌<◌,
  ◌≢◌, ℕ, refl,
}
use wei_os.Rbtree.Shape.{leaf, node, Tree}
use wei_os.Rbtree.Shape.{Holds-inside, Holds-times}
use wei_os.Common.{some}

-- The keys left of a node are below its key, those right of it are not below.
abbrev pub Ordered : (ℕ → ℕ) → Tree → Type 0
Ordered key leaf = Unit
Ordered key (node l i r) =
    ((j : ℕ) → 0 < times j l → key j < key i)
    × ((j : ℕ) → 0 < times j r → key i ≤ key j)
    × Ordered key l
    × Ordered key r

-- The node that a search ends at.
abbrev pub Finds : Rbtree → Tree → ℕ → ℕ → Type 0
Finds t s key n =
    ((n ≢ nil) × (0 < times n s) × (t.key n ≡ key))
    ⊎ ((n ≡ nil) × ((j : ℕ) → 0 < times j s → t.key j ≢ key))

Finds-left :
    (t : Rbtree) (l r : Tree) (i key n : ℕ)
    → key < t.key i
    → Ordered t.key (node l i r)
    → Finds t l key n
    → Finds t (node l i r) key n
Finds-left t l r i key n less (below, above, _, _) (inl (nz, at, is)) =
    inl (nz, omega (arith, at), is)
Finds-left t l r i key n less (below, above, _, _) (inr (none, absent)) = inr (
  none,
  λ j k. elim (Bool-cases (ltb 0 (times j l))) [
    | inl there ↦ absent j (ground arith)
    | inr other ↦ elim (Bool-cases (ltb 0 (times j r))) [
      | inl right ↦ λ e. ground (arith, above j (ground arith), e)
      | inr root ↦ λ e. let is : i ≡ j = ground (arith, k) in ground (arith, ap t.key is, e)
    ]
  ],
)

Finds-right :
    (t : Rbtree) (l r : Tree) (i key n : ℕ)
    → t.key i < key
    → Ordered t.key (node l i r)
    → Finds t r key n
    → Finds t (node l i r) key n
Finds-right t l r i key n less (below, above, _, _) (inl (nz, at, is)) =
    inl (nz, omega (arith, at), is)
Finds-right t l r i key n less (below, above, _, _) (inr (none, absent)) = inr (
  none,
  λ j k. elim (Bool-cases (ltb 0 (times j r))) [
    | inl there ↦ absent j (ground arith)
    | inr other ↦ elim (Bool-cases (ltb 0 (times j l))) [
      | inl left ↦ λ e. ground (arith, below j (ground arith), e)
      | inr root ↦ λ e. let is : i ≡ j = ground (arith, k) in ground (arith, ap t.key is, e)
    ]
  ],
)

search_from-Finds :
    (k p n key : ℕ) (t : Rbtree) (s : Tree)
    → Holds t p n s
    → Ordered t.key s
    → height s < k
    → (m : ℕ) × (search_from k n key t ≡ some m) × Finds t s key m
unfolding search_from
search_from-Finds zero p n key t s h o e = absurd (omega arith)
search_from-Finds (suc k) p n key t leaf h o e =
    (0, ground (arith, h), inr (refl, λ j x. ground arith))
search_from-Finds (suc k) p n key t (node l i r) (is, nz, up, on_l, on_r) o e =
    let (_, _, o_l, o_r) = o in
    let used : (n == nil) ≡ false = ground arith in
    let below = search_from-Finds k i (t.left i) key t l on_l o_l (ground arith) in
    let above = search_from-Finds k i (t.right i) key t r on_r o_r (ground arith) in
    elim (Bool-cases (ltb key (t.key n))) [
      | inl less ↦ (
        below.0,
        rw (used, less) (ap (λ c. search_from k (t.left c) key t) is ∙ below.1),
        Finds-left t l r i key below.0 (ground (arith, ap t.key is)) o below.2,
      )
      | inr not_less ↦ elim (Bool-cases (ltb (t.key n) key)) [
        | inl more ↦ (
          above.0,
          rw (used, not_less, more) (ap (λ c. search_from k (t.right c) key t) is ∙ above.1),
          Finds-right t l r i key above.0 (ground (arith, ap t.key is)) o above.2,
        )
        | inr same ↦
            (n, rw (used, not_less, same) refl, inl (ground arith, ground arith, ground arith))
      ]
    ]

-- In an ordered tree, the search ends within one round more than the height: at a node of the tree with
-- the key, or at `nil` when no node of the tree has it.
pub rbtree_search-Finds :
    (k key : ℕ) (t : Rbtree) (s : Tree)
    → Holds t nil t.root s
    → Ordered t.key s
    → height s < k
    → (m : ℕ) × (rbtree_search k key t ≡ some m) × Finds t s key m
rbtree_search-Finds k key t s h o e = search_from-Finds k nil t.root key t s h o e

-- The least node of a tree.
abbrev pub IsLeast : Rbtree → Tree → ℕ → Type 0
IsLeast t s m = (m ≢ nil) × (0 < times m s) × ((j : ℕ) → 0 < times j s → t.key m ≤ t.key j)

IsLeast-left :
    (t : Rbtree) (l r : Tree) (i m : ℕ)
    → Ordered t.key (node l i r)
    → IsLeast t l m
    → IsLeast t (node l i r) m
IsLeast-left t l r i m (below, above, _, _) (nz, at, least) = (
  nz,
  omega (arith, at),
  λ j k. elim (Bool-cases (ltb 0 (times j l))) [
    | inl there ↦ least j (ground arith)
    | inr other ↦ elim (Bool-cases (ltb 0 (times j r))) [
      | inl right ↦ ground (arith, above j (ground arith), below m at)
      | inr root ↦ let is : i ≡ j = ground (arith, k) in ground (arith, ap t.key is, below m at)
    ]
  ],
)

IsLeast-top :
    (t : Rbtree) (l r : Tree) (i : ℕ)
    → i ≢ nil
    → Ordered t.key (node l i r)
    → Holds t i (t.left i) l
    → t.left i ≡ nil
    → IsLeast t (node l i r) i
IsLeast-top t l r i nz (_, above, _, _) on_l none = (
  nz,
  ground arith,
  λ j k. elim (Bool-cases (ltb 0 (times j l))) [
    | inl there ↦ absurd (Holds-inside t i (t.left i) j l on_l (ground arith) none)
    | inr other ↦ elim (Bool-cases (ltb 0 (times j r))) [
      | inl right ↦ above j (ground arith)
      | inr root ↦ let is : i ≡ j = ground (arith, k) in ground (arith, ap t.key is)
    ]
  ],
)

-- The search for the least node of a tree ends, within as many rounds as the tree is high, at a node
-- of the tree with the least key.
pub rbtree_minimum-IsLeast :
    (k p n : ℕ) (t : Rbtree) (s : Tree)
    → Holds t p n s
    → Ordered t.key s
    → n ≢ nil
    → height s ≤ k
    → (m : ℕ) × (rbtree_minimum k n t ≡ some m) × IsLeast t s m
unfolding rbtree_minimum
rbtree_minimum-IsLeast k p n t leaf h o nz e = absurd (nz h)
rbtree_minimum-IsLeast zero p n t (node l i r) h o nz e = absurd (ground arith)
rbtree_minimum-IsLeast (suc k) p n t (node l i r) (is, i_nz, up, on_l, on_r) o nz e =
    elim (Bool-cases (t.left n == nil)) [
      | inl none ↦
          let left_nil : t.left i ≡ nil = ap t.left (sym is) ∙ ground arith in
          (i, rw none (ap some is), IsLeast-top t l r i i_nz o on_l left_nil)
      | inr more ↦
          let left_nz : t.left i ≢ nil = λ z. ground (arith, ap t.left is, z) in
          let (m, least, ok) =
            rbtree_minimum-IsLeast k i (t.left i) t l on_l (o.2) left_nz (ground arith) in
          (
            m,
            rw more (ap (λ c. rbtree_minimum k (t.left c) t) is ∙ least),
            IsLeast-left t l r i m o ok,
          )
    ]

-- In an ordered tree, when the right child of the top node has a left child itself, `RBNodeSucceeder` returns the right child,
-- although the least node on the right has a key below it and not below the node's own.
pub rbnode_succeeder_passes :
    (k p n : ℕ) (t : Rbtree) (l r : Tree)
    → Holds t p n (node l n r)
    → Ordered t.key (node l n r)
    → t.right n ≢ nil
    → t.left (t.right n) ≢ nil
    → (m : ℕ) × (rbtree_minimum (height r) (t.right n) t ≡ some m)
      × (rbnode_succeeder k n t ≡ some (t.right n))
      × (t.key n ≤ t.key m)
      × (t.key m < t.key (t.right n))
unfolding rbnode_succeeder
rbnode_succeeder_passes k p n t l leaf (_, nz, _, _, on_r) o r_nz inner = absurd (r_nz on_r)
rbnode_succeeder_passes k p n t l (node a i b) (_, nz, _, _, (is, i_nz, up, on_a, on_b)) o r_nz
      inner =
    let (_, above, _, order) = o in
    let (below, _, _, _) = order in
    let (m, found, (m_nz, at, least)) =
      rbtree_minimum-IsLeast (height (node a i b)) n (t.right n) t (node a i b)
        (is, i_nz, up, on_a, on_b) order r_nz (omega arith) in
    let child : 0 < times (t.left i) a =
      Holds-times t i (t.left i) a on_a (λ z. inner (ap t.left is ∙ z)) in
    let less = below (t.left i) child in
    let least_is = least (t.left i) (omega (arith, child)) in
    (m, found, ground (arith, nz, r_nz), above m at, omega (arith, less, least_is, ap t.key is))
