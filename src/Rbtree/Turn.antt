-- ===== src/Rbtree/Turn.antt =====
-- A rotation and the one that takes it back.
use mathlib.Core.Path.{sym, ap, subst}
use wei_os.Rbtree.Shape.{Holds-root, Holds-times, in_order, node, Holds, times, Tree}
use wei_os.Rbtree.{nil, right_rotate, Rbtree, left_rotate}
use wei_os.Rbtree.Rotate.{
  left_rotate-Holds, turned_left, right_rotate_lem, Same, Once, TurnedLeft, TurnedRight,
}
use wei_os.Common.{
  ◌∷◌, ◌∙◌, ◌<◌, inl, inr, ◌⊎◌, ◌≢◌, Bool-cases, if◌then◌else◌, arith, false, ◌≡◌, ◌==◌, true, ℕ,
  append_assoc,
}

-- What is above a tree leads to its root `n`, and the other child of `p` is not in the tree.
abbrev pub Under : Rbtree → ℕ → ℕ → Tree → Type 0
Under t p n s =
    (p ≡ nil → t.root ≡ n)
    × (p ≢ nil
        → ((t.left p ≡ n) × (times (t.right p) s ≡ 0))
          ⊎ ((t.right p ≡ n) × (times (t.left p) s ≡ 0)))

left_rotate-root :
    (t : Rbtree) (n : ℕ)
    → (t.parent n == t.right n) ≡ false
    → (t.left (t.right n) == n) ≡ false
    → (t.right n == n) ≡ false
    → (left_rotate n t).root ≡ (if t.parent n == nil then t.right n else t.root)
unfolding left_rotate
left_rotate-root t n a b c = ground arith

-- What the turn back needs of the nodes around `n`.
abbrev Joined : Rbtree → ℕ → ℕ → ℕ → Type 0
Joined t p n m =
    ((n == m) ≡ false)
    × ((p == n) ≡ false)
    × ((p == m) ≡ false)
    × ((t.left m == n) ≡ false)
    × ((t.left m == m) ≡ false)
    × (t.right n ≡ m)
    × (t.parent n ≡ p)
    × (t.parent m ≡ n)
    × (((t.left m == nil) ≡ true) ⊎ (t.parent (t.left m) ≡ m))
    × ((p == nil) ≡ false
        → ((t.left p ≡ n) × ((t.right p == n) ≡ false))
          ⊎ ((t.right p ≡ n) × ((t.left p == n) ≡ false) × ((t.left p == m) ≡ false)))

turned_back :
    (t u v : Rbtree) (p n m : ℕ)
    → Joined t p n m
    → TurnedLeft t u p n m
    → TurnedRight u v p m n
    → (i : ℕ) → Same t v i
turned_back t u v p n m (n_m, p_n, p_m, lm_n, lm_m, right_n, up_n, up_m, below, link) turned back
      i =
    let (i_l, i_r, i_p) = turned i in
    let (n_l, n_r, n_p) = turned n in
    let (p_l, p_r, p_p) = turned p in
    let (v_r, v_l, v_p) = back i in
    let un : u.right n ≡ t.left m = ground (arith, n_r) in
    let parent_is : v.parent i ≡ t.parent i = elim (Bool-cases (t.left m == i)) [
      | inr other ↦ ground (arith, i_p, v_p, un)
      | inl child ↦ elim below [
        | inl none ↦ ground (arith, i_p, v_p, un)
        | inr up ↦
            let at : t.parent i ≡ m = ap t.parent (sym (ground arith)) ∙ up in
            ground (arith, i_p, v_p, un, at)
      ]
    ] in
    elim (Bool-cases (p == nil)) [
      | inl top ↦ (ground (arith, i_l, v_l, n_r), ground (arith, v_r, i_r, n_r), parent_is)
      | inr inner ↦ elim (link inner) [
        | inl (left_is, off) ↦
            (ground (arith, i_l, v_l, n_r, p_l), ground (arith, v_r, i_r, p_l), parent_is)
        | inr (right_is, off, off_m) ↦
            (ground (arith, i_l, v_l, n_r, p_l), ground (arith, v_r, i_r, p_l), parent_is)
      ]
    ]

off_root :
    (x n m : ℕ) (a b c : Tree)
    → times x (node a n (node b m c)) ≡ 0
    → ((x == n) ≡ false) × ((x == m) ≡ false)
off_root x n m a b c h = (ground (arith, h), ground (arith, h))

joined :
    (t : Rbtree) (p n m : ℕ) (a b c : Tree)
    → Holds t p n (node a n (node b m c))
    → Once (node a n (node b m c))
    → times p (node a n (node b m c)) ≡ 0
    → Under t p n (node a n (node b m c))
    → Joined t p n m
joined t p n m a b c (_, n_nz, up, on_a, (m_is, m_nz, m_up, on_b, on_c)) one apart (_, link) =
    let b_root : t.left m ≢ nil → 0 < times (t.left m) b = Holds-times t m (t.left m) b on_b in
    let child : (j : ℕ) → j ≢ nil → times j b ≡ 0 → (t.left m == j) ≡ false = λ j nz none.
      elim (Bool-cases (t.left m == j)) [
        | inr e ↦ e
        | inl e ↦
            let is : t.left m ≡ j = ground arith in
            absurd (ground (arith, b_root (λ z. nz (sym is ∙ z)), ap (λ x. times x b) is))
      ] in
    (
      ground (arith, one n),
      (off_root p n m a b c apart).0,
      (off_root p n m a b c apart).1,
      child n n_nz (ground (arith, one n)),
      child m m_nz (ground (arith, one m)),
      m_is,
      up,
      m_up,
      elim (Bool-cases (t.left m == nil)) [
        | inl none ↦ inl none
        | inr some ↦ inr (Holds-root t m (t.left m) b on_b (b_root (λ z. ground arith)))
      ],
      (λ inner. elim (link (λ z. ground arith)) [
        | inl (is, off) ↦ inl (is, (off_root (t.right p) n m a b c off).0)
        | inr (is, off) ↦
            inr (is, (off_root (t.left p) n m a b c off).0, (off_root (t.left p) n m a b c off).1)
      ]),
    )

rotated-Under :
    (t : Rbtree) (p n m : ℕ) (a b c : Tree)
    → TurnedLeft t (left_rotate n t) p n m
    → Joined t p n m
    → Under t p n (node a n (node b m c))
    → Under (left_rotate n t) p m (node (node a n b) m c)
rotated-Under t p n m a b c turned (n_m, p_n, p_m, lm_n, lm_m, right_n, up_n, up_m, below, _)
      (root, link) =
    let u = left_rotate n t in
    let (p_l, p_r, _) = turned p in
    let whole : (x : ℕ) → times x (node (node a n b) m c) ≡ times x (node a n (node b m c)) =
      λ x. omega arith in
    let top : p ≡ nil → u.root ≡ m =
      λ e. ground (arith, e, left_rotate-root t n (ground arith) (ground arith) (ground arith)) in
    (
      top,
      λ inner. elim (link inner) [
        | inl (is, off) ↦
            let kept : u.right p ≡ t.right p = ground (arith, p_r, inner) in
            inl (
              ground (arith, p_l, inner),
              ap (λ x. times x (node (node a n b) m c)) kept ∙ whole (t.right p) ∙ off,
            )
        | inr (is, off) ↦
            let apart = (off_root (t.left p) n m a b c off).0 in
            let kept : u.left p ≡ t.left p = ground (arith, p_l, inner, apart) in
            inr (
              ground (arith, p_r, inner, apart),
              ap (λ x. times x (node (node a n b) m c)) kept ∙ whole (t.left p) ∙ off,
            )
      ],
    )

rotated-Same :
    (t : Rbtree) (p n m : ℕ)
    → TurnedLeft t (left_rotate n t) p n m
    → Joined t p n m
    → (i : ℕ) → Same t (right_rotate m (left_rotate n t)) i
rotated-Same t p n m turned near =
    let u = left_rotate n t in
    let (n_m, p_n, p_m, lm_n, lm_m, right_n, up_n, up_m, below, _) = near in
    let left_is : u.left m ≡ n = ground (arith, (turned m).0) in
    let up_is : u.parent m ≡ p = ground (arith, (turned m).2) in
    let right_is : u.right n ≡ t.left m = ground (arith, (turned n).1) in
    let back : TurnedRight u (right_rotate m u) p m n =
      subst (λ q. TurnedRight u (right_rotate m u) q m n) up_is
        (subst (λ q. TurnedRight u (right_rotate m u) (u.parent m) m q) left_is
          (right_rotate_lem u m (ground (arith, left_is)) (ground (arith, up_is))
            (ground (arith, up_is, left_is)) (ground (arith, right_is, ap u.right left_is)))) in
    turned_back t u (right_rotate m u) p n m near turned back

-- In a tree whose nodes are distinct, with a parent `p` outside of it that leads to it by one of its two
-- pointers, a rotation to the left at the top node, which has a right child, leaves the tree above it with the right child in
-- its place, keeps the order of the nodes, and the rotation to the right at that child takes every
-- pointer back.
pub left_rotate-right_rotate :
    (t : Rbtree) (p n m : ℕ) (a b c : Tree)
    → Holds t p n (node a n (node b m c))
    → Once (node a n (node b m c))
    → times p (node a n (node b m c)) ≡ 0
    → Under t p n (node a n (node b m c))
    → Holds (left_rotate n t) p m (node (node a n b) m c)
      × (in_order (node (node a n b) m c) ≡ in_order (node a n (node b m c)))
      × Under (left_rotate n t) p m (node (node a n b) m c)
      × ((i : ℕ) → Same t (right_rotate m (left_rotate n t)) i)
left_rotate-right_rotate t p n m a b c h one apart under =
    let turned = turned_left t p n m a b c h one apart in
    let near = joined t p n m a b c h one apart under in
    (
      left_rotate-Holds t p n m a b c h one apart,
      append_assoc (in_order a) (n ∷ in_order b) (m ∷ in_order c),
      rotated-Under t p n m a b c turned near under,
      rotated-Same t p n m turned near,
    )
