-- ===== src/Rbtree/Rotate.antt =====
-- The rotations: what they make of a tree, and what they leave alone.
use mathlib.Core.Path.{ap, sym, subst}
use wei_os.Rbtree.Shape.{leaf, Holds-inside, Holds-moved, Holds-times, node, Holds, Tree}
use wei_os.Rbtree.{right_rotate, nil, left_rotate, Rbtree, update}
use wei_os.Common.{
  refl, inl, inr, ◌+◌, Bool-cases, ◌∙◌, ◌<◌, ◌≢◌, ◌&&◌, not, arith, false, ◌≡◌, ◌≤◌, ◌==◌,
  if◌then◌else◌, ℕ,
}
use wei_os.Rbtree.Shape.{times}
use wei_os.Rbtree.Shape.{Holds-parent}

abbrev pub Once : Tree → Type 0
Once s = (i : ℕ) → times i s ≤ 1

-- The pointers after a rotation to the left at `n`, whose right child is `m` and whose parent is `p`.
abbrev pub TurnedLeft : Rbtree → Rbtree → ℕ → ℕ → ℕ → Type 0
TurnedLeft t u p n m =
    (i : ℕ)
    → (u.left i
        ≡ (if m == i then n else if not (p == nil) && n == t.left p && p == i then m else t.left i))
      × (u.right i ≡ (
          if n == i
          then t.left m
          else if not (p == nil) && not (n == t.left p) && p == i
          then m
          else t.right i))
      × (u.parent i ≡ (
          if n == i
          then m
          else if m == i
          then p
          else if not (t.left m == nil) && t.left m == i
          then n
          else t.parent i))

pub left_rotate_lem :
    (t : Rbtree) (n : ℕ)
    → (n == t.right n) ≡ false
    → (t.parent n == n) ≡ false
    → (t.parent n == t.right n) ≡ false
    → (t.left (t.right n) == n) ≡ false
    → TurnedLeft t (left_rotate n t) (t.parent n) n (t.right n)
unfolding left_rotate
left_rotate_lem t n n_m p_n p_m back i =
    let kept : (if t.right n == n
          then t.parent n
          else if t.left (t.right n) == nil
          then t.parent n
          else update t.parent (t.left (t.right n)) n n)
        ≡ t.parent n =
      ground arith in
    (ground arith, ground arith, ground arith)

-- The same to the right; `m` is the left child of `n`.
abbrev pub TurnedRight : Rbtree → Rbtree → ℕ → ℕ → ℕ → Type 0
TurnedRight t u p n m =
    (i : ℕ)
    → (u.right i ≡ (
        if m == i
        then n
        else if not (p == nil) && not (n == t.left p) && p == i
        then m
        else t.right i))
      × (u.left i ≡ (
          if n == i
          then t.right m
          else if not (p == nil) && n == t.left p && p == i
          then m
          else t.left i))
      × (u.parent i ≡ (
          if n == i
          then m
          else if m == i
          then p
          else if not (t.right m == nil) && t.right m == i
          then n
          else t.parent i))

pub right_rotate_lem :
    (t : Rbtree) (n : ℕ)
    → (n == t.left n) ≡ false
    → (t.parent n == n) ≡ false
    → (t.parent n == t.left n) ≡ false
    → (t.right (t.left n) == n) ≡ false
    → TurnedRight t (right_rotate n t) (t.parent n) n (t.left n)
unfolding right_rotate
right_rotate_lem t n n_m p_n p_m back i = (ground arith, ground arith, ground arith)

pub outside : (i j : ℕ) (s : Tree) → times j s ≡ 0 → 0 < times i s → (j == i) ≡ false
outside i j s none k = elim (Bool-cases (j == i)) [
  | inr other ↦ other
  | inl same ↦ let is : j ≡ i = ground arith in absurd (ground (arith, ap (λ x. times x s) is))
]

abbrev pub Same : Rbtree → Rbtree → ℕ → Type 0
Same t u i = (u.left i ≡ t.left i) × (u.right i ≡ t.right i) × (u.parent i ≡ t.parent i)

-- A node beside the two that turn keeps its pointers.
unmoved :
    (t u : Rbtree) (p n m i : ℕ) (s b : Tree)
    → TurnedLeft t u p n m
    → ((j : ℕ) → times j s + times j b + times j (node leaf n (node leaf m leaf)) ≤ 1)
    → times p s ≡ 0
    → (t.left m ≢ nil → 0 < times (t.left m) b)
    → 0 < times i s
    → Same t u i
unmoved t u p n m i s b turned one apart b_root k =
    let p_i = outside i p s apart k in
    let n_i = outside i n s (ground (arith, one n)) k in
    let m_i = outside i m s (ground (arith, one m)) k in
    let b_i : (not (t.left m == nil) && t.left m == i) ≡ false =
      elim (Bool-cases (t.left m == nil)) [
        | inl e ↦ ground arith
        | inr e ↦
            let off : times (t.left m) s ≡ 0 =
              ground (arith, one (t.left m), b_root (λ z. ground arith)) in
            ground (arith, outside i (t.left m) s off k)
      ] in
    let (on_left, on_right, on_parent) = turned i in
    (ground (arith, on_left), ground (arith, on_right), ground (arith, on_parent))

pub turned_left :
    (t : Rbtree) (p n m : ℕ) (a b c : Tree)
    → Holds t p n (node a n (node b m c))
    → Once (node a n (node b m c))
    → times p (node a n (node b m c)) ≡ 0
    → TurnedLeft t (left_rotate n t) p n m
turned_left t p n m a b c (_, n_nz, up, on_a, (m_is, m_nz, m_up, on_b, on_c)) one apart =
    let u = left_rotate n t in
    let p_is : t.parent n ≡ p = up in
    let b_root : t.left m ≢ nil → 0 < times (t.left m) b = Holds-times t m (t.left m) b on_b in
    let child : t.left m ≢ n =
      λ e. ground (arith, b_root (λ z. n_nz (sym e ∙ z)), one n, ap (λ j. times j b) e) in
    let back : (t.left (t.right n) == n) ≡ false = ground (arith, child, ap t.left m_is) in
    subst (λ q. TurnedLeft t u q n m) p_is
      (subst (λ q. TurnedLeft t u (t.parent n) n q) m_is
        (left_rotate_lem t n (ground (arith, one n, m_is)) (ground (arith, p_is))
          (ground (arith, p_is, m_is)) back))

-- A rotation to the left at `n` gives a tree with its right child on top.
pub left_rotate-Holds :
    (t : Rbtree) (p n m : ℕ) (a b c : Tree)
    → Holds t p n (node a n (node b m c))
    → Once (node a n (node b m c))
    → times p (node a n (node b m c)) ≡ 0
    → Holds (left_rotate n t) p m (node (node a n b) m c)
left_rotate-Holds t p n m a b c (_, n_nz, up, on_a, (m_is, m_nz, m_up, on_b, on_c)) one apart =
    let u = left_rotate n t in
    let p_is : t.parent n ≡ p = up in
    let b_root : t.left m ≢ nil → 0 < times (t.left m) b = Holds-times t m (t.left m) b on_b in
    let turned =
      turned_left t p n m a b c (refl, n_nz, up, on_a, (m_is, m_nz, m_up, on_b, on_c)) one apart in
    let a' : Holds u n (t.left n) a =
      Holds-moved a t u n n (t.left n)
        (λ i k.
          let (l, r, q) =
            unmoved t u p n m i a b turned (λ j. ground (arith, one j)) (ground (arith, apart))
              b_root k in
          (l, r, Holds-parent t n (t.left n) i a on_a k q))
        (λ i. ground (arith, one i)) on_a in
    let c' : Holds u m (t.right m) c =
      Holds-moved c t u m m (t.right m)
        (λ i k.
          let (l, r, q) =
            unmoved t u p n m i c b turned (λ j. ground (arith, one j)) (ground (arith, apart))
              b_root k in
          (l, r, Holds-parent t m (t.right m) i c on_c k q))
        (λ i. ground (arith, one i)) on_c in
    let b' : Holds u n (t.left m) b =
      Holds-moved b t u m n (t.left m)
        (λ i k.
          let (l, r, q) = turned i in
          let inside = Holds-inside t m (t.left m) i b on_b k in
          let p_i = outside i p b (ground (arith, apart)) k in
          let n_i = outside i n b (ground (arith, one n)) k in
          let m_i = outside i m b (ground (arith, one m)) k in
          (ground (arith, l), ground (arith, r), ground (arith, q)))
        (λ i. ground (arith, one i)) on_b in
    let n_m : (n == m) ≡ false = ground (arith, one n) in
    let p_n : (p == n) ≡ false = ground (arith, apart, ap (λ j. times j a) p_is) in
    let p_m : (p == m) ≡ false = ground (arith, apart) in
    let (m_l, m_r, m_q) = turned m in
    let (n_l, n_r, n_q) = turned n in
    (
      refl,
      m_nz,
      ground (arith, m_q),
      (
        ground (arith, m_l),
        n_nz,
        ground (arith, n_q),
        subst (λ j. Holds u n j a) (sym (ground (arith, n_l))) a',
        subst (λ j. Holds u n j b) (sym (ground (arith, n_r))) b',
      ),
      subst (λ j. Holds u m j c) (sym (ground (arith, m_r))) c',
    )
