-- ===== src/Rbtree/Hang.antt =====
-- The place of a new node, and the pointers after it is linked there.
use mathlib.Core.Path.{ap, sym, subst}
use wei_os.Rbtree.Rotate.{Once, Same}
use wei_os.Rbtree.Shape.{Holds-parent, height, Holds-moved, times, Holds, leaf, node, Tree}
use wei_os.Rbtree.{nil, insert_place, Rbtree, insert_link}
use wei_os.Common.{
  ◌∙◌, true, zero, suc, inr, ◌≢◌, arith, inl, ◌<◌, Bool-cases, ◌⊎◌, false, ltb, ◌≡◌, ◌==◌,
  if◌then◌else◌, ℕ, refl, some,
}
use wei_os.Rbtree.Rotate.{outside}

-- The tree with node `n` of key `key` below a leaf, behind what has the key already.
abbrev pub insert_leaf : (ℕ → ℕ) → ℕ → ℕ → Tree → Tree
insert_leaf keys key n leaf = node leaf n leaf
insert_leaf keys key n (node l i r) =
    let below = insert_leaf keys key n l in
    let above = insert_leaf keys key n r in
    if ltb key (keys i) then node below i r else node l i above

-- All but the new node and its parent keep their pointers.
insert_link-Same :
    (n q j : ℕ) (t : Rbtree) → (n == j) ≡ false → (q == j) ≡ false → Same t (insert_link n q t) j
unfolding insert_link
insert_link-Same n q j t a b = elim (Bool-cases (q == nil)) [
  | inl e ↦ rw e (refl, refl, ground arith)
  | inr e ↦ elim (Bool-cases (ltb (t.key n) (t.key q))) [
    | inl less ↦ rw (e, less) (ground arith, refl, ground arith)
    | inr more ↦ rw (e, more) (refl, ground arith, ground arith)
  ]
]

-- The subtree at `c` below `p`, and the place that is found from there.
abbrev Hung : Rbtree → ℕ → ℕ → ℕ → ℕ → Tree → ℕ → Type 0
Hung t n key p c s q =
    ((s ≡ leaf) × (q ≡ p) × (c ≡ nil))
    ⊎ ((0 < times q s) × Holds (insert_link n q t) p c (insert_leaf t.key key n s))

beside-Holds :
    (n q p c : ℕ) (s : Tree) (t : Rbtree)
    → Holds t p c s
    → Once s
    → times n s ≡ 0
    → times q s ≡ 0
    → Holds (insert_link n q t) p c s
beside-Holds n q p c s t h one no_n no_q =
    Holds-moved s t (insert_link n q t) p p c
      (λ j k.
        let (l, r, up) = insert_link-Same n q j t (outside j n s no_n k) (outside j q s no_q k) in
        (l, r, Holds-parent t p c j s h k up))
      one h

linked_left :
    (n i : ℕ) (t : Rbtree)
    → (i == nil) ≡ false
    → (n == i) ≡ false
    → ltb (t.key n) (t.key i) ≡ true
    → (((insert_link n i t).left i ≡ n)
        × ((insert_link n i t).right i ≡ t.right i)
        × ((insert_link n i t).parent i ≡ t.parent i))
      × (((insert_link n i t).left n ≡ t.left n)
          × ((insert_link n i t).right n ≡ t.right n)
          × ((insert_link n i t).parent n ≡ i))
unfolding insert_link
linked_left n i t nz apart less =
    rw (nz, less) ((ground arith, refl, ground arith), (ground arith, refl, ground arith))

-- The place is found in the left subtree, or the node itself is the place.
hang_left :
    (n p i q : ℕ) (l r : Tree) (t : Rbtree)
    → Holds t p i (node l i r)
    → Once (node l i r)
    → times n (node l i r) ≡ 0
    → n ≢ nil
    → t.left n ≡ nil
    → t.right n ≡ nil
    → ltb (t.key n) (t.key i) ≡ true
    → Hung t n (t.key n) i (t.left i) l q
    → Hung t n (t.key n) p i (node l i r) q
hang_left n p i q l r t (is, i_nz, up, on_l, on_r) one no_n nz ln rn less (inl (empty, at, none)) =
    let u = insert_link n i t in
    let ((i_l, i_r, i_p), (n_l, n_r, n_p)) =
      linked_left n i t (ground arith) (ground (arith, no_n)) less in
    let beside =
      beside-Holds n i i (t.right i) r t on_r (λ j. ground (arith, one j)) (ground (arith, no_n))
        (ground (arith, one i)) in
    let whole : Holds u p i (node (node leaf n leaf) i r) = (
      refl,
      i_nz,
      i_p ∙ up,
      (i_l, nz, n_p, n_l ∙ ln, n_r ∙ rn),
      subst (λ c. Holds u i c r) (sym i_r) beside,
    ) in
    let is_new : insert_leaf t.key (t.key n) n l ≡ node leaf n leaf =
      ap (insert_leaf t.key (t.key n) n) empty in
    let new : Holds (insert_link n i t) p i (insert_leaf t.key (t.key n) n (node l i r)) =
      rw less (subst (λ x. Holds u p i (node x i r)) (sym is_new) whole) in
    inr (
      subst (λ x. 0 < times x (node l i r)) (sym at) (ground arith),
      subst (λ x. Holds (insert_link n x t) p i (insert_leaf t.key (t.key n) n (node l i r)))
          (sym at) new,
    )
hang_left n p i q l r t (is, i_nz, up, on_l, on_r) one no_n nz ln rn less (inr (at, held)) =
    let u = insert_link n q t in
    let q_i = outside q i l (ground (arith, one i)) at in
    let (i_l, i_r, i_p) = insert_link-Same n q i t (ground (arith, no_n)) (ground (arith, q_i)) in
    let beside =
      beside-Holds n q i (t.right i) r t on_r (λ j. ground (arith, one j)) (ground (arith, no_n))
        (ground (arith, one q, at)) in
    let part = insert_leaf t.key (t.key n) n l in
    let whole : Holds u p i (node part i r) = (
      refl,
      i_nz,
      i_p ∙ up,
      subst (λ c. Holds u i c part) (sym i_l) held,
      subst (λ c. Holds u i c r) (sym i_r) beside,
    ) in
    let new : Holds u p i (insert_leaf t.key (t.key n) n (node l i r)) = rw less whole in
    inr (ground (arith, at), new)

linked_right :
    (n i : ℕ) (t : Rbtree)
    → (i == nil) ≡ false
    → (n == i) ≡ false
    → ltb (t.key n) (t.key i) ≡ false
    → (((insert_link n i t).right i ≡ n)
        × ((insert_link n i t).left i ≡ t.left i)
        × ((insert_link n i t).parent i ≡ t.parent i))
      × (((insert_link n i t).left n ≡ t.left n)
          × ((insert_link n i t).right n ≡ t.right n)
          × ((insert_link n i t).parent n ≡ i))
unfolding insert_link
linked_right n i t nz apart less =
    rw (nz, less) ((ground arith, refl, ground arith), (refl, ground arith, ground arith))

-- The place is found in the right subtree, or the node itself is the place.
hang_right :
    (n p i q : ℕ) (l r : Tree) (t : Rbtree)
    → Holds t p i (node l i r)
    → Once (node l i r)
    → times n (node l i r) ≡ 0
    → n ≢ nil
    → t.left n ≡ nil
    → t.right n ≡ nil
    → ltb (t.key n) (t.key i) ≡ false
    → Hung t n (t.key n) i (t.right i) r q
    → Hung t n (t.key n) p i (node l i r) q
hang_right n p i q l r t (is, i_nz, up, on_l, on_r) one no_n nz ln rn less (inl (empty, at, none)) =
    let u = insert_link n i t in
    let ((i_l, i_r, i_p), (n_l, n_r, n_p)) =
      linked_right n i t (ground arith) (ground (arith, no_n)) less in
    let beside =
      beside-Holds n i i (t.left i) l t on_l (λ j. ground (arith, one j)) (ground (arith, no_n))
        (ground (arith, one i)) in
    let whole : Holds u p i (node l i (node leaf n leaf)) = (
      refl,
      i_nz,
      i_p ∙ up,
      subst (λ c. Holds u i c l) (sym i_r) beside,
      (i_l, nz, n_p, n_l ∙ ln, n_r ∙ rn),
    ) in
    let is_new : insert_leaf t.key (t.key n) n r ≡ node leaf n leaf =
      ap (insert_leaf t.key (t.key n) n) empty in
    let new : Holds (insert_link n i t) p i (insert_leaf t.key (t.key n) n (node l i r)) =
      rw less (subst (λ x. Holds u p i (node l i x)) (sym is_new) whole) in
    inr (
      subst (λ x. 0 < times x (node l i r)) (sym at) (ground arith),
      subst (λ x. Holds (insert_link n x t) p i (insert_leaf t.key (t.key n) n (node l i r)))
          (sym at) new,
    )
hang_right n p i q l r t (is, i_nz, up, on_l, on_r) one no_n nz ln rn less (inr (at, held)) =
    let u = insert_link n q t in
    let q_i = outside q i r (ground (arith, one i)) at in
    let (i_l, i_r, i_p) = insert_link-Same n q i t (ground (arith, no_n)) (ground (arith, q_i)) in
    let beside =
      beside-Holds n q i (t.left i) l t on_l (λ j. ground (arith, one j)) (ground (arith, no_n))
        (ground (arith, one q, at)) in
    let part = insert_leaf t.key (t.key n) n r in
    let whole : Holds u p i (node l i part) = (
      refl,
      i_nz,
      i_p ∙ up,
      subst (λ c. Holds u i c l) (sym i_l) beside,
      subst (λ c. Holds u i c part) (sym i_r) held,
    ) in
    let new : Holds u p i (insert_leaf t.key (t.key n) n (node l i r)) = rw less whole in
    inr (ground (arith, at), new)

pub hang :
    (k n p c : ℕ) (s : Tree) (t : Rbtree)
    → Holds t p c s
    → Once s
    → times n s ≡ 0
    → n ≢ nil
    → t.left n ≡ nil
    → t.right n ≡ nil
    → height s < k
    → (q : ℕ) × (insert_place k p c (t.key n) t ≡ some q) × Hung t n (t.key n) p c s q
unfolding insert_place
hang zero n p c s t h one no_n nz ln rn e = absurd (omega arith)
hang (suc k) n p c leaf t h one no_n nz ln rn e = (p, ground (arith, h), inl (refl, refl, h))
hang (suc k) n p c (node l i r) t (is, i_nz, up, on_l, on_r) one no_n nz ln rn e =
    let used : (i == nil) ≡ false = ground arith in
    let h : Holds t p i (node l i r) = (refl, i_nz, up, on_l, on_r) in
    subst
      (λ c.
        (q : ℕ) × (insert_place (suc k) p c (t.key n) t ≡ some q)
        × Hung t n (t.key n) p c (node l i r) q)
      (sym is)
      (elim (Bool-cases (ltb (t.key n) (t.key i))) [
        | inl less ↦
            let (q, found, hung) =
              hang k n i (t.left i) l t on_l (λ j. ground (arith, one j)) (ground (arith, no_n)) nz
                ln rn (ground arith) in
            (q, rw (used, less) found, hang_left n p i q l r t h one no_n nz ln rn less hung)
        | inr more ↦
            let (q, found, hung) =
              hang k n i (t.right i) r t on_r (λ j. ground (arith, one j)) (ground (arith, no_n)) nz
                ln rn (ground arith) in
            (q, rw (used, more) found, hang_right n p i q l r t h one no_n nz ln rn more hung)
      ])

pub root_link :
    (n : ℕ) (t : Rbtree)
    → ((insert_link n nil t).root ≡ n)
      × ((insert_link n nil t).left n ≡ t.left n)
      × ((insert_link n nil t).right n ≡ t.right n)
      × ((insert_link n nil t).parent n ≡ nil)
unfolding insert_link
root_link n t = (refl, refl, refl, ground arith)

pub inner_link : (n q : ℕ) (t : Rbtree) → q ≢ nil → (insert_link n q t).root ≡ t.root
unfolding insert_link
inner_link n q t nz = elim (Bool-cases (q == nil)) [
  | inl e ↦ absurd (ground arith)
  | inr e ↦ elim (Bool-cases (ltb (t.key n) (t.key q))) [
    | inl less ↦ rw (e, less) refl
    | inr more ↦ rw (e, more) refl
  ]
]
