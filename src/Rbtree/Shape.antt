-- ===== src/Rbtree/Shape.antt =====
-- Trees that a store of nodes represents.
use mathlib.Core.Path.{sym, subst}
use Prim.Native.Nat.{max}
use wei_os.Rbtree.{nil, Rbtree}
use wei_os.Common.{
  inl, inr, Bool-cases, ◌≤◌, ◌∙◌, ap, ◌∷◌, ◌==◌, ◌≢◌, arith, ◌++◌, if◌then◌else◌, ◌<◌, [], ◌+◌, ◌≡◌,
  List, ℕ,
}
use wei_os.Common.{refl}

pub data Tree : Type 0 where
  leaf : Tree
  node : Tree → ℕ → Tree → Tree

-- The pointers from `n` on, whose parent is `p`, form the tree.
abbrev pub Holds : Rbtree → ℕ → ℕ → Tree → Type 0
Holds t p n leaf = n ≡ nil
Holds t p n (node l i r) =
    (n ≡ i) × (i ≢ nil) × (t.parent i ≡ p) × Holds t i (t.left i) l × Holds t i (t.right i) r

-- How often a node is in a tree.
abbrev pub times : ℕ → Tree → ℕ
times i leaf = 0
times i (node l j r) = times i l + (if j == i then 1 else 0) + times i r

abbrev pub height : Tree → ℕ
height leaf = 0
height (node l i r) = max (height l) (height r) + 1

-- The nodes from left to right.
abbrev pub in_order : Tree → List ℕ
in_order leaf = []
in_order (node l i r) = in_order l ++ (i ∷ in_order r)

pub Holds-root : (t : Rbtree) (p n : ℕ) (s : Tree) → Holds t p n s → 0 < times n s → t.parent n ≡ p
Holds-root t p n leaf h c = absurd (omega arith)
Holds-root t p n (node l j r) (e, _, up, _, _) c = ap t.parent e ∙ up

-- A node of a tree that keeps its parent has the root's parent if it is the root.
pub Holds-parent :
    (t : Rbtree) (p n i : ℕ) (s : Tree) {x : ℕ}
    → Holds t p n s
    → 0 < times i s
    → x ≡ t.parent i
    → x ≡ (if i == n then p else t.parent i)
Holds-parent t p n i s h c e = elim (Bool-cases (i == n)) [
  | inr other ↦ rw other e
  | inl same ↦
      let is : i ≡ n = ground arith in
      rw same (e ∙ ap t.parent is ∙ Holds-root t p n s h (subst (λ j. 0 < times j s) is c))
]

-- A tree whose nodes keep their pointers is the same tree, also under another parent.
pub Holds-moved :
    (s : Tree) (t u : Rbtree) (p p' n : ℕ)
    → ((i : ℕ)
        → 0 < times i s
        → (u.left i ≡ t.left i)
          × (u.right i ≡ t.right i)
          × (u.parent i ≡ (if i == n then p' else t.parent i)))
    → ((i : ℕ) → times i s ≤ 1)
    → Holds t p n s
    → Holds u p' n s
Holds-moved leaf t u p p' n same Once h = h
Holds-moved (node l j r) t u p p' n same Once (e, nz, up, on_left, on_right) =
    let (same_left, same_right, same_parent) = same j (ground arith) in
    let on_left' : Holds u j (t.left j) l =
      Holds-moved l t u j j (t.left j)
        (λ i c.
          let (a, b, at) = same i (ground arith) in
          let apart : i ≢ n = λ q. absurd (ground (arith, Once j, ap (λ x. times x l) q)) in
          (a, b, Holds-parent t j (t.left j) i l on_left c (ground (arith, at))))
        (λ i. ground (arith, Once i)) on_left in
    let on_right' : Holds u j (t.right j) r =
      Holds-moved r t u j j (t.right j)
        (λ i c.
          let (a, b, at) = same i (ground arith) in
          let apart : i ≢ n = λ q. absurd (ground (arith, Once j, ap (λ x. times x r) q)) in
          (a, b, Holds-parent t j (t.right j) i r on_right c (ground (arith, at))))
        (λ i. ground (arith, Once i)) on_right in
    (
      e,
      nz,
      ground (arith, same_parent),
      subst (λ c. Holds u j c l) (sym same_left) on_left',
      subst (λ c. Holds u j c r) (sym same_right) on_right',
    )

pub Holds-times : (t : Rbtree) (p n : ℕ) (s : Tree) → Holds t p n s → n ≢ nil → 0 < times n s
Holds-times t p n leaf h nz = absurd (nz h)
Holds-times t p n (node l i r) (e, _, _, _, _) nz = ground arith

pub Holds-inside : (t : Rbtree) (p n i : ℕ) (s : Tree) → Holds t p n s → 0 < times i s → n ≢ nil
Holds-inside t p n i leaf h c = absurd (omega arith)
Holds-inside t p n i (node l j r) (e, nz, _, _, _) c = λ is. nz (sym e ∙ is)

pub Holds-nil : (t : Rbtree) (p n : ℕ) (s : Tree) → Holds t p n s → times nil s ≡ 0
Holds-nil t p n leaf h = refl
Holds-nil t p n (node l i r) (_, nz, _, on_l, on_r) =
    ground (arith, Holds-nil t i (t.left i) l on_l, Holds-nil t i (t.right i) r on_r)
