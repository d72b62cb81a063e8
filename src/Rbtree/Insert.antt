-- ===== src/Rbtree/Insert.antt =====
-- Insertion before its repair: the new node hangs below a leaf of the tree.
use mathlib.Core.Path.{subst}
use wei_os.Rbtree.{insert_link, insert_place, nil, Rbtree}
use wei_os.Rbtree.Shape.{Holds-nil, height, Holds, times, leaf, node, Tree}
use wei_os.Rbtree.Hang.{insert_leaf, hang, root_link, inner_link}
use wei_os.Rbtree.Search.{Ordered}
use wei_os.Common.{
  ◌∙◌, ◌≢◌, sym, ap, inr, inl, if◌then◌else◌, ltb, ◌==◌, ◌+◌, Bool-cases, ◌⊎◌, ◌≡◌, arith, ◌<◌, ℕ,
  some,
}
use wei_os.Rbtree.Rotate.{Once}

insert_leaf-times :
    (keys : ℕ → ℕ) (key n j : ℕ) (s : Tree)
    → times j (insert_leaf keys key n s) ≡ times j s + (if n == j then 1 else 0)
insert_leaf-times keys key n j leaf = omega arith
insert_leaf-times keys key n j (node l i r) = elim (Bool-cases (ltb key (keys i))) [
  | inl less ↦ rw less (omega (arith, insert_leaf-times keys key n j l))
  | inr more ↦ rw more (omega (arith, insert_leaf-times keys key n j r))
]

insert_leaf-below :
    (keys : ℕ → ℕ) (n j : ℕ) (s : Tree)
    → 0 < times j (insert_leaf keys (keys n) n s)
    → (0 < times j s) ⊎ (keys j ≡ keys n)
insert_leaf-below keys n j s h = elim (Bool-cases (n == j)) [
  | inl same ↦ let is : n ≡ j = ground arith in inr (ap keys (sym is))
  | inr other ↦ inl (ground (arith, h, insert_leaf-times keys (keys n) n j s))
]

insert_leaf-Ordered :
    (keys : ℕ → ℕ) (n : ℕ) (s : Tree)
    → Ordered keys s
    → Ordered keys (insert_leaf keys (keys n) n s)
insert_leaf-Ordered keys n leaf o =
    ((λ j h. absurd (omega arith)), (λ j h. absurd (omega arith)), tt, tt)
insert_leaf-Ordered keys n (node l i r) (below, above, o_l, o_r) =
    elim (Bool-cases (ltb (keys n) (keys i))) [
      | inl less ↦ rw less (
        (λ j h. elim (insert_leaf-below keys n j l h) [
          | inl old ↦ below j old
          | inr new ↦ ground (arith, new)
        ]),
        above,
        insert_leaf-Ordered keys n l o_l,
        o_r,
      )
      | inr more ↦ rw more (
        below,
        (λ j h. elim (insert_leaf-below keys n j r h) [
          | inl old ↦ above j old
          | inr new ↦ ground (arith, new)
        ]),
        o_l,
        insert_leaf-Ordered keys n r o_r,
      )
    ]

-- A new node without children is hung into an ordered tree of distinct nodes that lacks it: the search for its place ends within one round more
-- than the height, and the linked tree is the old one with the node below a leaf, left of what has a
-- larger key and right of the others; it is ordered again and has the node once.
pub insert_link-insert_leaf :
    (k n : ℕ) (t : Rbtree) (s : Tree)
    → Holds t nil t.root s
    → Ordered t.key s
    → Once s
    → times n s ≡ 0
    → n ≢ nil
    → t.left n ≡ nil
    → t.right n ≡ nil
    → height s < k
    → (q : ℕ) × (insert_place k nil t.root (t.key n) t ≡ some q)
      × Holds (insert_link n q t) nil (insert_link n q t).root (insert_leaf t.key (t.key n) n s)
      × Ordered t.key (insert_leaf t.key (t.key n) n s)
      × Once (insert_leaf t.key (t.key n) n s)
insert_link-insert_leaf k n t s h o one no_n nz ln rn e =
    let (q, found, hung) = hang k n nil t.root s t h one no_n nz ln rn e in
    (
      q,
      found,
      elim hung [
        | inl (empty, at, none) ↦
            let (r_is, l_is, rr_is, up) = root_link n t in
            let u = insert_link n nil t in
            let new : Holds u nil u.root (node leaf n leaf) =
              (r_is, nz, up, l_is ∙ ln, rr_is ∙ rn) in
            subst
              (λ x.
                Holds (insert_link n x t) nil (insert_link n x t).root
                  (insert_leaf t.key (t.key n) n s))
              (sym at)
              (subst (λ x. Holds u nil u.root (insert_leaf t.key (t.key n) n x)) (sym empty) new)
        | inr (at, held) ↦
            let q_nz : q ≢ nil =
              λ z. ground (arith, at, ap (λ x. times x s) z, Holds-nil t nil t.root s h) in
            subst (λ c. Holds (insert_link n q t) nil c (insert_leaf t.key (t.key n) n s))
              (sym (inner_link n q t q_nz)) held
      ],
      insert_leaf-Ordered t.key n s o,
      (λ j. elim (Bool-cases (n == j)) [
        | inl same ↦
            let is : n ≡ j = ground arith in
            ground (arith, insert_leaf-times t.key (t.key n) n j s, ap (λ x. times x s) is)
        | inr other ↦ ground (arith, insert_leaf-times t.key (t.key n) n j s, one j)
      ]),
    )
