-- ===== src/Slab/Classes.antt =====
-- The size classes of kern/kmalloc.c.
use mathlib.Core.Path.{subst}
use wei_os.Common.{
  ap, inl, inr, Bool-cases, sym, refl, ap, ℕ, zero, suc, ◌+◌, ◌-◌, ◌*◌, ◌<◌, ◌≤◌, ◌≡◌, ◌⊎◌, inl,
  inr, refl, sym, Bool, some, ◌==◌, ltb, if◌then◌else◌, arith, Bool-cases,
}
use wei_os.Slab.{size_class, kmalloc_cache, slab_size}

-- The size of the objects of a class.
abbrev pub class_size : ℕ → ℕ
class_size zero = 32
class_size (suc i) = class_size i * 2

-- Class `r` is the first from `i` on that holds the size.
record IsLeast (i r size : ℕ) : Type 0 where
  pub from : i ≤ r
  pub holds : size ≤ class_size r
  pub least : (r ≡ i) ⊎ (class_size (r - 1) < size)

size_class-IsLeast :
    (k i size : ℕ)
    → size ≤ class_size (i + k)
    → IsLeast i (size_class k i (class_size i) size) size
      × (size_class k i (class_size i) size ≤ i + k)
unfolding size_class
size_class-IsLeast zero i size h =
    let same : i + 0 ≡ i = omega arith in
    let fits = ap class_size same in
    (record { from = omega arith; holds = omega arith; least = inl refl }, omega arith)
size_class-IsLeast (suc k) i size h = elim (Bool-cases (ltb (class_size i) size)) [
  | inl more ↦
      let next : i + suc k ≡ suc i + k = omega arith in
      let bound = ap class_size next in
      let run : size_class (suc k) i (class_size i) size
          ≡ size_class k (suc i) (class_size (suc i)) size =
        ground arith in
      let (rest, top) = size_class-IsLeast k (suc i) size (omega arith) in
      subst (λ r. IsLeast i r size × (r ≤ i + suc k)) (sym run)
        (
          further i (size_class k (suc i) (class_size (suc i)) size) size (ground arith) rest,
          omega arith,
        )
  | inr fits ↦
      let run : size_class (suc k) i (class_size i) size ≡ i = ground arith in
      subst (λ r. IsLeast i r size × (r ≤ i + suc k)) (sym run)
        (record { from = omega arith; holds = ground arith; least = inl refl }, omega arith)
]
  where
    further : (i r size : ℕ) → class_size i < size → IsLeast (suc i) r size → IsLeast i r size
    further i r size more l = record {
      from = omega (arith, l.from);
      holds = l.holds;
      least = elim l.least [
        | inl e ↦
            let back : r - 1 ≡ i = omega arith in
            let small = ap class_size back in inr (omega arith)
        | inr small ↦ inr small
      ];
    }

one_of_8 : (r size : ℕ) → size ≤ slab_size → r ≤ 8 → IsLeast 0 r size → r < 8
one_of_8 r size g h l = elim l.least [
  | inl none_smaller ↦ omega arith
  | inr small ↦ elim (Bool-cases (r == 8)) [
    | inl e ↦
        let last : r - 1 ≡ 7 = ground arith in
        let largest = ap class_size last in absurd (omega arith)
    | inr e ↦ ground arith
  ]
]

-- `kmalloc` of 1 to 4096 bytes takes the cache of the smallest class that holds them, one of the
-- first eight, or the one eight places further for the DMA zone.
pub kmalloc_cache_least :
    (size : ℕ) (dma : Bool)
    → 0 < size
    → size ≤ slab_size
    → (i : ℕ) × (kmalloc_cache size dma ≡ some (i + (if dma then 8 else 0)))
      × (i < 8)
      × (size ≤ class_size i)
      × ((i ≡ 0) ⊎ (class_size (i - 1) < size))
unfolding kmalloc_cache
kmalloc_cache_least size dma h g =
    let (best, top) = size_class-IsLeast 8 0 size (omega arith) in
    let chosen : kmalloc_cache size dma ≡ some (size_class 8 0 32 size + (if dma then 8 else 0)) =
      ground arith in
    (
      size_class 8 0 32 size,
      chosen,
      one_of_8 (size_class 8 0 32 size) size g top best,
      best.holds,
      best.least,
    )
