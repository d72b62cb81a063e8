-- ===== src/Heap/Break.antt =====
-- What `brk` and `sbrk` of kern/sysfunc.c make of the end of the heap.
use mathlib.Core.Path.{subst}
use wei_os.Common.{
  sym, ap, inl, inr, Bool-cases, leb, refl, ◌/◌, ◌+◌, false, ap, ℕ, zero, suc, ◌+◌, ◌-◌, ◌*◌, ◌/◌,
  ◌%◌, ◌^◌, ◌<◌, ◌≤◌, ◌≡◌, ◌≢◌, ◌⊎◌, inl, inr, refl, sym, false, ◌∷◌, ltb, leb, if◌then◌else◌,
  arith, Bool-cases,
}
use wei_os.Heap.{Heap, pgsize, heaptop, rounddown, roundup, remove_down, brk, sbrk, grow, shrink}

-- The heap ends at a page boundary, not below the program and not above HEAPTOP.
pub record IsValid (p : Heap) : Type 0 where
  pub aligned : p.heap_ptr % pgsize ≡ 0
  pub low : roundup p.base_mem_sz ≤ p.heap_ptr
  pub high : p.heap_ptr ≤ heaptop

remove_down_lem :
    (k : ℕ) (p : Heap)
    → k * pgsize ≤ p.heap_ptr
    → ((remove_down k p).heap_ptr ≡ p.heap_ptr - k * pgsize)
      × ((remove_down k p).base_mem_sz ≡ p.base_mem_sz)
unfolding remove_down
remove_down_lem zero p h = (omega arith, refl)
remove_down_lem (suc k) p h =
    let (end, same) =
      remove_down_lem k
        (record p { heap_ptr = p.heap_ptr - pgsize; removed = (p.heap_ptr - pgsize) ∷ p.removed })
        (omega arith) in
    (omega arith, same)

-- What `brk` gives is well formed, and ends where it was asked to.
abbrev Reaches : ℕ → Heap → ℕ × Heap → Type 0
Reaches b p r =
    IsValid r.1
    × ((r.0 ≡ 1) ⊎ (r.1.heap_ptr ≡ (if ltb p.heap_ptr b then roundup b else rounddown b)))

brk_down : (b : ℕ) (p : Heap) → ltb p.heap_ptr b ≡ false → IsValid p → Reaches b p (brk b p)
unfolding brk
brk_down b p below v = elim (Bool-cases (ltb b p.heap_ptr)) [
  | inr same ↦
      let aligned = v.aligned in
      let run : brk b p ≡ (0, p) = ground arith in
      let end : p.heap_ptr ≡ rounddown b = ground arith in
      subst (Reaches b p) (sym run) (v, inr (ground arith))
  | inl under ↦ elim (Bool-cases (ltb (rounddown b) (roundup p.base_mem_sz))) [
    | inl low ↦
        let run : brk b p ≡ (1, p) = ground arith in subst (Reaches b p) (sym run) (v, inl refl)
    | inr fits ↦
        let aligned = v.aligned in
        let high = v.high in
        let k = (p.heap_ptr - rounddown b + (pgsize - 1)) / pgsize in
        let run : brk b p ≡ (0, remove_down k p) = ground arith in
        let (end, same) = remove_down_lem k p (ground arith) in
        let there : (remove_down k p).heap_ptr ≡ rounddown b = ground arith in
        let base = ap roundup same in
        subst (Reaches b p) (sym run) (
          record { aligned = ground arith; low = ground arith; high = ground arith },
          inr (ground arith),
        )
  ]
]

-- `brk` of an address that does not lie in the last page of the address space keeps the heap well
-- formed, and when it returns 0 the heap ends at that address, rounded up when it grows and down
-- when it shrinks.
pub brk-IsValid :
    (b : ℕ) (p : Heap)
    → b + pgsize ≤ 2 ^ 32
    → IsValid p
    → IsValid (brk b p).1
      × (((brk b p).0 ≡ 1)
          ⊎ ((brk b p).1.heap_ptr ≡ (if ltb p.heap_ptr b then roundup b else rounddown b)))
unfolding brk
brk-IsValid b p h v = elim (Bool-cases (ltb p.heap_ptr b)) [
  | inl above ↦ elim (Bool-cases (leb (roundup b) heaptop)) [
    | inl fits ↦
        let low = v.low in
        let run : brk b p ≡ (0, record p { heap_ptr = roundup b }) = ground arith in
        subst (Reaches b p) (sym run) (
          record { aligned = omega arith; low = ground arith; high = ground arith },
          inr (ground arith),
        )
    | inr over ↦
        let run : brk b p ≡ (1, p) = ground arith in subst (Reaches b p) (sym run) (v, inl refl)
  ]
  | inr below ↦ brk_down b p below v
]

-- `brk` of an address in the last page of the address space, page boundary excluded, succeeds and
-- sets the end of the heap to 0.
pub brk_wraps :
    (b : ℕ) (p : Heap)
    → 2 ^ 32 < b + pgsize
    → b < 2 ^ 32
    → IsValid p
    → ((brk b p).0 ≡ 0) × ((brk b p).1.heap_ptr ≡ 0)
unfolding brk
brk_wraps b p h g v = let high = v.high in ground arith

-- After `sbrk` has granted an area that ends at an address, `sbrk 0` gives another address as the end
-- of the heap, when the heap was not at 0: `sbrk` adds the end to the old end.
pub sbrk-sbrk_zero :
    (n : ℕ) (p : Heap)
    → 0 < n
    → n < 2 ^ 31
    → 0 < p.heap_ptr
    → p.heap_ptr < 2 ^ 32
    → (sbrk n p).0 ≢ 0
    → (sbrk 0 (sbrk n p).1).0 ≢ (sbrk n p).0
unfolding sbrk grow
sbrk-sbrk_zero n p h g low high ok = ground arith

-- `sbrk` of `-k` moves the end of the heap down by 2 ^ 31 + 1 - k bytes and not by `k`, or fails.
pub sbrk_negative :
    (k : ℕ) (p : Heap)
    → 2 < k
    → k < 2 ^ 30
    → p.heap_ptr < 2 ^ 32
    → ((sbrk (2 ^ 32 - k) p).0 ≡ 0)
      ⊎ ((sbrk (2 ^ 32 - k) p).1.heap_ptr
          ≡ rounddown ((p.heap_ptr + 2 ^ 32 - (2 ^ 31 + 1 - k)) % 2 ^ 32))
unfolding sbrk shrink
sbrk_negative k p h g i = ground arith
