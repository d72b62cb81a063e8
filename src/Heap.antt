-- ===== src/Heap.antt =====
-- `sbrk` and `brk` of kern/sysfunc.c: the heap of a process. Addresses and sizes are 32-bit words;
-- a word from 2 ^ 31 on is a negative `int`.
pub mod Break
mod Tests
use wei_os.Common.{
  ℕ, zero, suc, ◌+◌, ◌-◌, ◌*◌, ◌/◌, ◌%◌, ◌^◌, Bool, true, false, ◌&&◌, ◌||◌, List, [], ◌∷◌, ◌++◌,
  ◌==◌, ltb, leb, if◌then◌else◌,
}

abbrev pub pgsize : ℕ
pgsize = 4096

abbrev pub heaptop : ℕ
heaptop = 3221225472

-- The fields of `struct proc` for the heap, and the pages that were removed, the last one first.
pub record Heap : Type 0 where
  pub heap_ptr : ℕ
  pub base_mem_sz : ℕ
  pub removed : List ℕ

abbrev pub rounddown : ℕ → ℕ
rounddown a = a - a % pgsize

abbrev pub roundup : ℕ → ℕ
roundup a = rounddown ((a + (pgsize - 1)) % 2 ^ 32)

-- The loop of `sbrk` from address `a` on.
unfoldable pub remove_up : ℕ → ℕ → List ℕ → List ℕ
remove_up zero a gone = gone
remove_up (suc k) a gone = remove_up k (a + pgsize) (a ∷ gone)

-- The arms of `sbrk` for a negative and for a positive size.
unfoldable pub shrink : ℕ → Heap → ℕ × Heap
unfolding remove_up
shrink n p =
    let real_n = n % (2 ^ 31 - 1) in
    let end_addr = rounddown ((p.heap_ptr + 2 ^ 32 - real_n) % 2 ^ 32) in
    if ltb end_addr (roundup p.base_mem_sz) then (0, p) else (
      end_addr,
      record p {
        heap_ptr = end_addr;
        removed = remove_up ((p.heap_ptr - end_addr + (pgsize - 1)) / pgsize) end_addr p.removed;
      },
    )

unfoldable pub grow : ℕ → Heap → ℕ × Heap
grow n p =
    let end_addr = (p.heap_ptr + roundup n) % 2 ^ 32 in
    if ltb heaptop end_addr || ltb end_addr p.heap_ptr
    then (0, p)
    else (end_addr, record p { heap_ptr = (p.heap_ptr + end_addr) % 2 ^ 32 })

unfoldable pub sbrk : ℕ → Heap → ℕ × Heap
unfolding shrink grow
sbrk n p = if leb (2 ^ 31) n then shrink n p else if ltb 0 n then grow n p else (p.heap_ptr, p)

-- The loop of `brk`, for `k` pages.
unfoldable pub remove_down : ℕ → Heap → Heap
remove_down zero p = p
remove_down (suc k) p =
    remove_down k
      (record p { heap_ptr = p.heap_ptr - pgsize; removed = (p.heap_ptr - pgsize) ∷ p.removed })

-- The result 1 stands for -1.
unfoldable pub brk : ℕ → Heap → ℕ × Heap
unfolding remove_down
brk heap_break p =
    if ltb p.heap_ptr heap_break
    then (let up = roundup heap_break in
        if leb up heaptop then (0, record p { heap_ptr = up }) else (1, p))
    else if ltb heap_break p.heap_ptr
    then (let down = rounddown heap_break in
        if ltb down (roundup p.base_mem_sz)
        then (1, p)
        else (0, remove_down ((p.heap_ptr - down + (pgsize - 1)) / pgsize) p))
    else (0, p)
