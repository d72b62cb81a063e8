-- ===== src/Heap/Tests.antt =====
-- Runs of the heap calls at concrete inputs.
use wei_os.Common.{refl, [], arith}
use wei_os.Heap.{Heap}
use wei_os.Heap.Break.{IsValid}

-- A process of two pages with a heap of one page.
abbrev small : Heap
small = record { heap_ptr = 12288; base_mem_sz = 8000; removed = [] }

small-IsValid : IsValid small
small-IsValid = record { aligned = refl; low = omega arith; high = omega arith }
