-- ===== src/Paging/Tests.antt =====
-- Runs of the page table operations at concrete inputs.
use wei_os.Common.{[], ◌∷◌, ◌&&◌, true, refl, ◌==◌, arith, if◌then◌else◌}
use wei_os.Paging.Translate.{page_insert-Mapped, Mapped, IsValid}
use wei_os.Paging.{no_entry, pgdir_walk, Memory, page_insert}

-- The directory has one table, in frame 5, which maps the address 8192 to frame 9.
abbrev one_table : Memory
one_table = record {
  pgdir = λ i. if i == 0 then record { frame = 5; present = true; perm = 7 } else no_entry;
  table =
      λ t k. if t == 5 && k == 2 then record { frame = 9; present = true; perm = 7 } else no_entry;
  p_ref = λ p. 1;
  fresh = 6 ∷ [];
  freed = [];
  npages_num = 100;
}

one_table-IsValid : IsValid one_table
one_table-IsValid = record {
  own = λ i j. ground arith;
  unused = λ i. ground arith;
  distinct = refl;
}

page_insert-Mapped_example : Mapped 11 8192 one_table (page_insert 11 8192 7 one_table).1
unfolding page_insert pgdir_walk
page_insert-Mapped_example = page_insert-Mapped 11 8192 7 one_table one_table-IsValid refl refl
