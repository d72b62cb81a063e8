-- ===== src/Buddy/Merge.antt =====
-- `__free_pages_bulk` of kern/buddy.c at the end of its orders.
use wei_os.Common.{
  ℕ, zero, suc, ◌-◌, ◌<◌, ◌≡◌, refl, true, false, ◌∷◌, ◌==◌, if◌then◌else◌, arith, clear_bit,
}
use wei_os.Buddy.{Zone, memlevel, merge, page_is_buddy, buddy_of, free_pages_bulk_one}

-- Freeing a block of the largest order, 10, whose buddy is free merges the two and puts the result
-- on the list of order MEMLEVEL, which `free_area` does not have: the orders are 0 to MEMLEVEL - 1.
pub free_pages_bulk_one_overflows :
    (page : ℕ) (z : Zone)
    → page_is_buddy (buddy_of page 10) 10 z ≡ true
    → (free_pages_bulk_one page z 10).free_list memlevel ≡ clear_bit page 10 ∷ z.free_list memlevel
unfolding free_pages_bulk_one merge
free_pages_bulk_one_overflows page z h = ground arith

merge_stays :
    (n page order : ℕ) (z : Zone)
    → page_is_buddy (buddy_of page order) order z ≡ false
    → merge n page order z ≡ (page, order, z)
unfolding merge
merge_stays zero page order z h = refl
merge_stays (suc n) page order z h = ground arith

-- `__free_pages_bulk` never merges a block with one that is in use: when the buddy of the freed block is not
-- free at the same order, the block goes on the list of its own order, and no other list changes.
pub free_pages_bulk_one_alone :
    (page order : ℕ) (z : Zone) (o : ℕ)
    → order < memlevel
    → page_is_buddy (buddy_of page order) order z ≡ false
    → (free_pages_bulk_one page z order).free_list o
      ≡ (if order == o then page ∷ z.free_list o else z.free_list o)
unfolding free_pages_bulk_one
free_pages_bulk_one_alone page order z o h b =
    let stays = merge_stays (memlevel - order) page order z b in
    rw (free_pages_bulk_one, stays) (ground arith)
