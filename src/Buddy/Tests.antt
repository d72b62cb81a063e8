-- ===== src/Buddy/Tests.antt =====
-- Runs of the buddy system at concrete inputs.
use wei_os.Common.{length, ℕ, ◌+◌, ◌≡◌, refl, true, [], ◌∷◌, ◌==◌, if◌then◌else◌, arith, nodup}
use wei_os.Buddy.{Zone, rmqueue, search_area, memlevel, block_size}
use wei_os.Buddy.Count.{IsCounted}
use wei_os.Buddy.Handout.{rmqueue-IsCounted, covers, in_block}

-- A zone with one free block, of four pages.
abbrev four_pages : Zone
four_pages = record {
  private_of = λ p. if p == 8 then 2 else 13;
  ref_of = λ p. 0;
  free_list = λ o. if o == 2 then 8 ∷ [] else [];
  nr_free = λ o. if o == 2 then 1 else 0;
  free_pages = 4;
}

four_pages_counted : (o : ℕ) → four_pages.nr_free o ≡ length (four_pages.free_list o)
four_pages_counted o = ground arith

four_pages_once : (o : ℕ) → nodup (four_pages.free_list o) ≡ true
four_pages_once o = ground arith

rmqueue-IsCounted_example :
    (z' : Zone) × (IsCounted memlevel z'
      × (z'.free_pages + block_size 0 ≡ 4)
      × ((p : ℕ)
          → covers memlevel z'.free_list p + in_block 0 8 p
            ≡ covers memlevel four_pages.free_list p))
unfolding rmqueue search_area
rmqueue-IsCounted_example = (
  _,
  rmqueue-IsCounted 0 8 four_pages _ (omega arith)
      (record { total = refl; each = four_pages_counted }) four_pages_once refl,
)

-- A zone whose second block of 1024 pages is free.
abbrev upper_half : Zone
upper_half = record {
  private_of = λ p. if p == 1024 then 10 else 13;
  ref_of = λ p. 0;
  free_list = λ o. if o == 10 then 1024 ∷ [] else [];
  nr_free = λ o. if o == 10 then 1 else 0;
  free_pages = 1024;
}
