-- ===== src/Buddy.antt =====
-- The buddy system of kern/buddy.c: the free lists of a zone. A page is its index in the zone, a
-- free list the list of the first pages of its blocks. The arrays indexed by an order are functions
-- on every order, so that a write behind MEMLEVEL is seen.
pub mod Count
pub mod Handout
pub mod Merge
mod Tests
use wei_os.Common.{
  ℕ, zero, suc, ◌+◌, ◌-◌, ◌*◌, Bool, true, false, ◌&&◌, Option, none, some, List, [], ◌∷◌, ◌==◌,
  ltb, if◌then◌else◌, unlink, test_bit, set_bit, clear_bit,
}

abbrev pub memlevel : ℕ
memlevel = 11

abbrev pub in_buddy : ℕ
in_buddy = 12

abbrev pub out_of_buddy : ℕ
out_of_buddy = 13

-- `1 << order`.
abbrev pub block_size : ℕ → ℕ
block_size zero = 1
block_size (suc k) = block_size k + block_size k

-- `p_private` and `p_ref` of the pages, `free_area` and `free_pages` of the zone.
pub record Zone : Type 0 where
  pub private_of : ℕ → ℕ
  pub ref_of : ℕ → ℕ
  pub free_list : ℕ → List ℕ
  pub nr_free : ℕ → ℕ
  pub free_pages : ℕ

abbrev pub update {ℓ} : {A : Type ℓ} → (ℕ → A) → ℕ → A → ℕ → A
update f i a j = if i == j then a else f j

-- `list_add` to the list of an order, with its count and the page's mark.
abbrev pub put_block : ℕ → ℕ → Zone → Zone
put_block page order z = record z {
  free_list = update z.free_list order (page ∷ z.free_list order);
  nr_free = update z.nr_free order (z.nr_free order + 1);
  private_of = update z.private_of page order;
}

-- The removal of a page from the list of an order; it keeps a mark.
abbrev pub take_block : ℕ → ℕ → ℕ → Zone → Zone
take_block page order mark z = record z {
  free_list = update z.free_list order (unlink page (z.free_list order));
  nr_free = update z.nr_free order (z.nr_free order - 1);
  private_of = update z.private_of page mark;
}

-- The second loop of `__rmqueue`, from order `order + k` down: the upper halves are given back.
unfoldable pub split : ℕ → ℕ → ℕ → Zone → Zone
split page order zero z = z
split page order (suc k) z =
    split page order k (put_block (page + block_size (order + k)) (order + k) z)

-- The first loop of `__rmqueue` at order `order + k`, with `n` orders left.
unfoldable pub search_area : ℕ → ℕ → ℕ → Zone → Option (ℕ × Zone)
unfolding split
search_area zero order k z = none
search_area (suc n) order k z =
    let later = search_area n order (k + 1) z in
    elim (z.free_list (order + k)) [
      | [] ↦ later
      | page ∷ rest ↦
          let z' = take_block page (order + k) out_of_buddy z in
          some
            (page, split page order k (record z' { free_pages = z.free_pages - block_size order }))
    ]

unfoldable pub rmqueue : Zone → ℕ → Option (ℕ × Zone)
unfolding search_area
rmqueue z order = search_area (memlevel - order) order 0 z

unfoldable pub page_is_buddy : ℕ → ℕ → Zone → Bool
page_is_buddy buddy order z = z.private_of buddy == order && z.ref_of buddy == 0

-- `page_idx ^ (1 << order)`.
abbrev pub buddy_of : ℕ → ℕ → ℕ
buddy_of page order = if test_bit page order then clear_bit page order else set_bit page order

-- The loop of `__free_pages_bulk` with `n` orders left; it ends with a block and its order. The
-- lower of two buddies, `page_idx & buddy_idx`, has the bit of the order clear.
unfoldable pub merge : ℕ → ℕ → ℕ → Zone → ℕ × ℕ × Zone
unfolding page_is_buddy
merge zero page order z = (page, order, z)
merge (suc n) page order z =
    let buddy = buddy_of page order in
    let rest = merge n (clear_bit page order) (order + 1) (take_block buddy order in_buddy z) in
    if page_is_buddy buddy order z then rest else (page, order, z)

unfoldable pub free_pages_bulk_one : ℕ → Zone → ℕ → Zone
unfolding merge
free_pages_bulk_one page z order =
    let (coalesced, level, z') = merge (memlevel - order) page order z in
    let z'' = put_block coalesced level z' in
    record z'' { free_pages = z''.free_pages + block_size order }

-- `free_pages_bulk` of the last pages of a list: it takes `n` of them from its end, here given in
-- that order. What it leaves of the list comes with the zone.
unfoldable pub free_pages_bulk : ℕ → List ℕ → Zone → List ℕ × Zone
unfolding free_pages_bulk_one
free_pages_bulk zero pages z = (pages, z)
free_pages_bulk (suc n) [] z = ([], z)
free_pages_bulk (suc n) (page ∷ pages) z =
    free_pages_bulk n pages
      (free_pages_bulk_one page (record z { ref_of = update z.ref_of page 0 }) 0)
