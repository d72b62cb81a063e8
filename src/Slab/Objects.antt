-- ===== src/Slab/Objects.antt =====
-- The free objects of a slab of kern/slab.c.
use wei_os.Common.{
  ◌∙◌, ap, false, ◌-◌, ◌==◌, ap, ℕ, ◌-◌, ◌<◌, ◌≡◌, false, Option, List, [], ◌∷◌, ◌==◌, arith,
}
use wei_os.Slab.{
  Cache, bufctl_end, kmem_cache_alloc, kmem_cache_free, take_object, find_partial, object,
}

-- An object that `kmem_cache_free` has given back to a slab in use is the next one that is taken
-- from the slab, and then the slab's chain begins where it began before and as many objects are free.
pub kmem_cache_free-take_object :
    (sl i : ℕ) (c : Cache)
    → 1 < (c.slabs sl).n_inuse
    → ((take_object sl (kmem_cache_free sl i c)).1 ≡ i)
      × (((take_object sl (kmem_cache_free sl i c)).2.slabs sl).free_obj ≡ (c.slabs sl).free_obj)
      × (((take_object sl (kmem_cache_free sl i c)).2.slabs sl).n_inuse ≡ (c.slabs sl).n_inuse)
      × ((take_object sl (kmem_cache_free sl i c)).2.free_objects ≡ c.free_objects)
unfolding take_object kmem_cache_free
kmem_cache_free-take_object sl i c h =
    let in_use : ((c.slabs sl).n_inuse - 1 == 0) ≡ false = ground arith in
    (ground arith, ground arith, ground arith, ground arith)

-- When the last slab of `slabs_empty` has no free object left, but some other slab has one, and no
-- slab is partial, `kmem_cache_alloc` hands out the object with the index 0xFFFF of the full slab.
pub kmem_cache_alloc_full :
    (page : Option ℕ) (sl : ℕ) (rest : List ℕ) (c : Cache)
    → 0 < c.free_objects
    → c.partitial ≡ []
    → c.empty ≡ sl ∷ rest
    → (c.slabs sl).free_obj ≡ bufctl_end
    → (after : Cache) × (kmem_cache_alloc page c ≡ object (sl, bufctl_end, after))
unfolding kmem_cache_alloc find_partial take_object
kmem_cache_alloc_full page sl rest c h p e f =
    let run : kmem_cache_alloc page c ≡ object (take_object sl c) = ground arith in
    let taken : take_object sl c ≡ (sl, bufctl_end, (take_object sl c).2) = ground arith in
    ((take_object sl c).2, run ∙ ap object taken)
