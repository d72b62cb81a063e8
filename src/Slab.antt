-- ===== src/Slab.antt =====
-- The object caches of kern/slab.c and the size classes of kern/kmalloc.c. A slab has a number, an
-- object its index in its slab; the page allocator's answer is an argument of `cache_grow`.
pub mod Classes
pub mod Objects
mod Tests
use wei_os.Common.{
  ℕ, zero, suc, ◌+◌, ◌-◌, ◌*◌, ◌/◌, Bool, true, false, ◌||◌, Option, none, some, List, [], ◌∷◌,
  ◌++◌, ◌==◌, ltb, leb, if◌then◌else◌, unlink,
}

abbrev pub slab_size : ℕ
slab_size = 4096

abbrev pub bufctl_end : ℕ
bufctl_end = 65535

abbrev pub n_kmem_cache : ℕ
n_kmem_cache = 16

-- The loop of `kmalloc` over the sizes 32, 64, ... with `k` classes left.
unfoldable pub size_class : ℕ → ℕ → ℕ → ℕ → ℕ
size_class zero idx tmp_size size = idx
size_class (suc k) idx tmp_size size =
    let larger = size_class k (suc idx) (tmp_size * 2) size in
    if ltb tmp_size size then larger else idx

-- The index of the cache of `kmalloc`; `none` is its null pointer.
unfoldable pub kmalloc_cache : ℕ → Bool → Option ℕ
unfolding size_class
kmalloc_cache size dma =
    if ltb slab_size size || size == 0
    then none
    else some (size_class 8 0 32 size + (if dma then n_kmem_cache / 2 else 0))

-- `n_objs_per_slab` of `kmem_cache_init`.
unfoldable pub objs_per_slab : ℕ → ℕ
objs_per_slab obj_size =
    if ltb obj_size 512 then slab_size / (obj_size + 2) else slab_size / obj_size

-- `struct slab`: the descriptors are the chain of its free objects, whose head is `free_obj`.
pub record Slab : Type 0 where
  pub n_inuse : ℕ
  pub free_obj : ℕ
  pub objs_desc : ℕ → ℕ

-- `kmem_cache_t` with its lists of slabs; the last slab of a list comes first.
pub record Cache : Type 0 where
  pub n_objs : ℕ
  pub slabs : ℕ → Slab
  pub partitial : List ℕ
  pub empty : List ℕ
  pub free_objects : ℕ

abbrev pub update {ℓ} : {A : Type ℓ} → (ℕ → A) → ℕ → A → ℕ → A
update f i a j = if i == j then a else f j

-- The slab of a new page.
abbrev pub fresh_slab : ℕ → Slab
fresh_slab n = record {
  n_inuse = 0;
  free_obj = 0;
  objs_desc = λ i. if i + 1 == n then bufctl_end else i + 1;
}

-- `cache_grow` of a normal cache, with the number of the new slab, or `none` without a page.
unfoldable pub cache_grow : Option ℕ → Cache → Option (ℕ × Cache)
cache_grow page c = elim page [
  | none ↦ none
  | some sl ↦ some (
    sl,
    record c {
      slabs = update c.slabs sl (fresh_slab c.n_objs);
      empty = sl ∷ c.empty;
      free_objects = c.free_objects + c.n_objs;
    },
  )
]

-- The search among the partial slabs.
unfoldable pub find_partial : List ℕ → Cache → Option ℕ
find_partial [] c = none
find_partial (sl ∷ rest) c =
    let later = find_partial rest c in
    if (c.slabs sl).free_obj == bufctl_end then later else some sl

-- From the label `find_slab` on: the object that the slab's chain begins with.
unfoldable pub take_object : ℕ → Cache → ℕ × ℕ × Cache
take_object sl c =
    let r = c.slabs sl in
    (
      sl,
      r.free_obj,
      record c {
        slabs =
            update c.slabs sl
              (record r { free_obj = r.objs_desc r.free_obj; n_inuse = r.n_inuse + 1 });
        free_objects = c.free_objects - 1;
      },
    )

-- `kmem_cache_alloc`: a slab, an object of it and the cache. When there are free objects and no partial
-- slab has one, it takes the last slab of `slabs_empty`, or what stands in place of one.
pub data Allocated : Type 0 where
  no_memory : Allocated
  object : ℕ × ℕ × Cache → Allocated
  list_head : Allocated

unfoldable pub kmem_cache_alloc : Option ℕ → Cache → Allocated
unfolding find_partial take_object cache_grow
kmem_cache_alloc page c =
    if ltb 0 c.free_objects
    then elim (find_partial c.partitial c) [
      | some sl ↦ object (take_object sl c)
      | none ↦ elim c.empty [ [] ↦ list_head | sl ∷ rest ↦ object (take_object sl c) ]
    ]
    else elim (cache_grow page c) [ none ↦ no_memory | some (sl, c') ↦ object (take_object sl c') ]

-- `slab_destroy` on the lists; the page goes back to the page allocator.
unfoldable pub slab_destroy : ℕ → Cache → Cache
slab_destroy sl c = record c {
  partitial = unlink sl c.partitial;
  empty = unlink sl c.empty;
  free_objects = c.free_objects - (c.n_objs - (c.slabs sl).n_inuse);
}

unfoldable pub kmem_cache_free : ℕ → ℕ → Cache → Cache
unfolding slab_destroy
kmem_cache_free sl obj_index c =
    let r = c.slabs sl in
    let r' = record r {
      objs_desc = update r.objs_desc obj_index r.free_obj;
      free_obj = obj_index;
      n_inuse = r.n_inuse - 1;
    } in
    let c' = record c { slabs = update c.slabs sl r'; free_objects = c.free_objects + 1 } in
    if r'.n_inuse == 0 then slab_destroy sl c' else c'
