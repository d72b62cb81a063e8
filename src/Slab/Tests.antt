-- ===== src/Slab/Tests.antt =====
-- Runs of the object caches at concrete inputs.
use wei_os.Common.{[], ◌∷◌, ◌==◌, if◌then◌else◌}
use wei_os.Slab.{Cache}

-- Slab 1 is full, slab 2 has one free object.
abbrev two_slabs : Cache
two_slabs = record {
  n_objs = 2;
  slabs = λ s.
      if s == 1
      then record { n_inuse = 2; free_obj = 65535; objs_desc = λ i. 65535 }
      else record { n_inuse = 1; free_obj = 1; objs_desc = λ i. 65535 };
  partitial = [];
  empty = 1 ∷ 2 ∷ [];
  free_objects = 1;
}
