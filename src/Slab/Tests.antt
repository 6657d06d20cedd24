-- ===== src/Slab/Tests.antt =====
-- A slab of three objects (mem/slab.cpp), two of which are free.
use synx.Prelude.{ℕ, ended, linked, ◌+◌, ◌*◌, inr, refl, arith, [], ◌∷◌, ◌==◌, if◌then◌else◌}
use synx.Slab.{Slab, Cells, Pages, Heap, take_object, give_object, create_slab}
use synx.Slab.Chains.{Free, AllFree, no_slab, a_slab}
use synx.Slab.Take.{TakeDone, take_object-TakeDone}
use synx.Slab.Give.{object_later, object_here, GiveDone, give_object-GiveDone}
use synx.Slab.NewSlab.{SlabCreated, create_slab-SlabCreated}

abbrev two_free : Slab
two_free = record {
  base = 0x1000;
  free_list = 0x1038;
  obj_size = 16;
  total_objs = 3;
  free_count = 2;
}

-- A slab whose objects are all in use.
abbrev all_used : Slab
all_used = record { base = 0x2000; free_list = 0; obj_size = 16; total_objs = 3; free_count = 0 }

abbrev links : Cells
links x = if x == 0x1038 then 0x1028 else 0

two_free-Free : Free links two_free (0x1038 ∷ 0x1028 ∷ [])
two_free-Free = record {
  chain =
      linked 0x1038 (0x1028 ∷ []) (λ e. omega (arith, e))
        (linked 0x1028 [] (λ e. omega (arith, e)) (ended 0 refl));
  slots = (
    record { index = 1; inside = omega arith; starts = refl },
    (record { index = 0; inside = omega arith; starts = refl }, tt),
  );
  distinct = (((λ e. omega (arith, e)), tt), (tt, tt));
  counted = refl;
  sized = omega arith;
}

all_used-Free : Free links all_used []
all_used-Free = record {
  chain = ended 0 refl;
  slots = tt;
  distinct = tt;
  counted = refl;
  sized = omega arith;
}

both-AllFree : AllFree links (all_used ∷ two_free ∷ []) ([] ∷ (0x1038 ∷ 0x1028 ∷ []) ∷ [])
both-AllFree =
    a_slab all_used (two_free ∷ []) [] ((0x1038 ∷ 0x1028 ∷ []) ∷ []) all_used-Free
      (a_slab two_free [] (0x1038 ∷ 0x1028 ∷ []) [] two_free-Free no_slab)

take_object-TakeDone_example :
    TakeDone links ([] ∷ (0x1038 ∷ 0x1028 ∷ []) ∷ []) (take_object links (all_used ∷ two_free ∷ []))
take_object-TakeDone_example =
    take_object-TakeDone links (all_used ∷ two_free ∷ []) ([] ∷ (0x1038 ∷ 0x1028 ∷ []) ∷ [])
      both-AllFree

give_object-GiveDone_example :
    GiveDone 0x1048 links
      ([] ∷ (0x1038 ∷ 0x1028 ∷ []) ∷ [])
      (give_object 0x1048 links (all_used ∷ two_free ∷ []))
give_object-GiveDone_example =
    give_object-GiveDone 0x1048 links (all_used ∷ two_free ∷ []) ([] ∷ (0x1038 ∷ 0x1028 ∷ []) ∷ [])
      both-AllFree ((inr (omega arith), tt), (tt, tt))
      (object_later all_used (two_free ∷ [])
        (object_here two_free [] (record { index = 2; inside = omega arith; starts = refl })))

-- Pages are handed out at 0x10000 and never used again.
abbrev upward : Pages ℕ
upward = record {
  alloc_pages = λ count next. (next, next + count * 0x1000);
  free_pages = λ address count next. next;
}

abbrev small_heap : Heap ℕ
small_heap = record {
  caches = [] ∷ [] ∷ [] ∷ [] ∷ [] ∷ [] ∷ [] ∷ [] ∷ [] ∷ [];
  cells = links;
  pages = 0x10000;
}

create_slab-SlabCreated_example : SlabCreated upward 8 small_heap (create_slab upward 8 small_heap)
create_slab-SlabCreated_example = create_slab-SlabCreated upward 8 small_heap
