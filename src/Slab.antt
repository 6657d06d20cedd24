-- ===== src/Slab.antt =====
-- mem/slab.cpp: the allocator of small objects. The headers of the slabs are records; the links of the
-- free objects, and the header of a large object, are cells of memory, each of a pointer's size.
pub mod Chains
pub mod Create
pub mod NewSlab
pub mod Take
pub mod Give
mod Tests
use synx.Prelude.{
  ℕ, zero, suc, ◌+◌, ◌-◌, ◌*◌, ◌/◌, ◌%◌, ◌^◌, Bool, true, false, not, ◌&&◌, ◌||◌, List, [], ◌∷◌,
  Option, none, some, ◌==◌, ltb, leb, if◌then◌else◌, get_or, set,
}
use synx.Pmm.{page_size}

-- `sizeof(SlabHeader)`
abbrev pub slab_header_size : ℕ
slab_header_size = 40

abbrev pub large_obj_header_size : ℕ
large_obj_header_size = 16

abbrev pub slab_size_max : ℕ
slab_size_max = 4096

abbrev pub num_slab_caches : ℕ
num_slab_caches = 9

abbrev pub null : ℕ
null = 0

-- A slab at the address `base`.
pub record Slab : Type 0 where
  pub base : ℕ
  pub free_list : ℕ
  pub obj_size : ℕ
  pub total_objs : ℕ
  pub free_count : ℕ

abbrev pub Cells : Type 0
Cells = ℕ → ℕ

unfoldable pub store : Cells → (at value : ℕ) → Cells
store cells at value x = if at == x then value else cells x

-- The allocator of pages of mem/kmemory.cpp, at addresses of the kernel; 0 is a failure.
pub record Pages (S : Type 0) : Type 0 where
  pub alloc_pages : (count : ℕ) → S → ℕ × S
  pub free_pages : (address count : ℕ) → S → S

-- `slab_caches`: for each size the slabs, the newest first.
pub record Heap (S : Type 0) : Type 0 where
  pub caches : List (List Slab)
  pub cells : Cells
  pub pages : S

-- The result of an operation, or a call of `kernel_panic`.
pub data Outcome {ℓ} (A : Type ℓ) : Type ℓ where
  done : A → Outcome A
  panic : Outcome A

-- The loop of `size_to_index`, with `left` sizes above `s` left.
unfoldable pub index_loop : (left s idx size : ℕ) → ℕ
index_loop zero s idx size = idx
index_loop (suc left) s idx size =
    let rest = index_loop left (s * 2) (idx + 1) size in if ltb s size then rest else idx

unfoldable pub size_to_index : (size : ℕ) → ℕ
size_to_index size = if leb size 16 then 0 else index_loop (num_slab_caches - 1) 16 0 size

unfoldable pub index_to_size : (idx : ℕ) → ℕ
index_to_size idx = 16 * 2 ^ idx

-- The loop of `create_slab` that adds pages until four objects fit: the count of the pages. Each round
-- adds a page, so as many rounds as bytes are wanted are enough.
unfoldable pub pages_loop : (fuel slab_pages wanted : ℕ) → ℕ
pages_loop zero slab_pages wanted = slab_pages
pages_loop (suc fuel) slab_pages wanted =
    let rest = pages_loop fuel (slab_pages + 1) wanted in
    if ltb (slab_pages * page_size) wanted then rest else slab_pages

-- The object `i` of a slab.
abbrev pub slot : Slab → (i : ℕ) → ℕ
slot slab i = slab.base + slab_header_size + i * slab.obj_size

-- The loop that links the objects from `i` on, `left` of them: the cells and the free list.
unfoldable pub link_objects : Slab → (left i : ℕ) → Cells → (free_list : ℕ) → Cells × ℕ
link_objects slab zero i cells free_list = (cells, free_list)
link_objects slab (suc left) i cells free_list =
    link_objects slab left (i + 1) (store cells (slot slab i) free_list) (slot slab i)

-- `memset` with 0.
unfoldable pub cleared : Cells → (virt size : ℕ) → Cells
cleared cells virt size x = if leb virt x && ltb x (virt + size) then 0 else cells x

-- The slab that `create_slab` makes in the pages at `virt`.
unfoldable pub fresh_slab : (virt slab_pages obj_size : ℕ) → Cells → Slab × Cells
fresh_slab virt slab_pages obj_size cells =
    let total = (slab_pages * page_size - slab_header_size) / obj_size in
    let empty : Slab = record {
      base = virt;
      free_list = null;
      obj_size = obj_size;
      total_objs = total;
      free_count = total;
    } in
    let (linked, first) =
      link_objects empty total 0 (cleared cells virt (slab_pages * page_size)) null in
    (record empty { free_list = first }, linked)

-- What the search for a free object in the slabs of a size gives: the object and the slabs after it.
pub data Taken : Type 0 where
  taken : (object : ℕ) → List Slab → Taken
  full : Taken

-- `slab->free_list = *(void**)obj; slab->free_count--;`
abbrev pub pop : Cells → Slab → Slab
pop cells slab = record slab { free_list = cells slab.free_list; free_count = slab.free_count - 1 }

-- The loop of `alloc` over the slabs.
unfoldable pub take_object : Cells → List Slab → Outcome Taken
take_object cells [] = done full
take_object cells (slab ∷ slabs) =
    let start = slab.base + slab_header_size in
    let rest = take_object cells slabs in
    if ltb 0 slab.free_count
    then (if ltb slab.free_list start
          || leb (start + slab.total_objs * slab.obj_size) slab.free_list
        then panic
        else done (taken slab.free_list (pop cells slab ∷ slabs)))
    else (elim rest [
      | panic ↦ panic
      | done full ↦ done full
      | done (taken object slabs') ↦ done (taken object (slab ∷ slabs'))
    ])

-- The walk of `free` over the free list, with fuel: whether `ptr` is in it; none if it does not end, as
-- in a list that is not well formed.
unfoldable pub in_free_list : (fuel : ℕ) → Cells → (current ptr : ℕ) → Option Bool
in_free_list zero cells current ptr = none
in_free_list (suc fuel) cells current ptr =
    let rest = in_free_list fuel cells (cells current) ptr in
    if current == null then some false else if current == ptr then some true else rest

-- What the search for the slab of an object gives: the slabs and cells after it.
pub data Given : Type 0 where
  given : List Slab → Cells → Given
  not_found : Given

abbrev pub push : Slab → (ptr : ℕ) → Slab
push slab ptr = record slab { free_list = ptr; free_count = slab.free_count + 1 }

-- The loop of `free` over the slabs. A free list has as many objects as its slab counts; the walk over a
-- longer one, which the code would go on with, is cut off and taken for a panic.
unfoldable pub give_object : (ptr : ℕ) → Cells → List Slab → Outcome Given
give_object ptr cells [] = done not_found
give_object ptr cells (slab ∷ slabs) =
    let rest = give_object ptr cells slabs in
    if leb slab.base ptr && ltb ptr (slab.base + slab_header_size + slab.total_objs * slab.obj_size)
    then (elim (in_free_list (slab.free_count + 1) cells slab.free_list ptr) [
      | some false ↦ done (given (push slab ptr ∷ slabs) (store cells ptr slab.free_list))
      | _ ↦ panic
    ])
    else (elim rest [
      | panic ↦ panic
      | done not_found ↦ done not_found
      | done (given slabs' cells') ↦ done (given (slab ∷ slabs') cells')
    ])

module _ {S : Type 0} (pmm : Pages S) where
  -- `create_slab`: false for the null pointer.
  unfoldable pub create_slab : (cache_idx : ℕ) → Heap S → Bool × Heap S
  create_slab cache_idx h =
      let obj_size = index_to_size cache_idx in
      let wanted = slab_header_size + obj_size * 4 in
      let slab_pages = pages_loop wanted 1 wanted in
      let (virt, s) = pmm.alloc_pages slab_pages h.pages in
      let (slab, cells) = fresh_slab virt slab_pages obj_size h.cells in
      let slabs = slab ∷ get_or h.caches cache_idx [] in
      if virt == null
      then (false, record h { pages = s })
      else (true, record { caches = set h.caches cache_idx slabs; cells = cells; pages = s })

  -- The loop of `init`, with `left` caches to make from `i` on.
  unfoldable pub init_loop : (left i : ℕ) → Heap S → Outcome (Heap S)
  init_loop zero i h = done h
  init_loop (suc left) i h =
      let (made, h') = create_slab i h in
      let rest = init_loop left (i + 1) h' in if not made then panic else rest

  unfoldable pub init : Heap S → Outcome (Heap S)
  init h = init_loop num_slab_caches 0 h

  -- The part of `alloc` for large objects.
  unfoldable pub alloc_large : (size : ℕ) → Heap S → ℕ × Heap S
  alloc_large size h =
      let needed = (size + page_size - 1) % 2 ^ 64 / page_size + 1 in
      let (virt, s) = pmm.alloc_pages needed h.pages in
      if virt == null then (null, record h { pages = s }) else (
        virt + large_obj_header_size,
        record h { pages = s; cells = store (store h.cells virt needed) (virt + 8) size },
      )

  -- The end of `alloc`, after `create_slab`: the first object of the new slab.
  unfoldable pub alloc_new : (idx : ℕ) → Heap S → ℕ × Heap S
  alloc_new idx h =
      let (made, h') = create_slab idx h in
      if not made then (null, h') else (elim (get_or h'.caches idx []) [
        | [] ↦ (null, h')
        | slab ∷ slabs ↦
            (slab.free_list, record h' { caches = set h'.caches idx (pop h'.cells slab ∷ slabs) })
      ])

  unfoldable pub alloc : (size : ℕ) → Heap S → Outcome (ℕ × Heap S)
  alloc size h =
      let idx = size_to_index size in
      if size == 0
      then done (null, h)
      else if ltb slab_size_max size
      then done (alloc_large size h)
      else (elim (take_object h.cells (get_or h.caches idx [])) [
        | panic ↦ panic
        | done full ↦ done (alloc_new idx h)
        | done (taken object slabs) ↦ done (object, record h { caches = set h.caches idx slabs })
      ])

  -- The part of `free` for large objects. One of more than 1024 pages is kept.
  unfoldable pub free_large : (ptr : ℕ) → Heap S → Heap S
  free_large ptr h =
      let header = ptr - large_obj_header_size in
      if h.cells header == 0 || ltb 1024 (h.cells header)
      then h
      else record h { pages = pmm.free_pages header (h.cells header) h.pages }

  unfoldable pub free : (ptr size : ℕ) → Heap S → Outcome (Heap S)
  free ptr size h =
      let idx = size_to_index size in
      if ptr == null
      then done h
      else if leb size slab_size_max && ltb 0 size
      then (elim (give_object ptr h.cells (get_or h.caches idx [])) [
        | panic ↦ panic
        | done not_found ↦ panic
        | done (given slabs cells) ↦
            done (record h { caches = set h.caches idx slabs; cells = cells })
      ])
      else done (free_large ptr h)
