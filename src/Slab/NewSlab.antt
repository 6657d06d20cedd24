-- ===== src/Slab/NewSlab.antt =====
-- What `create_slab` (mem/slab.cpp) adds to the slabs of a size.
use synx.Prelude.{
  ℕ, zero, suc, ◌+◌, ◌-◌, ◌*◌, ◌/◌, ◌≤◌, ◌<◌, ◌≡◌, ◌≢◌, ◌⊎◌, inl, inr, refl, arith, ◌∙◌, Bool, true,
  false, [], ◌∷◌, ◌==◌, ltb, leb, ◌&&◌, Bool-cases, get_or, set,
}
use synx.Pmm.{page_size}
use synx.Slab.{
  Slab, Cells, Pages, Heap, null, store, slot, slab_header_size, index_to_size, pages_loop, cleared,
  link_objects, fresh_slab, create_slab,
}
use synx.Slab.Chains.{slot_bound}
use synx.Slab.Create.{pages_loop-le, Fresh, div-mul-le, fresh_slab-Fresh, size-positive}

-- The fewest pages that hold the header and four objects, at least one.
pub record Fewest (obj_size pages : ℕ) : Type 0 where
  pub enough : slab_header_size + obj_size * 4 ≤ pages * page_size
  pub some_page : 1 ≤ pages
  pub fewest : (n : ℕ) → 1 ≤ n → slab_header_size + obj_size * 4 ≤ n * page_size → pages ≤ n

pages_loop-fewest :
    (fuel slab_pages wanted n : ℕ)
    → slab_pages ≤ n
    → wanted ≤ n * page_size
    → pages_loop fuel slab_pages wanted ≤ n
unfolding pages_loop
pages_loop-fewest zero slab_pages wanted n low room = low
pages_loop-fewest (suc fuel) slab_pages wanted n low room =
    elim (Bool-cases (ltb (slab_pages * page_size) wanted)) [
      | inl short ↦
          rw short (pages_loop-fewest fuel (slab_pages + 1) wanted n (ground (arith, short)) room)
      | inr enough ↦ rw enough low
    ]

pages_loop-ge : (fuel slab_pages wanted : ℕ) → slab_pages ≤ pages_loop fuel slab_pages wanted
unfolding pages_loop
pages_loop-ge zero slab_pages wanted = omega arith
pages_loop-ge (suc fuel) slab_pages wanted =
    elim (Bool-cases (ltb (slab_pages * page_size) wanted)) [
      | inl short ↦ rw short (let h = pages_loop-ge fuel (slab_pages + 1) wanted in omega arith)
      | inr enough ↦ rw enough (omega arith)
    ]

-- The linking stores to objects alone.
link_objects-frame :
    (slab : Slab) (left i n : ℕ) (cells : Cells) (first x : ℕ)
    → i + left ≡ n
    → (x < slab.base) ⊎ (slab.base + slab_header_size + n * slab.obj_size ≤ x)
    → 1 ≤ slab.obj_size
    → (link_objects slab left i cells first).0 x ≡ cells x
unfolding link_objects store
link_objects-frame slab zero i n cells first x e out some_size = refl
link_objects-frame slab (suc left) i n cells first x e out some_size =
    let bound = slot_bound i n slab.obj_size (omega arith) in
    let other : (slot slab i == x) ≡ false = (elim out [
      | inl below ↦ ground (arith, below)
      | inr above ↦ ground (arith, above, bound)
    ]) in
    link_objects-frame slab left (i + 1) n (store cells (slot slab i) first) (slot slab i) x
      (omega arith) out some_size
    ∙ (rw other refl)

fresh_slab-frame :
    (virt pages obj_size : ℕ) (cells : Cells) (x : ℕ)
    → 1 ≤ obj_size
    → slab_header_size ≤ pages * page_size
    → (x < virt) ⊎ (virt + pages * page_size ≤ x)
    → (fresh_slab virt pages obj_size cells).1 x ≡ cells x
unfolding fresh_slab cleared
fresh_slab-frame virt pages obj_size cells x some_size room out =
    let space = pages * page_size - slab_header_size in
    let total = space / obj_size in
    let empty : Slab = record {
      base = virt;
      free_list = null;
      obj_size = obj_size;
      total_objs = total;
      free_count = total;
    } in
    let whole = div-mul-le space obj_size some_size in
    let blank : (leb virt x && ltb x (virt + pages * page_size)) ≡ false = (elim out [
      | inl below ↦ ground (arith, below)
      | inr above ↦ ground (arith, above)
    ]) in
    link_objects-frame empty total 0 total (cleared cells virt (pages * page_size)) null x
      (omega arith) (elim out [ inl below ↦ inl below | inr above ↦ inr (omega arith) ]) some_size
    ∙ (rw blank refl)

module _ {S : Type 0} (pmm : Pages S) where
  -- The outcome of `create_slab` for a size.
  pub data SlabCreated (idx : ℕ) (h : Heap S) : Bool × Heap S → Type 0 where
    no_pages :
        (pages : ℕ)
        → Fewest (index_to_size idx) pages
        → (pmm.alloc_pages pages h.pages).0 ≡ null
        → SlabCreated idx h (false, record h { pages = (pmm.alloc_pages pages h.pages).1 })
    created :
        (pages : ℕ) (slab : Slab) (cells : Cells)
        → Fewest (index_to_size idx) pages
        → (pmm.alloc_pages pages h.pages).0 ≢ null
        → Fresh (pmm.alloc_pages pages h.pages).0 pages (index_to_size idx) (slab, cells)
        → ((x : ℕ)
            → (x < (pmm.alloc_pages pages h.pages).0)
              ⊎ ((pmm.alloc_pages pages h.pages).0 + pages * page_size ≤ x)
            → cells x ≡ h.cells x)
        → SlabCreated idx h (
          true,
          record {
            caches = set h.caches idx (slab ∷ get_or h.caches idx []);
            cells = cells;
            pages = (pmm.alloc_pages pages h.pages).1;
          },
        )

  -- `create_slab` asks for the fewest pages that hold its header and four objects. If it gets none,
  -- nothing else changes. Else it puts a slab before those of its size: at least four objects, all in
  -- the pages, at addresses of their own, each once in the free list. No cell outside the pages changes.
  pub create_slab-SlabCreated : (idx : ℕ) (h : Heap S) → SlabCreated idx h (create_slab pmm idx h)
  unfolding create_slab
  create_slab-SlabCreated idx h =
      let size = index_to_size idx in
      let some_size = size-positive idx in
      let wanted = slab_header_size + size * 4 in
      let pages = pages_loop wanted 1 wanted in
      let enough = pages_loop-le wanted 1 wanted (omega arith) in
      let fits : Fewest size pages = record {
        enough = enough;
        some_page = pages_loop-ge wanted 1 wanted;
        fewest = λ n some room. pages_loop-fewest wanted 1 wanted n some room;
      } in
      let virt = (pmm.alloc_pages pages h.pages).0 in
      elim (Bool-cases (virt == null)) [
        | inl failed ↦ rw (create_slab, failed) (no_pages pages fits (ground (arith, failed)))
        | inr got ↦
            rw (create_slab, got)
              (created pages (fresh_slab virt pages size h.cells).0
                (fresh_slab virt pages size h.cells).1 fits (λ e. ground (arith, got, e))
                (fresh_slab-Fresh virt pages size h.cells some_size enough)
                (λ x out. fresh_slab-frame virt pages size h.cells x some_size (omega arith) out))
      ]
