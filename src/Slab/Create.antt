-- ===== src/Slab/Create.antt =====
-- The slab that `create_slab` (mem/slab.cpp) makes.
use mathlib.Core.Path.{subst}
use synx.Prelude.{
  Chain, ended, linked, Absent, Distinct, ℕ, zero, suc, ◌+◌, ◌-◌, ◌*◌, ◌/◌, ◌^◌, ◌≤◌, ◌≡◌, refl,
  arith, sym, true, List, [], ◌∷◌, ltb, ◌==◌, Bool-cases, inl, inr, length,
}
use synx.Pmm.{page_size}
use synx.Slab.{
  Slab, Cells, null, store, slot, slab_header_size, index_to_size, pages_loop, link_objects,
  fresh_slab, cleared,
}
use synx.Slab.Chains.{AllSlots, Free, AllSlots-frame, slot_bound, Chain-store}

-- With a round for each byte that is wanted, the pages have all of them.
pub pages_loop-le :
    (fuel slab_pages wanted : ℕ)
    → wanted ≤ slab_pages * page_size + fuel * page_size
    → wanted ≤ pages_loop fuel slab_pages wanted * page_size
unfolding pages_loop
pages_loop-le zero slab_pages wanted h = omega arith
pages_loop-le (suc fuel) slab_pages wanted h =
    elim (Bool-cases (ltb (slab_pages * page_size) wanted)) [
      | inl short ↦ rw short (pages_loop-le fuel (slab_pages + 1) wanted (omega arith))
      | inr enough ↦ rw enough (ground (arith, enough))
    ]

-- The first objects of a slab, linked.
record Linked (slab : Slab) (cells : Cells) (first count : ℕ) : Type 0 where
  objects : List ℕ
  chain : Chain cells first objects
  slots : AllSlots slab count objects
  distinct : Distinct objects
  counted : length objects ≡ count

-- The next object is none of those before it.
slot-Absent :
    (slab : Slab) (count : ℕ) (objects : List ℕ)
    → 1 ≤ slab.obj_size
    → AllSlots slab count objects
    → Absent (slot slab count) objects
slot-Absent slab count [] some_size h = tt
slot-Absent slab count (p ∷ objects) some_size h =
    let s = h.0 in
    let bound = slot_bound s.index count slab.obj_size s.inside in
    let at = s.starts in ((λ e. omega arith), slot-Absent slab count objects some_size h.1)

AllSlots-more :
    (slab : Slab) (count : ℕ) (objects : List ℕ)
    → AllSlots slab count objects
    → AllSlots slab (count + 1) objects
AllSlots-more slab count [] h = tt
AllSlots-more slab count (p ∷ objects) h =
    let s = h.0 in
    let low = s.inside in
    (
      record { index = s.index; inside = omega arith; starts = s.starts },
      AllSlots-more slab count objects h.1,
    )

Linked-next :
    (slab : Slab) (cells : Cells) (first i : ℕ)
    → 1 ≤ slab.obj_size
    → Linked slab cells first i
    → Linked slab (store cells (slot slab i) first) (slot slab i) (i + 1)
unfolding store
Linked-next slab cells first i some_size h =
    let p = slot slab i in
    let absent = slot-Absent slab i h.objects some_size h.slots in
    let here : (p == p) ≡ true = ground arith in
    let counted = h.counted in
    record {
      objects = p ∷ h.objects;
      chain =
          linked p h.objects (λ e. omega arith)
            (rw here (Chain-store cells first p first h.objects absent h.chain));
      slots = (
        record { index = i; inside = omega arith; starts = refl },
        AllSlots-more slab i h.objects h.slots,
      );
      distinct = (absent, h.distinct);
      counted = omega arith;
    }

link_objects-Linked :
    (slab : Slab) (left i n : ℕ) (cells : Cells) (first : ℕ)
    → 1 ≤ slab.obj_size
    → i + left ≡ n
    → Linked slab cells first i
    → Linked slab
        (link_objects slab left i cells first).0
        (link_objects slab left i cells first).1
        n
unfolding link_objects
link_objects-Linked slab zero i n cells first some_size e h =
    subst (Linked slab cells first) (omega arith) h
link_objects-Linked slab (suc left) i n cells first some_size e h =
    link_objects-Linked slab left (i + 1) n (store cells (slot slab i) first) (slot slab i)
      some_size (omega arith) (Linked-next slab cells first i some_size h)

-- A slab all of whose objects are free: at least four, all inside its pages.
pub record Fresh (virt slab_pages obj_size : ℕ) (made : Slab × Cells) : Type 0 where
  pub objects : List ℕ
  pub free : Free made.1 made.0 objects
  pub all : length objects ≡ made.0.total_objs
  pub four : 4 ≤ made.0.total_objs
  pub at : made.0.base ≡ virt
  pub sized : made.0.obj_size ≡ obj_size
  pub in_pages : slab_header_size + made.0.total_objs * made.0.obj_size ≤ slab_pages * page_size

div-four : (x o : ℕ) → 1 ≤ o → o * 4 ≤ x → 4 ≤ x / o
div-four x o some_size enough = grind arith

pub div-mul-le : (x o : ℕ) → 1 ≤ o → x / o * o ≤ x
div-mul-le x o some_size = grind arith

pub fresh_slab-Fresh :
    (virt slab_pages obj_size : ℕ) (cells : Cells)
    → 1 ≤ obj_size
    → slab_header_size + obj_size * 4 ≤ slab_pages * page_size
    → Fresh virt slab_pages obj_size (fresh_slab virt slab_pages obj_size cells)
unfolding fresh_slab
fresh_slab-Fresh virt slab_pages obj_size cells some_size room =
    let space = slab_pages * page_size - slab_header_size in
    let total = space / obj_size in
    let empty : Slab = record {
      base = virt;
      free_list = null;
      obj_size = obj_size;
      total_objs = total;
      free_count = total;
    } in
    let blank = cleared cells virt (slab_pages * page_size) in
    let linked =
      link_objects-Linked empty total 0 total blank null some_size (omega arith) (record {
        objects = [];
        chain = ended null refl;
        slots = tt;
        distinct = tt;
        counted = refl;
      }) in
    let first = (link_objects empty total 0 blank null).1 in
    let whole = div-mul-le space obj_size some_size in
    record {
      objects = linked.objects;
      free = record {
        chain = linked.chain;
        slots =
            AllSlots-frame empty (record empty { free_list = first }) total linked.objects refl refl
              linked.slots;
        distinct = linked.distinct;
        counted = sym linked.counted;
        sized = some_size;
      };
      all = linked.counted;
      four = div-four space obj_size some_size (omega arith);
      at = refl;
      sized = refl;
      in_pages = omega arith;
    }

pub size-positive : (idx : ℕ) → 1 ≤ index_to_size idx
unfolding index_to_size
size-positive idx = let p = power-positive idx in omega arith
  where
    power-positive : (n : ℕ) → 1 ≤ 2 ^ n
    power-positive zero = omega arith
    power-positive (suc n) = let p = power-positive n in omega arith
