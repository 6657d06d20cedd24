-- ===== src/Slab/Take.antt =====
-- What `alloc` (mem/slab.cpp) takes from the slabs of a size.
use mathlib.Core.Path.{subst}
use synx.Prelude.{
  Chain, Absent, Chain-head, ℕ, ◌+◌, ◌*◌, ◌≤◌, ◌≡◌, refl, arith, sym, true, false, ◌||◌, List, [],
  ◌∷◌, ltb, leb,
}
use synx.Slab.{
  Slab, Cells, slab_header_size, pop, take_object, Taken, taken, full, Outcome, done, panic,
}
use synx.Slab.Chains.{Slot, Free, AllFree, no_slab, a_slab, AllSlots-frame, slot_bound}

-- The object is the first of the first free list that is not empty; it is in no list afterwards.
pub data TakeStep : List (List ℕ) → ℕ → List (List ℕ) → Type 0 where
  here :
      (p : ℕ) (later : List ℕ) (frees : List (List ℕ))
      → Absent p later
      → TakeStep ((p ∷ later) ∷ frees) p (later ∷ frees)
  there :
      (p : ℕ) (frees frees' : List (List ℕ))
      → TakeStep frees p frees'
      → TakeStep ([] ∷ frees) p ([] ∷ frees')

abbrev pub AllEmpty : List (List ℕ) → Type 0
AllEmpty [] = Unit {0}
AllEmpty (objects ∷ frees) = (objects ≡ []) × AllEmpty frees

pub data TakeDone (cells : Cells) (frees : List (List ℕ)) : Outcome Taken → Type 0 where
  nothing_free : AllEmpty frees → TakeDone cells frees (done full)
  took :
      (p : ℕ) (slabs' : List Slab) (frees' : List (List ℕ))
      → TakeStep frees p frees'
      → AllFree cells slabs' frees'
      → TakeDone cells frees (done (taken p slabs'))

pop-Free :
    (cells : Cells) (slab : Slab) (p : ℕ) (later : List ℕ)
    → Free cells slab (p ∷ later)
    → (slab.free_list ≡ p) × Free cells (pop cells slab) later
pop-Free cells slab p later free =
    let (first, some_p, rest) = Chain-head cells slab.free_list p later free.chain in
    let counted = free.counted in
    (
      first,
      record {
        chain = subst (λ q. Chain cells (cells q) later) (sym first) rest;
        slots = AllSlots-frame slab (pop cells slab) slab.total_objs later refl refl free.slots.1;
        distinct = free.distinct.1;
        counted = omega arith;
        sized = free.sized;
      },
    )

-- A slot is among the objects.
Slot-inside :
    (slab : Slab) (p : ℕ)
    → 1 ≤ slab.obj_size
    → Slot slab slab.total_objs p
    → (ltb p (slab.base + slab_header_size)
        || leb (slab.base + slab_header_size + slab.total_objs * slab.obj_size) p)
      ≡ false
Slot-inside slab p some_size s =
    let bound = slot_bound s.index slab.total_objs slab.obj_size s.inside in
    let at = s.starts in ground arith

-- On well-formed slabs the search never meets a corrupted list. It takes the first free object of the
-- first slab that has one, and the slabs after it are well formed; it is full if and only if no slab
-- has a free object.
pub take_object-TakeDone :
    (cells : Cells) (slabs : List Slab) (frees : List (List ℕ))
    → AllFree cells slabs frees
    → TakeDone cells frees (take_object cells slabs)
unfolding take_object
take_object-TakeDone cells _ _ no_slab = nothing_free tt
take_object-TakeDone cells _ _ (a_slab slab slabs [] frees free rest) =
    let none_free : ltb 0 slab.free_count ≡ false = (let c = free.counted in ground arith) in
    rw (take_object, none_free)
      (later (take_object cells slabs) (take_object-TakeDone cells slabs frees rest))
  where
    later :
        (r : Outcome Taken)
        → TakeDone cells frees r
        → TakeDone cells ([] ∷ frees) (elim r as (λ r. Outcome Taken) [
          | panic ↦ panic
          | done full ↦ done full
          | done (taken object slabs') ↦ done (taken object (slab ∷ slabs'))
        ])
    later _ (nothing_free empty) = nothing_free (refl, empty)
    later _ (took p slabs' frees' step after) =
        took p (slab ∷ slabs') ([] ∷ frees') (there p frees frees' step)
          (a_slab slab slabs' [] frees' free after)
take_object-TakeDone cells _ _ (a_slab slab slabs (p ∷ objects) frees free rest) =
    let some_free : ltb 0 slab.free_count ≡ true = (let c = free.counted in ground arith) in
    let (first, after) = pop-Free cells slab p objects free in
    let inside =
      Slot-inside slab slab.free_list free.sized
        (subst (Slot slab slab.total_objs) (sym first) free.slots.0) in
    rw (take_object, some_free, inside)
      (subst (λ q. TakeDone cells ((p ∷ objects) ∷ frees) (done (taken q (pop cells slab ∷ slabs))))
        (sym first)
        (took p (pop cells slab ∷ slabs) (objects ∷ frees) (here p objects frees free.distinct.0)
          (a_slab (pop cells slab) slabs objects frees after rest)))
