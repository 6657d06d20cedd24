-- ===== src/Slab/Chains.antt =====
-- Free lists of the slab allocator (mem/slab.cpp): well-formed slabs.
use synx.Prelude.{
  linked, Chain, Absent, member, Distinct, ended, ℕ, zero, suc, ◌+◌, ◌*◌, ◌≤◌, ◌<◌, ◌≡◌, inl, inr,
  refl, arith, ap, ◌∙◌, true, false, List, [], ◌∷◌, some, ◌==◌, Bool-cases, length,
}
use synx.Slab.{Slab, Cells, null, store, slot, slab_header_size, in_free_list}

-- The address is the start of one of the first objects of a slab.
pub record Slot (slab : Slab) (count p : ℕ) : Type 0 where
  pub index : ℕ
  pub inside : index < count
  pub starts : p ≡ slot slab index

abbrev pub AllSlots : Slab → (count : ℕ) → List ℕ → Type 0
AllSlots slab count [] = Unit {0}
AllSlots slab count (p ∷ objects) = Slot slab count p × AllSlots slab count objects

-- A slab whose free list holds the given objects: its own, each once, as many as it counts.
pub record Free (cells : Cells) (slab : Slab) (objects : List ℕ) : Type 0 where
  pub chain : Chain cells slab.free_list objects
  pub slots : AllSlots slab slab.total_objs objects
  pub distinct : Distinct objects
  pub counted : slab.free_count ≡ length objects
  pub sized : 1 ≤ slab.obj_size

-- A store that meets none of the objects leaves their list as it is.
pub Chain-store :
    (cells : Cells) (first at value : ℕ) (objects : List ℕ)
    → Absent at objects
    → Chain cells first objects
    → Chain (store cells at value) first objects
unfolding store
Chain-store cells first at value _ absent (ended p e) = ended p e
Chain-store cells first at value _ absent (linked p later some_p rest) = linked p later some_p (
    let other : (at == p) ≡ false = (let ne = absent.0 in ground arith) in
    rw other (Chain-store cells (cells p) at value later absent.1 rest))

-- The walk finds an address if and only if it is in the list.
pub in_free_list-member :
    (cells : Cells) (fuel first p : ℕ) (objects : List ℕ)
    → Chain cells first objects
    → length objects < fuel
    → in_free_list fuel cells first p ≡ some (member p objects)
unfolding in_free_list
in_free_list-member cells zero first p objects chain enough = absurd (omega arith)
in_free_list-member cells (suc fuel) first p _ (ended _ e) enough =
    let nul : (first == null) ≡ true = ground arith in rw (in_free_list, nul) refl
in_free_list-member cells (suc fuel) first p _ (linked _ later some_p rest) enough =
    let there : (first == null) ≡ false = ground arith in
    elim (Bool-cases (first == p)) [
      | inl same ↦ rw (in_free_list, there, same) refl
      | inr other ↦
          rw (in_free_list, there, other)
            (in_free_list-member cells fuel (cells first) p later rest (omega arith))
    ]

-- The slabs of a size, with the objects in the free list of each.
pub data AllFree (cells : Cells) : List Slab → List (List ℕ) → Type 0 where
  no_slab : AllFree cells [] []
  a_slab :
      (slab : Slab) (slabs : List Slab) (objects : List ℕ) (frees : List (List ℕ))
      → Free cells slab objects
      → AllFree cells slabs frees
      → AllFree cells (slab ∷ slabs) (objects ∷ frees)

-- The slots of a slab do not hang on its free list.
pub AllSlots-frame :
    (a b : Slab) (count : ℕ) (objects : List ℕ)
    → a.base ≡ b.base
    → a.obj_size ≡ b.obj_size
    → AllSlots a count objects
    → AllSlots b count objects
AllSlots-frame a b count [] eb es h = tt
AllSlots-frame a b count (p ∷ objects) eb es h =
    let s = h.0 in
    (
      record {
        index = s.index;
        inside = s.inside;
        starts =
            s.starts
            ∙ ap (λ x. x + slab_header_size + s.index * a.obj_size) eb
            ∙ ap (λ o. b.base + slab_header_size + s.index * o) es;
      },
      AllSlots-frame a b count objects eb es h.1,
    )

pub slot_bound : (i n size : ℕ) → i < n → i * size + size ≤ n * size
slot_bound i n size low = grind arith
