-- ===== src/Slab/Give.antt =====
-- What `free` (mem/slab.cpp) gives back to the slabs of a size.
use synx.Prelude.{
  linked, Absent, member, member-Absent, ℕ, ◌+◌, ◌*◌, ◌≤◌, ◌<◌, ◌≡◌, ◌⊎◌, inl, inr, refl, arith,
  true, false, ◌&&◌, List, [], ◌∷◌, ◌==◌, ltb, leb, Bool-cases,
}
use synx.Slab.{
  Slab, Cells, store, slab_header_size, push, give_object, Given, given, not_found, Outcome, done,
  panic,
}
use synx.Slab.Chains.{
  Slot, AllSlots, Free, AllFree, no_slab, a_slab, AllSlots-frame, slot_bound, Chain-store,
  in_free_list-member,
}

-- The address is not in the slab.
abbrev pub Outside : Slab → ℕ → Type 0
Outside slab p =
    (p < slab.base) ⊎ (slab.base + slab_header_size + slab.total_objs * slab.obj_size ≤ p)

-- No two of the slabs share an address.
abbrev pub ApartFrom : Slab → List Slab → Type 0
ApartFrom slab [] = Unit {0}
ApartFrom slab (other ∷ slabs) =
    ((slab.base + slab_header_size + slab.total_objs * slab.obj_size ≤ other.base)
      ⊎ (other.base + slab_header_size + other.total_objs * other.obj_size ≤ slab.base))
    × ApartFrom slab slabs

abbrev pub ApartAll : List Slab → Type 0
ApartAll [] = Unit {0}
ApartAll (slab ∷ slabs) = ApartFrom slab slabs × ApartAll slabs

-- The address is the start of an object of one of the slabs.
pub data Object (p : ℕ) : List Slab → Type 0 where
  object_here :
      (slab : Slab) (slabs : List Slab) → Slot slab slab.total_objs p → Object p (slab ∷ slabs)
  object_later : (slab : Slab) (slabs : List Slab) → Object p slabs → Object p (slab ∷ slabs)

-- The object is put before one of the free lists, in which it was not.
pub data GiveStep (p : ℕ) : List (List ℕ) → List (List ℕ) → Type 0 where
  here :
      (objects : List ℕ) (frees : List (List ℕ))
      → Absent p objects
      → GiveStep p (objects ∷ frees) ((p ∷ objects) ∷ frees)
  there :
      (objects : List ℕ) (frees frees' : List (List ℕ))
      → GiveStep p frees frees'
      → GiveStep p (objects ∷ frees) (objects ∷ frees')

pub data IsFree (p : ℕ) : List (List ℕ) → Type 0 where
  free_here :
      (objects : List ℕ) (frees : List (List ℕ))
      → member p objects ≡ true
      → IsFree p (objects ∷ frees)
  free_later :
      (objects : List ℕ) (frees : List (List ℕ)) → IsFree p frees → IsFree p (objects ∷ frees)

pub data GiveDone (p : ℕ) (cells : Cells) (frees : List (List ℕ)) : Outcome Given → Type 0 where
  double_free : IsFree p frees → GiveDone p cells frees panic
  gave :
      (value : ℕ) (slabs' : List Slab) (frees' : List (List ℕ))
      → GiveStep p frees frees'
      → AllFree (store cells p value) slabs' frees'
      → GiveDone p cells frees (done (given slabs' (store cells p value)))

Slot-in :
    (slab : Slab) (p : ℕ)
    → Slot slab slab.total_objs p
    → 1 ≤ slab.obj_size
    → (slab.base + slab_header_size ≤ p)
      × (p < slab.base + slab_header_size + slab.total_objs * slab.obj_size)
Slot-in slab p s some_size =
    let bound = slot_bound s.index slab.total_objs slab.obj_size s.inside in
    let at = s.starts in (omega arith, omega arith)

Outside-Absent :
    (slab : Slab) (p : ℕ) (objects : List ℕ)
    → 1 ≤ slab.obj_size
    → Outside slab p
    → AllSlots slab slab.total_objs objects
    → Absent p objects
Outside-Absent slab p [] some_size out h = tt
Outside-Absent slab p (q ∷ objects) some_size out h =
    let (low, high) = Slot-in slab q h.0 some_size in
    (
      (λ e. elim out [ inl below ↦ omega arith | inr above ↦ omega arith ]),
      Outside-Absent slab p objects some_size out h.1,
    )

Free-store :
    (cells : Cells) (slab : Slab) (objects : List ℕ) (p value : ℕ)
    → Outside slab p
    → Free cells slab objects
    → Free (store cells p value) slab objects
Free-store cells slab objects p value out free = record {
  chain =
      Chain-store cells slab.free_list p value objects
        (Outside-Absent slab p objects free.sized out free.slots) free.chain;
  slots = free.slots;
  distinct = free.distinct;
  counted = free.counted;
  sized = free.sized;
}

-- An object of a slab is outside the slabs apart from it.
AllFree-store :
    (cells : Cells) (slab : Slab) (slabs : List Slab) (frees : List (List ℕ)) (p value : ℕ)
    → Slot slab slab.total_objs p
    → 1 ≤ slab.obj_size
    → ApartFrom slab slabs
    → AllFree cells slabs frees
    → AllFree (store cells p value) slabs frees
AllFree-store cells slab _ _ p value s some_size apart no_slab = no_slab
AllFree-store cells slab _ _ p value s some_size apart
      (a_slab other slabs objects frees free rest) =
    let (low, high) = Slot-in slab p s some_size in
    a_slab other slabs objects frees
      (Free-store cells other objects p value
        (elim (apart.0) [ inl before ↦ inl (omega arith) | inr after ↦ inr (omega arith) ]) free)
      (AllFree-store cells slab slabs frees p value s some_size apart.1 rest)

Object-Outside :
    (cells : Cells) (slab : Slab) (slabs : List Slab) (frees : List (List ℕ)) (p : ℕ)
    → ApartFrom slab slabs
    → AllFree cells slabs frees
    → Object p slabs
    → Outside slab p
Object-Outside cells slab _ _ p apart no_slab o = elim o [ ]
Object-Outside cells slab _ _ p apart (a_slab other slabs objects frees free rest)
      (object_here _ _ s) =
    let (low, high) = Slot-in other p s free.sized in
    elim (apart.0) [ inl before ↦ inr (omega arith) | inr after ↦ inl (omega arith) ]
Object-Outside cells slab _ _ p apart (a_slab other slabs objects frees free rest)
      (object_later _ _ o) =
    Object-Outside cells slab slabs frees p apart.1 rest o

push-Free :
    (cells : Cells) (slab : Slab) (p : ℕ) (objects : List ℕ)
    → Slot slab slab.total_objs p
    → Absent p objects
    → Free cells slab objects
    → Free (store cells p slab.free_list) (push slab p) (p ∷ objects)
unfolding store
push-Free cells slab p objects s absent free =
    let (low, high) = Slot-in slab p s free.sized in
    let counted = free.counted in
    let here : (p == p) ≡ true = ground arith in
    record {
      chain =
          linked p objects (λ e. omega arith)
            (rw here (Chain-store cells slab.free_list p slab.free_list objects absent free.chain));
      slots =
          AllSlots-frame slab (push slab p) slab.total_objs (p ∷ objects) refl refl (s, free.slots);
      distinct = (absent, free.distinct);
      counted = omega arith;
      sized = free.sized;
    }

-- On well-formed slabs that are apart, an object that is free already makes the kernel panic. Any other
-- object of one of the slabs is put into the free list of its slab and no other, and the slabs after it
-- are well formed.
pub give_object-GiveDone :
    (p : ℕ) (cells : Cells) (slabs : List Slab) (frees : List (List ℕ))
    → AllFree cells slabs frees
    → ApartAll slabs
    → Object p slabs
    → GiveDone p cells frees (give_object p cells slabs)
unfolding give_object
give_object-GiveDone p cells _ _ no_slab apart o = elim o [ ]
give_object-GiveDone p cells _ _ (a_slab slab slabs objects frees free rest) apart
      (object_here _ _ s) =
    let (low, high) = Slot-in slab p s free.sized in
    let counted = free.counted in
    let mine : (leb slab.base p
          && ltb p (slab.base + slab_header_size + slab.total_objs * slab.obj_size))
        ≡ true =
      ground arith in
    let found =
      in_free_list-member cells (slab.free_count + 1) slab.free_list p objects free.chain
        (omega arith) in
    rw (give_object, mine, found)
      (elim (Bool-cases (member p objects)) [
        | inl double ↦ rw double (double_free (free_here objects frees double))
        | inr fresh ↦ rw fresh (
            let absent = member-Absent p objects fresh in
            gave slab.free_list (push slab p ∷ slabs) ((p ∷ objects) ∷ frees)
              (here objects frees absent)
              (a_slab (push slab p) slabs (p ∷ objects) frees
                (push-Free cells slab p objects s absent free)
                (AllFree-store cells slab slabs frees p slab.free_list s free.sized apart.0 rest)))
      ])
give_object-GiveDone p cells _ _ (a_slab slab slabs objects frees free rest) apart
      (object_later _ _ o) =
    let out = Object-Outside cells slab slabs frees p apart.0 rest o in
    let other : (leb slab.base p
          && ltb p (slab.base + slab_header_size + slab.total_objs * slab.obj_size))
        ≡ false =
      (elim out [ inl below ↦ ground (arith, below) | inr above ↦ ground (arith, above) ]) in
    rw (give_object, other)
      (later out (give_object p cells slabs)
        (give_object-GiveDone p cells slabs frees rest apart.1 o))
  where
    later :
        Outside slab p
        → (r : Outcome Given) → GiveDone p cells frees r
        → GiveDone p cells (objects ∷ frees) (elim r as (λ r. Outcome Given) [
          | panic ↦ panic
          | done not_found ↦ done not_found
          | done (given slabs' cells') ↦ done (given (slab ∷ slabs') cells')
        ])
    later out _ (double_free double) = double_free (free_later objects frees double)
    later out _ (gave value slabs' frees' step after) =
        gave value (slab ∷ slabs') (objects ∷ frees') (there objects frees frees' step)
          (a_slab slab slabs' objects frees' (Free-store cells slab objects p value out free) after)
