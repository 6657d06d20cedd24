-- ===== src/Ioapic/Route.antt =====
-- What `route_irq` (src/ioapic.cpp) writes, and to which controller.
use mathlib.Core.Path.{subst}
use mathlib.Core.Option.{some-injective}
use synx.Prelude.{
  ℕ, zero, suc, ◌+◌, ◌-◌, ◌*◌, ◌%◌, ◌^◌, ◌<◌, ◌≡◌, inl, inr, refl, arith, ◌∙◌, true, false, List,
  [], ◌∷◌, ◌++◌, Option, none, some, Bool-cases, ◌==◌, length, get_elem?, bit_or, word32,
}
use mathlib.Core.List.{append_assoc}
use synx.Madt.{ApicInfo}
use synx.Ioapic.{
  IoApicInstance, Write, Ioapics, rdt_low_base, mask_bit, write_reg, isa_to_gsi, handles,
  find_ioapic_for_gsi, read_reg, route_on, route_irq,
}

-- The first of the controllers that handles the interrupt, or that none of them does.
pub data FirstHandler (gsi : ℕ) (all : List IoApicInstance) : Option IoApicInstance → Type 0 where
  nobody :
      ((i : ℕ) (inst : IoApicInstance) → get_elem? all i ≡ some inst → handles gsi inst ≡ false)
      → FirstHandler gsi all none
  first :
      (i : ℕ) (inst : IoApicInstance)
      → get_elem? all i ≡ some inst
      → handles gsi inst ≡ true
      → ((j : ℕ) (other : IoApicInstance)
          → j < i
          → get_elem? all j ≡ some other
          → handles gsi other ≡ false)
      → FirstHandler gsi all (some inst)

-- A controller of a list is the first one, or stands in the rest.
not_here :
    (gsi : ℕ) (inst : IoApicInstance) (rest : List IoApicInstance)
    → handles gsi inst ≡ false
    → (j : ℕ)
    → ((k : ℕ) (x : IoApicInstance) → suc k ≡ j → get_elem? rest k ≡ some x → handles gsi x ≡ false)
    → (x : IoApicInstance) → get_elem? (inst ∷ rest) j ≡ some x
    → handles gsi x ≡ false
not_here gsi inst rest other zero behind x at =
    subst (λ y. handles gsi y ≡ false) (some-injective _ _ at) other
not_here gsi inst rest other (suc j) behind x at = behind j x refl at

-- `find_ioapic_for_gsi` gives the first controller whose range has the interrupt, and none only if no
-- controller has it.
find_ioapic_for_gsi-FirstHandler :
    (gsi : ℕ) (all : List IoApicInstance) → FirstHandler gsi all (find_ioapic_for_gsi gsi all)
unfolding find_ioapic_for_gsi
find_ioapic_for_gsi-FirstHandler gsi [] = nobody (λ i inst at. absurd (cc))
find_ioapic_for_gsi-FirstHandler gsi (inst ∷ rest) = elim (Bool-cases (handles gsi inst)) [
  | inl here ↦
      rw (find_ioapic_for_gsi, here)
        (first 0 inst refl here (λ j other below at. absurd (omega arith)))
  | inr other ↦
      rw (find_ioapic_for_gsi, other)
        (later other (find_ioapic_for_gsi gsi rest) (find_ioapic_for_gsi-FirstHandler gsi rest))
]
  where
    later :
        handles gsi inst ≡ false
        → (o : Option IoApicInstance) → FirstHandler gsi rest o
        → FirstHandler gsi (inst ∷ rest) o
    later other _ (nobody all) = nobody (λ j. not_here gsi inst rest other j (λ k x e. all k x))
    later other _ (first i x at mine before) = first (suc i) x at mine (λ j y below at_y.
        not_here gsi inst rest other j (λ k z e at_z. before k z (omega arith) at_z) y at_y)

-- The writes that route an interrupt: the entry is masked, then its destination is written, then its
-- lower half, which unmasks it.
abbrev pub routing : (gsi old dest_apic_id vector : ℕ) → IoApicInstance → List Write
routing gsi old dest_apic_id vector inst =
    let low_reg = (rdt_low_base + 2 * (gsi - inst.gsi_base)) % 256 in
    let high_reg = (rdt_low_base + 2 * (gsi - inst.gsi_base) + 1) % 256 in
    record { virt_base = inst.virt_base; reg = low_reg; value = bit_or old mask_bit % word32 }
    ∷ record { virt_base = inst.virt_base; reg = high_reg; value = dest_apic_id * 2 ^ 24 % word32 }
    ∷ record { virt_base = inst.virt_base; reg = low_reg; value = vector % word32 }
    ∷ []

-- What the device holds in the lower half of the interrupt's entry, after the writes of a log.
abbrev pub lower_half :
    (device : List Write → (virt_base reg : ℕ) → ℕ) (log : List Write) (gsi : ℕ)
    → IoApicInstance
    → ℕ
lower_half device log gsi inst =
    device log inst.virt_base ((rdt_low_base + 2 * (gsi - inst.gsi_base)) % 256) % word32

-- What `route_irq` does to an interrupt line.
pub data Routed (device : List Write → (virt_base reg : ℕ) → ℕ) (gsi dest_apic_id vector : ℕ)
    (s : Ioapics) : Option Ioapics → Type 0 where
  not_started : s.instances ≡ [] → Routed device gsi dest_apic_id vector s none
  not_handled :
      ((i : ℕ) (inst : IoApicInstance)
        → get_elem? s.instances i ≡ some inst
        → handles gsi inst ≡ false)
      → Routed device gsi dest_apic_id vector s (some s)
  routed :
      (i : ℕ) (inst : IoApicInstance) (t : Ioapics)
      → get_elem? s.instances i ≡ some inst
      → handles gsi inst ≡ true
      → t.instances ≡ s.instances
      → t.log ≡ s.log ++ routing gsi (lower_half device s.log gsi inst) dest_apic_id vector inst
      → Routed device gsi dest_apic_id vector s (some t)

length-zero : (xs : List IoApicInstance) → length xs ≡ 0 → xs ≡ []
length-zero [] e = refl
length-zero (x ∷ xs) e = absurd (omega arith)

module _ (device : List Write → (virt_base reg : ℕ) → ℕ) where
  route_on-log :
      (gsi dest_apic_id vector : ℕ) (inst : IoApicInstance) (s : Ioapics)
      → (route_on device gsi dest_apic_id vector inst s).log
        ≡ s.log ++ routing gsi (lower_half device s.log gsi inst) dest_apic_id vector inst
  unfolding route_on read_reg write_reg
  route_on-log gsi dest_apic_id vector inst s =
      append_assoc (s.log ++ (_ ∷ [])) (_ ∷ []) (_ ∷ []) ∙ append_assoc s.log (_ ∷ []) (_ ∷ _ ∷ [])

  -- `route_irq` panics only with no controller at all. With none that has the line's interrupt, it
  -- changes nothing. Else it writes three times, to one controller that has the interrupt: what the
  -- entry's lower half held before the call with the mask bit added, to the lower half; then the
  -- destination, to the upper half; then the vector, to the lower half.
  -- The numbers of the registers are cut to a byte.
  pub route_irq-Routed :
      (info : ApicInfo) (isa_irq dest_apic_id vector : ℕ) (s : Ioapics)
      → Routed device
          (isa_to_gsi info isa_irq)
          dest_apic_id
          vector
          s
          (route_irq device info isa_irq dest_apic_id vector s)
  unfolding route_irq
  route_irq-Routed info isa_irq dest_apic_id vector s =
      elim (Bool-cases (length s.instances == 0)) [
        | inl empty ↦ rw (route_irq, empty) (not_started (length-zero s.instances (ground arith)))
        | inr some_there ↦
            rw (route_irq, some_there)
              (go (find_ioapic_for_gsi (isa_to_gsi info isa_irq) s.instances)
                (find_ioapic_for_gsi-FirstHandler (isa_to_gsi info isa_irq) s.instances))
      ]
    where
      go :
          (o : Option IoApicInstance)
          → FirstHandler (isa_to_gsi info isa_irq) s.instances o
          → Routed device
              (isa_to_gsi info isa_irq)
              dest_apic_id
              vector
              s
              (elim o as (λ o. Option Ioapics) [
                | none ↦ some s
                | some inst ↦
                    some (route_on device (isa_to_gsi info isa_irq) dest_apic_id vector inst s)
              ])
      go _ (nobody all) = not_handled all
      go _ (first i inst at mine before) =
          routed i inst _ at mine refl
            (route_on-log (isa_to_gsi info isa_irq) dest_apic_id vector inst s)
