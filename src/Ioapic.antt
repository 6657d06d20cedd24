-- ===== src/Ioapic.antt =====
-- src/ioapic.cpp: the interrupt controllers and their redirection entries. A write to a register is
-- kept in a log; what a register holds is up to the device, by the writes before.
pub mod Route
pub mod Start
mod Tests
use synx.Prelude.{
  ℕ, zero, suc, ◌+◌, ◌-◌, ◌*◌, ◌/◌, ◌%◌, ◌^◌, Bool, true, false, not, ◌&&◌, List, [], ◌∷◌, ◌++◌,
  Option, none, some, ◌==◌, ltb, leb, if◌then◌else◌, length, bit_and, bit_or, word32, word64,
}
use synx.Madt.{IsoEntry, ApicInfo}

-- `virt_base` is the address of the controller's registers in the kernel's address space.
pub record IoApicInstance : Type 0 where
  pub virt_base : ℕ
  pub phys_base : ℕ
  pub gsi_base : ℕ
  pub max_rte : ℕ

pub record Write : Type 0 where
  pub virt_base : ℕ
  pub reg : ℕ
  pub value : ℕ

-- `g_ioapics` up to `g_ioapic_count`, and the writes so far, the first one first.
pub record Ioapics : Type 0 where
  pub instances : List IoApicInstance
  pub log : List Write

abbrev pub max_instances : ℕ
max_instances = 8

abbrev pub rdt_low_base : ℕ
rdt_low_base = 0x10

abbrev pub mask_bit : ℕ
mask_bit = 0x1_0000

-- `paging::IOAPIC_VIRT_BASE`
abbrev pub ioapic_virt_base : ℕ
ioapic_virt_base = 0xFFFF_FFFF_8020_0000

-- The number of a register is a `uint8_t`.
unfoldable pub write_reg : (virt_base reg value : ℕ) → Ioapics → Ioapics
write_reg virt_base reg value s = record s {
  log = s.log ++ (record { virt_base = virt_base; reg = reg % 256; value = value % word32 } ∷ []);
}

-- The loop of `isa_to_gsi`.
unfoldable pub find_iso : (isa_irq : ℕ) → List IsoEntry → ℕ
find_iso isa_irq [] = isa_irq
find_iso isa_irq (iso ∷ isos) =
    let rest = find_iso isa_irq isos in if iso.isa_irq == isa_irq then iso.gsi else rest

unfoldable pub isa_to_gsi : ApicInfo → (isa_irq : ℕ) → ℕ
unfolding find_iso
isa_to_gsi info isa_irq = find_iso isa_irq info.isos

unfoldable pub handles : (gsi : ℕ) → IoApicInstance → Bool
handles gsi inst = leb inst.gsi_base gsi && ltb gsi ((inst.gsi_base + inst.max_rte) % word32)

unfoldable pub find_ioapic_for_gsi : (gsi : ℕ) → List IoApicInstance → Option IoApicInstance
unfolding handles
find_ioapic_for_gsi gsi [] = none
find_ioapic_for_gsi gsi (inst ∷ rest) =
    let later = find_ioapic_for_gsi gsi rest in if handles gsi inst then some inst else later

-- The loop of `init` over the redirection entries, with `left` of them left.
unfoldable pub mask_all : (virt_base left i : ℕ) → Ioapics → Ioapics
unfolding write_reg
mask_all virt_base zero i s = s
mask_all virt_base (suc left) i s = mask_all virt_base left (i + 1) (
    write_reg virt_base (rdt_low_base + 2 * i + 1) 0
      (write_reg virt_base (rdt_low_base + 2 * i) mask_bit s))

module _ (device : List Write → (virt_base reg : ℕ) → ℕ) where
  unfoldable pub read_reg : (virt_base reg : ℕ) → Ioapics → ℕ
  read_reg virt_base reg s = device s.log virt_base (reg % 256) % word32

  -- none for the call of `kernel_panic`.
  unfoldable pub init : (phys_base gsi_base : ℕ) → Ioapics → Option Ioapics
  unfolding read_reg mask_all
  init phys_base gsi_base s =
      if leb max_instances (length s.instances)
      then none
      else (let virt = ioapic_virt_base + length s.instances * 0x1000 in
          let count = (read_reg virt 1 s / 2 ^ 16) % 256 + 1 in
          let s1 = mask_all virt count 0 s in
          some (record s1 {
            instances =
                s1.instances
                ++ (record {
                  virt_base = virt;
                  phys_base = phys_base % word32;
                  gsi_base = gsi_base;
                  max_rte = count;
                }
                    ∷ []);
          }))

  -- The writes of `route_irq` to the controller that was found.
  unfoldable pub route_on : (gsi dest_apic_id vector : ℕ) → IoApicInstance → Ioapics → Ioapics
  unfolding read_reg write_reg
  route_on gsi dest_apic_id vector inst s =
      let low_reg = rdt_low_base + 2 * (gsi - inst.gsi_base) in
      let low = read_reg inst.virt_base low_reg s in
      let s1 = write_reg inst.virt_base low_reg (bit_or low mask_bit) s in
      let s2 = write_reg inst.virt_base (low_reg + 1) (dest_apic_id * 2 ^ 24) s1 in
      write_reg inst.virt_base low_reg vector s2

  unfoldable pub route_irq : ApicInfo → (isa_irq dest_apic_id vector : ℕ) → Ioapics → Option Ioapics
  unfolding isa_to_gsi find_ioapic_for_gsi route_on
  route_irq info isa_irq dest_apic_id vector s =
      if length s.instances == 0
      then none
      else (elim (find_ioapic_for_gsi (isa_to_gsi info isa_irq) s.instances) [
        | none ↦ some s
        | some inst ↦ some (route_on (isa_to_gsi info isa_irq) dest_apic_id vector inst s)
      ])

  -- The write of `mask_irq` to the controller that was found; `~MASK_BIT` is a 32-bit mask.
  unfoldable pub mask_on : (gsi : ℕ) (masked : Bool) → IoApicInstance → Ioapics → Ioapics
  unfolding read_reg write_reg
  mask_on gsi masked inst s =
      let low_reg = rdt_low_base + 2 * (gsi - inst.gsi_base) in
      let low = read_reg inst.virt_base low_reg s in
      write_reg inst.virt_base low_reg
        (if masked then bit_or low mask_bit else bit_and low (word32 - 1 - mask_bit)) s

  unfoldable pub mask_irq : ApicInfo → (isa_irq : ℕ) (masked : Bool) → Ioapics → Ioapics
  unfolding isa_to_gsi find_ioapic_for_gsi mask_on
  mask_irq info isa_irq masked s =
      if length s.instances == 0
      then s
      else (elim (find_ioapic_for_gsi (isa_to_gsi info isa_irq) s.instances) [
        | none ↦ s
        | some inst ↦ mask_on (isa_to_gsi info isa_irq) masked inst s
      ])
