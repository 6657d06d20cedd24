-- ===== src/Ioapic/Tests.antt =====
-- Two controllers of 24 entries each, all registers of which read as masked.
use synx.Prelude.{ℕ, ◌≡◌, refl, List, [], ◌∷◌, some}
use synx.Madt.{ApicInfo}
use synx.Ioapic.{
  Write, Ioapics, isa_to_gsi, find_iso, handles, find_ioapic_for_gsi, write_reg, read_reg, route_on,
  route_irq, mask_bit, mask_all, init, ioapic_virt_base,
}
use synx.Ioapic.Route.{Routed, route_irq-Routed}

abbrev device : List Write → (virt_base reg : ℕ) → ℕ
device log virt_base reg = mask_bit

abbrev two : Ioapics
two = record {
  instances =
      record { virt_base = 4096; phys_base = 0; gsi_base = 0; max_rte = 24 }
      ∷ record { virt_base = 8192; phys_base = 0; gsi_base = 24; max_rte = 24 }
      ∷ [];
  log = [];
}

-- The timer's line 0 is interrupt 26.
abbrev overridden : ApicInfo
overridden = record {
  lapic_phys_base = 0;
  ioapics = [];
  isos = record { isa_irq = 0; gsi = 26; flags = 0 } ∷ [];
}

timer_routed :
    route_irq device overridden 0 1 32 two
    ≡ some (record two {
      log =
          record { virt_base = 8192; reg = 20; value = mask_bit }
          ∷ record { virt_base = 8192; reg = 21; value = 0x100_0000 }
          ∷ record { virt_base = 8192; reg = 20; value = 32 }
          ∷ [];
    })
unfolding route_irq isa_to_gsi find_iso find_ioapic_for_gsi handles route_on write_reg read_reg
timer_routed = refl

route_irq-Routed_example :
    Routed device (isa_to_gsi overridden 0) 1 32 two (route_irq device overridden 0 1 32 two)
route_irq-Routed_example = route_irq-Routed device overridden 0 1 32 two

abbrev one_entry : List Write → (virt_base reg : ℕ) → ℕ
one_entry log virt_base reg = 0

abbrev none_yet : Ioapics
none_yet = record { instances = []; log = [] }

abbrev started : Ioapics
started = record {
  instances =
      record { virt_base = ioapic_virt_base; phys_base = 4096; gsi_base = 24; max_rte = 1 } ∷ [];
  log =
      record { virt_base = ioapic_virt_base; reg = 16; value = mask_bit }
      ∷ record { virt_base = ioapic_virt_base; reg = 17; value = 0 }
      ∷ [];
}

first_started : init one_entry 4096 24 none_yet ≡ some started
unfolding init mask_all write_reg read_reg
first_started = refl
