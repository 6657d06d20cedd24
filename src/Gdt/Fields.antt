-- ===== src/Gdt/Fields.antt =====
-- What the processor reads in the descriptors that `setup_descriptors` (src/gdt.cpp) writes.
use synx.Prelude.{ℕ, ◌+◌, ◌-◌, ◌*◌, ◌/◌, ◌%◌, ◌^◌, ◌<◌, ◌≡◌, refl, arith, get_or, word64}
use synx.Gdt.{GdtEntry, PerCpuData, null_entry, tss_low, tss_high, tss_size, setup_descriptors}

-- The fields as the processor's manual gives them: a base in three parts, a limit in two, the
-- privilege level in bits 5 and 6 of the access byte, code or data in bit 3.
abbrev pub base_of : GdtEntry → ℕ
base_of e = e.base_low + 2 ^ 16 * e.base_middle + 2 ^ 24 * e.base_high

abbrev pub limit_of : GdtEntry → ℕ
limit_of e = e.limit_low + 2 ^ 16 * (e.granularity % 0x10)

abbrev pub privilege_of : GdtEntry → ℕ
privilege_of e = (e.access / 2 ^ 5) % 4

abbrev pub is_code : GdtEntry → ℕ
is_code e = (e.access / 2 ^ 3) % 2

-- The 64-bit base of a descriptor that takes two entries.
abbrev pub system_base : GdtEntry → GdtEntry → ℕ
system_base low high = base_of low + 2 ^ 32 * (high.limit_low + 2 ^ 16 * high.base_low)

abbrev pub entry_at : PerCpuData → (selector : ℕ) → GdtEntry
entry_at cpu selector = get_or cpu.gdt (selector / 8) null_entry

-- What the processor finds by way of the table.
pub record Described (tss_at gdt_at stack_top : ℕ) (cpu : PerCpuData) : Type 0 where
  pub tss_base : system_base (entry_at cpu 0x28) (entry_at cpu 0x30) ≡ tss_at
  pub tss_limit : limit_of (entry_at cpu 0x28) ≡ tss_size - 1
  pub kernel_code : (is_code (entry_at cpu 0x08) ≡ 1) × (privilege_of (entry_at cpu 0x08) ≡ 0)
  pub kernel_data : (is_code (entry_at cpu 0x10) ≡ 0) × (privilege_of (entry_at cpu 0x10) ≡ 0)
  pub user_data : (is_code (entry_at cpu 0x18) ≡ 0) × (privilege_of (entry_at cpu 0x18) ≡ 3)
  pub user_code : (is_code (entry_at cpu 0x20) ≡ 1) × (privilege_of (entry_at cpu 0x20) ≡ 3)
  pub stacks : (cpu.tss.rsp0 ≡ stack_top) × (cpu.syscall_kernel_rsp ≡ stack_top)
  pub table : cpu.gp.base ≡ gdt_at

-- The two entries of the task state segment give back its 64-bit address and its size less 1; the
-- selectors 0x08 and 0x10 are code and data of ring 0, 0x18 and 0x20 data and code of ring 3; rsp0 and
-- the kernel's stack for system calls are the given stack, and the table's pointer is its address. The
-- address of the segment is below 2 ^ 64.
pub setup_descriptors-Described :
    (tss_at gdt_at stack_top : ℕ)
    → tss_at < word64
    → Described tss_at gdt_at stack_top (setup_descriptors tss_at gdt_at stack_top)
unfolding setup_descriptors tss_low tss_high
setup_descriptors-Described tss_at gdt_at stack_top low = record {
  tss_base = omega arith;
  tss_limit = refl;
  kernel_code = (refl, refl);
  kernel_data = (refl, refl);
  user_data = (refl, refl);
  user_code = (refl, refl);
  stacks = (refl, refl);
  table = refl;
}
