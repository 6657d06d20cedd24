-- ===== src/Gdt.antt =====
-- src/gdt.cpp and include/gdt.h: the descriptor table and the task state segment of one processor.
pub mod Fields
mod Tests
use synx.Prelude.{
  ℕ, ◌+◌, ◌-◌, ◌*◌, ◌/◌, ◌%◌, ◌^◌, List, [], ◌∷◌, ◌++◌, Option, none, some, leb, if◌then◌else◌,
  get_or, replicate, set, word64,
}

abbrev pub max_cpus : ℕ
max_cpus = 256

pub record GdtEntry : Type 0 where
  pub limit_low : ℕ
  pub base_low : ℕ
  pub base_middle : ℕ
  pub access : ℕ
  pub granularity : ℕ
  pub base_high : ℕ

pub record GdtPtr : Type 0 where
  pub limit : ℕ
  pub base : ℕ

pub record TssEntry : Type 0 where
  pub rsp0 : ℕ
  pub rsp1 : ℕ
  pub rsp2 : ℕ
  pub ist : List ℕ
  pub iopb_base : ℕ

pub record PerCpuData : Type 0 where
  pub gdt : List GdtEntry
  pub gp : GdtPtr
  pub tss : TssEntry
  pub syscall_kernel_rsp : ℕ
  pub syscall_user_rsp : ℕ

-- `sizeof(TSSEntry)`: 104 bytes, aligned to 16.
abbrev pub tss_size : ℕ
tss_size = 112

abbrev pub null_entry : GdtEntry
null_entry = record {
  limit_low = 0;
  base_low = 0;
  base_middle = 0;
  access = 0;
  granularity = 0;
  base_high = 0;
}

-- A code or data descriptor over the whole address space.
abbrev pub flat_entry : (access granularity : ℕ) → GdtEntry
flat_entry access granularity = record null_entry {
  limit_low = 0xFFFF;
  access = access;
  granularity = granularity;
}

-- GDT[5]: the lower half of the descriptor of the task state segment.
unfoldable pub tss_low : (tss_base limit : ℕ) → GdtEntry
tss_low tss_base limit = record {
  limit_low = limit % 0x1_0000;
  base_low = tss_base % 0x1_0000;
  base_middle = (tss_base / 2 ^ 16) % 0x100;
  access = 0x89;
  granularity = (limit / 2 ^ 16) % 0x10;
  base_high = (tss_base / 2 ^ 24) % 0x100;
}

-- GDT[6]: bits 32 to 63 of the base.
unfoldable pub tss_high : (tss_base : ℕ) → GdtEntry
tss_high tss_base = record null_entry {
  limit_low = (tss_base / 2 ^ 32) % 0x1_0000;
  base_low = (tss_base / 2 ^ 48) % 0x1_0000;
}

-- `setup_descriptors` on the entry of its processor; `tss_at` and `gdt_at` are the addresses of `tss`
-- and `gdt` in it.
unfoldable pub setup_descriptors : (tss_at gdt_at stack_top : ℕ) → PerCpuData
unfolding tss_low tss_high
setup_descriptors tss_at gdt_at stack_top = record {
  gdt =
      null_entry
      ∷ flat_entry 0x9A 0xAF
      ∷ flat_entry 0x92 0xCF
      ∷ flat_entry 0xF2 0xCF
      ∷ flat_entry 0xFA 0xAF
      ∷ tss_low tss_at (tss_size - 1)
      ∷ tss_high tss_at
      ∷ [];
  gp = record { limit = 7 * 8 - 1; base = gdt_at };
  tss = record { rsp0 = stack_top; rsp1 = 0; rsp2 = 0; ist = replicate 7 0; iopb_base = tss_size };
  syscall_kernel_rsp = stack_top;
  syscall_user_rsp = 0;
}

-- `get_cpu_data`: the index of the processor's entry, none for the null pointer.
unfoldable pub get_cpu_data : (cpu_id : ℕ) → Option ℕ
get_cpu_data cpu_id = if leb max_cpus cpu_id then none else some cpu_id
