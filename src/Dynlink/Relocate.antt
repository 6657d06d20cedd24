-- ===== src/Dynlink/Relocate.antt =====
-- `apply_relocations` of proc/dynlink.cpp.
use synx.Prelude.{
  ℕ, zero, suc, ◌+◌, ◌/◌, ◌%◌, ◌^◌, Bool, not, ◌||◌, List, none, some, ◌==◌, if◌then◌else◌, add64,
  mul64, word32,
}
use synx.Elf.{Rela, Symbol, rela_at, symbol_at, rela_size, symbol_size}
use synx.Dynlink.{
  Options, Loader, ◌>>=◌, ◌>>◌, pure, refuse, reject, in_image, view, store64, bounded_string,
  invalid_dynamic_table, unresolved_symbol, unsupported_relocation,
}

pub record DynamicInfo : Type 0 where
  pub strtab : ℕ
  pub strsz : ℕ
  pub symtab : ℕ
  pub syment : ℕ
  pub rela : ℕ
  pub relasz : ℕ
  pub relaent : ℕ
  pub jmprel : ℕ
  pub pltrelsz : ℕ
  pub pltrel : ℕ
  pub relsz : ℕ
  pub has_strtab : Bool
  pub has_strsz : Bool
  pub has_symtab : Bool
  pub has_syment : Bool
  pub has_rela : Bool
  pub has_relasz : Bool
  pub has_relaent : Bool
  pub has_jmprel : Bool
  pub has_pltrelsz : Bool
  pub has_pltrel : Bool
  pub terminated : Bool

abbrev pub shn_abs : ℕ
shn_abs = 0xFFF1

abbrev pub stb_weak : ℕ
stb_weak = 2

abbrev pub r_x86_64_64 : ℕ
r_x86_64_64 = 1

abbrev pub r_x86_64_glob_dat : ℕ
r_x86_64_glob_dat = 6

abbrev pub r_x86_64_jump_slot : ℕ
r_x86_64_jump_slot = 7

abbrev pub r_x86_64_relative : ℕ
r_x86_64_relative = 8

-- The low and the high half of `info`.
abbrev pub type_of : Rela → ℕ
type_of r = r.info % word32

abbrev pub symbol_index : Rela → ℕ
symbol_index r = r.info / 2 ^ 32 % word32

-- A symbol that is not resolved is an error unless it is weak.
unfoldable pub unless_weak : Symbol → (left_there : ℕ) → Loader ℕ
unless_weak s left_there =
    if s.info / 2 ^ 4 == stb_weak then pure left_there else refuse unresolved_symbol

unfoldable pub symbol_address : Options → Symbol → (name : List ℕ) → Loader ℕ
symbol_address options s name =
    if not (s.section == 0)
    then pure (if s.section == shn_abs then s.value else add64 options.load_bias s.value)
    else (elim options.resolve_symbol [
      | none ↦ unless_weak s 0
      | some resolve ↦
          if (resolve name).0 then pure (resolve name).1 else unless_weak s (resolve name).1
    ])

module _ (capacity image_base image_span : ℕ) (dynamic : DynamicInfo) (options : Options) where
  -- `return InvalidDynamicTable` where `bounded_string` finds no string.
  unfoldable pub symbol_name : (at : ℕ) → Loader (List ℕ)
  symbol_name at = do
    strings ← in_image dynamic.strtab dynamic.strsz image_base image_span invalid_dynamic_table
    found ← bounded_string capacity strings dynamic.strsz at
    elim found [ none ↦ refuse invalid_dynamic_table | some name ↦ pure name ]

  unfoldable pub symbol_value : Rela → Loader ℕ
  symbol_value r = do
    let delta = mul64 (symbol_index r) symbol_size
    reject (not (delta / symbol_size == symbol_index r)) invalid_dynamic_table
    at ←
        in_image (add64 dynamic.symtab delta) symbol_size image_base image_span
          invalid_dynamic_table
    s ← view capacity symbol_size symbol_at at
    name ← symbol_name s.name
    address ← symbol_address options s name
    pure (if type_of r == r_x86_64_64 then add64 address r.addend else address)

  unfoldable pub relocation_value : Rela → Loader ℕ
  relocation_value r =
      if type_of r == r_x86_64_relative
      then (do
        reject (not (symbol_index r == 0)) invalid_dynamic_table
        pure (add64 options.load_bias r.addend))
      else if type_of r == r_x86_64_64
          || type_of r == r_x86_64_glob_dat
          || type_of r == r_x86_64_jump_slot
      then symbol_value r
      else refuse unsupported_relocation

  -- One round of the loop, on the entry at `at`.
  unfoldable pub relocate : (at : ℕ) → Loader (Unit {0})
  relocate at = do
    r ← view capacity rela_size rela_at at
    target ← in_image r.offset 8 image_base image_span invalid_dynamic_table
    value ← relocation_value r
    store64 capacity target value

  unfoldable pub relocate_loop : (left at : ℕ) → Loader (Unit {0})
  relocate_loop zero at = pure tt
  relocate_loop (suc left) at = do relocate at; relocate_loop left (at + rela_size)

  unfoldable pub apply_relocations : (rela_address size : ℕ) → Loader (Unit {0})
  apply_relocations rela_address size = if size == 0 then pure tt else do
    reject
        (not (size % rela_size == 0)
          || not dynamic.has_symtab
          || not dynamic.has_syment
          || not (dynamic.syment == symbol_size)
          || not dynamic.has_strtab
          || not dynamic.has_strsz)
        invalid_dynamic_table
    at ← in_image rela_address size image_base image_span invalid_dynamic_table
    relocate_loop (size / rela_size) at
