-- ===== src/Dynlink/Relocated.antt =====
-- `apply_relocations` of proc/dynlink.cpp stays in the image.
use synx.Prelude.{
  ℕ, zero, suc, ◌+◌, ◌*◌, ◌/◌, ◌^◌, ◌≤◌, arith, Bool, not, List, Option, none, some, ◌==◌,
  if◌then◌else◌,
}
use synx.Elf.{Rela, Symbol, rela_at, symbol_at, rela_size, symbol_size}
use synx.Dynlink.{
  Options, pure, refuse, invalid_dynamic_table, unresolved_symbol, unsupported_relocation,
}
use synx.Dynlink.Safe.{
  Safe, Any, pure-Safe, refuse-Safe, if-Safe, bind-Safe, then-Safe, reject-Safe, in_image-Safe,
  view-Safe, store64-Safe, bounded_string-Safe,
}
use synx.Dynlink.Relocate.{
  DynamicInfo, stb_weak, type_of, unless_weak, symbol_address, symbol_name, symbol_value,
  relocation_value, relocate, relocate_loop, apply_relocations, r_x86_64_relative,
}

module _ (capacity image_base span : ℕ) (dynamic : DynamicInfo) (options : Options)
    (le : span ≤ capacity) where
  unless_weak-Safe : (s : Symbol) (left_there : ℕ) → Safe span Any (unless_weak s left_there)
  unfolding unless_weak
  unless_weak-Safe s left_there =
      if-Safe (s.info / 2 ^ 4 == stb_weak) (λ _. pure-Safe _ tt)
        (λ _. refuse-Safe unresolved_symbol)

  symbol_address-Safe : (s : Symbol) (name : List ℕ) → Safe span Any (symbol_address options s name)
  unfolding symbol_address
  symbol_address-Safe s name =
      if-Safe (not (s.section == 0)) (λ _. pure-Safe _ tt) (λ _. go options.resolve_symbol)
    where
      go :
          (o : Option (List ℕ → Bool × ℕ))
          → Safe span Any (elim o [
            | none ↦ unless_weak s 0
            | some resolve ↦
                if (resolve name).0 then pure (resolve name).1 else unless_weak s (resolve name).1
          ])
      go none = unless_weak-Safe s 0
      go (some resolve) =
          if-Safe (resolve name).0 (λ _. pure-Safe _ tt) (λ _. unless_weak-Safe s (resolve name).1)

  symbol_name-Safe :
      (at : ℕ) → Safe span Any (symbol_name capacity image_base span dynamic options at)
  unfolding symbol_name
  symbol_name-Safe at =
      bind-Safe (in_image-Safe dynamic.strtab dynamic.strsz image_base span invalid_dynamic_table)
        (λ strings r.
          bind-Safe {P = Any} (bounded_string-Safe capacity strings dynamic.strsz at (omega arith))
            (λ found _. go found))
    where
      go :
          (o : Option (List ℕ))
          → Safe {A = List ℕ} span Any
              (elim o [ none ↦ refuse invalid_dynamic_table | some name ↦ pure name ])
      go none = refuse-Safe invalid_dynamic_table
      go (some name) = pure-Safe name tt

  symbol_value-Safe :
      (r : Rela) → Safe span Any (symbol_value capacity image_base span dynamic options r)
  unfolding symbol_value
  symbol_value-Safe r = then-Safe (reject-Safe _ invalid_dynamic_table) (λ _.
      bind-Safe (in_image-Safe _ symbol_size image_base span invalid_dynamic_table) (λ at range.
        bind-Safe {P = Any}
          (view-Safe capacity symbol_size symbol_at at (omega arith) (λ image. tt))
          (λ s _. bind-Safe {P = Any} (symbol_name-Safe s.name) (λ name _.
            bind-Safe {P = Any} (symbol_address-Safe s name) (λ address _. pure-Safe _ tt)))))

  relocation_value-Safe :
      (r : Rela) → Safe span Any (relocation_value capacity image_base span dynamic options r)
  unfolding relocation_value
  relocation_value-Safe r =
      if-Safe (type_of r == r_x86_64_relative)
        (λ _. then-Safe (reject-Safe _ invalid_dynamic_table) (λ _. pure-Safe _ tt))
        (λ _. if-Safe _ (λ _. symbol_value-Safe r) (λ _. refuse-Safe unsupported_relocation))

  relocate-Safe :
      (at : ℕ)
      → at + rela_size ≤ span
      → Safe span Any (relocate capacity image_base span dynamic options at)
  unfolding relocate
  relocate-Safe at fits =
      bind-Safe {P = Any} (view-Safe capacity rela_size rela_at at (omega arith) (λ image. tt))
        (λ r _.
          bind-Safe (in_image-Safe r.offset 8 image_base span invalid_dynamic_table)
            (λ target range.
              bind-Safe {P = Any} (relocation_value-Safe r)
                (λ value _. store64-Safe capacity target value (omega arith) le)))

  relocate_loop-Safe :
      (left at : ℕ)
      → at + left * rela_size ≤ span
      → Safe span Any (relocate_loop capacity image_base span dynamic options left at)
  unfolding relocate_loop
  relocate_loop-Safe zero at fits = pure-Safe _ tt
  relocate_loop-Safe (suc left) at fits =
      then-Safe (relocate-Safe at (omega arith))
        (λ _. relocate_loop-Safe left (at + rela_size) (omega arith))

  pub apply_relocations-Safe :
      (rela_address size : ℕ)
      → Safe span Any (apply_relocations capacity image_base span dynamic options rela_address size)
  unfolding apply_relocations
  apply_relocations-Safe rela_address size =
      if-Safe (size == 0) (λ _. pure-Safe _ tt)
        (λ _. then-Safe (reject-Safe _ invalid_dynamic_table) (λ _.
          bind-Safe (in_image-Safe rela_address size image_base span invalid_dynamic_table)
            (λ at range. relocate_loop-Safe (size / rela_size) at (omega arith))))
