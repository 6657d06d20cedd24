-- ===== src/Madt/Find.antt =====
-- `find_madt` (src/madt.cpp) finds the first table with the signature.
use mathlib.Core.Path.{subst}
use native.Mathlib.Decide.{ℕ_discrete}
use synx.Prelude.{
  ℕ, zero, suc, ◌+◌, ◌≤◌, ◌<◌, ◌≡◌, ◌⊎◌, inl, inr, refl, arith, true, false, Bool-cases,
}
use synx.Elf.{Bytes}
use synx.Madt.{Found, panic, table_at, is_apic, table_of, find_loop}

-- What the loop gives: the first table with the signature, or a panic if none of them has it.
abbrev pub FirstApic : (mem : Bytes) (offset sdt entry_size first last : ℕ) → Found → Type 0
FirstApic mem offset sdt entry_size first last r =
    ((r ≡ panic)
      × ((j : ℕ)
          → first ≤ j
          → j < last
          → is_apic mem (table_of mem offset sdt entry_size j) ≡ false))
    ⊎ ((i : ℕ) × (first ≤ i)
        × (i < last)
        × (r ≡ table_at (table_of mem offset sdt entry_size i))
        × (is_apic mem (table_of mem offset sdt entry_size i) ≡ true)
        × ((j : ℕ)
            → first ≤ j
            → j < i
            → is_apic mem (table_of mem offset sdt entry_size j) ≡ false))

or_here :
    (mem : Bytes) (offset sdt entry_size i j : ℕ)
    → is_apic mem (table_of mem offset sdt entry_size i) ≡ false
    → i ≤ j
    → (i + 1 ≤ j → is_apic mem (table_of mem offset sdt entry_size j) ≡ false)
    → is_apic mem (table_of mem offset sdt entry_size j) ≡ false
or_here mem offset sdt entry_size i j here a later = elim (ℕ_discrete i j) [
  | yes e ↦ subst (λ k. is_apic mem (table_of mem offset sdt entry_size k) ≡ false) e here
  | no ne ↦ later (omega arith)
]

FirstApic-later :
    (mem : Bytes) (offset sdt entry_size i last : ℕ) (r : Found)
    → is_apic mem (table_of mem offset sdt entry_size i) ≡ false
    → FirstApic mem offset sdt entry_size (i + 1) last r
    → FirstApic mem offset sdt entry_size i last r
FirstApic-later mem offset sdt entry_size i last r other (inl (e, all)) =
    inl (e, λ j a b. or_here mem offset sdt entry_size i j other a (λ l. all j l b))
FirstApic-later mem offset sdt entry_size i last r other (inr (k, above, below, e, apic, before)) =
    inr (
      k,
      omega arith,
      below,
      e,
      apic,
      λ j a b. or_here mem offset sdt entry_size i j other a (λ l. before j l b),
    )

-- The loop of `find_madt` gives the first table from `i` on, of `left` tables, that has the signature
-- "APIC"; it panics only if none of them has it.
pub find_loop-FirstApic :
    (mem : Bytes) (offset sdt entry_size left i : ℕ)
    → FirstApic mem offset sdt entry_size i (i + left) (find_loop mem offset sdt entry_size left i)
unfolding find_loop
find_loop-FirstApic mem offset sdt entry_size zero i = inl (refl, λ j a b. absurd (omega arith))
find_loop-FirstApic mem offset sdt entry_size (suc left) i =
    elim (Bool-cases (is_apic mem (table_of mem offset sdt entry_size i))) [
      | inl here ↦
          rw (find_loop, here)
            (inr (i, omega arith, omega arith, refl, here, λ j a b. absurd (omega arith)))
      | inr other ↦
          rw (find_loop, other)
            (FirstApic-later mem offset sdt entry_size i (i + suc left) _ other (
              subst
                (λ last.
                  FirstApic mem offset sdt entry_size (i + 1) last
                    (find_loop mem offset sdt entry_size left (i + 1)))
                (omega arith) (find_loop-FirstApic mem offset sdt entry_size left (i + 1))))
    ]
