-- ===== src/Kallsyms.antt =====
-- kallsyms/kallsyms.cpp: the name of the function that an address lies in. The symbol table is written
-- by the Makefile; it is a parameter here: the addresses, the names and the number of entries.
pub mod Search
mod Tests
use synx.Prelude.{
  ℕ, zero, suc, ◌+◌, ◌-◌, ◌/◌, Bool, true, false, ◌&&◌, Option, none, some, ◌==◌, ltb, leb,
  if◌then◌else◌,
}

-- Where the loop stopped: at an exact match, at `left ≡ right`, or out of fuel.
pub data Stop : Type 0 where
  found at_end : ℕ → Stop
  no_fuel : Stop

module _ (addr : ℕ → ℕ) (name : ℕ → ℕ) (count : ℕ) where
  -- The loop of `kallsyms_lookup`.
  pub search_loop : (fuel : ℕ) → (wanted left right : ℕ) → Stop
  search_loop zero wanted left right = no_fuel
  search_loop (suc fuel) wanted left right =
      let mid = left + (right - left) / 2 in
      elim (ltb left right) [
        | false ↦ at_end left
        | true ↦ elim (addr mid == wanted) [
          | true ↦ found mid
          | false ↦ elim (ltb (addr mid) wanted) [
            | true ↦ search_loop fuel wanted (mid + 1) right
            | false ↦ search_loop fuel wanted left mid
          ]
        ]
      ]

  -- The end of `kallsyms_lookup`, on the result of the loop: the name and the offset in the function.
  pub symbol_at : (wanted : ℕ) → Stop → Option (ℕ × ℕ)
  symbol_at wanted no_fuel = none
  symbol_at wanted (found mid) = some (name mid, 0)
  symbol_at wanted (at_end left) =
      if ltb 0 left && leb (addr (left - 1)) wanted
      then some (name (left - 1), wanted - addr (left - 1))
      else none

  -- `count + 1` rounds are enough: each round makes the range smaller.
  pub kallsyms_lookup : (wanted : ℕ) → Option (ℕ × ℕ)
  unfolding search_loop
  kallsyms_lookup wanted =
      if count == 0 then none else symbol_at wanted (search_loop (count + 1) wanted 0 count)
