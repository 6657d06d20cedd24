-- ===== src/Kallsyms/Tests.antt =====
-- Lookups in a small table.
use synx.Prelude.{ℕ, ◌≡◌, refl, arith, some, ◌+◌, ◌*◌}
use synx.Kallsyms.{search_loop, symbol_at, kallsyms_lookup}
use synx.Kallsyms.Search.{IsSorted, LookedUp, kallsyms_lookup-LookedUp}

-- Three functions of 64 bytes; the names stand at 7, 8 and 9.
abbrev starts : ℕ → ℕ
starts i = 0x1000 + i * 0x40

abbrev names : ℕ → ℕ
names i = 7 + i

starts-IsSorted : IsSorted starts 3
starts-IsSorted i j le lt = omega arith

kallsyms_lookup-LookedUp_example :
    LookedUp starts names 3 0x1055 (kallsyms_lookup starts names 3 0x1055)
kallsyms_lookup-LookedUp_example = kallsyms_lookup-LookedUp starts names 3 0x1055 starts-IsSorted

looked_up : kallsyms_lookup starts names 3 0x1055 ≡ some (8, 0x15)
unfolding kallsyms_lookup search_loop symbol_at
looked_up = refl
