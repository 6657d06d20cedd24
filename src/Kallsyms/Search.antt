-- ===== src/Kallsyms/Search.antt =====
-- The binary search of kallsyms/kallsyms.cpp on a sorted table.
use synx.Prelude.{
  ℕ, zero, suc, ◌+◌, ◌-◌, ◌/◌, ◌≤◌, ◌<◌, ◌≡◌, ◌⊎◌, inl, inr, refl, arith, ◌&&◌, Option, none, some,
  ◌==◌, ltb, leb, Bool-cases, ==_iff, ap,
}
use synx.Kallsyms.{Stop, found, at_end, search_loop, symbol_at, kallsyms_lookup}

-- The addresses ascend, as the Makefile's table has them.
abbrev pub IsSorted : (addr : ℕ → ℕ) (count : ℕ) → Type 0
IsSorted addr count = (i j : ℕ) → i ≤ j → j < count → addr i ≤ addr j

-- Entry `i` is the last one at or below the address.
pub record Nearest (addr : ℕ → ℕ) (count wanted i : ℕ) : Type 0 where
  pub inside : i < count
  pub below : addr i ≤ wanted
  pub last : (j : ℕ) → (count ≤ j) ⊎ ((wanted < addr j) ⊎ (addr j ≤ addr i))

-- What the lookup gave: the name and the offset of the nearest symbol, or none where every symbol lies
-- above the address.
abbrev pub LookedUp : (addr name : ℕ → ℕ) (count wanted : ℕ) → Option (ℕ × ℕ) → Type 0
LookedUp addr name count wanted r =
    ((i : ℕ) × Nearest addr count wanted i × (r ≡ some (name i, wanted - addr i)))
    ⊎ ((r ≡ none) × ((j : ℕ) → (count ≤ j) ⊎ (wanted < addr j)))

module _ (addr name : ℕ → ℕ) (count wanted : ℕ) (sorted : IsSorted addr count) where
  abbrev Stopped : Stop → Type 0
  Stopped s =
      ((i : ℕ) × (s ≡ found i) × (i < count) × (addr i ≡ wanted))
      ⊎ ((left : ℕ) × (s ≡ at_end left)
          × (left ≤ count)
          × ((j : ℕ) → j < left → addr j < wanted)
          × ((j : ℕ) → left ≤ j → j < count → wanted < addr j))

  search_loop-Stopped :
      (fuel left right : ℕ)
      → left ≤ right
      → right ≤ count
      → right < fuel + left
      → ((j : ℕ) → j < left → addr j < wanted)
      → ((j : ℕ) → right ≤ j → j < count → wanted < addr j)
      → Stopped (search_loop addr name count fuel wanted left right)
  unfolding search_loop
  search_loop-Stopped zero left right lr rc enough lows highs = absurd (omega arith)
  search_loop-Stopped (suc fuel) left right lr rc enough lows highs =
      elim (Bool-cases (ltb left right)) [
        | inr done ↦
            rw (done, search_loop)
              (inr (left, refl, omega arith, lows, λ j l h. highs j (ground arith) h))
        | inl go ↦
            let mid = left + (right - left) / 2 in
            let above : left ≤ mid = omega arith in
            let under : mid < right = ground arith in
            rw (go, search_loop)
              (elim (Bool-cases (addr mid == wanted)) [
                | inl hit ↦ rw hit (inl (mid, refl, omega arith, (==_iff (addr mid) wanted).0 hit))
                | inr miss ↦ rw miss (elim (Bool-cases (ltb (addr mid) wanted)) [
                  | inl up ↦ rw up (
                      search_loop-Stopped fuel (mid + 1) right (omega arith) rc (omega arith)
                        (λ j l. ground (arith, sorted j mid)) highs)
                  | inr down ↦ rw down (
                      search_loop-Stopped fuel left mid (omega arith) (omega arith) (omega arith)
                        lows (λ j l h. ground (arith, sorted mid j)))
                ])
              ])
      ]

  symbol_at-LookedUp :
      (s : Stop) → Stopped s → LookedUp addr name count wanted (symbol_at addr name count wanted s)
  unfolding symbol_at
  symbol_at-LookedUp s (inl (i, e, inside, hit)) =
      rw (e, symbol_at)
        (inl (
          i,
          record { inside = inside; below = omega arith; last = λ j. ground arith },
          ap (λ o. some (name i, o)) (omega arith),
        ))
  symbol_at-LookedUp s (inr (left, e, inside, lows, highs)) =
      rw (e, symbol_at)
        (elim (Bool-cases (ltb 0 left && leb (addr (left - 1)) wanted)) [
          | inl before ↦ rw before (
              inl (
                left - 1,
                record {
                  inside = ground arith;
                  below = ground arith;
                  last = λ j. ground (arith, sorted j (left - 1), highs j);
                },
                refl,
              ))
          | inr first ↦ rw first (inr (refl, λ j. ground (arith, highs j, lows j, lows (left - 1))))
        ])

-- On an ascending table the lookup gives the name of the last symbol at or below the address, and the
-- distance to it; it finds none exactly where the table is empty or every symbol lies above the
-- address. The loop never runs out of rounds.
pub kallsyms_lookup-LookedUp :
    (addr name : ℕ → ℕ) (count wanted : ℕ)
    → IsSorted addr count
    → LookedUp addr name count wanted (kallsyms_lookup addr name count wanted)
unfolding kallsyms_lookup
kallsyms_lookup-LookedUp addr name count wanted sorted = elim (Bool-cases (count == 0)) [
  | inl none_at_all ↦ rw none_at_all (inr (refl, λ j. ground arith))
  | inr some_there ↦ rw some_there (
      symbol_at-LookedUp addr name count wanted sorted _ (
        search_loop-Stopped addr name count wanted sorted (count + 1) 0 count (omega arith)
          (omega arith) (omega arith) (λ j l. ground arith) (λ j l h. ground arith)))
]
