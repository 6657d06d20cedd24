-- ===== src/Madt/Walk.antt =====
-- The walk of `parse` (src/madt.cpp) over the entries of the table.
use mathlib.Core.List.{append_assoc, append-nil}
use synx.Prelude.{
  ℕ, zero, suc, ◌+◌, ◌-◌, ◌≤◌, ◌<◌, ◌≡◌, ◌∙◌, sym, ap, refl, arith, Bool, true, false, List, [],
  ◌∷◌, ◌++◌, some, none, Bool-cases, inl, inr, if◌then◌else◌, ◌==◌, ltb, length, take,
  length-append,
}
use synx.Elf.{Bytes, little_endian}
use synx.Madt.{
  ApicInfo, madt_header_size, max_ioapics, max_isos, io_apic_at, iso_at, note_entry, parse_loop,
  parse_table,
}

-- The entries from `ptr` to `end`, each with a length, one after the other.
pub data Chain (mem : Bytes) (end : ℕ) : ℕ → List ℕ → Type 0 where
  finished : (ptr : ℕ) → end ≤ ptr → Chain mem end ptr []
  entry :
      (ptr : ℕ) (later : List ℕ)
      → ptr < end
      → 1 ≤ mem (ptr + 1)
      → Chain mem end (ptr + mem (ptr + 1)) later
      → Chain mem end ptr (ptr ∷ later)

-- The entries of a type, as `read` gives them.
abbrev pub typed {ℓ} : {A : Type ℓ} (mem : Bytes) (type : ℕ) (read : ℕ → A) → List ℕ → List A
typed mem type read [] = []
typed mem type read (e ∷ later) =
    let rest = typed mem type read later in if mem e == type then read e ∷ rest else rest

take-nil {ℓ} : {A : Type ℓ} (n : ℕ) → take {A = A} n [] ≡ []
take-nil zero = refl
take-nil (suc n) = refl

take-all {ℓ} : {A : Type ℓ} (n : ℕ) (xs : List A) → length xs ≤ n → take n xs ≡ xs
take-all n [] short = take-nil n
take-all zero (x ∷ xs) short = absurd (omega arith)
take-all (suc n) (x ∷ xs) short = ap (λ l. x ∷ l) (take-all n xs (omega arith))

take-append {ℓ} :
    {A : Type ℓ} (n : ℕ) (xs ys zs : List A) → n ≤ length xs → take n (xs ++ ys) ≡ take n (xs ++ zs)
take-append zero xs ys zs enough = refl
take-append (suc n) [] ys zs enough = absurd (omega arith)
take-append (suc n) (x ∷ xs) ys zs enough = ap (λ l. x ∷ l) (take-append n xs ys zs (omega arith))

-- An element that is added where there is room.
abbrev add_limited {ℓ} : {A : Type ℓ} (n : ℕ) → List A → A → List A
add_limited n xs x = if ltb (length xs) n then xs ++ (x ∷ []) else xs

take-add_limited {ℓ} :
    {A : Type ℓ} (n : ℕ) (xs ys : List A) (x : A)
    → take n (add_limited n xs x ++ ys) ≡ take n (xs ++ (x ∷ ys))
take-add_limited n xs ys x = elim (Bool-cases (ltb (length xs) n)) [
  | inl room ↦ rw room (ap (take n) (append_assoc xs (x ∷ []) ys))
  | inr full ↦ rw full (take-append n xs ys (x ∷ ys) (ground arith))
]

length-add_limited {ℓ} :
    {A : Type ℓ} (n : ℕ) (xs : List A) (x : A) → length xs ≤ n → length (add_limited n xs x) ≤ n
length-add_limited n xs x fits = elim (Bool-cases (ltb (length xs) n)) [
  | inl room ↦ rw (room, length-append xs (x ∷ [])) (ground arith)
  | inr full ↦ rw full fits
]

take-step {ℓ} :
    {A : Type ℓ} (b : Bool) (n : ℕ) (xs rest : List A) (x : A)
    → take n ((if b then add_limited n xs x else xs) ++ rest)
      ≡ take n (xs ++ (if b then x ∷ rest else rest))
take-step true n xs rest x = take-add_limited n xs rest x
take-step false n xs rest x = refl

length-step {ℓ} :
    {A : Type ℓ} (b : Bool) (n : ℕ) (xs : List A) (x : A)
    → length xs ≤ n
    → length (if b then add_limited n xs x else xs) ≤ n
length-step true n xs x fits = length-add_limited n xs x fits
length-step false n xs x fits = fits

-- The information after the entries: those that have room, in their order.
pub record Noted (mem : Bytes) (es : List ℕ) (before after : ApicInfo) : Type 0 where
  pub base : after.lapic_phys_base ≡ before.lapic_phys_base
  pub ioapics : after.ioapics ≡ take max_ioapics (before.ioapics ++ typed mem 1 (io_apic_at mem) es)
  pub isos : after.isos ≡ take max_isos (before.isos ++ typed mem 2 (iso_at mem) es)

module _ (mem : Bytes) where
  -- The lists have no more elements than the arrays.
  record Fits (info : ApicInfo) : Type 0 where
    ioapics : length info.ioapics ≤ max_ioapics
    isos : length info.isos ≤ max_isos

  -- A round adds to one of the lists, or to none.
  note_entry-io :
      (e : ℕ) (info : ApicInfo)
      → (note_entry mem e info).ioapics ≡ (
          if mem e == 1
          then add_limited max_ioapics info.ioapics (io_apic_at mem e)
          else info.ioapics)
  unfolding note_entry
  note_entry-io e info = ground arith

  note_entry-iso :
      (e : ℕ) (info : ApicInfo)
      → (note_entry mem e info).isos
        ≡ (if mem e == 2 then add_limited max_isos info.isos (iso_at mem e) else info.isos)
  unfolding note_entry
  note_entry-iso e info = ground arith

  note_entry-base :
      (e : ℕ) (info : ApicInfo) → (note_entry mem e info).lapic_phys_base ≡ info.lapic_phys_base
  unfolding note_entry
  note_entry-base e info = ground arith

  note_entry-Fits : (e : ℕ) (info : ApicInfo) → Fits info → Fits (note_entry mem e info)
  note_entry-Fits e info fits = record {
    ioapics =
        rw (note_entry-io e info)
          (length-step (mem e == 1) max_ioapics info.ioapics (io_apic_at mem e) fits.ioapics);
    isos =
        rw (note_entry-iso e info)
          (length-step (mem e == 2) max_isos info.isos (iso_at mem e) fits.isos);
  }

  Noted-step :
      (e : ℕ) (later : List ℕ) (info after : ApicInfo)
      → Noted mem later (note_entry mem e info) after
      → Noted mem (e ∷ later) info after
  Noted-step e later info after h = record {
    base = h.base ∙ note_entry-base e info;
    ioapics =
        h.ioapics
        ∙ ap (λ l. take max_ioapics (l ++ typed mem 1 (io_apic_at mem) later))
            (note_entry-io e info)
        ∙ take-step (mem e == 1) max_ioapics info.ioapics _ (io_apic_at mem e);
    isos =
        h.isos
        ∙ ap (λ l. take max_isos (l ++ typed mem 2 (iso_at mem) later)) (note_entry-iso e info)
        ∙ take-step (mem e == 2) max_isos info.isos _ (iso_at mem e);
  }

  parse_loop-Noted :
      (fuel ptr end : ℕ) (es : List ℕ) (info : ApicInfo)
      → Chain mem end ptr es
      → Fits info
      → end - ptr < fuel
      → (after : ApicInfo) × (parse_loop mem fuel ptr end info ≡ some after)
        × Noted mem es info after
  unfolding parse_loop
  parse_loop-Noted zero ptr end es info chain fits enough = absurd (omega arith)
  parse_loop-Noted (suc fuel) ptr end [] info (finished _ over) fits enough = (
    info,
    ground arith,
    record {
      base = refl;
      ioapics = sym (ap (take max_ioapics) (append-nil info.ioapics) ∙ take-all _ _ fits.ioapics);
      isos = sym (ap (take max_isos) (append-nil info.isos) ∙ take-all _ _ fits.isos);
    },
  )
  parse_loop-Noted (suc fuel) ptr end (_ ∷ later) info (entry _ _ lt long chain) fits enough =
      let (after, e, noted) =
        parse_loop-Noted fuel (ptr + mem (ptr + 1)) end later (note_entry mem ptr info) chain
          (note_entry-Fits ptr info fits) (omega arith) in
      (after, ground arith, Noted-step ptr later info after noted)

-- On a table whose entries follow each other, each of them with a length, `parse` ends within as many
-- rounds as the table has bytes and one more. It keeps the first 8 entries of type 1 and the first 32
-- of type 2, in their order, and the base address of the table.
pub parse_table-Noted :
    (mem : Bytes) (madt : ℕ) (es : List ℕ)
    → Chain mem (madt + little_endian 4 mem (madt + 4)) (madt + madt_header_size) es
    → (after : ApicInfo) × (parse_table mem (little_endian 4 mem (madt + 4) + 1) madt ≡ some after)
      × Noted mem es
          (record { lapic_phys_base = little_endian 4 mem (madt + 36); ioapics = []; isos = [] })
          after
unfolding parse_table
parse_table-Noted mem madt es chain =
    parse_loop-Noted mem (little_endian 4 mem (madt + 4) + 1) _ _ es _ chain
      (record { ioapics = omega arith; isos = omega arith }) (omega arith)

-- `parse` never ends when it meets an entry whose length is 0.
pub parse_loop-stuck :
    (mem : Bytes) (fuel ptr end : ℕ) (info : ApicInfo)
    → ptr < end
    → mem (ptr + 1) ≡ 0
    → parse_loop mem fuel ptr end info ≡ none
unfolding parse_loop
parse_loop-stuck mem zero ptr end info lt empty = refl
parse_loop-stuck mem (suc fuel) ptr end info lt empty =
    let later = parse_loop-stuck mem fuel ptr end (note_entry mem ptr info) lt empty in
    let stays : ltb ptr end ≡ true = ground arith in
    let same : ptr + mem (ptr + 1) ≡ ptr = omega arith in rw (stays, same) later
