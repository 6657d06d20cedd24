-- ===== src/Exec/Accept.antt =====
-- The programs that `load_image` (proc/elf_exec.cpp) goes on to map.
use synx.Prelude.{
  guard_passed, ℕ, zero, suc, ◌+◌, ◌-◌, ◌*◌, ◌≤◌, ◌<◌, ◌≡◌, ◌⊎◌, inl, inr, refl, arith, ap, sym,
  ◌∙◌, Bool, true, false, ◌||◌, List, [], ◌∷◌, ◌++◌, Option, none, some, ◌==◌, ltb, if◌then◌else◌,
  get_elem?, add64, word64,
}
use mathlib.Core.Path.{subst}
use mathlib.Core.Option.{some-injective}
use mathlib.Core.List.{append_assoc, append-nil}
use synx.Elf.{
  Bytes, ElfHeader, ProgramHeader, elf_header_at, program_header_at, elf_header_size,
  program_header_size,
}
use synx.Exec.{
  pie_base, pt_load, max_exec_file_size, Headers, note_load, note_header, collect, no_headers,
  bad_image, check_segments, Plan, check_plan, plan_header, admit_image, range_valid,
}
use synx.Exec.Admit.{
  Good, Disjoint, Enters, LoopDone, check_segments-LoopDone, AllGood-get, AllApart-get,
}

-- The loadable headers of a program, in the order of the file.
abbrev pub loads : (file : Bytes) (phoff left i : ℕ) → List ProgramHeader
loads file phoff zero i = []
loads file phoff (suc left) i =
    let p = program_header_at file (add64 phoff (i * program_header_size)) in
    let rest = loads file phoff left (i + 1) in if p.type == pt_load then p ∷ rest else rest

note_header-segments :
    (file_size : ℕ) (p : ProgramHeader) (c c' : Headers)
    → note_header file_size p c ≡ some c'
    → c'.segments ≡ (if p.type == pt_load then c.segments ++ (p ∷ []) else c.segments)
unfolding note_header note_load
note_header-segments file_size p c c' h = ground arith

collect-loads :
    (file : Bytes) (file_size phoff left i : ℕ) (c c' : Headers)
    → collect file file_size phoff left i c ≡ some c'
    → c'.segments ≡ c.segments ++ loads file phoff left i
unfolding collect
collect-loads file file_size phoff zero i c c' h =
    ap (λ d. d.segments) (some-injective _ _ (sym h)) ∙ sym (append-nil c.segments)
collect-loads file file_size phoff (suc left) i c c' h =
    go (note_header file_size (program_header_at file (add64 phoff (i * program_header_size))) c)
      refl h (λ d. collect-loads file file_size phoff left (i + 1) d c')
  where
    keep :
        (b : Bool) (p : ProgramHeader)
        → (if b then c.segments ++ (p ∷ []) else c.segments) ++ loads file phoff left (i + 1)
          ≡ c.segments
            ++ (if b then p ∷ loads file phoff left (i + 1) else loads file phoff left (i + 1))
    keep true p = append_assoc c.segments (p ∷ []) (loads file phoff left (i + 1))
    keep false p = refl

    go :
        (o : Option Headers)
        → note_header file_size (program_header_at file (add64 phoff (i * program_header_size))) c
          ≡ o
        → (elim o [ none ↦ none | some d ↦ collect file file_size phoff left (i + 1) d ]) ≡ some c'
        → ((d : Headers)
            → collect file file_size phoff left (i + 1) d ≡ some c'
            → c'.segments ≡ d.segments ++ loads file phoff left (i + 1))
        → c'.segments ≡ c.segments ++ loads file phoff (suc left) i
    go none e h' later = absurd (cc)
    go (some d) e h' later =
        let p : ProgramHeader = program_header_at file (add64 phoff (i * program_header_size)) in
        later d h'
        ∙ ap (λ l. l ++ loads file phoff left (i + 1)) (note_header-segments file_size p c d e)
        ∙ keep (p.type == pt_load) p

-- A program that the loader goes on to map.
pub record Admitted (file : Bytes) (file_size : ℕ) (plan : Plan) : Type 0 where
  pub size_in_range : (elf_header_size ≤ file_size) × (file_size ≤ max_exec_file_size)
  pub position_independent :
      ((plan.header.type ≡ 3) × (plan.bias ≡ pie_base)) ⊎ ((plan.header.type ≡ 2) × (plan.bias ≡ 0))
  pub entry_moved : plan.entry ≡ plan.header.entry + plan.bias
  pub headers_in_file : plan.header.phoff + plan.header.phnum * program_header_size ≤ file_size
  pub all_loads : plan.headers.segments ≡ loads file plan.header.phoff plan.header.phnum 0
  pub all_good :
      (i : ℕ) (p : ProgramHeader)
      → get_elem? plan.headers.segments i ≡ some p
      → Good file_size plan.bias p
  pub all_disjoint :
      (i j : ℕ) (p q : ProgramHeader)
      → i < j
      → get_elem? plan.headers.segments i ≡ some p
      → get_elem? plan.headers.segments j ≡ some q
      → Disjoint p q
  pub enters : Enters file_size plan.bias plan.entry plan.headers.segments

module _ (file : Bytes) (file_size : ℕ) where
  check_plan-LoopDone :
      (plan plan' : Plan)
      → check_plan file_size plan ≡ some plan'
      → (plan ≡ plan') × LoopDone file_size plan.bias plan.entry [] plan.headers.segments false true
  unfolding check_plan
  check_plan-LoopDone plan plan' h =
      go (check_segments file_size plan.bias plan.entry [] plan.headers.segments false) refl
        (guard_passed _ _ _ h).1
    where
      go :
          (o : Option Bool)
          → check_segments file_size plan.bias plan.entry [] plan.headers.segments false ≡ o
          → (elim o [ none ↦ none | some entered ↦ if entered then some plan else none ])
            ≡ some plan'
          → (plan ≡ plan')
            × LoopDone file_size plan.bias plan.entry [] plan.headers.segments false true
      go none e h' = absurd (cc)
      go (some false) e h' = absurd (cc)
      go (some true) e h' = (
        some-injective _ _ h',
        check_segments-LoopDone file_size plan.bias plan.entry [] plan.headers.segments false true
            e,
      )

  -- What the header's tests let through.
  record Header (h : ElfHeader) : Type 0 where
    kind :
        ((h.type ≡ 3) × ((if h.type == 3 then pie_base else 0) ≡ pie_base))
        ⊎ ((h.type ≡ 2) × ((if h.type == 3 then pie_base else 0) ≡ 0))
    table : h.phoff + h.phnum * program_header_size ≤ file_size

  bad_image-Header : (h : ElfHeader) → bad_image h file_size ≡ false → Header h
  unfolding bad_image range_valid
  bad_image-Header h e = record { kind = ground arith; table = ground arith }

  pub plan_header-Admitted :
      (plan : Plan) (h : ElfHeader)
      → elf_header_size ≤ file_size
      → file_size ≤ max_exec_file_size
      → plan_header file file_size h ≡ some plan
      → Admitted file file_size plan
  unfolding plan_header
  plan_header-Admitted plan h low high e =
      go (collect file file_size h.phoff h.phnum 0 no_headers) refl (guard_passed _ _ _ e)
    where
      bias : ℕ
      bias = if h.type == 3 then pie_base else 0

      planned : Headers → Plan
      planned headers = record {
        header = h;
        headers = headers;
        bias = bias;
        entry = h.entry + bias;
      }

      go :
          (o : Option Headers)
          → collect file file_size h.phoff h.phnum 0 no_headers ≡ o
          → ((bad_image h file_size || ltb (word64 - 1 - bias) h.entry) ≡ false)
            × ((elim o [ none ↦ none | some headers ↦ check_plan file_size (planned headers) ])
                ≡ some plan)
          → Admitted file file_size plan
      go none c (ok, e') = absurd (cc)
      go (some headers) c (ok, e') =
          let header = bad_image-Header h (ground arith) in
          let (same, loop) = check_plan-LoopDone (planned headers) plan e' in
          subst (Admitted file file_size) same (record {
            size_in_range = (low, high);
            position_independent = header.kind;
            entry_moved = refl;
            headers_in_file = header.table;
            all_loads = collect-loads file file_size h.phoff h.phnum 0 no_headers headers c;
            all_good =
                λ i p. AllGood-get file_size bias (h.entry + bias) headers.segments p i loop.good;
            all_disjoint = λ i j p q lt at_i at_j.
                AllApart-get file_size bias (h.entry + bias) [] headers.segments p q i j loop.apart
                  at_j (inr (lt, at_i));
            enters = elim (loop.enters refl) [ inl old ↦ absurd (cc) | inr there ↦ there ];
          })

-- When the checks of `load_image` let a program through, then the file's size is in the range that it
-- takes; the bias is `pie_base` for a position-independent program and 0 for a fixed one, and the
-- entry point is the header's plus the bias; the program headers are in the file; the
-- segments are the headers of type PT_LOAD in their order; each fits its memory and lies in the file,
-- in user space, above the first page and below the stack where it has a size, and is not both
-- writable and executable; no two of them share an address; and one is executable and holds the entry point.
pub admit_image-Admitted :
    (file : Bytes) (file_size : ℕ) (plan : Plan)
    → admit_image file file_size ≡ some plan
    → Admitted file file_size plan
unfolding admit_image
admit_image-Admitted file file_size plan h =
    let (sized, planned) =
      guard_passed (ltb file_size elf_header_size || ltb max_exec_file_size file_size)
        (plan_header file file_size (elf_header_at file 0)) plan h in
    plan_header-Admitted file file_size plan (elf_header_at file 0) (ground arith) (ground arith)
      planned
