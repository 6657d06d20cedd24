-- ===== src/Dynlink/Whole.antt =====
-- `load_elf64` of proc/dynlink.cpp as a whole: it stays in its blocks, and where its result lies.
use synx.Prelude.{
  ℕ, zero, suc, ◌+◌, ◌-◌, ◌*◌, ◌/◌, ◌≤◌, ◌<◌, ◌≡◌, ◌≢◌, refl, arith, ◌∙◌, Bool, true, false, not,
  ◌&&◌, ◌||◌, List, Option, none, some, ◌==◌, ltb, add64, word64, inl, inr, ◌⊎◌,
}
use synx.Elf.{
  Bytes, ElfHeader, ProgramHeader, DynamicEntry, elf_header_at, dynamic_entry_at, elf_header_size,
  dynamic_entry_size, program_header_at, program_header_size,
}
use synx.Dynlink.{
  Options, Loader, Step, done, halt, fault, pure, refuse, reject, file_range, size_max, ◌>>=◌, ◌>>◌,
  invalid_elf, invalid_argument, unsupported, invalid_dynamic_table, insufficient_memory,
  dependency_error, bounded_string,
}
use synx.Dynlink.Safe.{
  Kept, Ensures, Safe, Any, pure-Safe, refuse-Safe, if-Safe, bind-Safe, then-Safe, reject-Safe,
  in_image-Safe, view_file-Safe, view-Safe, clear-Safe, bounded_string-Safe,
}
use synx.Dynlink.Relocate.{DynamicInfo}
use synx.Dynlink.Relocated.{apply_relocations-Safe}
use synx.Dynlink.Segments.{Checked, Covers, AllScanned, scan_headers-Safe, load_segments-Safe}
use synx.Dynlink.Load.{
  Scan, pt_load, note_entry, dependency, plan_image, parse_dynamic, load_dependencies, string_table,
  relocate_image, place_image, load_elf64, empty_info,
}

module _ (file : Bytes) (file_size capacity : ℕ) (options : Options) where
  parse_dynamic-Safe :
      {span : ℕ} (left at : ℕ) (d : DynamicInfo)
      → at + left * dynamic_entry_size ≤ capacity
      → Safe span Any (parse_dynamic file file_size capacity options left at d)
  unfolding parse_dynamic
  parse_dynamic-Safe zero at d fits = pure-Safe _ tt
  parse_dynamic-Safe (suc left) at d fits =
      bind-Safe {P = Any}
        (view-Safe capacity dynamic_entry_size dynamic_entry_at at (omega arith) (λ image. tt))
        (λ e _.
          if-Safe (e.tag == 0) (λ _. pure-Safe _ tt)
            (λ _. parse_dynamic-Safe left (at + dynamic_entry_size) (note_entry e d) (omega arith)))

  -- The string table lies in the image.
  abbrev TableFits : Option (ℕ × ℕ) → Type 0
  TableFits none = Unit {0}
  TableFits (some (table, size)) = table + size ≤ capacity

  load_dependencies-Safe :
      {span : ℕ} (strings : Option (ℕ × ℕ)) (left at : ℕ)
      → TableFits strings
      → at + left * dynamic_entry_size ≤ capacity
      → Safe span Any (load_dependencies file file_size capacity options strings left at)
  unfolding load_dependencies
  load_dependencies-Safe strings zero at table fits = pure-Safe _ tt
  load_dependencies-Safe {span} strings (suc left) at table fits =
      let here : at + dynamic_entry_size ≤ capacity = omega arith in
      let later : at + dynamic_entry_size + left * dynamic_entry_size ≤ capacity = omega arith in
      let rest =
        load_dependencies-Safe {span = span} strings left (at + dynamic_entry_size) table later in
      bind-Safe {P = Any}
        (view-Safe capacity dynamic_entry_size dynamic_entry_at at here (λ image. tt))
        (λ e _.
          if-Safe (e.tag == 0) (λ _. pure-Safe _ tt)
            (λ _. if-Safe (not (e.tag == 1)) (λ _. rest) (λ _. needed strings e table rest)))
    where
      named :
          (found : Option (List ℕ)) (next : Loader (Unit {0}))
          → Safe span Any next
          → Safe {A = Unit {0}} span Any (elim found [
            | none ↦ refuse invalid_dynamic_table
            | some name ↦ reject (not (dependency options name)) dependency_error >> next
          ])
      named none next rest = refuse-Safe invalid_dynamic_table
      named (some name) next rest =
          then-Safe (reject-Safe (not (dependency options name)) dependency_error) (λ _. rest)

      needed :
          (o : Option (ℕ × ℕ)) (e : DynamicEntry) {next : Loader (Unit {0})}
          → TableFits o
          → Safe span Any next
          → Safe {A = Unit {0}} span Any (elim o [
            | none ↦ refuse invalid_dynamic_table
            | some (start, size) ↦ bounded_string capacity start size e.value >>= λ found.
                elim found [
                  | none ↦ refuse invalid_dynamic_table
                  | some name ↦ reject (not (dependency options name)) dependency_error >> next
                ]
          ])
      needed none e fits' rest = refuse-Safe invalid_dynamic_table
      needed (some (start, size)) e {next} fits' rest =
          bind-Safe {P = Any} (bounded_string-Safe capacity start size e.value fits')
            (λ found _. named found next rest)

  string_table-Safe :
      {span : ℕ} (image_base : ℕ) (d : DynamicInfo)
      → span ≤ capacity
      → Safe span TableFits (string_table file file_size capacity options image_base span d)
  unfolding string_table
  string_table-Safe image_base d le =
      if-Safe (d.has_strtab && d.has_strsz)
        (λ _.
          bind-Safe (in_image-Safe d.strtab d.strsz image_base _ invalid_dynamic_table)
            (λ table range. pure-Safe _ (omega (arith, range.room))))
        (λ _. pure-Safe _ tt)

  relocate_image-Safe :
      {span : ℕ} (image_base : ℕ) (d : DynamicInfo)
      → span ≤ capacity
      → Safe span Any (relocate_image file file_size capacity options image_base span d)
  unfolding relocate_image
  relocate_image-Safe {span} image_base d le =
      let apply = apply_relocations-Safe capacity image_base span d options le in
      then-Safe (reject-Safe _ unsupported) (λ _.
        then-Safe (reject-Safe _ invalid_dynamic_table) (λ _.
          then-Safe {P = Any}
            (if-Safe d.has_relasz (λ _. apply d.rela d.relasz) (λ _. pure-Safe _ tt))
            (λ _.
              if-Safe (d.has_pltrelsz && not (d.pltrelsz == 0))
                (λ _. then-Safe (reject-Safe _ unsupported) (λ _. apply d.jmprel d.pltrelsz))
                (λ _. pure-Safe _ tt))))

-- A loadable segment of some size lies in the image.
abbrev pub InImage : (image_base span : ℕ) → ProgramHeader → Type 0
InImage image_base span p =
    (p.type ≢ pt_load)
    ⊎ ((p.memsz ≡ 0) ⊎ ((image_base ≤ p.vaddr) × (p.vaddr + p.memsz ≤ image_base + span)))

-- Where the entry point lies.
abbrev pub EntryIn : (options : Options) → (image_base span entry : ℕ) → Type 0
EntryIn options image_base span entry =
    (address : ℕ) × (entry ≡ add64 options.load_bias address)
    × (image_base ≤ address)
    × (address < image_base + span)

module _ (file : Bytes) (file_size capacity : ℕ) (options : Options)
    (small : file_size < word64) where
  place_image-Safe :
      (h : ElfHeader) (s : Scan) (span : ℕ)
      → span ≤ capacity
      → h.phoff + h.phnum * program_header_size ≤ file_size
      → ((j : ℕ)
          → j < h.phnum
          → Checked file_size (program_header_at file (add64 h.phoff (j * program_header_size))))
      → Safe span
          (EntryIn options s.image_base span)
          (place_image file file_size capacity options h s span)
  unfolding place_image
  place_image-Safe h s span le table checked =
      then-Safe (clear-Safe capacity span (omega arith) le) (λ _.
        then-Safe
          (load_segments-Safe file file_size h.phoff h.phnum small table options s.image_base span
            capacity le h.phnum 0 (omega arith) checked)
          (λ _. then-Safe (reject-Safe _ invalid_dynamic_table) (λ _.
            bind-Safe
              (in_image-Safe s.dynamic_address s.dynamic_size s.image_base span
                invalid_dynamic_table)
              (λ at range.
                bind-Safe {P = Any}
                  (parse_dynamic-Safe file file_size capacity options
                    (s.dynamic_size / dynamic_entry_size) at empty_info (omega (arith, range.room)))
                  (λ d _. then-Safe (reject-Safe _ invalid_dynamic_table) (λ _.
                    bind-Safe (string_table-Safe file file_size capacity options s.image_base d le)
                      (λ strings fits.
                        then-Safe {P = Any}
                          (load_dependencies-Safe file file_size capacity options strings
                            (s.dynamic_size / dynamic_entry_size) at fits
                            (omega (arith, range.room)))
                          (λ _.
                            then-Safe {P = Any}
                              (relocate_image-Safe file file_size capacity options s.image_base d
                                le)
                              (λ _.
                                bind-Safe (in_image-Safe h.entry 1 s.image_base span invalid_elf)
                                  (λ offset inside. pure-Safe _ (
                                    h.entry,
                                    refl,
                                    omega (arith, inside.from),
                                    omega (arith, inside.from, inside.room),
                                  )))))))))))

-- What `load_elf64` leaves: an error and the bytes behind the buffer; or an entry point and a size that
-- the buffer holds, the bytes behind the image, and the place of the entry point and of every loadable
-- segment in the image.
abbrev pub Loaded :
    (file : Bytes) (capacity : ℕ) (options : Options) → Bytes → Step (ℕ × ℕ) → Type 0
Loaded file capacity options image fault = ⊥
Loaded file capacity options image (halt e image') = Kept capacity image image'
Loaded file capacity options image (done (entry, size) image') =
    (size ≤ capacity)
    × Kept size image image'
    × ((image_base : ℕ) × EntryIn options image_base size entry
        × ((j : ℕ)
            → j < (elf_header_at file 0).phnum
            → InImage image_base size (
                program_header_at file
                  (add64 (elf_header_at file 0).phoff (j * program_header_size)))))

-- No write before the image is cleared; the plan holds the header and what the first pass collects.
module _ (file : Bytes) (file_size : ℕ) (small : file_size < word64) where
  record Planned (plan : ElfHeader × Scan) : Type 0 where
    header_read : plan.0 ≡ elf_header_at file 0
    table : plan.0.phoff + plan.0.phnum * program_header_size ≤ file_size
    scanned : AllScanned file file_size plan.0.phoff plan.0.phnum small table plan.0.phnum plan.1
    nonempty : plan.1.image_base < plan.1.image_end

  plan_image-Safe :
      (null_argument : Bool) → Safe 0 Planned (plan_image file file_size null_argument)
  unfolding plan_image file_range
  plan_image-Safe null_argument = then-Safe (reject-Safe _ invalid_argument) (λ big.
      bind-Safe {P = λ h. h ≡ elf_header_at file 0}
        (view_file-Safe file file_size elf_header_size elf_header_at 0 (ground arith) refl)
        (λ h same. then-Safe (reject-Safe _ invalid_elf) (λ _.
          then-Safe (reject-Safe _ unsupported) (λ _.
            then-Safe (reject-Safe _ invalid_elf) (λ inside.
              let table : h.phoff + h.phnum * program_header_size ≤ file_size = ground arith in
              bind-Safe
                (scan_headers-Safe file file_size h.phoff h.phnum small table h.phnum 0 _
                  (omega arith) (λ j lt. absurd (omega arith)))
                (λ s scanned. then-Safe (reject-Safe _ invalid_elf) (λ some_image.
                  pure-Safe _ record {
                    header_read = same;
                    table = table;
                    scanned = scanned;
                    nonempty = ground arith;
                  })))))))

module _ (file : Bytes) (file_size capacity : ℕ) (options : Options)
    (small : file_size < word64) where
  IsResult : Scan → ℕ × ℕ → Type 0
  IsResult s r =
      EntryIn options s.image_base (s.image_end - s.image_base) r.0
      × (r.1 ≡ s.image_end - s.image_base)

  -- The rest of `load_elf64` behind its first pass.
  rest : ElfHeader → Scan → Loader (ℕ × ℕ)
  rest h s =
      place_image file file_size capacity options h s (s.image_end - s.image_base) >>= λ entry.
      pure (entry, s.image_end - s.image_base)

  rest-Safe :
      (h : ElfHeader) (s : Scan)
      → Planned file file_size small (h, s)
      → s.image_end - s.image_base ≤ capacity
      → Safe (s.image_end - s.image_base) (IsResult s) (rest h s)
  unfolding rest IsResult
  rest-Safe h s plan le =
      bind-Safe
        (place_image-Safe file file_size capacity options small h s _ le plan.table
          (λ j lt. (plan.scanned j lt).0))
        (λ entry inside. pure-Safe _ (inside, refl))

  covered :
      (s : Scan) (p : ProgramHeader)
      → s.image_base < s.image_end
      → Covers s p
      → InImage s.image_base (s.image_end - s.image_base) p
  covered s p some_image (inl other) = inl other
  covered s p some_image (inr (inl nothing)) = inr (inl nothing)
  covered s p some_image (inr (inr inside)) = inr (inr (inside.0, omega (arith, inside.1)))

  IsResult-Loaded :
      (h : ElfHeader) (s : Scan) (image : Bytes) (r : Step (ℕ × ℕ))
      → Planned file file_size small (h, s)
      → s.image_end - s.image_base ≤ capacity
      → Ensures (s.image_end - s.image_base) (IsResult s) image r
      → Loaded file capacity options image r
  unfolding IsResult
  IsResult-Loaded h s image (done (entry, size) image') plan le ((inside, e), kept) = rw e (
    le,
    kept,
    (
      s.image_base,
      inside,
      λ j lt. rw (← plan.header_read) (
          covered s (program_header_at file (add64 h.phoff (j * program_header_size))) plan.nonempty
            (plan.scanned j (rw (← plan.header_read) at lt)).1),
    ),
  )
  IsResult-Loaded h s image (halt e image') plan le kept = λ x l. kept x (omega arith)
  IsResult-Loaded h s image fault plan le never = never

  Loaded-same :
      (image image' : Bytes) (r : Step (ℕ × ℕ))
      → Kept 0 image image'
      → Loaded file capacity options image' r
      → Loaded file capacity options image r
  Loaded-same image image' (done (entry, size) image'') same (le, kept, place) =
      (le, (λ x l. kept x l ∙ same x (omega arith)), place)
  Loaded-same image image' (halt e image'') same kept = λ x l. kept x l ∙ same x (omega arith)
  Loaded-same image image' fault same never = never

  gate :
      (test : Bool) (l : Loader (ℕ × ℕ)) (image : Bytes)
      → (test ≡ false → Loaded file capacity options image (l image))
      → Loaded file capacity options image ((reject test insufficient_memory >> l) image)
  unfolding ◌>>◌ ◌>>=◌ reject
  gate true l image go = λ x h. refl
  gate false l image go = go refl

  from_plan :
      (image : Bytes) (r : Step (ElfHeader × Scan))
      → Ensures 0 (Planned file file_size small) image r
      → Loaded file capacity options image (elim r [
        | done plan image' ↦
            (reject
                  (ltb capacity (plan.1.image_end - plan.1.image_base)
                    || ltb size_max (plan.1.image_end - plan.1.image_base))
                  insufficient_memory
                >> rest plan.0 plan.1)
              image'
        | halt e image' ↦ halt e image'
        | fault ↦ fault
      ])
  from_plan image (done (h, s) image') (plan, kept) = Loaded-same image image' _ kept (
      gate _ (rest h s) image' (λ fits.
        let le : s.image_end - s.image_base ≤ capacity = ground arith in
        let safe = rest-Safe h s plan le in
        IsResult-Loaded h s image' (rest h s image') plan le (safe.run image')))
  from_plan image (halt e image') kept = λ x l. kept x (omega arith)
  from_plan image fault never = never

-- Whatever bytes the file holds, `load_elf64` reads the file only inside it and reads and writes the
-- image only inside the buffer. An error changes no byte behind the buffer. A success gives a size that
-- the buffer holds and changes no byte from that size on; the entry point is the load bias with an
-- address in the image, which holds every loadable segment. The file size is below 2 ^ 64.
pub load_elf64-Loaded :
    (file : Bytes) (file_size capacity : ℕ) (options : Options) (null_argument : Bool)
    (image : Bytes)
    → file_size < word64
    → Loaded file capacity options image
        (load_elf64 file file_size capacity options null_argument image)
unfolding load_elf64 ◌>>=◌ rest
load_elf64-Loaded file file_size capacity options null_argument image small =
    let planned = plan_image-Safe file file_size small null_argument in
    from_plan file file_size capacity options small image
      (plan_image file file_size null_argument image) (planned.run image)
