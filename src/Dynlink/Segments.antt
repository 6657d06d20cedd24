-- ===== src/Dynlink/Segments.antt =====
-- The two passes of `load_elf64` (proc/dynlink.cpp) over the program headers.
use native.Mathlib.Decide.{ℕ_discrete}
use synx.Prelude.{
  ℕ, zero, suc, ◌+◌, ◌*◌, ◌≤◌, ◌<◌, ◌≡◌, ◌≢◌, refl, arith, false, not, ◌||◌, ◌==◌, ltb, add64,
  word64, inl, inr, ◌⊎◌,
}
use synx.Elf.{Bytes, ProgramHeader, program_header_at, program_header_size, little_endian}
use synx.Elf.Bytes.{little_endian-lt}
use synx.Dynlink.{Options, file_range, invalid_elf}
use synx.Dynlink.Safe.{
  Safe, Any, pure-Safe, if-Safe, bind-Safe, then-Safe, reject-Safe, in_image-Safe, view_file-Safe,
  copy_in-Safe,
}
use synx.Dynlink.Load.{
  Scan, pt_load, program, scan_one, scan_headers, load_one, load_segments, widen,
}

-- What the first pass has checked of a loadable segment.
pub record Checked (file_size : ℕ) (p : ProgramHeader) : Type 0 where
  pub fits : (p.type ≢ pt_load) ⊎ (p.filesz ≤ p.memsz)
  pub in_file : (p.type ≢ pt_load) ⊎ (p.offset + p.filesz ≤ file_size)

-- A loadable segment of some size lies in the image.
abbrev pub Covers : Scan → ProgramHeader → Type 0
Covers s p =
    (p.type ≢ pt_load)
    ⊎ ((p.memsz ≡ 0) ⊎ ((s.image_base ≤ p.vaddr) × (p.vaddr + p.memsz ≤ s.image_end)))

-- One step of the first pass: the header is checked, and the image covers it and all that it did.
record Scanned (file_size : ℕ) (p : ProgramHeader) (s s' : Scan) : Type 0 where
  checked : Checked file_size p
  covers : Covers s' p
  base_le : s'.image_base ≤ s.image_base
  end_le : s.image_end ≤ s'.image_end

module _ (file : Bytes) (file_size phoff phnum : ℕ) (small : file_size < word64)
    (table : phoff + phnum * program_header_size ≤ file_size) where
  abbrev pub header : ℕ → ProgramHeader
  header i = program_header_at file (add64 phoff (i * program_header_size))

  word : (at : ℕ) → little_endian 8 file at < word64
  word at = little_endian-lt 8 file at

  program-Safe :
      {span : ℕ} (i : ℕ)
      → i < phnum
      → Safe span (λ p. p ≡ header i) (program file file_size phoff i)
  unfolding program
  program-Safe i lt =
      view_file-Safe file file_size program_header_size program_header_at _ (grind arith) refl

  scan_one-Safe :
      {span : ℕ} (p : ProgramHeader) (s : Scan)
      → p.vaddr < word64
      → p.memsz < word64
      → Safe span (Scanned file_size p s) (scan_one file file_size p s)
  unfolding scan_one file_range widen
  scan_one-Safe p s vsmall msmall =
      if-Safe (p.type == pt_load)
        (λ _. then-Safe (reject-Safe _ invalid_elf) (λ checked. pure-Safe _ (ok checked)))
        (λ other.
          if-Safe (p.type == 2)
            (λ _. pure-Safe _ record {
              checked = skip other;
              covers = inl (ground arith);
              base_le = omega arith;
              end_le = omega arith;
            })
            (λ _. pure-Safe _ record {
              checked = skip other;
              covers = inl (ground arith);
              base_le = omega arith;
              end_le = omega arith;
            }))
    where
      ok :
          (ltb p.memsz p.filesz
              || not (file_range p.offset p.filesz file_size)
              || ltb (add64 p.vaddr p.memsz) p.vaddr)
            ≡ false
          → Scanned file_size p s (widen p s)
      ok h = record {
        checked = record { fits = inr (ground arith); in_file = inr (ground arith) };
        covers = inr (ground arith);
        base_le = ground arith;
        end_le = ground arith;
      }

      skip : (p.type == pt_load) ≡ false → Checked file_size p
      skip h = record { fits = inl (ground arith); in_file = inl (ground arith) }

  Covers-grow :
      (p q : ProgramHeader) (s s' : Scan) → Covers s p → Scanned file_size q s s' → Covers s' p
  Covers-grow p q s s' (inl h) step = inl h
  Covers-grow p q s s' (inr (inl h)) step = inr (inl h)
  Covers-grow p q s s' (inr (inr h)) step = inr (inr (omega arith, omega arith))

  -- What the first pass promises of the headers below `i`.
  abbrev pub AllScanned : ℕ → Scan → Type 0
  AllScanned i s = (j : ℕ) → j < i → Checked file_size (header j) × Covers s (header j)

  AllScanned-suc :
      (i : ℕ) (s s' : Scan) (p : ProgramHeader)
      → p ≡ header i
      → Scanned file_size p s s'
      → AllScanned i s
      → AllScanned (i + 1) s'
  AllScanned-suc i s s' p same step before j lt = elim (ℕ_discrete j i) [
    | yes e ↦
        let found : Checked file_size p × Covers s' p = (step.checked, step.covers) in
        rw e (rw same at found)
    | no other ↦
        let old = before j (omega arith) in (old.0, Covers-grow (header j) p s s' old.1 step)
  ]

  pub scan_headers-Safe :
      {span : ℕ} (left i : ℕ) (s : Scan)
      → i + left ≡ phnum
      → AllScanned i s
      → Safe span (AllScanned phnum) (scan_headers file file_size phoff left i s)
  unfolding scan_headers program_header_at
  scan_headers-Safe zero i s e before = pure-Safe s (λ j lt. before j (omega arith))
  scan_headers-Safe (suc left) i s e before = bind-Safe (program-Safe i (omega arith)) (λ p same.
      bind-Safe (scan_one-Safe p s (rw same (word _)) (rw same (word _))) (λ s' step.
        scan_headers-Safe left (i + 1) s' (omega arith) (AllScanned-suc i s s' p same step before)))

  module _ (options : Options) (image_base span capacity : ℕ) (le : span ≤ capacity) where
    load_one-Safe :
        (p : ProgramHeader)
        → Checked file_size p
        → Safe span Any (load_one file file_size capacity options image_base span p)
    unfolding load_one
    load_one-Safe p checked =
        if-Safe (not (p.type == pt_load) || p.memsz == 0) (λ _. pure-Safe _ tt)
          (λ loads.
            bind-Safe (in_image-Safe p.vaddr p.memsz image_base span invalid_elf) (λ dest range.
              copy_in-Safe capacity file file_size dest p.offset p.filesz
                (ground (arith, checked.in_file)) (ground (arith, checked.fits, range.room)) le))

    pub load_segments-Safe :
        (left i : ℕ)
        → i + left ≡ phnum
        → ((j : ℕ) → j < phnum → Checked file_size (header j))
        → Safe span Any (load_segments file file_size capacity options image_base span phoff left i)
    unfolding load_segments
    load_segments-Safe zero i e checked = pure-Safe _ tt
    load_segments-Safe (suc left) i e checked = bind-Safe (program-Safe i (omega arith)) (λ p same.
        then-Safe (load_one-Safe p (rw same (checked i (omega arith))))
          (λ _. load_segments-Safe left (i + 1) (omega arith) checked))
