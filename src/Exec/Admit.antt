-- ===== src/Exec/Admit.antt =====
-- What the loop over the segments in `load_image` (proc/elf_exec.cpp) lets through.
use mathlib.Core.Path.{subst}
use mathlib.Core.Option.{some-injective}
use synx.Prelude.{
  ℕ, zero, suc, ◌+◌, ◌-◌, ◌*◌, ◌≤◌, ◌<◌, ◌≡◌, ◌≢◌, ◌⊎◌, inl, inr, refl, arith, ◌∙◌, Bool, true,
  false, not, ◌&&◌, ◌||◌, List, [], ◌∷◌, ◌++◌, Option, none, some, ◌==◌, if◌then◌else◌, bit_and,
  Bool-cases, get_elem?, length, get_elem?-append_left, get_elem?-append_end, get_elem?-lt,
}
use synx.Pmm.{page_size}
use synx.Elf.{ProgramHeader}
use synx.Exec.{
  user_top, user_stack_top, user_stack_pages, pf_x, pf_wx, segment_range, overlaps, in_the_way,
  bad_segment, holds_entry, check_segments,
}

-- Where a segment lies: in user space; and if it has a size, above the first page and below the stack.
pub record Placed (bias : ℕ) (p : ProgramHeader) : Type 0 where
  pub in_user : p.vaddr + bias + p.memsz ≤ user_top
  pub above : (p.memsz ≡ 0) ⊎ (page_size ≤ p.vaddr + bias)
  pub below_stack :
      (p.memsz ≡ 0) ⊎ (p.vaddr + bias + p.memsz ≤ user_stack_top - user_stack_pages * page_size)

-- A segment that the loader may map.
pub record Good (file_size bias : ℕ) (p : ProgramHeader) : Type 0 where
  pub fits : p.filesz ≤ p.memsz
  pub in_file : p.offset + p.filesz ≤ file_size
  pub placed : Placed bias p
  pub not_both : bit_and p.flags pf_wx ≢ pf_wx

-- No address lies in both segments.
abbrev pub Disjoint : ProgramHeader → ProgramHeader → Type 0
Disjoint p q =
    ((p.memsz ≡ 0) ⊎ (q.memsz ≡ 0))
    ⊎ ((p.vaddr + p.memsz ≤ q.vaddr) ⊎ (q.vaddr + q.memsz ≤ p.vaddr))

segment_range-Placed :
    (p : ProgramHeader) (bias start end : ℕ)
    → segment_range p bias ≡ some (start, end)
    → (start ≡ p.vaddr + bias) × (end ≡ p.vaddr + bias + p.memsz) × Placed bias p
unfolding segment_range
segment_range-Placed p bias start end h = ground arith

module _ (file_size bias entry : ℕ) where
  -- The segment is apart from all of a list.
  AllDisjoint : List ProgramHeader → ProgramHeader → Type 0
  AllDisjoint [] p = Unit {0}
  AllDisjoint (q ∷ earlier) p = Disjoint q p × AllDisjoint earlier p

  in_the_way-AllDisjoint :
      (p : ProgramHeader) (start end : ℕ) (earlier : List ProgramHeader)
      → start ≡ p.vaddr + bias
      → end ≡ p.vaddr + bias + p.memsz
      → in_the_way file_size bias entry start end p.memsz earlier ≡ false
      → AllDisjoint earlier p
  unfolding in_the_way AllDisjoint
  in_the_way-AllDisjoint p start end [] es ee h = tt
  in_the_way-AllDisjoint p start end (q ∷ earlier) es ee h =
      go (segment_range q bias) refl h
        (λ later. in_the_way-AllDisjoint p start end earlier es ee later)
    where
      go :
          (o : Option (ℕ × ℕ))
          → segment_range q bias ≡ o
          → (elim o [
            | none ↦ true
            | some (other_start, other_end) ↦
                (not (p.memsz == 0)
                  && not (q.memsz == 0)
                  && overlaps start end other_start other_end)
                || in_the_way file_size bias entry start end p.memsz earlier
          ])
            ≡ false
          → (in_the_way file_size bias entry start end p.memsz earlier ≡ false
              → AllDisjoint earlier p)
          → Disjoint q p × AllDisjoint earlier p
      go none e h' rest = absurd (cc)
      go (some (s, t)) e h' rest =
          let (es', et, placed) = segment_range-Placed q bias s t e in
          (ground arith, rest (ground arith))

  -- Each segment of the second list is apart from those of the first list and from those before it.
  pub AllApart : (earlier rest : List ProgramHeader) → Type 0
  AllApart earlier [] = Unit {0}
  AllApart earlier (p ∷ rest) = AllDisjoint earlier p × AllApart (earlier ++ (p ∷ [])) rest

  pub AllGood : List ProgramHeader → Type 0
  AllGood [] = Unit {0}
  AllGood (p ∷ rest) = Good file_size bias p × AllGood rest

  -- A segment of the list is executable and holds the entry point.
  abbrev pub Enters : List ProgramHeader → Type 0
  Enters rest =
      (i : ℕ) × (p : ProgramHeader) × (get_elem? rest i ≡ some p)
      × (bit_and p.flags pf_x ≢ 0)
      × (p.vaddr + bias ≤ entry)
      × (entry < p.vaddr + bias + p.memsz)

  bad_segment-Good :
      (p : ProgramHeader) (start end : ℕ)
      → bad_segment file_size bias entry p ≡ false
      → segment_range p bias ≡ some (start, end)
      → Good file_size bias p
  unfolding bad_segment
  bad_segment-Good p start end h e =
      let (es, et, placed) = segment_range-Placed p bias start end e in
      record {
        fits = ground arith;
        in_file = ground arith;
        placed = placed;
        not_both = λ both. ground arith;
      }

  Enters-later : (p : ProgramHeader) (rest : List ProgramHeader) → Enters rest → Enters (p ∷ rest)
  Enters-later p rest (i, q, at, x, above, below) = (suc i, q, at, x, above, below)

  holds_entry-Enters :
      (p : ProgramHeader) (rest : List ProgramHeader) (start end : ℕ)
      → segment_range p bias ≡ some (start, end)
      → holds_entry file_size bias entry start end p ≡ true
      → Enters (p ∷ rest)
  unfolding holds_entry
  holds_entry-Enters p rest start end e h =
      let (es, et, placed) = segment_range-Placed p bias start end e in
      (0, p, refl, (λ z. ground arith), ground arith, ground arith)

  -- What the loop promises of the segments that are left.
  pub record LoopDone (earlier rest : List ProgramHeader) (before after : Bool) : Type 0 where
    pub good : AllGood rest
    pub apart : AllApart earlier rest
    pub enters : after ≡ true → (before ≡ true) ⊎ Enters rest

  pub check_segments-LoopDone :
      (earlier rest : List ProgramHeader) (before after : Bool)
      → check_segments file_size bias entry earlier rest before ≡ some after
      → LoopDone earlier rest before after
  unfolding check_segments AllGood AllApart
  check_segments-LoopDone earlier [] before after h = record {
    good = tt;
    apart = tt;
    enters = λ e. inl (ground arith);
  }
  check_segments-LoopDone earlier (p ∷ rest) before after h =
      elim (Bool-cases (bad_segment file_size bias entry p)) [
        | inl bad ↦ absurd (ground (arith, bad))
        | inr ok ↦
            ranged (segment_range p bias) refl ok (rw ok at h)
              (check_segments-LoopDone (earlier ++ (p ∷ [])) rest)
      ]
    where
      Later : Type 0
      Later =
          (b a : Bool)
          → check_segments file_size bias entry (earlier ++ (p ∷ [])) rest b ≡ some a
          → LoopDone (earlier ++ (p ∷ [])) rest b a

      entered :
          (start end : ℕ)
          → segment_range p bias ≡ some (start, end)
          → LoopDone
              (earlier ++ (p ∷ []))
              rest
              (if holds_entry file_size bias entry start end p then true else before)
              after
          → after ≡ true
          → (before ≡ true) ⊎ Enters (p ∷ rest)
      entered start end e later yes_after = elim (later.enters yes_after) [
        | inr there ↦ inr (Enters-later p rest there)
        | inl now ↦ elim (Bool-cases (holds_entry file_size bias entry start end p)) [
          | inl here ↦ inr (holds_entry-Enters p rest start end e here)
          | inr not_here ↦ inl (rw not_here at now)
        ]
      ]

      clear :
          (start end : ℕ)
          → bad_segment file_size bias entry p ≡ false
          → segment_range p bias ≡ some (start, end)
          → in_the_way file_size bias entry start end p.memsz earlier ≡ false
          → LoopDone
              (earlier ++ (p ∷ []))
              rest
              (if holds_entry file_size bias entry start end p then true else before)
              after
          → LoopDone earlier (p ∷ rest) before after
      clear start end ok e free later =
          let (es, et, placed) = segment_range-Placed p bias start end e in
          record {
            good = (bad_segment-Good p start end ok e, later.good);
            apart = (in_the_way-AllDisjoint p start end earlier es et free, later.apart);
            enters = entered start end e later;
          }

      ranged :
          (o : Option (ℕ × ℕ))
          → segment_range p bias ≡ o
          → bad_segment file_size bias entry p ≡ false
          → (elim o [
            | none ↦ none
            | some (start, end) ↦
                if in_the_way file_size bias entry start end p.memsz earlier
                then none
                else check_segments file_size bias entry
                    (earlier ++ (p ∷ []))
                    rest
                    (if holds_entry file_size bias entry start end p then true else before)
          ])
            ≡ some after
          → Later
          → LoopDone earlier (p ∷ rest) before after
      ranged none e ok h' later = absurd (cc)
      ranged (some (start, end)) e ok h' later =
          elim (Bool-cases (in_the_way file_size bias entry start end p.memsz earlier)) [
            | inl blocked ↦ absurd (ground (arith, blocked))
            | inr free ↦ clear start end ok e free (later _ after (rw free at h'))
          ]

  -- The same by places in the list.
  AllDisjoint-get :
      (earlier : List ProgramHeader) (p q : ProgramHeader) (i : ℕ)
      → AllDisjoint earlier p
      → get_elem? earlier i ≡ some q
      → Disjoint q p
  unfolding AllDisjoint
  AllDisjoint-get [] p q i all e = absurd (cc)
  AllDisjoint-get (r ∷ earlier) p q zero all e =
      subst (λ x. Disjoint x p) (some-injective _ _ e) all.0
  AllDisjoint-get (r ∷ earlier) p q (suc i) all e = AllDisjoint-get earlier p q i all.1 e

  pub AllGood-get :
      (rest : List ProgramHeader) (p : ProgramHeader) (i : ℕ)
      → AllGood rest
      → get_elem? rest i ≡ some p
      → Good file_size bias p
  unfolding AllGood
  AllGood-get [] p i all e = absurd (cc)
  AllGood-get (r ∷ rest) p zero all e = subst (Good file_size bias) (some-injective _ _ e) all.0
  AllGood-get (r ∷ rest) p (suc i) all e = AllGood-get rest p i all.1 e

  pub AllApart-get :
      (earlier rest : List ProgramHeader) (p q : ProgramHeader) (i j : ℕ)
      → AllApart earlier rest
      → get_elem? rest j ≡ some q
      → ((get_elem? earlier i ≡ some p) ⊎ ((i < j) × (get_elem? rest i ≡ some p)))
      → Disjoint p q
  unfolding AllApart
  AllApart-get earlier [] p q i j all at_j at_i = absurd (cc)
  AllApart-get earlier (r ∷ rest) p q i zero all at_j (inl at_i) =
      subst (Disjoint p) (some-injective _ _ at_j) (AllDisjoint-get earlier r p i all.0 at_i)
  AllApart-get earlier (r ∷ rest) p q i zero all at_j (inr (lt, at_i)) = absurd (omega arith)
  AllApart-get earlier (r ∷ rest) p q i (suc j) all at_j (inl at_i) =
      AllApart-get (earlier ++ (r ∷ [])) rest p q i j all.1 at_j
        (inl (get_elem?-append_left earlier (r ∷ []) i (get_elem?-lt earlier i at_i) ∙ at_i))
  AllApart-get earlier (r ∷ rest) p q zero (suc j) all at_j (inr (lt, at_i)) =
      AllApart-get (earlier ++ (r ∷ [])) rest p q (length earlier) j all.1 at_j
        (inl (get_elem?-append_end earlier r ∙ at_i))
  AllApart-get earlier (r ∷ rest) p q (suc i) (suc j) all at_j (inr (lt, at_i)) =
      AllApart-get (earlier ++ (r ∷ [])) rest p q i j all.1 at_j (inr (omega arith, at_i))
