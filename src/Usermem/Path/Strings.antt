-- ===== src/Usermem/Path/Strings.antt =====
-- What `copy_user_path` (proc/syscall_user.cpp) makes of the string at a user's address.
use synx.Prelude.{
  ℕ, zero, suc, ◌+◌, ◌-◌, ◌≤◌, ◌<◌, ◌≡◌, ◌≢◌, refl, arith, ap, sym, ◌∙◌, false, ◌||◌, [], ◌∷◌,
  Option, none, some, ◌==◌, leb, Bool-cases, Option-cases, inl, inr, length,
}
use synx.Elf.{Bytes}
use synx.Exec.{user_top}
use synx.Usermem.{translate_user}
use synx.Usermem.Pages.{translate_user-lt}
use synx.Usermem.Place.{user_place, translate_user-user_place}
use synx.Usermem.Reading.{read_bytes, copy_from_user-read_bytes}
use synx.Usermem.Path.{
  Str, Result, got, err, and_then, enoent, efault, enametoolong, user_byte, path_loop,
  copy_user_path,
}

module _ (cr3 : ℕ) (mem : Bytes) where
  -- The byte of user memory at an address, if the user may read it.
  abbrev pub byte_at : (a : ℕ) → Option ℕ
  byte_at a = elim (user_place cr3 mem a false) [ none ↦ none | some p ↦ some (mem p) ]

  byte_at-translated :
      (a : ℕ)
      → (elim (translate_user cr3 mem a false) [ none ↦ none | some p ↦ some (mem p) ]) ≡ byte_at a
  byte_at-translated a =
      ap (λ o. elim o as (λ o. Option ℕ) [ none ↦ none | some p ↦ some (mem p) ])
        (translate_user-user_place cr3 mem a false)

  one_byte :
      (a : ℕ)
      → (elim (read_bytes cr3 mem 1 a) [ none ↦ none | some [] ↦ none | some (b ∷ later) ↦ some b ])
        ≡ byte_at a
  unfolding read_bytes
  one_byte a = elim (Option-cases (translate_user cr3 mem a false)) [
    | inl refused ↦ rw (read_bytes, sym (byte_at-translated a), refused) refl
    | inr (p, found) ↦ rw (read_bytes, sym (byte_at-translated a), found) refl
  ]

  byte_at-none : (a : ℕ) → user_top ≤ a → byte_at a ≡ none
  byte_at-none a over = elim (Option-cases (translate_user cr3 mem a false)) [
    | inl refused ↦ rw (sym (byte_at-translated a), refused) refl
    | inr (p, found) ↦ let low = translate_user-lt cr3 mem a p false found in absurd (omega arith)
  ]

  pub user_byte-byte_at : (user i : ℕ) → user_byte cr3 mem user i ≡ byte_at (user + i)
  unfolding user_byte
  user_byte-byte_at user i = elim (Bool-cases (leb user_top user || leb (user_top - user) i)) [
    | inl over ↦ rw (user_byte, over) (sym (byte_at-none (user + i) (ground arith)))
    | inr under ↦
        rw (user_byte, under, copy_from_user-read_bytes cr3 mem (user + i) 1) (one_byte (user + i))
  ]

  -- The characters from an address on are those of the string; none of them is NUL.
  pub data Prefix : ℕ → Str → Type 0 where
    nothing : (a : ℕ) → Prefix a []
    more : (a b : ℕ) (s : Str) → byte_at a ≡ some b → b ≢ 0 → Prefix (a + 1) s → Prefix a (b ∷ s)

  -- The outcome of the copying of a path, of which `i` characters were copied before, to a buffer
  -- with `left` bytes left.
  pub data PathCopied (a left i : ℕ) : Result Str → Type 0 where
    copied :
        (s : Str)
        → Prefix a s
        → byte_at (a + length s) ≡ some 0
        → length s < left
        → 1 ≤ i + length s
        → PathCopied a left i (got s)
    empty : byte_at a ≡ some 0 → i ≡ 0 → 1 ≤ left → PathCopied a left i (err enoent)
    unreadable :
        (s : Str)
        → Prefix a s
        → byte_at (a + length s) ≡ none
        → length s < left
        → PathCopied a left i (err efault)
    too_long : (s : Str) → Prefix a s → length s ≡ left → PathCopied a left i (err enametoolong)

  PathCopied-step :
      (a b left i : ℕ) (r : Result Str)
      → byte_at a ≡ some b
      → b ≢ 0
      → PathCopied (a + 1) left (i + 1) r
      → PathCopied a (suc left) i (and_then r (λ later. got (b ∷ later)))
  PathCopied-step a b left i _ found char (copied s from end short some_left) =
      copied (b ∷ s) (more a b s found char from) (ap byte_at (omega arith) ∙ end) (omega arith)
        (omega arith)
  PathCopied-step a b left i _ found char (empty end first room) = absurd (omega arith)
  PathCopied-step a b left i _ found char (unreadable s from end short) =
      unreadable (b ∷ s) (more a b s found char from) (ap byte_at (omega arith) ∙ end) (omega arith)
  PathCopied-step a b left i _ found char (too_long s from full) =
      too_long (b ∷ s) (more a b s found char from) (omega arith)

  path_loop-PathCopied :
      (user a left i : ℕ) → a ≡ user + i → PathCopied a left i (path_loop cr3 mem user left i)
  unfolding path_loop
  path_loop-PathCopied user a zero i e = too_long [] (nothing a) refl
  path_loop-PathCopied user a (suc left) i e =
      let here = user_byte-byte_at user i ∙ ap byte_at (sym e) in
      elim (Option-cases (user_byte cr3 mem user i)) [
        | inl refused ↦
            rw (path_loop, refused)
              (unreadable [] (nothing a) (ap byte_at (omega arith) ∙ sym here ∙ refused)
                (omega arith))
        | inr (b, found) ↦
            let at : byte_at a ≡ some b = sym here ∙ found in
            rw (path_loop, found)
              (elim (Bool-cases (b == 0)) [
                | inl end ↦
                    let nul : byte_at a ≡ some 0 = at ∙ ap some (ground arith) in
                    rw end (elim (Bool-cases (i == 0)) [
                      | inl first ↦ rw first (empty nul (ground arith) (omega arith))
                      | inr later ↦ rw later (
                          copied [] (nothing a) (ap byte_at (omega arith) ∙ nul) (omega arith)
                            (ground arith))
                    ])
                | inr char ↦ rw char (
                    PathCopied-step a b left i _ at (λ z. ground arith)
                      (path_loop-PathCopied user (a + 1) left (i + 1) (omega arith)))
              ])
      ]

  -- `copy_user_path` gives the string at the user's address if it is not empty and fits the buffer with
  -- its NUL, ENOENT if it is empty, EFAULT if a byte before its NUL may not be read and lies in the
  -- buffer's reach, and ENAMETOOLONG if the buffer has no room for the NUL.
  pub copy_user_path-PathCopied :
      (user_path capacity : ℕ)
      → PathCopied user_path capacity 0 (copy_user_path cr3 mem user_path capacity)
  unfolding copy_user_path
  copy_user_path-PathCopied user_path capacity =
      path_loop-PathCopied user_path user_path capacity 0 (omega arith)
