-- ===== src/Usermem/Reference.antt =====
-- `copy_user` (proc/syscall_user.cpp) against copies that take each byte by itself, by the rules of the
-- page tables alone.
use synx.Prelude.{
  ℕ, zero, suc, ◌+◌, ◌≡◌, refl, ap, ◌∙◌, Bool, true, false, ◌||◌, List, [], ◌∷◌, Option, none, some,
  ◌==◌, if◌then◌else◌, length,
}
use synx.Elf.{Bytes}
use synx.Klibc.{poke}
use synx.Usermem.{range_ok, copy_from_user, copy_to_user}
use synx.Usermem.Place.{user_place, translate_user-user_place}
use synx.Usermem.Reading.{read_bytes, copy_from_user-read_bytes}
use synx.Usermem.Writing.{Apart, write_bytes, copy_to_user-write_bytes}

-- The `n` bytes from `a` on; one that the user may not read refuses all.
unfoldable pub user_bytes : (cr3 : ℕ) → Bytes → (n a : ℕ) → Option (List ℕ)
user_bytes cr3 mem zero a = some []
user_bytes cr3 mem (suc n) a =
    let rest = user_bytes cr3 mem n (a + 1) in
    elim (user_place cr3 mem a false) [
      | none ↦ none
      | some p ↦ elim rest [ none ↦ none | some later ↦ some (mem p ∷ later) ]
    ]

-- The bytes put from `a` on, up to the first one that the user may not write.
unfoldable pub user_writes : (cr3 : ℕ) (block : List ℕ) (a : ℕ) → Bytes → Bool × Bytes
user_writes cr3 [] a mem = (true, mem)
user_writes cr3 (b ∷ block) a mem = elim (user_place cr3 mem a true) [
  | none ↦ (false, mem)
  | some p ↦ user_writes cr3 block (a + 1) (poke mem p b)
]

read_bytes-user_bytes :
    (cr3 : ℕ) (mem : Bytes) (n a : ℕ) → read_bytes cr3 mem n a ≡ user_bytes cr3 mem n a
unfolding read_bytes user_bytes
read_bytes-user_bytes cr3 mem zero a = refl
read_bytes-user_bytes cr3 mem (suc n) a =
    ap
      (λ o. elim o as (λ o. Option (List ℕ)) [
        | none ↦ none
        | some p ↦ elim (read_bytes cr3 mem n (a + 1)) [
          | none ↦ none
          | some later ↦ some (mem p ∷ later)
        ]
      ])
      (translate_user-user_place cr3 mem a false)
    ∙ ap
        (λ (rest : Option (List ℕ)). elim (user_place cr3 mem a false) as (λ o. Option (List ℕ)) [
          | none ↦ none
          | some p ↦ elim rest as (λ r. Option (List ℕ)) [
            | none ↦ none
            | some later ↦ some (mem p ∷ later)
          ]
        ])
        (read_bytes-user_bytes cr3 mem n (a + 1))

write_bytes-user_writes :
    (cr3 : ℕ) (block : List ℕ) (a : ℕ) (mem : Bytes)
    → write_bytes cr3 block a mem ≡ user_writes cr3 block a mem
unfolding write_bytes user_writes
write_bytes-user_writes cr3 [] a mem = refl
write_bytes-user_writes cr3 (b ∷ block) a mem =
    ap
      (λ o. elim o as (λ o. Bool × Bytes) [
        | none ↦ (false, mem)
        | some p ↦ write_bytes cr3 block (a + 1) (poke mem p b)
      ])
      (translate_user-user_place cr3 mem a true)
    ∙ ap
        (λ (next : ℕ → Bool × Bytes). elim (user_place cr3 mem a true) as (λ o. Bool × Bytes) [
          | none ↦ (false, mem)
          | some p ↦ next p
        ])
        (λ i p. write_bytes-user_writes cr3 block (a + 1) (poke mem p b) i)

-- `copy_user` from user memory is the reading of each byte by itself: it succeeds if and only if every
-- byte lies below USER_TOP in a page whose entries are present and for the user on all four levels, and
-- then the buffer holds these bytes.
pub copy_from_user-user_bytes :
    (cr3 : ℕ) (mem : Bytes) (a size : ℕ) → copy_from_user cr3 mem a size ≡ user_bytes cr3 mem size a
copy_from_user-user_bytes cr3 mem a size =
    copy_from_user-read_bytes cr3 mem a size ∙ read_bytes-user_bytes cr3 mem size a

-- `copy_user` to user memory refuses a range that passes USER_TOP without a write. Else it is the writing
-- of each byte by itself, up to the first one that is not in a page whose entries are present and for the
-- user on all four levels, and writable on the last one: the result is true if and only if there is no
-- such byte. No page that the user may write holds page tables.
pub copy_to_user-user_writes :
    (cr3 : ℕ) (P : Bytes → Type 0)
    → Apart cr3 P
    → (block : List ℕ) (a : ℕ) (mem : Bytes) → P mem
    → copy_to_user cr3 block a mem ≡ (
        if length block == 0 || range_ok a (length block)
        then user_writes cr3 block a mem
        else (false, mem))
copy_to_user-user_writes cr3 P apart block a mem good =
    copy_to_user-write_bytes cr3 P apart block a mem good
    ∙ ap (λ w. if length block == 0 || range_ok a (length block) then w else (false, mem))
        (write_bytes-user_writes cr3 block a mem)
