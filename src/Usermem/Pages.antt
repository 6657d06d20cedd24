-- ===== src/Usermem/Pages.antt =====
-- Inside a page `translate_user` (proc/syscall_user.cpp) goes up byte by byte.
use mathlib.Core.Option.{some-injective}
use synx.Prelude.{
  ℕ, ◌+◌, ◌/◌, ◌%◌, ◌^◌, ◌≤◌, ◌<◌, ◌≡◌, refl, arith, ap, Bool, false, some, leb, bit_and,
  guard_passed, step_passed,
}
use synx.Elf.{Bytes}
use synx.Pmm.{page_size}
use synx.Exec.{user_top}
use synx.Usermem.{page_address_mask, indices, translate_user, walk, chunk}

indices-page : (a b : ℕ) → a / 2 ^ 12 ≡ b / 2 ^ 12 → indices a ≡ indices b
indices-page a b e =
    let e1 : a / 2 ^ 39 ≡ b / 2 ^ 39 = omega arith in
    let e2 : a / 2 ^ 30 ≡ b / 2 ^ 30 = omega arith in
    let e3 : a / 2 ^ 21 ≡ b / 2 ^ 21 = omega arith in rw (e1, e2, e3, e) refl

-- The byte at a distance `k` in the page of an address.
pub translate_user-page :
    (cr3 : ℕ) (mem : Bytes) (a k p : ℕ) (write_access : Bool)
    → a % page_size + k < page_size
    → translate_user cr3 mem a write_access ≡ some p
    → translate_user cr3 mem (a + k) write_access ≡ some (p + k)
unfolding translate_user
translate_user-page cr3 mem a k p write_access inside h =
    let same : (a + k) / 2 ^ 12 ≡ a / 2 ^ 12 = omega arith in
    let rest : (a + k) % page_size ≡ a % page_size + k = omega arith in
    let (below, h') = guard_passed (leb user_top a) _ p h in
    let (page, found, e) =
      step_passed (walk mem write_access (indices a) (bit_and cr3 page_address_mask)) _ p h' in
    let still : leb user_top (a + k) ≡ false = ground arith in
    rw (translate_user, still, indices-page (a + k) a same, found, rest)
      (ap some (let e1 = some-injective _ _ e in omega arith))

pub chunk-le : (current left : ℕ) → chunk current left ≤ left
unfolding chunk
chunk-le current left = ground arith

pub chunk-page : (current left : ℕ) → current % page_size + chunk current left ≤ page_size
unfolding chunk
chunk-page current left = ground arith

pub chunk-positive : (current left : ℕ) → 1 ≤ left → 1 ≤ chunk current left
unfolding chunk
chunk-positive current left some_left = ground arith

-- An address that is translated is below the user's limit.
pub translate_user-lt :
    (cr3 : ℕ) (mem : Bytes) (a p : ℕ) (write_access : Bool)
    → translate_user cr3 mem a write_access ≡ some p
    → a < user_top
unfolding translate_user
translate_user-lt cr3 mem a p write_access h =
    let (below, h') = guard_passed (leb user_top a) _ p h in ground arith
