-- ===== src/Usermem/Tests.antt =====
-- Copies in a small physical memory. Its page tables stand at 0x1000, 0x2000, 0x3000 and 0x4000; each of
-- their entries leads to the next table, so that every page of the user is the page at 0x5000.
use mathlib.Core.Option.{some-injective}
use synx.Usermem.Pages.{translate_user-lt}
use synx.Prelude.{
  ℕ, ◌+◌, ◌-◌, ◌*◌, ◌/◌, ◌%◌, ◌^◌, ◌≤◌, ◌<◌, ◌≡◌, ◌⊎◌, inl, inr, refl, arith, sym, ◌∙◌, Bool, true,
  false, Bool-cases, ◌||◌, ◌&&◌, List, [], ◌∷◌, none, some, ◌==◌, leb, if◌then◌else◌, length,
  get_or, word32,
}
use synx.Elf.{Bytes, little_endian}
use synx.Klibc.{poke}
use synx.Exec.{user_top}
use synx.Usermem.{
  chunk, read_loop, entry_at, walk, translate_user, copy_from_user, copy_to_user, range_ok,
}
use synx.Usermem.Reference.{
  user_bytes, user_writes, copy_from_user-user_bytes, copy_to_user-user_writes,
}
use synx.Usermem.Writing.{Apart}
use synx.Vfs.{Vfs, Dentry, null, ok}
use synx.Usermem.Path.Vector.{Stored, copy_user_vector-Stored}
use synx.Usermem.Path.Names.{Ancestors, root, child, fitting, path_text, dentry_path-Ancestors}
use synx.Usermem.Path.Resolve.{GivesAbsolute, resolve_user_path-GivesAbsolute}
use synx.Usermem.Path.{
  slash, enametoolong, vector_loop, string_loop, user_slot, user_byte, number, path_loop,
  resolve_path, base_path, append_path, Str, got, err, copy_user_path, copy_user_vector,
  dentry_path, resolve_user_path,
}
use synx.Usermem.Path.Strings.{PathCopied, copy_user_path-PathCopied}

-- The string "/a", and at 8 a vector that holds its address 0x1000.
abbrev page_text : List ℕ
page_text = b'/' ∷ b'a' ∷ 0 ∷ 0 ∷ 0 ∷ 0 ∷ 0 ∷ 0 ∷ 0 ∷ 0x10 ∷ 0 ∷ 0 ∷ 0 ∷ 0 ∷ 0 ∷ 0 ∷ []

abbrev small : Bytes
small x =
    if leb 0x5000 x
    then get_or page_text (x - 0x5000) 0
    else if x % 8 == 0
    then 7
    else if x % 8 == 1
    then 16 * (x / 0x1000 + 1)
    else 0

-- The memories with these page tables.
record Tables (mem : Bytes) : Type 0 where
  same : (x : ℕ) → x < 0x5000 → mem x ≡ small x

small-Tables : Tables small
small-Tables = record { same = λ x low. refl }

entry-Tables :
    (mem : Bytes) (t i : ℕ)
    → Tables mem
    → 1 ≤ t
    → t ≤ 4
    → i < 512
    → entry_at mem (0x1000 * t) i ≡ 7 + 0x1000 * (t + 1)
unfolding little_endian
entry-Tables mem t i h low high inside =
    let at = 0x1000 * t + 8 * i in
    let b0 : mem at ≡ 7 = h.same at (omega arith) ∙ ground arith in
    let b1 : mem (at + 1) ≡ 16 * (t + 1) = h.same (at + 1) (omega arith) ∙ ground arith in
    let b2 : mem (at + 1 + 1) ≡ 0 = h.same (at + 1 + 1) (omega arith) ∙ ground arith in
    let b3 : mem (at + 1 + 1 + 1) ≡ 0 = h.same (at + 1 + 1 + 1) (omega arith) ∙ ground arith in
    let b4 : mem (at + 1 + 1 + 1 + 1) ≡ 0 =
      h.same (at + 1 + 1 + 1 + 1) (omega arith) ∙ ground arith in
    let b5 : mem (at + 1 + 1 + 1 + 1 + 1) ≡ 0 =
      h.same (at + 1 + 1 + 1 + 1 + 1) (omega arith) ∙ ground arith in
    let b6 : mem (at + 1 + 1 + 1 + 1 + 1 + 1) ≡ 0 =
      h.same (at + 1 + 1 + 1 + 1 + 1 + 1) (omega arith) ∙ ground arith in
    let b7 : mem (at + 1 + 1 + 1 + 1 + 1 + 1 + 1) ≡ 0 =
      h.same (at + 1 + 1 + 1 + 1 + 1 + 1 + 1) (omega arith) ∙ ground arith in
    omega arith

both : (w : Bool) → (w && false) ≡ false
both true = refl
both false = refl

translate-Tables :
    (mem : Bytes) (a : ℕ) (w : Bool)
    → Tables mem
    → a < user_top
    → translate_user 0x1000 mem a w ≡ some (0x5000 + a % 0x1000)
unfolding translate_user walk
translate-Tables mem a w h low =
    let under : leb user_top a ≡ false = ground arith in
    rw
      (
        translate_user,
        walk,
        under,
        entry-Tables mem 1 ((a / 2 ^ 39) % 512) h (omega arith) (omega arith) (omega arith),
        entry-Tables mem 2 ((a / 2 ^ 30) % 512) h (omega arith) (omega arith) (omega arith),
        entry-Tables mem 3 ((a / 2 ^ 21) % 512) h (omega arith) (omega arith) (omega arith),
        entry-Tables mem 4 ((a / 2 ^ 12) % 512) h (omega arith) (omega arith) (omega arith),
        both w,
      )
      refl

refused : (mem : Bytes) (a : ℕ) → leb user_top a ≡ true → translate_user 0x1000 mem a true ≡ none
unfolding translate_user
refused mem a over = rw (translate_user, over) refl

all-Tables :
    (mem : Bytes) (a : ℕ)
    → Tables mem
    → translate_user 0x1000 mem a true
      ≡ (if leb user_top a then none else some (0x5000 + a % 0x1000))
all-Tables mem a h = elim (Bool-cases (leb user_top a)) [
  | inl over ↦ rw over (refused mem a over)
  | inr under ↦ rw under (translate-Tables mem a true h (ground (arith, under)))
]

-- No write of the user reaches the tables.
write-Tables :
    (mem : Bytes) (a p b : ℕ)
    → Tables mem
    → translate_user 0x1000 mem a true ≡ some p
    → Tables (poke mem p b)
unfolding poke
write-Tables mem a p b h found =
    let low = translate_user-lt 0x1000 mem a p true found in
    let at = some-injective _ _ (sym (translate-Tables mem a true h low) ∙ found) in
    record {
      same = λ x below. let other : (p == x) ≡ false = ground arith in rw other (h.same x below);
    }

small-Apart : Apart 0x1000 Tables
small-Apart = record {
  kept = λ mem a p b h found. write-Tables mem a p b h found;
  stable = λ mem a p b c h found.
      all-Tables (poke mem p b) c (write-Tables mem a p b h found) ∙ sym (all-Tables mem c h);
}

copy_from_user-user_bytes_example :
    copy_from_user 0x1000 small 0x1FFF 3 ≡ user_bytes 0x1000 small 3 0x1FFF
copy_from_user-user_bytes_example = copy_from_user-user_bytes 0x1000 small 0x1FFF 3

abbrev two_bytes : List ℕ
two_bytes = 1 ∷ 2 ∷ []

copy_to_user-user_writes_example : copy_to_user 0x1000 two_bytes 0x1FFF small ≡ (
    if length two_bytes == 0 || range_ok 0x1FFF (length two_bytes)
    then user_writes 0x1000 two_bytes 0x1FFF small
    else (false, small))
copy_to_user-user_writes_example =
    copy_to_user-user_writes 0x1000 Tables small-Apart two_bytes 0x1FFF small small-Tables

copy_user_path-PathCopied_example :
    PathCopied 0x1000 small 0x1000 256 0 (copy_user_path 0x1000 small 0x1000 256)
copy_user_path-PathCopied_example = copy_user_path-PathCopied 0x1000 small 0x1000 256

abbrev all_strings : List (ℕ × Str)
all_strings = (0, b'/' ∷ b'a' ∷ []) ∷ []

strings_copied : copy_user_vector 0x1000 small 0x1008 4 16 0 ≡ got all_strings
unfolding copy_user_vector vector_loop string_loop user_slot user_byte number copy_from_user
    read_loop range_ok translate_user walk little_endian chunk
strings_copied = refl

abbrev vector_at : ℕ
vector_at = 0x1008

copy_user_vector-Stored_example :
    (length all_strings ≤ 4)
    × (((vector_at ≡ 0) × (all_strings ≡ [])) ⊎ Stored 0x1000 small 0x1008 16 0 0 all_strings)
copy_user_vector-Stored_example =
    copy_user_vector-Stored 0x1000 small 0x1008 16 4 0 all_strings strings_copied

abbrev root_dentry : Dentry
root_dentry = record {
  name = slash ∷ [];
  inode = 64;
  parent = null;
  child = 9;
  sibling = null;
  ref_count = 1;
}

abbrev home_dentry : Dentry
home_dentry = record {
  name = b'a' ∷ b'b' ∷ [];
  inode = 65;
  parent = 8;
  child = null;
  sibling = null;
  ref_count = 1;
}

-- A root at 8 with the directory "ab" at 9.
abbrev two_dentries : Vfs
two_dentries = record {
  inodes = λ p. none;
  dentries = λ p. if p == 8 then some root_dentry else if p == 9 then some home_dentry else none;
  files = [];
}

home-Ancestors : Ancestors two_dentries 9 ((b'a' ∷ b'b' ∷ []) ∷ [])
home-Ancestors =
    child 9 home_dentry [] (omega arith) refl (omega arith)
      (root 8 root_dentry (omega arith) refl refl)

abbrev home_names : List Str
home_names = (b'a' ∷ b'b' ∷ []) ∷ []

dentry_path-Ancestors_example :
    dentry_path 9 256 two_dentries
    ≡ ok
        (if leb (length home_names) 128
          then fitting 256 (path_text home_names)
          else err enametoolong)
        two_dentries
dentry_path-Ancestors_example =
    dentry_path-Ancestors two_dentries 9 home_names 256 home-Ancestors (omega arith, tt)

abbrev start : Str
start = slash ∷ b'h' ∷ []

resolve_user_path-GivesAbsolute_example :
    GivesAbsolute 256
      (resolve_user_path 0x1000 small [] start (word32 - 100) 0x1001 256 two_dentries)
resolve_user_path-GivesAbsolute_example =
    resolve_user_path-GivesAbsolute [] start (record { rooted = refl; fits = omega arith }) 0x1000
      small (word32 - 100) 0x1001 256 two_dentries

-- The user's "a" in the current directory "/h".
path_resolved :
    resolve_user_path 0x1000 small [] start (word32 - 100) 0x1001 256 two_dentries
    ≡ ok (got (slash ∷ b'h' ∷ slash ∷ b'a' ∷ [])) two_dentries
unfolding resolve_user_path copy_user_path path_loop user_byte copy_from_user read_loop range_ok
    translate_user walk little_endian chunk resolve_path base_path append_path
path_resolved = refl
