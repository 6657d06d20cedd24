-- ===== src/Usermem/Path.antt =====
-- proc/syscall_user.cpp: strings, vectors of strings and paths that a system call takes from the user.
pub mod Strings
pub mod Vector
pub mod Names
pub mod Resolve
use synx.Prelude.{
  ℕ, zero, suc, ◌+◌, ◌-◌, ◌*◌, ◌%◌, ◌≡◌, Bool, true, false, not, ◌&&◌, ◌||◌, List, [], ◌∷◌, ◌++◌,
  Option, none, some, ◌==◌, ltb, leb, if◌then◌else◌, length, get_or, word32, word64,
}
use synx.Elf.{Bytes}
use synx.Exec.{user_top}
use synx.Vfs.{
  Ptr, null, Run, ok, fault, ◌>>=◌, ◌>>◌, pure, Vfs, Cmd, FileType, directory, load_dentry,
  load_inode, load_file,
}
use synx.Fd.{ebadf, max_open_files}
use synx.Usermem.{copy_from_user}

abbrev pub enoent : ℕ
enoent = 2

abbrev pub e2big : ℕ
e2big = 7

abbrev pub efault : ℕ
efault = 14

abbrev pub enotdir : ℕ
enotdir = 20

abbrev pub enametoolong : ℕ
enametoolong = 36

-- A C string without its final NUL.
abbrev pub Str : Type 0
Str = List ℕ

abbrev pub slash : ℕ
slash = 0x2F

-- A value, or the number of the error that is returned negated.
pub data Result {ℓ} (A : Type ℓ) : Type ℓ where
  got : A → Result A
  err : ℕ → Result A

abbrev pub and_then {ℓ κ} : {A : Type ℓ} {B : Type κ} → Result A → (A → Result B) → Result B
and_then (got a) k = k a
and_then (err e) k = err e

module _ (cr3 : ℕ) (mem : Bytes) where
  -- The byte at `user + i`, with the tests before it; none is a return of ERR_FAULT.
  unfoldable pub user_byte : (user i : ℕ) → Option ℕ
  user_byte user i =
      if leb user_top user || leb (user_top - user) i
      then none
      else (elim (copy_from_user cr3 mem (user + i) 1) [
        | none ↦ none
        | some [] ↦ none
        | some (b ∷ later) ↦ some b
      ])

  -- The loop of `copy_user_path`, with `left` bytes of the buffer left. The result is the rest of the
  -- string, which ends before the NUL.
  unfoldable pub path_loop : (user_path left i : ℕ) → Result Str
  path_loop user_path zero i = err enametoolong
  path_loop user_path (suc left) i =
      let rest = path_loop user_path left (i + 1) in
      elim (user_byte user_path i) [
        | none ↦ err efault
        | some b ↦
            if b == 0
            then (if i == 0 then err enoent else got [])
            else and_then rest (λ later. got (b ∷ later))
      ]

  unfoldable pub copy_user_path : (user_path capacity : ℕ) → Result Str
  copy_user_path user_path capacity = path_loop user_path capacity 0

  -- The inner loop of `copy_user_vector`, with `left` bytes of the storage left.
  unfoldable pub string_loop : (user_string left i : ℕ) → Result Str
  string_loop user_string zero i = err e2big
  string_loop user_string (suc left) i =
      let rest = string_loop user_string left (i + 1) in
      elim (user_byte user_string i) [
        | none ↦ err efault
        | some b ↦ if b == 0 then got [] else and_then rest (λ later. got (b ∷ later))
      ]

  -- A `uint64_t` from its bytes.
  unfoldable pub number : List ℕ → ℕ
  number [] = 0
  number (b ∷ later) = b % 256 + 256 * number later

  -- The pointer in the slot `i` of the vector; none is a return of ERR_FAULT.
  unfoldable pub user_slot : (user_vector i : ℕ) → Option ℕ
  user_slot user_vector i =
      if leb user_top user_vector
        || ltb (user_top - user_vector) (8 * i)
        || ltb (user_top - user_vector - 8 * i) 8
      then none
      else (elim (copy_from_user cr3 mem (user_vector + 8 * i) 8) [
        | none ↦ none
        | some bytes ↦ some (number bytes)
      ])

  -- The loop of `copy_user_vector`, with room for `left` strings left: each string with its place in
  -- the storage, of which `used` bytes are in use.
  unfoldable pub vector_loop :
      (user_vector left i storage_capacity used : ℕ) → Result (List (ℕ × Str))
  vector_loop user_vector zero i storage_capacity used = elim (user_slot user_vector i) [
    | none ↦ err efault
    | some pointer ↦ if pointer == 0 then got [] else err e2big
  ]
  vector_loop user_vector (suc left) i storage_capacity used = elim (user_slot user_vector i) [
    | none ↦ err efault
    | some pointer ↦
        if pointer == 0
        then got []
        else and_then (string_loop pointer (storage_capacity - used) 0) (λ s.
          and_then (vector_loop user_vector left (i + 1) storage_capacity (used + length s + 1))
            (λ later. got ((used, s) ∷ later)))
  ]

  unfoldable pub copy_user_vector :
      (user_vector capacity storage_capacity used : ℕ) → Result (List (ℕ × Str))
  copy_user_vector user_vector capacity storage_capacity used =
      if user_vector == 0 then got [] else vector_loop user_vector capacity 0 storage_capacity used

-- The first loop of `dentry_path`, with room for `left` components left: the names from the root on.
unfoldable pub components : (left : ℕ) (dentry : Ptr) (names : List Str) → Cmd (Result (List Str))
components zero p names = if p == null then pure (err enametoolong) else do
  d ← load_dentry p
  if d.parent == null then pure (got names) else pure (err enametoolong)
components (suc left) p names = if p == null then pure (err enametoolong) else do
  d ← load_dentry p
  if d.parent == null then pure (got names) else components left d.parent (d.name ∷ names)

-- The second loop, on the path so far.
unfoldable pub join_names : (capacity : ℕ) (names : List Str) (path : Str) → Result Str
join_names capacity [] path = got path
join_names capacity (name ∷ names) path =
    let separator : Str = if ltb 1 (length path) then slash ∷ [] else [] in
    let rest = join_names capacity names (path ++ separator ++ name) in
    if leb (capacity - length path) (length name + length separator) then err enametoolong else rest

unfoldable pub dentry_path : (dentry : Ptr) (capacity : ℕ) → Cmd (Result Str)
dentry_path p capacity = do
  names ← components 128 p []
  pure (
      and_then names
        (λ all. if ltb capacity 2 then err enametoolong else join_names capacity all (slash ∷ [])))

-- The end of `resolve_user_path`: the path after its directory.
unfoldable pub append_path : (base path : Str) (capacity : ℕ) → Result Str
append_path base path capacity =
    let separator : Str = if ltb 1 (length base) then slash ∷ [] else [] in
    if ltb capacity (length base + length separator + length path + 1)
    then err enametoolong
    else got (base ++ separator ++ path)

-- The directory that a relative path starts from. `dirfd` is a 64-bit word, whose lower half is AT_FDCWD
-- for -100.
unfoldable pub base_path : (open_files : List Ptr) (current : Str) (dirfd : ℕ) → Cmd (Result Str)
base_path open_files current dirfd =
    if dirfd % word32 == word32 - 100
    then pure (got current)
    else if leb max_open_files dirfd || get_or open_files dirfd null == null
    then pure (err ebadf)
    else do
      f ← load_file (get_or open_files dirfd null)
      if f.dentry == null then pure (err enotdir) else do
        d ← load_dentry f.dentry
        if d.inode == null then pure (err enotdir) else do
          i ← load_inode d.inode
          elim i.type [ directory ↦ dentry_path f.dentry 256 | _ ↦ pure (err enotdir) ]

-- `resolve_user_path` on the path that `copy_user_path` gave.
unfoldable pub resolve_path :
    (open_files : List Ptr) (current : Str) (dirfd : ℕ) (path : Str) (capacity : ℕ)
    → Cmd (Result Str)
resolve_path open_files current dirfd path capacity =
    if get_or path 0 0 == slash
    then (if leb capacity (length path) then pure (err enametoolong) else pure (got path))
    else do
      base ← base_path open_files current dirfd
      pure (and_then base (λ b. append_path b path capacity))

unfoldable pub resolve_user_path :
    (cr3 : ℕ) (mem : Bytes) (open_files : List Ptr) (current : Str) (dirfd user_path capacity : ℕ)
    → Cmd (Result Str)
resolve_user_path cr3 mem open_files current dirfd user_path capacity =
    elim (copy_user_path cr3 mem user_path 256) [
      | err e ↦ pure (err e)
      | got path ↦ resolve_path open_files current dirfd path capacity
    ]
