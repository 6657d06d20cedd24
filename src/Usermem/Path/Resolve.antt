-- ===== src/Usermem/Path/Resolve.antt =====
-- The path that `resolve_user_path` (proc/syscall_user.cpp) gives a system call.
use mathlib.Core.Path.{subst}
use synx.Prelude.{
  ℕ, ◌+◌, ◌-◌, ◌%◌, ◌<◌, ◌≡◌, inl, inr, refl, arith, Bool, true, false, ◌||◌, List, [], ◌∷◌, ◌++◌,
  ◌==◌, ltb, leb, if◌then◌else◌, Bool-cases, length, length-append, get_or, word32,
}
use synx.Elf.{Bytes}
use synx.Vfs.{
  Ptr, null, Run, ok, fault, Vfs, Cmd, ◌>>=◌, pure, FileType, directory, regular, char_dev,
  block_dev, load_file, load_dentry, load_inode,
}
use synx.Fd.{ebadf, max_open_files}
use synx.Usermem.Path.{
  Str, Result, got, err, and_then, slash, enotdir, enametoolong, join_names, append_path, base_path,
  resolve_path, copy_user_path, resolve_user_path, dentry_path, components,
}
use synx.Usermem.Path.Vector.{got-injective}

-- A path that starts at the root and fits a buffer with its NUL.
pub record Absolute (path : Str) (capacity : ℕ) : Type 0 where
  pub rooted : get_or path 0 0 ≡ slash
  pub fits : length path < capacity

-- Whatever path is given is absolute.
pub data GivesAbsolute {S : Type 0} (capacity : ℕ) : Run S (Result Str) → Type 0 where
  gives_path : (p : Str) (s : S) → Absolute p capacity → GivesAbsolute capacity (ok (got p) s)
  gives_error : (e : ℕ) (s : S) → GivesAbsolute capacity (ok (err e) s)
  gives_fault : GivesAbsolute capacity fault

rooted-append : (path later : Str) → get_or path 0 0 ≡ slash → get_or (path ++ later) 0 0 ≡ slash
rooted-append [] later h = absurd (omega arith)
rooted-append (c ∷ path) later h = h

Absolute-append :
    (path middle later : Str) (capacity : ℕ)
    → get_or path 0 0 ≡ slash
    → length path + length middle + length later < capacity
    → Absolute (path ++ middle ++ later) capacity
Absolute-append path middle later capacity from room =
    let l0 = length-append path middle in
    let l1 = length-append (path ++ middle) later in
    record {
      rooted = rooted-append (path ++ middle) later (rooted-append path middle from);
      fits = omega arith;
    }

module _ {S : Type 0} (capacity : ℕ) where
  if-GivesAbsolute :
      (b : Bool) (x y : Run S (Result Str))
      → GivesAbsolute capacity x
      → GivesAbsolute capacity y
      → GivesAbsolute capacity (if b then x else y)
  if-GivesAbsolute true x y hx hy = hx
  if-GivesAbsolute false x y hx hy = hy

  pure-GivesAbsolute :
      (r : Result Str) (s : S)
      → ((p : Str) → r ≡ got p → Absolute p capacity)
      → GivesAbsolute capacity (ok r s)
  pure-GivesAbsolute (got p) s h = gives_path p s (h p refl)
  pure-GivesAbsolute (err e) s h = gives_error e s

join_names-Absolute :
    (capacity : ℕ) (names : List Str) (path p : Str)
    → Absolute path capacity
    → join_names capacity names path ≡ got p
    → Absolute p capacity
unfolding join_names
join_names-Absolute capacity [] path p h e =
    subst (λ q. Absolute q capacity) (got-injective path p e) h
join_names-Absolute capacity (name ∷ names) path p h e =
    let separator : Str = if ltb 1 (length path) then slash ∷ [] else [] in
    elim (Bool-cases (leb (capacity - length path) (length name + length separator))) [
      | inl over ↦ absurd (let e1 = rw over at e in cc)
      | inr room ↦
          let short = h.fits in
          join_names-Absolute capacity names (path ++ separator ++ name) p
            (Absolute-append path separator name capacity h.rooted (ground (arith, room)))
            (rw room at e)
    ]

append_path-Absolute :
    (base later p : Str) (limit capacity : ℕ)
    → Absolute base limit
    → append_path base later capacity ≡ got p
    → Absolute p capacity
unfolding append_path
append_path-Absolute base later p limit capacity h e =
    let separator : Str = if ltb 1 (length base) then slash ∷ [] else [] in
    elim (Bool-cases (ltb capacity (length base + length separator + length later + 1))) [
      | inl over ↦ absurd (let e1 = rw over at e in cc)
      | inr room ↦
          subst (λ q. Absolute q capacity) (got-injective _ p (rw room at e))
            (Absolute-append base separator later capacity h.rooted (ground (arith, room)))
    ]

dentry_path-GivesAbsolute :
    (p : Ptr) (capacity : ℕ) (v : Vfs) → GivesAbsolute capacity (dentry_path p capacity v)
unfolding dentry_path
dentry_path-GivesAbsolute p capacity v = go (components 128 p [] v)
  where
    joined : Result (List Str) → Result Str
    joined names =
        and_then names
          (λ all. if ltb capacity 2 then err enametoolong else join_names capacity all (slash ∷ []))

    go :
        (r : Run Vfs (Result (List Str)))
        → GivesAbsolute capacity (elim r as (λ r. Run Vfs (Result Str)) [
          | ok names w ↦ ok (joined names) w
          | fault ↦ fault
        ])
    go fault = gives_fault
    go (ok (err e) w) = gives_error e w
    go (ok (got names) w) = elim (Bool-cases (ltb capacity 2)) [
      | inl short ↦ rw short (gives_error enametoolong w)
      | inr long ↦ rw long (
          pure-GivesAbsolute capacity (join_names capacity names (slash ∷ [])) w (λ q e.
            join_names-Absolute capacity names (slash ∷ []) q
              (record { rooted = refl; fits = ground arith }) e))
    ]

-- A command that gives an absolute path, an error or a fault.
record Gives (capacity : ℕ) (m : Cmd (Result Str)) : Type 0 where
  gives : (v : Vfs) → GivesAbsolute capacity (m v)

module _ {capacity : ℕ} where
  if-Gives :
      (b : Bool) {x y : Cmd (Result Str)}
      → Gives capacity x
      → Gives capacity y
      → Gives capacity (if b then x else y)
  if-Gives true hx hy = hx
  if-Gives false hx hy = hy

  bind-Gives :
      {A : Type 0} (m : Cmd A) (k : A → Cmd (Result Str))
      → ((a : A) → Gives capacity (k a))
      → Gives capacity (m >>= k)
  bind-Gives {A = A} m k h = record { gives = λ v. go (m v) }
    where
      go :
          (r : Run Vfs A)
          → GivesAbsolute capacity
              (elim r as (λ r. Run Vfs (Result Str)) [ ok a w ↦ k a w | fault ↦ fault ])
      go (ok a w) = (h a).gives w
      go fault = gives_fault

  err-Gives : (e : ℕ) → Gives capacity (pure (err e))
  err-Gives e = record { gives = λ v. gives_error e v }

  got-Gives : (p : Str) → Absolute p capacity → Gives capacity (pure (got p))
  got-Gives p h = record { gives = λ v. gives_path p v h }

module _ (open_files : List Ptr) (current : Str) (rooted : Absolute current 256) where
  base_path-Gives : (dirfd : ℕ) → Gives 256 (base_path open_files current dirfd)
  unfolding base_path
  base_path-Gives dirfd = if-Gives (dirfd % word32 == word32 - 100) (got-Gives current rooted) (
      if-Gives (leb max_open_files dirfd || get_or open_files dirfd null == null) (err-Gives ebadf)
        (bind-Gives (load_file (get_or open_files dirfd null)) _ (λ f.
          if-Gives (f.dentry == null) (err-Gives enotdir) (
            bind-Gives (load_dentry f.dentry) _ (λ d.
              if-Gives (d.inode == null) (err-Gives enotdir)
                (bind-Gives (load_inode d.inode) _ (λ i. of_type f.dentry i.type)))))))
    where
      of_type :
          (p : Ptr) (t : FileType)
          → Gives 256 (elim t as (λ t. Cmd (Result Str)) [
            | directory ↦ dentry_path p 256
            | _ ↦ pure (err enotdir)
          ])
      of_type p directory = record { gives = λ v. dentry_path-GivesAbsolute p 256 v }
      of_type p regular = err-Gives enotdir
      of_type p char_dev = err-Gives enotdir
      of_type p block_dev = err-Gives enotdir

  resolve_path-Gives :
      (dirfd : ℕ) (path : Str) (capacity : ℕ)
      → Gives capacity (resolve_path open_files current dirfd path capacity)
  unfolding resolve_path
  resolve_path-Gives dirfd path capacity = elim (Bool-cases (get_or path 0 0 == slash)) [
    | inl from_root ↦
        rw (resolve_path, from_root)
          (elim (Bool-cases (leb capacity (length path))) [
            | inl long ↦ rw long (err-Gives enametoolong)
            | inr short ↦
                rw short
                  (got-Gives path (record { rooted = ground arith; fits = ground (arith, short) }))
          ])
    | inr relative ↦
        rw (resolve_path, relative)
          (record {
            gives =
                λ v. after (base_path open_files current dirfd v) ((base_path-Gives dirfd).gives v);
          })
  ]
    where
      after :
          (r : Run Vfs (Result Str))
          → GivesAbsolute 256 r
          → GivesAbsolute capacity (elim r as (λ r. Run Vfs (Result Str)) [
            | ok base w ↦ ok (and_then base (λ b. append_path b path capacity)) w
            | fault ↦ fault
          ])
      after _ gives_fault = gives_fault
      after _ (gives_error e w) = gives_error e w
      after _ (gives_path b w h) =
          pure-GivesAbsolute capacity (append_path b path capacity) w
            (λ p e. append_path-Absolute b path p 256 capacity h e)

  -- A path that `resolve_user_path` gives starts at the root and fits the caller's buffer with its NUL.
  -- The current directory is such a path of less than 256 characters.
  pub resolve_user_path-GivesAbsolute :
      (cr3 : ℕ) (mem : Bytes) (dirfd user_path capacity : ℕ) (v : Vfs)
      → GivesAbsolute capacity
          (resolve_user_path cr3 mem open_files current dirfd user_path capacity v)
  unfolding resolve_user_path
  resolve_user_path-GivesAbsolute cr3 mem dirfd user_path capacity v =
      go (copy_user_path cr3 mem user_path 256)
    where
      go :
          (r : Result Str)
          → GivesAbsolute capacity (
              (elim r as (λ r. Cmd (Result Str)) [
                | err e ↦ pure (err e)
                | got path ↦ resolve_path open_files current dirfd path capacity
              ])
                v)
      go (err e) = gives_error e v
      go (got path) = (resolve_path-Gives dirfd path capacity).gives v
