-- ===== src/Fd.antt =====
-- proc/syscall_fs.cpp, proc/syscall_process.cpp and the tables of proc/syscall.cpp: the system calls
-- on file descriptors. A descriptor is an index into `open_files`, 0 being the null pointer.
pub mod Inv
pub mod Clear
pub mod Close
pub mod Calls
mod Tests
use synx.Prelude.{
  ℕ, zero, suc, ◌+◌, ◌-◌, ◌*◌, ◌%◌, ◌/◌, Bool, true, false, not, ◌&&◌, ◌||◌, List, [], ◌∷◌, Option,
  none, some, ◌==◌, ltb, leb, if◌then◌else◌, get_or, set, bit_and, bit_or, bit_xor, word32, add64,
}
use synx.Vfs.{
  Ptr, null, Run, ok, fault, ◌>>=◌, ◌>>◌, pure, Vfs, File, load_file, store_file, close, inc32,
}

-- The result of a system call: a value, or the error code that is returned negated.
pub data Long : Type 0 where
  ret err : ℕ → Long

abbrev pub ebadf : ℕ
ebadf = 9

abbrev pub einval : ℕ
einval = 22

abbrev pub enfile : ℕ
enfile = 24

abbrev pub erange : ℕ
erange = 34

abbrev pub max_open_files : ℕ
max_open_files = 32

abbrev pub fd_cloexec : ℕ
fd_cloexec = 1

abbrev pub o_append : ℕ
o_append = 0x400

-- The globals `open_files` and `fd_flags`, and the file system behind them.
pub record Table : Type 0 where
  pub vfs : Vfs
  pub open_files : List Ptr
  pub fd_flags : List ℕ

abbrev pub Sys : Type 0 → Type 0
Sys A = Table → Run Table A

-- `open_files[fd]`; the callers test the range first.
abbrev pub slot : Table → ℕ → Ptr
slot t fd = get_or t.open_files fd null

-- `fd >= MAX_OPEN_FILES || !open_files[fd]`
abbrev pub is_closed : Table → ℕ → Bool
is_closed t fd = leb max_open_files fd || slot t fd == null

-- A command of the file system, run on the table's file system.
unfoldable pub lift : {A : Type 0} → (Vfs → Run Vfs A) → Sys A
lift m t = elim (m t.vfs) [ ok a v ↦ ok a (record t { vfs = v }) | fault ↦ fault ]

unfoldable pub set_slot : ℕ → Ptr → ℕ → Sys (Unit {0})
set_slot fd p flags t =
    ok tt (record t { open_files = set t.open_files fd p; fd_flags = set t.fd_flags fd flags })

-- A descriptor in use that carries FD_CLOEXEC.
pub marked : Table → ℕ → Bool
marked t fd = not (slot t fd == null) && not (bit_and (get_or t.fd_flags fd 0) fd_cloexec == 0)

module _ (rounds : ℕ) where
  -- `vfs::close(open_files[fd]); open_files[fd] = nullptr; fd_flags[fd] = 0;`
  pub clear_slot : ℕ → Sys (Unit {0})
  unfolding lift set_slot
  clear_slot fd t = (do lift (close rounds (slot t fd)); set_slot fd null 0) t

  pub sys_close : ℕ → Sys Long
  sys_close fd t =
      if ltb fd 3 || is_closed t fd then ok (err ebadf) t else ((do clear_slot fd; pure (ret 0)) t)

  -- The loop of `sys_exit`, with `n` rounds left.
  pub close_all : (n fd : ℕ) → Sys (Unit {0})
  close_all zero fd t = ok tt t
  close_all (suc n) fd t = elim (slot t fd == null) [
    | true ↦ close_all n (fd + 1) t
    | false ↦ (do clear_slot fd; close_all n (fd + 1)) t
  ]

  -- `sys_exit` up to `elf_exec::terminate_current()`.
  pub exit_files : Sys (Unit {0})
  exit_files = close_all (max_open_files - 3) 3

  -- The loop of `sys_execve` that closes the descriptors marked FD_CLOEXEC.
  pub close_on_exec : (n fd : ℕ) → Sys (Unit {0})
  close_on_exec zero fd t = ok tt t
  close_on_exec (suc n) fd t = elim (marked t fd) [
    | false ↦ close_on_exec n (fd + 1) t
    | true ↦ (do clear_slot fd; close_on_exec n (fd + 1)) t
  ]
