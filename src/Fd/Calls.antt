-- ===== src/Fd/Calls.antt =====
-- `duplicate_fd`, `sys_lseek` and `sys_fcntl` of proc/syscall_fs.cpp.
pub mod Dup
pub mod Seek
mod Tests
use synx.Prelude.{
  ℕ, zero, suc, ◌+◌, ◌-◌, ◌*◌, ◌%◌, ◌/◌, ◌^◌, Bool, true, false, not, ◌&&◌, ◌||◌, List, [], ◌∷◌,
  Option, none, some, ◌==◌, ltb, leb, if◌then◌else◌, get_or, set, bit_and, bit_or, bit_xor, word32,
  word64,
}
use synx.Vfs.{
  Ptr, null, Run, ok, fault, ◌>>=◌, ◌>>◌, pure, Vfs, File, load_file, store_file, load_dentry,
  load_inode, close, inc32,
}
use synx.Fd.{
  Table, Sys, Long, ret, err, ebadf, einval, enfile, erange, max_open_files, fd_cloexec, o_append,
  slot, is_closed, lift, set_slot,
}

-- The loop of `find_free_fd`, with `n` rounds left.
find_free_loop : (n fd : ℕ) → Table → Long
find_free_loop zero fd t = err enfile
find_free_loop (suc n) fd t = elim (slot t fd == null) [
  | true ↦ ret fd
  | false ↦ find_free_loop n (fd + 1) t
]

pub find_free_fd : (minimum : ℕ) → Table → Long
unfolding find_free_loop
find_free_fd minimum t =
    if leb max_open_files minimum
    then err ebadf
    else find_free_loop (max_open_files - minimum) minimum t

-- `__atomic_fetch_add(&file->ref_count, 1)`
pub add_reference : Ptr → Vfs → Run Vfs (Unit {0})
unfolding load_file store_file
add_reference p = do
  f ← load_file p
  store_file p (some (record f { ref_count = inc32 f.ref_count }))

-- The file behind `open_files[fd]`, changed in place.
pub change_file : ℕ → (File → File) → Sys (Unit {0})
unfolding lift load_file store_file
change_file fd g t = lift (do f ← load_file (slot t fd); store_file (slot t fd) (some (g f))) t

module _ (rounds : ℕ) where
  -- The last part of `duplicate_fd`, on descriptors that differ.
  pub replace_slot : (old_fd new_fd : ℕ) → (close_on_exec : Bool) → Sys Long
  unfolding lift set_slot
  replace_slot old_fd new_fd cloexec t =
      (do
        if slot t new_fd == null then pure tt else lift (close rounds (slot t new_fd))
        set_slot new_fd (slot t old_fd) (if cloexec then fd_cloexec else 0)
        lift (add_reference (slot t old_fd))
        pure (ret new_fd))
        t

  -- `duplicate_fd` from `if (old_fd == new_fd)` on.
  pub duplicate_to : (old_fd new_fd : ℕ) → (exact close_on_exec : Bool) → Sys Long
  duplicate_to old_fd new_fd exact cloexec t =
      if old_fd == new_fd
      then ok (if exact && cloexec then err einval else ret new_fd) t
      else replace_slot old_fd new_fd cloexec t

  pub duplicate_fd : (old_fd new_fd : ℕ) → (exact close_on_exec : Bool) → Sys Long
  duplicate_fd old_fd new_fd exact cloexec t =
      if is_closed t old_fd
      then ok (err ebadf) t
      else if exact
      then (if leb max_open_files new_fd
          then ok (err ebadf) t
          else duplicate_to old_fd new_fd exact cloexec t)
      else (elim (find_free_fd new_fd t) [
        | err e ↦ ok (err e) t
        | ret free_fd ↦ duplicate_to old_fd free_fd exact cloexec t
      ])

  -- `~FD_CLOEXEC` is a 32-bit mask, so the test does not see the upper half of `argument`.
  pub sys_fcntl : (fd command argument : ℕ) → Sys Long
  unfolding lift load_file
  sys_fcntl fd command argument t =
      if is_closed t fd
      then ok (err ebadf) t
      else if command == 0
      then duplicate_fd fd argument false false t
      else if command == 1
      then ok (ret (get_or t.fd_flags fd 0)) t
      else if command == 2
      then (if bit_and argument (bit_xor 0xffff_ffff fd_cloexec) == 0
          then ok (ret 0) (record t { fd_flags = set t.fd_flags fd (argument % word32) })
          else ok (err einval) t)
      else if command == 3
      then (do f ← lift (load_file (slot t fd)); pure (ret f.flags)) t
      else if command == 4
      then (do
        change_file fd (λ f. record f {
          flags =
              bit_or (bit_and f.flags (bit_xor 0xffff_ffff o_append))
                (bit_and (argument % word32) o_append);
        })
        pure (ret 0))
          t
      else ok (err einval) t

abbrev pub int64_max : ℕ
int64_max = 2 ^ 63 - 1

-- `base + offset` with the checks of `sys_lseek`. `raw` is the bit pattern of an `int64_t`, negative
-- from 2 ^ 63 on; the last test of the source, `result < 0`, cannot hold here.
pub seek_to : (base raw : ℕ) → Long
seek_to base raw =
    if leb raw int64_max
    then (if ltb 0 raw && ltb (int64_max - raw) base then err erange else ret (base + raw))
    else if raw == 2 ^ 63 || ltb base (word64 - raw)
    then err erange
    else ret (base - (word64 - raw))

-- The `switch` of `sys_lseek`.
pub seek_base : (whence : ℕ) → File → Vfs → Run Vfs Long
unfolding load_dentry load_inode
seek_base whence f v =
    if whence == 0
    then ok (ret 0) v
    else if whence == 1
    then ok (if ltb int64_max f.offset then err erange else ret f.offset) v
    else if whence == 2
    then (do
      d ← load_dentry f.dentry
      i ← load_inode d.inode
      pure (if ltb int64_max i.size then err erange else ret i.size))
        v
    else ok (err einval) v

-- The end of `sys_lseek`, on the result of the checks.
pub seek_store : ℕ → Long → Sys Long
unfolding change_file
seek_store fd (err e) t = ok (err e) t
seek_store fd (ret n) t = (do change_file fd (λ f. record f { offset = n }); pure (ret n)) t

pub sys_lseek : (fd raw_offset whence : ℕ) → Sys Long
unfolding lift load_file
sys_lseek fd raw_offset whence t =
    if is_closed t fd
    then ok (err ebadf) t
    else (do
      f ← lift (load_file (slot t fd))
      base ← lift (seek_base whence f)
      elim base [ err e ↦ pure (err e) | ret b ↦ seek_store fd (seek_to b raw_offset) ])
        t
