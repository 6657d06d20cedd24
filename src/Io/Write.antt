-- ===== src/Io/Write.antt =====
-- What `sys_write` (proc/syscall_io.cpp) does on every branch.
use synx.Prelude.{
  ℕ, ◌+◌, ◌^◌, ◌≤◌, ◌<◌, ◌≡◌, ◌≢◌, ◌⊎◌, refl, arith, sym, Bool, true, false, ◌||◌, ◌&&◌, List, [],
  Option, some, ◌==◌, ltb, Bool-cases, inl, inr,
}
use synx.Elf.{Bytes}
use synx.Fd.{Long, ret, err, Table, slot, is_closed, ebadf, einval}
use synx.Usermem.Reference.{user_bytes}
use synx.Io.{Devices, max_io_size, sys_write}
use synx.Io.Output.{OutputLaws, Sent, sent, append-nil}
use synx.Io.Sending.{write_out-Sent}

both_true : (a b : Bool) → (a && b) ≡ true → (a ≡ true) × (b ≡ true)
both_true true b h = (refl, h)
both_true false b h = absurd (cc)

module _ {S : Type 0} (devices : Devices S) (output : S → List ℕ) (cr3 : ℕ) (mem : Bytes) where
  -- The outcome of `sys_write`: a refusal that sends nothing, or what the loop does.
  pub data WriteDone (t : Table) (fd buffer count : ℕ) (d : S) : Option (Long × S) → Type 0 where
    bad_fd :
        (fd ≡ 0) ⊎ ((2 < fd) × (is_closed t fd ≡ true))
        → WriteDone t fd buffer count d (some (err ebadf, d))
    too_much : max_io_size < count → WriteDone t fd buffer count d (some (err einval, d))
    wrote :
        (r : Option (Long × S))
        → fd ≢ 0
        → (ltb 2 fd && is_closed t fd) ≡ false
        → count ≤ max_io_size
        → Sent devices output cr3 mem (fd == 1 || fd == 2) buffer count (output d) r
        → WriteDone t fd buffer count d r

  -- `sys_write` always comes to an end. It refuses descriptor 0, a closed one and more than MAX_IO_SIZE
  -- bytes, and sends nothing then. Else it sends the first bytes of the user's range in order, as many as
  -- it returns, to the console for descriptors 1 and 2; to the console it sends all of them unless a
  -- byte of the range may not be read. An error means that nothing was sent. A file takes the first
  -- part of a block that it reports; the buffer is an address of 64 bits.
  pub sys_write-WriteDone :
      (t : Table) (fd buffer count : ℕ) (d : S)
      → OutputLaws devices output
      → buffer < 2 ^ 64
      → WriteDone t fd buffer count d (sys_write devices cr3 t fd buffer count mem d)
  unfolding user_bytes sys_write
  sys_write-WriteDone t fd buffer count d laws low =
      elim (Bool-cases (ltb 2 fd && is_closed t fd)) [
        | inl closed ↦
            rw (sys_write, closed)
              (bad_fd (
                inr (
                  let (above, shut) = both_true (ltb 2 fd) (is_closed t fd) closed in
                  (ground (arith, above), shut))))
        | inr open_fd ↦ (elim (Bool-cases (fd == 0)) [
          | inl stdin ↦ rw (sys_write, open_fd, stdin) (bad_fd (inl (ground (arith, stdin))))
          | inr other ↦ (elim (Bool-cases (count == 0)) [
            | inl none_wanted ↦
                rw (sys_write, open_fd, other, none_wanted)
                  (wrote (some (ret 0, d)) (λ e. ground (arith, other, e)) open_fd
                    (ground (arith, none_wanted))
                    (sent 0 [] d (omega arith) refl (sym (append-nil (output d)))
                      (inl (ground (arith, none_wanted)))))
            | inr some_wanted ↦ (elim (Bool-cases (ltb max_io_size count)) [
              | inl large ↦
                  rw (sys_write, open_fd, other, some_wanted, large)
                    (too_much (ground (arith, large)))
              | inr small ↦
                  rw (sys_write, open_fd, other, some_wanted, small)
                    (wrote _ (λ e. ground (arith, other, e)) open_fd (ground (arith, small))
                      (write_out-Sent devices output cr3 mem (count + 1) (fd == 1 || fd == 2)
                        (slot t fd) buffer count 0 d (output d) [] laws low (omega arith)
                        (omega arith) refl (sym (append-nil (output d)))))
            ])
          ])
        ])
      ]
