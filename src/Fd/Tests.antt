-- ===== src/Fd/Tests.antt =====
-- The system calls on a small descriptor table, and their theorems at it.
use synx.Prelude.{
  ℕ, zero, suc, ◌≡◌, ◌≢◌, ◌⊎◌, inl, inr, refl, arith, true, ◌&&◌, ltb, if◌then◌else◌, [], ◌∷◌, none,
  some, replicate, count_if, ◌==◌,
}
use synx.Vfs.{Ptr, null, Dentry, File, ok, file_at}
use synx.Fd.{Table, slot, marked, sys_close, exit_files, close_on_exec}
use synx.Fd.Inv.{IsValid, points_to, refs_of}
use synx.Fd.Close.{
  in_loop, CloseDone, sys_close-CloseDone, exit_files-Emptied, close_on_exec-marked,
}

abbrev named : ℕ → Dentry
named i = record { name = []; inode = i; parent = 0; child = 0; sibling = 0; ref_count = 2 }

abbrev opened : Ptr → ℕ → File
opened d n = record { dentry = d; offset = 0; flags = 0; f_ops = 0; ref_count = n }

-- Descriptors 3 and 4 hold one file, 5 holds another; 4 carries FD_CLOEXEC.
abbrev pub three_open : Table
three_open = record {
  vfs = record {
    inodes = λ p. none;
    dentries =
        λ q. if 100 == q then some (named 300) else if 200 == q then some (named 301) else none;
    files = none ∷ some (opened 100 2) ∷ some (opened 200 1) ∷ [];
  };
  open_files = 0 ∷ 0 ∷ 0 ∷ 1 ∷ 1 ∷ 2 ∷ replicate 26 0;
  fd_flags = 0 ∷ 0 ∷ 0 ∷ 0 ∷ 1 ∷ 0 ∷ replicate 26 0;
}

three_open-exact :
    (p : ℕ)
    → p ≢ null
    → refs_of (file_at three_open.vfs.files p) ≡ count_if (points_to p) three_open.open_files
unfolding count_if
three_open-exact zero ne = absurd (ne refl)
three_open-exact (suc zero) ne = refl
three_open-exact (suc (suc zero)) ne = refl
three_open-exact (suc (suc (suc p))) ne = ground arith

three_open-files :
    (p : ℕ) (f : File)
    → file_at three_open.vfs.files p ≡ some f
    → (f ≡ opened 100 2) ⊎ (f ≡ opened 200 1)
three_open-files zero f e = cc
three_open-files (suc zero) f e = inl cc
three_open-files (suc (suc zero)) f e = inr cc
three_open-files (suc (suc (suc p))) f e = cc

pub three_open-IsValid : IsValid three_open
unfolding count_if
three_open-IsValid = record {
  slots = refl;
  flag_slots = refl;
  null_file = refl;
  exact = three_open-exact;
  held = λ p f e. elim (three_open-files p f e) [
    | inl h ↦ rw h (omega arith)
    | inr h ↦ rw h (omega arith)
  ];
  dentry_live = λ p f e. elim (three_open-files p f e) [
    | inl h ↦ rw h (omega arith, refl)
    | inr h ↦ rw h (omega arith, refl)
  ];
  dentry_exact = λ q d e. ground arith;
  room = omega arith;
}

sys_close-CloseDone_example : CloseDone three_open 4 (sys_close 8 4 three_open)
sys_close-CloseDone_example = sys_close-CloseDone 8 4 three_open three_open-IsValid

exit_files-Emptied_example :
    (t' : Table) × (exit_files 8 three_open ≡ ok tt t')
    × IsValid t'
    × ((i : ℕ) → slot t' i ≡ (if in_loop 3 29 i then null else slot three_open i))
exit_files-Emptied_example = exit_files-Emptied 8 three_open three_open-IsValid

std_closed : (i : ℕ) → ltb i 3 ≡ true → slot three_open i ≡ null
std_closed zero h = refl
std_closed (suc zero) h = refl
std_closed (suc (suc zero)) h = refl
std_closed (suc (suc (suc i))) h = ground arith

close_on_exec-marked_example :
    (t' : Table) × (close_on_exec 8 29 3 three_open ≡ ok tt t')
    × IsValid t'
    × ((i : ℕ)
        → slot t' i ≡ (if in_loop 3 29 i && marked three_open i then null else slot three_open i))
close_on_exec-marked_example = close_on_exec-marked 8 three_open three_open-IsValid
