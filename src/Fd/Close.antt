-- ===== src/Fd/Close.antt =====
-- `sys_close`, the loop of `sys_exit` and the close-on-exec loop of `sys_execve`.
use native.Mathlib.Decide.{ℕ_discrete}
use synx.Prelude.{
  ℕ, zero, suc, ◌+◌, ◌-◌, ◌≤◌, ◌<◌, ◌≡◌, ◌≢◌, ◌⊎◌, refl, arith, ◌∙◌, ap, Bool, true, false, not,
  ◌&&◌, ◌||◌, List, none, ◌==◌, ==_iff, if◌then◌else◌, leb, ltb, get_or, set, length,
  get_or-set_self, get_or-set_ne, Bool-cases, inl, inr, Option-cases, count_if-zero,
}
use synx.Vfs.{Ptr, null, Run, ok, ◌>>=◌, file_at}
use synx.Fd.{
  Table, Long, ret, err, ebadf, max_open_files, slot, marked, is_closed, sys_close, close_all,
  exit_files, close_on_exec,
}
use synx.Fd.Inv.{IsValid, points_to, refs_of}
use synx.Fd.Clear.{Cleared, clear_slot-Cleared}

pub get_or-set :
    (xs : List ℕ) (i j v : ℕ)
    → i < length xs
    → get_or (set xs i v) j 0 ≡ (if i == j then v else get_or xs j 0)
get_or-set xs i j v h = elim (Bool-cases (i == j)) [
  | inl e ↦ rw (e, ← (==_iff i j).0 e, get_or-set_self xs i v 0 h)
  | inr n ↦ rw (n, get_or-set_ne xs {i = i} {j = j} v 0 (ground arith))
]

module _ {t : Table} {fd : ℕ} {r : Run Table (Unit {0})} (v : IsValid t)
    (inside : fd < max_open_files) (c : Cleared t fd r) where
  pub slot-cleared : (i : ℕ) → slot c.after i ≡ (if fd == i then null else slot t i)
  slot-cleared i =
      ap (λ l. get_or l i null) c.slots ∙ get_or-set t.open_files fd i null (omega (arith, v.slots))

  pub flag-cleared :
      (i : ℕ) → get_or c.after.fd_flags i 0 ≡ (if fd == i then 0 else get_or t.fd_flags i 0)
  flag-cleared i =
      ap (λ l. get_or l i 0) c.flags ∙ get_or-set t.fd_flags fd i 0 (omega (arith, v.flag_slots))

-- What `sys_close` did: it refused a descriptor below 3, out of range or not open and changed nothing;
-- or it emptied that slot alone.
abbrev pub CloseDone : Table → ℕ → Run Table Long → Type 0
CloseDone t fd r =
    (((fd < 3) ⊎ (is_closed t fd ≡ true)) × (r ≡ ok (err ebadf) t))
    ⊎ ((t' : Table) × (r ≡ ok (ret 0) t')
        × IsValid t'
        × ((i : ℕ) → slot t' i ≡ (if fd == i then null else slot t i))
        × ((q : Ptr) → (q ≡ slot t fd) ⊎ (file_at t'.vfs.files q ≡ file_at t.vfs.files q)))

-- `sys_close` on a valid table never faults. A descriptor below 3, out of range or not open gives
-- EBADF and changes nothing; any other gives 0, empties its slot alone, touches no other file, and
-- keeps the reference counts of files and dentries exact.
pub sys_close-CloseDone :
    (rounds fd : ℕ) (t : Table) → IsValid t → CloseDone t fd (sys_close rounds fd t)
unfolding sys_close
sys_close-CloseDone rounds fd t v = elim (Bool-cases (ltb fd 3 || is_closed t fd)) [
  | inl bad ↦ rw bad (inl (ground arith, refl))
  | inr good ↦
      let inside : fd < max_open_files = ground arith in
      let ne : slot t fd ≢ null = λ e. ground arith in
      let c = clear_slot-Cleared rounds fd v inside ne in
      rw (good, c.runs, ◌>>=◌)
        (inr (
          c.after,
          refl,
          c.valid,
          slot-cleared v inside c,
          λ q. elim (ℕ_discrete q (slot t fd)) [ yes e ↦ inl e | no n ↦ inr (c.others q n) ],
        ))
]

-- Which slots the loops empty.
abbrev pub in_loop : (fd n i : ℕ) → Bool
in_loop fd n i = leb fd i && ltb i (fd + n)

-- What a loop over the descriptors gives, where `hit` says which it closes.
pub record Emptied (t : Table) (hit : ℕ → Bool) (r : Run Table (Unit {0})) : Type 0 where
  pub after : Table
  pub runs : r ≡ ok tt after
  pub valid : IsValid after
  pub slots : (i : ℕ) → slot after i ≡ (if hit i then null else slot t i)
  pub flags :
      (i : ℕ)
      → get_or after.fd_flags i 0
        ≡ (if hit i && not (slot t i == null) then 0 else get_or t.fd_flags i 0)

-- Reading a slot again at an equal index.
slot_at : (t : Table) {i j : ℕ} → i ≡ j → slot t i ≡ slot t j
slot_at t e = ap (slot t) e

flag_at : (t : Table) {i j : ℕ} → i ≡ j → get_or t.fd_flags i 0 ≡ get_or t.fd_flags j 0
flag_at t e = ap (λ k. get_or t.fd_flags k 0) e

module _ (rounds : ℕ) where
  close_all-Emptied :
      (n fd : ℕ) {t : Table}
      → IsValid t
      → fd + n ≤ max_open_files
      → Emptied t (in_loop fd n) (close_all rounds n fd t)
  unfolding close_all
  close_all-Emptied zero fd {t} v h = record {
    after = t;
    runs = refl;
    valid = v;
    slots = λ i. ground arith;
    flags = λ i. ground arith;
  }
  close_all-Emptied (suc n) fd {t} v h = elim (Bool-cases (slot t fd == null)) [
    | inl empty ↦
        let rest = close_all-Emptied n (fd + 1) v (omega arith) in
        record {
          after = rest.after;
          runs = rw (empty, close_all) rest.runs;
          valid = rest.valid;
          slots = λ i. elim (ℕ_discrete i fd) [
            | yes e ↦ ground (arith, rest.slots i, slot_at t e)
            | no ne ↦ ground (arith, rest.slots i)
          ];
          flags = λ i. elim (ℕ_discrete i fd) [
            | yes e ↦ ground (arith, rest.flags i, slot_at t e)
            | no ne ↦ ground (arith, rest.flags i)
          ];
        }
    | inr used ↦
        let c = clear_slot-Cleared rounds fd v (omega arith) (λ e. ground arith) in
        let rest = close_all-Emptied n (fd + 1) c.valid (omega arith) in
        record {
          after = rest.after;
          runs = rw (used, close_all) (rw (c.runs, ◌>>=◌) rest.runs);
          valid = rest.valid;
          slots = λ i. ground (arith, rest.slots i, slot-cleared v (omega arith) c i);
          flags = λ i. elim (ℕ_discrete i fd) [
            | yes e ↦ ground (
              arith,
              rest.flags i,
              slot-cleared v (omega arith) c i,
              flag-cleared v (omega arith) c i,
              slot_at t e,
            )
            | no ne ↦ ground (
              arith,
              rest.flags i,
              slot-cleared v (omega arith) c i,
              flag-cleared v (omega arith) c i,
            )
          ];
        }
  ]

marked_at : (t : Table) {i j : ℕ} → i ≡ j → marked t i ≡ marked t j
marked_at t e = ap (marked t) e

-- Clearing one slot leaves the marks of the others.
marked-Cleared :
    {t : Table} {fd : ℕ} {r : Run Table (Unit {0})} (v : IsValid t) (inside : fd < max_open_files)
    (c : Cleared t fd r) (i : ℕ)
    → marked c.after i ≡ (if fd == i then false else marked t i)
unfolding marked
marked-Cleared {fd} v inside c i = elim (Bool-cases (fd == i)) [
  | inl e ↦ ground (arith, slot-cleared v inside c i)
  | inr ne ↦ rw (slot-cleared v inside c i, flag-cleared v inside c i) (rw ne)
]

marked-ne : (t : Table) (fd : ℕ) → marked t fd ≡ true → slot t fd ≢ null
unfolding marked
marked-ne t fd h e = ground arith

not-marked-null : (t : Table) (i : ℕ) → slot t i ≡ null → marked t i ≡ false
unfolding marked
not-marked-null t i e = ground arith

module _ (rounds : ℕ) where
  close_on_exec-Emptied :
      (n fd : ℕ) {t : Table}
      → IsValid t
      → fd + n ≤ max_open_files
      → Emptied t (λ i. in_loop fd n i && marked t i) (close_on_exec rounds n fd t)
  unfolding close_on_exec
  close_on_exec-Emptied zero fd {t} v h = record {
    after = t;
    runs = refl;
    valid = v;
    slots = λ i. ground arith;
    flags = λ i. ground arith;
  }
  close_on_exec-Emptied (suc n) fd {t} v h = elim (Bool-cases (marked t fd)) [
    | inr keep ↦
        let rest = close_on_exec-Emptied n (fd + 1) v (omega arith) in
        record {
          after = rest.after;
          runs = rw (keep, close_on_exec) rest.runs;
          valid = rest.valid;
          slots = λ i. elim (ℕ_discrete i fd) [
            | yes e ↦ ground (arith, rest.slots i, marked_at t e)
            | no ne ↦ ground (arith, rest.slots i)
          ];
          flags = λ i. elim (ℕ_discrete i fd) [
            | yes e ↦ ground (arith, rest.flags i, marked_at t e)
            | no ne ↦ ground (arith, rest.flags i)
          ];
        }
    | inl hit ↦
        let c = clear_slot-Cleared rounds fd v (omega arith) (marked-ne t fd hit) in
        let rest = close_on_exec-Emptied n (fd + 1) c.valid (omega arith) in
        record {
          after = rest.after;
          runs = rw (hit, close_on_exec) (rw (c.runs, ◌>>=◌) rest.runs);
          valid = rest.valid;
          slots = λ i. elim (ℕ_discrete i fd) [
            | yes e ↦ ground (arith, rest.slots i, slot-cleared v (omega arith) c i, marked_at t e)
            | no ne ↦ ground (
              arith,
              rest.slots i,
              slot-cleared v (omega arith) c i,
              marked-Cleared v (omega arith) c i,
            )
          ];
          flags = λ i. elim (ℕ_discrete i fd) [
            | yes e ↦ ground (
              arith,
              rest.flags i,
              flag-cleared v (omega arith) c i,
              slot-cleared v (omega arith) c i,
              marked_at t e,
              slot_at t e,
              marked-ne t fd hit,
            )
            | no ne ↦ ground (
              arith,
              rest.flags i,
              flag-cleared v (omega arith) c i,
              slot-cleared v (omega arith) c i,
              marked-Cleared v (omega arith) c i,
            )
          ];
        }
  ]

-- The exit of the process never faults, empties every descriptor from 3 on and no other, and keeps the
-- reference counts exact.
pub exit_files-Emptied :
    (rounds : ℕ) (t : Table)
    → IsValid t
    → (t' : Table) × (exit_files rounds t ≡ ok tt t')
      × IsValid t'
      × ((i : ℕ) → slot t' i ≡ (if in_loop 3 (max_open_files - 3) i then null else slot t i))
unfolding exit_files
exit_files-Emptied rounds t v =
    let e = close_all-Emptied rounds (max_open_files - 3) 3 v (omega arith) in
    (e.after, e.runs, e.valid, e.slots)

no_slot_no_file :
    {t : Table}
    → IsValid t
    → ((i : ℕ) → i < max_open_files → slot t i ≡ null)
    → (p : Ptr) → file_at t.vfs.files p ≡ none
no_slot_no_file {t} v empty p = elim (ℕ_discrete p null) [
  | yes e ↦ rw e v.null_file
  | no ne ↦ elim (Option-cases (file_at t.vfs.files p)) [
    | inl gone ↦ gone
    | inr (f, live) ↦
        let c =
          count_if-zero (points_to p) t.open_files null
            (λ i h. ground (arith, empty i (omega (arith, v.slots)))) in
        absurd (omega (arith, v.held p f live, ap refs_of live, v.exact p ne, c))
  ]
]

-- If no descriptor below 3 is in use, the exit of the process leaves no open file at all: no file
-- object is leaked.
pub exit_files-frees :
    (rounds : ℕ) (t : Table)
    → IsValid t
    → ((i : ℕ) → i < 3 → slot t i ≡ null)
    → (t' : Table) × (exit_files rounds t ≡ ok tt t') × ((p : Ptr) → file_at t'.vfs.files p ≡ none)
exit_files-frees rounds t v std =
    let (t', runs, valid, slots) = exit_files-Emptied rounds t v in
    (t', runs, no_slot_no_file valid (λ i h. ground (arith, slots i, std i)))

-- The close-on-exec loop of `sys_execve` never faults, empties exactly the descriptors from 3 on that
-- are in use and carry FD_CLOEXEC, and keeps the reference counts exact.
pub close_on_exec-marked :
    (rounds : ℕ) (t : Table)
    → IsValid t
    → (t' : Table) × (close_on_exec rounds (max_open_files - 3) 3 t ≡ ok tt t')
      × IsValid t'
      × ((i : ℕ)
          → slot t' i ≡ (if in_loop 3 (max_open_files - 3) i && marked t i then null else slot t i))
close_on_exec-marked rounds t v =
    let e = close_on_exec-Emptied rounds (max_open_files - 3) 3 v (omega arith) in
    (e.after, e.runs, e.valid, e.slots)
