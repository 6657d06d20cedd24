-- ===== src/Fd/Clear.antt =====
-- Closing the file of a descriptor and clearing its slot keeps the reference counts exact.
use native.Mathlib.Decide.{ℕ_discrete}
use synx.Prelude.{
  ℕ, ◌+◌, ◌-◌, ◌≤◌, ◌<◌, ◌≡◌, ◌≢◌, refl, arith, ◌∙◌, ap, sym, true, Option, none, some, ◌==◌,
  ==_iff, set, word32, length, length-set, count_if, count_if-set, count_if-le, count_if-pos, bit,
}
use synx.Vfs.{Ptr, null, Dentry, File, Run, ok, ◌>>=◌, update, file_at}
use synx.Vfs.Refs.{file_at-lt, file_at-set, file_at-get_elem, close_shared, close_last}
use synx.Fd.{Table, max_open_files, slot, clear_slot}
use synx.Fd.Inv.{IsValid, points_to, holds, refs_of, is_some, file_of_slot, count-set-slot}

-- What is known of a descriptor in use.
record InUse (t : Table) (fd : ℕ) (f : File) (d : Dentry) : Type 0 where
  valid : IsValid t
  inside : fd < max_open_files
  ne : slot t fd ≢ null
  file : file_at t.vfs.files (slot t fd) ≡ some f
  dentry_ne : f.dentry ≢ null
  dentry : t.vfs.dentries f.dentry ≡ some d

module _ {t : Table} {fd : ℕ} {f : File} {d : Dentry} (u : InUse t fd f d) where
  abbrev p : Ptr
  p = slot t fd

  file_exact : f.ref_count ≡ count_if (points_to p) t.open_files
  file_exact = ap refs_of (sym u.file) ∙ u.valid.exact p u.ne

  file_small : f.ref_count ≤ max_open_files
  file_small = omega (arith, file_exact, count_if-le (points_to p) t.open_files, u.valid.slots)

  dentry_shared : (1 < d.ref_count) × (d.ref_count < word32)
  dentry_shared =
      let c =
        count_if-pos (holds f.dentry) t.vfs.files p (file_at-get_elem t.vfs.files p u.file)
          ((==_iff f.dentry f.dentry).1 refl) in
      let e = u.valid.dentry_exact f.dentry d u.dentry in
      omega (arith, c, e, count_if-le (holds f.dentry) t.vfs.files, u.valid.room)

  in_arena : p < length t.vfs.files
  in_arena = file_at-lt t.vfs.files p u.file

  -- The counts of the pointers after the slot was cleared.
  count_cleared :
      (q : Ptr)
      → q ≢ null
      → count_if (points_to q) (set t.open_files fd null) + bit (p == q)
        ≡ count_if (points_to q) t.open_files
  count_cleared q ne = let h = count-set-slot u.valid fd u.inside null q in ground (arith, h)

  -- One file fewer for its dentry, or as many as before.
  count_held :
      (q : Ptr) (x : Option File)
      → count_if (holds q) (set t.vfs.files p x) + bit (f.dentry == q)
        ≡ count_if (holds q) t.vfs.files + bit (holds q x)
  count_held q x = count_if-set (holds q) t.vfs.files p x (file_at-get_elem t.vfs.files p u.file)

  -- The table after the slot was cleared, if other descriptors hold the file.
  abbrev fewer : File
  fewer = record f { ref_count = f.ref_count - 1 }

  abbrev shared : Table
  shared = record {
    vfs = record t.vfs { files = set t.vfs.files p (some fewer) };
    open_files = set t.open_files fd null;
    fd_flags = set t.fd_flags fd 0;
  }

  shared-IsValid : 1 < f.ref_count → IsValid shared
  shared-IsValid more = record {
    slots = length-set t.open_files fd null ∙ u.valid.slots;
    flag_slots = length-set t.fd_flags fd 0 ∙ u.valid.flag_slots;
    null_file =
        ground
          (arith, file_at-set t.vfs.files p null (some fewer) in_arena, u.valid.null_file, u.ne);
    exact = λ q ne. ground (
      arith,
      file_at-set t.vfs.files p q (some fewer) in_arena,
      count_cleared q ne,
      u.valid.exact q ne,
      u.file,
    );
    held = λ q g e.
        ground (arith, file_at-set t.vfs.files p q (some fewer) in_arena, e, u.valid.held q g);
    dentry_live = λ q g e. ground (
      arith,
      file_at-set t.vfs.files p q (some fewer) in_arena,
      e,
      u.valid.dentry_live q g,
      u.dentry,
      u.dentry_ne,
    );
    dentry_exact = λ q g e. ground (arith, u.valid.dentry_exact q g e, count_held q (some fewer));
    room = omega (arith, length-set t.vfs.files p (some fewer), u.valid.room);
  }

  -- The table after the slot was cleared, if no other descriptor holds the file.
  abbrev less : Dentry
  less = record d { ref_count = d.ref_count - 1 }

  abbrev alone : Table
  alone = record {
    vfs = record t.vfs {
      dentries = update t.vfs.dentries f.dentry (some less);
      files = set t.vfs.files p none;
    };
    open_files = set t.open_files fd null;
    fd_flags = set t.fd_flags fd 0;
  }

  alone-IsValid : f.ref_count ≡ 1 → IsValid alone
  alone-IsValid one = record {
    slots = length-set t.open_files fd null ∙ u.valid.slots;
    flag_slots = length-set t.fd_flags fd 0 ∙ u.valid.flag_slots;
    null_file =
        ground (arith, file_at-set t.vfs.files p null none in_arena, u.valid.null_file, u.ne);
    exact = λ q ne. ground (
      arith,
      file_at-set t.vfs.files p q none in_arena,
      count_cleared q ne,
      u.valid.exact q ne,
      u.file,
    );
    held = λ q g e. ground (arith, file_at-set t.vfs.files p q none in_arena, e, u.valid.held q g);
    dentry_live = λ q g e.
        ground (arith, file_at-set t.vfs.files p q none in_arena, e, u.valid.dentry_live q g);
    dentry_exact = λ q g e. ground (
      arith,
      e,
      u.valid.dentry_exact q g,
      u.valid.dentry_exact f.dentry d u.dentry,
      count_held q none,
      dentry_shared,
    );
    room = omega (arith, length-set t.vfs.files p none, u.valid.room);
  }

-- What clearing a descriptor gives: no fault, a valid table, and that slot alone emptied.
pub record Cleared (t : Table) (fd : ℕ) (r : Run Table (Unit {0})) : Type 0 where
  pub after : Table
  pub runs : r ≡ ok tt after
  pub valid : IsValid after
  pub slots : after.open_files ≡ set t.open_files fd null
  pub flags : after.fd_flags ≡ set t.fd_flags fd 0
  pub others : (q : Ptr) → q ≢ slot t fd → file_at after.vfs.files q ≡ file_at t.vfs.files q

InUse-Cleared :
    (rounds : ℕ) {t : Table} {fd : ℕ} {f : File} {d : Dentry}
    → InUse t fd f d
    → Cleared t fd (clear_slot rounds fd t)
unfolding clear_slot
InUse-Cleared rounds {t} {fd} {f} {d} u = elim (ℕ_discrete f.ref_count 1) [
  | yes one ↦ record {
    after = alone u;
    runs =
        let step =
          close_last rounds (slot t fd) t.vfs u.ne u.file one u.dentry_ne u.dentry
            (dentry_shared u).0 (dentry_shared u).1 in
        rw (step, ◌>>=◌);
    valid = alone-IsValid u one;
    slots = refl;
    flags = refl;
    others = λ q ne. ground (arith, file_at-set t.vfs.files (slot t fd) q none (in_arena u));
  }
  | no ne ↦
      let more : 1 < f.ref_count = omega (arith, u.valid.held (slot t fd) f u.file) in
      record {
        after = shared u;
        runs =
            let step =
              close_shared rounds (slot t fd) t.vfs u.ne u.file more
                (omega (arith, file_small u)) in
            rw (step, ◌>>=◌);
        valid = shared-IsValid u more;
        slots = refl;
        flags = refl;
        others = λ q ne.
            ground (arith, file_at-set t.vfs.files (slot t fd) q (some (fewer u)) (in_arena u));
      }
]

some_of : {A : Type 0} (o : Option A) → is_some o ≡ true → (a : A) × (o ≡ some a)
some_of none h = cc
some_of (some a) h = (a, refl)

-- Closing a descriptor in use never faults and keeps every reference count exact.
pub clear_slot-Cleared :
    (rounds : ℕ) {t : Table} (fd : ℕ)
    → IsValid t
    → fd < max_open_files
    → slot t fd ≢ null
    → Cleared t fd (clear_slot rounds fd t)
clear_slot-Cleared rounds {t} fd v inside ne =
    let (f, file) = file_of_slot fd v inside ne in
    let (dne, live) = v.dentry_live (slot t fd) f file in
    let (d, dentry) = some_of (t.vfs.dentries f.dentry) live in
    InUse-Cleared rounds (record {
      valid = v;
      inside = inside;
      ne = ne;
      file = file;
      dentry_ne = dne;
      dentry = dentry;
    })
