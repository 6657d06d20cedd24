-- ===== src/Fd/Inv.antt =====
-- The reference counts behind the descriptor table: each file counts the descriptors that hold it,
-- and each dentry the files that hold it, beside the reference of the tree.
use synx.Prelude.{
  ℕ, ◌+◌, ◌<◌, ◌^◌, ◌≡◌, ◌≢◌, refl, arith, ap, Bool, true, false, Option, none, some, ◌==◌, ==_iff,
  set, length, count_if, count_if-set, count_if-pos, bit, get_elem?-get_or, inl, inr, Option-cases,
}
use synx.Vfs.{Ptr, null, Dentry, File, file_at}
use synx.Fd.{Table, max_open_files, slot}

abbrev pub points_to : Ptr → Ptr → Bool
points_to p q = q == p

abbrev pub holds : Ptr → Option File → Bool
holds d none = false
holds d (some f) = f.dentry == d

abbrev pub refs_of : Option File → ℕ
refs_of none = 0
refs_of (some f) = f.ref_count

abbrev pub is_some {ℓ} : {A : Type ℓ} → Option A → Bool
is_some none = false
is_some (some a) = true

pub record IsValid (t : Table) : Type 0 where
  pub slots : length t.open_files ≡ max_open_files
  pub flag_slots : length t.fd_flags ≡ max_open_files
  pub null_file : file_at t.vfs.files null ≡ none
  pub exact :
      (p : Ptr) → p ≢ null → refs_of (file_at t.vfs.files p) ≡ count_if (points_to p) t.open_files
  pub held : (p : Ptr) (f : File) → file_at t.vfs.files p ≡ some f → 0 < f.ref_count
  pub dentry_live :
      (p : Ptr) (f : File)
      → file_at t.vfs.files p ≡ some f
      → (f.dentry ≢ null) × (is_some (t.vfs.dentries f.dentry) ≡ true)
  pub dentry_exact :
      (q : Ptr) (d : Dentry)
      → t.vfs.dentries q ≡ some d
      → d.ref_count ≡ 1 + count_if (holds q) t.vfs.files
  pub room : length t.vfs.files < 2 ^ 31

-- A descriptor in use holds a file.
pub file_of_slot :
    {t : Table} (fd : ℕ)
    → IsValid t
    → fd < max_open_files
    → slot t fd ≢ null
    → (f : File) × (file_at t.vfs.files (slot t fd) ≡ some f)
file_of_slot {t} fd v h ne = elim (Option-cases (file_at t.vfs.files (slot t fd))) [
  | inr found ↦ found
  | inl missing ↦
      let c = v.exact (slot t fd) ne in
      let pos =
        count_if-pos (points_to (slot t fd)) t.open_files fd
          (get_elem?-get_or t.open_files fd null (omega (arith, v.slots)))
          ((==_iff (slot t fd) (slot t fd)).1 refl) in
      absurd (omega (arith, ap refs_of missing, c, pos))
]

module _ {t : Table} (v : IsValid t) (fd : ℕ) (inside : fd < max_open_files) where
  -- Writing one slot moves the count of the old and of the new pointer.
  pub count-set-slot :
      (p q : Ptr)
      → count_if (points_to q) (set t.open_files fd p) + bit (slot t fd == q)
        ≡ count_if (points_to q) t.open_files + bit (p == q)
  count-set-slot p q =
      count_if-set (points_to q) t.open_files fd p
        (get_elem?-get_or t.open_files fd null (omega (arith, v.slots)))
