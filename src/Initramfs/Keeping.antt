-- ===== src/Initramfs/Keeping.antt =====
-- What the operations of the file system keep, a round of `initramfs_load` (fs/initramfs.cpp) keeps.
use mathlib.Core.Path.{subst}
use mathlib.Core.Option.{some-injective}
use synx.Prelude.{
  ℕ, ◌+◌, ◌≤◌, ◌≡◌, Bool, true, false, not, ◌||◌, [], ◌∷◌, ◌++◌, Option, some, none, ◌==◌, leb,
  if◌then◌else◌, Bool-cases, inl, inr, step_passed, length, bit_and,
}
use synx.Initramfs.{Str, Entry, slash, read_hex_field}
use synx.Initramfs.Load.{
  Files, is_err, split_last, enter_dir, make_dirs, ensure_parent_dir, base_name, create_entry,
  load_entry,
}

-- Every operation keeps the property; the making of a file, if its data lie in the archive.
pub record Keeps {S : Type 0} (fs : Files S) (size : ℕ) (P : S → Type 0) : Type 0 where
  pub path_walk : (path : Str) (s : S) → P s → P (fs.path_walk path s).1
  pub dget : (p : ℕ) (s : S) → P s → P (fs.dget p s)
  pub dput : (p : ℕ) (s : S) → P s → P (fs.dput p s)
  pub create_dir : (p : ℕ) (name : Str) (s : S) → P s → P (fs.create_dir p name s).1
  pub create_file :
      (p : ℕ) (name : Str) (data_offset filesize : ℕ) (s : S)
      → data_offset + filesize ≤ size
      → P s
      → P (fs.create_file p name data_offset filesize s).1

module _ {S : Type 0} (fs : Files S) (size : ℕ) (P : S → Type 0) (keeps : Keeps fs size P) where
  -- The state in a result has the property.
  pub record Held (r : ℕ × S) : Type 0 where
    pub held : P r.1

  if-Held : (b : Bool) {x y : ℕ × S} → Held x → Held y → Held (if b then x else y)
  if-Held true px py = px
  if-Held false px py = py

  enter_dir-Held : (current : ℕ) (name : Str) (s : S) → P s → Held (enter_dir fs current name s)
  unfolding enter_dir
  enter_dir-Held current name s ps =
      let pm = keeps.create_dir current name s ps in
      let child = fs.d_lookup current name s in
      let (made, s1) = fs.create_dir current name s in
      if-Held (not (child == 0)) (record { held = keeps.dput current _ (keeps.dget child s ps) })
        (if-Held (made == 0 || fs.d_lookup current name s1 == 0)
          (record { held = keeps.dput current _ pm })
          (record { held = keeps.dput current _ (keeps.dget (fs.d_lookup current name s1) s1 pm) }))

  make_dirs-Held :
      (rest name : Str) (current : ℕ) (s : S) → P s → Held (make_dirs fs rest name current s)
  unfolding make_dirs
  make_dirs-Held [] [] current s ps = record { held = ps }
  make_dirs-Held [] (n ∷ name) current s ps = enter_dir-Held current (n ∷ name) s ps
  make_dirs-Held (c ∷ rest) name current s ps =
      let pe = enter_dir-Held current name s ps in
      let (child, s1) = enter_dir fs current name s in
      if-Held (not (c == slash)) (make_dirs-Held rest (name ++ (c ∷ [])) current s ps)
        (if-Held (child == 0) (record { held = pe.held }) (make_dirs-Held rest [] child s1 pe.held))

  ensure_parent_dir-Held : (path : Str) (s : S) → P s → Held (ensure_parent_dir fs path s)
  unfolding ensure_parent_dir
  ensure_parent_dir-Held path s ps =
      if-Held (length path == 0 || leb 256 (length path)) (record { held = ps })
        (go (split_last path))
    where
      go :
          (o : Option (Str × Str))
          → Held (elim o as (λ o. ℕ × S) [
            | none ↦ fs.path_walk (slash ∷ []) s
            | some (before, after) ↦
                let (parent, s1) = fs.path_walk (slash ∷ before) s in
                if not (is_err parent)
                then (parent, s1)
                else (let (current, s2) = fs.path_walk (slash ∷ []) s1 in
                    if current == 0 then (0, s2) else make_dirs fs before [] current s2)
          ])
      go none = record { held = keeps.path_walk (slash ∷ []) s ps }
      go (some (before, after)) =
          let (parent, s1) = fs.path_walk (slash ∷ before) s in
          let (current, s2) = fs.path_walk (slash ∷ []) s1 in
          let p1 = keeps.path_walk (slash ∷ before) s ps in
          let p2 = keeps.path_walk (slash ∷ []) s1 p1 in
          if-Held (not (is_err parent)) (record { held = p1 })
            (if-Held (current == 0) (record { held = p2 }) (make_dirs-Held before [] current s2 p2))

  create_entry-Held :
      (parent : ℕ) (path : Str) (type : ℕ) (e : Entry) (s : S)
      → e.data_offset + e.filesize ≤ size
      → P s
      → Held (create_entry fs parent path type e s)
  unfolding create_entry
  create_entry-Held parent path type e s inside ps =
      let name = base_name fs path in
      if-Held (type == 0x4000)
        (record { held = keeps.dput parent _ (keeps.create_dir parent name s ps) })
        (if-Held (type == 0x8000)
          (record {
            held =
                keeps.dput parent _
                  (keeps.create_file parent name e.data_offset e.filesize s inside ps);
          })
          (record { held = keeps.dput parent s ps }))

  if_some-Held :
      (b : Bool) (x y r : ℕ × S)
      → Held x
      → Held y
      → (if b then some x else some y) ≡ some r
      → Held r
  if_some-Held true x y r px py h = subst Held (some-injective _ _ h) px
  if_some-Held false x y r px py h = subst Held (some-injective _ _ h) py

  module _ (archive : ℕ → ℕ) where
    pub load_entry-Held :
        (offset : ℕ) (e : Entry) (path : Str) (s : S) (r : ℕ × S)
        → e.data_offset + e.filesize ≤ size
        → P s
        → load_entry fs archive size offset e path s ≡ some r
        → Held r
    unfolding load_entry
    load_entry-Held offset e path s r inside ps h = elim (Bool-cases (length path == 0)) [
      | inl empty ↦ subst Held (some-injective _ _ (rw empty at h)) (record { held = ps })
      | inr full ↦
          let (mode, read, h') =
            step_passed (read_hex_field archive offset 14 8) _ r (rw full at h) in
          let (parent, s1) = ensure_parent_dir fs path s in
          let p1 = ensure_parent_dir-Held path s ps in
          if_some-Held (parent == 0) (0, s1)
            (create_entry fs parent path (bit_and mode 0xF000) e s1) r (record { held = p1.held })
            (create_entry-Held parent path (bit_and mode 0xF000) e s1 inside p1.held) h'
    ]
