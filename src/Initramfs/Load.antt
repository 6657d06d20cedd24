-- ===== src/Initramfs/Load.antt =====
-- fs/initramfs.cpp: `ensure_parent_dir` and `initramfs_load` on a file system given by its operations.
use synx.Prelude.{
  ℕ, zero, suc, ◌+◌, ◌-◌, Bool, true, false, not, ◌||◌, [], ◌∷◌, ◌++◌, Option, none, some, ◌==◌,
  ltb, leb, if◌then◌else◌, length, bit_and, add64, word64,
}
use synx.Initramfs.{
  Str, Entry, cpio_header_size, slash, trailer, same_str, normalize_path, c_string, read_hex_field,
  parse_entry,
}

-- The operations of fs/vfs.cpp and fs/ramfs.cpp that the loader calls. Dentries and inodes are
-- addresses, with 0 for the null pointer.
pub record Files (S : Type 0) : Type 0 where
  pub path_walk : Str → S → ℕ × S
  pub d_lookup : (parent : ℕ) → Str → S → ℕ
  pub dget : ℕ → S → S
  pub dput : ℕ → S → S
  pub create_dir : (parent : ℕ) → Str → S → ℕ × S
  pub create_file : (parent : ℕ) → Str → (data_offset filesize : ℕ) → S → ℕ × S

-- The addresses from -4095 on stand for error codes.
unfoldable pub is_err : ℕ → Bool
is_err p = leb (word64 - 4095) p

-- The text before and after the last slash; none without a slash.
unfoldable pub split_last : Str → Option (Str × Str)
split_last [] = none
split_last (c ∷ s) = elim (split_last s) [
  | some (before, after) ↦ some (c ∷ before, after)
  | none ↦ if c == slash then some ([], s) else none
]

module _ {S : Type 0} (fs : Files S) where
  -- A round of the loop of `ensure_parent_dir`: the child `name` of `current`, made where it is missing.
  -- The result is 0 for a return of the null pointer.
  unfoldable pub enter_dir : (current : ℕ) (name : Str) → S → ℕ × S
  enter_dir current name s =
      let child = fs.d_lookup current name s in
      if not (child == 0)
      then (child, fs.dput current (fs.dget child s))
      else (let (made, s1) = fs.create_dir current name s in
          let new_child = fs.d_lookup current name s1 in
          if made == 0 || new_child == 0
          then (0, fs.dput current s1)
          else (new_child, fs.dput current (fs.dget new_child s1)))

  -- The loop over the names of a path. `name` is the part of `token` that was passed, and the rest
  -- follows; the loop ends at the end of the string.
  unfoldable pub make_dirs : (rest name : Str) (current : ℕ) → S → ℕ × S
  unfolding enter_dir
  make_dirs [] [] current s = (current, s)
  make_dirs [] (n ∷ name) current s = enter_dir current (n ∷ name) s
  make_dirs (c ∷ rest) name current s =
      let (child, s1) = enter_dir current name s in
      if not (c == slash)
      then make_dirs rest (name ++ (c ∷ [])) current s
      else if child == 0
      then (0, s1)
      else make_dirs rest [] child s1

  unfoldable pub ensure_parent_dir : (path : Str) → S → ℕ × S
  ensure_parent_dir path s =
      if length path == 0 || leb 256 (length path) then (0, s) else (elim (split_last path) [
        | none ↦ fs.path_walk (slash ∷ []) s
        | some (before, after) ↦
            let (parent, s1) = fs.path_walk (slash ∷ before) s in
            if not (is_err parent)
            then (parent, s1)
            else (let (current, s2) = fs.path_walk (slash ∷ []) s1 in
                if current == 0 then (0, s2) else make_dirs before [] current s2)
      ])

  -- The name in its directory: what follows the last slash.
  unfoldable pub base_name : Str → Str
  base_name path = elim (split_last path) [ none ↦ path | some (before, after) ↦ after ]

  -- The creation of the entry in its directory: whether it is counted.
  unfoldable pub create_entry : (parent : ℕ) (path : Str) (type : ℕ) → Entry → S → ℕ × S
  create_entry parent path type e s =
      if type == 0x4000
      then (let (ino, s1) = fs.create_dir parent (base_name path) s in
          (if ino == 0 then 0 else 1, fs.dput parent s1))
      else if type == 0x8000
      then (let (ino, s1) = fs.create_file parent (base_name path) e.data_offset e.filesize s in
          (if ino == 0 then 0 else 1, fs.dput parent s1))
      else (0, fs.dput parent s)

  -- What `initramfs_load` gives: the count of the entries, or -1; or no end within the rounds.
  pub data Outcome : Type 0 where
    loaded : (count : ℕ) → S → Outcome
    failed : S → Outcome
    no_fuel : Outcome

  module _ (archive : ℕ → ℕ) (size : ℕ) where
    -- The round from `normalize_path` on: what it adds to the count, or none for a return of -1.
    unfoldable pub load_entry : (offset : ℕ) → Entry → Str → S → Option (ℕ × S)
    load_entry offset e path s =
        if length path == 0 then some (0, s) else (elim (read_hex_field archive offset 14 8) [
          | none ↦ none
          | some mode_raw ↦
              let (parent, s1) = ensure_parent_dir path s in
              if parent == 0
              then some (0, s1)
              else some (create_entry parent path (bit_and mode_raw 0xF000) e s1)
        ])

    unfoldable pub load_loop : (fuel offset count : ℕ) → S → Outcome
    load_loop zero offset count s = no_fuel
    load_loop (suc fuel) offset count s = elim (leb (add64 offset cpio_header_size) size) [
      | false ↦ loaded count s
      | true ↦ elim (parse_entry archive size offset) [
        | none ↦ failed s
        | some e ↦
            let name = c_string archive e.namesize e.name_offset in
            elim (same_str name trailer) [
              | true ↦ loaded count s
              | false ↦ elim (load_entry offset e (normalize_path name 256) s) [
                | none ↦ failed s
                | some (added, s1) ↦ load_loop fuel e.next_offset (count + added) s1
              ]
            ]
      ]
    ]

    -- `initramfs_load` of an archive that is not the null pointer.
    unfoldable pub initramfs_load : (fuel : ℕ) → S → Outcome
    unfolding load_loop
    initramfs_load fuel s = if ltb size cpio_header_size then failed s else load_loop fuel 0 0 s
