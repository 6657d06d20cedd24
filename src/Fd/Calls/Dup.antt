-- ===== src/Fd/Calls/Dup.antt =====
-- `find_free_fd` and `duplicate_fd` of proc/syscall_fs.cpp: which descriptor they give, and that the
-- reference counts stay exact.
use native.Mathlib.Decide.{ℕ_discrete}
use synx.Prelude.{
  ℕ, zero, suc, ◌+◌, ◌-◌, ◌≤◌, ◌<◌, ◌≡◌, ◌≢◌, ◌⊎◌, inl, inr, refl, arith, ◌∙◌, ap, sym, Bool, true,
  false, ◌&&◌, some, ◌==◌, if◌then◌else◌, leb, set, set-set, length, length-set, count_if,
  count_if-set, count_if-le, Bool-cases,
}
use synx.Vfs.{
  null, File, Vfs, Run, ok, fault, ◌>>=◌, ◌>>◌, pure, file_at, load_file, store_file, close, inc32,
}
use synx.Vfs.Refs.{file_at-lt, file_at-set, file_at-get_elem}
use synx.Fd.{
  Table, Sys, Long, ret, err, ebadf, einval, enfile, max_open_files, fd_cloexec, slot, is_closed,
  lift, set_slot, clear_slot,
}
use synx.Fd.Inv.{IsValid, points_to, holds, refs_of, file_of_slot, count-set-slot}
use synx.Fd.Clear.{clear_slot-Cleared}
use synx.Fd.Close.{get_or-set, slot-cleared}
use synx.Fd.Calls.{
  find_free_loop, find_free_fd, add_reference, replace_slot, duplicate_to, duplicate_fd,
}

-- The lowest free slot from `minimum` on, or NFILE where none is free.
abbrev pub LowestFree : (minimum : ℕ) → Table → Long → Type 0
LowestFree minimum t r =
    ((n : ℕ) × (r ≡ ret n)
      × (minimum ≤ n)
      × (n < max_open_files)
      × (slot t n ≡ null)
      × ((i : ℕ) → (i < minimum) ⊎ ((n ≤ i) ⊎ (slot t i ≢ null))))
    ⊎ ((r ≡ err enfile) × ((i : ℕ) → (i < minimum) ⊎ ((max_open_files ≤ i) ⊎ (slot t i ≢ null))))

skip_one :
    (t : Table) (fd : ℕ) {i : ℕ} {P : Type 0}
    → (slot t fd == null) ≡ false
    → (i < fd + 1) ⊎ (P ⊎ (slot t i ≢ null))
    → (i < fd) ⊎ (P ⊎ (slot t i ≢ null))
skip_one t fd {i} used (inr later) = inr later
skip_one t fd {i} used (inl early) = elim (ℕ_discrete i fd) [
  | yes e ↦ inr (inr (λ n. ground (arith, ap (slot t) e)))
  | no ne ↦ inl (omega arith)
]

find_free_loop-LowestFree :
    (n fd : ℕ) (t : Table) → fd + n ≡ max_open_files → LowestFree fd t (find_free_loop n fd t)
unfolding find_free_loop
find_free_loop-LowestFree zero fd t h = inr (refl, λ i. ground arith)
find_free_loop-LowestFree (suc n) fd t h = elim (Bool-cases (slot t fd == null)) [
  | inl free ↦
      rw (free, find_free_loop)
        (inl (fd, refl, omega arith, omega arith, ground arith, λ i. ground arith))
  | inr used ↦
      rw (used, find_free_loop)
        (elim (find_free_loop-LowestFree n (fd + 1) t (omega arith)) [
          | inl (m, e, low, inside, free, least) ↦
              inl (m, e, omega arith, inside, free, λ i. skip_one t fd used (least i))
          | inr (e, all) ↦ inr (e, λ i. skip_one t fd used (all i))
        ])
]

-- A free descriptor is the lowest one from the minimum on; EBADF is given for a minimum out of range
-- alone, NFILE only if every descriptor from the minimum on is in use.
pub find_free_fd-LowestFree :
    (minimum : ℕ) (t : Table)
    → LowestFree minimum t (find_free_fd minimum t)
      ⊎ ((find_free_fd minimum t ≡ err ebadf) × (max_open_files ≤ minimum))
unfolding find_free_fd
find_free_fd-LowestFree minimum t = elim (Bool-cases (leb max_open_files minimum)) [
  | inl out ↦ rw out (inr (refl, ground arith))
  | inr inside ↦
      rw inside
        (inl (find_free_loop-LowestFree (max_open_files - minimum) minimum t (ground arith)))
]

-- `set_slot` and the new reference at the end of `duplicate_fd`.
abbrev install : (new_fd p flags : ℕ) → Sys Long
install new_fd p flags t = (do set_slot new_fd p flags; lift (add_reference p); pure (ret new_fd)) t

module _ {t : Table} (v : IsValid t) (new_fd p flags : ℕ) {f : File}
    (inside : new_fd < max_open_files) (free : slot t new_fd ≡ null) (ne : p ≢ null)
    (at : file_at t.vfs.files p ≡ some f) where
  abbrev more : File
  more = record f { ref_count = f.ref_count + 1 }

  abbrev installed : Table
  installed = record {
    vfs = record t.vfs { files = set t.vfs.files p (some more) };
    open_files = set t.open_files new_fd p;
    fd_flags = set t.fd_flags new_fd flags;
  }

  in_arena : p < length t.vfs.files
  in_arena = file_at-lt t.vfs.files p at

  few : f.ref_count ≤ max_open_files
  few =
      let exact : f.ref_count ≡ count_if (points_to p) t.open_files =
        ap refs_of (sym at) ∙ v.exact p ne in
      omega (arith, exact, count_if-le (points_to p) t.open_files, v.slots)

  install-runs : install new_fd p flags t ≡ ok (ret new_fd) installed
  unfolding add_reference lift set_slot load_file store_file
  install-runs =
      let b : inc32 f.ref_count ≡ f.ref_count + 1 = omega (arith, few) in rw (at, ◌>>=◌) (rw b)

  installed-IsValid : IsValid installed
  installed-IsValid = record {
    slots = length-set t.open_files new_fd p ∙ v.slots;
    flag_slots = length-set t.fd_flags new_fd flags ∙ v.flag_slots;
    null_file =
        ground (arith, file_at-set t.vfs.files p null (some more) in_arena, v.null_file, ne);
    exact = λ q qne. ground (
      arith,
      file_at-set t.vfs.files p q (some more) in_arena,
      count-set-slot v new_fd inside p q,
      v.exact q qne,
      at,
      free,
    );
    held = λ q g e. ground (arith, file_at-set t.vfs.files p q (some more) in_arena, e, v.held q g);
    dentry_live = λ q g e. ground (
      arith,
      file_at-set t.vfs.files p q (some more) in_arena,
      e,
      v.dentry_live q g,
      v.dentry_live p f at,
    );
    dentry_exact = λ q g e. ground (
      arith,
      v.dentry_exact q g e,
      count_if-set (holds q) t.vfs.files p (some more) (file_at-get_elem t.vfs.files p at),
    );
    room = omega (arith, length-set t.vfs.files p (some more), v.room);
  }

-- The close of the old file in `duplicate_fd` is that of `clear_slot`, without the stores after it.
close-clear :
    (rounds new_fd p flags : ℕ) (t after : Table)
    → clear_slot rounds new_fd t ≡ ok tt after
    → (do lift (close rounds (slot t new_fd)); install new_fd p flags) t
      ≡ install new_fd p flags after
unfolding clear_slot lift set_slot
close-clear rounds new_fd p flags t after e = go (close rounds (slot t new_fd) t.vfs) refl
  where
    go :
        (r : Run Vfs (Unit {0}))
        → close rounds (slot t new_fd) t.vfs ≡ r
        → (do lift (close rounds (slot t new_fd)); install new_fd p flags) t
          ≡ install new_fd p flags after
    go fault h = let step : clear_slot rounds new_fd t ≡ fault = rw (h, ◌>>=◌) refl in absurd cc
    go (ok u w) h =
        let cleared : Table = record {
          vfs = w;
          open_files = set t.open_files new_fd null;
          fd_flags = set t.fd_flags new_fd 0;
        } in
        let step : clear_slot rounds new_fd t ≡ ok tt cleared = rw (h, ◌>>=◌) refl in
        let same : cleared ≡ after = cc in
        rw (h, ◌>>=◌) (rw (← same) (rw (set-set) (rw (set-set) refl)))

-- What `duplicate_fd` did: it refused and changed nothing, or `new_fd` now holds the file of `old_fd`.
abbrev pub Duplicated : Table → (old_fd : ℕ) → Run Table Long → Type 0
Duplicated t old_fd r =
    ((e : ℕ) × (r ≡ ok (err e) t))
    ⊎ ((n : ℕ) × (t' : Table) × (r ≡ ok (ret n) t')
        × (n < max_open_files)
        × IsValid t'
        × ((i : ℕ) → slot t' i ≡ (if n == i then slot t old_fd else slot t i)))

module _ (rounds : ℕ) {t : Table} (v : IsValid t) (old_fd : ℕ) (old_in : old_fd < max_open_files)
    (used : slot t old_fd ≢ null) where
  replace_slot-Duplicated :
      (new_fd : ℕ) (cloexec : Bool)
      → new_fd < max_open_files
      → old_fd ≢ new_fd
      → Duplicated t old_fd (replace_slot rounds old_fd new_fd cloexec t)
  unfolding replace_slot
  replace_slot-Duplicated new_fd cloexec inside ne = elim (Bool-cases (slot t new_fd == null)) [
    | inl free ↦
        let gap : slot t new_fd ≡ null = ground arith in
        let (f, at) = file_of_slot old_fd v old_in used in
        let flags = if cloexec then fd_cloexec else 0 in
        let runs = install-runs v new_fd (slot t old_fd) flags inside gap used at in
        inr (
          new_fd,
          installed v new_fd (slot t old_fd) flags inside gap used at,
          rw free runs,
          inside,
          installed-IsValid v new_fd (slot t old_fd) flags inside gap used at,
          λ i. get_or-set t.open_files new_fd i (slot t old_fd) (omega (arith, v.slots)),
        )
    | inr busy ↦
        let c = clear_slot-Cleared rounds new_fd v inside (λ e. ground arith) in
        let gap : slot c.after new_fd ≡ null = ground (arith, slot-cleared v inside c new_fd) in
        let kept : slot c.after old_fd ≡ slot t old_fd =
          ground (arith, slot-cleared v inside c old_fd) in
        let (f, at) = file_of_slot old_fd c.valid old_in (λ e. used (sym kept ∙ e)) in
        let at' : file_at c.after.vfs.files (slot t old_fd) ≡ some f =
          ap (file_at c.after.vfs.files) (sym kept) ∙ at in
        let flags = if cloexec then fd_cloexec else 0 in
        let runs = install-runs c.valid new_fd (slot t old_fd) flags inside gap used at' in
        inr (
          new_fd,
          installed c.valid new_fd (slot t old_fd) flags inside gap used at',
          rw busy (close-clear rounds new_fd (slot t old_fd) flags t c.after c.runs ∙ runs),
          inside,
          installed-IsValid c.valid new_fd (slot t old_fd) flags inside gap used at',
          λ i. ground (
            arith,
            slot-cleared v inside c i,
            get_or-set c.after.open_files new_fd i (slot t old_fd) (omega (arith, c.valid.slots)),
          ),
        )
  ]

  duplicate_to-Duplicated :
      (new_fd : ℕ) (exact cloexec : Bool)
      → new_fd < max_open_files
      → Duplicated t old_fd (duplicate_to rounds old_fd new_fd exact cloexec t)
  unfolding duplicate_to
  duplicate_to-Duplicated new_fd exact cloexec inside = elim (Bool-cases (old_fd == new_fd)) [
    | inl same ↦ rw same (elim (Bool-cases (exact && cloexec)) [
      | inl bad ↦ rw bad (inl (einval, refl))
      | inr good ↦ rw good (
          inr (
            new_fd,
            t,
            refl,
            inside,
            v,
            λ i. elim (Bool-cases (new_fd == i)) [
              | inl e ↦ rw e (ap (slot t) (ground arith))
              | inr n ↦ rw n refl
            ],
          ))
    ])
    | inr other ↦ rw other (replace_slot-Duplicated new_fd cloexec inside (ground arith))
  ]

-- `duplicate_fd` on a valid table never faults. It refuses and changes nothing; or it gives a
-- descriptor that holds the file of `old_fd`, leaves every other descriptor, and keeps the reference
-- counts of files and dentries exact, whatever the new descriptor held before.
pub duplicate_fd-Duplicated :
    (rounds old_fd new_fd : ℕ) (exact cloexec : Bool) (t : Table)
    → IsValid t
    → Duplicated t old_fd (duplicate_fd rounds old_fd new_fd exact cloexec t)
unfolding duplicate_fd
duplicate_fd-Duplicated rounds old_fd new_fd exact cloexec t v =
    elim (Bool-cases (is_closed t old_fd)) [
      | inl bad ↦ rw bad (inl (ebadf, refl))
      | inr good ↦
          let old_in : old_fd < max_open_files = ground arith in
          let used : slot t old_fd ≢ null = λ e. ground arith in
          rw good (elim (Bool-cases exact) [
            | inl strict ↦ rw strict (elim (Bool-cases (leb max_open_files new_fd)) [
              | inl out ↦ rw out (inl (ebadf, refl))
              | inr inside ↦ rw inside (
                  duplicate_to-Duplicated rounds v old_fd old_in used new_fd true cloexec
                    (ground arith))
            ])
            | inr loose ↦ rw loose (elim (find_free_fd-LowestFree new_fd t) [
              | inr (e, out) ↦ rw e (inl (ebadf, refl))
              | inl (inr (e, all)) ↦ rw e (inl (enfile, refl))
              | inl (inl (n, e, low, inside, free, least)) ↦
                  rw e (duplicate_to-Duplicated rounds v old_fd old_in used n exact cloexec inside)
            ])
          ])
    ]
