-- ===== src/Vfs/Refs.antt =====
-- `dput` and `vfs::close` of fs/vfs.cpp on objects that keep a reference.
use synx.Prelude.{
  ℕ, ◌-◌, ◌<◌, ◌≡◌, ◌≢◌, refl, arith, ◌∙◌, false, List, Option, none, some, ◌==◌, ==_iff,
  if◌then◌else◌, get_elem?, set, word32, length, set-set, ap, get_elem?-set_self, get_elem?-set_ne,
  get_elem?-lt, Bool-cases, inl, inr,
}
use synx.Vfs.{
  Ptr, null, Dentry, File, Vfs, ok, ◌>>=◌, update, dec32, file_at, load_dentry, store_dentry,
  load_file, store_file, dput, close,
}

pub file_at-lt :
    (files : List (Option File)) (p : Ptr) {f : File} → file_at files p ≡ some f → p < length files
file_at-lt files p {f} e = go (get_elem? files p) refl e
  where
    go :
        (o : Option (Option File))
        → get_elem? files p ≡ o
        → (elim o [ none ↦ none | some x ↦ x ]) ≡ some f
        → p < length files
    go none h h' = cc
    go (some x) h h' = get_elem?-lt files p h

pub file_at-set :
    (files : List (Option File)) (p q : Ptr) (x : Option File)
    → p < length files
    → file_at (set files p x) q ≡ (if p == q then x else file_at files q)
file_at-set files p q x h = elim (Bool-cases (p == q)) [
  | inl e ↦
      let same : p ≡ q = (==_iff p q).0 e in
      rw e (rw (← same) (rw (get_elem?-set_self files p x h, file_at)))
  | inr n ↦
      let other : p ≢ q = ground arith in
      rw n (rw (get_elem?-set_ne files {i = p} {j = q} x other, file_at))
]

-- A dentry with two references or more loses one; nothing else changes.
pub dput_shared :
    (rounds : ℕ) (p : Ptr) (v : Vfs) {d : Dentry}
    → p ≢ null
    → v.dentries p ≡ some d
    → 1 < d.ref_count
    → d.ref_count < word32
    → dput rounds p v
      ≡ ok tt (record v {
        dentries = update v.dentries p (some (record d { ref_count = d.ref_count - 1 }));
      })
unfolding dput load_dentry store_dentry
dput_shared rounds p v {d} ne e more small =
    let a : (p == null) ≡ false = ground arith in
    let b : dec32 d.ref_count ≡ d.ref_count - 1 = omega arith in
    let c : (d.ref_count - 1 == 0) ≡ false = ground arith in rw a (rw (e, ◌>>=◌) (rw b (rw c)))

module _ (rounds : ℕ) (p : Ptr) (v : Vfs) {f : File} (ne : p ≢ null)
    (at : file_at v.files p ≡ some f) where
  -- A file with two references or more loses one; nothing else changes.
  pub close_shared :
      1 < f.ref_count
      → f.ref_count < word32
      → close rounds p v
        ≡ ok tt
            (record v { files = set v.files p (some (record f { ref_count = f.ref_count - 1 })) })
  unfolding close load_file store_file
  close_shared more small =
      let a : (p == null) ≡ false = ground arith in
      let b : dec32 f.ref_count ≡ f.ref_count - 1 = omega arith in
      let c : (f.ref_count - 1 == 0) ≡ false = ground arith in rw a (rw (at, ◌>>=◌) (rw b (rw c)))

  -- The last reference frees the file and drops its reference to the dentry.
  pub close_last :
      {d : Dentry}
      → f.ref_count ≡ 1
      → f.dentry ≢ null
      → v.dentries f.dentry ≡ some d
      → 1 < d.ref_count
      → d.ref_count < word32
      → close rounds p v
        ≡ ok tt (record v {
          dentries = update v.dentries f.dentry (some (record d { ref_count = d.ref_count - 1 }));
          files = set v.files p none;
        })
  unfolding close load_file store_file
  close_last {d} one ned live more small =
      let a : (p == null) ≡ false = ground arith in
      let b : dec32 f.ref_count ≡ 0 = omega arith in
      let step =
        dput_shared rounds f.dentry
          (record v { files = set v.files p (some (record f { ref_count = 0 })) }) ned live more
          small in
      rw a (rw (at, ◌>>=◌) (rw b (rw (step, ◌>>=◌) (rw set-set))))

pub file_at-get_elem :
    (files : List (Option File)) (p : Ptr) {f : File}
    → file_at files p ≡ some f
    → get_elem? files p ≡ some (some f)
file_at-get_elem files p {f} e = go (get_elem? files p) refl e
  where
    go :
        (o : Option (Option File))
        → get_elem? files p ≡ o
        → (elim o [ none ↦ none | some x ↦ x ]) ≡ some f
        → get_elem? files p ≡ some (some f)
    go none h h' = cc
    go (some x) h h' = h ∙ ap some h'
