-- ===== src/Usermem/Path/Names.antt =====
-- The path that `dentry_path` (proc/syscall_user.cpp) gives a dentry.
use mathlib.Core.List.{append_assoc, append-nil}
use synx.Prelude.{
  ℕ, zero, suc, ◌+◌, ◌-◌, ◌≤◌, ◌<◌, ◌≡◌, ◌≢◌, ◌⊎◌, inl, inr, refl, arith, ap, sym, ◌∙◌, true, false,
  List, [], ◌∷◌, ◌++◌, some, ◌==◌, ltb, leb, if◌then◌else◌, Bool-cases, length, length-append,
}
use synx.Vfs.{Ptr, null, Run, ok, ◌>>=◌, Vfs, Dentry, load_dentry}
use synx.Usermem.Path.{
  Str, Result, got, err, slash, enametoolong, components, join_names, dentry_path,
}

-- The names with a slash before each of them.
abbrev pub slashed : List Str → Str
slashed [] = []
slashed (name ∷ names) = slash ∷ (name ++ slashed names)

-- The absolute path of the names.
abbrev pub path_text : List Str → Str
path_text [] = slash ∷ []
path_text (name ∷ names) = slashed (name ∷ names)

abbrev pub Named : List Str → Type 0
Named [] = Unit {0}
Named (name ∷ names) = (1 ≤ length name) × Named names

-- The names from the root to a dentry; the root itself has no name.
pub data Ancestors (v : Vfs) : Ptr → List Str → Type 0 where
  root :
      (p : Ptr) (d : Dentry) → p ≢ null → v.dentries p ≡ some d → d.parent ≡ null → Ancestors v p []
  child :
      (p : Ptr) (d : Dentry) (names : List Str)
      → p ≢ null
      → v.dentries p ≡ some d
      → d.parent ≢ null
      → Ancestors v d.parent names
      → Ancestors v p (names ++ (d.name ∷ []))

-- A path if it fits, with its NUL.
abbrev pub fitting : (capacity : ℕ) → Str → Result Str
fitting capacity path = if ltb (length path) capacity then got path else err enametoolong

join_names-slashed :
    (capacity : ℕ) (names : List Str) (path : Str)
    → Named names
    → 1 < length path
    → length path < capacity
    → join_names capacity names path ≡ fitting capacity (path ++ slashed names)
unfolding join_names
join_names-slashed capacity [] path named some_path room =
    let fits : ltb (length path) capacity ≡ true = ground arith in rw (append-nil path, fits) refl
join_names-slashed capacity (name ∷ names) path named some_path room =
    let sep : ltb 1 (length path) ≡ true = ground arith in
    let next : Str = path ++ (slash ∷ []) ++ name in
    let l0 = length-append path (slash ∷ []) in
    let l1 = length-append (path ++ (slash ∷ [])) name in
    let all : path ++ slashed (name ∷ names) ≡ next ++ slashed names = sym (
      append_assoc (path ++ (slash ∷ [])) name (slashed names)
      ∙ append_assoc path (slash ∷ []) (name ++ slashed names)) in
    let l2 = length-append next (slashed names) in
    elim (Bool-cases (leb (capacity - length path) (length name + 1))) [
      | inl over ↦
          let long : ltb (length (next ++ slashed names)) capacity ≡ false =
            ground (arith, over, l0, l1, l2) in
          rw (join_names, sep, over, all, long) refl
      | inr fits ↦
          rw (join_names, sep, fits, all)
            (join_names-slashed capacity names next named.1 (omega arith)
              (ground (arith, fits, l0, l1)))
    ]

join_names-path_text :
    (capacity : ℕ) (names : List Str)
    → Named names
    → 2 ≤ capacity
    → join_names capacity names (slash ∷ []) ≡ fitting capacity (path_text names)
unfolding join_names
join_names-path_text capacity [] named room =
    let fits : ltb (length (slash ∷ [])) capacity ≡ true = ground arith in rw fits refl
join_names-path_text capacity (name ∷ names) named room =
    let some_name = named.0 in
    let l = length-append name (slashed names) in
    elim (Bool-cases (leb (capacity - 1) (length name + 0))) [
      | inl over ↦
          let long : ltb (length (slashed (name ∷ names))) capacity ≡ false =
            ground (arith, over, l) in
          rw (join_names, over, long) refl
      | inr fits ↦
          rw (join_names, fits)
            (join_names-slashed capacity names (slash ∷ name) named.1 (omega arith)
              (ground (arith, fits)))
    ]

Named-append : (names : List Str) (name : Str) → Named (names ++ (name ∷ [])) → Named names
Named-append [] name h = tt
Named-append (n ∷ names) name h = (h.0, Named-append names name h.1)

-- The walk up from a dentry collects its names, if there are no more of them than it has room for.
components-Ancestors :
    (v : Vfs) (left : ℕ) (p : Ptr) (names later : List Str)
    → Ancestors v p names
    → components left p later v
      ≡ ok (if leb (length names) left then got (names ++ later) else err enametoolong) v
unfolding components load_dentry
components-Ancestors v zero p _ later (root _ d some_p at top) =
    let here : (p == null) ≡ false = ground arith in
    let parent : (d.parent == null) ≡ true = ground arith in
    rw (components, here, ◌>>=◌, load_dentry, at, parent) refl
components-Ancestors v (suc left) p _ later (root _ d some_p at top) =
    let here : (p == null) ≡ false = ground arith in
    let parent : (d.parent == null) ≡ true = ground arith in
    let room : leb 0 (suc left) ≡ true = ground arith in
    rw (components, here, ◌>>=◌, load_dentry, at, parent, room) refl
components-Ancestors v zero p _ later (child _ d names some_p at deep up) =
    let here : (p == null) ≡ false = ground arith in
    let parent : (d.parent == null) ≡ false = ground arith in
    let l = length-append names (d.name ∷ []) in
    let full : leb (length (names ++ (d.name ∷ []))) 0 ≡ false = ground (arith, l) in
    rw (components, here, ◌>>=◌, load_dentry, at, parent, full) refl
components-Ancestors v (suc left) p _ later (child _ d names some_p at deep up) =
    let here : (p == null) ≡ false = ground arith in
    let parent : (d.parent == null) ≡ false = ground arith in
    let l = length-append names (d.name ∷ []) in
    let same : leb (length (names ++ (d.name ∷ []))) (suc left) ≡ leb (length names) left =
      ground (arith, l) in
    rw
      (
        components,
        here,
        ◌>>=◌,
        load_dentry,
        at,
        parent,
        same,
        append_assoc names (d.name ∷ []) later,
      )
      (components-Ancestors v left d.parent names (d.name ∷ later) up)

-- A command that gives a value hands it on.
pub bind_ok {ℓ κ} :
    {S : Type 0} {A : Type ℓ} {B : Type κ} (m : S → Run S A) (k : A → S → Run S B) (a : A) (v w : S)
    → m v ≡ ok a w
    → ◌>>=◌ m k v ≡ k a w
bind_ok m k a v w h = rw (◌>>=◌, h) refl

fitting-short :
    (capacity : ℕ) (names : List Str)
    → capacity ≤ 1
    → fitting capacity (path_text names) ≡ err enametoolong
fitting-short capacity [] short =
    let long : ltb (length (slash ∷ [])) capacity ≡ false = ground arith in rw long refl
fitting-short capacity (name ∷ names) short =
    let long : ltb (length (slashed (name ∷ names))) capacity ≡ false = ground arith in rw long refl

-- `dentry_path` of a dentry whose ancestors all have names, except the root, is the absolute path of
-- these names. It is ENAMETOOLONG exactly if there are more than 128 of them or the path and its NUL do
-- not fit. It changes nothing.
pub dentry_path-Ancestors :
    (v : Vfs) (p : Ptr) (names : List Str) (capacity : ℕ)
    → Ancestors v p names
    → Named names
    → dentry_path p capacity v
      ≡ ok
          (if leb (length names) 128 then fitting capacity (path_text names) else err enametoolong)
          v
unfolding dentry_path
dentry_path-Ancestors v p names capacity up named =
    bind_ok (components 128 p []) _ _ v v (
      components-Ancestors v 128 p names [] up
      ∙ ap (λ l. ok (if leb (length names) 128 then got l else err enametoolong) v)
          (append-nil names))
    ∙ (elim (Bool-cases (leb (length names) 128)) [
      | inr many ↦ rw many refl
      | inl few ↦ rw few (ap (λ r. ok r v) (short_or_not (Bool-cases (ltb capacity 2))))
    ])
  where
    short_or_not :
        (ltb capacity 2 ≡ true) ⊎ (ltb capacity 2 ≡ false)
        → (if ltb capacity 2 then err enametoolong else join_names capacity names (slash ∷ []))
          ≡ fitting capacity (path_text names)
    short_or_not (inl short) = rw short (sym (fitting-short capacity names (ground arith)))
    short_or_not (inr long) = rw long (join_names-path_text capacity names named (ground arith))
