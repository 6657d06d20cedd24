-- ===== src/Vfs.antt =====
-- fs/vfs.cpp and include/fs/vfs.h, the objects of the virtual file system and their reference counts.
-- Inodes and dentries stand at addresses, 0 being the null pointer; the open files stand in an arena,
-- whose index is the address. A read through a pointer to nothing is a fault.
pub mod Refs
use synx.Prelude.{
  ℕ, zero, suc, ◌+◌, ◌-◌, ◌%◌, Bool, true, false, List, Option, none, some, ◌==◌, if◌then◌else◌,
  get_elem?, set, word32,
}

abbrev pub Ptr : Type 0
Ptr = ℕ

abbrev pub null : Ptr
null = 0

pub data FileType : Type 0 where
  regular directory char_dev block_dev : FileType

pub record Inode : Type 0 where
  pub ino : ℕ
  pub type : FileType
  pub size : ℕ
  pub ref_count : ℕ
  pub sb : Ptr
  pub i_ops : Ptr
  pub f_ops : Ptr
  pub private_data : Ptr

pub record Dentry : Type 0 where
  pub name : List ℕ
  pub inode : Ptr
  pub parent : Ptr
  pub child : Ptr
  pub sibling : Ptr
  pub ref_count : ℕ

pub record File : Type 0 where
  pub dentry : Ptr
  pub offset : ℕ
  pub flags : ℕ
  pub f_ops : Ptr
  pub ref_count : ℕ

pub record Vfs : Type 0 where
  pub inodes : Ptr → Option Inode
  pub dentries : Ptr → Option Dentry
  pub files : List (Option File)

pub data Run {ℓ} (S : Type 0) (A : Type ℓ) : Type ℓ where
  ok : A → S → Run S A
  fault : Run S A

module _ {ℓ κ} {S : Type 0} {A : Type ℓ} {B : Type κ} where
  infixl 5 ◌>>=◌
  abbrev pub ◌>>=◌ : (S → Run S A) → (A → S → Run S B) → S → Run S B
  ◌>>=◌ m k s = elim (m s) [ ok a t ↦ k a t | fault ↦ fault ]

module _ {ℓ} {S : Type 0} {B : Type ℓ} where
  infixl 5 ◌>>◌
  abbrev pub ◌>>◌ : (S → Run S (Unit {0})) → (S → Run S B) → S → Run S B
  m >> k = m >>= λ _. k

abbrev pub pure {ℓ} : {S : Type 0} {A : Type ℓ} → A → S → Run S A
pure a s = ok a s

abbrev pub Cmd : Type 0 → Type 0
Cmd A = Vfs → Run Vfs A

abbrev pub update {ℓ} : {A : Type ℓ} → (Ptr → A) → Ptr → A → Ptr → A
update m p v q = if p == q then v else m q

-- `atomic_inc` and the value that `atomic_dec_and_test` stores, on an `int32_t`.
abbrev pub inc32 : ℕ → ℕ
inc32 n = (n + 1) % word32

abbrev pub dec32 : ℕ → ℕ
dec32 n = (n + word32 - 1) % word32

unfoldable pub load_inode : Ptr → Cmd Inode
load_inode p h = elim (h.inodes p) [ none ↦ fault | some i ↦ ok i h ]

pub store_inode : Ptr → Option Inode → Cmd (Unit {0})
store_inode p i h = ok tt (record h { inodes = update h.inodes p i })

unfoldable pub load_dentry : Ptr → Cmd Dentry
load_dentry p h = elim (h.dentries p) [ none ↦ fault | some d ↦ ok d h ]

pub store_dentry : Ptr → Option Dentry → Cmd (Unit {0})
store_dentry p d h = ok tt (record h { dentries = update h.dentries p d })

abbrev pub file_at : List (Option File) → Ptr → Option File
file_at files p = elim (get_elem? files p) [ none ↦ none | some f ↦ f ]

unfoldable pub load_file : Ptr → Cmd File
load_file p h = elim (file_at h.files p) [ none ↦ fault | some f ↦ ok f h ]

unfoldable pub store_file : Ptr → Option File → Cmd (Unit {0})
store_file p f h = ok tt (record h { files = set h.files p f })

pub iget : Ptr → Cmd (Unit {0})
iget p =
    if p == null
    then pure tt
    else do i ← load_inode p; store_inode p (some (record i { ref_count = inc32 i.ref_count }))

-- The last reference calls `sb->s_ops->destroy_inode`. No code sets `s_ops`, which `ramfs::init`
-- clears, so the call goes through a null pointer.
pub iput : Ptr → Cmd (Unit {0})
iput p = if p == null then pure tt else do
  i ← load_inode p
  store_inode p (some (record i { ref_count = dec32 i.ref_count }))
  if dec32 i.ref_count == 0 then (λ _. fault) else pure tt

pub dget : Ptr → Cmd (Unit {0})
dget p =
    if p == null
    then pure tt
    else do d ← load_dentry p; store_dentry p (some (record d { ref_count = inc32 d.ref_count }))

-- The pointers that the loop of `dput` walks: `&parent->child`, then `&sibling->sibling`.
pub data Link : Type 0 where
  child_of sibling_of : Ptr → Link

read_link : Link → Cmd Ptr
read_link (child_of p) = do d ← load_dentry p; pure d.child
read_link (sibling_of p) = do d ← load_dentry p; pure d.sibling

write_link : Link → Ptr → Cmd (Unit {0})
write_link (child_of p) q = do d ← load_dentry p; store_dentry p (some (record d { child = q }))
write_link (sibling_of p) q = do d ← load_dentry p; store_dentry p (some (record d { sibling = q }))

-- The loop of `dput`, with fuel; running out counts as a fault.
unlink : ℕ → Link → Ptr → Cmd (Unit {0})
unlink zero at p = λ _. fault
unlink (suc n) at p = do
  q ← read_link at
  if q == null
      then pure tt
      else if q == p
      then (do d ← load_dentry p; write_link at d.sibling)
      else unlink n (sibling_of q) p

-- `rounds` bounds the loop over the siblings.
pub dput : (rounds : ℕ) → Ptr → Cmd (Unit {0})
unfolding read_link write_link unlink
dput rounds p = if p == null then pure tt else do
  d ← load_dentry p
  store_dentry p (some (record d { ref_count = dec32 d.ref_count }))
  if dec32 d.ref_count == 0
      then (do
        if d.parent == null then pure tt else unlink rounds (child_of d.parent) p
        if d.inode == null then pure tt else iput d.inode
        store_dentry p none)
      else pure tt

-- `vfs::close`
pub close : (rounds : ℕ) → Ptr → Cmd (Unit {0})
close rounds p = if p == null then pure tt else do
  f ← load_file p
  store_file p (some (record f { ref_count = dec32 f.ref_count }))
  if dec32 f.ref_count == 0 then (do dput rounds f.dentry; store_file p none) else pure tt
