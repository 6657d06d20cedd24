-- ===== src/Dynlink.antt =====
-- proc/dynlink.cpp and include/proc/dynlink.h: the loader of an ELF64 image into memory that the caller
-- provides. The file and the image are two blocks of bytes. A read or a store outside of them is a
-- fault. This file has the results, the accesses and the checks of ranges; the children have the rest.
pub mod Relocate
pub mod Relocated
pub mod Load
pub mod Safe
pub mod Relative
pub mod Segments
pub mod Whole
mod Tests
use mathlib.Core.Option
use synx.Prelude.{
  ℕ, zero, suc, ◌+◌, ◌-◌, ◌/◌, ◌%◌, ◌^◌, Bool, true, false, not, ◌&&◌, ◌||◌, List, [], ◌∷◌, Option,
  none, some, ◌==◌, ltb, leb, if◌then◌else◌, word64,
}
use synx.Elf.{Bytes, little_endian}

pub data Error : Type 0 where
  invalid_argument invalid_elf unsupported insufficient_memory invalid_dynamic_table : Error
  dependency_error unresolved_symbol unsupported_relocation : Error

-- The callbacks may be null. `resolve_symbol` gives its result and what it leaves in `*address`.
pub record Options : Type 0 where
  pub load_bias : ℕ
  pub load_dependency : Option (List ℕ → Bool)
  pub resolve_symbol : Option (List ℕ → Bool × ℕ)

-- A part of the loader ended with a value, returned an error code, or left its blocks.
pub data Step (A : Type 0) : Type 0 where
  done : A → Bytes → Step A
  halt : Error → Bytes → Step A
  fault : Step A

-- A part of the loader, on the bytes of the image.
abbrev pub Loader : Type 0 → Type 0
Loader A = Bytes → Step A

infixl 5 ◌>>=◌ ◌>>◌
unfoldable pub ◌>>=◌ : {A B : Type 0} → Loader A → (A → Loader B) → Loader B
◌>>=◌ m k image = elim (m image) [
  | done a image' ↦ k a image'
  | halt e image' ↦ halt e image'
  | fault ↦ fault
]

unfoldable pub ◌>>◌ : {B : Type 0} → Loader (Unit {0}) → Loader B → Loader B
unfolding ◌>>=◌
◌>>◌ m k = m >>= λ _. k

unfoldable pub pure : {A : Type 0} → A → Loader A
pure a image = done a image

unfoldable pub refuse : {A : Type 0} → Error → Loader A
refuse e image = halt e image

-- `if (test) return e;`
unfoldable pub reject : Bool → Error → Loader (Unit {0})
reject test e image = if test then halt e image else done tt image

abbrev pub size_max : ℕ
size_max = 2 ^ 64 - 1

-- `offset <= total && length <= total - offset`
unfoldable pub file_range : (offset length total : ℕ) → Bool
file_range offset length total = leb offset total && leb length (total - offset)

-- The offset in the image, if the block of `length` bytes lies in it.
unfoldable pub image_range : (address length image_base image_span : ℕ) → Option ℕ
image_range address length image_base image_span =
    if ltb address image_base
    then none
    else (let relative = address - image_base in
        if ltb image_span relative || ltb (image_span - relative) length || ltb size_max relative
        then none
        else some relative)

-- `if (!image_range(…)) return e;`
unfoldable pub in_image : (address length image_base image_span : ℕ) → Error → Loader ℕ
unfolding image_range
in_image address length image_base image_span e image =
    elim (image_range address length image_base image_span) [
      | none ↦ halt e image
      | some offset ↦ done offset image
    ]

-- `memcpy(&structure, file_data + at, n)`
unfoldable pub view_file :
    {A : Type 0} (file : Bytes) (file_size n : ℕ) → (Bytes → ℕ → A) → (at : ℕ) → Loader A
view_file file file_size n read at image =
    if leb (at + n) file_size then done (read file at) image else fault

module _ (capacity : ℕ) where
  -- `memcpy(&structure, image + at, n)`
  unfoldable pub view : {A : Type 0} (n : ℕ) → (Bytes → ℕ → A) → (at : ℕ) → Loader A
  view n read at image = if leb (at + n) capacity then done (read image at) image else fault

  -- `memcpy(image + at, &value, 8)`
  unfoldable pub store64 : (at value : ℕ) → Loader (Unit {0})
  store64 at value image =
      if leb (at + 8) capacity
      then done tt
          (λ x. if leb at x && ltb x (at + 8) then value / 256 ^ (x - at) % 256 else image x)
      else fault

  -- `memset(image_memory, 0, n)`
  unfoldable pub clear : (n : ℕ) → Loader (Unit {0})
  clear n image = if leb n capacity then done tt (λ x. if ltb x n then 0 else image x) else fault

  -- `memcpy(image_memory + dest, file_data + src, n)`
  unfoldable pub copy_in : (file : Bytes) (file_size dest src n : ℕ) → Loader (Unit {0})
  copy_in file file_size dest src n image =
      if leb (src + n) file_size && leb (dest + n) capacity
      then done tt
          (λ x. if leb dest x && ltb x (dest + n) then file (src + (x - dest)) else image x)
      else fault

  -- The loop of `bounded_string`, with `left` bytes left: the characters up to the terminator.
  unfoldable pub string_loop : (left at : ℕ) → Loader (Option (List ℕ))
  string_loop zero at = pure none
  string_loop (suc left) at = do
    c ← view 1 (little_endian 1) at
    if c == 0
        then pure (some [])
        else (do rest ← string_loop left (at + 1); pure (Option.map (λ cs. c ∷ cs) rest))

  unfoldable pub bounded_string : (strings size offset : ℕ) → Loader (Option (List ℕ))
  bounded_string strings size offset =
      if leb size offset then pure none else string_loop (size - offset) (strings + offset)
