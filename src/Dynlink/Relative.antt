-- ===== src/Dynlink/Relative.antt =====
-- What one entry of type R_X86_64_RELATIVE does to the image (proc/dynlink.cpp).
use synx.Prelude.{
  ℕ, ◌+◌, ◌-◌, ◌/◌, ◌%◌, ◌^◌, ◌≤◌, ◌<◌, ◌≡◌, ◌⊎◌, arith, true, false, not, ◌&&◌, some, ◌==◌, ltb,
  leb, if◌then◌else◌, add64, ap,
}
use synx.Elf.{Bytes, Rela, rela_at, rela_size, little_endian}
use synx.Elf.Bytes.{little_endian-eight}
use synx.Dynlink.{
  Options, Loader, Step, Error, invalid_dynamic_table, done, ◌>>=◌, ◌>>◌, pure, reject, image_range,
  in_image, view, store64, size_max,
}
use synx.Dynlink.Relocate.{
  DynamicInfo, type_of, symbol_index, r_x86_64_relative, relocation_value, relocate,
}

stored : (image : Bytes) (at value : ℕ) → Bytes
stored image at value x =
    if leb at x && ltb x (at + 8) then value / 256 ^ (x - at) % 256 else image x

stored-byte :
    (image : Bytes) (at value k : ℕ)
    → k < 8
    → stored image at value (at + k) ≡ value / 256 ^ k % 256
unfolding stored
stored-byte image at value k lt =
    let back : at + k - at ≡ k = omega arith in
    let same : value / 256 ^ (at + k - at) % 256 ≡ value / 256 ^ k % 256 =
      ap (λ j. value / 256 ^ j % 256) back in
    ground (arith, same)

view-done :
    {A : Type 0} (capacity n : ℕ) (read : Bytes → ℕ → A) (at : ℕ) (image : Bytes)
    → at + n ≤ capacity
    → view capacity n read at image ≡ done (read image at) image
unfolding view
view-done capacity n read at image fits =
    let here : leb (at + n) capacity ≡ true = ground arith in rw here

image_range-some :
    (address length image_base span : ℕ)
    → image_base ≤ address
    → address + length ≤ image_base + span
    → span ≤ size_max
    → image_range address length image_base span ≡ some (address - image_base)
unfolding image_range
image_range-some address length image_base span above below max = ground arith

in_image-done :
    (address length image_base span : ℕ) (e : Error) (image : Bytes)
    → image_base ≤ address
    → address + length ≤ image_base + span
    → span ≤ size_max
    → in_image address length image_base span e image ≡ done (address - image_base) image
unfolding in_image
in_image-done address length image_base span e image above below max =
    rw (image_range-some address length image_base span above below max, in_image)

store64-done :
    (capacity at value : ℕ) (image : Bytes)
    → at + 8 ≤ capacity
    → store64 capacity at value image ≡ done tt (stored image at value)
unfolding store64 stored
store64-done capacity at value image fits =
    let here : leb (at + 8) capacity ≡ true = ground arith in rw here

relocation_value-relative :
    (capacity image_base span : ℕ) (dynamic : DynamicInfo) (options : Options) (r : Rela)
    (image : Bytes)
    → type_of r ≡ r_x86_64_relative
    → symbol_index r ≡ 0
    → relocation_value capacity image_base span dynamic options r image
      ≡ done (add64 options.load_bias r.addend) image
unfolding relocation_value ◌>>=◌ ◌>>◌ pure reject
relocation_value-relative capacity image_base span dynamic options r image relative no_symbol =
    let typed : (type_of r == r_x86_64_relative) ≡ true = ground arith in
    let plain : not (symbol_index r == 0) ≡ false = ground arith in rw typed (rw plain)

stored-apart :
    (image : Bytes) (at value x : ℕ) → (x < at) ⊎ (at + 8 ≤ x) → stored image at value x ≡ image x
unfolding stored
stored-apart image at value x out = ground arith

-- A step that ends with a value, and what follows it.
bind-done :
    {A B : Type 0} (l : Loader A) (k : A → Loader B) {image : Bytes} {a : A} {r : Step B}
    → l image ≡ done a image
    → k a image ≡ r
    → (l >>= k) image ≡ r
unfolding ◌>>=◌
bind-done l k e f = rw (e, ◌>>=◌) f

-- An entry of type R_X86_64_RELATIVE with no symbol, whose target lies in the image, makes the eight
-- bytes of its target the load bias plus the addend, mod 2 ^ 64, and changes no other byte. The entry
-- lies in the buffer, and so does the image.
pub relocate-relative :
    (capacity image_base span : ℕ) (dynamic : DynamicInfo) (options : Options) (at : ℕ)
    (image : Bytes)
    → at + rela_size ≤ capacity
    → span ≤ capacity
    → span ≤ size_max
    → type_of (rela_at image at) ≡ r_x86_64_relative
    → symbol_index (rela_at image at) ≡ 0
    → image_base ≤ (rela_at image at).offset
    → (rela_at image at).offset + 8 ≤ image_base + span
    → (image' : Bytes) × (relocate capacity image_base span dynamic options at image
        ≡ done tt image')
      × (little_endian 8 image' ((rela_at image at).offset - image_base)
          ≡ add64 options.load_bias (rela_at image at).addend)
      × ((x : ℕ)
          → (x < (rela_at image at).offset - image_base)
            ⊎ ((rela_at image at).offset - image_base + 8 ≤ x)
          → image' x ≡ image x)
unfolding relocate
relocate-relative capacity image_base span dynamic options at image fits le max relative no_symbol
      above below =
    let target = (rela_at image at).offset - image_base in
    let value = add64 options.load_bias (rela_at image at).addend in
    (
      stored image target value,
      bind-done _ _ (view-done capacity rela_size rela_at at image fits) (
          bind-done _ _
            (in_image-done (rela_at image at).offset 8 image_base span invalid_dynamic_table image
              above below max)
            (bind-done _ _
              (relocation_value-relative capacity image_base span dynamic options (rela_at image at)
                image relative no_symbol)
              (store64-done capacity target value image (omega arith)))),
      little_endian-eight (stored image target value) target value (omega arith)
          (λ k lt. stored-byte image target value k lt),
      stored-apart image target value,
    )
