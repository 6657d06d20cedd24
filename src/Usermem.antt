-- ===== src/Usermem.antt =====
-- proc/syscall_user.cpp: the copying between kernel and user memory. Physical memory is a function from
-- addresses to bytes; the kernel reaches all of it, so `phys_to_virt` is left out.
pub mod Pages
pub mod Place
pub mod Reading
pub mod Writing
pub mod Path
pub mod Reference
pub mod Prefix
mod Tests
use synx.Prelude.{
  ℕ, zero, suc, ◌+◌, ◌-◌, ◌*◌, ◌/◌, ◌%◌, ◌^◌, Bool, true, false, not, ◌&&◌, ◌||◌, List, [], ◌∷◌,
  ◌++◌, Option, none, some, ◌==◌, ltb, leb, if◌then◌else◌, take, drop, length, bit_and,
}
use synx.Elf.{Bytes, little_endian}
use synx.Pmm.{page_size}
use synx.Exec.{user_top}
use synx.Klibc.{poke}

-- PAGE_ADDRESS
abbrev pub page_address_mask : ℕ
page_address_mask = 0x000F_FFFF_FFFF_F000

abbrev pub pte_present : ℕ
pte_present = 1

abbrev pub pte_writable : ℕ
pte_writable = 2

abbrev pub pte_user : ℕ
pte_user = 4

-- `table->entries[index]`
abbrev pub entry_at : Bytes → (table index : ℕ) → ℕ
entry_at mem table index = little_endian 8 mem (table + 8 * index)

abbrev pub indices : (address : ℕ) → List ℕ
indices address =
    (address / 2 ^ 39) % 512
    ∷ (address / 2 ^ 30) % 512
    ∷ (address / 2 ^ 21) % 512
    ∷ (address / 2 ^ 12) % 512
    ∷ []

-- The loop of `translate_user` over the levels that are left: the physical address of the page.
unfoldable pub walk : Bytes → (write_access : Bool) (left : List ℕ) (table : ℕ) → Option ℕ
walk mem write_access [] table = none
walk mem write_access (i ∷ left) table =
    let entry = entry_at mem table i in
    let next = bit_and entry page_address_mask in
    let deeper = walk mem write_access left next in
    if bit_and entry pte_present == 0 || bit_and entry pte_user == 0 then none else (elim left [
      | [] ↦ if write_access && bit_and entry pte_writable == 0 then none else some next
      | j ∷ later ↦ deeper
    ])

-- The `n` bytes from `at` on.
abbrev pub slice : Bytes → (n at : ℕ) → List ℕ
slice mem zero at = []
slice mem (suc n) at = mem at ∷ slice mem n (at + 1)

-- `memcpy` to `at`.
abbrev pub fill : (block : List ℕ) (at : ℕ) → Bytes → Bytes
fill [] at mem = mem
fill (b ∷ block) at mem = fill block (at + 1) (poke mem at b)

-- What a round copies of `left` bytes: the bytes up to the end of the page.
unfoldable pub chunk : (current left : ℕ) → ℕ
chunk current left =
    if ltb left (page_size - current % page_size) then left else page_size - current % page_size

-- The test before the loop.
unfoldable pub range_ok : (user_address size : ℕ) → Bool
range_ok user_address size = ltb user_address user_top && leb size (user_top - user_address)

module _ (cr3 : ℕ) where
  unfoldable pub translate_user : Bytes → (address : ℕ) (write_access : Bool) → Option ℕ
  translate_user mem address write_access =
      if leb user_top address
      then none
      else (elim (walk mem write_access (indices address) (bit_and cr3 page_address_mask)) [
        | none ↦ none
        | some page ↦ some (page + address % page_size)
      ])

  -- The loop of `copy_user` from user memory. Each round copies a byte at least, so `left` rounds are
  -- enough; none is the result `false`.
  unfoldable pub read_loop : (fuel : ℕ) → Bytes → (current left : ℕ) → Option (List ℕ)
  read_loop fuel mem current zero = some []
  read_loop zero mem current (suc left) = none
  read_loop (suc fuel) mem current (suc left) =
      let n = chunk current (suc left) in
      let rest = read_loop fuel mem (current + n) (suc left - n) in
      elim (translate_user mem current false) [
        | none ↦ none
        | some at ↦ elim rest [ none ↦ none | some later ↦ some (slice mem n at ++ later) ]
      ]

  -- `copy_user(buffer, user_address, size, false)`: what the buffer holds after it.
  unfoldable pub copy_from_user : Bytes → (user_address size : ℕ) → Option (List ℕ)
  copy_from_user mem user_address size =
      if size == 0
      then some []
      else if range_ok user_address size
      then read_loop size mem user_address size
      else none

  -- The loop to user memory; the pages before one that is refused have been written.
  unfoldable pub write_loop : (fuel : ℕ) (block : List ℕ) (current : ℕ) → Bytes → Bool × Bytes
  write_loop fuel [] current mem = (true, mem)
  write_loop zero (b ∷ block) current mem = (false, mem)
  write_loop (suc fuel) (b ∷ block) current mem =
      let n = chunk current (length (b ∷ block)) in
      elim (translate_user mem current true) [
        | none ↦ (false, mem)
        | some at ↦
            write_loop fuel (drop n (b ∷ block)) (current + n) (fill (take n (b ∷ block)) at mem)
      ]

  -- `copy_user(buffer, user_address, size, true)`, the buffer holding `block`.
  unfoldable pub copy_to_user : (block : List ℕ) (user_address : ℕ) → Bytes → Bool × Bytes
  copy_to_user block user_address mem =
      if length block == 0
      then (true, mem)
      else if range_ok user_address (length block)
      then write_loop (length block) block user_address mem
      else (false, mem)
