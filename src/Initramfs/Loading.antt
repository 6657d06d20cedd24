-- ===== src/Initramfs/Loading.antt =====
-- `initramfs_load` (fs/initramfs.cpp) ends, and what its calls keep holds at the end.
use synx.Prelude.{
  ℕ, zero, suc, ◌+◌, ◌^◌, ◌≤◌, ◌<◌, ◌≡◌, refl, arith, true, false, Option, some, none, ltb, leb,
  Bool-cases, inl, inr, add64,
}
use synx.Initramfs.{
  Entry, cpio_header_size, trailer, same_str, normalize_path, c_string, parse_entry,
}
use synx.Initramfs.Bounds.{InBounds, parse_entry-InBounds}
use synx.Initramfs.Keeping.{Keeps, load_entry-Held}
use synx.Initramfs.Load.{Files, Outcome, loaded, failed, load_entry, load_loop, initramfs_load}

-- The loading came to an end, in a state with the property.
pub data Ended {S : Type 0} (fs : Files S) (P : S → Type 0) : Outcome fs → Type 0 where
  at_end : (count : ℕ) (s : S) → P s → Ended fs P (loaded count s)
  at_error : (s : S) → P s → Ended fs P (failed s)

module _ {S : Type 0} (fs : Files S) (size : ℕ) (P : S → Type 0) (keeps : Keeps fs size P)
    (archive : ℕ → ℕ) where
  load_loop-Ended :
      (fuel offset count : ℕ) (s : S)
      → size < 2 ^ 63
      → offset ≤ size
      → size < offset + fuel
      → P s
      → Ended fs P (load_loop fs archive size fuel offset count s)
  unfolding load_loop
  load_loop-Ended zero offset count s small inside enough ps = absurd (omega arith)
  load_loop-Ended (suc fuel) offset count s small inside enough ps =
      elim (Bool-cases (leb (add64 offset cpio_header_size) size)) [
        | inr over ↦ rw (load_loop, over) (at_end count s ps)
        | inl room ↦
            rw (load_loop, room)
              (parsed (parse_entry archive size offset) refl (load_loop-Ended fuel))
      ]
    where
      Later : Type 0
      Later =
          (o c : ℕ) (s1 : S)
          → size < 2 ^ 63
          → o ≤ size
          → size < o + fuel
          → P s1
          → Ended fs P (load_loop fs archive size fuel o c s1)

      added :
          (e : Entry) (r : Option (ℕ × S))
          → InBounds archive size offset e
          → load_entry fs archive size offset e
              (normalize_path (c_string archive e.namesize e.name_offset) 256)
              s
            ≡ r
          → Later
          → Ended fs P (elim r as (λ r. Outcome fs) [
            | none ↦ failed s
            | some (more, s1) ↦ load_loop fs archive size fuel e.next_offset (count + more) s1
          ])
      added e none bounds eq later = at_error s ps
      added e (some (more, s1)) bounds eq later =
          later e.next_offset (count + more) s1 small bounds.next_in_archive
            (let a = bounds.name_after_header in
              let b = bounds.data_after_name in let c = bounds.next_after_data in omega arith)
            (load_entry-Held fs size P keeps archive offset e _ s (more, s1)
              (let c = bounds.next_after_data in let d = bounds.next_in_archive in omega arith) ps
              eq).held

      parsed :
          (o : Option Entry)
          → parse_entry archive size offset ≡ o
          → Later
          → Ended fs P (elim o as (λ o. Outcome fs) [
            | none ↦ failed s
            | some e ↦
                let name = c_string archive e.namesize e.name_offset in
                elim (same_str name trailer) [
                  | true ↦ loaded count s
                  | false ↦ elim (load_entry fs archive size offset e (normalize_path name 256) s) [
                    | none ↦ failed s
                    | some (more, s1) ↦
                        load_loop fs archive size fuel e.next_offset (count + more) s1
                  ]
                ]
          ])
      parsed none eq later = at_error s ps
      parsed (some e) eq later =
          elim (Bool-cases (same_str (c_string archive e.namesize e.name_offset) trailer)) [
            | inl last ↦ rw last (at_end count s ps)
            | inr other ↦ rw other (
                added e
                  (load_entry fs archive size offset e
                    (normalize_path (c_string archive e.namesize e.name_offset) 256) s)
                  (parse_entry-InBounds archive size offset e small inside eq) refl later)
          ]

  -- On any bytes, `initramfs_load` comes to an end within as many rounds as the archive has bytes, and
  -- one more. A property of the file system that every operation keeps, the making of a file only
  -- where its data lie in the archive, and that holds before, holds after it too, whether it
  -- gives a count or -1. The size of the archive is below 2 ^ 63.
  pub initramfs_load-Ended :
      (s : S) → size < 2 ^ 63 → P s → Ended fs P (initramfs_load fs archive size (size + 1) s)
  unfolding initramfs_load
  initramfs_load-Ended s small ps = elim (Bool-cases (ltb size cpio_header_size)) [
    | inl short ↦ rw short (at_error s ps)
    | inr long ↦ rw long (load_loop-Ended (size + 1) 0 0 s small (omega arith) (omega arith) ps)
  ]
