-- ===== src/Io.antt =====
-- proc/syscall_io.cpp: the system calls that read and write descriptors. The keyboard, the console and
-- the open files are an interface; user memory is read and written by Usermem.
pub mod Output
pub mod Sending
pub mod Write
mod Tests
use synx.Prelude.{
  ℕ, zero, suc, ◌+◌, ◌-◌, ◌*◌, ◌/◌, ◌%◌, ◌^◌, Bool, true, false, not, ◌&&◌, ◌||◌, List, [], ◌∷◌,
  ◌++◌, Option, none, some, ◌==◌, ltb, leb, if◌then◌else◌, length, add64, take, drop,
}
use synx.Elf.{Bytes}
use synx.Exec.{user_top}
use synx.Keyboard.{KeyEvent}
use synx.Fd.{Long, ret, err, Table, slot, is_closed, ebadf, einval}
use synx.Usermem.{copy_from_user, copy_to_user}
use synx.Usermem.Path.{efault, number}

abbrev pub max_io_size : ℕ
max_io_size = 1024 * 1024

abbrev pub max_iovec_count : ℕ
max_iovec_count = 1024

-- `sizeof(UserIovec)`
abbrev pub iovec_size : ℕ
iovec_size = 16

-- `sizeof(chunk)`
abbrev pub chunk_size : ℕ
chunk_size = 128

-- What `vfs::read` or `vfs::write` gives: an error code, or what was moved.
pub data Moved (A : Type 0) : Type 0 where
  moved : A → Moved A
  failed : (error : ℕ) → Moved A

-- `idle` is what happens between two calls of `poll` that find no event.
pub record Devices (S : Type 0) : Type 0 where
  pub poll : S → Option KeyEvent × S
  pub idle : S → S
  pub put_char : (character : ℕ) → S → S
  pub file_read : (file amount : ℕ) → S → Moved (List ℕ) × S
  pub file_write : (file : ℕ) (block : List ℕ) → S → Moved ℕ × S

pub record Io (S : Type 0) : Type 0 where
  pub mem : Bytes
  pub dev : S

-- `count ? (long)count : error`
abbrev pub partial : (count error : ℕ) → Long
partial count error = if count == 0 then err error else ret count

-- What a round moves of the bytes that are left.
abbrev pub round_amount : (left : ℕ) → ℕ
round_amount left = if ltb left chunk_size then left else chunk_size

-- The characters of a chunk, sent to the console.
unfoldable pub put_chars : {S : Type 0} → Devices S → List ℕ → S → S
put_chars devices [] d = d
put_chars devices (c ∷ later) d = put_chars devices later (devices.put_char c d)

module _ {S : Type 0} (devices : Devices S) (cr3 : ℕ) where
  -- The loop over the keyboard. It waits for keys, so it has fuel; none is a wait that goes on.
  unfoldable pub key_loop : (fuel buffer count read_count : ℕ) → Io S → Option (Long × Io S)
  key_loop zero buffer count read_count s = none
  key_loop (suc fuel) buffer count read_count s =
      let (polled, d) = devices.poll s.dev in
      if leb count read_count then some (ret read_count, s) else (elim polled [
        | none ↦ key_loop fuel buffer count read_count (record s { dev = devices.idle d })
        | some event ↦
            let (written, m) =
              copy_to_user cr3 (event.ascii ∷ []) (add64 buffer read_count) s.mem in
            let after : Io S = record { mem = m; dev = d } in
            elim (not event.pressed || event.ascii == 0) [
              | true ↦ key_loop fuel buffer count read_count (record s { dev = d })
              | false ↦ (elim written [
                | false ↦ some (partial read_count efault, after)
                | true ↦ (elim (event.ascii == 10) [
                  | true ↦ some (ret (read_count + 1), after)
                  | false ↦ key_loop fuel buffer count (read_count + 1) after
                ])
              ])
            ]
      ])

  -- The loop over a file.
  unfoldable pub file_loop : (fuel file buffer count read_count : ℕ) → Io S → Option (Long × Io S)
  file_loop zero file buffer count read_count s = none
  file_loop (suc fuel) file buffer count read_count s =
      let amount = round_amount (count - read_count) in
      let (result, d) = devices.file_read file amount s.dev in
      if leb count read_count then some (ret read_count, s) else (elim result [
        | failed e ↦ some (partial read_count e, record s { dev = d })
        | moved [] ↦ some (ret read_count, record s { dev = d })
        | moved (b ∷ block) ↦
            let (written, m) = copy_to_user cr3 (b ∷ block) (add64 buffer read_count) s.mem in
            let after : Io S = record { mem = m; dev = d } in
            let now = read_count + length (b ∷ block) in
            elim written [
              | false ↦ some (partial read_count efault, after)
              | true ↦ (elim (ltb (length (b ∷ block)) amount) [
                | true ↦ some (ret now, after)
                | false ↦ file_loop fuel file buffer count now after
              ])
            ]
      ])

  -- `sys_read`; the wait for keys has the fuel. The probe writes a zero byte.
  unfoldable pub sys_read : (fuel : ℕ) → Table → (fd buffer count : ℕ) → Io S → Option (Long × Io S)
  sys_read fuel t fd buffer count s =
      let probe = copy_to_user cr3 (0 ∷ []) buffer s.mem in
      if ltb 2 fd && is_closed t fd
      then some (err ebadf, s)
      else if not (fd == 0) && ltb fd 3
      then some (err ebadf, s)
      else if count == 0
      then some (ret 0, s)
      else if ltb max_io_size count
      then some (err einval, s)
      else if fd == 0
      then (if not probe.0
          then some (err efault, record s { mem = probe.1 })
          else key_loop fuel buffer count 0 (record s { mem = probe.1 }))
      else file_loop (count + 1) (slot t fd) buffer count 0 s

  -- The loop of `sys_write`. A round moves a byte at least, so one more round than bytes is enough.
  unfoldable pub write_out :
      (fuel : ℕ) (console : Bool) (file buffer count written : ℕ) → Bytes → S → Option (Long × S)
  write_out zero console file buffer count written mem d = none
  write_out (suc fuel) console file buffer count written mem d =
      let amount = round_amount (count - written) in
      if leb count written
      then some (ret written, d)
      else (elim (copy_from_user cr3 mem (add64 buffer written) amount) [
        | none ↦ some (partial written efault, d)
        | some block ↦ (elim console [
          | true ↦
              write_out fuel true file buffer count (written + amount) mem
                (put_chars devices block d)
          | false ↦
              (let (result, d') = devices.file_write file block d in
                elim result [
                  | failed e ↦ some (partial written e, d')
                  | moved n ↦ (elim (n == 0) [
                    | true ↦ some (ret written, d')
                    | false ↦ (elim (ltb n amount) [
                      | true ↦ some (ret (written + n), d')
                      | false ↦ write_out fuel false file buffer count (written + n) mem d'
                    ])
                  ])
                ])
        ])
      ])

  unfoldable pub sys_write : Table → (fd buffer count : ℕ) → Bytes → S → Option (Long × S)
  sys_write t fd buffer count mem d =
      if ltb 2 fd && is_closed t fd
      then some (err ebadf, d)
      else if fd == 0
      then some (err ebadf, d)
      else if count == 0
      then some (ret 0, d)
      else if ltb max_io_size count
      then some (err einval, d)
      else write_out (count + 1) (fd == 1 || fd == 2) (slot t fd) buffer count 0 mem d

  -- One element of a vector: `sys_write` or `sys_read`.
  abbrev pub transfer :
      (fuel : ℕ) → Table → (write_to_file : Bool) (fd base count : ℕ) → Io S → Option (Long × Io S)
  transfer fuel t write_to_file fd base count s = elim write_to_file [
    | false ↦ sys_read fuel t fd base count s
    | true ↦ (elim (sys_write t fd base count s.mem s.dev) [
      | none ↦ none
      | some (r, d) ↦ some (r, record s { dev = d })
    ])
  ]

  -- The loop of `sys_vector_io`, with `left` elements left from `i` on.
  unfoldable pub vector_loop :
      (fuel : ℕ)
      → Table
      → (write_to_file : Bool) (fd user_iov left i total : ℕ) → Io S
      → Option (Long × Io S)
  vector_loop fuel t write_to_file fd user_iov zero i total s = some (ret total, s)
  vector_loop fuel t write_to_file fd user_iov (suc left) i total s =
      let offset = i * iovec_size in
      if ltb (user_top - user_iov) offset || ltb (user_top - user_iov - offset) iovec_size
      then some (partial total efault, s)
      else (elim (copy_from_user cr3 s.mem (user_iov + offset) iovec_size) [
        | none ↦ some (partial total efault, s)
        | some bytes ↦
            let base = number cr3 s.mem (take 8 bytes) in
            let count = number cr3 s.mem (drop 8 bytes) in
            elim (ltb (max_io_size - total) count) [
              | true ↦ some (partial total einval, s)
              | false ↦ (elim (count == 0) [
                | true ↦ vector_loop fuel t write_to_file fd user_iov left (i + 1) total s
                | false ↦ (elim (transfer fuel t write_to_file fd base count s) [
                  | none ↦ none
                  | some (err e, s') ↦ some (partial total e, s')
                  | some (ret n, s') ↦ (elim (ltb n count) [
                    | true ↦ some (ret (total + n), s')
                    | false ↦
                        vector_loop fuel t write_to_file fd user_iov left (i + 1) (total + n) s'
                  ])
                ])
              ])
            ]
      ])

  unfoldable pub sys_vector_io :
      (fuel : ℕ)
      → Table
      → (write_to_file : Bool) (fd user_iov iov_count : ℕ) → Io S
      → Option (Long × Io S)
  sys_vector_io fuel t write_to_file fd user_iov iov_count s =
      let rest = vector_loop fuel t write_to_file fd user_iov iov_count 0 0 s in
      if ltb max_iovec_count iov_count
      then some (err einval, s)
      else if leb user_top user_iov && not (iov_count == 0)
      then some (err efault, s)
      else (elim (transfer fuel t write_to_file fd 0 0 s) [
        | none ↦ none
        | some (err e, s') ↦ some (err e, s')
        | some (ret n, s') ↦ if iov_count == 0 then some (ret 0, s) else rest
      ])
