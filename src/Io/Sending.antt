-- ===== src/Io/Sending.antt =====
-- The loop of `sys_write` (proc/syscall_io.cpp).
use synx.Prelude.{
  ℕ, zero, suc, ◌+◌, ◌-◌, ◌^◌, ◌≤◌, ◌<◌, ◌≡◌, refl, arith, ap, ◌∙◌, Bool, true, false, List, ◌++◌,
  Option, some, ◌==◌, ltb, leb, length, take, add64, Bool-cases, Option-cases, inl, inr,
}
use synx.Elf.{Bytes}
use synx.Fd.{Long, ret}
use synx.Usermem.{copy_from_user}
use synx.Usermem.Reference.{user_bytes, copy_from_user-user_bytes}
use synx.Usermem.Prefix.{user_bytes-append, user_bytes-take, user_bytes-length}
use synx.Usermem.Path.{efault}
use synx.Io.{Devices, Moved, moved, failed, partial, round_amount, put_chars, write_out}
use synx.Io.Output.{
  OutputLaws, Sent, sent, append_assoc, append-nil, output-put_chars, add64-inside, part-none,
  partial-Sent,
}

round_amount-bounds : (left : ℕ) → 1 ≤ left → (1 ≤ round_amount left) × (round_amount left ≤ left)
round_amount-bounds left some_left = (ground arith, ground arith)

module _ {S : Type 0} (devices : Devices S) (output : S → List ℕ) (cr3 : ℕ) (mem : Bytes) where
  -- The rest of the loop, when more bytes have been sent.
  abbrev Next :
      (fuel : ℕ) (console : Bool) (file buffer count written : ℕ) (before : List ℕ) → Type 0
  Next fuel console file buffer count written before =
      (n : ℕ) (d1 : S) (bs1 : List ℕ)
      → count < written + n + fuel
      → written + n ≤ count
      → user_bytes cr3 mem (written + n) buffer ≡ some bs1
      → output d1 ≡ before ++ bs1
      → Sent devices output cr3 mem console buffer count before
          (write_out devices cr3 fuel console file buffer count (written + n) mem d1)

  -- What the loop makes of the answer of a file.
  abbrev answered : (fuel file buffer count written amount : ℕ) → S → Moved ℕ → Option (Long × S)
  answered fuel file buffer count written amount d' (failed e) = some (partial written e, d')
  answered fuel file buffer count written amount d' (moved n) =
      elim (n == 0) as (λ b. Option (Long × S)) [
        | true ↦ some (ret written, d')
        | false ↦ (elim (ltb n amount) as (λ b. Option (Long × S)) [
          | true ↦ some (ret (written + n), d')
          | false ↦ write_out devices cr3 fuel false file buffer count (written + n) mem d'
        ])
      ]

  module _ (fuel file buffer count written amount : ℕ) (d : S) (before bs block : List ℕ)
      (laws : OutputLaws devices output) (enough : count < written + suc fuel)
      (inside : written + amount ≤ count) (h : user_bytes cr3 mem written buffer ≡ some bs)
      (good : user_bytes cr3 mem amount (buffer + written) ≡ some block)
      (out : output d ≡ before ++ bs) where
    answered-Sent :
        (answer : Moved ℕ)
        → (devices.file_write file block d).0 ≡ answer
        → Next fuel false file buffer count written before
        → Sent devices output cr3 mem false buffer count before (
            answered fuel file buffer count written amount
              (devices.file_write file block d).1
              answer)
    answered-Sent (failed e) is next =
        partial-Sent devices output cr3 mem false buffer count written e before bs
          (devices.file_write file block d).1 (omega arith) h (laws.refused file block d e is ∙ out)
          (inr refl)
    answered-Sent (moved n) is next =
        let (fits, grown) = laws.taken file block d n is in
        let long = user_bytes-length cr3 mem amount (buffer + written) block good in
        let total : output (devices.file_write file block d).1 ≡ before ++ (bs ++ take n block) =
          grown ∙ ap (λ l. l ++ take n block) out ∙ append_assoc before bs (take n block) in
        let bytes =
          user_bytes-append cr3 mem written n buffer (buffer + written) bs (take n block) refl h
            (user_bytes-take cr3 mem amount n (buffer + written) block (omega arith) good) in
        elim (Bool-cases (n == 0)) [
          | inl zero_taken ↦
              (let e : n ≡ 0 = ground (arith, zero_taken) in
                rw (answered, zero_taken)
                  (sent written bs (devices.file_write file block d).1 (omega arith) h
                    (total
                      ∙ ap (λ k. before ++ (bs ++ take k block)) e
                      ∙ ap (λ l. before ++ l) (append-nil bs))
                    (inr (inr refl))))
          | inr some_taken ↦ (elim (Bool-cases (ltb n amount)) [
            | inl less ↦
                rw (answered, some_taken, less)
                  (sent (written + n) (bs ++ take n block) (devices.file_write file block d).1
                    (omega arith) bytes total (inr (inr refl)))
            | inr all ↦
                rw (answered, some_taken, all)
                  (next n (devices.file_write file block d).1 (bs ++ take n block)
                    (ground (arith, some_taken)) (omega arith) bytes total)
          ])
        ]

  -- The part of a round behind the copy to `block`, in which a file has taken a part of it.
  pub write_out-Sent :
      (fuel : ℕ) (console : Bool) (file buffer count written : ℕ) (d : S) (before bs : List ℕ)
      → OutputLaws devices output
      → buffer < 2 ^ 64
      → count < written + fuel
      → written ≤ count
      → user_bytes cr3 mem written buffer ≡ some bs
      → output d ≡ before ++ bs
      → Sent devices output cr3 mem console buffer count before
          (write_out devices cr3 fuel console file buffer count written mem d)
  unfolding write_out
  write_out-Sent zero console file buffer count written d before bs laws low enough under h out =
      absurd (omega arith)
  write_out-Sent (suc fuel) console file buffer count written d before bs laws low enough under h
        out =
      elim (Bool-cases (leb count written)) [
        | inl over ↦
            rw (write_out, over) (sent written bs d under h out (inl (ground (arith, over))))
        | inr more ↦
            (let amount = round_amount (count - written) in
              let (some_amount, inside) =
                round_amount-bounds (count - written) (ground (arith, more)) in
              let copied : copy_from_user cr3 mem (add64 buffer written) amount
                  ≡ user_bytes cr3 mem amount (buffer + written) =
                copy_from_user-user_bytes cr3 mem (add64 buffer written) amount
                ∙ ap (user_bytes cr3 mem amount)
                    (add64-inside devices output cr3 mem buffer written bs low h) in
              elim (Option-cases (user_bytes cr3 mem amount (buffer + written))) [
                | inl bad ↦
                    rw (write_out, more, copied ∙ bad)
                      (partial-Sent devices output cr3 mem console buffer count written efault
                        before bs d under h out
                        (inl (
                          part-none devices output cr3 mem written amount count buffer (omega arith)
                            bad)))
                | inr (block, good) ↦
                    (let long = user_bytes-length cr3 mem amount (buffer + written) block good in
                      rw (write_out, more, copied ∙ good)
                        (round console amount block some_amount (omega arith) long good
                          (λ n d1 bs1 n_enough n_under h1 out1.
                            write_out-Sent fuel console file buffer count (written + n) d1 before
                              bs1 laws low n_enough n_under h1 out1)))
              ])
      ]
    where
      round :
          (console : Bool) (amount : ℕ) (block : List ℕ)
          → 1 ≤ amount
          → written + amount ≤ count
          → length block ≡ amount
          → user_bytes cr3 mem amount (buffer + written) ≡ some block
          → Next fuel console file buffer count written before
          → Sent devices output cr3 mem console buffer count before
              (elim console as (λ c. Option (Long × S)) [
                | true ↦
                    write_out devices cr3 fuel true file buffer count
                      (written + amount)
                      mem
                      (put_chars devices block d)
                | false ↦
                    answered fuel file buffer count written amount
                      (devices.file_write file block d).1
                      (devices.file_write file block d).0
              ])
      round true amount block some_amount inside long good next =
          next amount (put_chars devices block d) (bs ++ block) (omega arith) inside
            (user_bytes-append cr3 mem written amount buffer (buffer + written) bs block refl h
              good)
            (output-put_chars devices output cr3 mem block d laws
              ∙ ap (λ l. l ++ block) out
              ∙ append_assoc before bs block)
      round false amount block some_amount inside long good next =
          answered-Sent fuel file buffer count written amount d before bs block laws enough inside h
            good out (devices.file_write file block d).0 refl next
