-- ===== src/Io/Output.antt =====
-- What `sys_write` (proc/syscall_io.cpp) sends to the console or a file.
use synx.Prelude.{
  ℕ, zero, suc, ◌+◌, ◌-◌, ◌^◌, ◌≤◌, ◌<◌, ◌≡◌, ◌⊎◌, refl, arith, ap, sym, ◌∙◌, Bool, false, List, [],
  ◌∷◌, ◌++◌, Option, none, some, ◌==◌, length, take, add64, Bool-cases, Option-cases, inl, inr,
}
use synx.Elf.{Bytes}
use synx.Fd.{Long, ret, err}
use synx.Usermem.Reference.{user_bytes}
use synx.Usermem.Prefix.{user_bytes-take, user_bytes-length, user_bytes-low, user_bytes-drop}
use synx.Io.{Devices, moved, failed, partial, put_chars}

-- What the system call relies on: what was sent is a list that only grows. A file takes a first part of
-- a block, and says how much; one that fails takes nothing.
pub record OutputLaws {S : Type 0} (devices : Devices S) (output : S → List ℕ) : Type 0 where
  pub put : (c : ℕ) (d : S) → output (devices.put_char c d) ≡ output d ++ (c ∷ [])
  pub taken :
      (file : ℕ) (block : List ℕ) (d : S) (n : ℕ)
      → (devices.file_write file block d).0 ≡ moved n
      → (n ≤ length block) × (output (devices.file_write file block d).1 ≡ output d ++ take n block)
  pub refused :
      (file : ℕ) (block : List ℕ) (d : S) (e : ℕ)
      → (devices.file_write file block d).0 ≡ failed e
      → output (devices.file_write file block d).1 ≡ output d

pub append_assoc : (xs ys zs : List ℕ) → (xs ++ ys) ++ zs ≡ xs ++ (ys ++ zs)
append_assoc [] ys zs = refl
append_assoc (x ∷ xs) ys zs = ap (λ l. x ∷ l) (append_assoc xs ys zs)

pub append-nil : (xs : List ℕ) → xs ++ [] ≡ xs
append-nil [] = refl
append-nil (x ∷ xs) = ap (λ l. x ∷ l) (append-nil xs)

module _ {S : Type 0} (devices : Devices S) (output : S → List ℕ) (cr3 : ℕ) (mem : Bytes) where
  -- A call stops early because a byte of the range may not be read, or at a file.
  abbrev pub Stopped : (console : Bool) (buffer count : ℕ) → Type 0
  Stopped console buffer count = (user_bytes cr3 mem count buffer ≡ none) ⊎ (console ≡ false)

  -- The result and what was sent: the first bytes of the range, as many as the result says.
  pub data Sent (console : Bool) (buffer count : ℕ) (before : List ℕ)
      : Option (Long × S) → Type 0 where
    sent :
        (n : ℕ) (bs : List ℕ) (d : S)
        → n ≤ count
        → user_bytes cr3 mem n buffer ≡ some bs
        → output d ≡ before ++ bs
        → (n ≡ count) ⊎ Stopped console buffer count
        → Sent console buffer count before (some (ret n, d))
    nothing :
        (e : ℕ) (d : S)
        → output d ≡ before
        → Stopped console buffer count
        → Sent console buffer count before (some (err e, d))

  pub output-put_chars :
      (block : List ℕ) (d : S)
      → OutputLaws devices output
      → output (put_chars devices block d) ≡ output d ++ block
  unfolding put_chars
  output-put_chars [] d laws = sym (append-nil (output d))
  output-put_chars (c ∷ block) d laws =
      output-put_chars block (devices.put_char c d) laws
      ∙ ap (λ l. l ++ block) (laws.put c d)
      ∙ append_assoc (output d) (c ∷ []) block

  -- Behind bytes that could be read the address does not wrap.
  pub add64-inside :
      (buffer written : ℕ) (bs : List ℕ)
      → buffer < 2 ^ 64
      → user_bytes cr3 mem written buffer ≡ some bs
      → add64 buffer written ≡ buffer + written
  add64-inside buffer zero bs low h = omega arith
  add64-inside buffer (suc written) bs low h =
      let top = user_bytes-low cr3 mem (suc written) buffer bs (omega arith) h in omega arith

  -- A part that may not be read makes the whole range one that may not be read.
  pub part-none :
      (written amount count buffer : ℕ)
      → written + amount ≤ count
      → user_bytes cr3 mem amount (buffer + written) ≡ none
      → user_bytes cr3 mem count buffer ≡ none
  part-none written amount count buffer inside h =
      elim (Option-cases (user_bytes cr3 mem count buffer)) [
        | inl bad ↦ bad
        | inr (zs, good) ↦
            (let split : written + (count - written) ≡ count = omega arith in
              let (ys, behind) =
                user_bytes-drop cr3 mem written (count - written) buffer (buffer + written) zs refl
                  (ap (λ k. user_bytes cr3 mem k buffer) split ∙ good) in
              let part =
                user_bytes-take cr3 mem (count - written) amount (buffer + written) ys (omega arith)
                  behind in
              absurd (cc))
      ]

  -- The result of a call that stops with an error.
  pub partial-Sent :
      (console : Bool) (buffer count written e : ℕ) (before bs : List ℕ) (d : S)
      → written ≤ count
      → user_bytes cr3 mem written buffer ≡ some bs
      → output d ≡ before ++ bs
      → Stopped console buffer count
      → Sent console buffer count before (some (partial written e, d))
  partial-Sent console buffer count written e before bs d low h out stop =
      elim (Bool-cases (written == 0)) [
        | inl first ↦ rw first (
            nothing e d
              (out
                ∙ ap (λ l. before ++ l) (nil_read written bs (ground (arith, first)) h)
                ∙ append-nil before)
              stop)
        | inr later ↦ rw later (sent written bs d low h out (inr stop))
      ]
    where
      nil_read : (k : ℕ) (l : List ℕ) → k ≡ 0 → user_bytes cr3 mem k buffer ≡ some l → l ≡ []
      nil_read k [] e h = refl
      nil_read k (x ∷ l) e h =
          let long = user_bytes-length cr3 mem k buffer (x ∷ l) h in absurd (omega arith)
