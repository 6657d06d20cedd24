-- ===== src/Dynlink/Safe.antt =====
-- The loader of proc/dynlink.cpp as a program that may fault: what a safe part of it is, and that each
-- access and each way to put parts together is safe.
use synx.Prelude.{
  ℕ, zero, suc, ◌&&◌, ◌+◌, ◌-◌, ◌≤◌, ◌≡◌, ◌∙◌, refl, arith, Bool, true, false, Option, none, some,
  leb, if◌then◌else◌, ◌==◌,
}
use synx.Elf.{Bytes, little_endian}
use synx.Dynlink.{
  Step, done, halt, fault, Error, Loader, ◌>>=◌, ◌>>◌, pure, refuse, reject, image_range, in_image,
  view_file, view, store64, clear, copy_in, string_loop, bounded_string,
}

-- The image is as it was from `span` on.
abbrev pub Kept : (span : ℕ) → Bytes → Bytes → Type 0
Kept span image image' = (x : ℕ) → span ≤ x → image' x ≡ image x

-- No fault; whatever else came out, nothing from `span` on changed; a value has the property.
abbrev pub Ensures : {A : Type 0} (span : ℕ) (P : A → Type 0) → Bytes → Step A → Type 0
Ensures span P image (done a image') = P a × Kept span image image'
Ensures span P image (halt e image') = Kept span image image'
Ensures span P image fault = ⊥

pub record Safe {A : Type 0} (span : ℕ) (P : A → Type 0) (l : Loader A) : Type 0 where
  pub run : (image : Bytes) → Ensures span P image (l image)

module _ {A : Type 0} {span : ℕ} {P : A → Type 0} where
  pub pure-Safe : (a : A) → P a → Safe span P (pure a)
  unfolding pure
  pure-Safe a p = record { run = λ image. (p, λ x h. refl) }

  pub refuse-Safe : (e : Error) → Safe span P (refuse e)
  unfolding refuse
  refuse-Safe e = record { run = λ image x h. refl }

  pub if-Safe :
      (test : Bool) {l k : Loader A}
      → (test ≡ true → Safe span P l)
      → (test ≡ false → Safe span P k)
      → Safe span P (if test then l else k)
  if-Safe true p q = p refl
  if-Safe false p q = q refl

  pub weaken-Safe :
      {Q : A → Type 0} {l : Loader A} → ((a : A) → P a → Q a) → Safe span P l → Safe span Q l
  weaken-Safe {Q} {l} weaker s = record { run = λ image. go image (l image) (s.run image) }
    where
      go : (image : Bytes) (r : Step A) → Ensures span P image r → Ensures span Q image r
      go image (done a image') (p, kept) = (weaker a p, kept)
      go image (halt e image') kept = kept
      go image fault h = h

  pub in_span-Safe : {span' : ℕ} {l : Loader A} → span' ≤ span → Safe span' P l → Safe span P l
  in_span-Safe {span'} {l} le s = record { run = λ image. go image (l image) (s.run image) }
    where
      go : (image : Bytes) (r : Step A) → Ensures span' P image r → Ensures span P image r
      go image (done a image') (p, kept) = (p, λ x h. kept x (omega arith))
      go image (halt e image') kept = λ x h. kept x (omega arith)
      go image fault h = h

module _ {A B : Type 0} {span : ℕ} {P : A → Type 0} {Q : B → Type 0} where
  pub bind-Safe :
      {l : Loader A} {k : A → Loader B}
      → Safe span P l
      → ((a : A) → P a → Safe span Q (k a))
      → Safe span Q (l >>= k)
  unfolding ◌>>=◌
  bind-Safe {l} {k} first next = record { run = λ image. go image (l image) (first.run image) }
    where
      after :
          (image image' : Bytes) (r : Step B)
          → Kept span image image'
          → Ensures span Q image' r
          → Ensures span Q image r
      after image image' (done b image'') kept (q, kept') = (q, λ x h. kept' x h ∙ kept x h)
      after image image' (halt e image'') kept kept' = λ x h. kept' x h ∙ kept x h
      after image image' fault kept h = h

      go :
          (image : Bytes) (r : Step A)
          → Ensures span P image r
          → Ensures span Q image (elim r [
            | done a image' ↦ k a image'
            | halt e image' ↦ halt e image'
            | fault ↦ fault
          ])
      go image (done a image') (p, kept) =
          let later = next a p in after image image' (k a image') kept (later.run image')
      go image (halt e image') kept = kept
      go image fault h = h

module _ {B : Type 0} {span : ℕ} {P : Unit {0} → Type 0} {Q : B → Type 0} where
  pub then-Safe :
      {l : Loader (Unit {0})} {k : Loader B}
      → Safe span P l
      → (P tt → Safe span Q k)
      → Safe span Q (l >> k)
  unfolding ◌>>◌
  then-Safe first next = bind-Safe first (λ _ p. next p)

-- A property that holds of every value.
abbrev pub Any : {A : Type 0} → A → Type 0
Any a = Unit {0}

-- What `image_range` promises of an offset.
pub record InRange (address length image_base image_span offset : ℕ) : Type 0 where
  pub from : image_base + offset ≡ address
  pub room : offset + length ≤ image_span

pub image_range-InRange :
    (address length image_base image_span : ℕ) (offset : ℕ)
    → image_range address length image_base image_span ≡ some offset
    → InRange address length image_base image_span offset
unfolding image_range
image_range-InRange address length image_base image_span offset h = ground arith

module _ {span : ℕ} where
  pub reject-Safe : (test : Bool) (e : Error) → Safe span (λ _. test ≡ false) (reject test e)
  unfolding reject
  reject-Safe true e = record { run = λ image x h. refl }
  reject-Safe false e = record { run = λ image. (refl, λ x h. refl) }

  pub in_image-Safe :
      (address length image_base image_span : ℕ) (e : Error)
      → Safe span
          (InRange address length image_base image_span)
          (in_image address length image_base image_span e)
  unfolding in_image
  in_image-Safe address length image_base image_span e = record {
    run = λ image.
        go image (image_range address length image_base image_span)
          (image_range-InRange address length image_base image_span);
  }
    where
      go :
          (image : Bytes) (o : Option ℕ)
          → ((offset : ℕ) → o ≡ some offset → InRange address length image_base image_span offset)
          → Ensures span
              (InRange address length image_base image_span)
              image
              (elim o [ none ↦ halt e image | some offset ↦ done offset image ])
      go image none h = λ x l. refl
      go image (some offset) h = (h offset refl, λ x l. refl)

  pub view_file-Safe :
      {A : Type 0} {P : A → Type 0} (file : Bytes) (file_size n : ℕ) (read : Bytes → ℕ → A) (at : ℕ)
      → at + n ≤ file_size
      → P (read file at)
      → Safe span P (view_file file file_size n read at)
  unfolding view_file
  view_file-Safe file file_size n read at fits p =
      let test : leb (at + n) file_size ≡ true = ground arith in
      record { run = λ image. rw test (p, λ x h. refl) }

  module _ (capacity : ℕ) where
    pub view-Safe :
        {A : Type 0} {P : A → Type 0} (n : ℕ) (read : Bytes → ℕ → A) (at : ℕ)
        → at + n ≤ capacity
        → ((image : Bytes) → P (read image at))
        → Safe span P (view capacity n read at)
    unfolding view
    view-Safe n read at fits p =
        let test : leb (at + n) capacity ≡ true = ground arith in
        record { run = λ image. rw test (p image, λ x h. refl) }

    pub store64-Safe :
        (at value : ℕ) → at + 8 ≤ span → span ≤ capacity → Safe span Any (store64 capacity at value)
    unfolding store64
    store64-Safe at value fits le =
        let test : leb (at + 8) capacity ≡ true = ground arith in
        record { run = λ image. rw test (tt, λ x h. ground arith) }

    pub clear-Safe : (n : ℕ) → n ≤ span → span ≤ capacity → Safe span Any (clear capacity n)
    unfolding clear
    clear-Safe n fits le =
        let test : leb n capacity ≡ true = ground arith in
        record { run = λ image. rw test (tt, λ x h. ground arith) }

    pub copy_in-Safe :
        (file : Bytes) (file_size dest src n : ℕ)
        → src + n ≤ file_size
        → dest + n ≤ span
        → span ≤ capacity
        → Safe span Any (copy_in capacity file file_size dest src n)
    unfolding copy_in
    copy_in-Safe file file_size dest src n fits into le =
        let test : (leb (src + n) file_size && leb (dest + n) capacity) ≡ true = ground arith in
        record { run = λ image. rw test (tt, λ x h. ground arith) }

    pub string_loop-Safe :
        (left at : ℕ) → at + left ≤ capacity → Safe span Any (string_loop capacity left at)
    unfolding string_loop
    string_loop-Safe zero at fits = pure-Safe _ tt
    string_loop-Safe (suc left) at fits =
        bind-Safe {P = Any} (view-Safe 1 (little_endian 1) at (omega arith) (λ image. tt)) (λ c _.
          if-Safe (c == 0) (λ _. pure-Safe _ tt)
            (λ _.
              bind-Safe {P = Any} (string_loop-Safe left (at + 1) (omega arith))
                (λ r _. pure-Safe _ tt)))

    pub bounded_string-Safe :
        (strings size offset : ℕ)
        → strings + size ≤ capacity
        → Safe span Any (bounded_string capacity strings size offset)
    unfolding bounded_string
    bounded_string-Safe strings size offset fits =
        if-Safe (leb size offset) (λ _. pure-Safe _ tt)
          (λ h. string_loop-Safe (size - offset) (strings + offset) (ground arith))
