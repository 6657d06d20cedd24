-- ===== src/Usermem/Place.antt =====
-- Where a byte of the user stands in physical memory: the rules of the page tables written out, and
-- `translate_user` (proc/syscall_user.cpp), which follows them.
use synx.Prelude.{
  ℕ, ◌+◌, ◌/◌, ◌%◌, ◌^◌, ◌≡◌, refl, arith, ap, ◌∙◌, Bool, true, false, not, ◌&&◌, ◌||◌, List, [],
  ◌∷◌, Option, none, some, ◌==◌, ltb, leb, if◌then◌else◌, bit_and, Bool-cases, inl, inr,
}
use synx.Elf.{Bytes}
use synx.Pmm.{page_size}
use synx.Exec.{user_top}
use synx.Usermem.{
  page_address_mask, pte_present, pte_writable, pte_user, entry_at, walk, translate_user,
}

-- The frame that an entry leads to.
abbrev pub frame : (entry : ℕ) → ℕ
frame entry = bit_and entry page_address_mask

-- The entry is there, and for the user.
unfoldable pub for_user : (entry : ℕ) → Bool
for_user entry = not (bit_and entry pte_present == 0) && not (bit_and entry pte_user == 0)

unfoldable pub writable : (entry : ℕ) → Bool
writable entry = not (bit_and entry pte_writable == 0)

-- The physical address of a byte of the user: all four levels are for the user, and the last one is
-- writable where the byte is to be written.
unfoldable pub user_place : (cr3 : ℕ) → Bytes → (a : ℕ) (write_access : Bool) → Option ℕ
user_place cr3 mem a write_access =
    let e4 = entry_at mem (frame cr3) ((a / 2 ^ 39) % 512) in
    let e3 = entry_at mem (frame e4) ((a / 2 ^ 30) % 512) in
    let e2 = entry_at mem (frame e3) ((a / 2 ^ 21) % 512) in
    let e1 = entry_at mem (frame e2) ((a / 2 ^ 12) % 512) in
    if ltb a user_top
      && for_user e4
      && for_user e3
      && for_user e2
      && for_user e1
      && (not write_access || writable e1)
    then some (frame e1 + a % page_size)
    else none

module _ {ℓ} {A : Type ℓ} where
  guards :
      (p u : Bool) (x : Option A)
      → (if p || u then none else x) ≡ (if not p && not u then x else none)
  guards true true x = refl
  guards true false x = refl
  guards false true x = refl
  guards false false x = refl

  both :
      (a b : Bool) (x : Option A)
      → (if a then (if b then x else none) else none) ≡ (if a && b then x else none)
  both true b x = refl
  both false b x = refl

  last_guard :
      (w v : Bool) (x : Option A)
      → (if w && v then none else x) ≡ (if not w || not v then x else none)
  last_guard true true x = refl
  last_guard true false x = refl
  last_guard false v x = refl

walk-more :
    (mem : Bytes) (w : Bool) (i j : ℕ) (later : List ℕ) (table : ℕ)
    → walk mem w (i ∷ j ∷ later) table ≡ (
        if for_user (entry_at mem table i)
        then walk mem w (j ∷ later) (frame (entry_at mem table i))
        else none)
unfolding walk for_user
walk-more mem w i j later table =
    guards (bit_and (entry_at mem table i) pte_present == 0)
      (bit_and (entry_at mem table i) pte_user == 0) _

walk-last :
    (mem : Bytes) (w : Bool) (i table : ℕ)
    → walk mem w (i ∷ []) table ≡ (
        if for_user (entry_at mem table i)
        then (if not w || writable (entry_at mem table i)
            then some (frame (entry_at mem table i))
            else none)
        else none)
unfolding walk for_user writable
walk-last mem w i table =
    guards (bit_and (entry_at mem table i) pte_present == 0)
      (bit_and (entry_at mem table i) pte_user == 0) _
    ∙ ap (λ x. if for_user (entry_at mem table i) then x else none)
        (last_guard w (bit_and (entry_at mem table i) pte_writable == 0)
          (some (frame (entry_at mem table i))))

-- Nested tests of five levels in one.
flat :
    (g a b c d e : Bool) (x : ℕ) (rest : ℕ)
    → (if g
        then none
        else (elim (if a
              then (if b
                  then (if c then (if d then (if e then some x else none) else none) else none)
                  else none)
              else none)
            as (λ x. Option ℕ) [ none ↦ none | some page ↦ some (page + rest) ]))
      ≡ (if not g && a && b && c && d && e then some (x + rest) else none)
flat true a b c d e x rest = refl
flat false false b c d e x rest = refl
flat false true false c d e x rest = refl
flat false true true false d e x rest = refl
flat false true true true false e x rest = refl
flat false true true true true false x rest = refl
flat false true true true true true x rest = refl

below : (a : ℕ) → not (leb user_top a) ≡ ltb a user_top
below a = elim (Bool-cases (leb user_top a)) [
  | inl out ↦ (let n : ltb a user_top ≡ false = ground (arith, out) in rw (out, n) refl)
  | inr inside ↦ (let n : ltb a user_top ≡ true = ground (arith, inside) in rw (inside, n) refl)
]

pub translate_user-user_place :
    (cr3 : ℕ) (mem : Bytes) (a : ℕ) (w : Bool) → translate_user cr3 mem a w ≡ user_place cr3 mem a w
unfolding translate_user user_place
translate_user-user_place cr3 mem a w =
    let i4 = (a / 2 ^ 39) % 512 in
    let i3 = (a / 2 ^ 30) % 512 in
    let i2 = (a / 2 ^ 21) % 512 in
    let i1 = (a / 2 ^ 12) % 512 in
    let e4 = entry_at mem (frame cr3) i4 in
    let e3 = entry_at mem (frame e4) i3 in
    let e2 = entry_at mem (frame e3) i2 in
    let e1 = entry_at mem (frame e2) i1 in
    let walked =
      walk-more mem w i4 i3 (i2 ∷ i1 ∷ []) (frame cr3)
      ∙ ap (λ x. if for_user e4 then x else none)
          (walk-more mem w i3 i2 (i1 ∷ []) (frame e4)
            ∙ ap (λ x. if for_user e3 then x else none)
                (walk-more mem w i2 i1 [] (frame e3)
                  ∙ ap (λ x. if for_user e2 then x else none) (walk-last mem w i1 (frame e2)))) in
    ap
      (λ x.
        if leb user_top a
        then none
        else (elim x as (λ x. Option ℕ) [ none ↦ none | some page ↦ some (page + a % page_size) ]))
      walked
    ∙ flat (leb user_top a) (for_user e4) (for_user e3) (for_user e2) (for_user e1)
        (not w || writable e1) (frame e1) (a % page_size)
    ∙ ap
        (λ g.
          if g && for_user e4 && for_user e3 && for_user e2 && for_user e1 && (not w || writable e1)
          then some (frame e1 + a % page_size)
          else none)
        (below a)
