-- ===== src/Keyboard/Translate.antt =====
-- The characters that `translate` of src/ps2_keyboard.cpp gives.
use synx.Prelude.{
  ℕ, ◌≤◌, ◌≡◌, refl, arith, Bool, true, false, ◌&&◌, ◌||◌, leb, ltb, if◌then◌else◌, ◌==◌,
  every_below, every_below_sound, Bool-cases, inl, inr,
}
use synx.Keyboard.{translate}

-- No character, backspace, tab, newline, or a printable ASCII character.
abbrev pub is_typed : ℕ → Bool
is_typed c = c == 0 || c == 8 || c == 9 || c == 10 || (leb 32 c && leb c 126)

abbrev fits : Bool → Bool → ℕ → Bool
fits shift caps sc =
    is_typed (translate sc shift caps)
    && (if translate sc false false == 0
        then translate sc shift caps == 0
        else ltb 0 (translate sc shift caps))

fits_table : (shift caps : Bool) → every_below 128 (fits shift caps) ≡ true
unfolding every_below translate
fits_table true true = refl
fits_table true false = refl
fits_table false true = refl
fits_table false false = refl

translate_out : (sc : ℕ) (shift caps : Bool) → 128 ≤ sc → translate sc shift caps ≡ 0
unfolding translate
translate_out sc shift caps h = ground arith

-- Whatever byte the keyboard sends, `translate` gives no character, a backspace, tab or newline, or
-- a printable ASCII character; and whether it gives one depends neither on shift nor on caps lock.
pub translate-is_typed :
    (sc : ℕ) (shift caps : Bool)
    → (is_typed (translate sc shift caps) ≡ true)
      × ((translate sc shift caps == 0) ≡ (translate sc false false == 0))
translate-is_typed sc shift caps = elim (Bool-cases (ltb sc 128)) [
  | inl inside ↦
      let t = every_below_sound 128 (fits shift caps) sc (fits_table shift caps) (ground arith) in
      ground (arith, t)
  | inr outside ↦
      rw (translate_out sc shift caps (ground arith), translate_out sc false false (ground arith))
        (refl, refl)
]
