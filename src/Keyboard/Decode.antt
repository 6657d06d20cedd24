-- ===== src/Keyboard/Decode.antt =====
-- The decoder of src/ps2_keyboard.cpp against the key actions that the scan codes stand for.
use synx.Prelude.{
  ℕ, ◌+◌, ◌<◌, ◌≡◌, ◌≢◌, refl, arith, ◌∙◌, sym, bit_and, bit_or, Bool, true, false, List, [], ◌∷◌,
  ◌++◌, if◌then◌else◌, ◌==◌, ==_iff, every_below, every_below_sound, ap,
}
use synx.Keyboard.{
  DecoderState, normal, got_e0, got_f0, got_e0_f0, Keyboard, KeyEvent, translate, push_event,
  modifiers, event_of, emit, decode_in, decode_and_push,
}

-- A key that went down or up. Set 2 puts 0xE0 before the code of an extended key.
pub record KeyAction : Type 0 where
  pub extended : Bool
  pub code : ℕ
  pub pressed : Bool

-- A code is a byte, and none of the prefixes that the decoder would take it for.
pub record IsCode (a : KeyAction) : Type 0 where
  pub byte : a.code < 256
  pub no_f0 : a.code ≢ 0xf0
  pub no_e0 : a.code ≢ 0xe0

-- The bytes that the keyboard sends.
encode_bytes : (extended pressed : Bool) → ℕ → List ℕ
encode_bytes false true c = c ∷ []
encode_bytes false false c = 0xf0 ∷ c ∷ []
encode_bytes true true c = 0xe0 ∷ c ∷ []
encode_bytes true false c = 0xe0 ∷ 0xf0 ∷ c ∷ []

pub encode : List KeyAction → List ℕ
unfolding encode_bytes
encode [] = []
encode (a ∷ rest) = encode_bytes a.extended a.pressed a.code ++ encode rest

-- What one action does to the driver: it sets the modifiers, then reports an event with them.
pub act : Keyboard → KeyAction → Keyboard
act k a =
    let k' = modifiers k a.code a.extended a.pressed in
    push_event k' (record {
      scancode = if a.extended then 0xe000 + a.code else a.code;
      ascii = if a.pressed then translate a.code k'.shift k'.caps_lock else 0;
      pressed = a.pressed;
      shift = k'.shift;
      ctrl = k'.ctrl;
      alt = k'.alt;
      caps_lock = k'.caps_lock;
    })

pub act_all : Keyboard → List KeyAction → Keyboard
unfolding act
act_all k [] = k
act_all k (a ∷ rest) = act_all (act k a) rest

unfoldable pub decode_all : Keyboard → List ℕ → Keyboard
decode_all k [] = k
decode_all k (b ∷ bytes) = decode_all (decode_and_push k b) bytes

abbrev pub AllCodes : List KeyAction → Type 0
AllCodes [] = Unit {0}
AllCodes (a ∷ rest) = IsCode a × AllCodes rest

-- Facts on the bits of one byte, checked for each of the 256.
abbrev ByteFact : (ℕ → ℕ) → (ℕ → ℕ) → Type 0
ByteFact f g = every_below 256 (λ c. f c == g c) ≡ true

ByteFact-sound : (f g : ℕ → ℕ) (c : ℕ) → ByteFact f g → c < 256 → f c ≡ g c
ByteFact-sound f g c t h = (==_iff (f c) (g c)).0 (every_below_sound 256 (λ c. f c == g c) c t h)

module _ (c : ℕ) (h : c < 256) where
  plain_code : bit_and c 0xff ≡ c
  unfolding every_below
  plain_code = ByteFact-sound (λ c. bit_and c 0xff) (λ c. c) c refl h

  plain_not_extended : bit_and c 0xe000 ≡ 0
  unfolding every_below
  plain_not_extended = ByteFact-sound (λ c. bit_and c 0xe000) (λ c. 0) c refl h

  extended_scancode : bit_or 0xe000 c ≡ 0xe000 + c
  unfolding every_below
  extended_scancode = ByteFact-sound (λ c. bit_or 0xe000 c) (λ c. 0xe000 + c) c refl h

  extended_code : bit_and (0xe000 + c) 0xff ≡ c
  unfolding every_below
  extended_code = ByteFact-sound (λ c. bit_and (0xe000 + c) 0xff) (λ c. c) c refl h

  extended_bits : bit_and (0xe000 + c) 0xe000 ≡ 0xe000
  unfolding every_below
  extended_bits = ByteFact-sound (λ c. bit_and (0xe000 + c) 0xe000) (λ c. 0xe000) c refl h

-- The decoder's state is left alone by the rest of the driver.
state-push_event : (k : Keyboard) (ev : KeyEvent) → (push_event k ev).state ≡ k.state
unfolding push_event
state-push_event k ev = ground arith

state-modifiers :
    (k : Keyboard) (c : ℕ) (extended pressed : Bool)
    → (modifiers k c extended pressed).state ≡ k.state
unfolding modifiers
state-modifiers k c false pressed = ground arith
state-modifiers k c true pressed = ground arith

state-act : (k : Keyboard) (a : KeyAction) → (act k a).state ≡ k.state
unfolding act
state-act k a = state-push_event _ _ ∙ state-modifiers k a.code a.extended a.pressed

emit-plain :
    (k : Keyboard) (c : ℕ) (pressed : Bool)
    → c < 256
    → emit k c pressed ≡ act k (record { extended = false; code = c; pressed = pressed })
unfolding emit act event_of
emit-plain k c pressed h = rw (plain_code c h, plain_not_extended c h)

emit-extended :
    (k : Keyboard) (c : ℕ) (pressed : Bool)
    → c < 256
    → emit k (bit_or 0xe000 c) pressed
      ≡ act k (record { extended = true; code = c; pressed = pressed })
unfolding emit act event_of
emit-extended k c pressed h = rw (extended_scancode c h, extended_code c h, extended_bits c h)

back_to_normal : (k : Keyboard) → k.state ≡ normal → record k { state = normal } ≡ k
back_to_normal k e = λ i. record k { state = sym e i }

decode_normal :
    (k : Keyboard) (b : ℕ) → k.state ≡ normal → decode_and_push k b ≡ decode_in normal k b
unfolding decode_and_push
decode_normal k b e = ap (λ st. decode_in st k b) e

-- The prefixes that the decoder has read so far.
after_f0 :
    (k : Keyboard) (c : ℕ)
    → k.state ≡ normal
    → decode_and_push (record k { state = got_f0 }) c ≡ emit k c false
unfolding decode_and_push decode_in
after_f0 k c e = rw (back_to_normal k e)

after_e0 :
    (k : Keyboard) (c : ℕ)
    → k.state ≡ normal
    → c ≢ 0xf0
    → decode_and_push (record k { state = got_e0 }) c ≡ emit k (bit_or 0xe000 c) true
unfolding decode_and_push decode_in
after_e0 k c e nf = let b : (c == 0xf0) ≡ false = ground arith in rw (b, back_to_normal k e)

after_e0_f0 :
    (k : Keyboard) (c : ℕ)
    → k.state ≡ normal
    → decode_and_push (record k { state = got_e0_f0 }) c ≡ emit k (bit_or 0xe000 c) false
unfolding decode_and_push decode_in
after_e0_f0 k c e = rw (back_to_normal k e)

e0_f0 :
    (k : Keyboard)
    → decode_and_push (record k { state = got_e0 }) 0xf0 ≡ record k { state = got_e0_f0 }
unfolding decode_and_push decode_in
e0_f0 k = refl

module _ (k : Keyboard) (e : k.state ≡ normal) where
  first_f0 : decode_and_push k 0xf0 ≡ record k { state = got_f0 }
  unfolding decode_in
  first_f0 = rw (decode_normal k 0xf0 e)

  first_e0 : decode_and_push k 0xe0 ≡ record k { state = got_e0 }
  unfolding decode_in
  first_e0 = rw (decode_normal k 0xe0 e)

  first_code : (c : ℕ) → c ≢ 0xf0 → c ≢ 0xe0 → decode_and_push k c ≡ emit k c true
  unfolding decode_in
  first_code c nf ne =
      let a : (c == 0xe0) ≡ false = ground arith in
      let b : (c == 0xf0) ≡ false = ground arith in rw (decode_normal k c e, a, b)

  decode_bytes :
      (extended pressed : Bool) (c : ℕ) (rest : List ℕ)
      → c < 256
      → c ≢ 0xf0
      → c ≢ 0xe0
      → decode_all k (encode_bytes extended pressed c ++ rest)
        ≡ decode_all (act k (record { extended = extended; code = c; pressed = pressed })) rest
  unfolding decode_all encode_bytes
  decode_bytes false true c rest h nf ne = rw (first_code c nf ne, emit-plain k c true h)
  decode_bytes false false c rest h nf ne = rw (first_f0, after_f0 k c e, emit-plain k c false h)
  decode_bytes true true c rest h nf ne = rw (first_e0, after_e0 k c e nf, emit-extended k c true h)
  decode_bytes true false c rest h nf ne =
      rw (first_e0, e0_f0 k, after_e0_f0 k c e, emit-extended k c false h)

-- The decoder in its normal state turns the bytes of any sequence of key actions into exactly the
-- events of these actions, in order and with the modifiers of the time, and is back in its normal
-- state behind them. The codes are bytes other than the prefixes 0xE0 and 0xF0.
pub decode_all-encode :
    (actions : List KeyAction) (k : Keyboard)
    → k.state ≡ normal
    → AllCodes actions
    → (decode_all k (encode actions) ≡ act_all k actions) × ((act_all k actions).state ≡ normal)
unfolding encode act_all decode_all
decode_all-encode [] k e ok = (refl, e)
decode_all-encode (a ∷ rest) k e ok =
    let ih = decode_all-encode rest (act k a) (state-act k a ∙ e) ok.1 in
    (
      decode_bytes k e a.extended a.pressed a.code (encode rest) ok.0.byte ok.0.no_f0 ok.0.no_e0
          ∙ ih.0,
      ih.1,
    )

-- From any of its states, a byte other than the prefixes 0xE0 and 0xF0 brings the decoder back to
-- its normal state: a lost or spurious byte disturbs one key at most.
pub decode_and_push-normal :
    (k : Keyboard) (b : ℕ) → b ≢ 0xe0 → b ≢ 0xf0 → (decode_and_push k b).state ≡ normal
unfolding decode_and_push
decode_and_push-normal k b ne nf = by_state k.state refl
  where
    state-emit : (j : Keyboard) (sc : ℕ) (p : Bool) → (emit j sc p).state ≡ j.state
    state-emit j sc p = unfold emit in state-push_event _ _ ∙ state-modifiers j _ _ p

    not_e0 : (b == 0xe0) ≡ false
    not_e0 = ground arith

    not_f0 : (b == 0xf0) ≡ false
    not_f0 = ground arith

    by_state : (st : DecoderState) → k.state ≡ st → (decode_in st k b).state ≡ normal
    by_state normal e = unfold decode_in in rw (not_e0, not_f0) (state-emit k b true ∙ e)
    by_state got_e0 e = unfold decode_in in rw not_f0 (state-emit _ _ true)
    by_state got_f0 e = unfold decode_in in state-emit _ _ false
    by_state got_e0_f0 e = unfold decode_in in state-emit _ _ false
