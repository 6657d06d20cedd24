-- ===== src/Keyboard.antt =====
-- src/ps2_keyboard.cpp, the PS/2 keyboard driver: a decoder of scan code set 2, the translation to
-- characters and a ring of 64 key events. The port handshake of `init` is not modelled.
pub mod Ring
pub mod Decode
pub mod Translate
mod Tests
use synx.Prelude.{
  ℕ, zero, suc, ◌+◌, ◌-◌, ◌%◌, bit_and, bit_or, Bool, true, false, not, xor, ◌&&◌, ◌||◌, List, [],
  ◌∷◌, Option, none, some, ltb, leb, ◌==◌, if◌then◌else◌, get_or, get_elem?, set,
}

pub data DecoderState : Type 0 where
  normal got_e0 got_f0 got_e0_f0 : DecoderState

-- `KeyEvent`
pub record KeyEvent : Type 0 where
  pub scancode : ℕ
  pub ascii : ℕ
  pub pressed : Bool
  pub shift : Bool
  pub ctrl : Bool
  pub alt : Bool
  pub caps_lock : Bool

-- The static variables of the file.
pub record Keyboard : Type 0 where
  pub shift : Bool
  pub ctrl : Bool
  pub alt : Bool
  pub caps_lock : Bool
  pub key_buf : List KeyEvent
  pub head : ℕ
  pub tail : ℕ
  pub state : DecoderState

abbrev pub key_buf_size : ℕ
key_buf_size = 64

-- `sc2_ascii`
abbrev pub sc2_ascii : List ℕ
sc2_ascii =
    0 ∷ 0 ∷ 0 ∷ 0 ∷ 0 ∷ 0 ∷ 0 ∷ 0 ∷ 0 ∷ 0 ∷ 0 ∷ 0 ∷ 0 ∷ 9 ∷ b'`' ∷ 0 ∷ 0 ∷ 0 ∷ 0 ∷ 0 ∷ 0 ∷ b'q'
    ∷ b'1' ∷ 0 ∷ 0 ∷ 0 ∷ b'z' ∷ b's' ∷ b'a' ∷ b'w' ∷ b'2' ∷ 0 ∷ 0 ∷ b'c' ∷ b'x' ∷ b'd' ∷ b'e' ∷ b'4'
    ∷ b'3' ∷ 0 ∷ 0 ∷ b' ' ∷ b'v' ∷ b'f' ∷ b't' ∷ b'r' ∷ b'5' ∷ 0 ∷ 0 ∷ b'n' ∷ b'b' ∷ b'h' ∷ b'g'
    ∷ b'y' ∷ b'6' ∷ 0 ∷ 0 ∷ 0 ∷ b'm' ∷ b'j' ∷ b'u' ∷ b'7' ∷ b'8' ∷ 0 ∷ 0 ∷ b',' ∷ b'k' ∷ b'i' ∷ b'o'
    ∷ b'0' ∷ b'9' ∷ 0 ∷ 0 ∷ b'.' ∷ b'/' ∷ b'l' ∷ b';' ∷ b'p' ∷ b'-' ∷ 0 ∷ 0 ∷ 0 ∷ 39 ∷ 0 ∷ b'['
    ∷ b'=' ∷ 0 ∷ 0 ∷ 0 ∷ 0 ∷ 10 ∷ b']' ∷ 0 ∷ 92 ∷ 0 ∷ 0 ∷ 0 ∷ 0 ∷ 0 ∷ 0 ∷ 0 ∷ 0 ∷ 8 ∷ 0 ∷ 0 ∷ 0 ∷ 0
    ∷ 0 ∷ 0 ∷ 0 ∷ 0 ∷ 0 ∷ b'0' ∷ b'.' ∷ b'2' ∷ b'5' ∷ b'6' ∷ b'8' ∷ 0 ∷ 0 ∷ 0 ∷ b'+' ∷ b'3' ∷ b'-'
    ∷ b'*' ∷ b'9' ∷ 0 ∷ 0 ∷ []

-- The `switch` of `translate`: the shifted character of each key that is no letter.
abbrev pub shifted_keys : List (ℕ × ℕ)
shifted_keys =
    (b'1', b'!')
    ∷ (b'2', b'@')
    ∷ (b'3', b'#')
    ∷ (b'4', b'$')
    ∷ (b'5', b'%')
    ∷ (b'6', b'^')
    ∷ (b'7', b'&')
    ∷ (b'8', b'*')
    ∷ (b'9', b'(')
    ∷ (b'0', b')')
    ∷ (b'-', b'_')
    ∷ (b'=', b'+')
    ∷ (b'[', 123)
    ∷ (b']', 125)
    ∷ (92, b'|')
    ∷ (b';', b':')
    ∷ (39, 34)
    ∷ (b',', b'<')
    ∷ (b'.', b'>')
    ∷ (b'/', b'?')
    ∷ (b'`', b'~')
    ∷ []

-- The first case of a `switch` that fits, `d` if none does.
pub switch : ℕ → List (ℕ × ℕ) → ℕ → ℕ
switch c [] d = d
switch c ((k, v) ∷ rest) d = if c == k then v else switch c rest d

pub translate : ℕ → Bool → Bool → ℕ
unfolding switch xor
translate scancode shift caps =
    if leb 128 scancode
    then 0
    else (let c = get_or sc2_ascii scancode 0 in
        if c == 0
        then 0
        else if leb b'a' c && leb c b'z'
        then (if xor shift caps then c - 32 else c)
        else if shift
        then switch c shifted_keys c
        else c)

pub push_event : Keyboard → KeyEvent → Keyboard
push_event k ev =
    let next = (k.head + 1) % key_buf_size in
    if next == k.tail then k else record k { key_buf = set k.key_buf k.head ev; head = next }

-- `none` is the `false` of `poll`; the read of the buffer is `none` out of range.
pub poll : Keyboard → Option KeyEvent × Keyboard
poll k =
    if k.head == k.tail
    then (none, k)
    else (get_elem? k.key_buf k.tail, record k { tail = (k.tail + 1) % key_buf_size })

-- The two switches of `decode_and_push` on the base code.
pub modifiers : Keyboard → (base_sc : ℕ) → (is_extended pressed : Bool) → Keyboard
modifiers k base_sc false pressed =
    if base_sc == 0x12
    then record k { shift = pressed }
    else if base_sc == 0x59
    then record k { shift = pressed }
    else if base_sc == 0x14
    then record k { ctrl = pressed }
    else if base_sc == 0x11
    then record k { alt = pressed }
    else if base_sc == 0x58 && pressed
    then record k { caps_lock = not k.caps_lock }
    else k
modifiers k base_sc true pressed =
    if base_sc == 0x11
    then record k { alt = pressed }
    else if base_sc == 0x14
    then record k { ctrl = pressed }
    else k

-- The part of `decode_and_push` behind its first switch.
pub event_of : Keyboard → (scancode : ℕ) → (pressed : Bool) → KeyEvent
event_of k scancode pressed = record {
  scancode = scancode;
  ascii = if pressed then translate (bit_and scancode 0xff) k.shift k.caps_lock else 0;
  pressed = pressed;
  shift = k.shift;
  ctrl = k.ctrl;
  alt = k.alt;
  caps_lock = k.caps_lock;
}

pub emit : Keyboard → (scancode : ℕ) → (pressed : Bool) → Keyboard
emit k scancode pressed =
    let k' = modifiers k (bit_and scancode 0xff) (not (bit_and scancode 0xe000 == 0)) pressed in
    push_event k' (event_of k' scancode pressed)

decode_in : DecoderState → Keyboard → ℕ → Keyboard
decode_in normal k raw =
    if raw == 0xe0
    then record k { state = got_e0 }
    else if raw == 0xf0
    then record k { state = got_f0 }
    else emit k raw true
decode_in got_e0 k raw =
    if raw == 0xf0
    then record k { state = got_e0_f0 }
    else emit (record k { state = normal }) (bit_or 0xe000 raw) true
decode_in got_f0 k raw = emit (record k { state = normal }) raw false
decode_in got_e0_f0 k raw = emit (record k { state = normal }) (bit_or 0xe000 raw) false

pub decode_and_push : Keyboard → ℕ → Keyboard
unfolding decode_in
decode_and_push k raw = decode_in k.state k raw
