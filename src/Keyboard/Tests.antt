-- ===== src/Keyboard/Tests.antt =====
-- Runs of the keyboard driver, and its theorems at them.
use synx.Prelude.{ℕ, ◌≡◌, refl, arith, true, false, List, [], ◌∷◌, none, some, replicate}
use synx.Keyboard.{
  normal, KeyEvent, Keyboard, translate, push_event, poll, modifiers, event_of, emit,
  decode_and_push,
}
use synx.Keyboard.Ring.{Holds, Op, put, get, run_queue, run_ring, run_ring-queue}
use synx.Keyboard.Decode.{KeyAction, encode, act_all, decode_all, decode_all-encode}

abbrev no_event : KeyEvent
no_event = record {
  scancode = 0;
  ascii = 0;
  pressed = false;
  shift = false;
  ctrl = false;
  alt = false;
  caps_lock = false;
}

abbrev idle : Keyboard
idle = record {
  shift = false;
  ctrl = false;
  alt = false;
  caps_lock = false;
  key_buf = replicate 64 no_event;
  head = 0;
  tail = 0;
  state = normal;
}

abbrev event : ℕ → ℕ → KeyEvent
event sc c = record no_event { scancode = sc; ascii = c; pressed = true }

idle-Holds : Holds idle []
idle-Holds = record {
  head_in = omega arith;
  tail_in = omega arith;
  storage = refl;
  count = refl;
  items = λ i l. absurd (omega arith);
}

abbrev script : List Op
script = put (event 0x1c b'a') ∷ get ∷ get ∷ put (event 0x32 b'b') ∷ get ∷ []

run_ring-script : run_ring idle script ≡ some (event 0x1c b'a') ∷ none ∷ some (event 0x32 b'b') ∷ []
unfolding run_ring push_event poll
run_ring-script = refl

run_ring-queue_example : run_ring idle script ≡ run_queue [] script
run_ring-queue_example = run_ring-queue script idle-Holds

-- Shift down, the key A down, the extended key up arrow down, the key A up.
abbrev actions : List KeyAction
actions =
    record { extended = false; code = 0x12; pressed = true }
    ∷ record { extended = false; code = 0x1c; pressed = true }
    ∷ record { extended = true; code = 0x75; pressed = true }
    ∷ record { extended = false; code = 0x1c; pressed = false }
    ∷ []

-- The second event is a capital A; the up arrow reports the character of keypad 8 with shift.
typed :
    run_ring (decode_all idle (0x12 ∷ 0x1c ∷ 0xe0 ∷ 0x75 ∷ 0xf0 ∷ 0x1c ∷ [])) (get ∷ get ∷ get ∷ [])
    ≡ some (record (event 0x12 0) { shift = true })
      ∷ some (record (event 0x1c b'A') { shift = true })
      ∷ some (record (event 0xe075 b'*') { shift = true })
      ∷ []
unfolding run_ring push_event poll decode_all decode_and_push emit modifiers event_of translate
typed = refl

decode_all-encode_example :
    (decode_all idle (encode actions) ≡ act_all idle actions)
    × ((act_all idle actions).state ≡ normal)
decode_all-encode_example = decode_all-encode actions idle refl (omega arith)
