-- ===== src/Keyboard/Ring.antt =====
-- The ring of key events of src/ps2_keyboard.cpp is a queue of at most 63 events.
use native.Mathlib.Decide.{ℕ_discrete}
use synx.Prelude.{
  ℕ, suc, ◌+◌, ◌-◌, ◌%◌, ◌<◌, ◌≡◌, refl, arith, Bool-cases, inl, inr, true, false, List, [], ◌∷◌,
  ◌++◌, Option, none, some, ltb, if◌then◌else◌, ◌==◌, ==_iff, length, get_elem?, set, length-set,
  length-append, get_elem?-set_self, get_elem?-set_ne, get_elem?-append_left, get_elem?-append_end,
}
use synx.Keyboard.{Keyboard, KeyEvent, key_buf_size, push_event, poll}

-- The ring holds the events `q`, oldest first.
pub record Holds (k : Keyboard) (q : List KeyEvent) : Type 0 where
  pub head_in : k.head < key_buf_size
  pub tail_in : k.tail < key_buf_size
  pub storage : length k.key_buf ≡ key_buf_size
  pub count : length q ≡ (k.head + key_buf_size - k.tail) % key_buf_size
  pub items :
      (i : ℕ) → i < length q → get_elem? k.key_buf ((k.tail + i) % key_buf_size) ≡ get_elem? q i

-- What a user of the ring does.
pub data Op : Type 0 where
  put : KeyEvent → Op
  get : Op

-- The queue: an event that finds it full is dropped.
unfoldable pub queue_put : List KeyEvent → KeyEvent → List KeyEvent
queue_put q ev = if ltb (length q) 63 then q ++ (ev ∷ []) else q

unfoldable pub run_queue : List KeyEvent → List Op → List (Option KeyEvent)
unfolding queue_put
run_queue q [] = []
run_queue q (put ev ∷ ops) = run_queue (queue_put q ev) ops
run_queue [] (get ∷ ops) = none ∷ run_queue [] ops
run_queue (x ∷ q) (get ∷ ops) = some x ∷ run_queue q ops

unfoldable pub run_ring : Keyboard → List Op → List (Option KeyEvent)
run_ring k [] = []
run_ring k (put ev ∷ ops) = run_ring (push_event k ev) ops
run_ring k (get ∷ ops) = let (out, k') = poll k in out ∷ run_ring k' ops

push_event_full :
    {k : Keyboard} {q : List KeyEvent} (ev : KeyEvent)
    → Holds k q
    → length q ≡ 63
    → push_event k ev ≡ k
unfolding push_event
push_event_full {k} ev h full =
    let t : ((k.head + 1) % key_buf_size == k.tail) ≡ true =
      (==_iff _ k.tail).1 (omega (arith, h.head_in, h.tail_in, h.count)) in
    rw t

push_event_room :
    {k : Keyboard} {q : List KeyEvent} (ev : KeyEvent)
    → Holds k q
    → length q < 63
    → push_event k ev
      ≡ record k { key_buf = set k.key_buf k.head ev; head = (k.head + 1) % key_buf_size }
unfolding push_event
push_event_room {k} ev h room = ground (arith, h.head_in, h.tail_in, h.count)

push_event-Holds :
    {k : Keyboard} {q : List KeyEvent} (ev : KeyEvent)
    → Holds k q
    → Holds (push_event k ev) (queue_put q ev)
unfolding queue_put
push_event-Holds {k} {q} ev h = elim (Bool-cases (ltb (length q) 63)) [
  | inr full ↦ rw (full, push_event_full ev h (ground (arith, h.count))) h
  | inl room ↦
      let room' : length q < 63 = ground arith in
      rw (room, push_event_room ev h room')
        (record {
          head_in = omega arith;
          tail_in = h.tail_in;
          storage = omega (arith, length-set k.key_buf k.head ev, h.storage);
          count = omega (arith, length-append q (ev ∷ []), h.count, h.head_in, h.tail_in);
          items = λ i l. elim (ℕ_discrete i (length q)) [
            | yes e ↦ at_end e room'
            | no ne ↦ before i (omega (arith, length-append q (ev ∷ []))) room'
          ];
        })
]
  where
    at_end :
        {i : ℕ}
        → i ≡ length q
        → length q < 63
        → get_elem? (set k.key_buf k.head ev) ((k.tail + i) % key_buf_size)
          ≡ get_elem? (q ++ (ev ∷ [])) i
    at_end {i} e room =
        let here : (k.tail + length q) % key_buf_size ≡ k.head =
          omega (arith, h.count, h.head_in, h.tail_in) in
        rw (e, here, get_elem?-append_end q ev)
          (get_elem?-set_self k.key_buf k.head ev (omega (arith, h.storage, h.head_in)))

    before :
        (i : ℕ)
        → i < length q
        → length q < 63
        → get_elem? (set k.key_buf k.head ev) ((k.tail + i) % key_buf_size)
          ≡ get_elem? (q ++ (ev ∷ [])) i
    before i l room =
        rw
          (
            get_elem?-set_ne k.key_buf {i = k.head} {j = (k.tail + i) % key_buf_size} ev
                (omega (arith, h.count, h.head_in, h.tail_in)),
            get_elem?-append_left q (ev ∷ []) i l,
          )
          (h.items i l)

poll_empty : {k : Keyboard} → Holds k [] → poll k ≡ (none, k)
unfolding poll
poll_empty {k} h = ground (arith, h.head_in, h.tail_in, h.count)

poll_next :
    {k : Keyboard} {x : KeyEvent} {q : List KeyEvent}
    → Holds k (x ∷ q)
    → (poll k ≡ (some x, record k { tail = (k.tail + 1) % key_buf_size }))
      × Holds (record k { tail = (k.tail + 1) % key_buf_size }) q
unfolding poll
poll_next {k} {x} {q} h =
    let filled : (k.head == k.tail) ≡ false = ground (arith, h.count, h.tail_in) in
    let here : (k.tail + 0) % key_buf_size ≡ k.tail = omega (arith, h.tail_in) in
    let read : get_elem? k.key_buf k.tail ≡ some x = rw here at (h.items 0 (omega arith)) in
    (
      rw (filled, read),
      record {
        head_in = h.head_in;
        tail_in = omega arith;
        storage = h.storage;
        count = omega (arith, h.count, h.head_in, h.tail_in);
        items = λ i l.
            let shift : ((k.tail + 1) % key_buf_size + i) % key_buf_size
                ≡ (k.tail + suc i) % key_buf_size =
              omega arith in
            rw shift (h.items (suc i) (omega arith));
      },
    )

-- No sequence of `push_event` and `poll` tells the ring from the queue of the events that it holds,
-- which keeps at most 63 events and drops an event that finds it full.
pub run_ring-queue :
    (ops : List Op) {k : Keyboard} {q : List KeyEvent}
    → Holds k q
    → run_ring k ops ≡ run_queue q ops
unfolding run_ring run_queue
run_ring-queue [] h = refl
run_ring-queue (put ev ∷ ops) h = run_ring-queue ops (push_event-Holds ev h)
run_ring-queue (get ∷ ops) {q = []} h = rw (poll_empty h) (rw (run_ring-queue ops h))
run_ring-queue (get ∷ ops) {q = x ∷ q} h =
    let n = poll_next h in rw n.0 (rw (run_ring-queue ops n.1))
