-- ===== src/Sched/Processors.antt =====
-- `schedule` (proc/sched.cpp) on many processors at once, an access to shared memory at a time: no lock
-- keeps the processors apart.
use mathlib.Core.Path.{subst}
use synx.Prelude.{refl, ℕ, ◌≡◌, List, [], ◌∷◌, ◌==◌, if◌then◌else◌}
use synx.Sched.{Sched, null, ready, running, put, is_ready, is_running, with_state}

-- Where a processor stands in `schedule`, with its variables `current` and `next`.
pub data Place : Type 0 where
  outside : Place
  at_next : (current : ℕ) → Place  -- before `next = current->next`
  at_test : (current next : ℕ) → Place  -- the head of the loop
  at_state : (current next : ℕ) → Place  -- before the test of `next->state`
  at_link : (current next : ℕ) → Place  -- before `next = next->next`
  at_pause : (current next : ℕ) → Place  -- before the test of `current->state`
  at_ready : (current next : ℕ) → Place  -- before `current->state = READY`
  at_run : (current next : ℕ) → Place  -- before `next->state = RUNNING`
  at_set : (current next : ℕ) → Place  -- before `set_current_task(next)`

pub record System (H : Type 0) : Type 0 where
  pub sched : Sched H
  pub place : ℕ → Place

-- What an access comes to: it is done, the processor stops without a task, or it reads through the null
-- pointer.
pub data Moved (H : Type 0) : Type 0 where
  moved : System H → Moved H
  no_task : Moved H
  null_read : Moved H

module _ {H : Type 0} where
  -- A processor goes on to a place.
  abbrev pub go_to : (cpu : ℕ) → Place → Sched H → System H → Moved H
  go_to cpu p s y = moved (record { sched = s; place = put y.place cpu p })

  -- The next access of a processor that stands at the place.
  unfoldable pub access : (cpu : ℕ) → Place → System H → Moved H
  access cpu outside y =
      if y.sched.current_task cpu == null
      then no_task
      else go_to cpu (at_next (y.sched.current_task cpu)) y.sched y
  access cpu (at_next current) y =
      go_to cpu (at_test current (y.sched.tasks current).next) y.sched y
  access cpu (at_test current next) y =
      let candidate = if next == null then y.sched.task_list_head else next in
      go_to cpu (if candidate == current then outside else at_state current candidate) y.sched y
  access cpu (at_state current next) y =
      if next == null
      then null_read
      else go_to cpu
          (if is_ready (y.sched.tasks next).state
            then at_pause current next
            else at_link current next)
          y.sched y
  access cpu (at_link current next) y =
      go_to cpu (at_test current (y.sched.tasks next).next) y.sched y
  access cpu (at_pause current next) y =
      go_to cpu
        (if is_running (y.sched.tasks current).state
          then at_ready current next
          else at_run current next)
        y.sched y
  access cpu (at_ready current next) y =
      go_to cpu (at_run current next)
        (record (y.sched) { tasks = with_state y.sched.tasks current ready }) y
  access cpu (at_run current next) y =
      go_to cpu (at_set current next)
        (record (y.sched) { tasks = with_state y.sched.tasks next running }) y
  access cpu (at_set current next) y =
      go_to cpu outside (record (y.sched) { current_task = put y.sched.current_task cpu next }) y

  unfoldable pub advance : (cpu : ℕ) → System H → Moved H
  advance cpu y = access cpu (y.place cpu) y

  -- The processors in any order, an access of one of them at a time.
  pub data Interleaved (start : System H) : System H → Type 0 where
    begun : Interleaved start start
    then_access :
        (cpu : ℕ) (y z : System H)
        → Interleaved start y
        → advance cpu y ≡ moved z
        → Interleaved start z

  -- The accesses of the processors in the given order.
  unfoldable pub run_order : (cpus : List ℕ) → System H → Moved H
  run_order [] y = moved y
  run_order (cpu ∷ cpus) y = elim (advance cpu y) [
    | moved z ↦ run_order cpus z
    | no_task ↦ no_task
    | null_read ↦ null_read
  ]

  pub run_order-Interleaved :
      (cpus : List ℕ) (start y z : System H)
      → Interleaved start y
      → run_order cpus y ≡ moved z
      → Interleaved start z
  unfolding run_order
  run_order-Interleaved [] start y z before h = subst (Interleaved start) (cc) before
  run_order-Interleaved (cpu ∷ cpus) start y z before h =
      next (λ w e h1. run_order-Interleaved cpus start w z (then_access cpu y w before e) h1)
        (advance cpu y) refl h
    where
      next :
          ((w : System H)
            → advance cpu y ≡ moved w
            → run_order cpus w ≡ moved z
            → Interleaved start z)
          → (m : Moved H) → advance cpu y ≡ m
          → (elim m as (λ m. Moved H) [
            | moved w ↦ run_order cpus w
            | no_task ↦ no_task
            | null_read ↦ null_read
          ])
            ≡ moved z
          → Interleaved start z
      next go (moved w) e h1 = go w e h1
      next go no_task e h1 = absurd (cc)
      next go null_read e h1 = absurd (cc)
