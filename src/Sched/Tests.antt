-- ===== src/Sched/Tests.antt =====
-- Two processors and a few tasks (proc/sched.cpp), on an allocator that never uses memory again.
use synx.Prelude.{
  ℕ, ◌+◌, ◌≡◌, refl, arith, Bool, true, false, Bool-cases, inl, inr, List, [], ◌∷◌, ◌==◌, leb,
  if◌then◌else◌, ended, linked,
}
use synx.Sched.{
  Task, TaskState, ready, running, blocked, Allocator, Sched, put, is_ready, is_running, next_loop,
  with_state, halted, stayed, switched, faulted, unfinished, switch_to, schedule, link_task,
  create_task, install, started, panic, init_loop, init_all_cpus,
}
use synx.Sched.Owners.{Laws, Owned}
use synx.Sched.Reached.{
  Consistent, starts_all, creates, switches, at_start, then_call, Reached-Consistent,
}
use synx.Sched.Processors.{outside, System, moved, no_task, null_read, access, advance, run_order}
use synx.Sched.Turn.{Turn, schedule-Turn}

-- The last address that was handed out.
abbrev counter : Allocator ℕ
counter = record { alloc = λ size last. (last + 1, last + 1); free = λ address size last. last }

abbrev handed_out : ℕ → ℕ → Bool
handed_out last p = leb p last

counter-Laws : Laws counter handed_out
counter-Laws = record {
  fresh = λ size h ne. ground arith;
  taken = λ size h ne. ground arith;
  kept = λ size h p e. ground (arith, e);
  freed = λ address size h p ne e. e;
}

abbrev task_at : (state : TaskState) (next : ℕ) → Task
task_at state next = record {
  pid = 0;
  state = state;
  context_rbp = 0;
  rip = 0;
  cs = 8;
  rflags = 0x202;
  rsp = 0;
  ss = 16;
  stack = 0;
  stack_size = 4096;
  next = next;
}

abbrev nothing_yet : Sched ℕ
nothing_yet = record {
  tasks = λ p. task_at ready 0;
  current_task = λ cpu. 0;
  cpu_id = λ cpu. 0;
  task_list_head = 0;
  next_pid = 1;
  initialized = false;
  heap = 0;
}

abbrev booted : Sched ℕ
booted = elim (init_all_cpus counter 296 0x8000 4096 (0 ∷ 1 ∷ []) nothing_yet) [
  | started s ↦ s
  | panic ↦ nothing_yet
]

abbrev with_task : Sched ℕ
with_task = (create_task counter 296 0x9000 4096 booted).1

abbrev turned : Sched ℕ
turned = elim (schedule 9 1 with_task) [
  | switched from to s ↦ s
  | halted ↦ nothing_yet
  | stayed ↦ nothing_yet
  | faulted ↦ nothing_yet
  | unfinished ↦ nothing_yet
]

boot : init_all_cpus counter 296 0x8000 4096 (0 ∷ 1 ∷ []) nothing_yet ≡ started booted
unfolding init_all_cpus init_loop create_task link_task install put
boot = refl

turn : schedule 9 1 with_task ≡ switched 3 5 turned
unfolding init_all_cpus init_loop create_task link_task install put schedule next_loop is_ready
    is_running switch_to with_state
turn = refl

consistent : Consistent counter 296 handed_out turned
consistent =
    Reached-Consistent counter 296 handed_out nothing_yet turned counter-Laws
      (record { no_task = refl; idle = λ cpu. refl })
      (then_call with_task turned
        (then_call booted with_task
          (then_call nothing_yet booted at_start
            (starts_all 0x8000 4096 (0 ∷ 1 ∷ []) nothing_yet booted boot))
          (creates 0x9000 4096 booted))
        (switches 9 1 3 5 with_task turned turn))

-- The tasks 7, 5, 3 and 1 in this order; 5 runs, 3 is blocked and 7 is ready.
abbrev four_tasks : Sched ℕ
four_tasks = record {
  tasks = λ p.
      if p == 7
      then task_at ready 5
      else if p == 5
      then task_at running 3
      else if p == 3
      then task_at blocked 1
      else task_at blocked 0;
  current_task = λ cpu. if cpu == 0 then 5 else 0;
  cpu_id = λ cpu. cpu;
  task_list_head = 7;
  next_pid = 5;
  initialized = true;
  heap = 8;
}

four_tasks-Owned : Owned handed_out four_tasks (7 ∷ 5 ∷ 3 ∷ 1 ∷ [])
unfolding is_ready
four_tasks-Owned = record {
  chain =
      linked 7 (5 ∷ 3 ∷ 1 ∷ []) (λ e. omega (arith, e))
        (linked 5 (3 ∷ 1 ∷ []) (λ e. omega (arith, e))
          (linked 3 (1 ∷ []) (λ e. omega (arith, e))
            (linked 1 [] (λ e. omega (arith, e)) (ended 0 refl))));
  distinct = (
    ((λ e. omega (arith, e)), ((λ e. omega (arith, e)), ((λ e. omega (arith, e)), tt))),
    (
      ((λ e. omega (arith, e)), ((λ e. omega (arith, e)), tt)),
      (((λ e. omega (arith, e)), tt), (tt, tt)),
    ),
  );
  in_use = (refl, (refl, (refl, (refl, tt))));
  listed = λ c h. (elim (Bool-cases (c == 0)) [
    | inl first ↦ rw first refl
    | inr other ↦ absurd (h (rw other refl))
  ]);
  busy = λ c h. (elim (Bool-cases (c == 0)) [
    | inl first ↦ rw first refl
    | inr other ↦ absurd (h (rw other refl))
  ]);
  apart = λ c d ne h e. (elim (Bool-cases (c == 0)) [
    | inl first ↦
        (let other : (d == 0) ≡ false = ground arith in
          let e1 = rw (first, other) at e in omega (arith, e1))
    | inr other ↦ h (rw other refl)
  ]);
}

schedule-Turn_example : Turn 4 0 four_tasks (7 ∷ 5 ∷ 3 ∷ 1 ∷ [])
schedule-Turn_example =
    schedule-Turn handed_out 4 0 four_tasks (7 ∷ 5 ∷ 3 ∷ 1 ∷ []) four_tasks-Owned
      (λ e. omega (arith, e)) (omega arith)

-- The same tasks on two processors, one of which has the last task.
abbrev two_busy : System ℕ
two_busy = record {
  sched = record four_tasks {
    current_task = λ cpu. if cpu == 0 then 5 else if cpu == 1 then 1 else 0;
  };
  place = λ cpu. outside;
}

-- Both find task 7 ready before either of them marks it.
abbrev overlapped : List ℕ
overlapped = 0 ∷ 0 ∷ 0 ∷ 0 ∷ 0 ∷ 0 ∷ 0 ∷ 0 ∷ 0 ∷ 0 ∷ 1 ∷ 1 ∷ 1 ∷ 1 ∷ 0 ∷ 0 ∷ 0 ∷ 0 ∷ 1 ∷ 1 ∷ 1 ∷ []

abbrev after_overlap : System ℕ
after_overlap = elim (run_order overlapped two_busy) [
  | moved y ↦ y
  | no_task ↦ two_busy
  | null_read ↦ two_busy
]

-- Now both processors run task 7.
both_run : (after_overlap.sched.current_task 0 ≡ 7) × (after_overlap.sched.current_task 1 ≡ 7)
unfolding run_order advance access put with_state is_ready is_running
both_run = (refl, refl)
