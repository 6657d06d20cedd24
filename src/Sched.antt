-- ===== src/Sched.antt =====
-- proc/sched.cpp: the tasks and the round-robin scheduler. The tasks stand at addresses, 0 being the null
-- pointer; `next` links them from `task_list_head` on. Here each call is one step; Processors takes
-- `schedule` apart into its accesses to memory, since the code takes no lock.
pub mod Round
pub mod Switch
pub mod Owners
pub mod Steps
pub mod Creation
pub mod Reached
pub mod Turn
pub mod Processors
pub mod Interleaving
pub mod Alone
mod Tests
use synx.Prelude.{
  ℕ, zero, suc, ◌+◌, ◌*◌, ◌%◌, ◌^◌, Bool, true, false, List, [], ◌∷◌, ◌==◌, leb, if◌then◌else◌,
  add64,
}

abbrev pub null : ℕ
null = 0

abbrev pub max_cpus : ℕ
max_cpus = 256

pub data TaskState : Type 0 where
  ready running blocked zombie : TaskState

-- The fields of `context` and `iframe` that the scheduler sets.
pub record Task : Type 0 where
  pub pid : ℕ
  pub state : TaskState
  pub context_rbp : ℕ
  pub rip : ℕ
  pub cs : ℕ
  pub rflags : ℕ
  pub rsp : ℕ
  pub ss : ℕ
  pub stack : ℕ
  pub stack_size : ℕ
  pub next : ℕ

-- `slab::alloc`, which gives 0 when it fails, and `slab::free`.
pub record Allocator (H : Type 0) : Type 0 where
  pub alloc : (size : ℕ) → H → ℕ × H
  pub free : (address size : ℕ) → H → H

pub record Sched (H : Type 0) : Type 0 where
  pub tasks : ℕ → Task
  pub current_task : ℕ → ℕ
  pub cpu_id : ℕ → ℕ
  pub task_list_head : ℕ
  pub next_pid : ℕ
  pub initialized : Bool
  pub heap : H

-- A map after a store.
unfoldable pub put : {A : Type 0} → (ℕ → A) → (at : ℕ) → A → ℕ → A
put f at value x = if at == x then value else f x

unfoldable pub is_ready : TaskState → Bool
is_ready ready = true
is_ready running = false
is_ready blocked = false
is_ready zombie = false

unfoldable pub is_running : TaskState → Bool
is_running running = true
is_running ready = false
is_running blocked = false
is_running zombie = false

-- What the walk of `schedule` comes to: the current task again, a ready task, a read through the null
-- pointer, or no end within the fuel.
pub data Choice : Type 0 where
  stay : Choice
  run : (task : ℕ) → Choice
  bad_pointer : Choice
  endless : Choice

-- The loop of `schedule`, with fuel.
unfoldable pub next_loop : (fuel : ℕ) → (tasks : ℕ → Task) → (head current next : ℕ) → Choice
next_loop zero tasks head current next = endless
next_loop (suc fuel) tasks head current next =
    let candidate = if next == null then head else next in
    let rest = next_loop fuel tasks head current (tasks candidate).next in
    if candidate == current
    then stay
    else if candidate == null
    then bad_pointer
    else if is_ready (tasks candidate).state
    then run candidate
    else rest

unfoldable pub with_state : (ℕ → Task) → (task : ℕ) → TaskState → ℕ → Task
with_state tasks task state = put tasks task (record (tasks task) { state = state })

-- `schedule` on a processor: halted without a current task; a switch names the tasks whose contexts
-- `switch_context` gets.
pub data Step (H : Type 0) : Type 0 where
  halted : Step H
  stayed : Step H
  switched : (from to : ℕ) → Sched H → Step H
  faulted : Step H
  unfinished : Step H

-- The start of the scheduler, or a call of `kernel_panic`.
pub data Started (H : Type 0) : Type 0 where
  started : Sched H → Started H
  panic : Started H

module _ {H : Type 0} where
  -- The part of `schedule` that makes `next` the task of the processor.
  unfoldable pub switch_to : (cpu next : ℕ) → Sched H → Sched H
  switch_to cpu next s =
      let current = s.current_task cpu in
      let paused =
        if is_running (s.tasks current).state then with_state s.tasks current ready else s.tasks in
      record s {
        tasks = with_state paused next running;
        current_task = put s.current_task cpu next;
      }

  unfoldable pub schedule : (fuel cpu : ℕ) → Sched H → Step H
  schedule fuel cpu s =
      let current = s.current_task cpu in
      if current == null
      then halted
      else (elim (next_loop fuel s.tasks s.task_list_head current (s.tasks current).next) [
        | stay ↦ stayed
        | run next ↦ switched current next (switch_to cpu next s)
        | bad_pointer ↦ faulted
        | endless ↦ unfinished
      ])

  -- The end of `create_task`: the task in the memory that was taken for it.
  unfoldable pub link_task : (address stack entry_point stack_size : ℕ) → Sched H → Sched H
  link_task address stack entry_point stack_size s =
      let top = add64 stack stack_size in
      let task = record (s.tasks address) {
        pid = s.next_pid;
        state = ready;
        context_rbp = 0;
        rip = entry_point;
        cs = 0x08;
        rflags = 0x202;
        rsp = top;
        ss = 0x10;
        stack = top;
        stack_size = stack_size;
        next = s.task_list_head;
      } in
      record s {
        tasks = put s.tasks address task;
        task_list_head = address;
        next_pid = add64 s.next_pid 1;
      }

  -- The statements that make a task the running one of a processor.
  unfoldable pub install : (cpu task : ℕ) → Sched H → Sched H
  install cpu task s = record s {
    tasks = put s.tasks task (record (s.tasks task) { pid = 0; state = running });
    current_task = put s.current_task cpu task;
    cpu_id = put s.cpu_id cpu cpu;
  }

  module _ (slab : Allocator H) (size_of_task : ℕ) where
    -- `create_task`: the address of the task, 0 when the memory runs out.
    unfoldable pub create_task : (entry_point stack_size : ℕ) → Sched H → ℕ × Sched H
    create_task entry_point stack_size s =
        let (address, h) = slab.alloc size_of_task s.heap in
        let (stack, h') = slab.alloc stack_size h in
        if address == null
        then (null, record s { heap = h })
        else if stack == null
        then (null, record s { heap = slab.free address size_of_task h' })
        else (address, link_task address stack entry_point stack_size (record s { heap = h' }))

    unfoldable pub init_loop : (entry stack_size : ℕ) → (lapic_ids : List ℕ) → Sched H → Started H
    init_loop entry stack_size [] s = started s
    init_loop entry stack_size (cpu ∷ cpus) s =
        let (task, s') = create_task entry stack_size s in
        let rest = init_loop entry stack_size cpus (install cpu task s') in
        if leb max_cpus cpu then panic else if task == null then panic else rest

    unfoldable pub init_all_cpus :
        (entry stack_size : ℕ) → (lapic_ids : List ℕ) → Sched H → Started H
    init_all_cpus entry stack_size lapic_ids s =
        if s.initialized
        then started s
        else init_loop entry stack_size lapic_ids (record s { initialized = true })

    unfoldable pub init : (entry stack_size processor_id : ℕ) → Sched H → Started H
    init entry stack_size processor_id s =
        let (task, s') = create_task entry stack_size (record s { initialized = true }) in
        if s.initialized
        then started s
        else if task == null
        then panic
        else started (install processor_id task s')
