-- ===== src/Sched/Reached.antt =====
-- The states that the calls of the scheduler (proc/sched.cpp) lead to.
use mathlib.Core.Path.{subst}
use synx.Prelude.{
  ℕ, ◌≡◌, ◌≢◌, refl, arith, ap, sym, Bool, true, Bool-cases, inl, inr, List, [], ◌∷◌, ◌==◌, leb,
  ended,
}
use synx.Sched.{
  running, Allocator, Sched, null, put, switched, schedule, create_task, install, started,
  init_loop, init_all_cpus, init, max_cpus,
}
use synx.Sched.Round.{links}
use synx.Sched.Switch.{put-same, put-other}
use synx.Sched.Owners.{Laws, Owned, Handover-Owned}
use synx.Sched.Steps.{switched-Owned}
use synx.Sched.Creation.{Created, create_task-Created}

module _ {H : Type 0} (slab : Allocator H) (size_of_task : ℕ) (live : H → ℕ → Bool) where
  -- No two processors run the same task, and a task that runs is not ready.
  abbrev pub Consistent : Sched H → Type 0
  Consistent s = (all : List ℕ) × Owned live s all

  install-Consistent :
      (cpu : ℕ) (made : ℕ × Sched H)
      → made.0 ≢ null
      → Created slab size_of_task live made
      → Consistent (install cpu made.0 made.1)
  unfolding install
  install-Consistent cpu made some_task c =
      let task = made.0 in
      let s = made.1 in
      let running_task = record (s.tasks task) { pid = 0; state = running } in
      (
        c.all,
        Handover-Owned live cpu task s (install cpu task s) c.all c.owned (c.listed some_task)
            (record {
              now = put-same s.current_task cpu task;
              elsewhere = λ d ne. put-other s.current_task cpu task d ne;
              runs = ap (λ t. t.state) (put-same s.tasks task running_task);
              links_kept = λ p. kept p;
              head_kept = refl;
              heap_kept = refl;
              some_next = some_task;
              alone = λ d ne some. c.alone d some_task some;
              rest = λ d ne some.
                  put-other s.tasks task running_task (s.current_task d) (c.alone d some_task some);
            }),
      )
    where
      kept :
          (p : ℕ)
          → links
              (put made.1.tasks made.0 (record (made.1.tasks made.0) { pid = 0; state = running }))
              p
            ≡ links made.1.tasks p
      kept p = elim (Bool-cases (p == made.0)) [
        | inl same ↦
            (let at : p ≡ made.0 = ground (arith, same) in
              subst
                (λ x.
                  links
                    (put made.1.tasks made.0
                      (record (made.1.tasks made.0) { pid = 0; state = running }))
                    x
                  ≡ links made.1.tasks x)
                (sym at) (ap (λ t. t.next) (put-same made.1.tasks made.0 _)))
        | inr other ↦
            ap (λ t. t.next) (put-other made.1.tasks made.0 _ p (λ e. ground (arith, other, e)))
      ]

  init_loop-Consistent :
      (entry stack_size : ℕ) (lapic_ids : List ℕ) (s s' : Sched H)
      → Laws slab live
      → Consistent s
      → init_loop slab size_of_task entry stack_size lapic_ids s ≡ started s'
      → Consistent s'
  unfolding init_loop
  init_loop-Consistent entry stack_size [] s s' laws c h =
      let same : s ≡ s' = cc in subst Consistent same c
  init_loop-Consistent entry stack_size (cpu ∷ cpus) s s' laws c h =
      let made = create_task slab size_of_task entry stack_size s in
      let created = create_task-Created slab size_of_task live entry stack_size s c.0 laws c.1 in
      elim (Bool-cases (leb max_cpus cpu)) [
        | inl large ↦ absurd (let h1 = rw large at h in cc)
        | inr small ↦ (elim (Bool-cases (made.0 == null)) [
          | inl failed ↦ absurd (let h1 = rw (small, failed) at h in cc)
          | inr done ↦
              init_loop-Consistent entry stack_size cpus (install cpu made.0 made.1) s' laws
                (install-Consistent cpu made (λ e. ground (arith, done, e)) created)
                (rw (small, done) at h)
        ])
      ]

  -- One call on some processor. The fuel of `schedule` is any that lets it finish.
  pub data Happens : Sched H → Sched H → Type 0 where
    switches :
        (fuel cpu from to : ℕ) (s s' : Sched H)
        → schedule fuel cpu s ≡ switched from to s'
        → Happens s s'
    creates :
        (entry_point stack_size : ℕ) (s : Sched H)
        → Happens s (create_task slab size_of_task entry_point stack_size s).1
    starts_all :
        (entry stack_size : ℕ) (lapic_ids : List ℕ) (s s' : Sched H)
        → init_all_cpus slab size_of_task entry stack_size lapic_ids s ≡ started s'
        → Happens s s'
    starts_one :
        (entry stack_size processor_id : ℕ) (s s' : Sched H)
        → init slab size_of_task entry stack_size processor_id s ≡ started s'
        → Happens s s'

  pub data Reached (start : Sched H) : Sched H → Type 0 where
    at_start : Reached start start
    then_call : (s s' : Sched H) → Reached start s → Happens s s' → Reached start s'

  -- The state before any call: no task, and no processor that runs one.
  pub record Blank (s : Sched H) : Type 0 where
    pub no_task : s.task_list_head ≡ null
    pub idle : (cpu : ℕ) → s.current_task cpu ≡ null

  Blank-Consistent : (s : Sched H) → Blank s → Consistent s
  Blank-Consistent s blank = (
    [],
    record {
      chain = ended s.task_list_head blank.no_task;
      distinct = tt;
      in_use = tt;
      listed = λ c h. absurd (h (blank.idle c));
      busy = λ c h. absurd (h (blank.idle c));
      apart = λ c d ne h e. h (blank.idle c);
    },
  )

  started-Consistent : (s : Sched H) → Consistent s → Consistent (record s { initialized = true })
  started-Consistent s (all, own) = (
    all,
    record {
      chain = own.chain;
      distinct = own.distinct;
      in_use = own.in_use;
      listed = own.listed;
      busy = own.busy;
      apart = own.apart;
    },
  )

  Happens-Consistent :
      (s s' : Sched H) → Laws slab live → Consistent s → Happens s s' → Consistent s'
  unfolding init_all_cpus init
  Happens-Consistent _ _ laws c (switches fuel cpu from to s s' h) =
      (c.0, switched-Owned live fuel cpu from to s s' c.0 c.1 h)
  Happens-Consistent _ _ laws c (creates entry_point stack_size s) =
      let created =
        create_task-Created slab size_of_task live entry_point stack_size s c.0 laws c.1 in
      (created.all, created.owned)
  Happens-Consistent _ _ laws c (starts_all entry stack_size lapic_ids s s' h) =
      elim (Bool-cases s.initialized) [
        | inl again ↦ subst Consistent (let h1 = rw again at h in cc) c
        | inr first ↦
            init_loop-Consistent entry stack_size lapic_ids (record s { initialized = true }) s'
              laws (started-Consistent s c) (rw first at h)
      ]
  Happens-Consistent _ _ laws c (starts_one entry stack_size processor_id s s' h) =
      let s0 = record s { initialized = true } in
      let c0 = started-Consistent s c in
      let made = create_task slab size_of_task entry stack_size s0 in
      elim (Bool-cases s.initialized) [
        | inl again ↦ subst Consistent (let h1 = rw again at h in cc) c
        | inr first ↦ (elim (Bool-cases (made.0 == null)) [
          | inl failed ↦ absurd (let h1 = rw (first, failed) at h in cc)
          | inr done ↦ subst Consistent (let h1 = rw (first, done) at h in cc) (
              install-Consistent processor_id made (λ e. ground (arith, done, e))
                (create_task-Created slab size_of_task live entry stack_size s0 c0.0 laws c0.1))
        ])
      ]

  -- Let no two calls of the scheduler overlap, as on a single processor, and let them begin without tasks,
  -- on an allocator that hands out no memory in use. In every state that they lead to, in whatever order and on whatever processors they are made, the
  -- tasks are linked once each from the head of the list and their memory is in use; the task of a
  -- processor is one of them, is not ready, and is the task of no other processor.
  pub Reached-Consistent :
      (start s : Sched H) → Laws slab live → Blank start → Reached start s → Consistent s
  Reached-Consistent start _ laws blank at_start = Blank-Consistent start blank
  Reached-Consistent start _ laws blank (then_call s s' before call) =
      Happens-Consistent s s' laws (Reached-Consistent start s laws blank before) call
