-- ===== src/Sched/Switch.antt =====
-- What a call of `schedule` (proc/sched.cpp) does to the tasks and the processors.
use mathlib.Core.Path.{subst}
use synx.Prelude.{
  ℕ, ◌+◌, ◌<◌, ◌≡◌, ◌≢◌, refl, arith, ap, sym, ◌∙◌, Bool, true, false, Bool-cases, inl, inr, ◌⊎◌,
  List, [], ◌∷◌, ◌++◌, length, ◌==◌, if◌then◌else◌, Chain, Absent, Chain-head,
}
use synx.Sched.{
  Task, TaskState, ready, running, Sched, null, put, is_ready, is_running, Choice, stay, run,
  bad_pointer, endless, next_loop, with_state, Step, stayed, switched, faulted, unfinished,
  switch_to, schedule,
}
use synx.Sched.Round.{links, Round, nobody, pick, skip, after-Round}

pub put-same : {A : Type 0} (f : ℕ → A) (at : ℕ) (value : A) → put f at value at ≡ value
unfolding put
put-same f at value = let here : (at == at) ≡ true = ground arith in rw here refl

pub put-other :
    {A : Type 0} (f : ℕ → A) (at : ℕ) (value : A) (x : ℕ) → x ≢ at → put f at value x ≡ f x
unfolding put
put-other f at value x other = let n : (at == x) ≡ false = ground arith in rw n refl

pub with_state-next :
    (tasks : ℕ → Task) (task : ℕ) (state : TaskState) (p : ℕ)
    → (with_state tasks task state p).next ≡ (tasks p).next
unfolding with_state put
with_state-next tasks task state p = elim (Bool-cases (task == p)) [
  | inl same ↦ (let at : task ≡ p = ground (arith, same) in rw same (ap (λ x. (tasks x).next) at))
  | inr other ↦ rw other refl
]

with_state-same :
    (tasks : ℕ → Task) (task : ℕ) (state : TaskState)
    → (with_state tasks task state task).state ≡ state
unfolding with_state
with_state-same tasks task state =
    ap (λ t. t.state) (put-same tasks task (record (tasks task) { state = state }))

with_state-other :
    (tasks : ℕ → Task) (task : ℕ) (state : TaskState) (p : ℕ)
    → p ≢ task
    → with_state tasks task state p ≡ tasks p
unfolding with_state
with_state-other tasks task state p other =
    put-other tasks task (record (tasks task) { state = state }) p other

-- A task other than the current one does not notice whether that is paused.
paused-other :
    (b : Bool) (tasks : ℕ → Task) (current p : ℕ)
    → p ≢ current
    → (if b then with_state tasks current ready else tasks) p ≡ tasks p
paused-other true tasks current p other = with_state-other tasks current ready p other
paused-other false tasks current p other = refl

paused-next :
    (b : Bool) (tasks : ℕ → Task) (current p : ℕ)
    → ((if b then with_state tasks current ready else tasks) p).next ≡ (tasks p).next
paused-next true tasks current p = with_state-next tasks current ready p
paused-next false tasks current p = refl

Chain-from :
    (following : ℕ → ℕ) (first p : ℕ) (before after : List ℕ)
    → Chain following first (before ++ (p ∷ after))
    → (first ≢ 0) × (p ≢ 0) × Chain following (following p) after
Chain-from following first p [] after chain =
    let (at, some_p, rest) = Chain-head following first p after chain in
    ((λ e. omega arith), some_p, rest)
Chain-from following first p (q ∷ before) after chain =
    let (at, some_q, rest) = Chain-head following first q (before ++ (p ∷ after)) chain in
    let (_, some_p, later) = Chain-from following (following q) p before after rest in
    ((λ e. omega arith), some_p, later)

-- The task that is chosen is ready, and it is one of the others.
Round-run :
    (tasks : ℕ → Task) (p : ℕ) (others : List ℕ) (c : Choice) (next : ℕ)
    → Absent p others
    → Round tasks others c
    → c ≡ run next
    → (next ≢ p) × (is_ready (tasks next).state ≡ true)
Round-run tasks p _ _ next absent nobody e = absurd (cc)
Round-run tasks p _ _ next absent (pick q others yes_ready) e =
    let same : q ≡ next = cc in
    ((λ e1. absent.0 (same ∙ e1)), subst (λ x. is_ready (tasks x).state ≡ true) same yes_ready)
Round-run tasks p _ _ next absent (skip q others c not_ready rest) e =
    Round-run tasks p others c next absent.1 rest e

Round-ends :
    (tasks : ℕ → Task) (others : List ℕ) (c : Choice)
    → Round tasks others c
    → (c ≡ bad_pointer) ⊎ (c ≡ endless)
    → ⊥
Round-ends tasks _ _ nobody e = elim e [ inl e1 ↦ cc | inr e2 ↦ cc ]
Round-ends tasks _ _ (pick q others yes_ready) e = elim e [ inl e1 ↦ cc | inr e2 ↦ cc ]
Round-ends tasks _ _ (skip q others c not_ready rest) e = Round-ends tasks others c rest e

Absent-append : (p : ℕ) (xs ys : List ℕ) → Absent p xs → Absent p ys → Absent p (xs ++ ys)
Absent-append p [] ys h1 h2 = h2
Absent-append p (x ∷ xs) ys h1 h2 = (h1.0, Absent-append p xs ys h1.1 h2)

module _ {H : Type 0} where
  -- The state after a switch of a processor to a task.
  pub record Switched (cpu next : ℕ) (s s' : Sched H) : Type 0 where
    pub now : s'.current_task cpu ≡ next
    pub elsewhere : (c : ℕ) → c ≢ cpu → s'.current_task c ≡ s.current_task c
    pub runs : (s'.tasks next).state ≡ running
    pub paused :
        (s.tasks (s.current_task cpu)).state ≡ running
        → (s'.tasks (s.current_task cpu)).state ≡ ready
    pub kept : (p : ℕ) → p ≢ next → p ≢ s.current_task cpu → s'.tasks p ≡ s.tasks p
    pub linked_as_before : (p : ℕ) → (s'.tasks p).next ≡ (s.tasks p).next

  pub data Scheduled (cpu : ℕ) (s : Sched H) (others : List ℕ) : Step H → Type 0 where
    stays : Round s.tasks others stay → Scheduled cpu s others stayed
    switches :
        (next : ℕ) (s' : Sched H)
        → Round s.tasks others (run next)
        → Switched cpu next s s'
        → Scheduled cpu s others (switched (s.current_task cpu) next s')

  pub switch_to-Switched :
      (cpu next : ℕ) (s : Sched H)
      → next ≢ s.current_task cpu
      → Switched cpu next s (switch_to cpu next s)
  unfolding switch_to is_running
  switch_to-Switched cpu next s other =
      let current = s.current_task cpu in
      let was = is_running (s.tasks current).state in
      let paused = if was then with_state s.tasks current ready else s.tasks in
      record {
        now = put-same s.current_task cpu next;
        elsewhere = λ c ne. put-other s.current_task cpu next c ne;
        runs = with_state-same paused next running;
        paused = λ h.
            ap (λ t. t.state) (with_state-other paused next running current (λ e. other (sym e)))
            ∙ ap (λ b. ((if b then with_state s.tasks current ready else s.tasks) current).state)
                (ap is_running h)
            ∙ with_state-same s.tasks current ready;
        kept = λ p n1 n2.
            with_state-other paused next running p n1 ∙ paused-other was s.tasks current p n2;
        linked_as_before =
            λ p. with_state-next paused next running p ∙ paused-next was s.tasks current p;
      }

  -- Let the tasks be linked from the head of the list, the current one of the processor among them. With
  -- as much fuel as there are other tasks, and one more, `schedule` comes to an end. It gives the
  -- processor to the first ready task behind the current one, and behind the last task it goes on at the
  -- first; it stays if no other task is ready. A switch pauses the current task if it was running,
  -- and changes no other task, no other processor and no link.
  pub schedule-Scheduled :
      (fuel cpu : ℕ) (s : Sched H) (before after : List ℕ)
      → Chain (links s.tasks) s.task_list_head (before ++ (s.current_task cpu ∷ after))
      → Absent (s.current_task cpu) before
      → Absent (s.current_task cpu) after
      → length after + length before < fuel
      → Scheduled cpu s (after ++ before) (schedule fuel cpu s)
  unfolding schedule
  schedule-Scheduled fuel cpu s before after chain a1 a2 enough =
      let current = s.current_task cpu in
      let (some_head, some_current, rest) =
        Chain-from (links s.tasks) s.task_list_head current before after chain in
      let there : (current == null) ≡ false = ground arith in
      let round =
        after-Round s.tasks fuel s.task_list_head current (links s.tasks current) before after after
          a1 a2 enough some_head chain rest in
      rw (schedule, there)
        (chosen (after ++ before) (Absent-append current after before a2 a1)
          (next_loop fuel s.tasks s.task_list_head current (links s.tasks current)) round)
    where
      chosen :
          (others : List ℕ)
          → Absent (s.current_task cpu) others
          → (c : Choice) → Round s.tasks others c
          → Scheduled cpu s others (elim c as (λ c. Step H) [
            | stay ↦ stayed
            | run next ↦ switched (s.current_task cpu) next (switch_to cpu next s)
            | bad_pointer ↦ faulted
            | endless ↦ unfinished
          ])
      chosen others absent stay round = stays round
      chosen others absent (run next) round =
          let (other, _) =
            Round-run s.tasks (s.current_task cpu) others (run next) next absent round refl in
          switches next (switch_to cpu next s) round (switch_to-Switched cpu next s other)
      chosen others absent bad_pointer round =
          absurd (Round-ends s.tasks others bad_pointer round (inl refl))
      chosen others absent endless round =
          absurd (Round-ends s.tasks others endless round (inr refl))
