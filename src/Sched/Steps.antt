-- ===== src/Sched/Steps.antt =====
-- The invariant of the scheduler (proc/sched.cpp) over its calls.
use mathlib.Core.Path.{subst}
use synx.Prelude.{
  Chain-behind, member-later, member-first, ℕ, zero, suc, ◌≡◌, ◌≢◌, refl, arith, ap, sym, ◌∙◌, Bool,
  true, false, Bool-cases, inl, inr, List, ◌==◌, Chain, linked, ended, member,
}
use synx.Sched.{
  Task, Sched, null, is_ready, Choice, stay, run, bad_pointer, endless, next_loop, Step, stayed,
  switched, faulted, unfinished, switch_to, schedule,
}
use synx.Sched.Round.{links, next_loop-head}
use synx.Sched.Switch.{switch_to-Switched}
use synx.Sched.Owners.{Owned, Handover-Owned}

-- The task is one of the list, ready and not the current one.
record Chosen (tasks : ℕ → Task) (current : ℕ) (all : List ℕ) (t : ℕ) : Type 0 where
  listed : member t all ≡ true
  other : t ≢ current
  some_task : t ≢ null
  is_next : is_ready (tasks t).state ≡ true

module _ (tasks : ℕ → Task) (head current t : ℕ) (all : List ℕ) where
  at_task-Chosen :
      (fuel q : ℕ)
      → q ≢ null
      → member q all ≡ true
      → (next_loop fuel tasks head current (links tasks q) ≡ run t → Chosen tasks current all t)
      → next_loop (suc fuel) tasks head current q ≡ run t
      → Chosen tasks current all t
  unfolding next_loop
  at_task-Chosen fuel q some_q listed later h =
      let n1 : (q == null) ≡ false = ground arith in
      let h1 = rw n1 at h in
      elim (Bool-cases (q == current)) [
        | inl same ↦ absurd (let h2 = rw same at h1 in cc)
        | inr other ↦ (elim (Bool-cases (is_ready (tasks q).state)) [
          | inl yes_ready ↦
              (let e : q ≡ t = (let h2 = rw (other, n1, yes_ready) at h1 in cc) in
                subst (Chosen tasks current all) e (record {
                  listed = listed;
                  other = λ e1. ground (arith, other, e1);
                  some_task = some_q;
                  is_next = yes_ready;
                }))
          | inr not_ready ↦ later (rw (other, n1, not_ready) at h1)
        ])
      ]

  -- The walk begins at the head again.
  from_head-Chosen :
      (fuel p first : ℕ) (objects : List ℕ)
      → p ≡ null
      → head ≡ first
      → Chain (links tasks) first objects
      → ((q : ℕ) → member q objects ≡ true → member q all ≡ true)
      → ((q : ℕ) (later : List ℕ)
          → Chain (links tasks) q later
          → ((x : ℕ) → member x later ≡ true → member x all ≡ true)
          → next_loop fuel tasks head current q ≡ run t
          → Chosen tasks current all t)
      → next_loop (suc fuel) tasks head current p ≡ run t
      → Chosen tasks current all t
  unfolding next_loop
  from_head-Chosen fuel p first _ at same (ended _ e) sub later h =
      let n1 : (p == null) ≡ true = ground arith in
      let n2 : (head == null) ≡ true = ground arith in
      let h1 = rw (n1, n2) at h in
      elim (Bool-cases (head == current)) [
        | inl stays ↦ absurd (let h2 = rw stays at h1 in cc)
        | inr other ↦ absurd (let h2 = rw other at h1 in cc)
      ]
  from_head-Chosen fuel p _ _ at same (linked first rest some_p chain) sub later h =
      let some_head : head ≢ null = (λ e. omega arith) in
      let in_list = sub first (member-first first rest) in
      at_task-Chosen fuel head some_head (subst (λ q. member q all ≡ true) (sym same) in_list)
        (λ h1.
          later (links tasks first) rest chain (λ x hx. sub x (member-later first x rest hx))
            (subst (λ q. next_loop fuel tasks head current (links tasks q) ≡ run t) same h1))
        (sym (next_loop-head tasks fuel head current p at some_head) ∙ h)

  next_loop-Chosen :
      (fuel p : ℕ) (later : List ℕ)
      → Chain (links tasks) head all
      → Chain (links tasks) p later
      → ((q : ℕ) → member q later ≡ true → member q all ≡ true)
      → next_loop fuel tasks head current p ≡ run t
      → Chosen tasks current all t
  unfolding next_loop
  next_loop-Chosen zero p later front chain sub h = absurd (cc)
  next_loop-Chosen (suc fuel) p _ front (ended _ e) sub h =
      from_head-Chosen fuel p head all e refl front (λ q x. x)
        (λ q later chain sub1 h1. next_loop-Chosen fuel q later front chain sub1 h1) h
  next_loop-Chosen (suc fuel) p _ front (linked _ rest some_p chain) sub h =
      at_task-Chosen fuel p some_p (sub p (member-first p rest))
        (next_loop-Chosen fuel (links tasks p) rest front chain
          (λ x hx. sub x (member-later p x rest hx)))
        h

switch_to-kept :
    {H : Type 0} (cpu next : ℕ) (s : Sched H)
    → ((switch_to cpu next s).task_list_head ≡ s.task_list_head)
      × ((switch_to cpu next s).heap ≡ s.heap)
unfolding switch_to
switch_to-kept cpu next s = (refl, refl)

module _ {H : Type 0} (live : H → ℕ → Bool) where
  pub switched-Owned :
      (fuel cpu from to : ℕ) (s s' : Sched H) (all : List ℕ)
      → Owned live s all
      → schedule fuel cpu s ≡ switched from to s'
      → Owned live s' all
  unfolding schedule
  switched-Owned fuel cpu from to s s' all own h = elim (Bool-cases (s.current_task cpu == null)) [
    | inl idle ↦ absurd (let h1 = rw idle at h in cc)
    | inr busy ↦
        chosen (next_loop fuel s.tasks s.task_list_head current (links s.tasks current))
          (choice (λ e. ground (arith, busy, e))) (rw busy at h)
  ]
    where
      current : ℕ
      current = s.current_task cpu

      choice :
          current ≢ null
          → (t : ℕ)
          → next_loop fuel s.tasks s.task_list_head current (links s.tasks current) ≡ run t
          → Chosen s.tasks current all t
      choice some_current t h =
          let (later, behind, sub) =
            Chain-behind (links s.tasks) s.task_list_head current all own.chain
              (own.listed cpu some_current) in
          next_loop-Chosen s.tasks s.task_list_head current t all fuel (links s.tasks current) later
            own.chain behind sub h

      chosen :
          (c : Choice)
          → ((t : ℕ) → c ≡ run t → Chosen s.tasks current all t)
          → (elim c as (λ c. Step H) [
            | stay ↦ stayed
            | run next ↦ switched current next (switch_to cpu next s)
            | bad_pointer ↦ faulted
            | endless ↦ unfinished
          ])
            ≡ switched from to s'
          → Owned live s' all
      chosen stay pick h = absurd (cc)
      chosen bad_pointer pick h = absurd (cc)
      chosen endless pick h = absurd (cc)
      chosen (run next) pick h =
          let after : switch_to cpu next s ≡ s' = cc in
          let c = pick next refl in
          let sw = switch_to-Switched cpu next s c.other in
          let alone : (d : ℕ) → s.current_task d ≢ null → s.current_task d ≢ next = (λ d some e.
            let not_ready = own.busy d some in
            let e1 = ap (λ q. is_ready (s.tasks q).state) e in let is_next = c.is_next in cc) in
          subst (λ x. Owned live x all) after
            (Handover-Owned live cpu next s (switch_to cpu next s) all own c.listed (record {
              now = sw.now;
              elsewhere = sw.elsewhere;
              runs = sw.runs;
              links_kept = sw.linked_as_before;
              head_kept = (switch_to-kept cpu next s).0;
              heap_kept = (switch_to-kept cpu next s).1;
              some_next = c.some_task;
              alone = λ d ne some. alone d some;
              rest =
                  λ d ne some. sw.kept (s.current_task d) (alone d some) (own.apart d cpu ne some);
            }))
