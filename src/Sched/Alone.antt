-- ===== src/Sched/Alone.antt =====
-- A processor that is alone in `schedule` (proc/sched.cpp): its accesses come to the one step of Sched.
use mathlib.Core.Path.{subst}
use synx.Prelude.{
  ℕ, zero, suc, ◌≡◌, refl, arith, ap, ◌∙◌, Bool-cases, inl, inr, ◌==◌, if◌then◌else◌,
}
use synx.Sched.{
  Sched, null, ready, running, put, is_ready, is_running, with_state, Choice, stay, run,
  bad_pointer, endless, next_loop, Step, halted, stayed, switched, faulted, unfinished, switch_to,
  schedule,
}
use synx.Sched.Switch.{put-same}
use synx.Sched.Processors.{
  Place, outside, at_next, at_test, at_state, at_link, at_pause, at_ready, at_run, at_set, System,
  moved, access, advance,
}

module _ {H : Type 0} (cpu : ℕ) where
  -- The accesses of one processor, with none of another between them.
  pub data Alone (y : System H) : System H → Type 0 where
    done : Alone y y
    then_own : (x z : System H) → Alone y x → advance cpu x ≡ moved z → Alone y z

  -- From the state the processor alone comes to the place, with memory as given.
  pub record Comes (y : System H) (s : Sched H) (p : Place) : Type 0 where
    pub last : System H
    pub alone : Alone y last
    pub memory : last.sched ≡ s
    pub stands : last.place cpu ≡ p

  -- One more access.
  Comes-more :
      (y : System H) (s s' : Sched H) (p p' : Place)
      → ((at : ℕ → Place)
          → access cpu p (record { sched = s; place = at })
            ≡ moved (record { sched = s'; place = put at cpu p' }))
      → Comes y s p
      → Comes y s' p'
  unfolding advance
  Comes-more y s s' p p' next came = record {
    last = record { sched = s'; place = put came.last.place cpu p' };
    alone = then_own came.last _ came.alone (
        ap (λ q. access cpu q came.last) came.stands
        ∙ ap (λ m. access cpu p (record { sched = m; place = came.last.place })) came.memory
        ∙ next came.last.place);
    memory = refl;
    stands = put-same came.last.place cpu p';
  }

  -- The loop of `schedule`.
  Comes-loop :
      (fuel : ℕ) (y : System H) (s : Sched H) (current next : ℕ)
      → Comes y s (at_test current next)
      → ((t : ℕ)
          → next_loop fuel s.tasks s.task_list_head current next ≡ run t
          → Comes y s (at_pause current t))
        × (next_loop fuel s.tasks s.task_list_head current next ≡ stay → Comes y s outside)
  unfolding next_loop access
  Comes-loop zero y s current next came = ((λ t h. absurd (cc)), (λ h. absurd (cc)))
  Comes-loop (suc fuel) y s current next came =
      let candidate = if next == null then s.task_list_head else next in
      elim (Bool-cases (candidate == current)) [
        | inl back ↦ (
          (λ t h. absurd (let h1 = rw back at h in cc)),
          (λ h. Comes-more y s s (at_test current next) outside (λ at. rw back refl) came),
        )
        | inr other ↦
            (let came1 : Comes y s (at_state current candidate) =
                Comes-more y s s (at_test current next) (at_state current candidate)
                  (λ at. rw other refl) came in
              elim (Bool-cases (candidate == null)) [
                | inl nul ↦ (
                  (λ t h. absurd (let h1 = rw (other, nul) at h in cc)),
                  (λ h. absurd (let h1 = rw (other, nul) at h in cc)),
                )
                | inr some ↦ (elim (Bool-cases (is_ready (s.tasks candidate).state)) [
                  | inl yes_ready ↦ (
                    (λ t h.
                        let same : candidate ≡ t =
                          (let h1 = rw (other, some, yes_ready) at h in cc) in
                        subst (λ q. Comes y s (at_pause current q)) same
                          (Comes-more y s s (at_state current candidate)
                            (at_pause current candidate) (λ at. rw (some, yes_ready) refl) came1)),
                    (λ h. absurd (let h1 = rw (other, some, yes_ready) at h in cc)),
                  )
                  | inr not_ready ↦
                      (let came2 : Comes y s (at_link current candidate) =
                          Comes-more y s s (at_state current candidate) (at_link current candidate)
                            (λ at. rw (some, not_ready) refl) came1 in
                        let came3 : Comes y s (at_test current (s.tasks candidate).next) =
                          Comes-more y s s (at_link current candidate)
                            (at_test current (s.tasks candidate).next) (λ at. refl) came2 in
                        let ih = Comes-loop fuel y s current (s.tasks candidate).next came3 in
                        (
                          (λ t h. ih.0 t (rw (other, some, not_ready) at h)),
                          (λ h. ih.1 (rw (other, some, not_ready) at h)),
                        ))
                ])
              ])
      ]

  -- What `schedule` as one step comes to.
  pub data Agrees (y : System H) (s : Sched H) : Step H → Type 0 where
    no_current : s.current_task cpu ≡ null → Agrees y s halted
    ends : Comes y s outside → Agrees y s stayed
    changes : (from to : ℕ) (s' : Sched H) → Comes y s' outside → Agrees y s (switched from to s')
    null_link : Agrees y s faulted
    not_yet : Agrees y s unfinished

  -- From the store of RUNNING on.
  Comes-taken :
      (y : System H) (s : Sched H) (current next : ℕ)
      → Comes y s (at_run current next)
      → Comes y
          (record s {
            tasks = with_state s.tasks next running;
            current_task = put s.current_task cpu next;
          })
          outside
  unfolding access
  Comes-taken y s current next came =
      let marked = record s { tasks = with_state s.tasks next running } in
      Comes-more y marked (record marked { current_task = put s.current_task cpu next })
        (at_set current next) outside (λ at. refl)
        (Comes-more y s marked (at_run current next) (at_set current next) (λ at. refl) came)

  -- From the choice of a task to its being the current one.
  Comes-switch :
      (y : System H) (s : Sched H) (next : ℕ)
      → Comes y s (at_pause (s.current_task cpu) next)
      → Comes y (switch_to cpu next s) outside
  unfolding access switch_to
  Comes-switch y s next came =
      let current = s.current_task cpu in
      let woken = record s { tasks = with_state s.tasks current ready } in
      elim (Bool-cases (is_running (s.tasks current).state)) [
        | inl was_running ↦
            rw (switch_to, was_running)
              (Comes-taken y woken current next (
                Comes-more y s woken (at_ready current next) (at_run current next) (λ at. refl)
                  (Comes-more y s s (at_pause current next) (at_ready current next)
                    (λ at. rw was_running refl) came)))
        | inr was_not ↦
            rw (switch_to, was_not)
              (Comes-taken y s current next (
                Comes-more y s s (at_pause current next) (at_run current next)
                  (λ at. rw was_not refl) came))
      ]

  -- When no other processor makes an access in between, the accesses of a processor in `schedule` come to
  -- what the call as one step gives: it is out of `schedule` again, and memory is as after the step.
  pub schedule-Agrees :
      (fuel : ℕ) (y : System H)
      → y.place cpu ≡ outside
      → Agrees y y.sched (schedule fuel cpu y.sched)
  unfolding schedule access
  schedule-Agrees fuel y out =
      let s = y.sched in
      let current = s.current_task cpu in
      elim (Bool-cases (current == null)) [
        | inl idle ↦ rw (schedule, idle) (no_current (ground (arith, idle)))
        | inr busy ↦
            (let came0 : Comes y s outside = record {
              last = y;
              alone = done;
              memory = refl;
              stands = out;
            } in
              let came1 : Comes y s (at_next current) =
                Comes-more y s s outside (at_next current) (λ at. rw busy refl) came0 in
              let came2 : Comes y s (at_test current (s.tasks current).next) =
                Comes-more y s s (at_next current) (at_test current (s.tasks current).next)
                  (λ at. refl) came1 in
              let (runs, stays) = Comes-loop fuel y s current (s.tasks current).next came2 in
              rw (schedule, busy)
                (chosen (next_loop fuel s.tasks s.task_list_head current (s.tasks current).next)
                  runs stays))
      ]
    where
      chosen :
          (c : Choice)
          → ((t : ℕ) → c ≡ run t → Comes y y.sched (at_pause (y.sched.current_task cpu) t))
          → (c ≡ stay → Comes y y.sched outside)
          → Agrees y y.sched (elim c as (λ c. Step H) [
            | stay ↦ stayed
            | run next ↦ switched (y.sched.current_task cpu) next (switch_to cpu next y.sched)
            | bad_pointer ↦ faulted
            | endless ↦ unfinished
          ])
      chosen stay runs stays = ends (stays refl)
      chosen (run next) runs stays = changes _ next _ (Comes-switch y y.sched next (runs next refl))
      chosen bad_pointer runs stays = null_link
      chosen endless runs stays = not_yet
