-- ===== src/Sched/Creation.antt =====
-- New tasks (proc/sched.cpp) and the invariant of the scheduler.
use mathlib.Core.Path.{subst}
use synx.Prelude.{
  member-Absent-ne, member-later, member-first, ℕ, ◌≡◌, ◌≢◌, refl, arith, ap, sym, ◌∙◌, Bool, true,
  Bool-cases, inl, inr, List, [], ◌∷◌, ◌==◌, Chain, linked, Absent, member, Chain-frame,
}
use synx.Sched.{Allocator, Sched, null, is_ready, link_task, create_task}
use synx.Sched.Round.{links}
use synx.Sched.Switch.{put-same, put-other}
use synx.Sched.Owners.{Laws, AllLive, Owned, AllLive-kept, fresh-Absent}

module _ {H : Type 0} (slab : Allocator H) (size_of_task : ℕ) (live : H → ℕ → Bool) where
  heap-Owned :
      (s : Sched H) (h : H) (all : List ℕ)
      → Owned live s all
      → AllLive (live h) all
      → Owned live (record s { heap = h }) all
  heap-Owned s h all own alive = record {
    chain = own.chain;
    distinct = own.distinct;
    in_use = alive;
    listed = own.listed;
    busy = own.busy;
    apart = own.apart;
  }

  link_task-Owned :
      (address stack entry_point stack_size : ℕ) (s : Sched H) (all : List ℕ)
      → Owned live s all
      → address ≢ null
      → Absent address all
      → live s.heap address ≡ true
      → Owned live (link_task address stack entry_point stack_size s) (address ∷ all)
  unfolding link_task is_ready
  link_task-Owned address stack entry_point stack_size s all own some_task absent alive =
      let s' = link_task address stack entry_point stack_size s in
      record {
        chain = linked address all some_task (
            subst (λ q. Chain (links s'.tasks) q all)
              (sym (ap (λ t. t.next) (put-same s.tasks address _)))
              (Chain-frame (links s.tasks) (links s'.tasks) address s.task_list_head all
                (λ p ne. ap (λ t. t.next) (put-other s.tasks address _ p ne)) absent own.chain));
        distinct = (absent, own.distinct);
        in_use = (alive, own.in_use);
        listed = λ c h. member-later address (s.current_task c) all (own.listed c h);
        busy = λ c h.
            ap (λ t. is_ready t.state)
              (put-other s.tasks address _ (s.current_task c)
                (member-Absent-ne address (s.current_task c) all (own.listed c h) absent))
            ∙ own.busy c h;
        apart = own.apart;
      }

  -- The task that was made is in the list, and runs nowhere; 0 is the failure.
  pub record Created (made : ℕ × Sched H) : Type 0 where
    pub all : List ℕ
    pub owned : Owned live made.1 all
    pub listed : made.0 ≢ null → member made.0 all ≡ true
    pub alone :
        (c : ℕ) → made.0 ≢ null → made.1.current_task c ≢ null → made.1.current_task c ≢ made.0

  pub create_task-Created :
      (entry_point stack_size : ℕ) (s : Sched H) (all : List ℕ)
      → Laws slab live
      → Owned live s all
      → Created (create_task slab size_of_task entry_point stack_size s)
  unfolding create_task link_task
  create_task-Created entry_point stack_size s all laws own =
      let (address, h) = slab.alloc size_of_task s.heap in
      let (stack, h') = slab.alloc stack_size h in
      elim (Bool-cases (address == null)) [
        | inl failed ↦
            (let none_made : address ≡ null = ground (arith, failed) in
              rw (create_task, failed)
                (record {
                  all = all;
                  owned = heap-Owned s h all own alive;
                  listed = λ ne. absurd (ne refl);
                  alone = λ c ne. absurd (ne refl);
                }))
        | inr made ↦
            (let some_task : address ≢ null = (λ e. ground (arith, made, e)) in
              let absent =
                fresh-Absent (live s.heap) address all (laws.fresh size_of_task s.heap some_task)
                  own.in_use in
              let alive' = AllLive-kept (live h) (live h') all (laws.kept stack_size h) alive in
              elim (Bool-cases (stack == null)) [
                | inl failed ↦
                    rw (create_task, made, failed)
                      (record {
                        all = all;
                        owned =
                            heap-Owned s (slab.free address size_of_task h') all own
                              (freed address h' all absent alive');
                        listed = λ ne. absurd (ne refl);
                        alone = λ c ne. absurd (ne refl);
                      })
                | inr room ↦
                    rw (create_task, made, room)
                      (record {
                        all = address ∷ all;
                        owned =
                            link_task-Owned address stack entry_point stack_size
                              (record s { heap = h' }) all (heap-Owned s h' all own alive')
                              some_task absent
                              (laws.kept stack_size h address
                                (laws.taken size_of_task s.heap some_task));
                        listed = λ ne. member-first address all;
                        alone = λ c ne some.
                            member-Absent-ne address (s.current_task c) all (own.listed c some)
                              absent;
                      })
              ])
      ]
    where
      alive : AllLive (live (slab.alloc size_of_task s.heap).1) all
      alive =
          AllLive-kept (live s.heap) (live (slab.alloc size_of_task s.heap).1) all
            (laws.kept size_of_task s.heap) own.in_use

      freed :
          (address : ℕ) (h : H) (tasks : List ℕ)
          → Absent address tasks
          → AllLive (live h) tasks
          → AllLive (live (slab.free address size_of_task h)) tasks
      freed address h [] absent all_live = tt
      freed address h (p ∷ tasks) absent all_live = (
        laws.freed address size_of_task h p absent.0 all_live.0,
        freed address h tasks absent.1 all_live.1,
      )
