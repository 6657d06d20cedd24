-- ===== src/Sched/Turn.antt =====
-- The turns of the tasks under `schedule` (proc/sched.cpp).
use mathlib.Core.Path.{subst}
use synx.Prelude.{
  ℕ, ◌+◌, ◌≤◌, ◌<◌, ◌≡◌, ◌≢◌, arith, ap, Bool, true, Bool-cases, inl, inr, List, [], ◌∷◌, ◌++◌,
  length, ◌==◌, Chain, Absent, Distinct, member,
}
use synx.Sched.{Sched, null, schedule}
use synx.Sched.Round.{links}
use synx.Sched.Switch.{Scheduled, schedule-Scheduled}
use synx.Sched.Owners.{Owned}

-- Where the task stands in the list.
record Standing (p : ℕ) (all : List ℕ) : Type 0 where
  before : List ℕ
  after : List ℕ
  split : all ≡ before ++ (p ∷ after)
  none_before : Absent p before
  none_after : Absent p after
  counted : length after + length before < length all

member-Standing : (p : ℕ) (all : List ℕ) → Distinct all → member p all ≡ true → Standing p all
member-Standing p [] distinct h = absurd (cc)
member-Standing p (q ∷ all) distinct h = elim (Bool-cases (q == p)) [
  | inl same ↦
      (let at : q ≡ p = ground (arith, same) in
        record {
          before = [];
          after = all;
          split = ap (λ x. x ∷ all) at;
          none_before = tt;
          none_after = subst (λ x. Absent x all) at distinct.0;
          counted = omega arith;
        })
  | inr other ↦
      (let place = member-Standing p all distinct.1 (rw other at h) in
        let counted = place.counted in
        record {
          before = q ∷ place.before;
          after = place.after;
          split = ap (λ xs. q ∷ xs) place.split;
          none_before = ((λ e. ground (arith, other, e)), place.none_before);
          none_after = place.none_after;
          counted = omega arith;
        })
]

-- The current task with those before it and behind it, and what the call came to.
pub record Turn {H : Type 0} (fuel cpu : ℕ) (s : Sched H) (all : List ℕ) : Type 0 where
  pub before : List ℕ
  pub after : List ℕ
  pub split : all ≡ before ++ (s.current_task cpu ∷ after)
  pub result : Scheduled cpu s (after ++ before) (schedule fuel cpu s)

-- In a consistent state `schedule` on a processor with a task comes to an end after as many rounds as there
-- are tasks. It gives the processor to the first ready task behind the current one, and behind the last
-- task it goes on at the first; it stays if no other task is ready. A switch pauses the current task if
-- it was running, and changes no other task, no other processor and no link.
pub schedule-Turn :
    {H : Type 0} (live : H → ℕ → Bool) (fuel cpu : ℕ) (s : Sched H) (all : List ℕ)
    → Owned live s all
    → s.current_task cpu ≢ null
    → length all ≤ fuel
    → Turn fuel cpu s all
schedule-Turn live fuel cpu s all own some_current enough =
    let place =
      member-Standing (s.current_task cpu) all own.distinct (own.listed cpu some_current) in
    let counted = place.counted in
    record {
      before = place.before;
      after = place.after;
      split = place.split;
      result =
          schedule-Scheduled fuel cpu s place.before place.after
            (subst (Chain (links s.tasks) s.task_list_head) place.split own.chain) place.none_before
            place.none_after (omega arith);
    }
