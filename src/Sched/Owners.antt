-- ===== src/Sched/Owners.antt =====
-- Which processor runs which task (proc/sched.cpp): the invariant of the scheduler.
use mathlib.Core.Path.{subst}
use synx.Prelude.{
  ℕ, ◌≡◌, ◌≢◌, arith, ap, sym, ◌∙◌, Bool, true, false, Bool-cases, inl, inr, ◌⊎◌, List, [], ◌∷◌,
  ◌==◌, Chain, Absent, Distinct, member, Chain-frame, Chain-Absent,
}
use synx.Sched.{running, Allocator, Sched, null, is_ready}
use synx.Sched.Round.{links}

-- What the scheduler relies on in the allocator. `live` tells the addresses that are in use.
pub record Laws {H : Type 0} (slab : Allocator H) (live : H → ℕ → Bool) : Type 0 where
  pub fresh :
      (size : ℕ) (h : H) → (slab.alloc size h).0 ≢ null → live h (slab.alloc size h).0 ≡ false
  pub taken :
      (size : ℕ) (h : H)
      → (slab.alloc size h).0 ≢ null
      → live (slab.alloc size h).1 (slab.alloc size h).0 ≡ true
  pub kept : (size : ℕ) (h : H) (p : ℕ) → live h p ≡ true → live (slab.alloc size h).1 p ≡ true
  pub freed :
      (address size : ℕ) (h : H) (p : ℕ)
      → p ≢ address
      → live h p ≡ true
      → live (slab.free address size h) p ≡ true

abbrev pub AllLive : (ℕ → Bool) → List ℕ → Type 0
AllLive live [] = Unit {0}
AllLive live (p ∷ all) = (live p ≡ true) × AllLive live all

-- All tasks are linked once and hold memory; what runs on a processor is one of them, is not ready, and
-- runs on no other processor.
pub record Owned {H : Type 0} (live : H → ℕ → Bool) (s : Sched H) (all : List ℕ) : Type 0 where
  pub chain : Chain (links s.tasks) s.task_list_head all
  pub distinct : Distinct all
  pub in_use : AllLive (live s.heap) all
  pub listed : (c : ℕ) → s.current_task c ≢ null → member (s.current_task c) all ≡ true
  pub busy : (c : ℕ) → s.current_task c ≢ null → is_ready (s.tasks (s.current_task c)).state ≡ false
  pub apart : (c d : ℕ) → c ≢ d → s.current_task c ≢ null → s.current_task c ≢ s.current_task d

pub AllLive-kept :
    (live live' : ℕ → Bool) (all : List ℕ)
    → ((p : ℕ) → live p ≡ true → live' p ≡ true)
    → AllLive live all
    → AllLive live' all
AllLive-kept live live' [] h all_live = tt
AllLive-kept live live' (p ∷ all) h all_live =
    (h p all_live.0, AllLive-kept live live' all h all_live.1)

-- What is not in use is not in the list.
pub fresh-Absent :
    (live : ℕ → Bool) (p : ℕ) (all : List ℕ) → live p ≡ false → AllLive live all → Absent p all
fresh-Absent live p [] out all_live = tt
fresh-Absent live p (q ∷ all) out all_live =
    ((λ e. let h = all_live.0 in let e1 = ap live e in cc), fresh-Absent live p all out all_live.1)

-- A task of the list that runs nowhere else becomes the running one of a processor.
pub record Handover {H : Type 0} (cpu next : ℕ) (s s' : Sched H) : Type 0 where
  pub now : s'.current_task cpu ≡ next
  pub elsewhere : (c : ℕ) → c ≢ cpu → s'.current_task c ≡ s.current_task c
  pub runs : (s'.tasks next).state ≡ running
  pub links_kept : (p : ℕ) → links s'.tasks p ≡ links s.tasks p
  pub head_kept : s'.task_list_head ≡ s.task_list_head
  pub heap_kept : s'.heap ≡ s.heap
  pub some_next : next ≢ null
  pub alone : (c : ℕ) → c ≢ cpu → s.current_task c ≢ null → s.current_task c ≢ next
  pub rest :
      (c : ℕ)
      → c ≢ cpu
      → s.current_task c ≢ null
      → s'.tasks (s.current_task c) ≡ s.tasks (s.current_task c)

module _ {H : Type 0} (live : H → ℕ → Bool) where
  pub Handover-Owned :
      (cpu next : ℕ) (s s' : Sched H) (all : List ℕ)
      → Owned live s all
      → member next all ≡ true
      → Handover cpu next s s'
      → Owned live s' all
  unfolding is_ready
  Handover-Owned cpu next s s' all own listed over = record {
    chain =
        subst (λ p. Chain (links s'.tasks) p all) (sym over.head_kept)
          (Chain-frame (links s.tasks) (links s'.tasks) 0 s.task_list_head all
            (λ p ne. over.links_kept p)
            (Chain-Absent (links s.tasks) s.task_list_head all own.chain) own.chain);
    distinct = own.distinct;
    in_use = subst (λ h. AllLive (live h) all) (sym over.heap_kept) own.in_use;
    listed = λ c h. (elim (here c) [
      | inl (same, at) ↦ subst (λ q. member q all ≡ true) (sym at) listed
      | inr (ne, at) ↦ subst (λ q. member q all ≡ true) (sym at) (own.listed c (λ e. h (at ∙ e)))
    ]);
    busy = λ c h. (elim (here c) [
      | inl (same, at) ↦ ap (λ q. is_ready (s'.tasks q).state) at ∙ ap is_ready over.runs
      | inr (ne, at) ↦
          (let some : s.current_task c ≢ null = (λ e. h (at ∙ e)) in
            ap (λ q. is_ready (s'.tasks q).state) at
            ∙ ap (λ t. is_ready t.state) (over.rest c ne some)
            ∙ own.busy c some)
    ]);
    apart = λ c d ne h e. (elim (here c) [
      | inl (same, at) ↦ (elim (here d) [
        | inl (same_d, at_d) ↦ ne (same ∙ sym same_d)
        | inr (ne_d, at_d) ↦
            over.alone d ne_d (λ e0. over.some_next (sym at ∙ e ∙ at_d ∙ e0))
              (sym at_d ∙ sym e ∙ at)
      ])
      | inr (ne_c, at) ↦
          (let some : s.current_task c ≢ null = (λ e0. h (at ∙ e0)) in
            (elim (here d) [
              | inl (same_d, at_d) ↦ over.alone c ne_c some (sym at ∙ e ∙ at_d)
              | inr (ne_d, at_d) ↦ own.apart c d ne some (sym at ∙ e ∙ at_d)
            ]))
    ]);
  }
    where
      here :
          (c : ℕ)
          → ((c ≡ cpu) × (s'.current_task c ≡ next))
            ⊎ ((c ≢ cpu) × (s'.current_task c ≡ s.current_task c))
      here c = elim (Bool-cases (c == cpu)) [
        | inl same ↦
            (let at : c ≡ cpu = ground (arith, same) in inl (at, ap s'.current_task at ∙ over.now))
        | inr other ↦
            (let ne : c ≢ cpu = (λ e. ground (arith, other, e)) in inr (ne, over.elsewhere c ne))
      ]
