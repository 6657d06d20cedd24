-- ===== src/Sched/Round.antt =====
-- Which task `schedule` (proc/sched.cpp) gives the processor to.
use mathlib.Core.Path.{subst}
use synx.Prelude.{
  ℕ, zero, suc, ◌+◌, ◌<◌, ◌≡◌, ◌≢◌, refl, arith, sym, true, false, Bool-cases, inl, inr, List, [],
  ◌∷◌, ◌++◌, length, ◌==◌, Chain, ended, linked, Absent, Chain-head,
}
use synx.Sched.{Task, null, is_ready, Choice, stay, run, next_loop}

abbrev pub links : (ℕ → Task) → ℕ → ℕ
links tasks p = (tasks p).next

-- The choice is the first ready one of the tasks, and to stay if none of them is ready.
pub data Round (tasks : ℕ → Task) : List ℕ → Choice → Type 0 where
  nobody : Round tasks [] stay
  pick :
      (p : ℕ) (others : List ℕ) → is_ready (tasks p).state ≡ true → Round tasks (p ∷ others) (run p)
  skip :
      (p : ℕ) (others : List ℕ) (c : Choice)
      → is_ready (tasks p).state ≡ false
      → Round tasks others c
      → Round tasks (p ∷ others) c

-- One round of the loop at a task that is not the current one.
next_loop-Round :
    (tasks : ℕ → Task) (fuel head current q : ℕ) (others : List ℕ)
    → q ≢ current
    → q ≢ null
    → Round tasks others (next_loop fuel tasks head current (links tasks q))
    → Round tasks (q ∷ others) (next_loop (suc fuel) tasks head current q)
unfolding next_loop
next_loop-Round tasks fuel head current q others other some_q rest =
    let n1 : (q == null) ≡ false = ground arith in
    let n2 : (q == current) ≡ false = ground arith in
    elim (Bool-cases (is_ready (tasks q).state)) [
      | inl yes_ready ↦ rw (next_loop, n1, n2, n1, yes_ready) (pick q others yes_ready)
      | inr not_ready ↦
          rw (next_loop, n1, n2, n1, not_ready)
            (skip q others (next_loop fuel tasks head current (links tasks q)) not_ready rest)
    ]

-- The walk over the tasks before the current one.
before-Round :
    (tasks : ℕ → Task) (fuel head current p : ℕ) (before after : List ℕ)
    → Absent current before
    → length before < fuel
    → Chain (links tasks) p (before ++ (current ∷ after))
    → Round tasks before (next_loop fuel tasks head current p)
unfolding next_loop
before-Round tasks zero head current p before after absent enough chain = absurd (omega arith)
before-Round tasks (suc fuel) head current p [] after absent enough chain =
    let (at, some_p, rest) = Chain-head (links tasks) p current after chain in
    let n1 : (p == null) ≡ false = ground arith in
    let n2 : (p == current) ≡ true = ground arith in rw (next_loop, n1, n2) nobody
before-Round tasks (suc fuel) head current p (q ∷ before) after absent enough chain =
    let (at, some_p, rest) = Chain-head (links tasks) p q (before ++ (current ∷ after)) chain in
    subst (λ x. Round tasks (q ∷ before) (next_loop (suc fuel) tasks head current x)) (sym at)
      (next_loop-Round tasks fuel head current q before absent.0 some_p (
        before-Round tasks fuel head current (links tasks q) before after absent.1 (omega arith)
          rest))

-- Behind the last task the walk goes on at the first one.
pub next_loop-head :
    (tasks : ℕ → Task) (fuel head current p : ℕ)
    → p ≡ null
    → head ≢ null
    → next_loop (suc fuel) tasks head current p ≡ next_loop (suc fuel) tasks head current head
unfolding next_loop
next_loop-head tasks fuel head current p at some_head =
    let n1 : (p == null) ≡ true = ground arith in
    let n2 : (head == null) ≡ false = ground arith in rw (next_loop, n1, n2, n2) refl

-- The walk over the tasks behind the current one, and then over those before it.
pub after-Round :
    (tasks : ℕ → Task) (fuel head current p : ℕ) (before after later : List ℕ)
    → Absent current before
    → Absent current later
    → length later + length before < fuel
    → head ≢ null
    → Chain (links tasks) head (before ++ (current ∷ after))
    → Chain (links tasks) p later
    → Round tasks (later ++ before) (next_loop fuel tasks head current p)
after-Round tasks zero head current p before after later a1 a2 enough some_head chain rest =
    absurd (omega arith)
after-Round tasks (suc fuel) head current p before after _ a1 a2 enough some_head chain
      (ended _ at) =
    subst (Round tasks before) (sym (next_loop-head tasks fuel head current p at some_head)) (
      before-Round tasks (suc fuel) head current head before after a1
        (let e = enough in omega arith) chain)
after-Round tasks (suc fuel) head current p before after _ a1 a2 enough some_head chain
      (linked _ later some_p rest) =
    next_loop-Round tasks fuel head current p (later ++ before) a2.0 some_p (
      after-Round tasks fuel head current (links tasks p) before after later a1 a2.1 (omega arith)
        some_head chain rest)
