-- ===== src/Sched/Interleaving.antt =====
-- What holds when many processors are in `schedule` (proc/sched.cpp) at once.
use mathlib.Core.Path.{subst}
use synx.Prelude.{
  ℕ, ◌≡◌, ◌≢◌, ◌⊎◌, arith, ap, sym, Bool, true, false, Bool-cases, inl, inr, List, ◌==◌,
  if◌then◌else◌, Chain, ended, linked, member, Chain-behind, member-first,
}
use synx.Sched.{Task, TaskState, null, ready, running, put, is_ready, is_running, with_state}
use synx.Sched.Round.{links}
use synx.Sched.Processors.{
  Place, outside, at_next, at_test, at_state, at_link, at_pause, at_ready, at_run, at_set, System,
  moved, null_read, access, advance,
}

-- What a processor holds are tasks of the list; a task that it goes on to may be the end of the list.
abbrev pub Where : (all : List ℕ) → Place → Type 0
Where all outside = Unit {0}
Where all (at_next current) = member current all ≡ true
Where all (at_test current next) =
    (member current all ≡ true) × ((next ≡ null) ⊎ (member next all ≡ true))
Where all (at_state current next) = (member current all ≡ true) × (member next all ≡ true)
Where all (at_link current next) = (member current all ≡ true) × (member next all ≡ true)
Where all (at_pause current next) = (member current all ≡ true) × (member next all ≡ true)
Where all (at_ready current next) = (member current all ≡ true) × (member next all ≡ true)
Where all (at_run current next) = (member current all ≡ true) × (member next all ≡ true)
Where all (at_set current next) = (member current all ≡ true) × (member next all ≡ true)

-- The tasks are what they were but for their states.
abbrev pub SameButState : (before after : ℕ → Task) → Type 0
SameButState before after = (p : ℕ) → after p ≡ record (before p) { state = (after p).state }

SameButState-with_state :
    (before after : ℕ → Task) (task : ℕ) (state : TaskState)
    → SameButState before after
    → SameButState before (with_state after task state)
unfolding with_state put
SameButState-with_state before after task state same p = elim (Bool-cases (task == p)) [
  | inl here ↦
      (let at : p ≡ task = ground (arith, here) in
        rw (here) (
          subst (λ x. record (after task) { state = state } ≡ record (before x) { state = state })
            (sym at) (ap (λ (t : Task). record t { state = state }) (same task))))
  | inr other ↦ rw other (same p)
]

-- The task behind one of the list is in the list, or there is none.
behind-listed :
    (f : ℕ → ℕ) (head q : ℕ) (all : List ℕ)
    → Chain f head all
    → member q all ≡ true
    → (f q ≡ null) ⊎ (member (f q) all ≡ true)
behind-listed f head q all chain listed =
    let (later, behind, sub) = Chain-behind f head q all chain listed in from (f q) later behind sub
  where
    from :
        (first : ℕ) (later : List ℕ)
        → Chain f first later
        → ((x : ℕ) → member x later ≡ true → member x all ≡ true)
        → (first ≡ null) ⊎ (member first all ≡ true)
    from first _ (ended _ e) sub = inl e
    from first _ (linked _ rest some chain) sub = inr (sub first (member-first first rest))

-- The first task of a list that has one.
head-listed :
    (f : ℕ → ℕ) (head q : ℕ) (all : List ℕ)
    → Chain f head all
    → member q all ≡ true
    → member head all ≡ true
head-listed f head q _ (ended _ e) listed = absurd (cc)
head-listed f head q _ (linked _ rest some chain) listed = member-first head rest

if-Where :
    (all : List ℕ) (b : Bool) (p q : Place)
    → Where all p
    → Where all q
    → Where all (if b then p else q)
if-Where all true p q left right = left
if-Where all false p q left right = right

module _ {H : Type 0} (start : System H) (all : List ℕ) where
  -- The list is the one of the start, with the tasks as they were but for their states; what runs on a
  -- processor, or will, is one of its tasks.
  pub record Inside (y : System H) : Type 0 where
    pub same : SameButState start.sched.tasks y.sched.tasks
    pub head_kept : y.sched.task_list_head ≡ start.sched.task_list_head
    pub listed :
        (c : ℕ) → y.sched.current_task c ≢ null → member (y.sched.current_task c) all ≡ true
    pub places : (c : ℕ) → Where all (y.place c)

  put-Where :
      (y : System H) (cpu : ℕ) (p : Place)
      → ((c : ℕ) → Where all (y.place c))
      → Where all p
      → (c : ℕ) → Where all (put y.place cpu p c)
  unfolding put
  put-Where y cpu p places good c = elim (Bool-cases (cpu == c)) [
    | inl here ↦ rw here good
    | inr other ↦ rw other (places c)
  ]

  -- A processor goes on, and memory is as before.
  goes-Inside :
      (y : System H) (cpu : ℕ) (p : Place)
      → Inside y
      → Where all p
      → Inside (record { sched = y.sched; place = put y.place cpu p })
  goes-Inside y cpu p inside good = record {
    same = inside.same;
    head_kept = inside.head_kept;
    listed = inside.listed;
    places = put-Where y cpu p inside.places good;
  }

  -- A processor goes on, and has set the state of a task.
  sets-Inside :
      (y : System H) (cpu : ℕ) (p : Place) (task : ℕ) (state : TaskState)
      → Inside y
      → Where all p
      → Inside (record {
        sched = record (y.sched) { tasks = with_state y.sched.tasks task state };
        place = put y.place cpu p;
      })
  sets-Inside y cpu p task state inside good = record {
    same = SameButState-with_state start.sched.tasks y.sched.tasks task state inside.same;
    head_kept = inside.head_kept;
    listed = inside.listed;
    places = put-Where y cpu p inside.places good;
  }

  -- A processor takes a task of the list.
  takes-Inside :
      (y : System H) (cpu task : ℕ)
      → Inside y
      → member task all ≡ true
      → Inside (record {
        sched = record (y.sched) { current_task = put y.sched.current_task cpu task };
        place = put y.place cpu outside;
      })
  unfolding put
  takes-Inside y cpu task inside in_list = record {
    same = inside.same;
    head_kept = inside.head_kept;
    listed = λ c some. (elim (Bool-cases (cpu == c)) [
      | inl here ↦ rw here in_list
      | inr other ↦ rw other (inside.listed c (rw other at some))
    ]);
    places = put-Where y cpu outside inside.places tt;
  }

  next-listed :
      (y : System H) (q : ℕ)
      → Chain (links start.sched.tasks) start.sched.task_list_head all
      → Inside y
      → member q all ≡ true
      → ((y.sched.tasks q).next ≡ null) ⊎ (member (y.sched.tasks q).next all ≡ true)
  next-listed y q chain inside in_list =
      subst (λ x. (x ≡ null) ⊎ (member x all ≡ true)) (sym (ap (λ t. t.next) (inside.same q)))
        (behind-listed (links start.sched.tasks) start.sched.task_list_head q all chain in_list)

  candidate-listed :
      (y : System H) (current next : ℕ)
      → Chain (links start.sched.tasks) start.sched.task_list_head all
      → Inside y
      → member current all ≡ true
      → (next ≡ null) ⊎ (member next all ≡ true)
      → member (if next == null then y.sched.task_list_head else next) all ≡ true
  candidate-listed y current next chain inside in_list behind = elim (Bool-cases (next == null)) [
    | inl end ↦ rw end (
        subst (λ x. member x all ≡ true) (sym inside.head_kept)
          (head-listed (links start.sched.tasks) start.sched.task_list_head current all chain
            in_list))
    | inr more ↦
        rw more (elim behind [ inl e ↦ absurd (ground (arith, more, e)) | inr listed ↦ listed ])
  ]

  pub access-Inside :
      (cpu : ℕ) (p : Place) (y z : System H)
      → Chain (links start.sched.tasks) start.sched.task_list_head all
      → Inside y
      → Where all p
      → access cpu p y ≡ moved z
      → Inside z
  unfolding access
  access-Inside cpu outside y z chain inside good h =
      elim (Bool-cases (y.sched.current_task cpu == null)) [
        | inl idle ↦ absurd (let h1 = rw idle at h in cc)
        | inr busy ↦ subst Inside (let h1 = rw busy at h in cc) (
            goes-Inside y cpu (at_next (y.sched.current_task cpu)) inside
              (inside.listed cpu (λ e. ground (arith, busy, e))))
      ]
  access-Inside cpu (at_next current) y z chain inside good h = subst Inside (cc) (
      goes-Inside y cpu (at_test current (y.sched.tasks current).next) inside
        (good, next-listed y current chain inside good))
  access-Inside cpu (at_test current next) y z chain inside good h =
      let candidate = if next == null then y.sched.task_list_head else next in
      let in_list = candidate-listed y current next chain inside good.0 good.1 in
      subst Inside (cc) (
        goes-Inside y cpu (if candidate == current then outside else at_state current candidate)
          inside
          (if-Where all (candidate == current) outside (at_state current candidate) tt
            (good.0, in_list)))
  access-Inside cpu (at_state current next) y z chain inside good h =
      let b = is_ready (y.sched.tasks next).state in
      elim (Bool-cases (next == null)) [
        | inl bad ↦ absurd (let h1 = rw bad at h in cc)
        | inr some ↦ subst Inside (let h1 = rw some at h in cc) (
            goes-Inside y cpu (if b then at_pause current next else at_link current next) inside
              (if-Where all b (at_pause current next) (at_link current next) good good))
      ]
  access-Inside cpu (at_link current next) y z chain inside good h = subst Inside (cc) (
      goes-Inside y cpu (at_test current (y.sched.tasks next).next) inside
        (good.0, next-listed y next chain inside good.1))
  access-Inside cpu (at_pause current next) y z chain inside good h =
      let b = is_running (y.sched.tasks current).state in
      subst Inside (cc) (
        goes-Inside y cpu (if b then at_ready current next else at_run current next) inside
          (if-Where all b (at_ready current next) (at_run current next) good good))
  access-Inside cpu (at_ready current next) y z chain inside good h =
      subst Inside (cc) (sets-Inside y cpu (at_run current next) current ready inside good)
  access-Inside cpu (at_run current next) y z chain inside good h =
      subst Inside (cc) (sets-Inside y cpu (at_set current next) next running inside good)
  access-Inside cpu (at_set current next) y z chain inside good h =
      subst Inside (cc) (takes-Inside y cpu next inside good.1)

  -- At the start no processor is in `schedule`, and what runs are tasks of the list.
  pub record Quiet : Type 0 where
    pub chain : Chain (links start.sched.tasks) start.sched.task_list_head all
    pub nobody_inside : (c : ℕ) → start.place c ≡ outside
    pub listed :
        (c : ℕ) → start.sched.current_task c ≢ null → member (start.sched.current_task c) all ≡ true

  pub record Safe (y : System H) : Type 0 where
    pub inside : Inside y
    pub no_null_read : (cpu : ℕ) → advance cpu y ≢ null_read
