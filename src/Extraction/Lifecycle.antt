-- ===== src/Extraction/Lifecycle.antt =====
-- The life of an extraction task, as a relation between what the collection holds for one archive
-- before and after one event. It is stated without the filters and updates of the repository.
use mathlib.Core.Path.{subst}
use memory_system.Shared.{
  ℕ, ◌+◌, ◌≤◌, ◌≡◌, refl, sym, ◌⊎◌, inl, inr, ◌≢◌, String, Bool, Option, none, some, arith,
  if◌then◌else◌,
}
use memory_system.Extraction.Task.{Task, Status, pending, processing, completed, failed, LastError}

pub data Step (o o' : Option Task) : Type 0 where
  create :
      (id a u : String) (now : ℕ)
      → o ≡ none
      → o'
        ≡ some (record {
          task_id = id;
          archive_id = a;
          user_id = u;
          status = pending;
          attempt_count = 0;
          extraction_result = none;
          last_error = none;
          created_time = now;
          updated_time = now;
          completed_time = none;
        })
      → Step o o'
  claim :
      (t : Task) (now : ℕ)
      → o ≡ some t
      → t.status ≡ pending
      → o'
        ≡ some (record t {
          status = processing;
          attempt_count = t.attempt_count + 1;
          last_error = none;
          updated_time = now;
        })
      → Step o o'
  redeliver :
      (t : Task) (now : ℕ)
      → o ≡ some t
      → t.status ≡ processing
      → o' ≡ some (record t { attempt_count = t.attempt_count + 1; updated_time = now })
      → Step o o'
  save_result :
      (t : Task) (result : String) (now : ℕ)
      → o ≡ some t
      → t.status ≡ processing
      → o' ≡ some (record t { extraction_result = some result; updated_time = now })
      → Step o o'
  complete :
      (t : Task) (now : ℕ)
      → o ≡ some t
      → t.status ≡ processing
      → o'
        ≡ some (record t {
          status = completed;
          last_error = none;
          updated_time = now;
          completed_time = some now;
        })
      → Step o o'
  fail :
      (t : Task) (e : LastError) (now : ℕ)
      → o ≡ some t
      → t.status ≡ processing
      → o' ≡ some (record t { status = failed; last_error = some e; updated_time = now })
      → Step o o'
  reset :
      (t : Task) (clear : Bool) (now : ℕ)
      → o ≡ some t
      → t.status ≡ failed
      → o'
        ≡ some (record t {
          status = pending;
          extraction_result = if clear then none else t.extraction_result;
          last_error = none;
          updated_time = now;
        })
      → Step o o'
  give_up :
      (t : Task) (e : LastError) (now : ℕ)
      → o ≡ some t
      → (t.status ≡ pending) ⊎ (t.status ≡ failed)
      → o' ≡ some (record t { status = failed; last_error = some e; updated_time = now })
      → Step o o'

pub data Reach (o : Option Task) : Option Task → Type 0 where
  here : Reach o o
  next : {p q : Option Task} → Reach o p → Step p q → Reach o q

pub Reach-trans : {o p q : Option Task} → Reach o p → Reach p q → Reach o q
Reach-trans r here = r
Reach-trans r (next s t) = next (Reach-trans r s) t

-- What a stored task has in each status: a time of completion exactly if it is completed, an error
-- exactly if it failed, and a claimed task has been attempted.
abbrev pub Fits : Status → ℕ → Option LastError → Option ℕ → Type 0
Fits pending n e c = (e ≡ none) × (c ≡ none)
Fits processing n e c = (e ≡ none) × (c ≡ none) × (1 ≤ n)
Fits completed n e c = (e ≡ none) × (c ≢ none) × (1 ≤ n)
Fits failed n e c = (e ≢ none) × (c ≡ none)

abbrev pub IsWellFormed : Task → Type 0
IsWellFormed t = Fits t.status t.attempt_count t.last_error t.completed_time

abbrev pub Holds : (Task → Type 0) → Option Task → Type 0
Holds P none = Unit
Holds P (some t) = P t

some≢none {ℓ} : {A : Type ℓ} (a : A) → some a ≢ none
some≢none a e = cc

Fits-at :
    {o : Option Task}
    → Holds IsWellFormed o
    → (t : Task) → o ≡ some t
    → (s : Status) → t.status ≡ s
    → Fits s t.attempt_count t.last_error t.completed_time
Fits-at h t e s k =
    subst (λ x. Fits x t.attempt_count t.last_error t.completed_time) k
      (subst (Holds IsWellFormed) e h)

pub Step-IsWellFormed :
    {o o' : Option Task} → Step o o' → Holds IsWellFormed o → Holds IsWellFormed o'
Step-IsWellFormed (create id a u now e e') h = subst (Holds IsWellFormed) (sym e') (refl, refl)
Step-IsWellFormed (claim t now e k e') h =
    let f = Fits-at h t e pending k in subst (Holds IsWellFormed) (sym e') (refl, f.1, omega arith)
Step-IsWellFormed (redeliver t now e k e') h =
    let f = Fits-at h t e processing k in
    subst (Holds IsWellFormed) (sym e') (rw k (f.0, f.1, omega arith))
Step-IsWellFormed (save_result t r now e k e') h =
    subst (Holds IsWellFormed) (sym e') (subst (Holds IsWellFormed) e h)
Step-IsWellFormed (complete t now e k e') h =
    let f = Fits-at h t e processing k in
    subst (Holds IsWellFormed) (sym e') (refl, some≢none now, f.2)
Step-IsWellFormed (fail t x now e k e') h =
    let f = Fits-at h t e processing k in subst (Holds IsWellFormed) (sym e') (some≢none x, f.1)
Step-IsWellFormed (reset t clear now e k e') h =
    let f = Fits-at h t e failed k in subst (Holds IsWellFormed) (sym e') (refl, f.1)
Step-IsWellFormed (give_up t x now e (inl k) e') h =
    let f = Fits-at h t e pending k in subst (Holds IsWellFormed) (sym e') (some≢none x, f.1)
Step-IsWellFormed (give_up t x now e (inr k) e') h =
    let f = Fits-at h t e failed k in subst (Holds IsWellFormed) (sym e') (some≢none x, f.1)

pub Reach-IsWellFormed :
    {o o' : Option Task} → Reach o o' → Holds IsWellFormed o → Holds IsWellFormed o'
Reach-IsWellFormed here h = h
Reach-IsWellFormed (next r s) h = Step-IsWellFormed s (Reach-IsWellFormed r h)

-- A completed task never changes again.
pub Step-completed :
    (t : Task) {o o' : Option Task} → Step o o' → o ≡ some t → t.status ≡ completed → o' ≡ some t
Step-completed t (create id a u now e e') h c = cc
Step-completed t (claim u now e k e') h c = ground arith
Step-completed t (redeliver u now e k e') h c = ground arith
Step-completed t (save_result u r now e k e') h c = ground arith
Step-completed t (complete u now e k e') h c = ground arith
Step-completed t (fail u x now e k e') h c = ground arith
Step-completed t (reset u x now e k e') h c = ground arith
Step-completed t (give_up u x now e k e') h c = ground arith

pub Reach-completed :
    (t : Task) {o o' : Option Task} → Reach o o' → o ≡ some t → t.status ≡ completed → o' ≡ some t
Reach-completed t here h c = h
Reach-completed t (next r s) h c = Step-completed t s (Reach-completed t r h c) c

-- What no event changes of a stored task, and that its attempts are only counted up.
pub record SameTask (t t' : Task) : Type 0 where
  pub same_id : t'.task_id ≡ t.task_id
  pub same_archive : t'.archive_id ≡ t.archive_id
  pub same_user : t'.user_id ≡ t.user_id
  pub same_created : t'.created_time ≡ t.created_time
  pub more_attempts : t.attempt_count ≤ t'.attempt_count

abbrev pub Continues : Task → Option Task → Type 0
Continues t none = ⊥
Continues t (some t') = SameTask t t'

Step-Continues : (t : Task) {o o' : Option Task} → Step o o' → Continues t o → Continues t o'
Step-Continues t (create id a u now e e') h = absurd (subst (Continues t) e h)
Step-Continues t (claim u now e k e') h =
    let f = subst (Continues t) e h in subst (Continues t) (sym e') (ground arith)
Step-Continues t (redeliver u now e k e') h =
    let f = subst (Continues t) e h in subst (Continues t) (sym e') (ground arith)
Step-Continues t (save_result u r now e k e') h =
    let f = subst (Continues t) e h in subst (Continues t) (sym e') (ground arith)
Step-Continues t (complete u now e k e') h =
    let f = subst (Continues t) e h in subst (Continues t) (sym e') (ground arith)
Step-Continues t (fail u x now e k e') h =
    let f = subst (Continues t) e h in subst (Continues t) (sym e') (ground arith)
Step-Continues t (reset u x now e k e') h =
    let f = subst (Continues t) e h in subst (Continues t) (sym e') (ground arith)
Step-Continues t (give_up u x now e k e') h =
    let f = subst (Continues t) e h in subst (Continues t) (sym e') (ground arith)

pub Reach-Continues : (t : Task) {o o' : Option Task} → Reach o o' → Continues t o → Continues t o'
Reach-Continues t here h = h
Reach-Continues t (next r s) h = Step-Continues t s (Reach-Continues t r h)

pub SameTask-refl : (t : Task) → SameTask t t
SameTask-refl t = ground arith

pub Continues-task :
    (t : Task) (o : Option Task) → Continues t o → (t' : Task) × (o ≡ some t') × SameTask t t'
Continues-task t none h = absurd h
Continues-task t (some t') h = (t', refl, h)
