-- ===== src/Stm/Close/Histories.antt =====
-- What a history of calls must satisfy, and how a call is added to one.
use memory_system.Shared.{ℕ, ◌≡◌, ◌⊎◌, inl, inr, String, true, Option, some, List, [], ◌∷◌, All}
use memory_system.Shared.Exec.{Result, ok, err}
use memory_system.Shared.Triples.{Runs, OnEnd}
use memory_system.Stm.Meta.{WorkingMemoryMeta}
use memory_system.Stm.Settings.{ContextSettings}
use memory_system.Stm.Plan.{CloseArchiveBatch, ClosePlan, build_close_plan}
use memory_system.Stm.Close.Calls.{
  read_success, created, ContextArchiveResult, ContextArchiveCreateInput, Effect, acquire_lock,
  enter_closing, get_meta, read_context, create_archive, revert_active, publish, terminal_delete,
  release_lock, SessionCloseRevertStatus, SessionCloseTerminalStatus, CloseWorld, perform, answer,
  Fault, WorkingMemorySnapshot,
}

abbrev pub Has : Effect → List Effect → Type 0
Has e [] = ⊥
Has e (x ∷ h) = (x ≡ e) ⊎ Has e h

abbrev pub NotStored : Effect → Type 0
NotStored (create_archive i (ok r)) = ⊥
NotStored e = Unit

abbrev pub NotLock : Effect → Type 0
NotLock (acquire_lock n r) = ⊥
NotLock (release_lock t r) = ⊥
NotLock e = Unit

-- No archive had been stored before any reverting of the session to active.
abbrev pub SafeReverts : List Effect → Type 0
SafeReverts [] = Unit
SafeReverts (revert_active n r ∷ h) = All NotStored h × SafeReverts h
SafeReverts (e ∷ h) = SafeReverts h

abbrev pub input_of : ClosePlan → CloseArchiveBatch → ContextArchiveCreateInput
input_of plan b = record {
  user_id = plan.user_id;
  session_id = plan.session_id;
  archive_batch_key = b.archive_batch_key;
  base_compression_version = plan.base_compression_version;
  messages = b.messages;
}

-- The messages of the batch are in an archive: the pending one, one that was created, or one that
-- was found under the same key with the version of the plan.
abbrev pub IsStored : ClosePlan → List Effect → CloseArchiveBatch → Type 0
IsStored plan h b =
    (b.is_pending_reuse ≡ true)
    ⊎ ((r : ContextArchiveResult) × Has (create_archive (input_of plan b) (ok r)) h
        × ((r.outcome ≡ created) ⊎ (r.stored_version ≡ plan.base_compression_version)))

-- The metadata and the snapshot were read.
abbrev pub IsSeen : WorkingMemoryMeta → WorkingMemorySnapshot → List Effect → Type 0
IsSeen meta s h =
    Has (get_meta (ok (some meta))) h
    × Has (read_context (ok (record { status = read_success; snapshot = some s }))) h

-- A plan was built from what was read, and all of its batches are stored.
abbrev pub IsArchived : ContextSettings → List Effect → Type 0
IsArchived context h =
    (meta : WorkingMemoryMeta) × (s : WorkingMemorySnapshot) × (plan : ClosePlan) × IsSeen meta s h
    × (build_close_plan meta s.messages context.max_archive_estimated_tokens ≡ ok plan)
    × All (IsStored plan h) plan.batches

-- Everything had been archived before any deletion of the session.
abbrev pub SafeDeletes : ContextSettings → List Effect → Type 0
SafeDeletes context [] = Unit
SafeDeletes context (terminal_delete r ∷ h) = IsArchived context h × SafeDeletes context h
SafeDeletes context (e ∷ h) = SafeDeletes context h

-- The first call took the lock, and no call has taken or given it back since.
abbrev pub IsHeld : ℕ → String → List Effect → Type 0
IsHeld ttl token [] = ⊥
IsHeld ttl token (e ∷ []) = e ≡ acquire_lock ttl (ok (some token))
IsHeld ttl token (e ∷ x ∷ h) = NotLock e × IsHeld ttl token (x ∷ h)

abbrev pub IsNotGiven : Result Fault (Option String) → Type 0
IsNotGiven (ok (some token)) = ⊥
IsNotGiven r = Unit

-- The lock was not given and nothing else was called, or the last call gave it back.
abbrev pub IsBracketed : ℕ → List Effect → Type 0
IsBracketed ttl (release_lock token r ∷ h) = IsHeld ttl token h
IsBracketed ttl (e ∷ []) =
    (r : Result Fault (Option String)) × (e ≡ acquire_lock ttl r) × IsNotGiven r
IsBracketed ttl h = ⊥

IsHeld-push :
    (ttl : ℕ) (token : String) (e : Effect) (h : List Effect)
    → NotLock e
    → IsHeld ttl token h
    → IsHeld ttl token (e ∷ h)
IsHeld-push ttl token e [] n x = absurd x
IsHeld-push ttl token e (y ∷ h) n x = (n, x)

-- Calls that neither lock, delete, revert nor store.
abbrev pub IsPlain : Effect → Type 0
IsPlain (enter_closing n r) = Unit
IsPlain (get_meta r) = Unit
IsPlain (read_context r) = Unit
IsPlain (create_archive i (err f)) = Unit
IsPlain (publish e r) = Unit
IsPlain e = ⊥

abbrev pub Base : ContextSettings → ℕ → String → List Effect → Type 0
Base context ttl token h = SafeDeletes context h × SafeReverts h × IsHeld ttl token h

pub Base-plain :
    (context : ContextSettings) (ttl : ℕ) (token : String) (e : Effect) (h : List Effect)
    → IsPlain e
    → Base context ttl token h
    → Base context ttl token (e ∷ h)
Base-plain context ttl token (enter_closing n r) h p (d, v, l) = (d, v, IsHeld-push _ _ _ h tt l)
Base-plain context ttl token (get_meta r) h p (d, v, l) = (d, v, IsHeld-push _ _ _ h tt l)
Base-plain context ttl token (read_context r) h p (d, v, l) = (d, v, IsHeld-push _ _ _ h tt l)
Base-plain context ttl token (create_archive i r) h p (d, v, l) = (d, v, IsHeld-push _ _ _ h tt l)
Base-plain context ttl token (publish x r) h p (d, v, l) = (d, v, IsHeld-push _ _ _ h tt l)
Base-plain context ttl token (acquire_lock n r) h p b = absurd p
Base-plain context ttl token (revert_active n r) h p b = absurd p
Base-plain context ttl token (terminal_delete r) h p b = absurd p
Base-plain context ttl token (release_lock t r) h p b = absurd p

pub Base-create :
    (context : ContextSettings) (ttl : ℕ) (token : String) (i : ContextArchiveCreateInput)
    (r : Result Fault ContextArchiveResult) (h : List Effect)
    → Base context ttl token h
    → Base context ttl token (create_archive i r ∷ h)
Base-create context ttl token i r h (d, v, l) = (d, v, IsHeld-push _ _ _ h tt l)

pub Base-revert :
    (context : ContextSettings) (ttl : ℕ) (token : String) (h : List Effect) (n : ℕ)
    (r : Result Fault SessionCloseRevertStatus)
    → All NotStored h
    → Base context ttl token h
    → Base context ttl token (revert_active n r ∷ h)
Base-revert context ttl token h n r a (d, v, l) = (d, (a, v), IsHeld-push _ _ _ h tt l)

pub Base-delete :
    (context : ContextSettings) (ttl : ℕ) (token : String) (h : List Effect)
    (r : Result Fault SessionCloseTerminalStatus)
    → IsArchived context h
    → Base context ttl token h
    → Base context ttl token (terminal_delete r ∷ h)
Base-delete context ttl token h r a (d, v, l) = ((a, d), v, IsHeld-push _ _ _ h tt l)

pub IsStored-push :
    (plan : ClosePlan) (e : Effect) (h : List Effect) (bs : List CloseArchiveBatch)
    → All (IsStored plan h) bs
    → All (IsStored plan (e ∷ h)) bs
IsStored-push plan e h [] a = tt
IsStored-push plan e h (b ∷ bs) (inl p, a) = (inl p, IsStored-push plan e h bs a)
IsStored-push plan e h (b ∷ bs) (inr (r, x, o), a) =
    (inr (r, inr x, o), IsStored-push plan e h bs a)

pub IsArchived-push :
    (context : ContextSettings) (e : Effect) (h : List Effect)
    → IsArchived context h
    → IsArchived context (e ∷ h)
IsArchived-push context e h (meta, s, plan, (m, x), p, a) =
    (meta, s, plan, (inr m, inr x), p, IsStored-push plan e h plan.batches a)

-- How a call runs: each possible answer leads where it should.
abbrev pub OnReply :
    {A : Type 0}
    → (A → CloseWorld → Type 0)
    → (CloseWorld → Type 0)
    → Result Fault A
    → CloseWorld
    → Type 0
OnReply Q X (ok a) w = Q a w
OnReply Q X (err f) w = X w

abbrev pub push : Effect → CloseWorld → CloseWorld
push e w = record w { history = e ∷ w.history }

answer-OnEnd :
    {A : Type 0} (Q : A → CloseWorld → Type 0) (X : CloseWorld → Type 0) (w : CloseWorld)
    (e : Effect) (r : Result Fault A)
    → OnReply Q X r (push e w)
    → OnEnd Q X (answer w e r).0 (answer w e r).1
answer-OnEnd Q X w e (ok a) h = h
answer-OnEnd Q X w e (err f) h = h

pub perform-Runs :
    {A : Type 0} {P : CloseWorld → Type 0} (Q : A → CloseWorld → Type 0) (X : CloseWorld → Type 0)
    (reply : List Effect → Result Fault A) (entry : Result Fault A → Effect)
    → ((w : CloseWorld) (r : Result Fault A) → P w → OnReply Q X r (push (entry r) w))
    → Runs P Q X (perform reply entry)
unfolding perform
perform-Runs Q X reply entry h = record {
  at = λ w p.
      answer-OnEnd Q X w (entry (reply w.history)) (reply w.history) (h w (reply w.history) p);
}
