-- ===== src/Stm/Close/Stages.antt =====
-- The stages of `close_session`, each with what holds of the history when it returns and when it
-- raises.
use memory_system.Shared.{
  ℕ, ◌≡◌, ◌==◌, ◌⊎◌, inl, inr, refl, ap, String, Bool, true, false, ◌||◌, Option, none, some, List,
  [], ◌∷◌, ◌++◌, All, if◌then◌else◌, arith,
}
use memory_system.Shared.Exec.{Result, ok, err, pure, raise, ◌>>=◌, ◌>>◌}
use memory_system.Shared.Triples.{
  Runs, Runs-pure, Runs-weaken, Runs-raise, Runs-gets, Runs-catch, Runs-bind,
}
use memory_system.Stm.Meta.{WorkingMemoryMeta}
use memory_system.Stm.Settings.{ContextSettings}
use memory_system.Stm.Plan.{CloseArchiveBatch, ClosePlan}
use memory_system.Stm.Close.Calls.{
  created, reused, ContextArchiveOutcome, ContextArchiveResult, create_archive, revert_active,
  CloseWorld, perform, Fault, WorkingMemorySnapshot, Services, base_compression_version_mismatch,
  missing_archive_id,
}
use memory_system.Stm.Close.{
  maybe_revert_active, confirm, create_batch, reuse_pending, archive_batch, archive_batches,
  mark_persisted,
}
use memory_system.Stm.Close.Histories.{
  Has, NotStored, IsStored, IsSeen, Base, Base-create, Base-revert, IsStored-push, OnReply, push,
  perform-Runs, input_of,
}

-- The progress record knows of every archive that was stored.
abbrev pub IsTracked : CloseWorld → Type 0
IsTracked w = (w.progress.close_new_archive_persisted ≡ true) ⊎ All NotStored w.history

pub both_replies :
    {A : Type 0} (X : CloseWorld → Type 0) (r : Result Fault A) (w : CloseWorld)
    → X w
    → OnReply (λ _. X) X r w
both_replies X (ok a) w x = x
both_replies X (err f) w x = x

unstored :
    (w s : CloseWorld)
    → (w.progress.close_new_archive_persisted || w.progress.all_archives_confirmed) ≡ false
    → w ≡ s
    → IsTracked s
    → All NotStored s.history
unstored w s e q (inl t) =
    absurd (ground (arith, e, t, ap (λ x. x.progress.close_new_archive_persisted) q))
unstored w s e q (inr a) = a

module _ (services : Services) (context : ContextSettings) (user_id session_id : String) (ttl : ℕ)
    (token : String) where
  abbrev pub Safe : CloseWorld → Type 0
  Safe w = Base context ttl token w.history

  abbrev pub Tracked : CloseWorld → Type 0
  Tracked w = Safe w × IsTracked w

  reverting-Runs :
      (w : CloseWorld) (b : Bool)
      → (w.progress.close_new_archive_persisted || w.progress.all_archives_confirmed) ≡ b
      → Runs
          (λ s. Tracked s × (w ≡ s))
          (λ _. Safe)
          Safe
          (if b
            then pure true
            else perform
                (λ h. services.revert h (services.clock w.history))
                (revert_active (services.clock w.history))
              >> pure true)
  reverting-Runs w true e = Runs-pure true (λ s p. p.0.0)
  reverting-Runs w false e =
      Runs-bind (λ _. Safe) _ _ _
        (perform-Runs (λ _. Safe) Safe _ _
          (λ s r p. both_replies Safe r (push (revert_active (services.clock w.history) r) s) (
            Base-revert context ttl token s.history (services.clock w.history) r
              (unstored w s e p.1 p.0.1) p.0.0)))
        (λ x. Runs-pure true (λ s p. p))

  pub maybe_revert_active-Runs :
      Runs Tracked (λ _. Safe) Safe (maybe_revert_active services context user_id session_id)
  unfolding maybe_revert_active
  maybe_revert_active-Runs =
      Runs-bind (λ w s. Tracked s × (w ≡ s)) _ _ _ (Runs-gets (λ w. w) (λ s p. (p, refl)))
        (λ w. reverting-Runs w _ refl)

  -- The batches of one plan: `done` are the ones behind, `meta` and `seen` what the plan was built
  -- from.
  module _ (meta : WorkingMemoryMeta) (seen : WorkingMemorySnapshot) (plan : ClosePlan) where
    abbrev pub Stage : List CloseArchiveBatch → CloseWorld → Type 0
    Stage done w =
        Safe w × IsTracked w × IsSeen meta seen w.history × All (IsStored plan w.history) done

    -- An archive was stored that the progress record does not know of yet.
    abbrev Created :
        CloseArchiveBatch → List CloseArchiveBatch → ContextArchiveResult → CloseWorld → Type 0
    Created b done r w =
        Safe w
        × IsSeen meta seen w.history
        × All (IsStored plan w.history) done
        × Has (create_archive (input_of plan b) (ok r)) w.history

    create_reply :
        (b : CloseArchiveBatch) (done : List CloseArchiveBatch) (w : CloseWorld)
        (r : Result Fault ContextArchiveResult)
        → Stage done w
        → OnReply (Created b done) Tracked r (push (create_archive (input_of plan b) r) w)
    create_reply b done w (ok r) (p, t, (m, x), a) = (
      Base-create context ttl token (input_of plan b) (ok r) w.history p,
      (inr m, inr x),
      IsStored-push plan _ w.history done a,
      inl refl,
    )
    create_reply b done w (err f) (p, inl t, x, a) =
        (Base-create context ttl token (input_of plan b) (err f) w.history p, inl t)
    create_reply b done w (err f) (p, inr t, x, a) =
        (Base-create context ttl token (input_of plan b) (err f) w.history p, inr (tt, t))

    create_batch-Runs :
        (b : CloseArchiveBatch) (done : List CloseArchiveBatch)
        → Runs
            (Stage done)
            (Created b done)
            Safe
            (create_batch services context user_id session_id plan b)
    unfolding create_batch
    create_batch-Runs b done =
        Runs-catch Tracked _ _ (perform-Runs (Created b done) Tracked _ _ (create_reply b done))
          (λ e. Runs-bind (λ _. Safe) _ _ _ maybe_revert_active-Runs (λ x. Runs-raise e (λ s p. p)))

    marked_pure-Runs :
        (b : CloseArchiveBatch) (done : List CloseArchiveBatch) (r : ContextArchiveResult)
        → (r.outcome ≡ created) ⊎ (r.stored_version ≡ plan.base_compression_version)
        → Runs (Created b done r) (λ _. Stage (b ∷ done)) Safe (mark_persisted >> pure r.archive_id)
    marked_pure-Runs b done r o =
        Runs-bind (λ _. Stage (b ∷ done)) _ _ _
          (record { at = λ w p. (p.0, inl refl, p.1, (inr (r, p.3, o), p.2)) })
          (λ x. Runs-pure r.archive_id (λ s p. p))

    confirm-Runs :
        (b : CloseArchiveBatch) (done : List CloseArchiveBatch) (r : ContextArchiveResult)
        (o : ContextArchiveOutcome)
        → r.outcome ≡ o
        → Runs
            (Created b done r)
            (λ _. Stage (b ∷ done))
            Safe
            (confirm services context user_id session_id plan r o)
    unfolding confirm
    confirm-Runs b done r created e = marked_pure-Runs b done r (inl e)
    confirm-Runs b done r reused e = at (r.stored_version == plan.base_compression_version) refl
      where
        at :
            (x : Bool)
            → (r.stored_version == plan.base_compression_version) ≡ x
            → Runs
                (Created b done r)
                (λ _. Stage (b ∷ done))
                Safe
                (if x
                  then mark_persisted >> pure r.archive_id
                  else mark_persisted >> raise base_compression_version_mismatch)
        at true q = marked_pure-Runs b done r (inr (ground (arith, q)))
        at false q =
            Runs-bind (λ _. Safe) _ _ _ (record { at = λ w p. p.0 })
              (λ x. Runs-raise base_compression_version_mismatch (λ s p. p))

    reuse_pending-Runs :
        (b : CloseArchiveBatch) (done : List CloseArchiveBatch) (id : Option String)
        → b.is_pending_reuse ≡ true
        → Runs
            (Stage done)
            (λ _. Stage (b ∷ done))
            Safe
            (reuse_pending services context user_id session_id id)
    unfolding reuse_pending
    reuse_pending-Runs b done none e = Runs-raise missing_archive_id (λ s p. p.0)
    reuse_pending-Runs b done (some id) e = Runs-pure id (λ s p. (p.0, p.1, p.2, (inl e, p.3)))

    archive_batch-Runs :
        (b : CloseArchiveBatch) (done : List CloseArchiveBatch)
        → Runs
            (Stage done)
            (λ _. Stage (b ∷ done))
            Safe
            (archive_batch services context user_id session_id plan b)
    unfolding archive_batch
    archive_batch-Runs b done = at b.is_pending_reuse refl
      where
        at :
            (x : Bool)
            → b.is_pending_reuse ≡ x
            → Runs
                (Stage done)
                (λ _. Stage (b ∷ done))
                Safe
                (if x
                  then reuse_pending services context user_id session_id b.archive_id
                  else create_batch services context user_id session_id plan b >>= λ r.
                      confirm services context user_id session_id plan r r.outcome)
        at true e = reuse_pending-Runs b done b.archive_id e
        at false e =
            Runs-bind (Created b done) _ _ _ (create_batch-Runs b done)
              (λ r. confirm-Runs b done r r.outcome refl)

    -- All the batches, behind the ones that are done.
    pub archive_batches-Runs :
        (bs done : List CloseArchiveBatch) (ids : List String)
        → Runs
            (Stage done)
            (λ _ w.
              Safe w
              × IsSeen meta seen w.history
              × All (IsStored plan w.history) bs
              × All (IsStored plan w.history) done)
            Safe
            (archive_batches services context user_id session_id plan bs ids)
    unfolding archive_batches
    archive_batches-Runs [] done ids = Runs-pure ids (λ s p. (p.0, p.2, tt, p.3))
    archive_batches-Runs (b ∷ bs) done ids =
        Runs-bind (λ _. Stage (b ∷ done)) _ _ _ (archive_batch-Runs b done)
          (λ id.
            Runs-weaken (λ x s p. (p.0, p.1, (p.3.0, p.2), p.3.1))
              (archive_batches-Runs bs (b ∷ done) (ids ++ id ∷ [])))
