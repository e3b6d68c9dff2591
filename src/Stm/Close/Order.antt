-- ===== src/Stm/Close/Order.antt =====
-- `close_session`: the order of its calls, whatever they answer.
use memory_system.Shared.{
  ℕ, ◌≡◌, inl, inr, refl, String, true, false, Option, none, some, List, [], ◌∷◌, All,
}
use memory_system.Shared.Exec.{Result, ok, err, raise, ◌>>◌}
use memory_system.Shared.Triples.{
  Runs, Runs-pure, Runs-pre, Runs-weaken, Runs-raise, Runs-gets, Runs-catch, Runs-bind,
}
use memory_system.Stm.Meta.{WorkingMemoryMeta}
use memory_system.Stm.Settings.{ContextSettings}
use memory_system.Stm.Split.{
  CloseError, malformed_compression_version, message_boundary_mismatch, list_index_out_of_range,
  single_message_exceeds_archive_cap,
}
use memory_system.Stm.Plan.{ClosePlan, build_close_plan}
use memory_system.Stm.Close.Calls.{
  ContextReadStatus, read_success, read_session_not_found, read_invalid_session_state,
  SessionCloseEnterStatus, SessionCloseTerminalStatus, enter_success, enter_session_not_found,
  enter_invalid_session_state, terminal_success, terminal_session_not_found,
  terminal_invalid_session_state, enter_closing, get_meta, read_context, publish, terminal_delete,
  plan_error, CloseWorld, Fault, WorkingMemorySnapshot, Services, ContextReadResult,
}
use memory_system.Stm.Close.{
  SessionCloseResult, maybe_revert_active, publish_one, publish_all, check_terminal, run_plan,
  run_built, with_snapshot, with_meta, entered, locked_body,
}
use memory_system.Stm.Close.Histories.{
  Has, NotStored, IsSeen, IsArchived, Base, Base-plain, Base-delete, IsArchived-push, OnReply, push,
  perform-Runs,
}
use memory_system.Stm.Close.Stages.{
  both_replies, IsTracked, maybe_revert_active-Runs, archive_batches-Runs,
}

module _ (services : Services) (context : ContextSettings) (user_id session_id : String) (ttl : ℕ)
    (token : String) where
  -- The session has been deleted, after everything was archived.
  abbrev pub Gone : CloseWorld → Type 0
  Gone w = Base context ttl token w.history × Has (terminal_delete (ok terminal_success)) w.history

  abbrev pub Held : CloseWorld → Type 0
  Held w = Base context ttl token w.history

  abbrev Archived : CloseWorld → Type 0
  Archived w = Base context ttl token w.history × IsArchived context w.history

  Archived-Held : (w : CloseWorld) → Archived w → Held w
  Archived-Held w p = p.0

  publish_one-Runs :
      (id : String)
      → Runs Archived (λ _. Archived) Held (publish_one services context user_id session_id id)
  unfolding publish_one
  publish_one-Runs id =
      Runs-bind (λ _. Archived) _ _ _ (Runs-gets _ (λ s p. p))
        (λ e.
          Runs-catch Archived _ _
            (perform-Runs (λ _. Archived) Archived _ _
              (λ w r p. both_replies Archived r (push (publish e r) w) (
                Base-plain context ttl token (publish e r) w.history tt p.0,
                IsArchived-push context (publish e r) w.history p.1,
              )))
            (λ x. Runs-pure false (λ s p. p)))

  publish_all-Runs :
      (ids : List String)
      → Runs Archived (λ _. Archived) Held (publish_all services context user_id session_id ids)
  unfolding publish_all
  publish_all-Runs [] = Runs-pure true (λ s p. p)
  publish_all-Runs (id ∷ ids) =
      Runs-bind (λ _. Archived) _ _ _ (publish_one-Runs id) (λ x. publish_all-Runs ids)

  -- The deletion answered `status`.
  abbrev Deleted : SessionCloseTerminalStatus → CloseWorld → Type 0
  Deleted status w = Base context ttl token w.history × Has (terminal_delete (ok status)) w.history

  terminal_reply :
      (w : CloseWorld) (r : Result Fault SessionCloseTerminalStatus)
      → Archived w
      → OnReply Deleted Held r (push (terminal_delete r) w)
  terminal_reply w (ok status) p =
      (Base-delete context ttl token w.history (ok status) p.1 p.0, inl refl)
  terminal_reply w (err f) p = Base-delete context ttl token w.history (err f) p.1 p.0

  check_terminal-Runs :
      (ids : List String) (status : SessionCloseTerminalStatus)
      → Runs
          (Deleted status)
          (λ _. Gone)
          Held
          (check_terminal services context user_id session_id ids status)
  unfolding check_terminal
  check_terminal-Runs ids terminal_success = Runs-pure _ (λ s p. p)
  check_terminal-Runs ids terminal_session_not_found = Runs-raise _ (λ s p. p.0)
  check_terminal-Runs ids terminal_invalid_session_state = Runs-raise _ (λ s p. p.0)

  -- What was read, before any archive.
  abbrev Read : WorkingMemoryMeta → WorkingMemorySnapshot → CloseWorld → Type 0
  Read meta s w = Base context ttl token w.history × IsTracked w × IsSeen meta s w.history

  run_plan-Runs :
      (meta : WorkingMemoryMeta) (s : WorkingMemorySnapshot) (plan : ClosePlan)
      → build_close_plan meta s.messages context.max_archive_estimated_tokens ≡ ok plan
      → Runs (Read meta s) (λ _. Gone) Held (run_plan services context user_id session_id plan)
  unfolding run_plan
  run_plan-Runs meta s plan e =
      Runs-bind (λ _. Archived) _ _ _
        (Runs-weaken (λ ids w p. (p.0, (meta, s, plan, p.1, e, p.2)))
          (Runs-pre (λ w p. (p.0, p.1, p.2, tt))
            (archive_batches-Runs services context user_id session_id ttl token meta s plan
              plan.batches [] [])))
        (λ ids.
          Runs-bind Deleted _ _ _
            (Runs-bind (λ _. Archived) _ _ _
              (Runs-bind (λ _. Archived) _ _ _ (record { at = λ w p. p })
                (λ x. publish_all-Runs ids))
              (λ x. perform-Runs Deleted Held _ _ terminal_reply))
            (λ status. check_terminal-Runs ids status))

  refused-Runs :
      (meta : WorkingMemoryMeta) (s : WorkingMemorySnapshot) (x : CloseError)
      → Runs {A = SessionCloseResult}
          (Read meta s)
          (λ _. Gone)
          Held
          (maybe_revert_active services context user_id session_id >> raise (plan_error x))
  refused-Runs meta s x =
      Runs-bind (λ _. Held) _ _ _
        (Runs-pre (λ w p. (p.0, p.1))
          (maybe_revert_active-Runs services context user_id session_id ttl token))
        (λ y. Runs-raise (plan_error x) (λ w p. p))

  run_built-Runs :
      (meta : WorkingMemoryMeta) (s : WorkingMemorySnapshot) (r : Result CloseError ClosePlan)
      → build_close_plan meta s.messages context.max_archive_estimated_tokens ≡ r
      → Runs (Read meta s) (λ _. Gone) Held (run_built services context user_id session_id r)
  unfolding run_built
  run_built-Runs meta s (ok plan) e = run_plan-Runs meta s plan e
  run_built-Runs meta s (err list_index_out_of_range) e = Runs-raise _ (λ w p. p.0)
  run_built-Runs meta s (err malformed_compression_version) e = refused-Runs meta s _
  run_built-Runs meta s (err message_boundary_mismatch) e = refused-Runs meta s _
  run_built-Runs meta s (err (single_message_exceeds_archive_cap id)) e = refused-Runs meta s _

  -- Nothing has been stored yet.
  abbrev pub Fresh : CloseWorld → Type 0
  Fresh w = Base context ttl token w.history × All NotStored w.history

  abbrev Known : WorkingMemoryMeta → CloseWorld → Type 0
  Known meta w = Fresh w × Has (get_meta (ok (some meta))) w.history

  -- The snapshot was read.
  abbrev Loaded :
      WorkingMemoryMeta → ContextReadStatus → Option WorkingMemorySnapshot → CloseWorld → Type 0
  Loaded meta status snapshot w =
      Known meta w
      × Has (read_context (ok (record { status = status; snapshot = snapshot }))) w.history

  with_snapshot-Runs :
      (meta : WorkingMemoryMeta) (status : ContextReadStatus) (x : Option WorkingMemorySnapshot)
      → Runs
          (Loaded meta status x)
          (λ _. Gone)
          Held
          (with_snapshot services context user_id session_id meta status x)
  unfolding with_snapshot
  with_snapshot-Runs meta read_success (some s) =
      Runs-pre (λ w p. (p.0.0.0, inr p.0.0.1, (p.0.1, p.1))) (run_built-Runs meta s _ refl)
  with_snapshot-Runs meta read_success none = Runs-raise _ (λ w p. p.0.0.0)
  with_snapshot-Runs meta read_session_not_found x = Runs-raise _ (λ w p. p.0.0.0)
  with_snapshot-Runs meta read_invalid_session_state x = Runs-raise _ (λ w p. p.0.0.0)

  read_reply :
      (meta : WorkingMemoryMeta) (w : CloseWorld) (r : Result Fault ContextReadResult)
      → Known meta w
      → OnReply (λ x. Loaded meta x.status x.snapshot) Held r (push (read_context r) w)
  read_reply meta w (ok x) ((b, a), k) = (
    ((Base-plain context ttl token (read_context (ok x)) w.history tt b, (tt, a)), inr k),
    inl refl,
  )
  read_reply meta w (err f) ((b, a), k) =
      Base-plain context ttl token (read_context (err f)) w.history tt b

  with_meta-Runs :
      (m : Option WorkingMemoryMeta)
      → Runs
          (λ w. Fresh w × Has (get_meta (ok m)) w.history)
          (λ _. Gone)
          Held
          (with_meta services context user_id session_id m)
  unfolding with_meta
  with_meta-Runs none = Runs-raise _ (λ w p. p.0.0)
  with_meta-Runs (some meta) =
      Runs-bind (λ x. Loaded meta x.status x.snapshot) _ _ _
        (perform-Runs _ Held _ _ (read_reply meta))
        (λ x. with_snapshot-Runs meta x.status x.snapshot)

  meta_reply :
      (w : CloseWorld) (r : Result Fault (Option WorkingMemoryMeta))
      → Fresh w
      → OnReply (λ m w. Fresh w × Has (get_meta (ok m)) w.history) Held r (push (get_meta r) w)
  meta_reply w (ok m) (b, a) =
      ((Base-plain context ttl token (get_meta (ok m)) w.history tt b, (tt, a)), inl refl)
  meta_reply w (err f) (b, a) = Base-plain context ttl token (get_meta (err f)) w.history tt b

  entered-Runs :
      (status : SessionCloseEnterStatus)
      → Runs Fresh (λ _. Gone) Held (entered services context user_id session_id status)
  unfolding entered
  entered-Runs enter_session_not_found = Runs-raise _ (λ w p. p.0)
  entered-Runs enter_invalid_session_state = Runs-raise _ (λ w p. p.0)
  entered-Runs enter_success =
      Runs-bind _ _ _ _ (perform-Runs _ Held _ _ meta_reply) (λ m. with_meta-Runs m)

  enter_reply :
      (now : ℕ) (w : CloseWorld) (r : Result Fault SessionCloseEnterStatus)
      → Fresh w
      → OnReply (λ _. Fresh) Held r (push (enter_closing now r) w)
  enter_reply now w (ok x) (b, a) =
      (Base-plain context ttl token (enter_closing now (ok x)) w.history tt b, (tt, a))
  enter_reply now w (err f) (b, a) =
      Base-plain context ttl token (enter_closing now (err f)) w.history tt b

  pub locked_body-Runs :
      Runs Fresh (λ _. Gone) Held (locked_body services context user_id session_id)
  unfolding locked_body
  locked_body-Runs =
      Runs-bind (λ _. Fresh) _ _ _ (Runs-gets _ (λ w p. p))
        (λ now.
          Runs-bind (λ _. Fresh) _ _ _ (perform-Runs _ Held _ _ (enter_reply now))
            (λ status. entered-Runs status))
