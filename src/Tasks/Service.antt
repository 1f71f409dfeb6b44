-- ===== src/Tasks/Service.antt =====
-- src/assistant_runtime/app/tasks/interface.py: the tasks of TaskService, with the store in memory.
-- `check_names` is what the request's own rules say of a profile and a subject: the error that it raises.
use assistant_runtime.Prelude.{
  ℕ, String, Bool, not, Option, none, some, [], ◌∷◌, has, ok, Exec, pure, raise, raise_if, gets,
  modify, ◌>>=◌, ◌>>◌, strip, is_empty, concat, string_eq, if◌then◌else◌,
}
use assistant_runtime.Tasks.Types.{
  queued, cancelled, is_finished, TaskRecord, TaskError, nested, disabled, no_description, no_task,
  is_visible,
}
use assistant_runtime.Access.Principals.{Principal}
use assistant_runtime.Tasks.Store
use assistant_runtime.Tasks.Runner.{
  Runner, Outcome, reserve, submit, mark_cancelled, end_turn, finish_unstarted,
}

-- The arguments of `start_task`.
pub record NewTask : Type 0 where
  pub task : Option String
  pub profile : Option String
  pub subject : Option String
  pub context : Option String
  pub parent_session_id : Option String

abbrev pub M : Type 0 → Type 0 → Type 0
M J A = Exec (Runner J) TaskError A

-- `(text or "").strip()`
abbrev pub stripped : Option String → String
stripped none = ""
stripped (some t) = strip t

-- `text or None`
abbrev filled : String → Option String
filled t = if is_empty t then none else some t

-- `a or b`
abbrev pub or_default : Option String → Option String → Option String
or_default none b = b
or_default (some a) b = if is_empty a then b else some a

abbrev raise_found : {J : Type 0} → Option TaskError → M J (Unit {0})
raise_found none = pure tt
raise_found (some e) = raise e

module _ {J : Type 0} where
  abbrev pub new_task : String → Option String → String → NewTask → TaskRecord J
  new_task id default_profile creator n = record {
    id = id;
    session_id = concat ("task-" ∷ id ∷ []);
    task = stripped n.task;
    status = queued;
    created_by = creator;
    profile = or_default n.profile default_profile;
    subject = n.subject;
    context = filled (stripped n.context);
    parent_session_id = n.parent_session_id;
    result = none;
    error = none;
    usage = none;
    created_at = 0;
    started_at = none;
    finished_at = none;
    updated_at = 0;
  }

  -- The capacity check, the record and the job.
  unfoldable pub queue : ℕ → TaskRecord J → M J (TaskRecord J)
  unfolding reserve Store.create submit
  queue now new = reserve (λ s.
      let (r, t) = Store.create now new s.store in
      (ok r, submit r.id none (record s { store = t })))

  -- `inside` says that a background task asks; `id` is the uuid that is drawn.
  unfoldable pub start_task :
      (check_names : Option String → Option String → Option TaskError)
      → (inside : Bool) → (default_profile : Option String) → ℕ
      → (id : String) → NewTask
      → Principal
      → M J (TaskRecord J)
  unfolding queue
  start_task check_names inside default_profile now id n principal s =
      (do
        raise_if inside nested
        raise_if (not s.config.enabled) disabled
        raise_if (is_empty (stripped n.task)) no_description
        raise_found (check_names n.profile n.subject)
        queue now (new_task id default_profile principal.id n))
        s

  -- The capacity check and the job of `message_agent`; the messages' own records are not modelled.
  unfoldable pub queue_message : (id agent : String) → M J (Unit {0})
  unfolding reserve submit
  queue_message id agent = reserve (λ s. (ok tt, submit id (some agent) s))

  abbrev seen : String → Principal → Option (TaskRecord J) → M J (TaskRecord J)
  seen id p none = raise (no_task id)
  seen id p (some r) = if is_visible r.created_by p then pure r else raise (no_task id)

  unfoldable pub get : String → Principal → M J (TaskRecord J)
  get id p = do found ← gets (λ s. Store.get id s.store); seen id p found

  -- The worker ends with the outcome, or was never entered.
  abbrev stop_worker : ℕ → String → Option (Outcome J) → Runner J → Runner J
  stop_worker now id none s = s
  stop_worker now id (some o) s = end_turn now id o s

  -- The runner's `cancel`.
  unfoldable pub cancel_job : ℕ → String → Option (Outcome J) → Runner J → Runner J
  unfolding mark_cancelled end_turn finish_unstarted
  cancel_job now id o s =
      if has id s.jobs
      then finish_unstarted now id cancelled (stop_worker now id o (mark_cancelled id s))
      else s

  unfoldable pub cancel : ℕ → String → Option (Outcome J) → Principal → M J (TaskRecord J)
  unfolding get cancel_job
  cancel now id o p = do
    r ← get id p
    if is_finished r.status then pure r else (do modify (cancel_job now id o); get id p)
