-- ===== src/Tasks/Runner.antt =====
-- src/assistant_runtime/app/tasks/_runner.py: BackgroundTurnRunner. Its jobs are the tasks of interface.py and
-- the messages of agents. Of a message, whose record is not modelled, only the job is there, so that its end
-- finds no record of a task and publishes none. A job waits for its order and its slot, runs a turn, and
-- records and publishes its end; each part that does not wait is a function. The store in memory never makes
-- a caller wait, so the capacity that `reserve` holds is given back before another request looks at it.
use assistant_runtime.Prelude.{
  ℕ, String, Bool, not, Option, none, some, List, [], ◌∷◌, ◌++◌, ◌==◌, Dict, has, put, remove, size,
  keep_if, concat, show, is_empty, take_chars, leb, any, string_eq, if◌then◌else◌, Exec, err,
}
use assistant_runtime.Tasks.Types.{
  TaskStatus, running, done, failed, cancelled, interrupted, is_finished, is_queued, TaskRecord,
  TaskError, at_limit,
}
use assistant_runtime.Tasks.Store
use assistant_runtime.Tasks.Store.{TaskStore}

pub record TasksConfig : Type 0 where
  pub enabled : Bool
  pub max_waiting : ℕ
  pub timeout_seconds : ℕ
  pub result_max_chars : ℕ

-- The runner with its store. A job's value is its agent; `published` are the ends of tasks that were published.
pub record Runner (J : Type 0) : Type 0 where
  pub config : TasksConfig
  pub store : TaskStore J
  pub jobs : Dict String (Option String)
  pub cancel_requested : List String
  pub published : List (TaskRecord J)

-- How a turn ended: what it returned, with the name of a tool that it asked the host to perform, or what
-- it raised.
pub data Outcome (J : Type 0) : Type 0 where
  returned :
      (content : Option String) → (pending_tool : Option String) → (usage : Option J) → Outcome J
  was_cancelled : Outcome J
  timed_out : Outcome J
  raised : (text type_name : String) → Outcome J

abbrev pub interrupted_text : String
interrupted_text = "The runtime stopped while it was queued or running"

abbrev host_action_text : String → String
host_action_text tool = concat (
    "The turn asked the host to perform '" ∷ tool ∷ "', which a background turn cannot answer" ∷ [])

abbrev content_or : Option String → String
content_or none = ""
content_or (some c) = c

abbrev error_text : String → String → String
error_text text type_name = if is_empty text then type_name else text

abbrev pub not_finished : TaskStatus → Bool
not_finished s = not (is_finished s)

abbrev pub unstarted_error : TaskStatus → Option String
unstarted_error cancelled = none
unstarted_error _ = some interrupted_text

module _ {J : Type 0} where
  abbrev pub with_failure : ℕ → TaskStatus → Option String → TaskRecord J → TaskRecord J
  with_failure now status error r = record r {
    status = status;
    error = error;
    finished_at = some now;
  }

  -- The values that `execute` writes at the end of a job.
  unfoldable pub end_values : TasksConfig → Bool → ℕ → Outcome J → TaskRecord J → TaskRecord J
  end_values config requested now (returned content none usage) r = record r {
    status = done;
    result = some (take_chars config.result_max_chars (content_or content));
    usage = usage;
    finished_at = some now;
  }
  end_values config requested now (returned content (some tool) usage) r =
      with_failure now failed (some (host_action_text tool)) r
  end_values config requested now was_cancelled r =
      if requested
      then with_failure now cancelled none r
      else with_failure now interrupted (some interrupted_text) r
  end_values config requested now timed_out r =
      with_failure now failed
        (some (concat ("Timed out after " ∷ show config.timeout_seconds ∷ " s" ∷ []))) r
  end_values config requested now (raised text type_name) r =
      with_failure now failed (some (error_text text type_name)) r

  abbrev pub publish_if : Option (TaskRecord J) → List (TaskRecord J) → List (TaskRecord J)
  publish_if none ps = ps
  publish_if (some r) ps = ps ++ r ∷ []

  -- The job leaves the runner: `_running.pop` and `_cancel_requested.discard`.
  abbrev pub leave : String → Runner J → Runner J
  leave id s = record s {
    jobs = remove id s.jobs;
    cancel_requested = keep_if (λ i. not (i == id)) s.cancel_requested;
  }

  -- Whether `reserve` finds room.
  abbrev pub is_full : Runner J → Bool
  is_full s = leb s.config.max_waiting (size s.jobs)

  -- `with self._runner.reserve():`
  unfoldable pub reserve : {A : Type 0} → Exec (Runner J) TaskError A → Exec (Runner J) TaskError A
  reserve body s = if is_full s then (err (at_limit (size s.jobs)), s) else body s

  -- `submit`
  unfoldable pub submit : String → Option String → Runner J → Runner J
  submit id agent s = record s { jobs = put id agent s.jobs }

  abbrev pub with_start : ℕ → TaskRecord J → TaskRecord J
  with_start now r = record r { status = running; started_at = some now }

  -- The `start` of `_run`: whether the turn may run.
  unfoldable pub start_turn : ℕ → String → Runner J → Option (TaskRecord J) × Runner J
  unfolding Store.update
  start_turn now id s =
      let (r, t) = Store.update now id is_queued (with_start now) s.store in
      (r, record s { store = t })

  -- The end of `execute` for a job whose start found its record ended.
  unfoldable pub end_unstarted : String → Runner J → Runner J
  end_unstarted id s = leave id s

  -- The end of `execute`: the record, the job and the publication.
  unfoldable pub end_turn : ℕ → String → Outcome J → Runner J → Runner J
  unfolding Store.update end_values
  end_turn now id outcome s =
      let requested = any (λ i. i == id) s.cancel_requested in
      let (final, t) =
        Store.update now id not_finished (end_values s.config requested now outcome) s.store in
      leave id (record s { store = t; published = publish_if final s.published })

  unfoldable pub mark_cancelled : String → Runner J → Runner J
  mark_cancelled id s = record s { cancel_requested = id ∷ s.cancel_requested }

  -- `_finish_unstarted`, with the status cancelled or interrupted.
  unfoldable pub finish_unstarted : ℕ → String → TaskStatus → Runner J → Runner J
  unfolding Store.update
  finish_unstarted now id status s =
      let (final, t) =
        Store.update now id not_finished (with_failure now status (unstarted_error status))
          s.store in
      if has id s.jobs
      then leave id (record s { store = t; published = publish_if final s.published })
      else s
