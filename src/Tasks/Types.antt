-- ===== src/Tasks/Types.antt =====
-- src/assistant_runtime/app/tasks/models.py and exceptions.py: the records of the module. `J` is the type
-- of the JSON values that are stored unread; times are numbers.
use assistant_runtime.Prelude.{ℕ, String, Bool, true, false, ◌||◌, Option, Dict, ◌==◌, string_eq}
use assistant_runtime.Access.Principals.{Principal, is_admin}

pub data TaskStatus : Type 0 where
  queued running done failed cancelled interrupted : TaskStatus

-- `status in FINISHED`
abbrev pub is_finished : TaskStatus → Bool
is_finished queued = false
is_finished running = false
is_finished _ = true

abbrev pub is_queued : TaskStatus → Bool
is_queued queued = true
is_queued _ = false

pub record TaskRecord (J : Type 0) : Type 0 where
  pub id : String
  pub session_id : String
  pub task : String
  pub status : TaskStatus
  pub created_by : String
  pub profile : Option String
  pub subject : Option String
  pub context : Option String
  pub parent_session_id : Option String
  pub result : Option String
  pub error : Option String
  pub usage : Option J
  pub created_at : ℕ
  pub started_at : Option ℕ
  pub finished_at : Option ℕ
  pub updated_at : ℕ

pub data AgentStatus : Type 0 where
  active stopped : AgentStatus

abbrev pub is_active : AgentStatus → Bool
is_active active = true
is_active stopped = false

pub record AgentRecord (J : Type 0) : Type 0 where
  pub id : String
  pub session_id : String
  pub status : AgentStatus
  pub created_by : String
  pub profile : Option String
  pub subject : Option String
  pub config : Dict String J
  pub created_at : ℕ
  pub stopped_at : Option ℕ

pub data TaskError : Type 0 where
  nested : TaskError
  disabled : TaskError
  no_description : TaskError
  bad_names : String → TaskError
  bad_config : String → TaskError
  at_limit : (count : ℕ) → TaskError
  no_task : String → TaskError
  no_agent : String → TaskError
  agent_stopped : String → TaskError
  identity_taken : (agent : String) → TaskError
  session_taken : (agent session : String) → TaskError

-- `_visible`, for a record that `created_by` made.
abbrev pub is_visible : String → Principal → Bool
is_visible created_by p = is_admin p || (created_by == p.id)
