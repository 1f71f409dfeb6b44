-- ===== src/Tasks/Agents.antt =====
-- src/assistant_runtime/app/tasks/interface.py: the persistent agents of TaskService, with the store in
-- memory; a call holds the lock on admission. `check` is what the request's own rules say of the names or of
-- a config: the error that it raises. The messages of an agent are left out, and so are their jobs.
use assistant_runtime.Prelude.{
  ℕ, String, Bool, false, not, Option, none, some, List, [], ◌∷◌, ◌++◌, ◌==◌, Dict, put, ok, Exec,
  pure, raise, raise_if, gets, ◌>>=◌, ◌>>◌, is_empty, concat, string_eq, option_eq, pair_eq,
  if◌then◌else◌,
}
use assistant_runtime.Tasks.Types.{
  AgentStatus, active, stopped, is_active, AgentRecord, TaskError, disabled, no_agent,
  agent_stopped, identity_taken, session_taken, is_visible,
}
use assistant_runtime.Access.Principals.{Principal, is_admin}
use assistant_runtime.Tasks.Store
use assistant_runtime.Tasks.Store.{TaskStore}
use assistant_runtime.Tasks.Service.{or_default}

-- A call of the streaming service that keeps a session's conversation cached, or no longer does.
pub data PinCall : Type 0 where
  pinned unpinned : (session_id : String) → PinCall

pub record AgentService (J : Type 0) : Type 0 where
  pub enabled : Bool
  pub default_profile : Option String
  pub store : TaskStore J
  pub pins : List PinCall

-- The arguments of `start_agent`; a field of a config that is none is not set.
pub record NewAgent (J : Type 0) : Type 0 where
  pub profile : Option String
  pub subject : Option String
  pub session_id : Option String
  pub config : Dict String J

abbrev pub M : Type 0 → Type 0 → Type 0
M J A = Exec (AgentService J) TaskError A

abbrev pub raise_found : {J : Type 0} → Option TaskError → M J (Unit {0})
raise_found none = pure tt
raise_found (some e) = raise e

abbrev session_or : Option String → String → String
session_or none d = d
session_or (some s) d = if is_empty s then d else s

module _ {J : Type 0} where
  abbrev pub identity : AgentRecord J → Option String × Option String
  identity a = (a.profile, a.subject)

  abbrev pub same_identity : Option (Option String × Option String) → AgentRecord J → Bool
  same_identity none a = false
  same_identity (some i) a = identity a == i

  -- `_check_free` over the active agents.
  unfoldable pub check_free :
      String → Option (Option String × Option String) → List (AgentRecord J) → Option TaskError
  check_free session i [] = none
  check_free session i (a ∷ others) =
      let rest = check_free session i others in
      if same_identity i a
      then some (identity_taken a.id)
      else if a.session_id == session
      then some (session_taken a.id session)
      else rest

  abbrev pub active_agents : TaskStore J → List (AgentRecord J)
  active_agents t = Store.list_agents none is_active t

  abbrev pub seen : String → Principal → Option (AgentRecord J) → M J (AgentRecord J)
  seen id p none = raise (no_agent id)
  seen id p (some a) = if is_visible a.created_by p then pure a else raise (no_agent id)

  unfoldable pub get_agent : String → Principal → M J (AgentRecord J)
  get_agent id p = do found ← gets (λ s. Store.get_agent id s.store); seen id p found

  unfoldable pub list_agents : Principal → (AgentStatus → Bool) → M J (List (AgentRecord J))
  list_agents p wanted =
      gets (λ s. Store.list_agents (if is_admin p then none else some p.id) wanted s.store)

  abbrev pub new_agent : String → Option String → String → NewAgent J → AgentRecord J
  new_agent id default_profile creator n = record {
    id = id;
    session_id = session_or n.session_id (concat ("agent-" ∷ id ∷ []));
    status = active;
    created_by = creator;
    profile = or_default n.profile default_profile;
    subject = n.subject;
    config = n.config;
    created_at = 0;
    stopped_at = none;
  }

  -- The part of `start_agent` that holds the lock.
  unfoldable pub admit : ℕ → AgentRecord J → M J (AgentRecord J)
  unfolding check_free Store.create_agent
  admit now a = do
    taken ← gets (λ s. check_free a.session_id (some (identity a)) (active_agents s.store))
    raise_found taken
    λ s.
        let (r, t) = Store.create_agent now a s.store in
        (ok r, record s { store = t; pins = s.pins ++ pinned r.session_id ∷ [] })

  unfoldable pub start_agent :
      (check : Option TaskError) → ℕ → (id : String) → NewAgent J → Principal → M J (AgentRecord J)
  unfolding admit
  start_agent check now id n p s =
      (do
        raise_if (not s.enabled) disabled
        raise_found check
        admit now (new_agent id s.default_profile p.id n))
        s

  abbrev or_agent : AgentRecord J → Option (AgentRecord J) → AgentRecord J
  or_agent a none = a
  or_agent a (some b) = b

  -- The agent's record with the values replaced.
  abbrev pub write_agent :
      String → AgentRecord J → (AgentRecord J → AgentRecord J) → List PinCall → M J (AgentRecord J)
  write_agent id a f pins s =
      let (r, t) = Store.update_agent id f s.store in
      (ok (or_agent a r), record s { store = t; pins = s.pins ++ pins })

  abbrev pub with_session : String → AgentRecord J → AgentRecord J
  with_session session r = record r { session_id = session }

  abbrev pub move_to : String → AgentRecord J → String → M J (AgentRecord J)
  move_to id a session = if session == a.session_id then pure a else (do
    taken ← gets (λ s. check_free session none (active_agents s.store))
    raise_found taken
    write_agent id a (with_session session) (pinned session ∷ unpinned a.session_id ∷ []))

  -- `suffix` are the eight hexadecimal digits that are drawn.
  unfoldable pub move_agent :
      (check : Option TaskError)
      → (id : String) → Option String
      → (suffix : String) → Principal
      → M J (AgentRecord J)
  unfolding get_agent check_free Store.update_agent
  move_agent check id session suffix p = do
    raise_found check
    a ← get_agent id p
    raise_if (not (is_active a.status)) (agent_stopped id)
    move_to id a (session_or session (concat ("agent-" ∷ id ∷ "-" ∷ suffix ∷ [])))

  -- `{**old, **new}`, without what is None.
  abbrev without_none : Dict String (Option J) → Dict String J
  without_none [] = []
  without_none ((k, none) ∷ d) = without_none d
  without_none ((k, some v) ∷ d) = (k, v) ∷ without_none d

  abbrev all_set : Dict String J → Dict String (Option J)
  all_set [] = []
  all_set ((k, v) ∷ d) = (k, some v) ∷ all_set d

  abbrev merged : Dict String (Option J) → Dict String (Option J) → Dict String (Option J)
  merged old [] = old
  merged old ((k, v) ∷ new) = merged (put k v old) new

  abbrev pub with_config : Dict String (Option J) → AgentRecord J → AgentRecord J → AgentRecord J
  with_config overrides a r = record r {
    config = without_none (merged (all_set a.config) overrides);
  }

  unfoldable pub configure_agent :
      (check : Option TaskError)
      → (id : String) → Dict String (Option J)
      → Principal
      → M J (AgentRecord J)
  unfolding get_agent Store.update_agent
  configure_agent check id overrides p = do
    raise_found check
    a ← get_agent id p
    raise_if (not (is_active a.status)) (agent_stopped id)
    write_agent id a (with_config overrides a) []

  abbrev pub with_stop : ℕ → AgentRecord J → AgentRecord J
  with_stop now r = record r { status = stopped; stopped_at = some now }

  unfoldable pub stop_agent : ℕ → (id : String) → Principal → M J (AgentRecord J)
  unfolding get_agent Store.update_agent
  stop_agent now id p = do
    a ← get_agent id p
    if is_active a.status
        then write_agent id a (with_stop now) (unpinned a.session_id ∷ [])
        else pure a
