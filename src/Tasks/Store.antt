-- ===== src/Tasks/Store.antt =====
-- src/assistant_runtime/app/tasks/_store.py: InMemoryTaskStore, its tasks and agents. A copy of a record is
-- the record. `now` is the time of the call.
use assistant_runtime.Prelude.{
  ℕ, String, Bool, true, ◌&&◌, Option, none, some, List, [], ◌∷◌, ◌==◌, Dict, values, lookup, put,
  keep_if, length, take, sort_by, ltb, leb, string_eq, option_eq, if◌then◌else◌,
}
use mathlib.Core.List.{reverse}
use assistant_runtime.Base.Cursors.{ChangeCursor, admits, key_before}
use assistant_runtime.Tasks.Types.{TaskStatus, TaskRecord, AgentStatus, AgentRecord}

pub record TaskStore (J : Type 0) : Type 0 where
  pub tasks : Dict String (TaskRecord J)
  pub agents : Dict String (AgentRecord J)

abbrev matches_creator : Option String → String → Bool
matches_creator none creator = true
matches_creator (some c) creator = creator == c

abbrev matches_parent : Option String → Option String → Bool
matches_parent none parent = true
matches_parent (some p) parent = parent == some p

module _ {J : Type 0} where
  abbrev pub empty : TaskStore J
  empty = record { tasks = []; agents = [] }

  unfoldable pub create : ℕ → TaskRecord J → TaskStore J → TaskRecord J × TaskStore J
  create now new s =
      let r = record new { created_at = now; updated_at = now } in
      (r, record s { tasks = put r.id r s.tasks })

  -- `only_from` tells the statuses from which the record may change; `f` replaces the values.
  unfoldable pub update :
      ℕ
      → String
      → (only_from : TaskStatus → Bool) → (TaskRecord J → TaskRecord J)
      → TaskStore J
      → Option (TaskRecord J) × TaskStore J
  update now id only_from f s = elim (lookup id s.tasks) [
    | none ↦ (none, s)
    | some r ↦
        if only_from r.status
        then (let changed = record (f r) { updated_at = now } in
            (some changed, record s { tasks = put id changed s.tasks }))
        else (none, s)
  ]

  abbrev pub get : String → TaskStore J → Option (TaskRecord J)
  get id s = lookup id s.tasks

  -- The records before the one with the id, in the order of creation.
  abbrev before_id : String → Dict String (TaskRecord J) → List (TaskRecord J)
  before_id id [] = []
  before_id id ((k, r) ∷ d) = if k == id then [] else r ∷ before_id id d

  abbrev older_than : Dict String (TaskRecord J) → Option (TaskRecord J) → List (TaskRecord J)
  older_than d none = values d
  older_than d (some before) = before_id before.id d

  abbrev changed :
      (String → String → Bool)
      → List (TaskRecord J)
      → Option (ChangeCursor String)
      → ℕ
      → List (TaskRecord J)
  changed str_before rs none limit = take limit (reverse rs)
  changed str_before rs (some c) limit = take limit (
      sort_by (λ a b. key_before str_before (a.updated_at, a.id) (b.updated_at, b.id))
        (keep_if (λ r. admits str_before c (some r.updated_at) r.id) rs))

  unfoldable pub list :
      (String → String → Bool)
      → (created_by parent : Option String) → (TaskStatus → Bool)
      → ℕ
      → Option (TaskRecord J)
      → Option (ChangeCursor String)
      → TaskStore J
      → List (TaskRecord J)
  list str_before created_by parent wanted limit before updated_after s =
      changed str_before
        (keep_if
          (λ r.
            matches_creator created_by r.created_by
            && matches_parent parent r.parent_session_id
            && wanted r.status)
          (older_than s.tasks before))
        updated_after limit

  unfoldable pub count : ℕ → ℕ → TaskStore J → ℕ
  count start end s =
      length (keep_if (λ r. leb start r.created_at && ltb r.created_at end) (values s.tasks))

  unfoldable pub create_agent : ℕ → AgentRecord J → TaskStore J → AgentRecord J × TaskStore J
  create_agent now new s =
      let r = record new { created_at = now } in (r, record s { agents = put r.id r s.agents })

  unfoldable pub update_agent :
      String → (AgentRecord J → AgentRecord J) → TaskStore J → Option (AgentRecord J) × TaskStore J
  update_agent id f s = elim (lookup id s.agents) [
    | none ↦ (none, s)
    | some r ↦ (some (f r), record s { agents = put id (f r) s.agents })
  ]

  abbrev pub get_agent : String → TaskStore J → Option (AgentRecord J)
  get_agent id s = lookup id s.agents

  abbrev pub list_agents :
      (created_by : Option String) → (AgentStatus → Bool) → TaskStore J → List (AgentRecord J)
  list_agents created_by wanted s =
      reverse (
        keep_if (λ r. matches_creator created_by r.created_by && wanted r.status) (values s.agents))
