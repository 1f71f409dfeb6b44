-- ===== src/Artifacts/Types.antt =====
-- src/assistant_runtime/services/artifacts/models.py and exceptions.py: versions, actors and errors. Times
-- are numbers.
use assistant_runtime.Prelude.{ℕ, String, Bool, true, false, Option}

pub data ActorKind : Type 0 where
  assistant host : ActorKind

-- Who wrote a version: an actor, or the definition's default.
pub data WriterKind : Type 0 where
  actor : ActorKind → WriterKind
  seed : WriterKind

abbrev pub is_seed : WriterKind → Bool
is_seed (actor k) = false
is_seed seed = true

pub record Actor : Type 0 where
  pub kind : ActorKind
  pub label : String
  pub session_id : Option String

pub data VersionStatus : Type 0 where
  active pending superseded rejected : VersionStatus

pub data Action : Type 0 where
  proposes updates activates rejects deletes : Action

pub record ArtifactVersion : Type 0 where
  pub name : String
  pub content : String
  pub version : ℕ
  pub is_active : Bool
  pub proposed_by : String
  pub created_at : ℕ
  pub id : ℕ
  pub status : VersionStatus
  pub actor_kind : WriterKind
  pub rationale : Option String
  pub decided_by : Option String
  pub decided_at : Option ℕ
  pub decision_reason : Option String
  pub subject : String

abbrev pub is_pending : VersionStatus → Bool
is_pending pending = true
is_pending _ = false

abbrev pub is_superseded : VersionStatus → Bool
is_superseded superseded = true
is_superseded _ = false

abbrev pub is_rejected : VersionStatus → Bool
is_rejected rejected = true
is_rejected _ = false

abbrev pub is_active_status : VersionStatus → Bool
is_active_status active = true
is_active_status _ = false

pub record MutationResult : Type 0 where
  pub version : ArtifactVersion
  pub activated : Bool
  pub live_version : Option ℕ
  pub unchanged : Bool
  pub durable : Bool

pub data ArtifactError : Type 0 where
  not_started : ArtifactError
  unknown_artifact : (name : String) → ArtifactError
  not_permitted : ActorKind → Action → (name : String) → ArtifactError
  subject_required : (name : String) → ArtifactError
  no_content : (name : String) → ArtifactError
  too_large : (name : String) → (max_chars length : ℕ) → ArtifactError
  version_conflict : (current expected : ℕ) → (current_content : String) → ArtifactError
  no_version : (name : String) → (version : ℕ) → ArtifactError
  was_rejected : (name : String) → (version : ℕ) → ArtifactError
  not_pending : (name : String) → (version : ℕ) → VersionStatus → ArtifactError
