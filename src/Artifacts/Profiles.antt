-- ===== src/Artifacts/Profiles.antt =====
-- src/assistant_runtime/artifacts.py: profiles, their artifacts and collections, and what a policy permits
-- (services/artifacts/interface.py: _permitted). The checks of the constructors are left out.
use assistant_runtime.Prelude.{
  ℕ, String, Bool, true, false, ◌&&◌, ◌||◌, Option, none, some, List, [], ◌∷◌, ◌==◌, codes,
  all_codes, is_between, length, leb, ltb, nat_eq, string_eq, if◌then◌else◌,
}
use assistant_runtime.Artifacts.Types.{
  ActorKind, assistant, host, Action, proposes, updates, activates, rejects, deletes,
}

pub data EditPolicy : Type 0 where
  no_edit propose_only autonomous : EditPolicy

pub record ArtifactPolicy : Type 0 where
  pub assistant_edit : EditPolicy
  pub assistant_activate : Bool
  pub host_edit : Bool

pub data ArtifactScope : Type 0 where
  per_profile per_subject : ArtifactScope

pub record ArtifactDefinition : Type 0 where
  pub name : String
  pub role : String
  pub default : String
  pub policy : ArtifactPolicy
  pub scope : ArtifactScope
  pub keep_versions : Option ℕ
  pub max_chars : Option ℕ

pub record ArtifactCollection : Type 0 where
  pub prefix : String
  pub role : String
  pub policy : ArtifactPolicy
  pub keep_versions : Option ℕ
  pub max_chars : Option ℕ

pub record AssistantProfile : Type 0 where
  pub name : String
  pub artifacts : List ArtifactDefinition
  pub collections : List ArtifactCollection

abbrev is_name_code : ℕ → Bool
is_name_code c = is_between b'a' b'z' c || is_between b'0' b'9' c || c == b'_'

-- ^[a-z][a-z0-9_]{0,63}$
abbrev name_codes : List ℕ → Bool
name_codes [] = false
name_codes (c ∷ s) = is_between b'a' b'z' c && all_codes is_name_code s && leb (length s) 63

-- `s.startswith(prefix)`
abbrev starts_with : (prefix s : List ℕ) → Bool
starts_with [] s = true
starts_with (c ∷ prefix) [] = false
starts_with (c ∷ prefix) (d ∷ s) = c == d && starts_with prefix s

unfoldable pub matches : ArtifactCollection → String → Bool
matches c name =
    starts_with (codes c.prefix) (codes name)
    && ltb (length (codes c.prefix)) (length (codes name))
    && name_codes (codes name)

abbrev pub definition : ArtifactCollection → String → ArtifactDefinition
definition c name = record {
  name = name;
  role = c.role;
  default = "";
  policy = c.policy;
  scope = per_profile;
  keep_versions = c.keep_versions;
  max_chars = c.max_chars;
}

abbrev find_collection : List ArtifactCollection → String → Option ArtifactDefinition
find_collection [] name = none
find_collection (c ∷ cs) name =
    if matches c name then some (definition c name) else find_collection cs name

abbrev find_artifact :
    List ArtifactDefinition → List ArtifactCollection → String → Option ArtifactDefinition
find_artifact [] cs name = find_collection cs name
find_artifact (a ∷ rest) cs name = if a.name == name then some a else find_artifact rest cs name

-- `AssistantProfile.get`
unfoldable pub get : AssistantProfile → String → Option ArtifactDefinition
unfolding matches
get p name = find_artifact p.artifacts p.collections name

abbrev may_propose : EditPolicy → Bool
may_propose no_edit = false
may_propose _ = true

abbrev pub is_autonomous : EditPolicy → Bool
is_autonomous autonomous = true
is_autonomous _ = false

-- `_permitted`
unfoldable pub permitted : ArtifactDefinition → ActorKind → Action → Bool
permitted a host action = a.policy.host_edit
permitted a assistant proposes = may_propose a.policy.assistant_edit
permitted a assistant updates = is_autonomous a.policy.assistant_edit
permitted a assistant activates = a.policy.assistant_activate
permitted a assistant rejects = a.policy.assistant_activate
permitted a assistant deletes = false
