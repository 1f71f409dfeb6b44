-- ===== src/Artifacts/Runs.antt =====
-- The calls on the artifacts of one profile (services/artifacts/interface.py), one after the other, each on
-- the view of a subject, with the time and the caller.
use assistant_runtime.Prelude.{ℕ, Bool, String, Option, none, some, List, [], ◌∷◌, Result, ok, err}
use assistant_runtime.Artifacts.Types.{Actor, ArtifactError}
use assistant_runtime.Artifacts.Profiles.{AssistantProfile}
use assistant_runtime.Artifacts.Service.{Artifacts}
use assistant_runtime.Artifacts.Calls
use assistant_runtime.Artifacts.Calls.{
  find_definition, authorize, key_for, scoped_subject, finish_write, publish_if,
}

pub data Call : Type 0 where
  writes : ℕ → (name content : String) → Actor → Option ℕ → (activate : Bool) → Option String → Call
  activation : ℕ → (name : String) → ℕ → Actor → Call
  rejection : ℕ → (name : String) → ℕ → Actor → Option String → Call
  deletion : (name : String) → Actor → Call

abbrev pub caller : Call → Actor
caller (writes now name content who expected activate rationale) = who
caller (activation now name n who) = who
caller (rejection now name n who reason) = who
caller (deletion name who) = who

-- The state after a call on the view of a subject, whether or not it raises.
unfoldable pub step : AssistantProfile → String → Call → Artifacts → Artifacts
step p subject (writes now name content who expected activate rationale) s =
    (Calls.write p subject now name content who expected activate rationale s).1
step p subject (activation now name n who) s = (Calls.activate p subject now name n who s).1
step p subject (rejection now name n who reason) s =
    (Calls.reject p subject now name n who reason s).1
step p subject (deletion name who) s = (Calls.delete p subject name who s).1

abbrev pub error_of : {A : Type 0} → Result ArtifactError A → Option ArtifactError
error_of (ok a) = none
error_of (err e) = some e

-- What a call raises, if anything.
unfoldable pub failure : AssistantProfile → String → Call → Artifacts → Option ArtifactError
failure p subject (writes now name content who expected activate rationale) s =
    error_of (Calls.write p subject now name content who expected activate rationale s).0
failure p subject (activation now name n who) s =
    error_of (Calls.activate p subject now name n who s).0
failure p subject (rejection now name n who reason) s =
    error_of (Calls.reject p subject now name n who reason s).0
failure p subject (deletion name who) s = error_of (Calls.delete p subject name who s).0

unfoldable pub run : AssistantProfile → List (String × Call) → Artifacts → Artifacts
run p [] s = s
run p ((subject, c) ∷ cs) s = run p cs (step p subject c s)
