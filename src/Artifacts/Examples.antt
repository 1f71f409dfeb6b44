-- ===== src/Artifacts/Examples.antt =====
-- Concrete calls on artifacts (services/artifacts/interface.py).
use assistant_runtime.Prelude.{
  ℕ, ◌≡◌, refl, String, none, some, List, [], ◌∷◌, true, false, lookup, ◌>>=◌, arith, is_empty,
  strip, put,
}
use assistant_runtime.Artifacts.Types.{
  superseded, ArtifactVersion, active, actor, Actor, assistant, host, not_permitted, updates,
}
use assistant_runtime.Artifacts.Profiles
use assistant_runtime.Artifacts.Profiles.{
  AssistantProfile, ArtifactDefinition, propose_only, per_profile,
}
use assistant_runtime.Artifacts.Store
use assistant_runtime.Artifacts.Service.{Artifacts, start}
use assistant_runtime.Artifacts.Calls
use assistant_runtime.Artifacts.Versions.{IsValid}
use assistant_runtime.Artifacts.Runs
use assistant_runtime.Artifacts.Runs.{Call, writes, activation, rejection, deletion, step, run}
use assistant_runtime.Artifacts.Holding.{Held}
use assistant_runtime.Artifacts.Guarded.{run-IsValid, assistant-active, Live}
use assistant_runtime.Artifacts.Decisions.{assistant-rejected, Declined}
use assistant_runtime.Artifacts.Retention.{newest-prune_superseded}
use assistant_runtime.Artifacts.Failures.{step-unchanged}

abbrev notes : ArtifactDefinition
notes = record {
  name = "notes";
  role = "notes";
  default = "";
  policy = record { assistant_edit = propose_only; assistant_activate = false; host_edit = true };
  scope = per_profile;
  keep_versions = some 1;
  max_chars = none;
}

abbrev profile : AssistantProfile
profile = record { name = "main"; artifacts = notes ∷ []; collections = [] }

abbrev helper : Actor
helper = record { kind = assistant; label = "helper"; session_id = none }

abbrev keeper : Actor
keeper = record { kind = host; label = "keeper"; session_id = none }

abbrev stopped : Artifacts
stopped = record { history_limit = 20; store = none; generation = 0; published = [] }

-- The host writes a text, and rejects a proposal of the assistant.
abbrev host_calls : List (String × Call)
host_calls =
    ("", writes 1 "notes" "first" keeper none true none)
    ∷ ("", writes 2 "notes" "second" helper (some 1) false (some "shorter"))
    ∷ ("", rejection 3 "notes" 2 keeper (some "no"))
    ∷ []

abbrev assistant_calls : List (String × Call)
assistant_calls =
    ("", writes 4 "notes" "third" helper none false none)
    ∷ ("", activation 5 "notes" 2 helper)
    ∷ ("", writes 6 "notes" "fourth" helper none true none)
    ∷ []

run-IsValid_example : Held IsValid ("main", ("", "notes")) (run profile host_calls (start stopped))
run-IsValid_example = run-IsValid profile host_calls stopped ("main", ("", "notes")) refl

assistant-rejected_example :
    Held
      (Declined 2)
      ("main", ("", "notes"))
      (run profile assistant_calls (run profile host_calls (start stopped)))
unfolding run step Calls.write Calls.reject start Store.versions_at ◌>>=◌ Profiles.get
    Profiles.permitted lookup is_empty strip put
assistant-rejected_example =
    assistant-rejected profile ("main", ("", "notes")) 2 assistant_calls
      (run profile host_calls (start stopped)) (refl, (refl, (refl, tt)))
      ((((omega arith, tt), (tt, tt)), (refl, (refl, tt)), omega arith), refl)

step-unchanged_example :
    step profile ""
      (writes 6 "notes" "fourth" helper none true none)
      (run profile host_calls (start stopped))
    ≡ run profile host_calls (start stopped)
unfolding run step Calls.write Calls.reject start Runs.failure ◌>>=◌ Profiles.get Profiles.permitted
step-unchanged_example =
    step-unchanged profile "" (writes 6 "notes" "fourth" helper none true none)
      (run profile host_calls (start stopped)) (not_permitted assistant updates "notes") refl

abbrev first_text : ArtifactVersion
first_text = record {
  name = "notes";
  content = "first";
  version = 1;
  is_active = true;
  proposed_by = "keeper";
  created_at = 1;
  id = 1;
  status = active;
  actor_kind = actor host;
  rationale = none;
  decided_by = none;
  decided_at = none;
  decision_reason = none;
  subject = "";
}

assistant-active_example :
    Held
      (Live (some first_text))
      ("main", ("", "notes"))
      (run profile assistant_calls (run profile host_calls (start stopped)))
unfolding run step Calls.write Calls.reject start Store.versions_at ◌>>=◌ Profiles.get
    Profiles.permitted lookup is_empty strip put
assistant-active_example =
    assistant-active profile "" "notes" notes assistant_calls
      (run profile host_calls (start stopped)) (some first_text) refl refl refl
      (refl, (refl, (refl, tt))) refl

abbrev old_text : ℕ → ArtifactVersion
old_text n = record first_text { version = n; id = n; is_active = false; status = superseded }

abbrev shelf : Store.ArtifactStore
shelf = record {
  versions = (("main", ("", "notes")), first_text ∷ old_text 2 ∷ old_text 3 ∷ []) ∷ [];
  next_id = 4;
}

newest-prune_superseded_example :
    Store.newest (
      Store.versions_at
        ("main", ("", "notes"))
        (Store.prune_superseded 1 ("main", ("", "notes")) shelf))
    ≡ Store.newest (Store.versions_at ("main", ("", "notes")) shelf)
unfolding Store.versions_at lookup
newest-prune_superseded_example =
    newest-prune_superseded 1 ("main", ("", "notes")) shelf (omega arith)
      ((omega arith, (omega arith, tt)), ((omega arith, tt), (tt, tt)))
