-- ===== src/Artifacts/Calls.antt =====
-- src/assistant_runtime/services/artifacts/interface.py: the methods of ArtifactService on one view, that
-- is on its profile and its subject, empty for the profile's view.
use assistant_runtime.Prelude.{
  ℕ, String, Bool, true, false, not, Option, none, some, List, [], ◌∷◌, ◌==◌, pure, raise, raise_if,
  gets, ◌>>=◌, ◌>>◌, keep_if, strip, is_empty, count_chars, nat_eq, string_eq, if◌then◌else◌,
}
use assistant_runtime.Artifacts.Types.{
  ActorKind, actor, Actor, is_pending, Action, proposes, updates, activates, rejects, deletes,
  ArtifactVersion, MutationResult, unknown_artifact, not_permitted, subject_required, no_content,
  too_large,
}
use assistant_runtime.Artifacts.Profiles
use assistant_runtime.Artifacts.Profiles.{
  ArtifactDefinition, ArtifactScope, per_profile, per_subject, AssistantProfile, permitted,
}
use assistant_runtime.Artifacts.Store
use assistant_runtime.Artifacts.Store.{ArtifactStore, Key, Draft}
use assistant_runtime.Artifacts.Service.{
  Event, artifact_proposal, artifact_decision, M, Written, same, wrote, M, activate_tx, exceeds,
  filled, in_tx, invalidate, number_or_none, proposed_by, publish, reject_tx, result, transaction,
  version_or_none, write_tx,
}

-- One view.
module _ (p : AssistantProfile) (subject : String) where
  unfoldable pub find_definition : String → M ArtifactDefinition
  find_definition name = elim (Profiles.get p name) [
    | none ↦ raise (unknown_artifact name)
    | some a ↦ pure a
  ]

  unfoldable pub authorize : ArtifactDefinition → Actor → Action → M (Unit {0})
  authorize a who action =
      raise_if (not (permitted a who.kind action)) (not_permitted who.kind action a.name)

  abbrev pub scoped_subject : ArtifactScope → String
  scoped_subject per_profile = ""
  scoped_subject per_subject = subject

  abbrev lacks_subject : ArtifactScope → Bool
  lacks_subject per_profile = false
  lacks_subject per_subject = is_empty subject

  -- The private _subject_for, and the key of the artifact's versions.
  unfoldable pub key_for : ArtifactDefinition → String → M Key
  key_for a name = do
    raise_if (lacks_subject a.scope) (subject_required a.name)
    pure (p.name, (scoped_subject a.scope, name))

  abbrev pub finish_write : Actor → Bool → Written → M MutationResult
  finish_write who activate (same v) = pure (result v true (some v) true)
  finish_write who true (wrote row live) = do invalidate; pure (result row true live false)
  finish_write who false (wrote row live) = do
    publish (artifact_proposal p.name row (version_or_none live) who)
    pure (result row false live false)

  abbrev draft : Actor → String → Option String → Draft
  draft who content rationale = record {
    content = content;
    proposed_by = proposed_by who;
    actor_kind = actor who.kind;
    rationale = filled rationale;
  }

  -- The private _write.
  unfoldable pub write :
      ℕ
      → (name content : String) → Actor
      → Option ℕ
      → (activate : Bool) → Option String
      → M MutationResult
  unfolding find_definition authorize key_for transaction write_tx Store.propose Store.activate
      Store.prune_superseded
  write now name content who expected activate rationale = do
    a ← find_definition name
    authorize a who (if activate then updates else proposes)
    k ← key_for a name
    raise_if (is_empty (strip content)) (no_content name)
    raise_if (exceeds a.max_chars (count_chars (strip content)))
        (too_large name (number_or_none a.max_chars) (count_chars (strip content)))
    w ← transaction (write_tx now k a (draft who (strip content) rationale) activate expected)
    finish_write who activate w

  abbrev pub propose :
      ℕ → (name content : String) → Actor → Option ℕ → Option String → M MutationResult
  propose now name content who expected rationale =
      write now name content who expected false rationale

  abbrev pub update : ℕ → (name content : String) → Actor → Option ℕ → M MutationResult
  update now name content who expected = write now name content who expected true none

  abbrev pub publish_if : Bool → Event → M (Unit {0})
  publish_if true e = publish e
  publish_if false e = pure tt

  unfoldable pub activate : ℕ → (name : String) → ℕ → Actor → M MutationResult
  unfolding find_definition authorize key_for transaction activate_tx Store.activate
      Store.prune_superseded
  activate now name n who = do
    a ← find_definition name
    authorize a who activates
    k ← key_for a name
    (before, row) ← transaction (activate_tx now k a n who)
    invalidate
    publish_if (is_pending before.status) (artifact_decision p.name row who)
    pure (result row true (some row) false)

  unfoldable pub reject : ℕ → (name : String) → ℕ → Actor → Option String → M MutationResult
  unfolding find_definition authorize key_for transaction reject_tx Store.reject
  reject now name n who reason = do
    a ← find_definition name
    authorize a who rejects
    k ← key_for a name
    (row, live) ← transaction (reject_tx now k a n who reason)
    publish (artifact_decision p.name row who)
    pure (result row false live false)

  unfoldable pub delete : (name : String) → Actor → M ℕ
  unfolding find_definition authorize key_for transaction Store.delete
  delete name who = do
    a ← find_definition name
    authorize a who deletes
    k ← key_for a name
    count ← transaction (in_tx (Store.delete k))
    invalidate
    pure count

  abbrev or_limit : Option ℕ → ℕ → ℕ
  or_limit none d = d
  or_limit (some n) d = if n == 0 then d else n

  unfoldable pub get_active : (name : String) → M (Option ArtifactVersion)
  unfolding find_definition key_for transaction
  get_active name = do
    a ← find_definition name
    k ← key_for a name
    transaction (gets (Store.get_active k))

  unfoldable pub history : (name : String) → Option ℕ → M (List ArtifactVersion)
  unfolding find_definition key_for transaction
  history name limit s =
      (do
        a ← find_definition name
        k ← key_for a name
        transaction (gets (Store.get_history k (or_limit limit s.history_limit))))
        s

  -- `allowed_actions`
  unfoldable pub allowed_actions : (name : String) → ActorKind → M (List Action)
  unfolding find_definition permitted
  allowed_actions name kind = do
    a ← find_definition name
    pure (keep_if (permitted a kind) (proposes ∷ updates ∷ activates ∷ deletes ∷ []))
