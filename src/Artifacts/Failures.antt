-- ===== src/Artifacts/Failures.antt =====
-- What the calls on artifacts (services/artifacts/interface.py) leave behind when they raise.
use assistant_runtime.Prelude.{
  ℕ, ◌≡◌, refl, ap, Bool, true, false, String, Option, none, some, Result, ok, err, pure, raise,
  ◌>>=◌, nat_eq, if◌then◌else◌,
}
use assistant_runtime.Prelude.Atomic.{
  Reads, Atomic, Returns, Atomic-Returns, Reads-pure, Reads-raise, Reads-raise_if, Returns-pure,
  Returns-modify, Reads-bind, read_then, then_return, Returns-bind,
}
use mathlib.Core.Option.{some-injective}
use assistant_runtime.Artifacts.Types.{
  updates, proposes, activates, rejects, deletes, Action, Actor, ArtifactError, unknown_artifact,
}
use assistant_runtime.Artifacts.Profiles
use assistant_runtime.Artifacts.Profiles.{ArtifactDefinition, AssistantProfile}
use assistant_runtime.Artifacts.Store
use assistant_runtime.Artifacts.Store.{
  Key, ArtifactStore, Draft, versions_at, version_of, activate_in, after_activation, reject_in,
  proposed,
}
use assistant_runtime.Artifacts.Service.{Event, Artifacts, M, Written, same, wrote}
use assistant_runtime.Artifacts.Calls
use assistant_runtime.Artifacts.Calls.{
  find_definition, authorize, key_for, finish_write, publish_if,
}
use assistant_runtime.Artifacts.Runs.{
  Call, writes, activation, rejection, deletion, step, error_of, failure,
}
use assistant_runtime.Artifacts.Rollback.{
  write_tx-Atomic, activate_tx-Atomic, reject_tx-Atomic, transaction-Atomic,
}

module _ (p : AssistantProfile) (subject : String) where
  find_definition-Reads : (name : String) → Reads (find_definition p subject name)
  unfolding find_definition
  find_definition-Reads name = go (Profiles.get p name)
    where
      go :
          (o : Option ArtifactDefinition)
          → Reads (
              let m : M ArtifactDefinition = elim o [
                | none ↦ raise (unknown_artifact name)
                | some a ↦ pure a
              ] in
              m)
      go none = Reads-raise _
      go (some a) = Reads-pure a

  key_for-Reads : (a : ArtifactDefinition) (name : String) → Reads (key_for p subject a name)
  unfolding key_for
  key_for-Reads a name = Reads-bind _ _ (Reads-raise_if _ _) λ _. Reads-pure _

  authorize-Reads :
      (a : ArtifactDefinition) (who : Actor) (action : Action)
      → Reads (authorize p subject a who action)
  unfolding authorize
  authorize-Reads a who action = Reads-raise_if _ _

  -- What every method does first.
  admitted :
      {B : Type 0} (name : String) (who : Actor) (action : ArtifactDefinition → Action)
      (f : ArtifactDefinition → Key → M B)
      → ((a : ArtifactDefinition) (k : Key) → Atomic (f a k))
      → Atomic (
          find_definition p subject name >>= λ a.
          authorize p subject a who (action a) >>= λ _. key_for p subject a name >>= f a)
  admitted name who action f h = read_then _ _ (find_definition-Reads name) λ a.
      read_then _ _ (authorize-Reads a who (action a))
        λ _. read_then _ _ (key_for-Reads a name) λ k. h a k

  finish_write-Returns :
      (who : Actor) (activate : Bool) (w : Written) (s : Artifacts)
      → Returns (finish_write p subject who activate w) s
  finish_write-Returns who activate (same v) s = Returns-pure _ s
  finish_write-Returns who true (wrote row live) s =
      Returns-bind _ _ s (Returns-modify _ s) λ _ t _. Returns-pure _ t
  finish_write-Returns who false (wrote row live) s =
      Returns-bind _ _ s (Returns-modify _ s) λ _ t _. Returns-pure _ t

  publish_if-Returns : (b : Bool) (e : Event) (s : Artifacts) → Returns (publish_if p subject b e) s
  publish_if-Returns true e s = Returns-modify _ s
  publish_if-Returns false e s = Returns-pure tt s

  write-Atomic :
      (now : ℕ) (name content : String) (who : Actor) (expected : Option ℕ) (activate : Bool)
      (rationale : Option String)
      → Atomic (Calls.write p subject now name content who expected activate rationale)
  unfolding Calls.write
  write-Atomic now name content who expected activate rationale =
      admitted name who (λ _. if activate then updates else proposes) _
        λ a k. read_then _ _ (Reads-raise_if _ _) λ _. read_then _ _ (Reads-raise_if _ _) λ _.
          then_return _ _ (transaction-Atomic _ (write_tx-Atomic now k a _ activate expected))
            λ w s. finish_write-Returns who activate w s

  activate-Atomic :
      (now : ℕ) (name : String) (n : ℕ) (who : Actor)
      → Atomic (Calls.activate p subject now name n who)
  unfolding Calls.activate
  activate-Atomic now name n who =
      admitted name who (λ _. activates) _
        λ a k. then_return _ _ (transaction-Atomic _ (activate_tx-Atomic now k a n who)) λ r s.
          Returns-bind _ _ s (Returns-modify _ s)
            λ _ t _. Returns-bind _ _ t (publish_if-Returns _ _ t) λ _ u _. Returns-pure _ u

  reject-Atomic :
      (now : ℕ) (name : String) (n : ℕ) (who : Actor) (reason : Option String)
      → Atomic (Calls.reject p subject now name n who reason)
  unfolding Calls.reject
  reject-Atomic now name n who reason =
      admitted name who (λ _. rejects) _
        λ a k.
          then_return _ _ (transaction-Atomic _ (reject_tx-Atomic now k a n who reason))
            λ r s. Returns-bind _ _ s (Returns-modify _ s) λ _ t _. Returns-pure _ t

  delete-Atomic : (name : String) (who : Actor) → Atomic (Calls.delete p subject name who)
  unfolding Calls.delete
  delete-Atomic name who =
      admitted name who (λ _. deletes) _
        λ a k.
          then_return _ _
            (transaction-Atomic _
              (Atomic-Returns λ t. record { value = (Store.delete k t).0; at = refl }))
            λ count s. Returns-bind _ _ s (Returns-modify _ s) λ _ t _. Returns-pure _ t

failed :
    {A : Type 0} {r : Result ArtifactError A} {e : ArtifactError} → error_of r ≡ some e → r ≡ err e
failed {r = ok a} h = cc h
failed {r = err x} h = ap err (some-injective _ _ h)

-- A call that raises, by whomever and on the view of any subject, changes nothing: no version, no
-- generation of the cache, and no event.
pub step-unchanged :
    (p : AssistantProfile) (subject : String) (c : Call) (s : Artifacts) (e : ArtifactError)
    → failure p subject c s ≡ some e
    → step p subject c s ≡ s
unfolding step failure
step-unchanged p subject (writes now name content who expected activate rationale) s e h =
    (write-Atomic p subject now name content who expected activate rationale).at s e (failed h)
step-unchanged p subject (activation now name n who) s e h =
    (activate-Atomic p subject now name n who).at s e (failed h)
step-unchanged p subject (rejection now name n who reason) s e h =
    (reject-Atomic p subject now name n who reason).at s e (failed h)
step-unchanged p subject (deletion name who) s e h =
    (delete-Atomic p subject name who).at s e (failed h)
