-- ===== src/Artifacts/Holding.antt =====
-- What the calls on artifacts (services/artifacts/interface.py) keep, by what each change keeps.
use assistant_runtime.Prelude.{
  ℕ, ◌≡◌, refl, sym, ap, ◌∙◌, Bool, true, false, String, Option, none, some, List, [], ◌∷◌, Result,
  ok, err, pure, raise, arith, if◌then◌else◌, All,
}
use mathlib.Core.Path.{subst}
use assistant_runtime.Prelude.Triples.{
  Keeps, Always, Post, Post-state, Keeps-pure, Keeps-raise, Keeps-raise_if, Keeps-modify,
  Keeps-weaken, Keeps-bind,
}
use assistant_runtime.Artifacts.Types.{
  ActorKind, Action, proposes, updates, activates, rejects, deletes, ArtifactVersion, Actor,
  ArtifactError, unknown_artifact,
}
use assistant_runtime.Artifacts.Profiles
use assistant_runtime.Artifacts.Profiles.{ArtifactDefinition, AssistantProfile, permitted}
use assistant_runtime.Artifacts.Store.{Key, ArtifactStore}
use assistant_runtime.Artifacts.Service.{Event, Artifacts, M, Tx, Written, same, wrote, transaction}
use assistant_runtime.Artifacts.Calls
use assistant_runtime.Artifacts.Calls.{
  find_definition, authorize, key_for, scoped_subject, finish_write, publish_if,
}
use assistant_runtime.Artifacts.Kept.{Kept, At, delete-At}
use assistant_runtime.Artifacts.Written.{write_tx-Keeps, activate_tx-Keeps, reject_tx-Keeps}
use assistant_runtime.Artifacts.Runs.{
  Call, writes, activation, rejection, deletion, caller, step, run,
}

abbrev InStore : (P : ArtifactStore → Type 0) → Option ArtifactStore → Type 0
InStore P none = Unit
InStore P (some t) = P t

-- The versions at the key, where there is a store.
abbrev pub Held : (P : List ArtifactVersion → Type 0) → Key → Artifacts → Type 0
Held P j s = InStore (At P j) s.store

module _ (P : List ArtifactVersion → Type 0) (j : Key) where
  transaction-Held :
      {A : Type 0} (m : Tx A) (F : A → Type 0)
      → Keeps (At P j) m F
      → Keeps (Held P j) (transaction m) F
  unfolding transaction
  transaction-Held {A} m F k = record { at = λ s h. go s s.store h }
    where
      finish :
          (s : Artifacts) (r : Result ArtifactError A × ArtifactStore)
          → Post (At P j) F r
          → Post (Held P j) F (r.0, record s { store = some r.1 })
      finish s (ok a, t) q = q
      finish s (err e, t) q = q

      go :
          (s : Artifacts) (o : Option ArtifactStore)
          → InStore (At P j) o
          → Post (Held P j) F (transaction m (record s { store = o }))
      go s none h = tt
      go s (some t) h = finish s (m t) (k.at t h)

-- What the actor may do to the artifact of the key keeps `P`.
abbrev pub MayKeep :
    (P : List ArtifactVersion → Type 0) → Key → AssistantProfile → ActorKind → Type 0
MayKeep P j p kind =
    (a : ArtifactDefinition)
    → Profiles.get p j.1.1 ≡ some a
    → Kept P (λ action. permitted a kind action ≡ true)

module _ (P : List ArtifactVersion → Type 0) (j : Key) (p : AssistantProfile)
    (subject : String) where
  find_definition-Keeps :
      (name : String)
      → Keeps (Held P j) (find_definition p subject name) (λ a. Profiles.get p name ≡ some a)
  unfolding find_definition
  find_definition-Keeps name = go (Profiles.get p name)
    where
      go :
          (o : Option ArtifactDefinition)
          → Keeps
              (Held P j)
              (let m : M ArtifactDefinition = elim o [
                | none ↦ raise (unknown_artifact name)
                | some a ↦ pure a
              ] in
                m)
              (λ a. o ≡ some a)
      go none = Keeps-raise _ _
      go (some a) = Keeps-pure a _ refl

  authorize-Keeps :
      (a : ArtifactDefinition) (who : Actor) (action : Action)
      → Keeps
          (Held P j)
          (authorize p subject a who action)
          (λ _. permitted a who.kind action ≡ true)
  unfolding authorize
  authorize-Keeps a who action = Keeps-weaken _ (Keeps-raise_if _ _) (λ _ h. ground (arith, h))

  key_for-Keeps :
      (a : ArtifactDefinition) (name : String)
      → Keeps
          (Held P j)
          (key_for p subject a name)
          (λ k. k ≡ (p.name, (scoped_subject p subject a.scope, name)))
  unfolding key_for
  key_for-Keeps a name = Keeps-bind _ _ (Keeps-raise_if _ _) λ _ _. Keeps-pure _ _ refl

  finish_write-Keeps :
      (who : Actor) (activate : Bool) (w : Written)
      → Keeps (Held P j) (finish_write p subject who activate w) Always
  finish_write-Keeps who activate (same v) = Keeps-pure _ Always tt
  finish_write-Keeps who true (wrote row live) =
      Keeps-bind {F = Always} _ _ (Keeps-modify _ (λ s h. h)) λ _ _. Keeps-pure _ Always tt
  finish_write-Keeps who false (wrote row live) =
      Keeps-bind {F = Always} _ _ (Keeps-modify _ (λ s h. h)) λ _ _. Keeps-pure _ Always tt

  publish_if-Keeps : (b : Bool) (e : Event) → Keeps (Held P j) (publish_if p subject b e) Always
  publish_if-Keeps true e = Keeps-modify _ (λ s h. h)
  publish_if-Keeps false e = Keeps-pure tt Always tt

  kept_at :
      (kind : ActorKind) (name : String) (a : ArtifactDefinition) (k : Key)
      → MayKeep P j p kind
      → Profiles.get p name ≡ some a
      → k ≡ (p.name, (scoped_subject p subject a.scope, name))
      → k ≡ j
      → Kept P (λ action. permitted a kind action ≡ true)
  kept_at kind name a k kept found e q =
      kept a (ap (λ (i : Key). Profiles.get p i.1.1) (sym q ∙ e) ∙ found)

  write-Keeps :
      (now : ℕ) (name content : String) (who : Actor) (expected : Option ℕ) (activate : Bool)
      (rationale : Option String)
      → MayKeep P j p who.kind
      → Keeps
          (Held P j)
          (Calls.write p subject now name content who expected activate rationale)
          Always
  unfolding Calls.write
  write-Keeps now name content who expected activate rationale kept =
      Keeps-bind _ _ (find_definition-Keeps name) λ a found.
        Keeps-bind _ _ (authorize-Keeps a who (if activate then updates else proposes)) λ _ allowed.
          Keeps-bind _ _ (key_for-Keeps a name) λ k e. Keeps-bind _ _ (Keeps-raise_if _ _) λ _ _.
            Keeps-bind _ _ (Keeps-raise_if _ _) λ _ _.
              Keeps-bind _ _
                (transaction-Held P j _ _ (
                  write_tx-Keeps P j (λ action. permitted a who.kind action ≡ true) k
                    (kept_at who.kind name a k kept found e) now a _ activate expected
                    (λ on.
                      subst (λ b. permitted a who.kind (if b then updates else proposes) ≡ true) on
                        allowed)))
                λ w _. finish_write-Keeps who activate w

  activate-Keeps :
      (now : ℕ) (name : String) (n : ℕ) (who : Actor)
      → MayKeep P j p who.kind
      → Keeps (Held P j) (Calls.activate p subject now name n who) Always
  unfolding Calls.activate
  activate-Keeps now name n who kept = Keeps-bind _ _ (find_definition-Keeps name) λ a found.
      Keeps-bind _ _ (authorize-Keeps a who activates) λ _ allowed.
        Keeps-bind _ _ (key_for-Keeps a name) λ k e.
          Keeps-bind _ _
            (transaction-Held P j _ _ (
              activate_tx-Keeps P j (λ action. permitted a who.kind action ≡ true) k
                (kept_at who.kind name a k kept found e) now a n who allowed))
            λ r _. Keeps-bind {F = Always} _ _ (Keeps-modify _ (λ s h. h)) λ _ _.
              Keeps-bind {F = Always} _ _ (publish_if-Keeps _ _) λ _ _. Keeps-pure _ Always tt

  reject-Keeps :
      (now : ℕ) (name : String) (n : ℕ) (who : Actor) (reason : Option String)
      → MayKeep P j p who.kind
      → Keeps (Held P j) (Calls.reject p subject now name n who reason) Always
  unfolding Calls.reject
  reject-Keeps now name n who reason kept = Keeps-bind _ _ (find_definition-Keeps name) λ a found.
      Keeps-bind _ _ (authorize-Keeps a who rejects) λ _ allowed.
        Keeps-bind _ _ (key_for-Keeps a name) λ k e.
          Keeps-bind _ _
            (transaction-Held P j _ _ (
              reject_tx-Keeps P j (λ action. permitted a who.kind action ≡ true) k
                (kept_at who.kind name a k kept found e) now a n who reason allowed))
            λ r _.
              Keeps-bind {F = Always} _ _ (Keeps-modify _ (λ s h. h)) λ _ _. Keeps-pure _ Always tt

  delete-Keeps :
      (name : String) (who : Actor)
      → MayKeep P j p who.kind
      → Keeps (Held P j) (Calls.delete p subject name who) Always
  unfolding Calls.delete
  delete-Keeps name who kept = Keeps-bind _ _ (find_definition-Keeps name) λ a found.
      Keeps-bind _ _ (authorize-Keeps a who deletes) λ _ allowed.
        Keeps-bind _ _ (key_for-Keeps a name) λ k e.
          Keeps-bind {F = Always} _ _
            (transaction-Held P j _ Always (record {
              at = λ t h. (
                delete-At P j (λ action. permitted a who.kind action ≡ true) k
                    (kept_at who.kind name a k kept found e) t allowed h,
                tt,
              );
            }))
            λ count _.
              Keeps-bind {F = Always} _ _ (Keeps-modify _ (λ s h. h)) λ _ _. Keeps-pure _ Always tt

  pub step-Held :
      (c : Call) (s : Artifacts)
      → MayKeep P j p (caller c).kind
      → Held P j s
      → Held P j (step p subject c s)
  unfolding step
  step-Held (writes now name content who expected activate rationale) s kept h =
      Post-state (Held P j) Always _
        ((write-Keeps now name content who expected activate rationale kept).at s h)
  step-Held (activation now name n who) s kept h =
      Post-state (Held P j) Always _ ((activate-Keeps now name n who kept).at s h)
  step-Held (rejection now name n who reason) s kept h =
      Post-state (Held P j) Always _ ((reject-Keeps now name n who reason kept).at s h)
  step-Held (deletion name who) s kept h =
      Post-state (Held P j) Always _ ((delete-Keeps name who kept).at s h)

-- What every permitted change keeps, any sequence of calls keeps.
pub run-Held :
    (P : List ArtifactVersion → Type 0) (j : Key) (p : AssistantProfile) (cs : List (String × Call))
    (s : Artifacts)
    → All (λ c. MayKeep P j p (caller c.1).kind) cs
    → Held P j s
    → Held P j (run p cs s)
unfolding run
run-Held P j p [] s kept h = h
run-Held P j p ((subject, c) ∷ cs) s (kept, rest) h =
    run-Held P j p cs _ rest (step-Held P j p subject c s kept h)
