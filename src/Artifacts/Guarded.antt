-- ===== src/Artifacts/Guarded.antt =====
-- What no sequence of calls (services/artifacts/interface.py) breaks: the versions stay well formed, and the
-- assistant changes no live text and no decision that its policy leaves to the host.
use assistant_runtime.Prelude.{
  ◌≡◌, none, refl, sym, ◌∙◌, ◌⊎◌, inl, inr, true, false, String, Option, some, List, [], ◌∷◌, ◌++◌,
  arith, nat_eq, All, lookup,
}
use mathlib.Core.Path.{subst}
use mathlib.Core.Option.{some-injective}
use assistant_runtime.Artifacts.Types.{
  assistant, Action, updates, activates, rejects, deletes, ArtifactVersion,
}
use assistant_runtime.Artifacts.Profiles
use assistant_runtime.Artifacts.Profiles.{
  ArtifactDefinition, AssistantProfile, permitted, is_autonomous,
}
use assistant_runtime.Artifacts.Store.{Key, versions_at, active_of}
use assistant_runtime.Artifacts.Service.{Artifacts, start}
use assistant_runtime.Artifacts.Versions.{IsValid, append-IsValid}
use assistant_runtime.Artifacts.Activations.{activate_in-IsValid, reject_in-IsValid}
use assistant_runtime.Artifacts.Pruning.{prune_in-IsValid}
use assistant_runtime.Artifacts.Kept.{Kept}
use assistant_runtime.Artifacts.Runs.{Call, caller, run}
use assistant_runtime.Artifacts.Holding.{Held, MayKeep, run-Held}

-- Every change keeps the versions well formed, whoever makes it.
IsValid-Kept : (may : Action → Type 0) → Kept IsValid may
IsValid-Kept may = record {
  on_propose = append-IsValid;
  on_activate = λ now n by p vs target m found r h. activate_in-IsValid now n by p vs h;
  on_prune = λ keep vs m h. prune_in-IsValid keep vs h;
  on_reject = λ now n by reason vs m h. reject_in-IsValid now n by reason vs h;
  on_delete = λ m. (tt, tt, omega arith);
}

every : {A : Type 0} (P : A → Type 0) → ((a : A) → P a) → (xs : List A) → All P xs
every P f [] = tt
every P f (x ∷ xs) = (f x, every P f xs)

-- After the start of a service that was not started, and any calls of any callers, on the views of any
-- subjects, the versions of every artifact have rising numbers, at most one of them is active, and a version
-- is marked as active exactly if its status says so.
pub run-IsValid :
    (p : AssistantProfile) (cs : List (String × Call)) (s : Artifacts) (k : Key)
    → s.store ≡ none
    → Held IsValid k (run p cs (start s))
unfolding start versions_at lookup
run-IsValid p cs s k e =
    run-Held IsValid k p cs (start s) (every _ (λ c a found. IsValid-Kept _) cs)
      (rw (e, start) (tt, tt, omega arith))

-- Every call is the assistant's.
abbrev pub ByAssistant : String × Call → Type 0
ByAssistant c = (caller c.1).kind ≡ assistant

-- What is active.
abbrev pub Live : Option ArtifactVersion → List ArtifactVersion → Type 0
Live live vs = active_of vs ≡ live

append-active :
    (vs : List ArtifactVersion) (row : ArtifactVersion)
    → row.is_active ≡ false
    → active_of (vs ++ row ∷ []) ≡ active_of vs
append-active [] row i = rw i refl
append-active (v ∷ vs) row i = ground (arith, append-active vs row i)

module _ (a : ArtifactDefinition) (edit : is_autonomous a.policy.assistant_edit ≡ false)
    (act : a.policy.assistant_activate ≡ false) where
  not_allowed : permitted a assistant updates ≡ true ⊎ permitted a assistant activates ≡ true → ⊥
  unfolding permitted
  not_allowed (inl h) = ground (arith, edit, h)
  not_allowed (inr h) = ground (arith, act, h)

  guarded-Kept :
      (live : Option ArtifactVersion)
      → Kept (Live live) (λ action. permitted a assistant action ≡ true)
  unfolding permitted
  guarded-Kept live = record {
    on_propose = λ vs row n i st h. append-active vs row i ∙ h;
    on_activate = λ now n by p vs target m found r h. absurd (not_allowed m);
    on_prune = λ keep vs m h. absurd (not_allowed m);
    on_reject = λ now n by reason vs m h. absurd (not_rejects m);
    on_delete = λ m. absurd (not_deletes m);
  }
    where
      not_rejects : permitted a assistant rejects ≡ true → ⊥
      not_rejects h = ground (arith, act, h)

      not_deletes : permitted a assistant deletes ≡ true → ⊥
      not_deletes h = cc

pub for_assistant :
    (P : List ArtifactVersion → Type 0) (k : Key) (p : AssistantProfile) (cs : List (String × Call))
    → MayKeep P k p assistant
    → All ByAssistant cs
    → All (λ c. MayKeep P k p (caller c.1).kind) cs
for_assistant P k p [] h all = tt
for_assistant P k p (c ∷ cs) h (e, rest) =
    (subst (MayKeep P k p) (sym e) h, for_assistant P k p cs h rest)

-- If the policy of an artifact lets the assistant neither update nor activate, then no sequence of the
-- assistant's calls, on any view, changes which version of the artifact is active, or that version.
pub assistant-active :
    (p : AssistantProfile) (subject name : String) (a : ArtifactDefinition)
    (cs : List (String × Call)) (s : Artifacts) (live : Option ArtifactVersion)
    → Profiles.get p name ≡ some a
    → is_autonomous a.policy.assistant_edit ≡ false
    → a.policy.assistant_activate ≡ false
    → All ByAssistant cs
    → Held (Live live) (p.name, (subject, name)) s
    → Held (Live live) (p.name, (subject, name)) (run p cs s)
assistant-active p subject name a cs s live found edit act all h =
    run-Held (Live live) k p cs s (for_assistant (Live live) k p cs keeps all) h
  where
    k : Key
    k = (p.name, (subject, name))

    keeps : MayKeep (Live live) k p assistant
    keeps b e =
        subst
          (λ (x : ArtifactDefinition).
            Kept (Live live) (λ action. permitted x assistant action ≡ true))
          (some-injective a b (sym found ∙ e)) (guarded-Kept a edit act live)
