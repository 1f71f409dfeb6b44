-- ===== src/Artifacts/Decisions.antt =====
-- What the assistant does to the decisions on versions (services/artifacts/interface.py): nothing.
use assistant_runtime.Prelude.{
  ℕ, ◌≡◌, refl, sym, ap, ◌∙◌, inl, inr, Bool, true, false, String, Option, some, List, [], ◌∷◌,
  ◌++◌, ◌==◌, ==_iff, map, arith, nat_eq, Bool-cases, All, if◌then◌else◌,
}
use mathlib.Core.Path.{subst}
use assistant_runtime.Artifacts.Types.{
  Action, deletes, ArtifactVersion, VersionStatus, active, pending, superseded, rejected,
  is_rejected, is_active_status,
}
use assistant_runtime.Artifacts.Profiles.{AssistantProfile, permitted}
use assistant_runtime.Artifacts.Store.{
  Key, version_of, after_activation, activated, activate_in, reject_in,
}
use assistant_runtime.Artifacts.Service.{Artifacts}
use assistant_runtime.Artifacts.Versions.{IsValid, IsMarked, append-IsValid}
use assistant_runtime.Artifacts.Activations.{
  after_activation_fields, activate_in-IsValid, reject_in-IsValid,
}
use assistant_runtime.Artifacts.Pruning.{prune_in-IsValid, is_rejected_at, prune_in-rejected}
use assistant_runtime.Artifacts.Kept.{Kept}
use assistant_runtime.Artifacts.Runs.{Call, run}
use assistant_runtime.Artifacts.Holding.{Held, run-Held}
use assistant_runtime.Artifacts.Guarded.{ByAssistant, for_assistant}

-- A decision stands.
abbrev pub Declined : ℕ → List ArtifactVersion → Type 0
Declined n vs = IsValid vs × (is_rejected_at n vs ≡ true)

rejected_target :
    (n : ℕ) (vs : List ArtifactVersion) (t : ArtifactVersion)
    → is_rejected_at n vs ≡ true
    → version_of n vs ≡ some t
    → is_rejected t.status ≡ true
rejected_target n [] t r f = cc r
rejected_target n (v ∷ vs) t r f = elim (Bool-cases (v.version == n)) [
  | inl e ↦ ground (arith, e, r, f)
  | inr e ↦ rejected_target n vs t (ground (arith, e, r)) (ground (arith, e, f))
]

append-rejected :
    (n : ℕ) (vs : List ArtifactVersion) (row : ArtifactVersion)
    → is_rejected_at n vs ≡ true
    → is_rejected_at n (vs ++ row ∷ []) ≡ true
append-rejected n [] row r = cc r
append-rejected n (v ∷ vs) row r = ground (arith, append-rejected n vs row)

reject_in-rejected :
    (now m : ℕ) (by : String) (reason : Option String) (n : ℕ) (vs : List ArtifactVersion)
    → is_rejected_at n vs ≡ true
    → is_rejected_at n (reject_in now m by reason vs).1 ≡ true
unfolding reject_in
reject_in-rejected now m by reason n [] r = r
reject_in-rejected now m by reason n (v ∷ vs) r =
    ground (arith, reject_in-rejected now m by reason n vs)

rejected_inactive :
    (v : ArtifactVersion) → IsMarked v → is_rejected v.status ≡ true → v.is_active ≡ false
rejected_inactive v m r = m ∙ go v.status r
  where
    go : (s : VersionStatus) → is_rejected s ≡ true → is_active_status s ≡ false
    go active h = cc
    go pending h = refl
    go superseded h = cc
    go rejected h = refl

false_not_true : false ≡ true → ⊥
false_not_true h = cc

after_rejected :
    (now m : ℕ) (by : Option String) (p : Bool) (v : ArtifactVersion)
    → (v.version == m) ≡ false
    → v.is_active ≡ false
    → after_activation now m by p v ≡ v
after_rejected now m by p v d i = go (v.version == m) v.is_active d i
  where
    go :
        (b c : Bool)
        → b ≡ false
        → c ≡ false
        → (if b
            then activated now by p v
            else if c
            then record v { is_active = false; status = superseded }
            else v)
          ≡ v
    go true c h k = cc
    go false true h k = cc
    go false false h k = refl

-- Activating another version leaves a rejected one.
activate_other :
    (now m : ℕ) (by : Option String) (p : Bool) (n : ℕ) (vs : List ArtifactVersion)
    → (n == m) ≡ false
    → All IsMarked vs
    → is_rejected_at n vs ≡ true
    → is_rejected_at n (map (after_activation now m by p) vs) ≡ true
activate_other now m by p n [] d k r = r
activate_other now m by p n (v ∷ vs) d (k, ks) r = elim (Bool-cases (v.version == n)) [
  | inl e ↦
      let q = (==_iff v.version n).0 e in
      let rejected_one : is_rejected v.status ≡ true = ground (arith, e, r) in
      let same =
        after_rejected now m by p v (ap (λ (x : ℕ). x == m) q ∙ d)
          (rejected_inactive v k rejected_one) in
      rw (same, e) rejected_one
  | inr e ↦
      let number = (after_activation_fields now m by p v).0 in
      rw (number, e) (activate_other now m by p n vs d ks (ground (arith, e, r)))
]

Declined-Kept : (n : ℕ) (may : Action → Type 0) → (may deletes → ⊥) → Kept (Declined n) may
unfolding activate_in
Declined-Kept n may no_delete = record {
  on_propose = λ vs row v i st h. (append-IsValid vs row v i st h.0, append-rejected n vs row h.1);
  on_activate = λ now m by p vs target may_do found r h. (
    activate_in-IsValid now m by p vs h.0,
    activate_other now m by p n vs (differs m vs target found r h.1) h.0.1 h.1,
  );
  on_prune = λ keep vs m h. (prune_in-IsValid keep vs h.0, prune_in-rejected n keep vs h.0.0 h.1);
  on_reject = λ now m by reason vs may_do h.
      (reject_in-IsValid now m by reason vs h.0, reject_in-rejected now m by reason n vs h.1);
  on_delete = λ m. absurd (no_delete m);
}
  where
    differs :
        (m : ℕ) (vs : List ArtifactVersion) (target : ArtifactVersion)
        → version_of m vs ≡ some target
        → is_rejected target.status ≡ false
        → is_rejected_at n vs ≡ true
        → (n == m) ≡ false
    differs m vs target found r h = elim (Bool-cases (n == m)) [
      | inl e ↦
          let q = (==_iff n m).0 e in
          let both =
            rejected_target m vs target (subst (λ x. is_rejected_at x vs ≡ true) q h) found in
          absurd (false_not_true (sym r ∙ both))
      | inr e ↦ e
    ]

-- Once a version is rejected, no sequence of the assistant's calls, whatever the policies permit it, makes
-- it anything else or drops it.
pub assistant-rejected :
    (p : AssistantProfile) (k : Key) (n : ℕ) (cs : List (String × Call)) (s : Artifacts)
    → All ByAssistant cs
    → Held (Declined n) k s
    → Held (Declined n) k (run p cs s)
unfolding permitted
assistant-rejected p k n cs s all h =
    run-Held _ k p cs s
      (for_assistant _ k p cs (λ a e. Declined-Kept n _ (λ (d : false ≡ true). cc)) all) h
