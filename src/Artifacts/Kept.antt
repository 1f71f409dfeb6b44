-- ===== src/Artifacts/Kept.antt =====
-- One rule for the operations on the versions of an artifact (services/artifacts/interface.py): what they
-- keep of the versions of one key, the calls on the others included.
use assistant_runtime.Prelude.{
  ℕ, ◌+◌, ◌≡◌, refl, sym, ◌⊎◌, inl, inr, Bool, true, false, String, Option, none, some, List, [],
  ◌∷◌, ◌++◌, ◌==◌, beq_refl, lookup, lookup-put, lookup-remove, nat_eq, string_eq, pair_eq,
  Bool-cases, Option-cases, if◌then◌else◌,
}
use mathlib.Core.Path.{subst}
use assistant_runtime.Artifacts.Types.{
  pending, is_rejected, Action, updates, activates, rejects, deletes, ArtifactVersion,
}
use assistant_runtime.Artifacts.Store
use assistant_runtime.Artifacts.Store.{
  Key, ArtifactStore, Draft, versions_at, set_versions, or_empty, newest, activate_in, reject_in,
  prune_in, version_of, proposed,
}

-- What the changes of one artifact's versions keep, as far as the actor may make them.
pub record Kept (P : List ArtifactVersion → Type 0) (may : Action → Type 0) : Type 0 where
  pub on_propose :
      (vs : List ArtifactVersion) (row : ArtifactVersion)
      → row.version ≡ newest vs + 1
      → row.is_active ≡ false
      → row.status ≡ pending
      → P vs
      → P (vs ++ row ∷ [])
  pub on_activate :
      (now n : ℕ) (by : Option String) (p : Bool) (vs : List ArtifactVersion)
      (target : ArtifactVersion)
      → may updates ⊎ may activates
      → version_of n vs ≡ some target
      → is_rejected target.status ≡ false
      → P vs
      → P (activate_in now n by p vs)
  pub on_prune :
      (keep : ℕ) (vs : List ArtifactVersion)
      → may updates ⊎ may activates
      → P vs
      → P (prune_in keep vs)
  pub on_reject :
      (now n : ℕ) (by : String) (reason : Option String) (vs : List ArtifactVersion)
      → may rejects
      → P vs
      → P (reject_in now n by reason vs).1
  pub on_delete : may deletes → P []

-- The versions at one key, after a write at the same or another.
pub versions_at-set :
    (k j : Key) (vs : List ArtifactVersion) (t : ArtifactStore)
    → versions_at j (set_versions k vs t) ≡ (if k == j then vs else versions_at j t)
unfolding versions_at
versions_at-set k j vs t = rw (lookup-put k j vs t.versions) (go (k == j))
  where
    go :
        (b : Bool)
        → or_empty (if b then some vs else lookup j t.versions)
          ≡ (if b then vs else or_empty (lookup j t.versions))
    go true = refl
    go false = refl

pub versions_at-set_self :
    (k : Key) (vs : List ArtifactVersion) (t : ArtifactStore)
    → versions_at k (set_versions k vs t) ≡ vs
versions_at-set_self k vs t = rw (versions_at-set k k vs t, beq_refl k) refl

versions_at-delete :
    (k j : Key) (t : ArtifactStore)
    → versions_at j (Store.delete k t).1 ≡ (if k == j then [] else versions_at j t)
unfolding versions_at Store.delete
versions_at-delete k j t = rw (lookup-remove k j t.versions) (go (k == j))
  where
    go :
        (b : Bool)
        → or_empty (if b then none else lookup j t.versions)
          ≡ (if b then [] else or_empty (lookup j t.versions))
    go true = refl
    go false = refl

module _ (P : List ArtifactVersion → Type 0) (j : Key) where
  -- `P` of the versions at the key.
  abbrev pub At : ArtifactStore → Type 0
  At t = P (versions_at j t)

  if_same :
      (k : Key) (vs : List ArtifactVersion) (t : ArtifactStore)
      → (k ≡ j → P (versions_at k t) → P vs)
      → At t
      → P (if k == j then vs else versions_at j t)
  if_same k vs t h p = elim (Bool-cases (k == j)) [
    | inl e ↦
        let q = (pair_eq.eqb_iff k j).0 e in rw e (h q (subst (λ i. P (versions_at i t)) (sym q) p))
    | inr e ↦ rw e p
  ]

  set-At :
      (k : Key) (vs : List ArtifactVersion) (t : ArtifactStore)
      → (k ≡ j → P (versions_at k t) → P vs)
      → At t
      → At (set_versions k vs t)
  set-At k vs t h p = rw (versions_at-set k j vs t) (if_same k vs t h p)

  -- What the store's operations keep at the key.
  module _ (may : Action → Type 0) (k : Key) (kept : k ≡ j → Kept P may) where
    pub propose-At :
        (now : ℕ) (d : Draft) (t : ArtifactStore) → At t → At (Store.propose now k d t).1
    unfolding Store.propose
    propose-At now d t p =
        set-At k _ t (λ e q. (kept e).on_propose _ (proposed now k d t) refl refl refl q) p

    pub activate-At :
        (now n : ℕ) (by : Option String) (t : ArtifactStore) (target : ArtifactVersion)
        → may updates ⊎ may activates
        → version_of n (versions_at k t) ≡ some target
        → is_rejected target.status ≡ false
        → At t
        → At (Store.activate now k n by t).1
    unfolding Store.activate
    activate-At now n by t target m found r p =
        rw (found, Store.activate)
          (set-At k _ t (λ e q. (kept e).on_activate now n by _ _ target m found r q) p)

    pub prune-At :
        (keep : ℕ) (t : ArtifactStore)
        → may updates ⊎ may activates
        → At t
        → At (Store.prune_superseded keep k t)
    unfolding Store.prune_superseded
    prune-At keep t m p = set-At k _ t (λ e q. (kept e).on_prune keep _ m q) p

    pub reject-At :
        (now n : ℕ) (by : String) (reason : Option String) (t : ArtifactStore)
        → may rejects
        → At t
        → At (Store.reject now k n by reason t).1
    unfolding Store.reject
    reject-At now n by reason t m p =
        elim (Option-cases (reject_in now n by reason (versions_at k t)).0) [
          | inl e ↦ rw (e, Store.reject) p
          | inr (v, e) ↦
              rw (e, Store.reject)
                (set-At k _ t (λ q r. (kept q).on_reject now n by reason _ m r) p)
        ]

    pub delete-At : (t : ArtifactStore) → may deletes → At t → At (Store.delete k t).1
    delete-At t m p = rw (versions_at-delete k j t) (if_same k [] t (λ e q. (kept e).on_delete m) p)
