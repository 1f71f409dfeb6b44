-- ===== src/Artifacts/Store.antt =====
-- src/assistant_runtime/services/artifacts/_store.py: InMemoryArtifactStore. A transaction holds the
-- store's one lock, so its calls are one step. `now` is the time of the call.
use assistant_runtime.Prelude.{
  ℕ, ◌+◌, String, Bool, true, false, not, ◌&&◌, Option, none, some, List, [], ◌∷◌, ◌++◌, ◌==◌, Dict,
  lookup, put, remove, keep_if, any, length, take, drop, map, sort_by, ltb, string_ltb, nat_eq,
  string_eq, pair_eq, if◌then◌else◌,
}
use Prim.Native.Nat.{max}
use assistant_runtime.Artifacts.Types.{
  ArtifactVersion, WriterKind, VersionStatus, active, pending, superseded, rejected, is_pending,
  is_superseded,
}

-- scope, subject, name
abbrev pub Key : Type 0
Key = String × (String × String)

pub record ArtifactStore : Type 0 where
  pub versions : Dict Key (List ArtifactVersion)
  pub next_id : ℕ

abbrev pub empty : ArtifactStore
empty = record { versions = []; next_id = 1 }

-- `next((v for v in vs if p(v)), None)`
abbrev pub first : (ArtifactVersion → Bool) → List ArtifactVersion → Option ArtifactVersion
first p [] = none
first p (v ∷ vs) = if p v then some v else first p vs

abbrev pub or_empty : Option (List ArtifactVersion) → List ArtifactVersion
or_empty none = []
or_empty (some vs) = vs

-- `self._versions.get(key, [])`
unfoldable pub versions_at : Key → ArtifactStore → List ArtifactVersion
versions_at k s = or_empty (lookup k s.versions)

abbrev pub set_versions : Key → List ArtifactVersion → ArtifactStore → ArtifactStore
set_versions k vs s = record s { versions = put k vs s.versions }

abbrev pub active_of : List ArtifactVersion → Option ArtifactVersion
active_of vs = first (λ v. v.is_active) vs

abbrev pub version_of : ℕ → List ArtifactVersion → Option ArtifactVersion
version_of n vs = first (λ v. v.version == n) vs

abbrev pub get_active : Key → ArtifactStore → Option ArtifactVersion
get_active k s = active_of (versions_at k s)

abbrev pub get_version : Key → ℕ → ArtifactStore → Option ArtifactVersion
get_version k n s = version_of n (versions_at k s)

abbrev actives_in : String → String → Dict Key (List ArtifactVersion) → List ArtifactVersion
actives_in scope subject [] = []
actives_in scope subject (((s, (t, n)), vs) ∷ d) =
    let rest = actives_in scope subject d in
    if s == scope && t == subject then keep_if (λ v. v.is_active) vs ++ rest else rest

unfoldable pub get_all_active : String → String → ArtifactStore → List ArtifactVersion
get_all_active scope subject s =
    sort_by (λ a b. string_ltb a.name b.name) (actives_in scope subject s.versions)

abbrev pub newest_first : List ArtifactVersion → List ArtifactVersion
newest_first vs = sort_by (λ a b. ltb b.version a.version) vs

unfoldable pub get_history : Key → ℕ → ArtifactStore → List ArtifactVersion
unfolding versions_at
get_history k limit s = take limit (newest_first (versions_at k s))

abbrev before_bound : Option ℕ → ℕ → Bool
before_bound none id = true
before_bound (some b) id = ltb id b

abbrev with_status_in :
    String
    → (VersionStatus → Bool)
    → Option ℕ
    → Dict Key (List ArtifactVersion)
    → List ArtifactVersion
with_status_in scope wanted before_id [] = []
with_status_in scope wanted before_id (((s, (t, n)), vs) ∷ d) =
    let rest = with_status_in scope wanted before_id d in
    if s == scope
    then keep_if (λ v. wanted v.status && before_bound before_id v.id) vs ++ rest
    else rest

abbrev take_limit : Option ℕ → List ArtifactVersion → List ArtifactVersion
take_limit none vs = vs
take_limit (some n) vs = take n vs

unfoldable pub get_by_status :
    String → (VersionStatus → Bool) → Option ℕ → Option ℕ → ArtifactStore → List ArtifactVersion
get_by_status scope wanted limit before_id s =
    take_limit limit
      (sort_by (λ a b. ltb b.id a.id) (with_status_in scope wanted before_id s.versions))

-- `max((v.version for v in vs), default=0)`
abbrev pub newest : List ArtifactVersion → ℕ
newest [] = 0
newest (v ∷ vs) = max v.version (newest vs)

-- The arguments of `propose`.
pub record Draft : Type 0 where
  pub content : String
  pub proposed_by : String
  pub actor_kind : WriterKind
  pub rationale : Option String

abbrev pub proposed : ℕ → Key → Draft → ArtifactStore → ArtifactVersion
proposed now (scope, (subject, name)) d s = record {
  name = name;
  content = d.content;
  version = newest (versions_at (scope, (subject, name)) s) + 1;
  is_active = false;
  proposed_by = d.proposed_by;
  created_at = now;
  id = s.next_id;
  status = pending;
  actor_kind = d.actor_kind;
  rationale = d.rationale;
  decided_by = none;
  decided_at = none;
  decision_reason = none;
  subject = subject;
}

unfoldable pub propose : ℕ → Key → Draft → ArtifactStore → ArtifactVersion × ArtifactStore
unfolding versions_at
propose now k d s =
    let row = proposed now k d s in
    (
      row,
      record s {
        versions = put k (versions_at k s ++ row ∷ []) s.versions;
        next_id = s.next_id + 1;
      },
    )

-- `decision`: by an actor, of a pending version.
abbrev decided : ℕ → Option String → Bool → ArtifactVersion → ArtifactVersion
decided now (some by) true v = record v { decided_by = some by; decided_at = some now }
decided now _ _ v = v

abbrev pub activated : ℕ → Option String → Bool → ArtifactVersion → ArtifactVersion
activated now by was_pending v = record (decided now by was_pending v) {
  is_active = true;
  status = active;
}

abbrev pub step_down : ArtifactVersion → ArtifactVersion
step_down v = if v.is_active then record v { is_active = false; status = superseded } else v

abbrev pub after_activation : ℕ → ℕ → Option String → Bool → ArtifactVersion → ArtifactVersion
after_activation now n by was_pending v =
    if v.version == n then activated now by was_pending v else step_down v

unfoldable pub activate_in :
    ℕ → ℕ → Option String → Bool → List ArtifactVersion → List ArtifactVersion
activate_in now n by was_pending vs = map (after_activation now n by was_pending) vs

unfoldable pub activate :
    ℕ → Key → ℕ → Option String → ArtifactStore → Option ArtifactVersion × ArtifactStore
unfolding versions_at activate_in
activate now k n by s = elim (get_version k n s) [
  | none ↦ (none, s)
  | some target ↦
      let updated = activate_in now n by (is_pending target.status) (versions_at k s) in
      (version_of n updated, set_versions k updated s)
]

abbrev pub declined : ℕ → String → Option String → ArtifactVersion → ArtifactVersion
declined now by reason v = record v {
  status = rejected;
  decided_by = some by;
  decided_at = some now;
  decision_reason = reason;
}

-- The loop of `reject`.
unfoldable pub reject_in :
    ℕ
    → ℕ
    → String
    → Option String
    → List ArtifactVersion
    → Option ArtifactVersion × List ArtifactVersion
reject_in now n by reason [] = (none, [])
reject_in now n by reason (v ∷ vs) =
    let rest = reject_in now n by reason vs in
    if v.version == n && is_pending v.status
    then (some (declined now by reason v), declined now by reason v ∷ vs)
    else (rest.0, v ∷ rest.1)

unfoldable pub reject :
    ℕ → Key → ℕ → String → Option String → ArtifactStore → Option ArtifactVersion × ArtifactStore
unfolding versions_at reject_in
reject now k n by reason s =
    let (r, vs) = reject_in now n by reason (versions_at k s) in
    elim r [ none ↦ (none, s) | some v ↦ (some v, set_versions k vs s) ]

abbrev pub is_in : ℕ → List ℕ → Bool
is_in n ns = any (λ m. m == n) ns

-- The versions that `prune_superseded` drops.
abbrev pub dropped : ℕ → List ArtifactVersion → List ℕ
dropped keep vs =
    map (λ v. v.version) (drop keep (newest_first (keep_if (λ v. is_superseded v.status) vs)))

unfoldable pub prune_in : ℕ → List ArtifactVersion → List ArtifactVersion
prune_in keep vs = keep_if (λ v. not (is_in v.version (dropped keep vs))) vs

unfoldable pub prune_superseded : ℕ → Key → ArtifactStore → ArtifactStore
unfolding versions_at prune_in
prune_superseded keep k s = set_versions k (prune_in keep (versions_at k s)) s

unfoldable pub delete : Key → ArtifactStore → ℕ × ArtifactStore
unfolding versions_at
delete k s = (length (versions_at k s), record s { versions = remove k s.versions })
