-- ===== src/Artifacts/Service.antt =====
-- src/assistant_runtime/services/artifacts/interface.py: ArtifactService, with the store in memory, as far
-- as it reads and writes versions. A view is its profile and its subject, empty for the profile's view; what
-- the views share is the state of their owner. The cache of texts is not modelled.
use assistant_runtime.Prelude.{
  ℕ, ◌+◌, String, Bool, false, not, ◌&&◌, Option, none, some, List, [], ◌∷◌, ◌++◌, ◌==◌, ok, err,
  Exec, pure, raise, raise_if, gets, modify, ◌>>=◌, ◌>>◌, any, strip, is_empty, ltb, nat_eq,
  string_eq, if◌then◌else◌,
}
use assistant_runtime.Artifacts.Types.{
  ActorKind, assistant, host, seed, is_seed, Actor, is_pending, is_rejected, ArtifactVersion,
  MutationResult, ArtifactError, not_started, version_conflict, no_version, was_rejected,
  not_pending,
}
use assistant_runtime.Artifacts.Profiles.{ArtifactDefinition}
use assistant_runtime.Artifacts.Store
use assistant_runtime.Artifacts.Store.{ArtifactStore, Key, Draft}

-- An event for the hosts.
pub data Event : Type 0 where
  artifact_proposal :
      (profile : String) → ArtifactVersion → (active_version : Option ℕ) → (by : Actor) → Event
  artifact_decision : (profile : String) → ArtifactVersion → (by : Actor) → Event

-- The owner's state; `generation` counts the writes.
pub record Artifacts : Type 0 where
  pub history_limit : ℕ
  pub store : Option ArtifactStore
  pub generation : ℕ
  pub published : List Event

abbrev pub M : Type 0 → Type 0
M A = Exec Artifacts ArtifactError A

abbrev pub Tx : Type 0 → Type 0
Tx A = Exec ArtifactStore ArtifactError A

abbrev kind_text : ActorKind → String
kind_text assistant = "assistant"
kind_text host = "host"

-- `Actor.proposed_by`
abbrev pub proposed_by : Actor → String
proposed_by a = if is_empty a.label then kind_text a.kind else a.label

-- `(text or "").strip() or None`
abbrev pub filled : Option String → Option String
filled none = none
filled (some t) = if is_empty (strip t) then none else some (strip t)

abbrev pub version_or_none : Option ArtifactVersion → Option ℕ
version_or_none none = none
version_or_none (some v) = some v.version

abbrev pub number_or_zero : Option ArtifactVersion → ℕ
number_or_zero none = 0
number_or_zero (some v) = v.version

abbrev pub content_or : Option ArtifactVersion → String → String
content_or none d = d
content_or (some v) d = v.content

abbrev pub not_at : Option ℕ → ℕ → Bool
not_at none current = false
not_at (some e) current = not (current == e)

abbrev pub number_or_none : Option ℕ → ℕ
number_or_none none = 0
number_or_none (some n) = n

abbrev pub exceeds : Option ℕ → ℕ → Bool
exceeds none n = false
exceeds (some m) n = ltb m n

-- The private _require_store, and the transaction on the store.
unfoldable pub transaction : {A : Type 0} → Tx A → M A
transaction m s = elim s.store [
  | none ↦ (err not_started, s)
  | some t ↦ let (r, t') = m t in (r, record s { store = some t' })
]

abbrev pub in_tx : {A : Type 0} → (ArtifactStore → A × ArtifactStore) → Tx A
in_tx f t = let (a, t') = f t in (ok a, t')

-- A service has a store exactly while it is started.
unfoldable pub start : Artifacts → Artifacts
start s = elim s.store [
  | none ↦ record s { store = some Store.empty; generation = s.generation + 1 }
  | some t ↦ s
]

unfoldable pub stop : Artifacts → Artifacts
stop s = record s { store = none; generation = s.generation + 1 }

abbrev pub invalidate : M (Unit {0})
invalidate = modify (λ s. record s { generation = s.generation + 1 })

abbrev pub publish : Event → M (Unit {0})
publish e = modify (λ s. record s { published = s.published ++ e ∷ [] })

abbrev pub result : ArtifactVersion → Bool → Option ArtifactVersion → Bool → MutationResult
result row activated live unchanged = record {
  version = row;
  activated = activated;
  live_version = version_or_none live;
  unchanged = unchanged;
  durable = false;
}

-- The private _prune, under the artifact's lock.
abbrev pub prune : Option ℕ → Key → Tx (Unit {0})
prune none k = pure tt
prune (some keep) k = modify (Store.prune_superseded keep k)

abbrev pub required_row : {E A : Type 0} → E → Option A → Exec ArtifactStore E A
required_row e none = raise e
required_row e (some row) = pure row

-- What a write did: nothing, or a new version and what is active then.
pub data Written : Type 0 where
  same : ArtifactVersion → Written
  wrote : (row : ArtifactVersion) → (live : Option ArtifactVersion) → Written

abbrev pub unchanged_by : String → Option ArtifactVersion → Option ArtifactVersion
unchanged_by content none = none
unchanged_by content (some v) = if v.content == content then some v else none

abbrev pub activate_new : ℕ → Key → ArtifactDefinition → ArtifactVersion → Tx Written
activate_new now k a row = do
  r ← in_tx (Store.activate now k row.version none)
  live ← required_row (no_version a.name row.version) r
  prune a.keep_versions k
  pure (wrote live (some live))

abbrev pub add_version :
    ℕ
    → Key
    → ArtifactDefinition
    → Draft
    → Bool
    → Option ArtifactVersion
    → Option ArtifactVersion
    → Tx Written
add_version now k a d activate live (some v) = pure (same v)
add_version now k a d activate live none = do
  row ← in_tx (Store.propose now k d)
  if activate then activate_new now k a row else pure (wrote row live)

-- The transaction of `_write`.
unfoldable pub write_tx : ℕ → Key → ArtifactDefinition → Draft → Bool → Option ℕ → Tx Written
write_tx now k a d activate expected = do
  live ← gets (Store.get_active k)
  raise_if (not_at expected (number_or_zero live))
      (version_conflict (number_or_zero live) (number_or_none expected) (content_or live a.default))
  add_version now k a d activate live (unchanged_by d.content live)

-- `_seed_replaceable`
unfoldable pub seed_replaceable : Key → ArtifactVersion → String → ArtifactStore → Bool
seed_replaceable k v content t =
    is_seed v.actor_kind
    && v.is_active
    && not (v.content == content)
    && not (any (λ h. not (is_seed h.actor_kind)) (Store.get_history k v.version t))

abbrev seed_draft : String → Draft
seed_draft content = record {
  content = content;
  proposed_by = "seed";
  actor_kind = seed;
  rationale = none;
}

abbrev pub write_seed : ℕ → Key → ArtifactDefinition → String → ArtifactStore → ArtifactStore
write_seed now k a content t =
    let (row, t1) = Store.propose now k (seed_draft content) t in
    let t2 = (Store.activate now k row.version none t1).1 in
    elim a.keep_versions [ none ↦ t2 | some keep ↦ Store.prune_superseded keep k t2 ]

abbrev pub seed_from :
    ℕ → Key → ArtifactDefinition → String → List ArtifactVersion → ArtifactStore → ArtifactStore
seed_from now k a content [] t = if is_empty content then t else write_seed now k a content t
seed_from now k a content (v ∷ vs) t =
    if seed_replaceable k v content t
    then (if is_empty content then (Store.delete k t).1 else write_seed now k a content t)
    else t

-- The transaction of `_seed_defaults` for one artifact. The code runs it only on a store in a database.
unfoldable pub seed_default : ℕ → Key → ArtifactDefinition → ArtifactStore → ArtifactStore
unfolding seed_replaceable Store.propose Store.activate Store.prune_superseded Store.delete
    Store.get_history
seed_default now k a t = seed_from now k a (strip a.default) (Store.get_history k 1 t) t

-- The transaction of `activate`: the version before and after.
unfoldable pub activate_tx :
    ℕ → Key → ArtifactDefinition → ℕ → Actor → Tx (ArtifactVersion × ArtifactVersion)
activate_tx now k a n who = do
  found ← gets (Store.get_version k n)
  before ← required_row (no_version a.name n) found
  raise_if (is_rejected before.status) (was_rejected a.name n)
  r ← in_tx (Store.activate now k n (some (proposed_by who)))
  row ← required_row (no_version a.name n) r
  prune a.keep_versions k
  pure (before, row)

-- The transaction of `reject`: the version and what is active.
unfoldable pub reject_tx :
    ℕ
    → Key
    → ArtifactDefinition
    → ℕ
    → Actor
    → Option String
    → Tx (ArtifactVersion × Option ArtifactVersion)
reject_tx now k a n who reason = do
  found ← gets (Store.get_version k n)
  current ← required_row (no_version a.name n) found
  raise_if (not (is_pending current.status)) (not_pending a.name n current.status)
  r ← in_tx (Store.reject now k n (proposed_by who) (filled reason))
  row ← required_row (no_version a.name n) r
  live ← gets (Store.get_active k)
  pure (row, live)
