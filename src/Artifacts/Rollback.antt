-- ===== src/Artifacts/Rollback.antt =====
-- What the transactions on artifacts (services/artifacts/interface.py, _store.py) leave behind when they raise.
use assistant_runtime.Prelude.{
  ℕ, ◌≡◌, refl, sym, ◌∙◌, inl, inr, Bool, true, false, String, Option, none, some, List, [], ◌∷◌,
  ◌==◌, map, Result, err, pure, ◌>>=◌, continue, arith, nat_eq, Bool-cases, Option-cases,
  if◌then◌else◌,
}
use assistant_runtime.Prelude.Atomic.{
  Reads, Atomic, Returns, Returns-raised, Atomic-Reads, Atomic-Returns, Reads-pure, Reads-raise,
  Reads-gets, Reads-raise_if, Returns-pure, Returns-gets, Returns-modify, read_then, Returns-bind,
  Returns-after,
}
use assistant_runtime.Artifacts.Types.{is_pending, ArtifactVersion, Actor, ArtifactError}
use assistant_runtime.Artifacts.Profiles.{ArtifactDefinition}
use assistant_runtime.Artifacts.Store
use assistant_runtime.Artifacts.Store.{
  Key, ArtifactStore, Draft, versions_at, version_of, activate_in, after_activation, reject_in,
  proposed,
}
use assistant_runtime.Artifacts.Service.{
  Artifacts, Tx, same, wrote, in_tx, required_row, transaction, activate_new, add_version, write_tx,
  prune, activate_tx, reject_tx,
}
use assistant_runtime.Artifacts.Activations.{after_activation_fields}
use assistant_runtime.Artifacts.Written.{proposed_found}

-- A step that finds nothing raises, and has changed nothing.
attempt-Atomic :
    {B : Type 0} (f : ArtifactStore → Option ArtifactVersion × ArtifactStore) (e : ArtifactError)
    (g : ArtifactVersion → Tx B)
    → ((t : ArtifactStore) → (f t).0 ≡ none → (f t).1 ≡ t)
    → ((w : ArtifactVersion) (t : ArtifactStore) → Returns (g w) t)
    → Atomic (in_tx f >>= λ o. required_row e o >>= g)
unfolding ◌>>=◌
attempt-Atomic f e g quiet rg = record { at = λ t x. go t x (f t).0 (f t).1 (quiet t) }
  where
    go :
        (t : ArtifactStore) (x : ArtifactError) (o : Option ArtifactVersion) (t' : ArtifactStore)
        → (o ≡ none → t' ≡ t)
        → (continue (required_row e o t').0 g (required_row e o t').1).0 ≡ err x
        → (continue (required_row e o t').0 g (required_row e o t').1).1 ≡ t
    go t x none t' q h = q refl
    go t x (some w) t' q h = absurd (Returns-raised x (rg w t') h)

attempt-Returns :
    {B : Type 0} (f : ArtifactStore → Option ArtifactVersion × ArtifactStore) (e : ArtifactError)
    (g : ArtifactVersion → Tx B) (t : ArtifactStore) (w : ArtifactVersion)
    → (f t).0 ≡ some w
    → ((t' : ArtifactStore) → Returns (g w) t')
    → Returns (in_tx f >>= λ o. required_row e o >>= g) t
unfolding ◌>>=◌
attempt-Returns f e g t w h rg = let y = rg (f t).1 in record { value = y.value; at = rw h (y.at) }

-- An activated version is there.
version_of-map :
    (now m : ℕ) (by : Option String) (p : Bool) (n : ℕ) (vs : List ArtifactVersion)
    (target : ArtifactVersion)
    → version_of n vs ≡ some target
    → (w : ArtifactVersion) × (version_of n (map (after_activation now m by p) vs) ≡ some w)
version_of-map now m by p n [] target h = cc h
version_of-map now m by p n (v ∷ vs) target h = elim (Bool-cases (v.version == n)) [
  | inl e ↦ (after_activation now m by p v, rw ((after_activation_fields now m by p v).0, e) refl)
  | inr e ↦
      let (w, q) = version_of-map now m by p n vs target (ground (arith, e, h)) in
      (w, rw ((after_activation_fields now m by p v).0, e) q)
]

activate_found :
    (now : ℕ) (k : Key) (n : ℕ) (by : Option String) (t : ArtifactStore) (target : ArtifactVersion)
    → version_of n (versions_at k t) ≡ some target
    → (w : ArtifactVersion) × ((Store.activate now k n by t).0 ≡ some w)
unfolding Store.activate activate_in
activate_found now k n by t target h =
    let (w, q) = version_of-map now n by (is_pending target.status) n (versions_at k t) target h in
    (w, rw (h, Store.activate) q)

activate_quiet :
    (now : ℕ) (k : Key) (n : ℕ) (by : Option String) (t : ArtifactStore)
    → (Store.activate now k n by t).0 ≡ none
    → (Store.activate now k n by t).1 ≡ t
activate_quiet now k n by t h = elim (Option-cases (version_of n (versions_at k t))) [
  | inl e ↦ unfold Store.activate in rw (e, Store.activate) refl
  | inr (target, e) ↦
      let (w, q) = activate_found now k n by t target e in absurd (none_not_some (sym h ∙ q))
]
  where
    none_not_some : {w : ArtifactVersion} → none ≡ some w → ⊥
    none_not_some h = cc h

reject_quiet :
    (now : ℕ) (k : Key) (n : ℕ) (by : String) (reason : Option String) (t : ArtifactStore)
    → (Store.reject now k n by reason t).0 ≡ none
    → (Store.reject now k n by reason t).1 ≡ t
unfolding Store.reject
reject_quiet now k n by reason t h =
    elim (Option-cases (reject_in now n by reason (versions_at k t)).0) [
      | inl e ↦ rw (e, Store.reject) refl
      | inr (v, e) ↦ absurd (some_not_none (rw (e, Store.reject) at h))
    ]
  where
    some_not_none : {w : ArtifactVersion} → some w ≡ none → ⊥
    some_not_none h = cc h

prune-Returns : (keep : Option ℕ) (k : Key) (t : ArtifactStore) → Returns (prune keep k) t
prune-Returns none k t = Returns-pure tt t
prune-Returns (some n) k t = Returns-modify _ t

activate_new-Returns :
    (now : ℕ) (k : Key) (a : ArtifactDefinition) (row target : ArtifactVersion) (t : ArtifactStore)
    → version_of row.version (versions_at k t) ≡ some target
    → Returns (activate_new now k a row) t
activate_new-Returns now k a row target t h =
    let (w, q) = activate_found now k row.version none t target h in
    attempt-Returns _ _ _ t w q
      λ t'. Returns-bind _ _ t' (prune-Returns a.keep_versions k t') λ _ t2 _. Returns-pure _ t2

add_version-Returns :
    (now : ℕ) (k : Key) (a : ArtifactDefinition) (d : Draft) (activate : Bool)
    (live : Option ArtifactVersion) (t : ArtifactStore)
    → Returns (add_version now k a d activate live none) t
unfolding Store.propose
add_version-Returns now k a d activate live t = Returns-after _ _ t _ _ refl (go activate)
  where
    go :
        (b : Bool)
        → let row = (Store.propose now k d t).0 in
          Returns
            (if b then activate_new now k a row else pure (wrote row live))
            (Store.propose now k d t).1
    go true =
        activate_new-Returns now k a (Store.propose now k d t).0 (proposed now k d t)
          (Store.propose now k d t).1 (proposed_found now k d t)
    go false = Returns-pure _ _

add_version-Atomic :
    (now : ℕ) (k : Key) (a : ArtifactDefinition) (d : Draft) (activate : Bool)
    (live same_as : Option ArtifactVersion)
    → Atomic (add_version now k a d activate live same_as)
add_version-Atomic now k a d activate live (some v) = Atomic-Reads (Reads-pure (same v))
add_version-Atomic now k a d activate live none =
    Atomic-Returns λ t. add_version-Returns now k a d activate live t

pub write_tx-Atomic :
    (now : ℕ) (k : Key) (a : ArtifactDefinition) (d : Draft) (activate : Bool) (expected : Option ℕ)
    → Atomic (write_tx now k a d activate expected)
unfolding write_tx
write_tx-Atomic now k a d activate expected =
    read_then _ _ (Reads-gets _)
      λ live. read_then _ _ (Reads-raise_if _ _) λ _. add_version-Atomic now k a d activate live _

required_row-Reads : (e : ArtifactError) (o : Option ArtifactVersion) → Reads (required_row e o)
required_row-Reads e none = Reads-raise e
required_row-Reads e (some row) = Reads-pure row

pub activate_tx-Atomic :
    (now : ℕ) (k : Key) (a : ArtifactDefinition) (n : ℕ) (who : Actor)
    → Atomic (activate_tx now k a n who)
unfolding activate_tx
activate_tx-Atomic now k a n who = read_then _ _ (Reads-gets _) λ found.
    read_then _ _ (required_row-Reads _ found) λ before. read_then _ _ (Reads-raise_if _ _) λ _.
      attempt-Atomic _ _ _ (activate_quiet now k n _)
        λ w t. Returns-bind _ _ t (prune-Returns a.keep_versions k t) λ _ t2 _. Returns-pure _ t2

pub reject_tx-Atomic :
    (now : ℕ) (k : Key) (a : ArtifactDefinition) (n : ℕ) (who : Actor) (reason : Option String)
    → Atomic (reject_tx now k a n who reason)
unfolding reject_tx
reject_tx-Atomic now k a n who reason = read_then _ _ (Reads-gets _) λ found.
    read_then _ _ (required_row-Reads _ found) λ current. read_then _ _ (Reads-raise_if _ _) λ _.
      attempt-Atomic _ _ _ (reject_quiet now k n _ _)
        λ w t. Returns-bind _ _ t (Returns-gets _ t) λ _ t2 _. Returns-pure _ t2

pub transaction-Atomic : {A : Type 0} (m : Tx A) → Atomic m → Atomic (transaction m)
unfolding transaction
transaction-Atomic {A} m am = record { at = λ s e. go s s.store e }
  where
    finish :
        (s : Artifacts) (t : ArtifactStore) (e : ArtifactError)
        (r : Result ArtifactError A × ArtifactStore)
        → (r.0 ≡ err e → r.1 ≡ t)
        → r.0 ≡ err e
        → record s { store = some r.1 } ≡ record s { store = some t }
    finish s t e r q h = rw (q h) refl

    go :
        (s : Artifacts) (o : Option ArtifactStore) (e : ArtifactError)
        → (transaction m (record s { store = o })).0 ≡ err e
        → (transaction m (record s { store = o })).1 ≡ record s { store = o }
    go s none e h = refl
    go s (some t) e h = finish s t e (m t) (am.at t e) h
