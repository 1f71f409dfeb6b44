-- ===== src/Artifacts/Written.antt =====
-- What the transactions of a write, an activation and a decision keep (services/artifacts/interface.py).
use assistant_runtime.Prelude.{
  ℕ, ◌+◌, ◌≤◌, ◌≡◌, refl, ap, ◌∙◌, ◌⊎◌, inl, inr, Bool, true, false, String, Option, none, some,
  List, [], ◌∷◌, ◌++◌, ==_iff, pure, ◌>>=◌, arith, nat_eq, string_eq, All,
}
use assistant_runtime.Prelude.Triples.{
  Keeps, Always, Post, Keeps-pure, Keeps-raise, Keeps-raise_if, Keeps-gets, Keeps-modify,
  Keeps-bind, Post-bind, Post-after, Post-gets, Post-raise_if,
}
use assistant_runtime.Artifacts.Types.{
  is_rejected, Action, updates, activates, rejects, ArtifactVersion, Actor, ArtifactError,
}
use assistant_runtime.Artifacts.Profiles.{ArtifactDefinition}
use assistant_runtime.Artifacts.Store
use assistant_runtime.Artifacts.Store.{
  Key, ArtifactStore, Draft, versions_at, newest, version_of, proposed,
}
use assistant_runtime.Artifacts.Service.{
  Tx, required_row, activate_new, add_version, write_tx, prune, activate_tx, reject_tx,
}
use assistant_runtime.Artifacts.Versions.{below_newest}
use assistant_runtime.Artifacts.Kept.{
  Kept, At, propose-At, activate-At, prune-At, reject-At, versions_at-set_self,
}

-- The proposed row is the one with its number.
version_of-append :
    (n : ℕ) (vs : List ArtifactVersion) (row : ArtifactVersion)
    → All (λ v. v.version ≤ n) vs
    → row.version ≡ n + 1
    → version_of (n + 1) (vs ++ row ∷ []) ≡ some row
version_of-append n [] row h e = ground (arith, e, ==_iff row.version (n + 1))
version_of-append n (v ∷ vs) row (h, hs) e =
    ground (arith, ==_iff v.version (n + 1), version_of-append n vs row hs e)

pub proposed_found :
    (now : ℕ) (k : Key) (d : Draft) (t : ArtifactStore)
    → version_of (newest (versions_at k t) + 1) (versions_at k (Store.propose now k d t).1)
      ≡ some (proposed now k d t)
unfolding Store.propose
proposed_found now k d t =
    ap (version_of (newest (versions_at k t) + 1))
      (versions_at-set_self k (versions_at k t ++ proposed now k d t ∷ []) t)
    ∙ version_of-append _ (versions_at k t) (proposed now k d t) (below_newest (versions_at k t))
        refl

required_row-Keeps :
    {P : ArtifactStore → Type 0} (e : ArtifactError) (r : Option ArtifactVersion)
    → Keeps P (required_row e r) (λ row. r ≡ some row)
required_row-Keeps e none = Keeps-raise e _
required_row-Keeps e (some row) = Keeps-pure row _ refl

found-Post :
    {B : Type 0} (P : ArtifactStore → Type 0) (G : B → Type 0) (t : ArtifactStore)
    (e : ArtifactError) (o : Option ArtifactVersion) (f : ArtifactVersion → Tx B)
    → P t
    → ((row : ArtifactVersion) → o ≡ some row → Post P G (f row t))
    → Post P G ((required_row e o >>= f) t)
unfolding ◌>>=◌
found-Post P G t e none f p k = p
found-Post P G t e (some row) f p k = k row refl

module _ (P : List ArtifactVersion → Type 0) (j : Key) (may : Action → Type 0) (k : Key)
    (kept : k ≡ j → Kept P may) where
  prune-Keeps :
      (keep : Option ℕ) → may updates ⊎ may activates → Keeps (At P j) (prune keep k) Always
  prune-Keeps none m = Keeps-pure tt Always tt
  prune-Keeps (some keep) m = Keeps-modify _ (λ t p. prune-At P j may k kept keep t m p)

  activate_new-Post :
      (now : ℕ) (a : ArtifactDefinition) (row target : ArtifactVersion) (t : ArtifactStore)
      → may updates ⊎ may activates
      → version_of row.version (versions_at k t) ≡ some target
      → is_rejected target.status ≡ false
      → At P j t
      → Post (At P j) Always (activate_new now k a row t)
  activate_new-Post now a row target t m found r p =
      Post-bind (At P j) Always _ _ t Always
        (activate-At P j may k kept now row.version none t target m found r p, tt)
        λ o _.
          Keeps-bind _ _ (required_row-Keeps _ o)
            λ live _. Keeps-bind _ _ (prune-Keeps a.keep_versions m) λ _ _. Keeps-pure _ Always tt

  add_version-Post :
      (now : ℕ) (a : ArtifactDefinition) (d : Draft) (activate : Bool)
      (live same_as : Option ArtifactVersion) (t : ArtifactStore)
      → (activate ≡ true → may updates)
      → At P j t
      → Post (At P j) Always (add_version now k a d activate live same_as t)
  unfolding pure Store.propose versions_at
  add_version-Post now a d activate live (some v) t m p = (p, tt)
  add_version-Post now a d true live none t m p = Post-after (At P j) Always _ _ t _ _ refl (
      activate_new-Post now a (proposed now k d t) (proposed now k d t) _ (inl (m refl))
        (proposed_found now k d t) refl (propose-At P j may k kept now d t p))
  add_version-Post now a d false live none t m p =
      Post-after (At P j) Always _ _ t _ _ refl (propose-At P j may k kept now d t p, tt)

  pub write_tx-Keeps :
      (now : ℕ) (a : ArtifactDefinition) (d : Draft) (activate : Bool) (expected : Option ℕ)
      → (activate ≡ true → may updates)
      → Keeps (At P j) (write_tx now k a d activate expected) Always
  unfolding write_tx
  write_tx-Keeps now a d activate expected m = Keeps-bind _ _ (Keeps-gets _) λ live _.
      Keeps-bind _ _ (Keeps-raise_if _ _)
        λ _ _. record { at = λ t p. add_version-Post now a d activate live _ t m p }

  pub activate_tx-Keeps :
      (now : ℕ) (a : ArtifactDefinition) (n : ℕ) (who : Actor)
      → may activates
      → Keeps (At P j) (activate_tx now k a n who) Always
  unfolding activate_tx
  activate_tx-Keeps now a n who m = record {
    at = λ t p. Post-gets (At P j) Always t _ _ (
        found-Post (At P j) Always t _ _ _ p λ before found.
          Post-raise_if (At P j) Always t _ _ _ p λ r.
            Post-bind (At P j) Always _ _ t Always
              (activate-At P j may k kept now n _ t before (inr m) found r p, tt)
              λ o _. Keeps-bind _ _ (required_row-Keeps _ o) λ row _.
                Keeps-bind _ _ (prune-Keeps a.keep_versions (inr m)) λ _ _. Keeps-pure _ Always tt);
  }

  pub reject_tx-Keeps :
      (now : ℕ) (a : ArtifactDefinition) (n : ℕ) (who : Actor) (reason : Option String)
      → may rejects
      → Keeps (At P j) (reject_tx now k a n who reason) Always
  unfolding reject_tx
  reject_tx-Keeps now a n who reason m = Keeps-bind _ _ (Keeps-gets _) λ found _.
      Keeps-bind _ _ (required_row-Keeps _ found) λ current _.
        Keeps-bind _ _ (Keeps-raise_if _ _) λ _ _.
          Keeps-bind {F = Always} _ _
            (record { at = λ t p. (reject-At P j may k kept now n _ _ t m p, tt) })
            λ o _.
              Keeps-bind _ _ (required_row-Keeps _ o)
                λ row _. Keeps-bind _ _ (Keeps-gets _) λ live _. Keeps-pure _ Always tt
