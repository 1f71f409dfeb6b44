-- ===== src/Artifacts/Retention.antt =====
-- Pruning (services/artifacts/_store.py: prune_superseded) never drops the newest version, which
-- services/artifacts/interface.py relies on (_seed_replaceable).
use assistant_runtime.Prelude.{
  ℕ, zero, suc, ◌≤◌, ◌<◌, ◌≡◌, refl, sym, ap, ◌∙◌, Bool, true, false, not, inl, inr, List, [], ◌∷◌,
  ==_iff, keep_if, drop, sort_by, insert_sorted, All, arith, nat_eq, Bool-cases, ltb,
}
use assistant_runtime.Artifacts.Types.{ArtifactVersion, is_superseded}
use assistant_runtime.Artifacts.Store.{
  Key, ArtifactStore, versions_at, prune_superseded, newest, newest_first, prune_in, dropped, is_in,
}
use assistant_runtime.Artifacts.Versions.{Ascends, below_newest}
use assistant_runtime.Artifacts.Kept.{versions_at-set_self}
use assistant_runtime.Artifacts.Pruning.{
  keep_if-All, keep_if-Ascends, is_number_of, is_number_of-drop,
}

-- The versions fall.
abbrev Descends : List ArtifactVersion → Type 0
Descends [] = Unit
Descends (v ∷ vs) = All (λ w. w.version < v.version) vs × Descends vs

abbrev larger : ArtifactVersion → ArtifactVersion → Bool
larger x y = ltb y.version x.version

insert-All :
    (P : ArtifactVersion → Type 0) (x : ArtifactVersion) (ys : List ArtifactVersion)
    → P x
    → All P ys
    → All P (insert_sorted larger x ys)
insert-All P x [] p h = (p, tt)
insert-All P x (y ∷ ys) p (h, hs) = elim (Bool-cases (larger y x)) [
  | inl e ↦ rw e (h, insert-All P x ys p hs)
  | inr e ↦ rw e (p, (h, hs))
]

-- A version below the others goes to the end.
insert-Descends :
    (x : ArtifactVersion) (ys : List ArtifactVersion)
    → All (λ y. x.version < y.version) ys
    → Descends ys
    → Descends (insert_sorted larger x ys)
insert-Descends x [] h d = (tt, tt)
insert-Descends x (y ∷ ys) (h, hs) (d, ds) = elim (Bool-cases (larger y x)) [
  | inl e ↦ rw e (insert-All (λ w. w.version < y.version) x ys h d, insert-Descends x ys hs ds)
  | inr e ↦ absurd (ground (arith, e, h))
]

sort-All :
    (P : ArtifactVersion → Type 0) (vs : List ArtifactVersion)
    → All P vs
    → All P (sort_by larger vs)
sort-All P [] h = tt
sort-All P (v ∷ vs) (h, hs) = insert-All P v (sort_by larger vs) h (sort-All P vs hs)

sort-Descends : (vs : List ArtifactVersion) → Ascends vs → Descends (sort_by larger vs)
sort-Descends [] a = tt
sort-Descends (v ∷ vs) (a, as1) =
    insert-Descends v (sort_by larger vs) (sort-All _ vs a) (sort-Descends vs as1)

below_absent :
    (n : ℕ) (vs : List ArtifactVersion) → All (λ w. w.version < n) vs → is_number_of n vs ≡ false
below_absent n [] h = refl
below_absent n (v ∷ vs) (h, hs) = ground (arith, h, ==_iff v.version n, below_absent n vs hs)

lower_still :
    (n m : ℕ) (vs : List ArtifactVersion)
    → m ≤ n
    → All (λ w. w.version < m) vs
    → All (λ w. w.version < n) vs
lower_still n m [] l h = tt
lower_still n m (v ∷ vs) l (h, hs) = (omega (arith, h, l), lower_still n m vs l hs)

-- Of a falling list with numbers up to `n`, all but the first are below `n`.
rest_absent :
    (n keep : ℕ) (vs : List ArtifactVersion)
    → Descends vs
    → All (λ w. w.version ≤ n) vs
    → is_number_of n (drop (suc keep) vs) ≡ false
rest_absent n keep [] d h = refl
rest_absent n keep (v ∷ vs) (d, ds) (h, hs) =
    is_number_of-drop n keep vs (below_absent n vs (lower_still n v.version vs h d))

newest-keep_if-le :
    (p : ArtifactVersion → Bool) (vs : List ArtifactVersion) → newest (keep_if p vs) ≤ newest vs
newest-keep_if-le p [] = omega arith
newest-keep_if-le p (v ∷ vs) = elim (Bool-cases (p v)) [
  | inl e ↦ rw e (omega (arith, newest-keep_if-le p vs))
  | inr e ↦ rw e (omega (arith, newest-keep_if-le p vs))
]

-- The newest version stays if its number is kept.
newest-keep_if :
    (q : ℕ → Bool) (vs : List ArtifactVersion)
    → q (newest vs) ≡ true
    → newest (keep_if (λ v. q v.version) vs) ≡ newest vs
newest-keep_if q [] h = refl
newest-keep_if q (v ∷ vs) h = elim (Bool-cases (ltb v.version (newest vs))) [
  | inl below ↦
      let same : newest (v ∷ vs) ≡ newest vs = ground (arith, below) in
      let ih = newest-keep_if q vs (ap q (sym same) ∙ h) in
      elim (Bool-cases (q v.version)) [
        | inl e ↦ rw e (omega (arith, ih))
        | inr e ↦ rw e (ih ∙ sym same)
      ]
  | inr above ↦
      let same : newest (v ∷ vs) ≡ v.version = ground (arith, above) in
      let kept : q v.version ≡ true = ap q (sym same) ∙ h in
      rw kept (omega (arith, same, newest-keep_if-le (λ w. q w.version) vs))
]

-- Where the numbers of an artifact's versions rise, pruning that keeps at least one superseded version
-- leaves the largest number of them as it is.
pub newest-prune_superseded :
    (keep : ℕ) (k : Key) (t : ArtifactStore)
    → 0 < keep
    → Ascends (versions_at k t)
    → newest (versions_at k (prune_superseded keep k t)) ≡ newest (versions_at k t)
unfolding prune_superseded prune_in
newest-prune_superseded zero k t h a = absurd (omega (arith, h))
newest-prune_superseded (suc keep) k t h a =
    rw (versions_at-set_self k _ t)
      (newest-keep_if (λ m. not (is_in m (dropped (suc keep) vs))) vs (rw absent refl))
  where
    vs : List ArtifactVersion
    vs = versions_at k t

    old : List ArtifactVersion
    old = keep_if (λ v. is_superseded v.status) vs

    absent : is_number_of (newest vs) (drop (suc keep) (newest_first old)) ≡ false
    absent =
        rest_absent (newest vs) keep (sort_by larger old)
          (sort-Descends old (keep_if-Ascends _ vs a))
          (sort-All (λ w. w.version ≤ newest vs) old
            (keep_if-All (λ w. w.version ≤ newest vs) _ vs (below_newest vs)))
