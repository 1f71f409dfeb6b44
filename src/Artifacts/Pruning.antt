-- ===== src/Artifacts/Pruning.antt =====
-- What pruning (services/artifacts/_store.py: prune_superseded) drops, and what it keeps.
use assistant_runtime.Prelude.{
  ℕ, zero, suc, ◌≤◌, ◌<◌, ◌≡◌, refl, ap, ◌∙◌, Bool, true, false, not, List, [], ◌∷◌, ◌==◌, ==_iff,
  map, keep_if, drop, sort_by, insert_sorted, All, arith, nat_eq, Bool-cases, inl, inr,
  if◌then◌else◌, ltb,
}
use assistant_runtime.Artifacts.Types.{
  ArtifactVersion, is_superseded, is_rejected, VersionStatus, active, pending, superseded, rejected,
}
use assistant_runtime.Artifacts.Store.{newest_first, prune_in, dropped, is_in}
use assistant_runtime.Artifacts.Versions.{Ascends, IsMarked, IsValid, active_count}

-- A choice of versions.
pub keep_if-All :
    (P : ArtifactVersion → Type 0) (p : ArtifactVersion → Bool) (vs : List ArtifactVersion)
    → All P vs
    → All P (keep_if p vs)
keep_if-All P p [] h = tt
keep_if-All P p (v ∷ vs) (h, hs) = elim (Bool-cases (p v)) [
  | inl e ↦ rw e (h, keep_if-All P p vs hs)
  | inr e ↦ rw e (keep_if-All P p vs hs)
]

pub keep_if-Ascends :
    (p : ArtifactVersion → Bool) (vs : List ArtifactVersion) → Ascends vs → Ascends (keep_if p vs)
keep_if-Ascends p [] a = tt
keep_if-Ascends p (v ∷ vs) (a, as1) = elim (Bool-cases (p v)) [
  | inl e ↦ rw e (keep_if-All _ p vs a, keep_if-Ascends p vs as1)
  | inr e ↦ rw e (keep_if-Ascends p vs as1)
]

keep_if-count :
    (p : ArtifactVersion → Bool) (vs : List ArtifactVersion)
    → active_count (keep_if p vs) ≤ active_count vs
keep_if-count p [] = omega arith
keep_if-count p (v ∷ vs) = elim (Bool-cases (p v)) [
  | inl e ↦ rw e (omega (arith, keep_if-count p vs))
  | inr e ↦ rw e (omega (arith, keep_if-count p vs))
]

pub prune_in-IsValid :
    (keep : ℕ) (vs : List ArtifactVersion) → IsValid vs → IsValid (prune_in keep vs)
unfolding prune_in
prune_in-IsValid keep vs (a, m, c) = (
  keep_if-Ascends _ vs a,
  keep_if-All IsMarked _ vs m,
  omega (arith, c, keep_if-count (λ v. not (is_in v.version (dropped keep vs))) vs),
)

-- Whether a version of the number is rejected.
abbrev pub is_rejected_at : ℕ → List ArtifactVersion → Bool
is_rejected_at n [] = false
is_rejected_at n (v ∷ vs) = if v.version == n then is_rejected v.status else is_rejected_at n vs

-- Whether a number is that of a superseded version.
abbrev pub is_number_of : ℕ → List ArtifactVersion → Bool
is_number_of n vs = is_in n (map (λ v. v.version) vs)

is_number_of-insert :
    (n : ℕ) (before : ArtifactVersion → ArtifactVersion → Bool) (v : ArtifactVersion)
    (vs : List ArtifactVersion)
    → is_number_of n (insert_sorted before v vs) ≡ is_number_of n (v ∷ vs)
is_number_of-insert n before v [] = refl
is_number_of-insert n before v (w ∷ vs) = ground (arith, is_number_of-insert n before v vs)

is_number_of-sort :
    (n : ℕ) (before : ArtifactVersion → ArtifactVersion → Bool) (vs : List ArtifactVersion)
    → is_number_of n (sort_by before vs) ≡ is_number_of n vs
is_number_of-sort n before [] = refl
is_number_of-sort n before (v ∷ vs) =
    ground
      (arith, is_number_of-insert n before v (sort_by before vs), is_number_of-sort n before vs)

pub is_number_of-drop :
    (n keep : ℕ) (vs : List ArtifactVersion)
    → is_number_of n vs ≡ false
    → is_number_of n (drop keep vs) ≡ false
is_number_of-drop n zero vs h = h
is_number_of-drop n (suc keep) [] h = refl
is_number_of-drop n (suc keep) (v ∷ vs) h = is_number_of-drop n keep vs (ground (arith, h))

above_absent :
    (n : ℕ) (p : ArtifactVersion → Bool) (vs : List ArtifactVersion)
    → All (λ w. n < w.version) vs
    → is_number_of n (keep_if p vs) ≡ false
above_absent n p [] h = refl
above_absent n p (v ∷ vs) (h, hs) = ground (arith, h, ==_iff v.version n, above_absent n p vs hs)

rejected_not_superseded : (s : VersionStatus) → is_rejected s ≡ true → is_superseded s ≡ false
rejected_not_superseded active h = refl
rejected_not_superseded pending h = refl
rejected_not_superseded superseded h = cc
rejected_not_superseded rejected h = refl

rejected_absent :
    (n : ℕ) (vs : List ArtifactVersion)
    → Ascends vs
    → is_rejected_at n vs ≡ true
    → is_number_of n (keep_if (λ v. is_superseded v.status) vs) ≡ false
rejected_absent n [] a r = refl
rejected_absent n (v ∷ vs) (a, as1) r = elim (Bool-cases (v.version == n)) [
  | inl e ↦
      let q = (==_iff v.version n).0 e in
      let absent = above_absent v.version (λ v. is_superseded v.status) vs a in
      ground (arith, q, rejected_not_superseded v.status, absent)
  | inr e ↦ ground (arith, e, rejected_absent n vs as1)
]

keep_if-rejected :
    (n : ℕ) (p : ℕ → Bool) (vs : List ArtifactVersion)
    → p n ≡ true
    → is_rejected_at n (keep_if (λ v. p v.version) vs) ≡ is_rejected_at n vs
keep_if-rejected n p [] h = refl
keep_if-rejected n p (v ∷ vs) h = elim (Bool-cases (v.version == n)) [
  | inl e ↦ let kept : p v.version ≡ true = ap p ((==_iff v.version n).0 e) ∙ h in rw (kept, e) refl
  | inr e ↦ ground (arith, e, keep_if-rejected n p vs h)
]

-- A rejected version is not dropped.
pub prune_in-rejected :
    (n keep : ℕ) (vs : List ArtifactVersion)
    → Ascends vs
    → is_rejected_at n vs ≡ true
    → is_rejected_at n (prune_in keep vs) ≡ true
unfolding prune_in
prune_in-rejected n keep vs a r =
    let superseded_ones = keep_if (λ (v : ArtifactVersion). is_superseded v.status) vs in
    let before = λ (x : ArtifactVersion) (y : ArtifactVersion). ltb y.version x.version in
    let absent =
      is_number_of-drop n keep (newest_first superseded_ones)
        (is_number_of-sort n before superseded_ones ∙ rejected_absent n vs a r) in
    keep_if-rejected n (λ m. not (is_in m (dropped keep vs))) vs (rw absent) ∙ r
