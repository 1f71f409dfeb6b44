-- ===== src/Artifacts/Versions.antt =====
-- The versions of one artifact (services/artifacts/_store.py) and what the operations on them keep.
use assistant_runtime.Prelude.{
  ℕ, ◌+◌, ◌≤◌, ◌<◌, ◌≡◌, refl, false, List, [], ◌∷◌, ◌++◌, All, one_if, arith, nat_eq,
}
use assistant_runtime.Artifacts.Types.{ArtifactVersion, pending, is_active_status}
use assistant_runtime.Artifacts.Store.{newest}

-- The versions rise.
abbrev pub Ascends : List ArtifactVersion → Type 0
Ascends [] = Unit
Ascends (v ∷ vs) = All (λ w. v.version < w.version) vs × Ascends vs

-- A version is marked as active exactly if that is its status.
abbrev pub IsMarked : ArtifactVersion → Type 0
IsMarked v = v.is_active ≡ is_active_status v.status

abbrev pub active_count : List ArtifactVersion → ℕ
active_count [] = 0
active_count (v ∷ vs) = one_if v.is_active + active_count vs

abbrev pub IsValid : List ArtifactVersion → Type 0
IsValid vs = Ascends vs × All IsMarked vs × (active_count vs ≤ 1)

-- What adding a proposal keeps.
pub below_newest : (vs : List ArtifactVersion) → All (λ v. v.version ≤ newest vs) vs
below_newest [] = tt
below_newest (v ∷ vs) = (omega arith, go vs (below_newest vs))
  where
    go :
        (ws : List ArtifactVersion)
        → All (λ w. w.version ≤ newest vs) ws
        → All (λ w. w.version ≤ newest (v ∷ vs)) ws
    go [] h = tt
    go (w ∷ ws) (h, hs) = (omega (arith, h), go ws hs)

Ascends-append :
    (vs : List ArtifactVersion) (row : ArtifactVersion)
    → All (λ v. v.version < row.version) vs
    → Ascends vs
    → Ascends (vs ++ row ∷ [])
Ascends-append [] row h a = (tt, tt)
Ascends-append (v ∷ vs) row (h, hs) (a, as1) = (go vs a, Ascends-append vs row hs as1)
  where
    go :
        (ws : List ArtifactVersion)
        → All (λ w. v.version < w.version) ws
        → All (λ w. v.version < w.version) (ws ++ row ∷ [])
    go [] k = (h, tt)
    go (w ∷ ws) (k, ks) = (k, go ws ks)

All-snoc :
    (P : ArtifactVersion → Type 0) (vs : List ArtifactVersion) (row : ArtifactVersion)
    → All P vs
    → P row
    → All P (vs ++ row ∷ [])
All-snoc P [] row h r = (r, tt)
All-snoc P (v ∷ vs) row (h, hs) r = (h, All-snoc P vs row hs r)

All-weaken :
    (P Q : ArtifactVersion → Type 0) (vs : List ArtifactVersion)
    → ((v : ArtifactVersion) → P v → Q v)
    → All P vs
    → All Q vs
All-weaken P Q [] f h = tt
All-weaken P Q (v ∷ vs) f (h, hs) = (f v h, All-weaken P Q vs f hs)

active_count-append :
    (vs : List ArtifactVersion) (row : ArtifactVersion)
    → active_count (vs ++ row ∷ []) ≡ active_count vs + one_if row.is_active
active_count-append [] row = omega arith
active_count-append (v ∷ vs) row = omega (arith, active_count-append vs row)

pub append-IsValid :
    (vs : List ArtifactVersion) (row : ArtifactVersion)
    → row.version ≡ newest vs + 1
    → row.is_active ≡ false
    → row.status ≡ pending
    → IsValid vs
    → IsValid (vs ++ row ∷ [])
append-IsValid vs row n i s (a, m, c) = (
  Ascends-append vs row (All-weaken _ _ vs (λ v h. omega (arith, h, n)) (below_newest vs)) a,
  All-snoc IsMarked vs row m (rw (i, s) refl),
  rw (active_count-append vs row, i) (omega (arith, c)),
)
