-- ===== src/Artifacts/Activations.antt =====
-- What an activation and a rejection (services/artifacts/_store.py) do to the versions of an artifact.
use assistant_runtime.Prelude.{
  ℕ, ◌+◌, ◌≤◌, ◌<◌, ◌≡◌, refl, sym, ap, ◌∙◌, inl, inr, Bool, true, false, ◌&&◌, String, Option,
  none, some, List, [], ◌∷◌, ◌==◌, ==_iff, map, All, one_if, arith, nat_eq, Bool-cases,
  if◌then◌else◌,
}
use mathlib.Core.Path.{subst}
use assistant_runtime.Artifacts.Types.{
  ArtifactVersion, VersionStatus, active, pending, superseded, rejected, is_pending,
  is_active_status,
}
use assistant_runtime.Artifacts.Store.{
  activated, step_down, after_activation, activate_in, reject_in,
}
use assistant_runtime.Artifacts.Versions.{Ascends, IsMarked, active_count, IsValid}

-- A change of the versions one by one that keeps their numbers.
Ascends-map :
    (f : ArtifactVersion → ArtifactVersion)
    → ((v : ArtifactVersion) → (f v).version ≡ v.version)
    → (vs : List ArtifactVersion) → Ascends vs
    → Ascends (map f vs)
Ascends-map f same [] a = tt
Ascends-map f same (v ∷ vs) (a, as1) = (go vs a, Ascends-map f same vs as1)
  where
    go :
        (ws : List ArtifactVersion)
        → All (λ w. v.version < w.version) ws
        → All (λ w. (f v).version < w.version) (map f ws)
    go [] h = tt
    go (w ∷ ws) (h, hs) = (omega (arith, h, same v, same w), go ws hs)

activated_fields :
    (now : ℕ) (by : Option String) (p : Bool) (v : ArtifactVersion)
    → ((activated now by p v).version ≡ v.version)
      × ((activated now by p v).is_active ≡ true)
      × ((activated now by p v).status ≡ active)
      × ((activated now by p v).actor_kind ≡ v.actor_kind)
activated_fields now none p v = (refl, refl, refl, refl)
activated_fields now (some by) false v = (refl, refl, refl, refl)
activated_fields now (some by) true v = (refl, refl, refl, refl)

step_down_fields :
    (v : ArtifactVersion)
    → ((step_down v).version ≡ v.version)
      × ((step_down v).is_active ≡ false)
      × (IsMarked v → IsMarked (step_down v))
      × ((step_down v).actor_kind ≡ v.actor_kind)
step_down_fields v = go v.is_active refl
  where
    go :
        (b : Bool)
        → v.is_active ≡ b
        → let w = if b then record v { is_active = false; status = superseded } else v in
          (w.version ≡ v.version)
          × (w.is_active ≡ false)
          × (IsMarked v → IsMarked w)
          × (w.actor_kind ≡ v.actor_kind)
    go true e = (refl, refl, λ m. refl, refl)
    go false e = (refl, e, λ m. m, refl)

pub after_activation_fields :
    (now n : ℕ) (by : Option String) (p : Bool) (v : ArtifactVersion)
    → let w = after_activation now n by p v in
      (w.version ≡ v.version)
      × (w.is_active ≡ (v.version == n))
      × (IsMarked v → IsMarked w)
      × (w.actor_kind ≡ v.actor_kind)
after_activation_fields now n by p v = go (v.version == n)
  where
    go :
        (b : Bool)
        → let w = if b then activated now by p v else step_down v in
          (w.version ≡ v.version)
          × (w.is_active ≡ b)
          × (IsMarked v → IsMarked w)
          × (w.actor_kind ≡ v.actor_kind)
    go true =
        let (a, b, c, d) = activated_fields now by p v in
        (a, b, λ m. b ∙ sym (ap is_active_status c), d)
    go false = step_down_fields v

-- The versions that have the number.
with_number : ℕ → List ArtifactVersion → ℕ
with_number n [] = 0
with_number n (v ∷ vs) = one_if (v.version == n) + with_number n vs

with_number-above :
    (n : ℕ) (vs : List ArtifactVersion) → All (λ w. n < w.version) vs → with_number n vs ≡ 0
unfolding with_number
with_number-above n [] h = refl
with_number-above n (v ∷ vs) (h, hs) = ground (arith, h, with_number-above n vs hs)

with_number-one : (n : ℕ) (vs : List ArtifactVersion) → Ascends vs → with_number n vs ≤ 1
unfolding with_number
with_number-one n [] a = omega arith
with_number-one n (v ∷ vs) (a, as1) = elim (Bool-cases (v.version == n)) [
  | inl e ↦ rw e (
      omega (
        arith,
        with_number-above n vs
            (subst (λ m. All (λ w. m < w.version) vs) ((==_iff v.version n).0 e) a),
      ))
  | inr e ↦ rw e (omega (arith, with_number-one n vs as1))
]

active_count-activation :
    (now n : ℕ) (by : Option String) (p : Bool) (vs : List ArtifactVersion)
    → active_count (map (after_activation now n by p) vs) ≡ with_number n vs
unfolding with_number
active_count-activation now n by p [] = refl
active_count-activation now n by p (v ∷ vs) =
    rw (active_count-activation now n by p vs, (after_activation_fields now n by p v).1) refl

All-map :
    (P Q : ArtifactVersion → Type 0) (f : ArtifactVersion → ArtifactVersion)
    (vs : List ArtifactVersion)
    → ((v : ArtifactVersion) → P v → Q (f v))
    → All P vs
    → All Q (map f vs)
All-map P Q f [] g h = tt
All-map P Q f (v ∷ vs) g (h, hs) = (g v h, All-map P Q f vs g hs)

pub activate_in-IsValid :
    (now n : ℕ) (by : Option String) (p : Bool) (vs : List ArtifactVersion)
    → IsValid vs
    → IsValid (activate_in now n by p vs)
unfolding activate_in
activate_in-IsValid now n by p vs (a, m, c) = (
  Ascends-map (after_activation now n by p) (λ v. (after_activation_fields now n by p v).0) vs a,
  All-map IsMarked IsMarked (after_activation now n by p) vs
      (λ v. (after_activation_fields now n by p v).2) m,
  rw (active_count-activation now n by p vs) (with_number-one n vs a),
)

pending_inactive :
    (v : ArtifactVersion) → IsMarked v → is_pending v.status ≡ true → v.is_active ≡ false
pending_inactive v m p = m ∙ go v.status p
  where
    go : (s : VersionStatus) → is_pending s ≡ true → is_active_status s ≡ false
    go active h = cc
    go pending h = refl
    go superseded h = cc
    go rejected h = cc

-- A rejection changes no number.
reject_in-above :
    (now n : ℕ) (by : String) (reason : Option String) (b : ℕ) (vs : List ArtifactVersion)
    → All (λ w. b < w.version) vs
    → All (λ w. b < w.version) (reject_in now n by reason vs).1
unfolding reject_in
reject_in-above now n by reason b [] h = tt
reject_in-above now n by reason b (v ∷ vs) (h, hs) =
    elim (Bool-cases (v.version == n && is_pending v.status)) [
      | inl e ↦ rw e (h, hs)
      | inr e ↦ rw e (h, reject_in-above now n by reason b vs hs)
    ]

-- A rejection activates nothing.
reject_in-count :
    (now n : ℕ) (by : String) (reason : Option String) (vs : List ArtifactVersion)
    → active_count (reject_in now n by reason vs).1 ≡ active_count vs
unfolding reject_in
reject_in-count now n by reason [] = refl
reject_in-count now n by reason (v ∷ vs) =
    elim (Bool-cases (v.version == n && is_pending v.status)) [
      | inl e ↦ rw e refl
      | inr e ↦ rw e (omega (arith, reject_in-count now n by reason vs))
    ]

pub reject_in-IsValid :
    (now n : ℕ) (by : String) (reason : Option String) (vs : List ArtifactVersion)
    → IsValid vs
    → IsValid (reject_in now n by reason vs).1
unfolding reject_in
reject_in-IsValid now n by reason [] h = h
reject_in-IsValid now n by reason (v ∷ vs) ((a, as1), (m, ms), c) =
    elim (Bool-cases (v.version == n && is_pending v.status)) [
      | inl e ↦ let i = pending_inactive v m (ground (arith, e)) in rw e ((a, as1), (i, ms), c)
      | inr e ↦
          let (b, k, d) = reject_in-IsValid now n by reason vs (as1, ms, omega (arith, c)) in
          rw e (
            (reject_in-above now n by reason v.version vs a, b),
            (m, k),
            omega (arith, c, reject_in-count now n by reason vs),
          )
    ]
