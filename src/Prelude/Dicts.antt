-- ===== src/Prelude/Dicts.antt =====
-- Python's `dict`: entries in insertion order; a write to a present key keeps its place.
use Prim.Native.Nat.{ℕ, suc, ◌≤◌}
use mathlib.Core.Path.{◌≡◌, refl, ap, ◌∙◌, subst}
use mathlib.Core.Logic.{inl, inr}
use mathlib.Core.Bool.{Bool, true, false}
use mathlib.Core.Option.{Option, none, some, some-injective}
use mathlib.Core.List.{List, [], ◌∷◌, ◌++◌}
use native.Mathlib.Omega.{arith}
use assistant_runtime.Prelude.Tests.{Eq, ◌==◌, if◌then◌else◌, Bool-cases, Option-cases, beq_refl}

abbrev pub Dict {ℓ κ} : Type ℓ → Type κ → Type (ℓ ⊔ κ)
Dict K V = List (K × V)

module _ {ℓ κ} {K : Type ℓ} {V : Type κ} where
  abbrev pub keys : Dict K V → List K
  keys [] = []
  keys ((k, v) ∷ d) = k ∷ keys d

  abbrev pub values : Dict K V → List V
  values [] = []
  values ((k, v) ∷ d) = v ∷ values d

  abbrev pub size : Dict K V → ℕ
  size [] = 0
  size (x ∷ d) = suc (size d)

abbrev pub is_some {ℓ} : {A : Type ℓ} → Option A → Bool
is_some none = false
is_some (some v) = true

module _ {ℓ κ} {K : Type ℓ} {V : Type κ} ⦃e : Eq K⦄ where
  -- d.get(k)
  unfoldable pub lookup : K → Dict K V → Option V
  lookup k [] = none
  lookup k ((j, v) ∷ d) = if j == k then some v else lookup k d

  -- k in d
  unfoldable pub has : K → Dict K V → Bool
  unfolding lookup
  has k d = is_some (lookup k d)

  -- d[k] = v
  unfoldable pub put : K → V → Dict K V → Dict K V
  put k v [] = (k, v) ∷ []
  put k v ((j, w) ∷ d) = if j == k then (j, v) ∷ d else (j, w) ∷ put k v d

  -- d.pop(k, None)
  unfoldable pub remove : K → Dict K V → Dict K V
  remove k [] = []
  remove k ((j, w) ∷ d) = let rest = remove k d in if j == k then rest else (j, w) ∷ rest

  pub lookup-put :
      (k j : K) (v : V) (d : Dict K V)
      → lookup j (put k v d) ≡ (if k == j then some v else lookup j d)
  unfolding lookup put
  lookup-put k j v [] = refl
  lookup-put k j v ((i, w) ∷ d) =
      ground (arith, e.eqb_iff k j, e.eqb_iff i k, e.eqb_iff i j, lookup-put k j v d)

  pub lookup-put_self : (k : K) (v : V) (d : Dict K V) → lookup k (put k v d) ≡ some v
  lookup-put_self k v d = simp (lookup-put, beq_refl)

  pub lookup-remove :
      (k j : K) (d : Dict K V) → lookup j (remove k d) ≡ (if k == j then none else lookup j d)
  unfolding lookup remove
  lookup-remove k j [] = ground arith
  lookup-remove k j ((i, w) ∷ d) =
      ground (arith, e.eqb_iff k j, e.eqb_iff i k, e.eqb_iff i j, lookup-remove k j d)

  pub has-put :
      (k j : K) (v : V) (d : Dict K V) → has j (put k v d) ≡ (if k == j then true else has j d)
  unfolding has
  has-put k j v d = simp lookup-put (ground arith)

  -- A write to a new key appends, and adds one entry.
  pub put_new : (k : K) (v : V) (d : Dict K V) → lookup k d ≡ none → put k v d ≡ d ++ (k, v) ∷ []
  unfolding lookup put
  put_new k v [] h = refl
  put_new k v ((i, w) ∷ d) h = elim (Bool-cases (i == k)) [
    | inl p ↦ cc (rw p at h)
    | inr q ↦ rw q (ap (λ (r : Dict K V). (i, w) ∷ r) (put_new k v d (rw q at h)))
  ]

  -- A write to a present key keeps the keys and their order.
  pub keys-put_old :
      (k : K) (v : V) (d : Dict K V) {w : V} → lookup k d ≡ some w → keys (put k v d) ≡ keys d
  unfolding lookup put
  keys-put_old k v [] h = cc
  keys-put_old k v ((i, x) ∷ d) {w} h = elim (Bool-cases (i == k)) [
    | inl p ↦ rw p refl
    | inr q ↦ rw q (ap (λ (r : List K). i ∷ r) (keys-put_old k v d (rw q at h)))
  ]

  pub size-put_new :
      (k : K) (v : V) (d : Dict K V) → lookup k d ≡ none → size (put k v d) ≡ suc (size d)
  unfolding lookup put
  size-put_new k v [] h = refl
  size-put_new k v ((i, w) ∷ d) h = elim (Bool-cases (i == k)) [
    | inl p ↦ cc (rw p at h)
    | inr q ↦ rw q (ap suc (size-put_new k v d (rw q at h)))
  ]

  pub size-put_old :
      (k : K) (v w : V) (d : Dict K V) → lookup k d ≡ some w → size (put k v d) ≡ size d
  unfolding lookup put
  size-put_old k v w [] h = cc
  size-put_old k v w ((i, x) ∷ d) h = elim (Bool-cases (i == k)) [
    | inl p ↦ rw p refl
    | inr q ↦ rw q (ap suc (size-put_old k v w d (rw q at h)))
  ]

  pub size-put_most : (k : K) (v : V) (d : Dict K V) → size (put k v d) ≤ suc (size d)
  size-put_most k v d = elim (Option-cases (lookup k d)) [
    | inl p ↦ rw (size-put_new k v d p) (omega arith)
    | inr (w, p) ↦ rw (size-put_old k v w d p) (omega arith)
  ]

  pub size-remove_most : (k : K) (d : Dict K V) → size (remove k d) ≤ size d
  unfolding remove
  size-remove_most k [] = omega arith
  size-remove_most k ((i, x) ∷ d) = elim (Bool-cases (i == k)) [
    | inl p ↦ rw p (omega (arith, size-remove_most k d))
    | inr q ↦ rw q (omega (arith, size-remove_most k d))
  ]

  pub put-put : (k : K) (v w : V) (d : Dict K V) → put k v (put k w d) ≡ put k v d
  unfolding put
  put-put k v w [] = rw (beq_refl k)
  put-put k v w ((i, x) ∷ d) = elim (Bool-cases (i == k)) [
    | inl p ↦ rw p (rw p)
    | inr q ↦ rw q (rw q (ap (λ (r : Dict K V). (i, x) ∷ r) (put-put k v w d)))
  ]

  pub values-append : (d f : Dict K V) → values (d ++ f) ≡ values d ++ values f
  values-append [] f = refl
  values-append ((i, w) ∷ d) f = ap (λ (l : List V). w ∷ l) (values-append d f)

  pub values-put_new :
      (k : K) (v : V) (d : Dict K V) → lookup k d ≡ none → values (put k v d) ≡ values d ++ v ∷ []
  values-put_new k v d h = ap values (put_new k v d h) ∙ values-append d ((k, v) ∷ [])

module _ {ℓ κ μ} {K : Type ℓ} {V : Type κ} where
  -- Every value stored in a dict.
  abbrev pub AllValues : (V → Type μ) → Dict K V → Type μ
  AllValues P [] = Unit
  AllValues P ((k, v) ∷ d) = P v × AllValues P d

module _ {ℓ κ μ} {K : Type ℓ} {V : Type κ} ⦃e : Eq K⦄ where
  pub AllValues-lookup :
      (P : V → Type μ) (k : K) (d : Dict K V) {v : V} → AllValues P d → lookup k d ≡ some v → P v
  unfolding lookup
  AllValues-lookup P k [] a h = cc
  AllValues-lookup P k ((i, w) ∷ d) {v} a h = elim (Bool-cases (i == k)) [
    | inl p ↦ subst P (some-injective w v (rw p at h)) a.0
    | inr q ↦ AllValues-lookup P k d a.1 (rw q at h)
  ]

  pub AllValues-put :
      (P : V → Type μ) (k : K) (v : V) (d : Dict K V)
      → AllValues P d
      → P v
      → AllValues P (put k v d)
  unfolding put
  AllValues-put P k v [] a h = (h, tt)
  AllValues-put P k v ((i, w) ∷ d) a h = elim (Bool-cases (i == k)) [
    | inl p ↦ rw p (h, a.1)
    | inr q ↦ rw q (a.0, AllValues-put P k v d a.1 h)
  ]

  pub AllValues-remove :
      (P : V → Type μ) (k : K) (d : Dict K V) → AllValues P d → AllValues P (remove k d)
  unfolding remove
  AllValues-remove P k [] a = tt
  AllValues-remove P k ((i, w) ∷ d) a = elim (Bool-cases (i == k)) [
    | inl p ↦ rw p (AllValues-remove P k d a.1)
    | inr q ↦ rw q (a.0, AllValues-remove P k d a.1)
  ]
