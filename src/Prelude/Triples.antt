-- ===== src/Prelude/Triples.antt =====
-- What a method keeps: one rule for each way to build a method.
use mathlib.Core.Path.{◌≡◌, refl}
use mathlib.Core.Bool.{Bool, true, false}
use assistant_runtime.Prelude.Tests.{if◌then◌else◌}
use assistant_runtime.Prelude.Results.{
  Result, ok, err, Exec, pure, raise, gets, modify, raise_if, continue, ◌>>=◌,
}

-- `P` holds of the state, and `F` of what was returned.
abbrev pub Post : {S E A : Type 0} → (S → Type 0) → (A → Type 0) → Result E A × S → Type 0
Post P F (ok a, s) = P s × F a
Post P F (err e, s) = P s

-- From a state in `P` the method leaves one in `P`, whether it returns or raises, and what it returns
-- satisfies `F`.
pub record Keeps {S E A : Type 0} (P : S → Type 0) (m : Exec S E A) (F : A → Type 0) : Type 0 where
  pub at : (s : S) → P s → Post P F (m s)

abbrev pub Always {ℓ} : {A : Type ℓ} → A → Type 0
Always a = Unit

module _ {S E A : Type 0} where
  pub Post-state : (P : S → Type 0) (F : A → Type 0) (r : Result E A × S) → Post P F r → P r.1
  Post-state P F (ok a, s) q = q.0
  Post-state P F (err e, s) q = q

module _ {S E A : Type 0} {P : S → Type 0} where
  pub Keeps-pure : (a : A) (F : A → Type 0) → F a → Keeps {E = E} P (pure a) F
  unfolding pure
  Keeps-pure a F f = record { at = λ s p. (p, f) }

  pub Keeps-raise : (e : E) (F : A → Type 0) → Keeps P (raise e) F
  unfolding raise
  Keeps-raise e F = record { at = λ s p. p }

  pub Keeps-gets : (f : S → A) → Keeps {E = E} P (gets f) Always
  unfolding gets
  Keeps-gets f = record { at = λ s p. (p, tt) }

  pub Keeps-if :
      (b : Bool) (m n : Exec S E A) (F : A → Type 0)
      → (b ≡ true → Keeps P m F)
      → (b ≡ false → Keeps P n F)
      → Keeps P (if b then m else n) F
  Keeps-if true m n F km kn = km refl
  Keeps-if false m n F km kn = kn refl

  pub Keeps-weaken :
      {F G : A → Type 0} (m : Exec S E A) → Keeps P m F → ((a : A) → F a → G a) → Keeps P m G
  Keeps-weaken {F} {G} m k h = record { at = λ s p. go (m s) (k.at s p) }
    where
      go : (r : Result E A × S) → Post P F r → Post P G r
      go (ok a, s) q = (q.0, h a q.1)
      go (err e, s) q = q

module _ {S E : Type 0} {P : S → Type 0} where
  pub Keeps-raise_if : (b : Bool) (e : E) → Keeps P (raise_if b e) (λ _. b ≡ false)
  unfolding raise_if pure raise
  Keeps-raise_if true e = record { at = λ s p. p }
  Keeps-raise_if false e = record { at = λ s p. (p, refl) }

  pub Keeps-modify : (f : S → S) → ((s : S) → P s → P (f s)) → Keeps {E = E} P (modify f) Always
  unfolding modify
  Keeps-modify f h = record { at = λ s p. (h s p, tt) }

module _ {S E A B : Type 0} {P : S → Type 0} {F : A → Type 0} {G : B → Type 0} where
  pub Keeps-bind :
      (m : Exec S E A) (f : A → Exec S E B)
      → Keeps P m F
      → ((a : A) → F a → Keeps P (f a) G)
      → Keeps P (m >>= f) G
  unfolding ◌>>=◌
  Keeps-bind m f km kf = record { at = λ s p. go (m s) (km.at s p) }
    where
      go : (r : Result E A × S) → Post P F r → Post P G (continue r.0 f r.1)
      go (ok a, s) q = (kf a q.1).at s q.0
      go (err e, s) q = q

-- The same at one state, where what a step returns depends on it.
module _ {S E A B : Type 0} (P : S → Type 0) (G : B → Type 0) (m : Exec S E A) (f : A → Exec S E B)
    (s : S) where
  pub Post-bind :
      (F : A → Type 0) → Post P F (m s) → ((a : A) → F a → Keeps P (f a) G) → Post P G ((m >>= f) s)
  unfolding ◌>>=◌
  Post-bind F p k = go (m s) p
    where
      go : (r : Result E A × S) → Post P F r → Post P G (continue r.0 f r.1)
      go (ok a, t) q = (k a q.1).at t q.0
      go (err e, t) q = q

  pub Post-after : (a : A) (t : S) → m s ≡ (ok a, t) → Post P G (f a t) → Post P G ((m >>= f) s)
  unfolding ◌>>=◌
  Post-after a t e p = rw e p

module _ {S E B : Type 0} (P : S → Type 0) (G : B → Type 0) (s : S) where
  pub Post-gets :
      {A : Type 0} (g : S → A) (f : A → Exec S E B)
      → Post P G (f (g s) s)
      → Post P G ((gets g >>= f) s)
  unfolding ◌>>=◌
  Post-gets g f p = p

  pub Post-raise_if :
      (b : Bool) (e : E) (f : Unit {0} → Exec S E B)
      → P s
      → (b ≡ false → Post P G (f tt s))
      → Post P G ((raise_if b e >>= f) s)
  unfolding ◌>>=◌
  Post-raise_if true e f p k = p
  Post-raise_if false e f p k = k refl
