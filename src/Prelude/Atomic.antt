-- ===== src/Prelude/Atomic.antt =====
-- Methods that change nothing when they raise: one rule for each way to build a method.
use mathlib.Core.Path.{◌≡◌, refl, ◌∙◌}
use mathlib.Core.Bool.{Bool, true, false}
use native.Mathlib.Omega.{arith}
use assistant_runtime.Prelude.Results.{
  Result, ok, err, Exec, pure, raise, gets, modify, raise_if, continue, ◌>>=◌,
}

-- The method leaves the state as it was, whether or not it raises.
pub record Reads {S E A : Type 0} (m : Exec S E A) : Type 0 where
  pub at : (s : S) → (m s).1 ≡ s

-- A method that raises leaves the state as it was.
pub record Atomic {S E A : Type 0} (m : Exec S E A) : Type 0 where
  pub at : (s : S) (e : E) → (m s).0 ≡ err e → (m s).1 ≡ s

-- At the state the method does not raise.
pub record Returns {S E A : Type 0} (m : Exec S E A) (s : S) : Type 0 where
  pub value : A
  pub at : (m s).0 ≡ ok value

module _ {S E A : Type 0} where
  pub Returns-raised : {m : Exec S E A} {s : S} (e : E) → Returns m s → (m s).0 ≡ err e → ⊥
  Returns-raised e r h = ground (arith, r.at, h)

  pub Atomic-Reads : {m : Exec S E A} → Reads m → Atomic m
  Atomic-Reads r = record { at = λ s e h. r.at s }

  pub Atomic-Returns : {m : Exec S E A} → ((s : S) → Returns m s) → Atomic m
  Atomic-Returns r = record { at = λ s e h. absurd (Returns-raised e (r s) h) }

  pub Reads-pure : (a : A) → Reads {E = E} {A = A} (pure {S = S} a)
  unfolding pure
  Reads-pure a = record { at = λ s. refl }

  pub Reads-raise : (e : E) → Reads {A = A} (raise {S = S} e)
  unfolding raise
  Reads-raise e = record { at = λ s. refl }

  pub Reads-gets : (f : S → A) → Reads {E = E} (gets f)
  unfolding gets
  Reads-gets f = record { at = λ s. refl }

  pub Returns-gets : (f : S → A) (s : S) → Returns {E = E} (gets f) s
  unfolding gets
  Returns-gets f s = record { value = f s; at = refl }

  pub Returns-pure : (a : A) (s : S) → Returns {E = E} (pure a) s
  unfolding pure
  Returns-pure a s = record { value = a; at = refl }

module _ {S E : Type 0} where
  pub Reads-raise_if : (b : Bool) (e : E) → Reads (raise_if {S = S} b e)
  unfolding raise_if pure raise
  Reads-raise_if true e = record { at = λ s. refl }
  Reads-raise_if false e = record { at = λ s. refl }

  pub Returns-modify : (f : S → S) (s : S) → Returns {E = E} (modify f) s
  unfolding modify
  Returns-modify f s = record { value = tt; at = refl }

module _ {S E A B : Type 0} (m : Exec S E A) (f : A → Exec S E B) where
  pub Reads-bind : Reads m → ((a : A) → Reads (f a)) → Reads (m >>= f)
  unfolding ◌>>=◌
  Reads-bind rm rf = record { at = λ s. go s (m s) (rm.at s) }
    where
      go : (s : S) (r : Result E A × S) → r.1 ≡ s → (continue r.0 f r.1).1 ≡ s
      go s (ok a, t) q = (rf a).at t ∙ q
      go s (err e, t) q = q

  -- What reads may come before, and what cannot raise may come after.
  pub read_then : Reads m → ((a : A) → Atomic (f a)) → Atomic (m >>= f)
  unfolding ◌>>=◌
  read_then rm af = record { at = λ s e. go s e (m s) (rm.at s) }
    where
      go :
          (s : S) (e : E) (r : Result E A × S)
          → r.1 ≡ s
          → (continue r.0 f r.1).0 ≡ err e
          → (continue r.0 f r.1).1 ≡ s
      go s e (ok a, t) q h = (af a).at t e h ∙ q
      go s e (err e', t) q h = q

  pub then_return : Atomic m → ((a : A) (t : S) → Returns (f a) t) → Atomic (m >>= f)
  unfolding ◌>>=◌
  then_return am rf = record { at = λ s e. go s e (m s) (am.at s e) }
    where
      go :
          (s : S) (e : E) (r : Result E A × S)
          → (r.0 ≡ err e → r.1 ≡ s)
          → (continue r.0 f r.1).0 ≡ err e
          → (continue r.0 f r.1).1 ≡ s
      go s e (ok a, t) q h = absurd (Returns-raised e (rf a t) h)
      go s e (err e', t) q h = q (cc h)

  pub Returns-bind :
      (s : S)
      → Returns m s
      → ((a : A) (t : S) → (m s) ≡ (ok a, t) → Returns (f a) t)
      → Returns (m >>= f) s
  unfolding ◌>>=◌
  Returns-bind s rm rf = let (b, h) = go (m s) rm.value rm.at refl in record { value = b; at = h }
    where
      go :
          (r : Result E A × S) (v : A)
          → r.0 ≡ ok v
          → m s ≡ r
          → (b : B) × ((continue r.0 f r.1).0 ≡ ok b)
      go (ok a, t) v h e = let y = rf a t e in (y.value, y.at)
      go (err x, t) v h e = cc h

  pub Returns-after :
      (s : S) (a : A) (t : S) → m s ≡ (ok a, t) → Returns (f a) t → Returns (m >>= f) s
  unfolding ◌>>=◌
  Returns-after s a t e r = record { value = r.value; at = rw e (r.at) }
