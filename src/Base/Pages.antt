-- ===== src/Base/Pages.antt =====
-- A reader that continues from a cursor (base/cursors.py) misses nothing and reads nothing twice.
use assistant_runtime.Prelude.{
  ℕ, ◌≡◌, refl, ap, Bool, true, false, some, List, [], ◌∷◌, ◌++◌, keep_if, arith, All,
}
use assistant_runtime.Base.Cursors.{ChangeCursor, key_before, admits}

-- The order of the ids is strict.
pub record IsStrict {A : Type 0} (before : A → A → Bool) : Type 0 where
  pub irreflexive : (a : A) → before a a ≡ false
  pub asymmetric : (a b : A) → before a b ≡ true → before b a ≡ false

module _ {A : Type 0} (before : A → A → Bool) where
  -- The list is in the order of its records' times and ids, without repeats.
  abbrev pub Ascends : List (ℕ × A) → Type 0
  Ascends [] = Unit
  Ascends (k ∷ ks) = All (λ l. key_before before k l ≡ true) ks × Ascends ks

  abbrev pub cursor_after : ℕ × A → ChangeCursor A
  cursor_after (t, i) = record { updated_at = t; id = some i }

  abbrev pub admitted : ChangeCursor A → List (ℕ × A) → List (ℕ × A)
  admitted c ks = keep_if (λ k. admits before c (some k.0) k.1) ks

  later_admitted :
      (k : ℕ × A) (ks : List (ℕ × A))
      → All (λ l. key_before before k l ≡ true) ks
      → admitted (cursor_after k) ks ≡ ks
  unfolding admits
  later_admitted k [] h = refl
  later_admitted k (l ∷ ks) (h, hs) = rw h (ap (λ r. l ∷ r) (later_admitted k ks hs))

  module _ (strict : IsStrict before) where
    key_refused :
        (k l : ℕ × A)
        → key_before before l k ≡ true
        → admits before (cursor_after k) (some l.0) l.1 ≡ false
    unfolding admits
    key_refused (t, i) (u, j) h = ground (arith, strict.asymmetric j i)

    self_refused : (k : ℕ × A) → admits before (cursor_after k) (some k.0) k.1 ≡ false
    unfolding admits
    self_refused (t, i) = ground (arith, strict.irreflexive i)

    earlier_than :
        (l k : ℕ × A) (pre post : List (ℕ × A))
        → All (λ r. key_before before l r ≡ true) (pre ++ k ∷ post)
        → key_before before l k ≡ true
    earlier_than l k [] post h = h.0
    earlier_than l k (p ∷ pre) post h = earlier_than l k pre post h.1

    -- In a list in the order of times and ids, the cursor after a record admits exactly the records
    -- that follow it.
    pub admitted-cursor_after :
        (pre : List (ℕ × A)) (k : ℕ × A) (post : List (ℕ × A))
        → Ascends (pre ++ k ∷ post)
        → admitted (cursor_after k) (pre ++ k ∷ post) ≡ post
    admitted-cursor_after [] k post (h, hs) = rw (self_refused k) (later_admitted k post h)
    admitted-cursor_after (l ∷ pre) k post (h, hs) =
        rw (key_refused k l (earlier_than l k pre post h)) (admitted-cursor_after pre k post hs)
