-- ===== src/Base/Cursors.antt =====
-- src/assistant_runtime/base/cursors.py: ChangeCursor. Times are numbers and timezone-aware; `before` is
-- the order `<` of the ids. The text form of a cursor is left out, as it is read by `datetime`.
use assistant_runtime.Prelude.{ℕ, Bool, false, ◌&&◌, ◌||◌, Option, none, some, ◌==◌, ltb, nat_eq}

pub record ChangeCursor (A : Type 0) : Type 0 where
  pub updated_at : ℕ
  pub id : Option A

module _ {A : Type 0} (before : A → A → Bool) where
  -- `(t, i) < (u, j)`
  abbrev pub key_before : ℕ × A → ℕ × A → Bool
  key_before (t, i) (u, j) = ltb t u || ((t == u) && before i j)

  abbrev pub after_id : Option A → ℕ → ℕ → A → Bool
  after_id none t u j = ltb t u
  after_id (some i) t u j = key_before (t, i) (u, j)

  unfoldable pub admits : ChangeCursor A → Option ℕ → A → Bool
  admits c none record_id = false
  admits c (some t) record_id = after_id c.id c.updated_at t record_id
