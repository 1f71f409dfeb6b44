-- ===== src/HostState/Store.antt =====
-- src/assistant_runtime/services/host_state/_store.py and models.py: the in-memory store. `V` is the
-- type of the stored values, which the store never reads; a copy of a value is the value. Times are
-- numbers, and `now` is the time that the call reads.
use assistant_runtime.Prelude.{
  ℕ, ◌+◌, String, Bool, true, false, not, ◌&&◌, Option, none, some, List, [], ◌==◌, Dict, values,
  lookup, put, remove, keep_if, sort_by, take, string_ltb, string_eq, pair_eq, nat_eq, option_eq,
  if◌then◌else◌,
}

pub record HostStateEntry (V : Type 0) : Type 0 where
  pub namespace : String
  pub key : String
  pub value : V
  pub version : ℕ
  pub updated_by : String
  pub updated_at : Option ℕ

abbrev pub Key : Type 0
Key = String × String

pub record Store (V : Type 0) : Type 0 where
  pub entries : Dict Key (HostStateEntry V)
  pub deleted : Dict Key ℕ

abbrev pub version_or_zero {ℓ} : {A : Type ℓ} → (A → ℕ) → Option A → ℕ
version_or_zero f none = 0
version_or_zero f (some e) = f e

-- A write that expects a version is refused over any other.
abbrev pub refused : Option ℕ → ℕ → Bool
refused none version = false
refused (some e) version = not (e == version)

module _ {V : Type 0} where
  abbrev pub empty : Store V
  empty = record { entries = []; deleted = [] }

  unfoldable pub get : String → String → Store V → Option (HostStateEntry V)
  get namespace key s = lookup (namespace, key) s.entries

  abbrev in_page : String → Option String → Key × HostStateEntry V → Bool
  in_page namespace none ((ns, key), e) = ns == namespace
  in_page namespace (some after) ((ns, key), e) = (ns == namespace) && string_ltb after key

  unfoldable pub list : String → Option String → ℕ → Store V → List (HostStateEntry V)
  list namespace after limit s = take limit (
      sort_by (λ a b. string_ltb a.key b.key)
        (values (keep_if (in_page namespace after) s.entries)))

  -- The version of the entry, 0 for a key that is not there.
  unfoldable pub current_version : Key → Store V → ℕ
  current_version k s = version_or_zero (λ e. e.version) (lookup k s.entries)

  -- What a new entry counts on from: its own version, or the tombstone's.
  unfoldable pub base_version : Key → Store V → ℕ
  base_version k s = elim (lookup k s.entries) [
    | some e ↦ e.version
    | none ↦ version_or_zero (λ v. v) (lookup k s.deleted)
  ]

  unfoldable pub left_deleted : Key → Store V → Dict Key ℕ
  left_deleted k s = elim (lookup k s.entries) [ some e ↦ s.deleted | none ↦ remove k s.deleted ]

  unfoldable pub new_entry : Key → V → String → ℕ → Store V → HostStateEntry V
  new_entry k value by now s = record {
    namespace = k.0;
    key = k.1;
    value = value;
    version = base_version k s + 1;
    updated_by = by;
    updated_at = some now;
  }

  unfoldable pub put_entry :
      String → String → V → String → Option ℕ → ℕ → Store V → Option (HostStateEntry V) × Store V
  unfolding base_version current_version left_deleted new_entry
  put_entry namespace key value by expected_version now s =
      let k : Key = (namespace, key) in
      let entry = new_entry k value by now s in
      if refused expected_version (current_version k s)
      then (none, s)
      else (some entry, record { entries = put k entry s.entries; deleted = left_deleted k s })

  unfoldable pub delete_entry : String → String → Option ℕ → Store V → Bool × Store V
  delete_entry namespace key expected_version s =
      let k : Key = (namespace, key) in
      elim (lookup k s.entries) [
        | none ↦ (false, s)
        | some e ↦ if refused expected_version e.version then (false, s) else (
          true,
          record { entries = remove k s.entries; deleted = put k (e.version + 1) s.deleted },
        )
      ]
