-- ===== src/HostState/Contract.antt =====
-- What a caller of services/host_state/interface.py can rely on.
use assistant_runtime.Prelude.{
  ℕ, ◌≡◌, ◌≢◌, String, Option, none, some, ok, err, lookup-put, lookup-remove, arith, string_eq,
  pair_eq, nat_eq, Option-cases, ==_iff, inl, inr,
}
use assistant_runtime.HostState.Store
use assistant_runtime.HostState.Store.{
  HostStateEntry, Key, current_version, new_entry, base_version,
}
use assistant_runtime.HostState.Service.{
  Service, HostStateError, conflict, not_found, check, get, put, delete,
}

module _ {V : Type 0} (json_size : V → Option ℕ) where
  -- A `put` that raises leaves the service as it was.
  pub put_error_unchanged :
      (namespace key : String) (value : V) (by : String) (expected : Option ℕ) (now : ℕ)
      (s t : Service V) (e : HostStateError)
      → put json_size namespace key value by expected now s ≡ (err e, t)
      → t ≡ s
  unfolding put check Store.put_entry Store.get
  put_error_unchanged namespace key value by expected now s t e h = ground arith

  -- What was put is what the next `get` returns, with the version that `put` returned.
  pub get-put :
      (namespace key : String) (value : V) (by : String) (expected : Option ℕ) (now : ℕ)
      (s t : Service V) (e : HostStateEntry V)
      → put json_size namespace key value by expected now s ≡ (ok e, t)
      → (get namespace key t ≡ (ok e, t)) × (e.value ≡ value)
  unfolding put get check Store.put_entry Store.get new_entry
  get-put namespace key value by expected now s t e h = elim (Option-cases s.store) [
    | inl none_yet ↦ ground arith
    | inr (kept, is_kept) ↦
        let k : Key = (namespace, key) in
        let new = new_entry k value by now kept in
        ground (arith, ==_iff k k, lookup-put k k new kept.entries)
  ]

  -- A `put` that raises a conflict reports the version that it was told to expect, and a current version
  -- that differs from it; one that expects nothing raises no conflict.
  pub put_conflict :
      (namespace key : String) (value : V) (by : String) (expected : Option ℕ) (now : ℕ)
      (s t : Service V) (current : ℕ) (wanted : Option ℕ)
      → put json_size namespace key value by expected now s ≡ (err (conflict current wanted), t)
      → (wanted ≡ expected) × (expected ≢ none) × (expected ≢ some current)
  unfolding put check Store.put_entry Store.get current_version
  put_conflict namespace key value by expected now s t current wanted h = ground arith

module _ {V : Type 0} where
  -- After a deletion that returned, the key is not found.
  pub get-delete :
      (namespace key : String) (by : String) (expected : Option ℕ) (s t : Service V)
      → delete namespace key by expected s ≡ (ok tt, t)
      → get namespace key t ≡ (err not_found, t)
  unfolding delete get check Store.delete_entry Store.get
  get-delete namespace key by expected s t h = elim (Option-cases s.store) [
    | inl none_yet ↦ ground arith
    | inr (kept, is_kept) ↦
        let k : Key = (namespace, key) in ground (arith, ==_iff k k, lookup-remove k k kept.entries)
  ]
