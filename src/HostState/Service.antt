-- ===== src/HostState/Service.antt =====
-- src/assistant_runtime/services/host_state/interface.py, config.py and exceptions.py: the service in
-- front of the in-memory store. `json_size` stands for the length of `json.dumps(value)` in UTF-8, and
-- gives none where `json.dumps` raises. A stopped service has no store.
use assistant_runtime.Prelude.{
  ℕ, zero, suc, ◌+◌, String, Bool, true, false, not, ◌&&◌, ◌||◌, Option, none, some, List, [], ◌∷◌,
  ◌==◌, ok, err, Exec, pure, raise, raise_if, ◌>>=◌, ◌>>◌, length, take, codes, all_codes,
  is_between, leb, ltb, nat_eq, if◌then◌else◌,
}
use Prim.Native.Nat.{min}
use assistant_runtime.HostState.Store
use assistant_runtime.HostState.Store.{HostStateEntry, Store, version_or_zero}

pub data HostStateError : Type 0 where
  not_started : HostStateError
  bad_namespace : HostStateError
  bad_key : HostStateError
  not_json : HostStateError
  too_large : ℕ → HostStateError
  not_found : HostStateError
  conflict : (current_version : ℕ) → (expected : Option ℕ) → HostStateError

pub record HostStateConfig : Type 0 where
  pub max_value_bytes : ℕ
  pub max_page : ℕ

abbrev is_lower : ℕ → Bool
is_lower c = is_between b'a' b'z' c

abbrev is_digit : ℕ → Bool
is_digit c = is_between b'0' b'9' c

abbrev is_upper : ℕ → Bool
is_upper c = is_between b'A' b'Z' c

abbrev is_namespace_code : ℕ → Bool
is_namespace_code c = is_lower c || is_digit c || c == b'_' || c == b'.' || c == b'-'

abbrev is_key_code : ℕ → Bool
is_key_code c =
    is_upper c
    || is_lower c
    || is_digit c
    || c == b'_'
    || c == b'.'
    || c == b':'
    || c == b'@'
    || c == b'-'

-- ^[a-z][a-z0-9_.-]{0,63}$
abbrev namespace_codes : List ℕ → Bool
namespace_codes [] = false
namespace_codes (c ∷ s) = is_lower c && all_codes is_namespace_code s && leb (length s) 63

unfoldable pub matches_namespace : String → Bool
matches_namespace s = namespace_codes (codes s)

-- ^[A-Za-z0-9_.:@-]{1,200}$
unfoldable pub matches_key : String → Bool
matches_key s =
    all_codes is_key_code (codes s) && leb 1 (length (codes s)) && leb (length (codes s)) 200

-- `limit or max_page`: an absent limit and a limit of 0 are the page's.
abbrev pub or_page : Option ℕ → ℕ → ℕ
or_page none max_page = max_page
or_page (some zero) max_page = max_page
or_page (some (suc n)) max_page = suc n

pub record Service (V : Type 0) : Type 0 where
  pub config : HostStateConfig
  pub store : Option (Store V)

abbrev pub M : Type 0 → Type 0 → Type 0
M V A = Exec (Service V) HostStateError A

unfoldable pub check : {V : Type 0} → String → Option String → M V (Unit {0})
check namespace none = raise_if (not (matches_namespace namespace)) bad_namespace
check namespace (some key) = do
  raise_if (not (matches_namespace namespace)) bad_namespace
  raise_if (not (matches_key key)) bad_key

module _ {V : Type 0} where
  unfoldable pub start : Service V → Service V
  start s = record s { store = some Store.empty }

  unfoldable pub stop : Service V → Service V
  stop s = record s { store = none }

  -- A call of the store: the state that it leaves is the service's.
  abbrev on_store : {A : Type 0} → (Store V → A × Store V) → M V A
  on_store f s = elim s.store [
    | none ↦ (err not_started, s)
    | some t ↦ let (a, t') = f t in (ok a, record s { store = some t' })
  ]

  abbrev found : Option (HostStateEntry V) → M V (HostStateEntry V)
  found none = raise not_found
  found (some e) = pure e

  unfoldable pub get : String → String → M V (HostStateEntry V)
  unfolding ◌>>=◌
  get namespace key = do
    check namespace (some key)
    entry ← on_store (λ t. (Store.get namespace key t, t))
    found entry

  -- The entries, and the key to continue from.
  abbrev last_key : List (HostStateEntry V) → Option String
  last_key [] = none
  last_key (e ∷ []) = some e.key
  last_key (e ∷ f ∷ es) = last_key (f ∷ es)

  unfoldable pub list :
      String → Option String → Option ℕ → M V (List (HostStateEntry V) × Option String)
  unfolding ◌>>=◌
  list namespace after limit s =
      (do
        check namespace none
        let n = min (or_page limit s.config.max_page) s.config.max_page
        entries ← on_store (λ t. (Store.list namespace after (n + 1) t, t))
        pure (take n entries, if ltb n (length entries) then last_key (take n entries) else none))
        s

  unfoldable pub conflict_error : {A : Type 0} → String → String → Option ℕ → M V A
  conflict_error namespace key expected = do
    current ← on_store (λ t. (Store.get namespace key t, t))
    raise (conflict (version_or_zero (λ e. e.version) current) expected)

  abbrev stored : String → String → Option ℕ → Option (HostStateEntry V) → M V (HostStateEntry V)
  stored namespace key expected none = conflict_error namespace key expected
  stored namespace key expected (some e) = pure e

  abbrev sized : Option ℕ → ℕ → M V (Unit {0})
  sized none limit = raise not_json
  sized (some n) limit = raise_if (ltb limit n) (too_large n)

  abbrev deleted : String → String → Option ℕ → Bool → M V (Unit {0})
  deleted namespace key expected true = pure tt
  deleted namespace key none false = raise not_found
  deleted namespace key (some e) false = conflict_error namespace key (some e)

  unfoldable pub delete : String → String → String → Option ℕ → M V (Unit {0})
  unfolding conflict_error ◌>>=◌
  delete namespace key by expected = do
    check namespace (some key)
    done ← on_store (Store.delete_entry namespace key expected)
    deleted namespace key expected done

  module _ (json_size : V → Option ℕ) where
    unfoldable pub put : String → String → V → String → Option ℕ → ℕ → M V (HostStateEntry V)
    unfolding conflict_error ◌>>=◌
    put namespace key value by expected now s =
        (do
          check namespace (some key)
          sized (json_size value) s.config.max_value_bytes
          entry ← on_store (Store.put_entry namespace key value by expected now)
          stored namespace key expected entry)
          s
