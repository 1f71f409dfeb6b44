-- ===== src/Session/Cache.antt =====
-- src/assistant_runtime/app/assistant/_session_store.py: the cache of session contexts, its eviction and
-- pins, and loading from the database. `D` is the database, absent without one; the calls of one event
-- loop run one after the other, so a load is never shared. `now` is the time that a call reads.
use Prim.Native.Nat.{pred}
use assistant_runtime.Prelude.{
  ℕ, ◌+◌, ◌-◌, ◌/◌, leb, ltb, String, Option, none, some, [], ◌∷◌, Dict, size, lookup, has, put,
  remove, Result, ok, err, Exec, pure, raise, string_eq, nat_eq, if◌then◌else◌,
}
use assistant_runtime.Session.Types.{Context}
use assistant_runtime.Session.Context.{PathError, empty_context}
use assistant_runtime.Session.Persistence.{StoreError, broken_path}

abbrev pub max_memory_sessions : ℕ
max_memory_sessions = 200

pub record SessionStore (D J : Type 0) : Type 0 where
  pub sessions : Dict String (Context J)
  pub snapshots : Dict String String
  pub db : Option D
  pub pinned : Dict String ℕ

abbrev pub M : Type 0 → Type 0 → Type 0 → Type 0
M D J A = Exec (SessionStore D J) StoreError A

-- The loop of `_evict_if_needed` over the keys, oldest first: `left` more may go, and a pinned session
-- stays.
unfoldable pub evict_loop {ℓ} : {A : Type ℓ} → ℕ → Dict String ℕ → Dict String A → Dict String A
evict_loop left pinned [] = []
evict_loop left pinned ((k, c) ∷ d) =
    let kept = evict_loop left pinned d in
    let gone = evict_loop (pred left) pinned d in
    if leb left 0 then (k, c) ∷ d else if has k pinned then (k, c) ∷ kept else gone

module _ {D J : Type 0} where
  unfoldable pub evict_if_needed : SessionStore D J → SessionStore D J
  unfolding evict_loop
  evict_if_needed s =
      if leb (size s.sessions) max_memory_sessions
      then s
      else record s { sessions = evict_loop (size s.sessions / 2) s.pinned s.sessions }

  abbrev touched : ℕ → String → Option (Context J) → SessionStore D J → SessionStore D J
  touched now id none s = s
  touched now id (some c) s = record s {
    sessions = put id (record c { used_at = some now }) (remove id s.sessions);
  }

  unfoldable pub touch_session : ℕ → String → SessionStore D J → SessionStore D J
  touch_session now id s = touched now id (lookup id s.sessions) s

  -- `self._sessions[session_id] = ctx`
  abbrev pub set_context : String → Context J → SessionStore D J → SessionStore D J
  set_context id c s = record s { sessions = put id c s.sessions }

  unfoldable pub get_context : ℕ → String → SessionStore D J → Context J × SessionStore D J
  unfolding touch_session evict_if_needed
  get_context now id s = elim (lookup id s.sessions) [
    | some c ↦ (record c { used_at = some now }, touch_session now id s)
    | none ↦
        let fresh = record (empty_context) { used_at = some now } in
        (fresh, set_context id fresh (evict_if_needed s))
  ]

  unfoldable pub pin : String → SessionStore D J → SessionStore D J
  pin id s = elim (lookup id s.pinned) [
    | none ↦ record s { pinned = put id 1 s.pinned }
    | some n ↦ record s { pinned = put id (n + 1) s.pinned }
  ]

  -- `count = pinned.get(id, 0) - 1`, which is above 0 exactly if the stored count is above 1.
  unfoldable pub unpin : String → SessionStore D J → SessionStore D J
  unpin id s = elim (lookup id s.pinned) [
    | none ↦ record s { pinned = remove id s.pinned }
    | some n ↦
        if ltb 1 n
        then record s { pinned = put id (n - 1) s.pinned }
        else record s { pinned = remove id s.pinned }
  ]

  abbrev pub with_db :
      {A : Type 0}
      → SessionStore D J
      → Result StoreError A × D
      → Result StoreError A × SessionStore D J
  with_db s (r, d) = (r, record s { db = some d })

  -- `if self._db is not None: await self._db.op(...)`
  abbrev pub on_db : {A : Type 0} → A → Exec D StoreError A → M D J A
  on_db default op s = elim s.db [ none ↦ (ok default, s) | some d ↦ with_db s (op d) ]

  abbrev pub of_path : {A : Type 0} → Result PathError A → M D J A
  of_path (ok a) = pure a
  of_path (err e) = raise (broken_path e)
