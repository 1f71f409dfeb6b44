-- ===== src/Session/State.antt =====
-- src/assistant_runtime/app/assistant/_session_store.py: a session's owner, its pending host action, the
-- prompt snapshots, and the reads of its messages.
use assistant_runtime.Prelude.{
  ℕ, ◌-◌, String, Bool, true, false, not, ◌&&◌, Option, none, some, List, [], ◌∷◌, ◌++◌, map, ◌==◌,
  Dict, size, lookup, has, put, remove, values, ok, pure, raise_if, modify, gets, ◌>>=◌, ◌>>◌, drop,
  sort_by, ltb, nat_eq, string_eq, option_eq, if◌then◌else◌,
}
use assistant_runtime.Session.Types.{Message, PendingAction, Context}
use assistant_runtime.Session.Context.{latest_leaf_id, resolve_path}
use assistant_runtime.Session.StaleTools.{Codec, repair_stale_tools_in_context}
use assistant_runtime.Session.Persistence.{SessionPersistence, message_not_found}
use assistant_runtime.Session.Cache.{SessionStore, M, set_context, get_context, on_db, of_path}
use assistant_runtime.Session.Loading.{
  get_context_if_exists, get_context_async, truthy, mark_changed, write_segments,
}
use assistant_runtime.Session.Messages.{or_else, truthy_or, save_session_state}
use assistant_runtime.Session.Steering.{required}

abbrev pub snapshot_cache_size : ℕ
snapshot_cache_size = 256

-- What `repair_stale_host_tools` reports.
pub record RepairReport : Type 0 where
  pub cleared_pending : Option PendingAction
  pub repaired_tools : List String

abbrev batch_or : Option (List String) → String → List String
batch_or none id = id ∷ []
batch_or (some []) id = id ∷ []
batch_or (some (x ∷ xs)) id = x ∷ xs

-- The entry at the most recently used end, and no more than the newest 256.
unfoldable pub keep_snapshot : String → String → Dict String String → Dict String String
keep_snapshot hash content d =
    let moved = remove hash d ++ (hash, content) ∷ [] in
    drop (size moved - snapshot_cache_size) moved

-- A session's id and the time at which its chat was bound: the newest of those bound to the chat.
abbrev is_newer : Option ℕ → Option ℕ → Bool
is_newer none current = false
is_newer (some t) none = true
is_newer (some t) (some s) = ltb s t

abbrev better : String → Option ℕ → Option (String × Option ℕ) → Option (String × Option ℕ)
better id bound none = some (id, bound)
better id bound (some (best, at)) = if is_newer bound at then some (id, bound) else some (best, at)

module _ {J : Type 0} where
  unfoldable pub newest_bound :
      String → Dict String (Context J) → Option (String × Option ℕ) → Option (String × Option ℕ)
  newest_bound chat [] best = best
  newest_bound chat ((id, c) ∷ d) best =
      newest_bound chat d
        (if c.telegram_chat_id == some chat then better id c.telegram_bound_at best else best)

  abbrev pub without_pending : Context J → Context J
  without_pending c = record c {
    pending_tool_call_id = none;
    pending_tool_name = none;
    pending_assistant_message_id = none;
    pending_tool_batch = [];
    pending_output_mode = none;
  }

  -- The pending action as it is returned: without its output mode.
  abbrev pub pending_of : Context J → PendingAction
  pending_of c = record {
    tool_call_id = c.pending_tool_call_id;
    tool_name = c.pending_tool_name;
    assistant_message_id = c.pending_assistant_message_id;
    batch = c.pending_tool_batch;
    output_mode = none;
  }

  abbrev pub or_context : Context J → Option (Context J) → Context J
  or_context c none = c
  or_context c (some d) = d

  unfoldable pub get_message :
      {D : Type 0} → String → String → SessionStore D J → Option (Message J)
  get_message id message_id s = elim (lookup id s.sessions) [
    | none ↦ none
    | some c ↦ lookup message_id c.message_index
  ]

module _ {D J : Type 0} (codec : Codec J) (persistence : SessionPersistence D J) where
  open persistence use {
    set_owner as write_owner, delete as delete_row, save_prompt_snapshot as write_snapshot,
    prompt_snapshot as read_snapshot, session_for_telegram_chat, ensure_session, update_segments,
  }

  unfoldable pub ensure_owned_session : ℕ → String → String → M D J (Context J)
  unfolding get_context_async
  ensure_owned_session now id owner = do
    c ← get_context_async codec persistence now id
    let owned = record c { owner_id = or_else c.owner_id (some owner) }
    modify (set_context id owned)
    on_db tt (ensure_session id owned.title owned.owner_id none none)
    pure owned

  unfoldable pub set_owner : ℕ → String → Option String → M D J (Unit {0})
  unfolding get_context_if_exists
  set_owner now id owner = do
    found ← get_context_if_exists codec persistence now id
    c ← required found
    on_db tt (write_owner id owner)
    modify (set_context id (record c { owner_id = owner }))

  unfoldable pub delete_session : String → M D J (Unit {0})
  delete_session id = do
    on_db tt (delete_row id)
    modify (λ s. record s { sessions = remove id s.sessions })

  unfoldable pub session_id_for_telegram_chat : String → M D J (Option String)
  unfolding newest_bound
  session_id_for_telegram_chat chat s = elim (newest_bound chat s.sessions none) [
    | some (id, at) ↦ (ok (some id), s)
    | none ↦ on_db none (session_for_telegram_chat chat) s
  ]

  unfoldable pub set_pending_action :
      ℕ
      → String
      → (tool_call_id tool_name message : String) → Option (List String)
      → String
      → M D J (Unit {0})
  unfolding get_context save_session_state
  set_pending_action now id call tool message batch output_mode = do
    modify (λ s.
        let (c, s') = get_context now id s in
        set_context id
          (record c {
            pending_tool_call_id = some call;
            pending_tool_name = some tool;
            pending_assistant_message_id = some message;
            pending_tool_batch = batch_or batch call;
            pending_output_mode = some output_mode;
          })
          s')
    save_session_state codec persistence id

  abbrev pub clear_in : String → Context J → Option String → M D J (Option PendingAction)
  clear_in id c none = pure none
  clear_in id c (some call) = do
    modify (set_context id (without_pending c))
    save_session_state codec persistence id
    pure (some (pending_of c))

  unfoldable pub clear_pending_action : String → M D J (Option PendingAction)
  unfolding save_session_state
  clear_pending_action id s = elim (lookup id s.sessions) [
    | none ↦ (ok none, s)
    | some c ↦ clear_in id c (truthy c.pending_tool_call_id) s
  ]

  abbrev pub resolved : Context J → List (String × Message J) → M D J (Context J)
  resolved c [] = pure c
  resolved c (r ∷ rs) = elim (truthy c.active_leaf_id) [
    | none ↦ pure c
    | some leaf ↦ do
      path ← of_path (resolve_path c (some leaf))
      pure (record c { cached_path = path })
  ]

  unfoldable pub repair_stale_host_tools : ℕ → String → M D J RepairReport
  unfolding get_context_if_exists clear_pending_action repair_stale_tools_in_context mark_changed
      resolve_path
  repair_stale_host_tools now id = do
    found ← get_context_if_exists codec persistence now id
    c ← required found
    cleared ← clear_pending_action id
    c1 ← gets (λ s. or_context c (lookup id s.sessions))
    let (c2, repaired) = repair_stale_tools_in_context codec [] c1
    modify (set_context id c2)
    write_segments codec persistence repaired
    modify (set_context id (mark_changed now repaired c2))
    c3 ← resolved (mark_changed now repaired c2) repaired
    modify (set_context id c3)
    pure (record { cleared_pending = cleared; repaired_tools = map (λ r. r.0) repaired })

  unfoldable pub save_prompt_snapshot : ℕ → String → String → String → M D J (Unit {0})
  unfolding get_context keep_snapshot
  save_prompt_snapshot now id hash content s = elim s.db [
    | none ↦
        let (c, s') = get_context now id s in
        (
          ok tt,
          set_context id (record c { prompt_snapshots = put hash content c.prompt_snapshots }) s',
        )
    | some d ↦
        on_db tt (write_snapshot hash content)
          (record s { snapshots = keep_snapshot hash content s.snapshots })
  ]

  abbrev snapshot_of : String → Option (Context J) → Option String
  snapshot_of hash none = none
  snapshot_of hash (some c) = lookup hash c.prompt_snapshots

  unfoldable pub prompt_snapshot : String → String → M D J (Option String)
  prompt_snapshot id hash s = elim s.db [
    | none ↦ (ok (snapshot_of hash (lookup id s.sessions)), s)
    | some d ↦ elim (lookup hash s.snapshots) [
      | some content ↦ (ok (some content), s)
      | none ↦ on_db none (read_snapshot hash) s
    ]
  ]

  abbrev is_empty_path : List (Message J) → Bool
  is_empty_path [] = true
  is_empty_path (m ∷ ms) = false

  abbrev pub path_to : Context J → Option String → M D J (List (Message J))
  path_to c none = pure []
  path_to c (some leaf) =
      if (c.active_leaf_id == some leaf) && not (is_empty_path c.cached_path)
      then pure c.cached_path
      else (do
        raise_if (not (has leaf c.message_index)) (message_not_found leaf)
        of_path (resolve_path c (some leaf)))

  unfoldable pub get_message_path : ℕ → String → Option String → M D J (List (Message J))
  unfolding get_context_if_exists resolve_path latest_leaf_id
  get_message_path now id leaf = do
    found ← get_context_if_exists codec persistence now id
    c ← required found
    path_to c (truthy_or leaf (truthy_or c.active_leaf_id (latest_leaf_id c)))

  unfoldable pub get_tree_messages : ℕ → String → M D J (List (Message J))
  unfolding get_context_if_exists
  get_tree_messages now id = do
    found ← get_context_if_exists codec persistence now id
    c ← required found
    pure (sort_by (λ a b. ltb a.created_at b.created_at) (values c.message_index))
