-- ===== src/Session/Loading.antt =====
-- src/assistant_runtime/app/assistant/_session_store.py: hydrating a session from the database, and
-- restoring the host action that it waits on.
use assistant_runtime.Prelude.{
  ℕ, String, Bool, true, false, Option, none, some, List, [], ◌∷◌, ◌==◌, Dict, lookup, has, is_some,
  is_empty, keep_if, ok, pure, modify, ◌>>=◌, ◌>>◌, string_eq, nat_eq, if◌then◌else◌,
}
use assistant_runtime.Session.Types.{
  Message, Segment, Context, LoadedSession, PendingAction, ToolEntry,
}
use assistant_runtime.Session.Context.{context_from_loaded, contains, map_messages}
use assistant_runtime.Session.StaleTools.{Codec, find_tool_entry, repair_stale_tools_in_context}
use assistant_runtime.Session.Persistence.{SessionPersistence}
use assistant_runtime.Session.Cache.{
  M, evict_if_needed, touch_session, set_context, get_context, on_db, of_path,
}

-- A text that counts as true: one that is there and not empty.
abbrev pub truthy : Option String → Option String
truthy none = none
truthy (some s) = if is_empty s then none else some s

abbrev text_or : String → Option String → String
text_or default none = default
text_or default (some s) = s

abbrev or_one : String → List String → List String
or_one id [] = id ∷ []
or_one id (x ∷ xs) = x ∷ xs

abbrev output_mode : Option String → String
output_mode none = "text"
output_mode (some m) = if m == "host_tools" then "host_tools" else "text"

abbrev pub keep_ids : Option String → List String → List String
keep_ids none batch = []
keep_ids (some id) batch = batch

module _ {J : Type 0} where
  abbrev record_segments : Option (Message J) → Option (List (Segment J))
  record_segments none = none
  record_segments (some m) = m.segments

  abbrev at_id : Dict String (Message J) → Option String → Option (Message J)
  at_id index none = none
  at_id index (some id) = lookup id index

  abbrev waiting : Option (ToolEntry J) → Option (ToolEntry J)
  waiting none = none
  waiting (some t) = if is_some t.output then none else some t

  abbrev pub restored :
      PendingAction
      → Option (List (Segment J))
      → Context J
      → String
      → Option (ToolEntry J)
      → Option String × Context J
  restored p segments c id none = (none, c)
  restored p segments c id (some t) =
      let batch = keep_if (λ call. is_some (find_tool_entry segments call)) (or_one id p.batch) in
      (
        some id,
        record c {
          pending_output_mode = some (output_mode p.output_mode);
          pending_tool_call_id = some id;
          pending_tool_name = some (text_or t.name (truthy p.tool_name));
          pending_assistant_message_id = p.assistant_message_id;
          pending_tool_batch = if contains id batch then batch else id ∷ [];
        },
      )

  -- The restored tool call id, if the stored action still matches the messages.
  unfoldable pub restore_pending_action :
      Context J → Option PendingAction → Option String × Context J
  restore_pending_action c none = (none, c)
  restore_pending_action c (some p) =
      let segments = record_segments (at_id c.message_index (truthy p.assistant_message_id)) in
      elim (truthy p.tool_call_id) [
        | none ↦ (none, c)
        | some id ↦ restored p segments c id (waiting (find_tool_entry segments id))
      ]

  abbrev stamp : ℕ → Bool → Message J → Message J
  stamp now true m = record m { updated_at = now }
  stamp now false m = m

  unfoldable pub mark_changed : ℕ → Dict String (Message J) → Context J → Context J
  mark_changed now repaired c = map_messages (λ id m. stamp now (has id repaired) m) c

module _ {D J : Type 0} (codec : Codec J) (persistence : SessionPersistence D J) where
  open persistence use {load, update_segments, save_state}

  abbrev pub write_segments : List (String × Message J) → M D J (Unit {0})
  write_segments [] = pure tt
  write_segments (r ∷ rs) = on_db tt (update_segments (r ∷ rs))

  abbrev pub drop_stored :
      String → Option PendingAction → Option String → Context J → M D J (Unit {0})
  drop_stored id (some p) none c = on_db tt (save_state id c)
  drop_stored id _ _ c = pure tt

  abbrev pub hydrate : ℕ → String → LoadedSession J → M D J (Context J)
  hydrate now id loaded = do
    c ← of_path (context_from_loaded loaded)
    let (pending_id, c1) = restore_pending_action c loaded.pending_action
    let keep = keep_ids pending_id c1.pending_tool_batch
    let (c2, repaired) = repair_stale_tools_in_context codec keep c1
    write_segments repaired
    let c3 = mark_changed now repaired c2
    drop_stored id loaded.pending_action pending_id c3
    pure c3

  abbrev pub publish_loaded : ℕ → String → Option (LoadedSession J) → M D J (Option (Context J))
  publish_loaded now id none = pure none
  publish_loaded now id (some loaded) = do
    c ← hydrate now id loaded
    modify (λ s. set_context id c (evict_if_needed s))
    pure (some c)

  -- `_load_session_singleflight`: load, repair, and publish in the cache.
  unfoldable pub load_session : ℕ → String → M D J (Option (Context J))
  unfolding restore_pending_action mark_changed evict_if_needed
  load_session now id = do loaded ← on_db none (load id); publish_loaded now id loaded

  abbrev pub touch_if : ℕ → String → Option (Context J) → M D J (Option (Context J))
  touch_if now id none = pure none
  touch_if now id (some c) =
      λ s. (ok (some (record c { used_at = some now })), touch_session now id s)

  unfoldable pub get_context_if_exists : ℕ → String → M D J (Option (Context J))
  unfolding load_session touch_session
  get_context_if_exists now id s = elim (lookup id s.sessions) [
    | some c ↦ touch_if now id (some c) s
    | none ↦ (do loaded ← load_session now id; touch_if now id loaded) s
  ]

  abbrev pub or_new : ℕ → String → Option (Context J) → M D J (Context J)
  or_new now id (some c) = pure c
  or_new now id none = λ s. let (c, s') = get_context now id s in (ok c, s')

  unfoldable pub get_context_async : ℕ → String → M D J (Context J)
  unfolding get_context_if_exists get_context
  get_context_async now id = do c ← get_context_if_exists now id; or_new now id c
