-- ===== src/Session/Replies.antt =====
-- src/assistant_runtime/app/assistant/_session_store.py: registering assistant and host messages, and
-- updating a message.
use assistant_runtime.Prelude.{
  ℕ, String, Bool, false, not, Option, none, some, List, lookup, has, pure, raise, raise_if, modify,
  ◌>>=◌, ◌>>◌, string_eq,
}
use assistant_runtime.Session.Types.{assistant, host, standard, Message, Segment, Context}
use assistant_runtime.Session.StaleTools.{Codec}
use assistant_runtime.Session.Persistence.{
  SessionPersistence, session_not_found, parent_not_found, message_not_found, message_exists,
  bad_parent_role, MessageChanges,
}
use assistant_runtime.Session.Cache.{M, set_context, on_db}
use assistant_runtime.Session.Loading.{get_context_if_exists}
use assistant_runtime.Session.Messages.{
  UsageChange, resolve_usage, bind_context, changed, publish_update, answers, unshadow, at_leaf,
  write_message, publish, save_session_state,
}

module _ {J : Type 0} where
  abbrev pub parent_role : Option (Message J) → Bool
  parent_role none = false
  parent_role (some m) = answers m.role

  unfoldable pub host_record :
      String → String → Option String → String → List (Segment J) → ℕ → Message J
  host_record session_id id parent_id content segments now = record {
    id = id;
    session_id = session_id;
    parent_id = parent_id;
    role = host;
    message_type = standard;
    content = content;
    segments = some segments;
    usage = none;
    prompt = none;
    model_messages = none;
    created_at = now;
    updated_at = now;
  }

module _ {D J : Type 0} (codec : Codec J) (persistence : SessionPersistence D J) where
  open persistence use {create_message, update_message as write_update}

  abbrev pub answer_in : String → Option (Context J) → Message J → M D J (Message J)
  answer_in parent none m = raise session_not_found
  answer_in parent (some c) m = do
    raise_if (not (has parent c.message_index)) (parent_not_found parent)
    raise_if (not (parent_role (lookup parent c.message_index))) bad_parent_role
    raise_if (has m.id c.message_index) (message_exists m.id)
    on_db tt (create_message m)
    publish m.session_id c m
    pure m

  -- The caller's record is assembled from the arguments; its parent is `parent_id`, its role assistant.
  unfoldable pub register_assistant_message :
      ℕ
      → (session_id id parent_id content : String) → Option (List (Segment J))
      → Option J
      → Option ℕ
      → Option J
      → Option (List J)
      → M D J (Message J)
  unfolding get_context_if_exists publish
  register_assistant_message now session_id id parent_id content segments usage created_at prompt
        model_messages =
      do
        c ← get_context_if_exists codec persistence now session_id
        answer_in parent_id c (record {
          id = id;
          session_id = session_id;
          parent_id = some parent_id;
          role = assistant;
          message_type = standard;
          content = content;
          segments = segments;
          usage = usage;
          prompt = prompt;
          model_messages = model_messages;
          created_at = elim created_at [ none ↦ now | some t ↦ t ];
          updated_at = now;
        })

  unfoldable pub register_host_message :
      ℕ
      → (session_id id content : String) → List (Segment J)
      → (owner_id profile subject : Option String) → M D J (Message J)
  unfolding get_context_if_exists write_message publish save_session_state bind_context host_record
  register_host_message now session_id id content segments owner_id profile subject = do
    found ← get_context_if_exists codec persistence now session_id
    c ← unshadow codec persistence now session_id found
    p ← at_leaf codec persistence now session_id owner_id c
    raise_if (has id p.context.message_index) (message_exists id)
    let m = host_record session_id id p.parent_id content segments now
    write_message codec persistence session_id p.context p.new_owner profile subject m
    publish session_id (bind_context p.context p.new_owner profile subject) m
    save_session_state codec persistence session_id
    pure m

  abbrev pub update_in :
      ℕ → String → String → MessageChanges J → Context J → Message J → M D J (Message J)
  update_in now session_id id ch c m = do
    on_db tt (write_update id ch)
    modify (set_context session_id (publish_update id (changed now ch m) c))
    pure (changed now ch m)

  abbrev pub with_usage : Option J → MessageChanges J → MessageChanges J
  with_usage u ch = record ch { usage = u }

  abbrev pub update_found :
      ℕ
      → String
      → String
      → UsageChange J
      → MessageChanges J
      → Option (Context J)
      → M D J (Message J)
  update_found now session_id id u ch none = raise (message_not_found id)
  update_found now session_id id u ch (some c) = elim (lookup id c.message_index) [
    | none ↦ raise (message_not_found id)
    | some m ↦ update_in now session_id id (with_usage (resolve_usage u m.usage) ch) c m
  ]

  -- The usage of `ch` is the resolved value of `u`.
  unfoldable pub update_message :
      ℕ → String → String → UsageChange J → MessageChanges J → M D J (Message J)
  unfolding get_context_if_exists changed publish_update
  update_message now session_id id u ch = do
    c ← get_context_if_exists codec persistence now session_id
    update_found now session_id id u ch c
