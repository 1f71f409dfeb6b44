-- ===== src/Session/Messages.antt =====
-- src/assistant_runtime/app/assistant/_session_store.py: registering the messages of the tree and
-- updating them. `user_prompt_messages` of _serialization.py, a codec of Pydantic AI, is a parameter.
use Prim.Native.String.{◌++◌ as str_append}
use assistant_runtime.Prelude.{
  ℕ, ◌+◌, ltb, String, Bool, true, false, not, ◌&&◌, ◌||◌, Option, none, some, List, [], ◌∷◌, ◌==◌,
  lookup, has, put, is_some, is_empty, strip, take_chars, count_chars, ok, pure, raise, raise_if,
  modify, ◌>>=◌, ◌>>◌, string_eq, nat_eq, if◌then◌else◌,
}
use assistant_runtime.Session.Types.{
  Role, user, assistant, host, MessageType, standard, steering, Message, Context, Request,
}
use assistant_runtime.Session.Context.{
  add_message, refresh_cached_path_for_new_leaf, latest_leaf_id,
}
use assistant_runtime.Session.StaleTools.{Codec}
use assistant_runtime.Session.Persistence.{
  SessionPersistence, session_not_found, parent_not_found, message_exists, steering_in_tree,
  MessageChanges,
}
use assistant_runtime.Session.Cache.{M, set_context, get_context, on_db, of_path}
use assistant_runtime.Session.Loading.{load_session, get_context_if_exists, truthy}

abbrev pub is_steering : MessageType → Bool
is_steering steering = true
is_steering standard = false

-- `a or b`
abbrev pub or_else : {A : Type 0} → Option A → Option A → Option A
or_else (some a) b = some a
or_else none b = b

-- `a or b` of two texts, where an empty one is passed over.
abbrev pub truthy_or : Option String → Option String → Option String
truthy_or a b = or_else (truthy a) b

abbrev only_with : Option String → Option String → Option String
only_with none p = none
only_with (some s) p = p

abbrev shorten : String → String
shorten text = str_append (take_chars 50 text) (if ltb 50 (count_chars text) then "..." else "")

-- The title that a first standard message gives.
unfoldable pub titled : Option String → MessageType → String → Option String
titled title kind content =
    if not (is_some (truthy title)) && not (is_steering kind) && not (is_empty (strip content))
    then some (shorten (strip content))
    else title

abbrev pub answers : Role → Bool
answers user = true
answers host = true
answers assistant = false

-- A usage that `update_message` is given: a value, or a transform of the committed total.
pub data UsageChange (J : Type 0) : Type 0 where
  given : Option J → UsageChange J
  computed : (Option J → Option J) → UsageChange J

-- A context, the owner that a first message gives it, and the message's parent.
pub record Place (J : Type 0) : Type 0 where
  pub context : Context J
  pub new_owner : Option String
  pub parent_id : Option String

module _ {J : Type 0} where
  abbrev pub resolve_usage : UsageChange J → Option J → Option J
  resolve_usage (given u) old = u
  resolve_usage (computed f) old = f old

  -- The first saved message decides the binding; later ones keep it.
  abbrev pub is_first : Context J → Bool
  is_first c = c.message_count == 0

  abbrev pub bound_subject : Context J → Option String → Option String
  bound_subject c subject = if is_first c then subject else c.subject

  abbrev pub bound_profile : Context J → Option String → Option String → Option String
  bound_profile c profile subject =
      if is_first c then only_with (bound_subject c subject) profile else c.profile

  abbrev pub binds : Context J → Option String → Bool
  binds c subject = is_first c && (is_some subject || is_some c.subject)

  -- The owner and the binding as the saved message leaves them.
  unfoldable pub bind_context :
      Context J → Option String → Option String → Option String → Context J
  bind_context c new_owner profile subject = record c {
    owner_id = or_else new_owner c.owner_id;
    profile = if binds c subject then bound_profile c profile subject else c.profile;
    subject = if binds c subject then bound_subject c subject else c.subject;
  }

  unfoldable pub user_record : Request J → Option String → List J → ℕ → Message J
  user_record r parent_id model_messages now = record {
    id = r.id;
    session_id = r.session_id;
    parent_id = parent_id;
    role = user;
    message_type = r.message_type;
    content = r.content;
    segments = none;
    usage = none;
    prompt = none;
    model_messages = some model_messages;
    created_at = now;
    updated_at = now;
  }

  abbrev pub counted : Request J → Context J → Context J
  counted r c = record c {
    turn_number = c.turn_number + 1;
    title = titled c.title r.message_type r.content;
  }

  -- A message with the changes that are given; the time changes if one is.
  unfoldable pub changed : ℕ → MessageChanges J → Message J → Message J
  changed now ch m = record m {
    content = elim ch.content [ none ↦ m.content | some x ↦ x ];
    segments = or_else ch.segments m.segments;
    usage = or_else ch.usage m.usage;
    prompt = or_else ch.prompt m.prompt;
    model_messages = or_else ch.model_messages m.model_messages;
    updated_at =
        if is_some ch.content
          || is_some ch.segments
          || is_some ch.usage
          || is_some ch.prompt
          || is_some ch.model_messages
        then now
        else m.updated_at;
  }

  abbrev pub replace_on_path : String → Message J → List (Message J) → List (Message J)
  replace_on_path id new [] = []
  replace_on_path id new (m ∷ ms) = (if m.id == id then new else m) ∷ replace_on_path id new ms

  unfoldable pub publish_update : String → Message J → Context J → Context J
  publish_update id new c = record c {
    message_index = put id new c.message_index;
    cached_path = replace_on_path id new c.cached_path;
  }

module _ {D J : Type 0} where
  -- `_add_message` and the refresh of the cached path, on the session's context.
  unfoldable pub publish : String → Context J → Message J → M D J (Context J)
  publish id c m = do
    modify (set_context id (add_message c m))
    c' ← of_path (refresh_cached_path_for_new_leaf (add_message c m) m)
    modify (set_context id c')
    pure c'

module _ {D J : Type 0} (codec : Codec J) (persistence : SessionPersistence D J) where
  open persistence use {ensure_session, set_binding, create_message, save_state}

  abbrev pub save_if : String → Option (Context J) → M D J (Unit {0})
  save_if id none = pure tt
  save_if id (some c) = on_db tt (save_state id c)

  unfoldable pub save_session_state : String → M D J (Unit {0})
  save_session_state id s = save_if id (lookup id s.sessions) s

  abbrev pub shadowed_by : String → Context J → Option (Context J) → M D J (Option (Context J))
  shadowed_by id c none = pure (some c)
  shadowed_by id c (some l) = do modify (set_context id l); pure (some l)

  -- An empty cached context may shadow a persisted session, whose owner and messages win.
  abbrev pub unshadow : ℕ → String → Option (Context J) → M D J (Option (Context J))
  unshadow now id none = pure none
  unshadow now id (some c) = λ s.
      if is_first c && is_some s.db
      then (do loaded ← load_session codec persistence now id; shadowed_by id c loaded) s
      else (ok (some c), s)

  abbrev pub at_leaf : ℕ → String → Option String → Option (Context J) → M D J (Place J)
  at_leaf now id owner none = λ s.
      let (c, s') = get_context now id s in
      (ok (record { context = c; new_owner = owner; parent_id = none }), s')
  at_leaf now id owner (some c) =
      if is_first c
      then pure (record {
        context = c;
        new_owner = if is_some c.owner_id then none else owner;
        parent_id = none;
      })
      else pure (record {
        context = c;
        new_owner = none;
        parent_id = truthy_or c.active_leaf_id (latest_leaf_id c);
      })

  abbrev pub under_parent : String → Option (Context J) → M D J (Place J)
  under_parent parent none = raise session_not_found
  under_parent parent (some c) = do
    raise_if (not (has parent c.message_index)) (parent_not_found parent)
    pure (record { context = c; new_owner = none; parent_id = some parent })

  abbrev pub place :
      ℕ → String → Option String → Option String → Option (Context J) → M D J (Place J)
  place now id owner none c = do c' ← unshadow now id c; at_leaf now id owner c'
  place now id owner (some parent) c = under_parent parent c

  abbrev pub bind_if : Bool → String → Option String → Option String → M D J (Unit {0})
  bind_if false id profile subject = pure tt
  bind_if true id profile subject = on_db tt (set_binding id profile subject)

  -- The writes that precede any change of the cache.
  unfoldable pub write_message :
      String
      → Context J
      → Option String
      → Option String
      → Option String
      → Message J
      → M D J (Unit {0})
  write_message id c new_owner profile subject m = do
    on_db tt (
        ensure_session id c.title (truthy_or new_owner c.owner_id) (bound_profile c profile subject)
          (bound_subject c subject))
    bind_if (binds c subject) id (bound_profile c profile subject) (bound_subject c subject)
    on_db tt (create_message m)

  module _ (user_prompt_messages : J → ℕ → List J) where
    unfoldable pub register_user_message :
        ℕ → Request J → Option String → Option J → M D J (Context J × Message J)
    unfolding get_context_if_exists write_message publish save_session_state bind_context
        user_record
    register_user_message now r owner_id prompt = do
      raise_if (is_steering r.message_type) steering_in_tree
      found ← get_context_if_exists codec persistence now r.session_id
      p ← place now r.session_id owner_id r.parent_id found
      raise_if (has r.id p.context.message_index) (message_exists r.id)
      let m =
          user_record r p.parent_id
            (user_prompt_messages (elim prompt [ none ↦ codec.text r.content | some j ↦ j ]) now)
            now
      write_message r.session_id p.context p.new_owner r.profile r.subject m
      c ← publish r.session_id (bind_context p.context p.new_owner r.profile r.subject) m
      modify (set_context r.session_id (counted r c))
      save_session_state r.session_id
      pure (counted r c, m)
