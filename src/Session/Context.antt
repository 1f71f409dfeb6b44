-- ===== src/Session/Context.antt =====
-- src/assistant_runtime/app/assistant/_session_store.py: the helpers over a session's context.
use assistant_runtime.Prelude.{
  ℕ, zero, suc, ltb, String, Bool, true, false, not, ◌&&◌, Option, none, some, List, [], ◌∷◌, ◌++◌,
  ◌==◌, Dict, values, size, lookup, put, Result, ok, err, string_eq, option_eq, if◌then◌else◌,
}
use assistant_runtime.Session.Types.{
  Message, Steering, SteeringStatus, pending, Context, LoadedSession,
}

-- A `LookupError`; `no_fuel` is not raised by the code, and never met (Session/Paths).
pub data PathError : Type 0 where
  not_found : String → PathError
  no_fuel : PathError

-- `x in xs`
abbrev pub contains : String → List String → Bool
contains x [] = false
contains x (y ∷ ys) = if y == x then true else contains x ys

-- `d.get(p) or []` for a dict of lists.
abbrev pub list_at : Option (List String) → List String
list_at none = []
list_at (some l) = l

-- `children.setdefault(p, []).append(id)` and `children.setdefault(id, [])`.
unfoldable pub add_child :
    Option String → String → Dict (Option String) (List String) → Dict (Option String) (List String)
add_child parent id children =
    let with_parent = put parent (list_at (lookup parent children) ++ id ∷ []) children in
    put (some id) (list_at (lookup (some id) with_parent)) with_parent

abbrev pub is_pending : SteeringStatus → Bool
is_pending pending = true
is_pending _ = false

module _ {J : Type 0} where
  abbrev pub empty_context : Context J
  empty_context = record {
    turn_number = 0;
    working_memory = none;
    title = none;
    owner_id = none;
    profile = none;
    subject = none;
    telegram_chat_id = none;
    telegram_bound_at = none;
    last_host_context = none;
    last_request_config = none;
    pending_tool_call_id = none;
    pending_tool_name = none;
    pending_assistant_message_id = none;
    pending_tool_batch = [];
    pending_output_mode = none;
    current_assistant_message_id = none;
    pending_steering_ids = [];
    steering_index = [];
    steering_order = [];
    message_count = 0;
    message_index = [];
    children_by_parent = [];
    cached_path = [];
    active_leaf_id = none;
    used_at = none;
    prompt_snapshots = [];
  }

  -- A change of messages in place: a message's dict is shared by the index and the cached path.
  abbrev pub map_index :
      (String → Message J → Message J) → Dict String (Message J) → Dict String (Message J)
  map_index f [] = []
  map_index f ((id, m) ∷ d) = (id, f id m) ∷ map_index f d

  abbrev pub map_path : (String → Message J → Message J) → List (Message J) → List (Message J)
  map_path f [] = []
  map_path f (m ∷ ms) = f m.id m ∷ map_path f ms

  abbrev pub map_messages : (String → Message J → Message J) → Context J → Context J
  map_messages f c = record c {
    message_index = map_index f c.message_index;
    cached_path = map_path f c.cached_path;
  }

  unfoldable pub add_message : Context J → Message J → Context J
  unfolding add_child
  add_message c m =
      let index = put m.id m c.message_index in
      record c {
        message_index = index;
        children_by_parent = add_child m.parent_id m.id c.children_by_parent;
        message_count = size index;
      }

  unfoldable pub add_steering : Context J → Steering J → Context J
  add_steering c r = record c {
    steering_index = put r.id r c.steering_index;
    steering_order =
        if contains r.id c.steering_order then c.steering_order else c.steering_order ++ r.id ∷ [];
    pending_steering_ids =
        if is_pending r.status && not (contains r.id c.pending_steering_ids)
        then c.pending_steering_ids ++ r.id ∷ []
        else c.pending_steering_ids;
  }

  -- The loop of `_resolve_path`: the path is built from the leaf up, so a message goes in front of
  -- what is there (the code appends and reverses at the end).
  unfoldable pub walk :
      ℕ
      → Dict String (Message J)
      → Option String
      → List (Message J)
      → Result PathError (List (Message J))
  walk fuel index none path = ok path
  walk zero index (some id) path = err no_fuel
  walk (suc fuel) index (some id) path = elim (lookup id index) [
    | none ↦ err (not_found id)
    | some m ↦ walk fuel index m.parent_id (m ∷ path)
  ]

  -- A path visits no message twice, so the index's size is enough fuel.
  unfoldable pub resolve_path : Context J → Option String → Result PathError (List (Message J))
  unfolding walk
  resolve_path c leaf = walk (size c.message_index) c.message_index leaf []

  abbrev extend :
      Context J → Message J → Result PathError (List (Message J)) → Result PathError (Context J)
  extend c m (ok path) = ok (record c { cached_path = path ++ m ∷ []; active_leaf_id = some m.id })
  extend c m (err e) = err e

  -- The test `active is None and parent is None` is the case of equal ids.
  unfoldable pub refresh_cached_path_for_new_leaf :
      Context J → Message J → Result PathError (Context J)
  unfolding resolve_path
  refresh_cached_path_for_new_leaf c m =
      if c.active_leaf_id == m.parent_id
      then extend c m (ok c.cached_path)
      else extend c m (resolve_path c m.parent_id)

  abbrev pub newer : Option (Message J) → Message J → Option (Message J)
  newer none m = some m
  newer (some l) m = if ltb l.created_at m.created_at then some m else some l

  abbrev pub is_leaf : Dict (Option String) (List String) → Message J → Bool
  is_leaf children m = elim (list_at (lookup (some m.id) children)) [ [] ↦ true | _ ∷ _ ↦ false ]

  unfoldable pub latest :
      Dict (Option String) (List String)
      → Option (Message J)
      → List (Message J)
      → Option (Message J)
  latest children best [] = best
  latest children best (m ∷ ms) =
      latest children (if is_leaf children m then newer best m else best) ms

  abbrev pub message_id : Option (Message J) → Option String
  message_id none = none
  message_id (some m) = some m.id

  unfoldable pub latest_leaf_id : Context J → Option String
  unfolding latest
  latest_leaf_id c = message_id (latest c.children_by_parent none (values c.message_index))

  abbrev pub add_messages : Context J → List (Message J) → Context J
  add_messages c [] = c
  add_messages c (m ∷ ms) = add_messages (add_message c m) ms

  abbrev pub add_all_steering : Context J → List (Steering J) → Context J
  add_all_steering c [] = c
  add_all_steering c (r ∷ rs) = add_all_steering (add_steering c r) rs

  abbrev with_path :
      Context J → Option String → Result PathError (List (Message J)) → Result PathError (Context J)
  with_path c leaf (ok path) = ok (record c { active_leaf_id = leaf; cached_path = path })
  with_path c leaf (err e) = err e

  -- The new context with the row's own columns.
  abbrev pub start_context : LoadedSession J → Context J
  start_context l = record (empty_context) {
    turn_number = l.turn_number;
    working_memory = l.working_memory;
    title = l.title;
    owner_id = l.owner_id;
    profile = l.profile;
    subject = l.subject;
    telegram_chat_id = l.telegram_chat_id;
    telegram_bound_at = l.telegram_bound_at;
  }

  unfoldable pub context_from_loaded : LoadedSession J → Result PathError (Context J)
  unfolding add_message add_steering latest_leaf_id resolve_path
  context_from_loaded l =
      let filled = add_all_steering (add_messages (start_context l) l.messages) l.steering in
      with_path filled (latest_leaf_id filled) (resolve_path filled (latest_leaf_id filled))
