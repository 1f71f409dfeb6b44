-- ===== src/Session/StateExamples.antt =====
-- The theorems on eviction, pins, steering, snapshots and repair at one store with a pinned session.
use assistant_runtime.Prelude.{
  ◌+◌, ◌≡◌, refl, String, none, some, List, [], ◌∷◌, lookup, has, ◌>>=◌, size, put, ok, string_eq,
  leb, if◌then◌else◌,
}
use Prim.Native.Nat.{min, ◌/◌}
use assistant_runtime.Session.Types.{
  assistant, standard, pending, Segment, tool_group, entry, ToolEntry, Message, Context,
}
use assistant_runtime.Session.Context.{add_message, add_steering, empty_context}
use assistant_runtime.Session.StaleTools.{repair_stale_tools_in_context}
use assistant_runtime.Session.Cache.{SessionStore, max_memory_sessions, evict_if_needed}
use assistant_runtime.Session.Steering.{mark_steering_delivered, deliver, steering_record}
use assistant_runtime.Session.Eviction.{unpinned, evict_if_needed-pinned, evict_if_needed-size}
use assistant_runtime.Session.Repaired.{repair_twice}
use assistant_runtime.Session.Delivery.{mark_steering_twice}
use mathlib.Core.Path.{subst, sym}
use assistant_runtime.Session.Types.{Request}
use assistant_runtime.Session.Context.{refresh_cached_path_for_new_leaf}
use assistant_runtime.Session.Invariant.{IsSound, publish-IsSound}
use assistant_runtime.Session.Loaded.{empty_context-IsSound}
use assistant_runtime.Session.Messages.{register_user_message}
use assistant_runtime.Session.State.{get_message}
use assistant_runtime.Session.Registered.{register_user_message_found}
use assistant_runtime.Session.Examples.{codec, persistence, question, request}

abbrev tool : String → ToolEntry String
tool call = record {
  id = call;
  name = "open_deal";
  args = "{}";
  output = none;
  outcome = none;
  status = none;
}

abbrev group : List (Segment String)
group = tool_group (entry (tool "call_1") ∷ entry (tool "call_2") ∷ []) ∷ []

abbrev reply : Message String
reply = record {
  id = "a1";
  session_id = "s1";
  parent_id = some "u1";
  role = assistant;
  message_type = standard;
  content = "";
  segments = some group;
  usage = none;
  prompt = none;
  model_messages = none;
  created_at = 2;
  updated_at = 2;
}

abbrev steered : Context String
steered =
    add_steering (add_message (add_message empty_context question) reply)
      (steering_record 3 "s1" request pending none)

abbrev store : SessionStore (Unit {0}) String
store = record {
  sessions = ("s1", steered) ∷ ("s2", empty_context) ∷ [];
  snapshots = ("h0", "old") ∷ [];
  db = some tt;
  pinned = ("s1", 2) ∷ [];
}

evict_if_needed-pinned_example :
    lookup "s1" (evict_if_needed store).sessions ≡ lookup "s1" store.sessions
unfolding lookup has
evict_if_needed-pinned_example = evict_if_needed-pinned store "s1" refl

evict_if_needed-size_example :
    size (evict_if_needed store).sessions
      + (if leb (size store.sessions) max_memory_sessions
          then 0
          else min (size store.sessions / 2) (unpinned store.pinned store.sessions))
    ≡ size store.sessions
evict_if_needed-size_example = evict_if_needed-size store

repair_twice_example :
    (repair_stale_tools_in_context codec
      ("call_1" ∷ [])
      (repair_stale_tools_in_context codec ("call_1" ∷ []) steered).0).1
    ≡ []
repair_twice_example = repair_twice codec ("call_1" ∷ []) steered

mark_steering_twice_example :
    (mark_steering_delivered codec persistence 6 "s1"
      ("u2" ∷ [])
      (mark_steering_delivered codec persistence 5 "s1" ("u2" ∷ []) store).1).0
    ≡ ok []
unfolding mark_steering_delivered lookup ◌>>=◌ add_steering steering_record add_message put
mark_steering_twice_example =
    mark_steering_twice codec persistence 5 6 "s1" ("u2" ∷ []) steered store
      (mark_steering_delivered codec persistence 5 "s1" ("u2" ∷ []) store).1
      (deliver 5 (steering_record 3 "s1" request pending none) ∷ []) refl refl

abbrev asked : Context String
unfolding add_message
asked = record (add_message empty_context question) {
  cached_path = question ∷ [];
  active_leaf_id = some "u1";
}

asked-IsSound : IsSound asked
unfolding refresh_cached_path_for_new_leaf add_message lookup
asked-IsSound =
    let (c', e, s, leaf, index) =
      publish-IsSound empty_context question empty_context-IsSound refl tt in
    let q : asked ≡ c' = cc in subst IsSound (sym q) s

abbrev memory_store : SessionStore (Unit {0}) String
memory_store = record { sessions = ("s1", asked) ∷ []; snapshots = []; db = none; pinned = [] }

abbrev follow_up : Request String
follow_up = record request { parent_id = some "u1" }

register_user_message_found_example :
    (c : Context String) × (m : Message String) × (t : SessionStore (Unit {0}) String)
    × (register_user_message codec persistence (λ j n. []) 5 follow_up (some "o1") none memory_store
        ≡ (ok (c, m), t))
    × (get_message "s1" "u2" t ≡ some m)
    × (c.active_leaf_id ≡ some "u2")
unfolding lookup add_message put
register_user_message_found_example =
    register_user_message_found codec persistence (λ j n. []) 5 follow_up (some "o1") none
      memory_store asked "u1" question refl refl asked-IsSound refl refl refl refl
