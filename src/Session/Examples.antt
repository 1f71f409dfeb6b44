-- ===== src/Session/Examples.antt =====
-- The session store's theorems at one database: every session that it has holds a question and an answer.
use assistant_runtime.Prelude.{
  ℕ, ◌≤◌, ◌++◌, ap, size, ◌≡◌, refl, String, Option, none, some, List, [], ◌∷◌, lookup, put, Dict,
  ok, pure, string_eq,
}
use mathlib.Core.Path.{subst}
use assistant_runtime.Session.Types.{
  Role, user, assistant, standard, Message, Request, Context, LoadedSession,
}
use assistant_runtime.Session.Context.{
  add_message, refresh_cached_path_for_new_leaf, walk, empty_context,
}
use assistant_runtime.Session.StaleTools.{Codec}
use assistant_runtime.Session.Persistence.{SessionPersistence, MessageChanges}
use assistant_runtime.Session.Messages.{given}
use assistant_runtime.Session.Cache.{SessionStore}
use assistant_runtime.Session.Runs.{
  Call, registers_user, registers_assistant, sets_pending, repairs, updates_message, registers_host,
  ensures, gets_or_creates, gets, run, run-AllSound,
}
use assistant_runtime.Session.Invariant.{IsSound, publish-IsSound}
use assistant_runtime.Session.Loaded.{Addable, empty_context-IsSound, context_from_loaded-IsSound}
use assistant_runtime.Session.Resolved.{walk_ends}
use assistant_runtime.Session.Paths.{PathTo}
use assistant_runtime.Session.CacheSound.{AllSound, LoadsTrees}

abbrev pub message : String → Option String → Role → String → Message String
message id parent role words = record {
  id = id;
  session_id = "s1";
  parent_id = parent;
  role = role;
  message_type = standard;
  content = words;
  segments = none;
  usage = none;
  prompt = none;
  model_messages = none;
  created_at = 1;
  updated_at = 1;
}

abbrev pub question : Message String
question = message "u1" none user "What is due?"

abbrev answer : Message String
answer = message "a1" (some "u1") assistant "Nothing."

abbrev loaded : LoadedSession String
loaded = record {
  turn_number = 1;
  working_memory = none;
  title = some "Due";
  owner_id = some "o1";
  telegram_chat_id = none;
  telegram_bound_at = none;
  messages = question ∷ answer ∷ [];
  steering = [];
  pending_action = none;
  profile = none;
  subject = none;
}

loaded-Addable : Addable [] loaded.messages
unfolding lookup put
loaded-Addable = (refl, tt, (refl, (question, refl), tt))

abbrev pub codec : Codec String
codec = record { load_model_messages = λ js. []; dump_model_messages = λ ms. []; text = λ s. s }

abbrev pub persistence : SessionPersistence (Unit {0}) String
persistence = record {
  ensure_session = λ _ _ _ _ _. pure tt;
  set_binding = λ _ _ _. pure tt;
  set_owner = λ _ _. pure tt;
  create_message = λ _. pure tt;
  update_message = λ _ _. pure tt;
  save_prompt_snapshot = λ _ _. pure tt;
  prompt_snapshot = λ _. pure none;
  update_segments = λ _. pure tt;
  create_steering = λ _. pure tt;
  mark_steering = λ _ _ _. pure tt;
  save_state = λ _ _. pure tt;
  session_for_telegram_chat = λ _. pure none;
  delete = λ _. pure tt;
  list_sessions = λ _ _ _ _. pure [];
  count_messages = λ _ _. pure 0;
  cleanup_expired = pure 0;
  load = λ _. pure (some loaded);
}

pub loads : LoadsTrees persistence
unfolding pure
loads id d l h = let e : loaded ≡ l = cc in subst (λ k. Addable [] k.messages) e loaded-Addable

publish-IsSound_example :
    (c' : Context String) × (refresh_cached_path_for_new_leaf
        (add_message empty_context question)
        question
      ≡ ok c')
    × IsSound c'
    × (c'.active_leaf_id ≡ some "u1")
    × (c'.message_index ≡ put "u1" question [])
unfolding lookup
publish-IsSound_example = publish-IsSound empty_context question empty_context-IsSound refl tt

abbrev open_session : Context String
open_session = (context_from_loaded-IsSound loaded loaded-Addable).0

open_session-IsSound : IsSound open_session
open_session-IsSound = (context_from_loaded-IsSound loaded loaded-Addable).2

question_new : lookup question.id (empty_context {J = String}).message_index ≡ none
unfolding lookup
question_new = refl

abbrev asked : Context String
asked = (publish-IsSound empty_context question empty_context-IsSound question_new tt).0

question_found : lookup "u1" asked.message_index ≡ some question
unfolding lookup put
question_found =
    ap (λ (d : Dict String (Message String)). lookup "u1" d)
      (publish-IsSound empty_context question empty_context-IsSound question_new tt).4

walk_ends_example :
    (ms : List (Message String)) × PathTo asked.message_index none ms
    × ((fuel : ℕ)
        → size asked.message_index ≤ fuel
        → walk fuel asked.message_index (some "u1") [] ≡ ok (ms ++ question ∷ []))
walk_ends_example =
    walk_ends asked "u1" question
      (publish-IsSound empty_context question empty_context-IsSound question_new tt).2
      question_found

abbrev pub request : Request String
request = record {
  id = "u2";
  session_id = "s1";
  profile = none;
  subject = some "deal-1";
  parent_id = some "a1";
  message_type = standard;
  content = "And tomorrow?";
  attachments = [];
}

abbrev changes : MessageChanges String
changes = record {
  content = some "Nothing yet.";
  segments = none;
  usage = none;
  prompt = none;
  model_messages = none;
}

abbrev fresh_store : SessionStore (Unit {0}) String
fresh_store = record { sessions = []; snapshots = []; db = some tt; pinned = [] }

abbrev calls : List (Call String)
calls =
    registers_user 5 request (some "o1") none
    ∷ registers_assistant 6 "s1" "a2" "u2" "Two calls." none none none none none
    ∷ sets_pending 7 "s1" "call_1" "open_deal" "a2" none "text"
    ∷ repairs 8 "s1"
    ∷ updates_message 9 "s1" "a1" (given none) changes
    ∷ registers_host 10 "s1" "h1" "Reminder" [] (some "o1") none none
    ∷ ensures 11 "s2" "o1"
    ∷ gets_or_creates 12 "s3"
    ∷ gets 13 "s1"
    ∷ []

run-AllSound_example : AllSound (run codec persistence (λ j n. []) calls fresh_store)
run-AllSound_example = run-AllSound codec persistence (λ j n. []) loads calls fresh_store tt
