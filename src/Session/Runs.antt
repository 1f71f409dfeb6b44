-- ===== src/Session/Runs.antt =====
-- The calls of SessionStore (_session_store.py) that change its cache, one after the other. `reads` is
-- get_context_if_exists_async, which the methods that only read the messages begin with, and `gets` is
-- get_context, which get_history begins with.
use assistant_runtime.Prelude.{ℕ, String, Option, List, [], ◌∷◌, string_eq}
use assistant_runtime.Prelude.Triples.{Keeps, Post-state}
use assistant_runtime.Session.Types.{Segment, SteeringStatus, Request}
use assistant_runtime.Session.StaleTools.{Codec}
use assistant_runtime.Session.Persistence.{SessionPersistence, MessageChanges}
use assistant_runtime.Session.Cache.{SessionStore, M, pin, unpin, get_context}
use assistant_runtime.Session.Loading.{get_context_if_exists, get_context_async}
use assistant_runtime.Session.Messages.{UsageChange, register_user_message}
use assistant_runtime.Session.Replies.{
  register_assistant_message, register_host_message, update_message,
}
use assistant_runtime.Session.Steering.{queue_steering, mark_steering_delivered}
use assistant_runtime.Session.State.{
  set_owner, ensure_owned_session, delete_session, set_pending_action, clear_pending_action,
  repair_stale_host_tools, save_prompt_snapshot,
}
use assistant_runtime.Session.CacheSound.{
  AllSound, LoadsTrees, get_context_if_exists-AllSound, get_context-AllSound,
}
use assistant_runtime.Session.MessagesSound.{register_user_message-AllSound}
use assistant_runtime.Session.RepliesSound.{
  register_assistant_message-AllSound, register_host_message-AllSound, update_message-AllSound,
}
use assistant_runtime.Session.StateSound.{
  queue_steering-AllSound, mark_steering_delivered-AllSound, set_owner-AllSound,
  get_context_async-AllSound, ensure_owned_session-AllSound,
}
use assistant_runtime.Session.PendingSound.{
  pin-AllSound, unpin-AllSound, delete_session-AllSound, set_pending_action-AllSound,
  clear_pending_action-AllSound, save_prompt_snapshot-AllSound, repair_stale_host_tools-AllSound,
}

-- A call, with the time at which it is made.
pub data Call (J : Type 0) : Type 0 where
  registers_user : ℕ → Request J → (owner : Option String) → (prompt : Option J) → Call J
  registers_assistant :
      ℕ
      → (session_id id parent_id content : String) → Option (List (Segment J))
      → (usage : Option J) → Option ℕ
      → (prompt : Option J) → Option (List J)
      → Call J
  registers_host :
      ℕ
      → (session_id id content : String) → List (Segment J)
      → (owner profile subject : Option String) → Call J
  updates_message : ℕ → (session_id id : String) → UsageChange J → MessageChanges J → Call J
  queues_steering : ℕ → (session_id : String) → Request J → SteeringStatus → Option ℕ → Call J
  marks_steering : ℕ → (session_id : String) → List String → Call J
  reads : ℕ → (session_id : String) → Call J
  gets : ℕ → (session_id : String) → Call J
  gets_or_creates : ℕ → (session_id : String) → Call J
  ensures : ℕ → (session_id owner : String) → Call J
  owns : ℕ → (session_id : String) → (owner : Option String) → Call J
  deletes : (session_id : String) → Call J
  sets_pending :
      ℕ → (session_id call tool message : String) → Option (List String) → (mode : String) → Call J
  clears_pending : (session_id : String) → Call J
  saves_snapshot : ℕ → (session_id hash content : String) → Call J
  repairs : ℕ → (session_id : String) → Call J
  pins : (session_id : String) → Call J
  unpins : (session_id : String) → Call J

module _ {D J : Type 0} (codec : Codec J) (persistence : SessionPersistence D J)
    (prompts : J → ℕ → List J) where
  -- The store after a call, whether or not it raises.
  unfoldable pub step : Call J → SessionStore D J → SessionStore D J
  step (registers_user now r owner prompt) s =
      (register_user_message codec persistence prompts now r owner prompt s).1
  step (registers_assistant now session_id id parent_id content segments usage at prompt messages)
        s =
      (register_assistant_message codec persistence now session_id id parent_id content segments
        usage at prompt messages s).1
  step (registers_host now session_id id content segments owner profile subject) s =
      (register_host_message codec persistence now session_id id content segments owner profile
        subject s).1
  step (updates_message now session_id id u ch) s =
      (update_message codec persistence now session_id id u ch s).1
  step (queues_steering now session_id r status at) s =
      (queue_steering codec persistence now session_id r status at s).1
  step (marks_steering now session_id ids) s =
      (mark_steering_delivered codec persistence now session_id ids s).1
  step (reads now session_id) s = (get_context_if_exists codec persistence now session_id s).1
  step (gets now session_id) s = (get_context now session_id s).1
  step (gets_or_creates now session_id) s = (get_context_async codec persistence now session_id s).1
  step (ensures now session_id owner) s =
      (ensure_owned_session codec persistence now session_id owner s).1
  step (owns now session_id owner) s = (set_owner codec persistence now session_id owner s).1
  step (deletes session_id) s = (delete_session codec persistence session_id s).1
  step (sets_pending now session_id call tool message batch mode) s =
      (set_pending_action codec persistence now session_id call tool message batch mode s).1
  step (clears_pending session_id) s = (clear_pending_action codec persistence session_id s).1
  step (saves_snapshot now session_id hash content) s =
      (save_prompt_snapshot codec persistence now session_id hash content s).1
  step (repairs now session_id) s = (repair_stale_host_tools codec persistence now session_id s).1
  step (pins session_id) s = pin session_id s
  step (unpins session_id) s = unpin session_id s

  unfoldable pub run : List (Call J) → SessionStore D J → SessionStore D J
  run [] s = s
  run (c ∷ cs) s = run cs (step c s)

module _ {D J : Type 0} (codec : Codec J) (persistence : SessionPersistence D J)
    (prompts : J → ℕ → List J) (loads : LoadsTrees persistence) where
  kept :
      {A : Type 0} (m : M D J A) (F : A → Type 0)
      → Keeps AllSound m F
      → (s : SessionStore D J) → AllSound s
      → AllSound (m s).1
  kept m F k s a = Post-state AllSound F (m s) (k.at s a)

  step-AllSound :
      (c : Call J) (s : SessionStore D J)
      → AllSound s
      → AllSound (step codec persistence prompts c s)
  unfolding step
  step-AllSound (registers_user now r owner prompt) s a =
      kept _ _ (register_user_message-AllSound codec persistence loads prompts now r owner prompt) s
        a
  step-AllSound
        (registers_assistant now session_id id parent_id content segments usage at prompt messages)
        s a =
      kept _ _
        (register_assistant_message-AllSound codec persistence loads now session_id id parent_id
          content segments usage at prompt messages)
        s a
  step-AllSound (registers_host now session_id id content segments owner profile subject) s a =
      kept _ _
        (register_host_message-AllSound codec persistence loads now session_id id content segments
          owner profile subject)
        s a
  step-AllSound (updates_message now session_id id u ch) s a =
      kept _ _ (update_message-AllSound codec persistence loads now session_id id u ch) s a
  step-AllSound (queues_steering now session_id r status at) s a =
      kept _ _ (queue_steering-AllSound codec persistence loads now session_id r status at) s a
  step-AllSound (marks_steering now session_id ids) s a =
      kept _ _ (mark_steering_delivered-AllSound codec persistence loads now session_id ids) s a
  step-AllSound (reads now session_id) s a =
      kept _ _ (get_context_if_exists-AllSound codec persistence loads now session_id) s a
  step-AllSound (gets now session_id) s a = (get_context-AllSound now session_id s a).0
  step-AllSound (gets_or_creates now session_id) s a =
      kept _ _ (get_context_async-AllSound codec persistence loads now session_id) s a
  step-AllSound (ensures now session_id owner) s a =
      kept _ _ (ensure_owned_session-AllSound codec persistence loads now session_id owner) s a
  step-AllSound (owns now session_id owner) s a =
      kept _ _ (set_owner-AllSound codec persistence loads now session_id owner) s a
  step-AllSound (deletes session_id) s a =
      kept _ _ (delete_session-AllSound codec persistence session_id) s a
  step-AllSound (sets_pending now session_id call tool message batch mode) s a =
      kept _ _
        (set_pending_action-AllSound codec persistence now session_id call tool message batch mode)
        s a
  step-AllSound (clears_pending session_id) s a =
      kept _ _ (clear_pending_action-AllSound codec persistence session_id) s a
  step-AllSound (saves_snapshot now session_id hash content) s a =
      kept _ _ (save_prompt_snapshot-AllSound codec persistence now session_id hash content) s a
  step-AllSound (repairs now session_id) s a =
      kept _ _ (repair_stale_host_tools-AllSound codec persistence loads now session_id) s a
  step-AllSound (pins session_id) s a = pin-AllSound session_id s a
  step-AllSound (unpins session_id) s a = unpin-AllSound session_id s a

  -- Whatever calls are made, and whether or not they raise, every cached session is a sound tree if every
  -- one was: each message reaches a root, the children and the count are those of the index, and the
  -- cached path is the path of the active leaf. The database loads a session's messages with every parent
  -- before its children.
  pub run-AllSound :
      (cs : List (Call J)) (s : SessionStore D J)
      → AllSound s
      → AllSound (run codec persistence prompts cs s)
  unfolding run
  run-AllSound [] s a = a
  run-AllSound (c ∷ cs) s a =
      run-AllSound cs (step codec persistence prompts c s) (step-AllSound c s a)
