-- ===== src/Streaming/Calls.antt =====
-- The calls of one streamed request's coordinator (_coordinator.py), in any order, and what they return.
-- A call that raises leaves the state that it wrote, and further calls follow it.
use assistant_runtime.Prelude.{
  ℕ, ◌+◌, String, Bool, true, false, ◌==◌, string_eq, Option, none, some, List, [], ◌∷◌, Result, ok,
  err, if◌then◌else◌,
}
use assistant_runtime.Streaming.Events.{Event, agent_status, final_response}
use assistant_runtime.Streaming.Coordinator.{
  EventCoordinator, StreamError, FinalArguments, M, try_started, try_completed, try_final_response,
  emit_text_delta, emit_thinking_delta, flush_thinking, track, track_debug, clear_content_segment,
}

-- A call of the coordinator.
pub data Call (J : Type 0) : Type 0 where
  started : Call J
  completed : Call J
  final : FinalArguments J → Call J
  text_content : String → Call J
  thinking_content : String → Call J
  flush : Call J
  tracked : Event J → Call J
  debugged : Event J → Call J
  clears : Call J

abbrev pub one_if : Bool → ℕ
one_if b = if b then 1 else 0

module _ {J : Type 0} where
  abbrev pub is_completed : Call J → Bool
  is_completed completed = true
  is_completed _ = false

  abbrev pub is_final : Call J → Bool
  is_final (final a) = true
  is_final _ = false

  abbrev pub is_text : Call J → Bool
  is_text (text_content s) = true
  is_text _ = false

  -- The calls whose events the limit counts and can refuse.
  abbrev pub is_limited : Call J → Bool
  is_limited started = true
  is_limited (text_content s) = true
  is_limited (thinking_content s) = true
  is_limited (tracked e) = true
  is_limited _ = false

  abbrev pub optional :
      Result StreamError (Event J) × EventCoordinator J
      → Result StreamError (Option (Event J)) × EventCoordinator J
  optional (ok e, c) = (ok (some e), c)
  optional (err e, c) = (err e, c)

  -- One call: the event that it returns, if any.
  unfoldable pub step : Call J → M J (Option (Event J))
  step started c = try_started c
  step completed c = try_completed c
  step (final a) c = try_final_response a c
  step (text_content s) c = optional (emit_text_delta s c)
  step (thinking_content s) c = optional (emit_thinking_delta s c)
  step flush c = flush_thinking c
  step (tracked e) c = optional (track e c)
  step (debugged e) c = optional (track_debug e c)
  step clears c = (ok none, clear_content_segment c)

  unfoldable pub run : List (Call J) → EventCoordinator J → EventCoordinator J
  run [] c = c
  run (o ∷ os) c = run os (step o c).1

  abbrev pub is_completed_event : Event J → Bool
  is_completed_event (agent_status s) = s == "completed"
  is_completed_event _ = false

  abbrev pub is_final_event : Event J → Bool
  is_final_event (final_response r) = true
  is_final_event _ = false

  -- Whether a call hands the coordinator a ready event of a kind.
  abbrev pub is_handed : (Event J → Bool) → Call J → Bool
  is_handed p (tracked e) = p e
  is_handed p (debugged e) = p e
  is_handed p _ = false

  abbrev pub gave : (Event J → Bool) → Result StreamError (Option (Event J)) → Bool
  gave p (ok (some e)) = p e
  gave p (ok none) = false
  gave p (err e) = false

  -- How many of the events that the calls return satisfy `p`, which is given the call too.
  unfoldable pub emitted : (Call J → Event J → Bool) → List (Call J) → EventCoordinator J → ℕ
  emitted p [] c = 0
  emitted p (o ∷ os) c =
      let rest = emitted p os (step o c).1 in one_if (gave (p o) (step o c).0) + rest
