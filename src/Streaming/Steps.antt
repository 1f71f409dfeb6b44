-- ===== src/Streaming/Steps.antt =====
-- What one call of the coordinator (_coordinator.py) changes.
use assistant_runtime.Prelude.{
  ◌≤◌, ◌<◌, ◌≡◌, ◌≢◌, ◌⊎◌, String, true, false, not, ◌&&◌, ◌||◌, none, List, [], ◌∷◌, ◌++◌, err,
  ◌>>=◌, arith, is_some,
}
use mathlib.Core.List.{append-nil}
use assistant_runtime.Streaming.Coordinator.{
  EventCoordinator, assertion, track_event, next_segment, try_started, try_completed,
  try_final_response, emit_text_delta, emit_thinking_delta, flush_thinking, track, track_debug,
}
use assistant_runtime.Streaming.Calls.{
  Call, started, completed, final, text_content, thinking_content, flush, tracked, debugged, clears,
  is_completed, is_final, is_text, is_limited, is_completed_event, is_final_event, is_handed, gave,
  step,
}

-- The current segment, if there is one, has an index and an identifier.
abbrev pub IsSegmented : {J : Type 0} → EventCoordinator J → Type 0
IsSegmented c =
    (c.current_segment_kind ≡ none)
    ⊎ ((is_some c.current_segment_id ≡ true) × (is_some c.current_segment_index ≡ true))

-- The text that a call streams.
abbrev pub text_of : {J : Type 0} → Call J → List String
text_of (text_content s) = s ∷ []
text_of _ = []

module _ {J : Type 0} where
  pub completed-step :
      (o : Call J) (c : EventCoordinator J)
      → (step o c).1.completed_emitted ≡ (c.completed_emitted || is_completed o)
  unfolding step try_started try_completed try_final_response emit_text_delta emit_thinking_delta
      flush_thinking track track_debug next_segment track_event ◌>>=◌
  completed-step started c = ground arith
  completed-step completed c = ground arith
  completed-step (final a) c = ground arith
  completed-step (text_content s) c = ground arith
  completed-step (thinking_content s) c = ground arith
  completed-step flush c = ground arith
  completed-step (tracked e) c = ground arith
  completed-step (debugged e) c = ground arith
  completed-step clears c = ground arith

  pub completed-gives :
      (o : Call J) (c : EventCoordinator J)
      → is_handed is_completed_event o ≡ false
      → gave is_completed_event (step o c).0 ≡ (is_completed o && not c.completed_emitted)
  unfolding step try_started try_completed try_final_response emit_text_delta emit_thinking_delta
      flush_thinking track track_debug next_segment track_event ◌>>=◌
  completed-gives started c h = ground arith
  completed-gives completed c h = ground arith
  completed-gives (final a) c h = ground arith
  completed-gives (text_content s) c h = ground arith
  completed-gives (thinking_content s) c h = ground arith
  completed-gives flush c h = ground arith
  completed-gives (tracked e) c h = ground arith
  completed-gives (debugged e) c h = ground arith
  completed-gives clears c h = ground arith

  pub final-step :
      (o : Call J) (c : EventCoordinator J)
      → (step o c).1.final_response_emitted ≡ (c.final_response_emitted || is_final o)
  unfolding step try_started try_completed try_final_response emit_text_delta emit_thinking_delta
      flush_thinking track track_debug next_segment track_event ◌>>=◌
  final-step started c = ground arith
  final-step completed c = ground arith
  final-step (final a) c = ground arith
  final-step (text_content s) c = ground arith
  final-step (thinking_content s) c = ground arith
  final-step flush c = ground arith
  final-step (tracked e) c = ground arith
  final-step (debugged e) c = ground arith
  final-step clears c = ground arith

  pub final-gives :
      (o : Call J) (c : EventCoordinator J)
      → is_handed is_final_event o ≡ false
      → gave is_final_event (step o c).0 ≡ (is_final o && not c.final_response_emitted)
  unfolding step try_started try_completed try_final_response emit_text_delta emit_thinking_delta
      flush_thinking track track_debug next_segment track_event ◌>>=◌
  final-gives started c h = ground arith
  final-gives completed c h = ground arith
  final-gives (final a) c h = ground arith
  final-gives (text_content s) c h = ground arith
  final-gives (thinking_content s) c h = ground arith
  final-gives flush c h = ground arith
  final-gives (tracked e) c h = ground arith
  final-gives (debugged e) c h = ground arith
  final-gives clears c h = ground arith

  pub limit-step :
      (o : Call J) (c : EventCoordinator J)
      → ((step o c).1.max_events ≡ c.max_events) × (c.event_count ≤ (step o c).1.event_count)
  unfolding step try_started try_completed try_final_response emit_text_delta emit_thinking_delta
      flush_thinking track track_debug next_segment track_event ◌>>=◌
  limit-step started c = ground arith
  limit-step completed c = ground arith
  limit-step (final a) c = ground arith
  limit-step (text_content s) c = ground arith
  limit-step (thinking_content s) c = ground arith
  limit-step flush c = ground arith
  limit-step (tracked e) c = ground arith
  limit-step (debugged e) c = ground arith
  limit-step clears c = ground arith

  pub limit-gives :
      (o : Call J) (c : EventCoordinator J)
      → gave (λ e. is_limited o) (step o c).0 ≡ true
      → (c.event_count < (step o c).1.event_count) × ((step o c).1.event_count ≤ c.max_events)
  unfolding step try_started try_completed try_final_response emit_text_delta emit_thinking_delta
      flush_thinking track track_debug next_segment track_event ◌>>=◌
  limit-gives started c h = ground arith
  limit-gives completed c h = ground arith
  limit-gives (final a) c h = ground arith
  limit-gives (text_content s) c h = ground arith
  limit-gives (thinking_content s) c h = ground arith
  limit-gives flush c h = ground arith
  limit-gives (tracked e) c h = ground arith
  limit-gives (debugged e) c h = ground arith
  limit-gives clears c h = ground arith

  pub segment-step :
      (o : Call J) (c : EventCoordinator J) → IsSegmented c → IsSegmented (step o c).1
  unfolding step try_started try_completed try_final_response emit_text_delta emit_thinking_delta
      flush_thinking track track_debug next_segment track_event ◌>>=◌
  segment-step started c h = ground arith
  segment-step completed c h = ground arith
  segment-step (final a) c h = ground arith
  segment-step (text_content s) c h = ground arith
  segment-step (thinking_content s) c h = ground arith
  segment-step flush c h = ground arith
  segment-step (tracked e) c h = ground arith
  segment-step (debugged e) c h = ground arith
  segment-step clears c h = ground arith

  pub no_assertion :
      (o : Call J) (c : EventCoordinator J) → IsSegmented c → (step o c).0 ≢ err assertion
  unfolding step try_started try_completed try_final_response emit_text_delta emit_thinking_delta
      flush_thinking track track_debug next_segment track_event ◌>>=◌
  no_assertion started c h = ground arith
  no_assertion completed c h = ground arith
  no_assertion (final a) c h = ground arith
  no_assertion (text_content s) c h = ground arith
  no_assertion (thinking_content s) c h = ground arith
  no_assertion flush c h = ground arith
  no_assertion (tracked e) c h = ground arith
  no_assertion (debugged e) c h = ground arith
  no_assertion clears c h = ground arith

  pub streamed-step :
      (o : Call J) (c : EventCoordinator J)
      → (step o c).1.streamed_text ≡ (c.streamed_text || is_text o)
  unfolding step try_started try_completed try_final_response emit_text_delta emit_thinking_delta
      flush_thinking track track_debug next_segment track_event ◌>>=◌
  streamed-step started c = ground arith
  streamed-step completed c = ground arith
  streamed-step (final a) c = ground arith
  streamed-step (text_content s) c = ground arith
  streamed-step (thinking_content s) c = ground arith
  streamed-step flush c = ground arith
  streamed-step (tracked e) c = ground arith
  streamed-step (debugged e) c = ground arith
  streamed-step clears c = ground arith

  pub response-step :
      (o : Call J) (c : EventCoordinator J)
      → (step o c).1.response_buffer ≡ c.response_buffer ++ text_of o
  unfolding step try_started try_completed try_final_response emit_text_delta emit_thinking_delta
      flush_thinking track track_debug next_segment track_event ◌>>=◌
  response-step started c = ground (arith, append-nil c.response_buffer)
  response-step completed c = ground (arith, append-nil c.response_buffer)
  response-step (final a) c = ground (arith, append-nil c.response_buffer)
  response-step (text_content s) c = ground (arith, append-nil c.response_buffer)
  response-step (thinking_content s) c = ground (arith, append-nil c.response_buffer)
  response-step flush c = ground (arith, append-nil c.response_buffer)
  response-step (tracked e) c = ground (arith, append-nil c.response_buffer)
  response-step (debugged e) c = ground (arith, append-nil c.response_buffer)
  response-step clears c = ground (arith, append-nil c.response_buffer)
