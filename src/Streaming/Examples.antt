-- ===== src/Streaming/Examples.antt =====
-- The coordinator's theorems at one request: it streams, meets the limit of three events, and ends.
use assistant_runtime.Prelude.{
  ◌≤◌, ◌≡◌, ◌≢◌, refl, String, true, false, none, some, List, [], ◌∷◌, err, any, is_some, ◌⊎◌,
}
use assistant_runtime.Streaming.Events.{other, FinalResponse}
use assistant_runtime.Streaming.Coordinator.{
  FinalArguments, assertion, new_coordinator, try_final_response, emit_text_delta, next_segment,
  emit_thinking_delta, try_started, try_completed, track_event, track,
}
use assistant_runtime.Streaming.Calls
use assistant_runtime.Streaming.Calls.{
  Call, step, run, emitted, is_completed_event, is_final_event, is_limited, is_text,
}
use assistant_runtime.Streaming.Protocol.{
  completed_exactly_once, final_exactly_once, limited_at_most_max, assertions_hold, final_content,
}

abbrev answer : FinalArguments String
answer = record {
  content = some "Hello!";
  model = "m";
  session_id = some "s1";
  message_id = some "a1";
  trace_id = none;
  error = false;
  error_type = none;
  usage = none;
  pending_tool_call = none;
  decision = none;
}

abbrev streamed_answer : FinalResponse String
streamed_answer = record {
  content = some "";
  model = "m";
  session_id = some "s1";
  message_id = some "a1";
  trace_id = none;
  streamed = true;
  thinking_streamed = true;
  error = false;
  error_type = none;
  usage = none;
  pending_tool_call = none;
  decision = none;
}

abbrev beginning : List (Call String)
beginning =
    Calls.started
    ∷ Calls.thinking_content "hm"
    ∷ Calls.text_content "Hel"
    ∷ Calls.text_content "lo!"
    ∷ []

abbrev request : List (Call String)
request =
    Calls.started
    ∷ Calls.thinking_content "hm"
    ∷ Calls.tracked (other "tool_call" "x")
    ∷ Calls.text_content "Hel"
    ∷ Calls.clears
    ∷ Calls.text_content "lo!"
    ∷ Calls.final answer
    ∷ Calls.completed
    ∷ Calls.completed
    ∷ []

completed_exactly_once_example :
    emitted (λ o e. is_completed_event e) request (new_coordinator 3) ≡ 1
completed_exactly_once_example = completed_exactly_once 3 request refl

final_exactly_once_example : emitted (λ o e. is_final_event e) request (new_coordinator 3) ≡ 1
final_exactly_once_example = final_exactly_once 3 request refl

limited_at_most_max_example : emitted (λ o e. is_limited o) request (new_coordinator 3) ≤ 3
limited_at_most_max_example = limited_at_most_max 3 request

assertions_hold_example :
    (step (Calls.text_content "Hel") (run request (new_coordinator 3))).0 ≢ err assertion
assertions_hold_example = assertions_hold 3 request (Calls.text_content "Hel")

final_content_example :
    ((any is_text beginning ≡ true)
      × (answer.error ≡ false)
      × (is_some answer.content ≡ true)
      × (streamed_answer.content ≡ some ""))
    ⊎ (((any is_text beginning ≡ false) ⊎ (answer.error ≡ true) ⊎ (answer.content ≡ none))
        × (streamed_answer.content ≡ answer.content))
unfolding step run new_coordinator try_final_response emit_text_delta next_segment
    emit_thinking_delta try_started track_event
final_content_example = final_content 3 beginning answer streamed_answer refl

-- The fourth event that the limit counts is refused.
limit_test : emitted (λ o e. is_limited o) request (new_coordinator 3) ≡ 3
unfolding emitted step new_coordinator try_final_response emit_text_delta next_segment
    emit_thinking_delta try_started track_event track try_completed
limit_test = refl
