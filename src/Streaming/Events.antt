-- ===== src/Streaming/Events.antt =====
-- src/assistant_runtime/app/streaming/_event_builder.py: the events that the coordinator builds. A key
-- that a factory leaves out of the dict is an absent optional field; `J` is the JSON that callers pass.
use assistant_runtime.Prelude.{ℕ, String, Bool, true, false, Option}

pub data SegmentKind : Type 0 where
  text : SegmentKind
  thinking : SegmentKind

pub record SegmentMetadata : Type 0 where
  pub segment_id : Option String
  pub segment_index : Option ℕ
  pub delta_index : Option ℕ
  pub segment_started : Option Bool
  pub segment_kind : Option SegmentKind

pub record FinalResponse (J : Type 0) : Type 0 where
  pub content : Option String
  pub model : String
  pub session_id : Option String
  pub message_id : Option String
  pub trace_id : Option String
  pub streamed : Bool
  pub thinking_streamed : Bool
  pub error : Bool
  pub error_type : Option String
  pub usage : Option J
  pub pending_tool_call : Option J
  pub decision : Option String

-- `other` is an event of any other type, with that type.
pub data Event (J : Type 0) : Type 0 where
  agent_status : (status : String) → Event J
  thinking_delta : (content : String) → SegmentMetadata → Event J
  text_delta : (content : String) → SegmentMetadata → Event J
  final_response : FinalResponse J → Event J
  debug_thinking : (content : String) → Event J
  other : (type : String) → J → Event J

module _ {J : Type 0} where
  -- event.get("type") in {"thinking_delta", "text_delta"}
  abbrev pub is_delta : Event J → Bool
  is_delta (agent_status s) = false
  is_delta (thinking_delta s m) = true
  is_delta (text_delta s m) = true
  is_delta (final_response r) = false
  is_delta (debug_thinking s) = false
  is_delta (other t j) = false

  abbrev pub make_agent_status_event : String → Event J
  make_agent_status_event status = agent_status status

  abbrev pub make_thinking_delta_event : String → SegmentMetadata → Event J
  make_thinking_delta_event content m = thinking_delta content m

  abbrev pub make_text_delta_event : String → SegmentMetadata → Event J
  make_text_delta_event content m = text_delta content m

  abbrev pub make_debug_thinking_event : String → Event J
  make_debug_thinking_event content = debug_thinking content
