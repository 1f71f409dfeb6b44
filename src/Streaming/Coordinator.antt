-- ===== src/Streaming/Coordinator.antt =====
-- src/assistant_runtime/app/streaming/_coordinator.py: the event coordinator of one streamed request.
-- The segment's fields stay the separate optional fields of the class, so that its `assert`s can fail.
use assistant_runtime.Prelude.{
  ℕ, ◌+◌, String, Bool, true, false, not, ◌&&◌, Option, none, some, List, [], ◌∷◌, ◌++◌, ◌==◌, ok,
  err, Exec, pure, raise, modify, ◌>>=◌, ◌>>◌, ltb, nat_eq, if◌then◌else◌, show, concat, is_some,
}
use Prim.Native.String.{◌++◌ as str_append}
use assistant_runtime.Streaming.Events.{
  SegmentKind, text, thinking, SegmentMetadata, Event, final_response, is_delta,
  make_agent_status_event, make_thinking_delta_event, make_text_delta_event,
  make_debug_thinking_event,
}

pub data StreamError : Type 0 where
  event_limit : (event_count : ℕ) → (max_events : ℕ) → StreamError
  assertion : StreamError

pub record EventCoordinator (J : Type 0) : Type 0 where
  pub max_events : ℕ
  pub event_count : ℕ
  pub debug_event_count : ℕ
  pub started_emitted : Bool
  pub completed_emitted : Bool
  pub final_response_emitted : Bool
  pub debug_events : List (Event J)
  pub streamed_text : Bool
  pub streamed_thinking : Bool
  pub thinking_buffer : List String
  pub response_buffer : List String
  pub current_segment_kind : Option SegmentKind
  pub current_segment_id : Option String
  pub current_segment_index : Option ℕ
  pub current_segment_delta_index : ℕ
  pub next_segment_index : ℕ

-- What `try_final_response` is given; `streamed` and `thinking_streamed` are the coordinator's.
pub record FinalArguments (J : Type 0) : Type 0 where
  pub content : Option String
  pub model : String
  pub session_id : Option String
  pub message_id : Option String
  pub trace_id : Option String
  pub error : Bool
  pub error_type : Option String
  pub usage : Option J
  pub pending_tool_call : Option J
  pub decision : Option String

abbrev pub same_kind : SegmentKind → Option SegmentKind → Bool
same_kind text (some text) = true
same_kind thinking (some thinking) = true
same_kind text (some thinking) = false
same_kind thinking (some text) = false
same_kind k none = false

abbrev pub kind_of : SegmentKind → Bool
kind_of text = true
kind_of thinking = false

-- "" for a text that the deltas delivered already, unless it reports an error.
abbrev pub effective_content : Bool → Bool → Option String → Option String
effective_content streamed error content =
    if streamed && not error && is_some content then some "" else content

abbrev pub M : Type 0 → Type 0 → Type 0
M J A = Exec (EventCoordinator J) StreamError A

module _ {J : Type 0} where
  unfoldable pub new_coordinator : ℕ → EventCoordinator J
  new_coordinator max_events = record {
    max_events = max_events;
    event_count = 0;
    debug_event_count = 0;
    started_emitted = false;
    completed_emitted = false;
    final_response_emitted = false;
    debug_events = [];
    streamed_text = false;
    streamed_thinking = false;
    thinking_buffer = [];
    response_buffer = [];
    current_segment_kind = none;
    current_segment_id = none;
    current_segment_index = none;
    current_segment_delta_index = 0;
    next_segment_index = 0;
  }

  abbrev pub clear_content_segment : EventCoordinator J → EventCoordinator J
  clear_content_segment c = record c {
    current_segment_kind = none;
    current_segment_id = none;
    current_segment_index = none;
    current_segment_delta_index = 0;
  }

  -- The private _track.
  unfoldable pub track_event : Event J → M J (Event J)
  track_event event c =
      let d : EventCoordinator J = record c { event_count = c.event_count + 1 } in
      if ltb d.max_events d.event_count
      then (err (event_limit d.event_count d.max_events), d)
      else (ok event, d)

  abbrev rotate : SegmentKind → EventCoordinator J → EventCoordinator J
  rotate kind c = record (clear_content_segment c) {
    current_segment_kind = some kind;
    current_segment_index = some c.next_segment_index;
    current_segment_id = some (str_append "segment_" (show c.next_segment_index));
    next_segment_index = c.next_segment_index + 1;
  }

  abbrev asserted : ℕ → SegmentKind → Option String → Option ℕ → M J SegmentMetadata
  asserted delta kind none index = raise assertion
  asserted delta kind (some id) none = raise assertion
  asserted delta kind (some id) (some index) = pure (record {
    segment_id = some id;
    segment_index = some index;
    delta_index = some delta;
    segment_started = some (delta == 0);
    segment_kind = some kind;
  })

  -- With the segment's kind, which both callers add.
  unfoldable pub next_segment : SegmentKind → M J SegmentMetadata
  next_segment kind c =
      let d = if same_kind kind c.current_segment_kind then c else rotate kind c in
      asserted d.current_segment_delta_index kind d.current_segment_id d.current_segment_index
        (record d { current_segment_delta_index = d.current_segment_delta_index + 1 })

  unfoldable pub try_started : M J (Option (Event J))
  unfolding ◌>>=◌
  try_started c =
      if c.started_emitted
      then (ok none, c)
      else (do
        modify (λ c. record c { started_emitted = true })
        event ← track_event (make_agent_status_event "started")
        pure (some event))
          c

  unfoldable pub try_completed : M J (Option (Event J))
  try_completed c =
      if c.completed_emitted
      then (ok none, c)
      else let d = clear_content_segment (record c { completed_emitted = true }) in
        (
          ok (some (make_agent_status_event "completed")),
          record d { event_count = d.event_count + 1 },
        )

  unfoldable pub try_final_response : FinalArguments J → M J (Option (Event J))
  try_final_response a c =
      if c.final_response_emitted
      then (ok none, c)
      else let d = clear_content_segment (record c { final_response_emitted = true }) in
        (
          ok (
              some (
                final_response (record {
                  content = effective_content c.streamed_text a.error a.content;
                  model = a.model;
                  session_id = a.session_id;
                  message_id = a.message_id;
                  trace_id = a.trace_id;
                  streamed = c.streamed_text;
                  thinking_streamed = c.streamed_thinking;
                  error = a.error;
                  error_type = a.error_type;
                  usage = a.usage;
                  pending_tool_call = a.pending_tool_call;
                  decision = a.decision;
                }))),
          record d { event_count = d.event_count + 1 },
        )

  unfoldable pub emit_text_delta : String → M J (Event J)
  unfolding ◌>>=◌
  emit_text_delta content = do
    modify (λ c. record c {
      streamed_text = true;
      response_buffer = c.response_buffer ++ (content ∷ []);
    })
    segment ← next_segment text
    track_event (make_text_delta_event content segment)

  unfoldable pub emit_thinking_delta : String → M J (Event J)
  unfolding ◌>>=◌
  emit_thinking_delta content = do
    modify (λ c. record c {
      streamed_thinking = true;
      thinking_buffer = c.thinking_buffer ++ (content ∷ []);
    })
    segment ← next_segment thinking
    track_event (make_thinking_delta_event content segment)

  unfoldable pub track_debug : Event J → M J (Event J)
  track_debug event c = (
    ok event,
    record c {
      debug_event_count = c.debug_event_count + 1;
      debug_events = c.debug_events ++ (event ∷ []);
    },
  )

  abbrev pub flush_buffer : List String → M J (Option (Event J))
  unfolding ◌>>=◌
  flush_buffer [] = pure none
  flush_buffer (s ∷ ss) = do
    modify (λ c. record c { thinking_buffer = [] })
    event ← track_debug (make_debug_thinking_event (concat (s ∷ ss)))
    pure (some event)

  unfoldable pub flush_thinking : M J (Option (Event J))
  flush_thinking c = flush_buffer c.thinking_buffer c

  unfoldable pub track : Event J → M J (Event J)
  track event c = track_event event (if is_delta event then c else clear_content_segment c)

  unfoldable pub accumulated_response : EventCoordinator J → String
  accumulated_response c = concat c.response_buffer
