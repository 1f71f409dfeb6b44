-- ===== src/Session/StaleTools.antt =====
-- src/assistant_runtime/app/assistant/_stale_tools.py: host-tool calls that will never receive their
-- result. The two directions of Pydantic AI's message codec, and the JSON value of a text, are
-- parameters. A message's dict is shared by the index and the cached path, so a change in place is made
-- in both.
use assistant_runtime.Prelude.{
  String, Bool, not, ◌&&◌, Option, none, some, List, [], ◌∷◌, ◌++◌, ◌==◌, Dict, is_some, string_eq,
  if◌then◌else◌,
}
use assistant_runtime.Session.Types.{
  Role, assistant, ToolEntry, ToolItem, entry, junk, Segment, content, tool_group, other, Message,
  Context,
}
use assistant_runtime.Session.Context.{contains, map_messages}

-- What the code reads of Pydantic AI's messages.
pub data Part (J : Type 0) : Type 0 where
  tool_call : (tool_name tool_call_id : String) → Part J
  tool_return : (tool_name : String) → J → (tool_call_id outcome : String) → Part J
  retry_prompt : (tool_call_id : String) → Part J
  other_part : J → Part J

pub data ModelMessage (J : Type 0) : Type 0 where
  request : List (Part J) → ModelMessage J
  response : List (Part J) → ModelMessage J

pub record Codec (J : Type 0) : Type 0 where
  pub load_model_messages : List J → List (ModelMessage J)
  pub dump_model_messages : List (ModelMessage J) → List J
  pub text : String → J

abbrev pub stale_host_tool_output : String
stale_host_tool_output =
    "[Deferred host tool was not completed before the session was reloaded. Whether the action took effect is unknown.]"

abbrev success_or : Option String → String
success_or none = "success"
success_or (some s) = s

module _ {J : Type 0} where
  unfoldable pub resolve_tool_entry : ToolEntry J → J → String → ToolEntry J
  resolve_tool_entry tool output status = record tool {
    output = some output;
    outcome = some "interrupted";
    status = some status;
  }

  unfoldable pub find_in_tools : List (ToolItem J) → String → Option (ToolEntry J)
  find_in_tools [] id = none
  find_in_tools (entry t ∷ ts) id = if t.id == id then some t else find_in_tools ts id
  find_in_tools (junk j ∷ ts) id = find_in_tools ts id

  abbrev or_else : Option (ToolEntry J) → Option (ToolEntry J) → Option (ToolEntry J)
  or_else none o = o
  or_else (some t) o = some t

  unfoldable pub find_in_segments : List (Segment J) → String → Option (ToolEntry J)
  unfolding find_in_tools
  find_in_segments [] id = none
  find_in_segments (tool_group ts ∷ ss) id = or_else (find_in_tools ts id) (find_in_segments ss id)
  find_in_segments (content kind text ∷ ss) id = find_in_segments ss id
  find_in_segments (other j ∷ ss) id = find_in_segments ss id

  unfoldable pub find_tool_entry : Option (List (Segment J)) → String → Option (ToolEntry J)
  unfolding find_in_segments
  find_tool_entry none id = none
  find_tool_entry (some ss) id = find_in_segments ss id

  abbrev pub part_answers : Part J → List String
  part_answers (tool_return name value id outcome) = id ∷ []
  part_answers (retry_prompt id) = id ∷ []
  part_answers _ = []

  abbrev parts_answers : List (Part J) → List String
  parts_answers [] = []
  parts_answers (p ∷ ps) = part_answers p ++ parts_answers ps

  -- The tool call ids that a request of the stored messages answers.
  unfoldable pub answered_ids : List (ModelMessage J) → List String
  answered_ids [] = []
  answered_ids (request ps ∷ ms) = parts_answers ps ++ answered_ids ms
  answered_ids (response ps ∷ ms) = answered_ids ms

  abbrev return_of : String → String → Option (ToolEntry J) → List (Part J)
  return_of name id none = []
  return_of name id (some t) = elim t.output [
    | none ↦ []
    | some output ↦ tool_return name output id (success_or t.outcome) ∷ []
  ]

  abbrev pub part_returns : List String → Option (List (Segment J)) → Part J → List (Part J)
  part_returns answered segments (tool_call name id) =
      if contains id answered then [] else return_of name id (find_tool_entry segments id)
  part_returns answered segments _ = []

  abbrev parts_returns : List String → Option (List (Segment J)) → List (Part J) → List (Part J)
  parts_returns answered segments [] = []
  parts_returns answered segments (p ∷ ps) =
      part_returns answered segments p ++ parts_returns answered segments ps

  unfoldable pub new_returns :
      List String → Option (List (Segment J)) → List (ModelMessage J) → List (Part J)
  unfolding find_tool_entry
  new_returns answered segments [] = []
  new_returns answered segments (response ps ∷ ms) =
      parts_returns answered segments ps ++ new_returns answered segments ms
  new_returns answered segments (request ps ∷ ms) = new_returns answered segments ms

  -- A tool that has no output, and that no one still waits for.
  unfoldable pub is_stale : List String → ToolEntry J → Bool
  is_stale keep t = not (is_some t.output) && not (contains t.id keep)

  abbrev pub or_same : Message J → Option (Message J) → Message J
  or_same m none = m
  or_same m (some r) = r

module _ {J : Type 0} (codec : Codec J) where
  open codec use {load_model_messages, dump_model_messages, text}

  abbrev append_returns : List J → List (Part J) → List J
  append_returns stored [] = stored
  append_returns stored (p ∷ ps) = stored ++ dump_model_messages (request (p ∷ ps) ∷ [])

  unfoldable pub with_resolved_returns :
      Option (List J) → Option (List (Segment J)) → Option (List J)
  unfolding answered_ids new_returns
  with_resolved_returns none segments = none
  with_resolved_returns (some stored) segments =
      let messages = load_model_messages stored in
      some (append_returns stored (new_returns (answered_ids messages) segments messages))

  unfoldable pub repair_tools : List String → List (ToolItem J) → List (ToolItem J) × List String
  unfolding is_stale resolve_tool_entry
  repair_tools keep [] = ([], [])
  repair_tools keep (junk j ∷ ts) = let (r, ids) = repair_tools keep ts in (junk j ∷ r, ids)
  repair_tools keep (entry t ∷ ts) =
      let (r, ids) = repair_tools keep ts in
      if is_stale keep t
      then (entry (resolve_tool_entry t (text stale_host_tool_output) "unknown") ∷ r, t.id ∷ ids)
      else (entry t ∷ r, ids)

  unfoldable pub repair_stale_tool_segments :
      List String → List (Segment J) → List (Segment J) × List String
  unfolding repair_tools
  repair_stale_tool_segments keep [] = ([], [])
  repair_stale_tool_segments keep (tool_group ts ∷ ss) =
      let (r, ids) = repair_tools keep ts in
      let (rs, more) = repair_stale_tool_segments keep ss in (tool_group r ∷ rs, ids ++ more)
  repair_stale_tool_segments keep (content kind text' ∷ ss) =
      let (rs, ids) = repair_stale_tool_segments keep ss in (content kind text' ∷ rs, ids)
  repair_stale_tool_segments keep (other j ∷ ss) =
      let (rs, ids) = repair_stale_tool_segments keep ss in (other j ∷ rs, ids)

  abbrev pub repair_with : Message J → List (Segment J) × List String → Option (Message J)
  repair_with m (segments, []) = none
  repair_with m (segments, id ∷ ids) = some (record m {
    segments = some segments;
    model_messages = with_resolved_returns m.model_messages (some segments);
  })

  abbrev pub by_role :
      List String → Role → Option (List (Segment J)) → Message J → Option (Message J)
  by_role keep assistant (some (s ∷ ss)) m =
      repair_with m (repair_stale_tool_segments keep (s ∷ ss))
  by_role keep _ _ m = none

  -- The repaired version of a message, if one of its tools is stale.
  unfoldable pub repair_message : List String → Message J → Option (Message J)
  unfolding repair_stale_tool_segments with_resolved_returns
  repair_message keep m = by_role keep m.role m.segments m

  abbrev cons_repaired :
      String → Option (Message J) → List (String × Message J) → List (String × Message J)
  cons_repaired id none rs = rs
  cons_repaired id (some m) rs = (id, m) ∷ rs

  -- The repaired messages, for the caller to persist.
  abbrev pub repaired_of : List String → Dict String (Message J) → List (String × Message J)
  repaired_of keep [] = []
  repaired_of keep ((id, m) ∷ d) = cons_repaired id (repair_message keep m) (repaired_of keep d)

  unfoldable pub repair_stale_tools_in_context :
      List String → Context J → Context J × List (String × Message J)
  unfolding repair_message
  repair_stale_tools_in_context keep c =
      (map_messages (λ id m. or_same m (repair_message keep m)) c, repaired_of keep c.message_index)
