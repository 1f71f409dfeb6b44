-- ===== src/Session/Repaired.antt =====
-- What the repair of stale host tools (_stale_tools.py) leaves.
use assistant_runtime.Prelude.{
  ◌≡◌, refl, String, true, Option, none, some, List, [], ◌∷◌, ==_iff, Dict, arith, string_eq, inl,
  inr, Bool-cases,
}
use assistant_runtime.Session.Types.{
  Role, user, assistant, host, ToolItem, entry, junk, Segment, content, tool_group, other, Message,
  Context,
}
use assistant_runtime.Session.Context.{contains, map_index}
use assistant_runtime.Session.StaleTools.{
  Codec, resolve_tool_entry, find_in_tools, find_in_segments, or_same, is_stale, repair_tools,
  repair_stale_tool_segments, repair_with, by_role, repair_message, repaired_of,
  repair_stale_tools_in_context,
}

module _ {J : Type 0} (codec : Codec J) (keep : List String) where
  repair_tools_twice :
      (ts : List (ToolItem J))
      → repair_tools codec keep (repair_tools codec keep ts).0
        ≡ ((repair_tools codec keep ts).0, [])
  unfolding repair_tools is_stale resolve_tool_entry
  repair_tools_twice [] = refl
  repair_tools_twice (junk j ∷ ts) = rw (repair_tools_twice ts) refl
  repair_tools_twice (entry t ∷ ts) = elim (Bool-cases (is_stale keep t)) [
    | inl e ↦ rw (e, repair_tools) (rw (repair_tools_twice ts) refl)
    | inr e ↦ rw (e, repair_tools) (rw (e, repair_tools_twice ts) refl)
  ]

  repair_segments_twice :
      (ss : List (Segment J))
      → repair_stale_tool_segments codec keep (repair_stale_tool_segments codec keep ss).0
        ≡ ((repair_stale_tool_segments codec keep ss).0, [])
  unfolding repair_stale_tool_segments
  repair_segments_twice [] = refl
  repair_segments_twice (tool_group ts ∷ ss) =
      rw (repair_tools_twice ts, repair_segments_twice ss) refl
  repair_segments_twice (content k t ∷ ss) = rw (repair_segments_twice ss) refl
  repair_segments_twice (other j ∷ ss) = rw (repair_segments_twice ss) refl

  find_kept_tool :
      (ts : List (ToolItem J)) (id : String)
      → contains id keep ≡ true
      → find_in_tools (repair_tools codec keep ts).0 id ≡ find_in_tools ts id
  unfolding repair_tools is_stale resolve_tool_entry find_in_tools
  find_kept_tool [] id h = refl
  find_kept_tool (junk j ∷ ts) id h = find_kept_tool ts id h
  find_kept_tool (entry t ∷ ts) id h = ground (arith, ==_iff t.id id, find_kept_tool ts id h)

  -- The repair of segments leaves the entry of a tool call that is kept as it was.
  pub find_kept :
      (ss : List (Segment J)) (id : String)
      → contains id keep ≡ true
      → find_in_segments (repair_stale_tool_segments codec keep ss).0 id ≡ find_in_segments ss id
  unfolding repair_stale_tool_segments find_in_segments
  find_kept [] id h = refl
  find_kept (tool_group ts ∷ ss) id h = rw (find_kept_tool ts id h, find_kept ss id h) refl
  find_kept (content k t ∷ ss) id h = find_kept ss id h
  find_kept (other j ∷ ss) id h = find_kept ss id h

  repair_fixed :
      (ss : List (Segment J)) (m : Message J)
      → repair_stale_tool_segments codec keep ss ≡ (ss, [])
      → by_role codec keep assistant (some ss) m ≡ none
  repair_fixed [] m h = refl
  repair_fixed (s ∷ ss) m h = rw h refl

  repair_with_twice :
      (m : Message J) (ss : List (Segment J)) (ids : List String)
      → m.role ≡ assistant
      → repair_stale_tool_segments codec keep ss ≡ (ss, [])
      → repair_message codec keep m ≡ repair_with codec m (ss, ids)
      → repair_message codec keep (or_same m (repair_with codec m (ss, ids))) ≡ none
  unfolding repair_message
  repair_with_twice m ss [] r h own = own
  repair_with_twice m ss (id ∷ ids) r h own = rw r (repair_fixed ss _ h)

  repaired_twice :
      (m : Message J) (r : Role) (o : Option (List (Segment J)))
      → m.role ≡ r
      → m.segments ≡ o
      → repair_message codec keep (or_same m (by_role codec keep r o m)) ≡ none
  unfolding repair_message
  repaired_twice m user o e f = rw e refl
  repaired_twice m host o e f = rw e refl
  repaired_twice m assistant none e f = rw (e, f) refl
  repaired_twice m assistant (some []) e f = rw (e, f) refl
  repaired_twice m assistant (some (s ∷ ss)) e f =
      repair_with_twice m _ _ e (repair_segments_twice (s ∷ ss)) (rw (e, f) refl)

  repair_message_twice :
      (m : Message J) → repair_message codec keep (or_same m (repair_message codec keep m)) ≡ none
  unfolding repair_message
  repair_message_twice m = repaired_twice m m.role m.segments refl refl

  repaired_of_twice :
      (f : String → Message J → Message J) (d : Dict String (Message J))
      → ((id : String) (m : Message J) → repair_message codec keep (f id m) ≡ none)
      → repaired_of codec keep (map_index f d) ≡ []
  repaired_of_twice f [] h = refl
  repaired_of_twice f ((id, m) ∷ d) h = rw (h id m) (repaired_of_twice f d h)

  -- A second repair with the same calls kept finds nothing to repair.
  pub repair_twice :
      (c : Context J)
      → (repair_stale_tools_in_context codec keep (repair_stale_tools_in_context codec keep c).0).1
        ≡ []
  unfolding repair_stale_tools_in_context
  repair_twice c = repaired_of_twice _ c.message_index (λ id m. repair_message_twice m)
