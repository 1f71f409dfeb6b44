-- ===== src/Streaming/Protocol.antt =====
-- What a host that reads one streamed request (_coordinator.py) can rely on, whatever calls the request
-- makes and whatever of them raise.
use assistant_runtime.Prelude.{
  ℕ, ◌+◌, ◌≤◌, ◌≡◌, ◌≢◌, refl, sym, ap, ◌⊎◌, inl, String, Bool, true, false, is_some, none, not,
  ◌&&◌, ◌||◌, some, List, [], ◌∷◌, ◌++◌, ok, err, any, concat, arith,
}
use mathlib.Core.List.{append-nil, append_assoc}
use assistant_runtime.Streaming.Events.{Event, FinalResponse, final_response}
use assistant_runtime.Streaming.Coordinator.{
  EventCoordinator, assertion, FinalArguments, new_coordinator, try_final_response,
  accumulated_response,
}
use assistant_runtime.Streaming.Calls.{
  Call, final, is_completed, is_final, is_text, is_limited, is_completed_event, is_final_event,
  is_handed, step, run, emitted, one_if,
}
use assistant_runtime.Streaming.Steps.{
  IsSegmented, text_of, completed-step, completed-gives, final-step, final-gives, limit-step,
  limit-gives, segment-step, no_assertion, streamed-step, response-step,
}

abbrev texts : {J : Type 0} → List (Call J) → List String
texts [] = []
texts (o ∷ os) = text_of o ++ texts os

module _ {J : Type 0} where
  none_handed :
      (p : Event J → Bool) (o : Call J) (os : List (Call J))
      → any (is_handed p) (o ∷ os) ≡ false
      → (is_handed p o ≡ false) × (any (is_handed p) os ≡ false)
  none_handed p o os h = ground (arith, h)

  completed_count :
      (os : List (Call J)) (c : EventCoordinator J)
      → any (is_handed is_completed_event) os ≡ false
      → emitted (λ o e. is_completed_event e) os c
        ≡ one_if (any is_completed os && not c.completed_emitted)
  unfolding emitted
  completed_count [] c h = refl
  completed_count (o ∷ os) c h =
      let (first, rest) = none_handed is_completed_event o os h in
      ground
        (arith, completed-step o c, completed-gives o c first, completed_count os (step o c).1 rest)

  -- A request emits agent_status(completed) exactly once if it asks for it at all, and otherwise never,
  -- whatever limit its other calls run into, if it hands the coordinator no such event to track.
  pub completed_exactly_once :
      (max_events : ℕ) (os : List (Call J))
      → any (is_handed is_completed_event) os ≡ false
      → emitted (λ o e. is_completed_event e) os (new_coordinator max_events)
        ≡ one_if (any is_completed os)
  unfolding new_coordinator
  completed_exactly_once max_events os h =
      ground (arith, completed_count os (new_coordinator max_events) h)

  final_count :
      (os : List (Call J)) (c : EventCoordinator J)
      → any (is_handed is_final_event) os ≡ false
      → emitted (λ o e. is_final_event e) os c
        ≡ one_if (any is_final os && not c.final_response_emitted)
  unfolding emitted
  final_count [] c h = refl
  final_count (o ∷ os) c h =
      let (first, rest) = none_handed is_final_event o os h in
      ground (arith, final-step o c, final-gives o c first, final_count os (step o c).1 rest)

  -- A request emits final_response exactly once if it asks for it at all, and otherwise never, whatever
  -- limit its other calls run into, if it hands the coordinator no such event to track.
  pub final_exactly_once :
      (max_events : ℕ) (os : List (Call J))
      → any (is_handed is_final_event) os ≡ false
      → emitted (λ o e. is_final_event e) os (new_coordinator max_events) ≡ one_if (any is_final os)
  unfolding new_coordinator
  final_exactly_once max_events os h = ground (arith, final_count os (new_coordinator max_events) h)

  limited_count :
      (os : List (Call J)) (c : EventCoordinator J)
      → (emitted (λ o e. is_limited o) os c ≡ 0)
        ⊎ (emitted (λ o e. is_limited o) os c + c.event_count ≤ c.max_events)
  unfolding emitted
  limited_count [] c = inl refl
  limited_count (o ∷ os) c =
      ground (arith, limit-step o c, limit-gives o c, limited_count os (step o c).1)

  -- Of the events that are not terminal and not debug events, a request emits at most `max_events`.
  pub limited_at_most_max :
      (max_events : ℕ) (os : List (Call J))
      → emitted (λ o e. is_limited o) os (new_coordinator max_events) ≤ max_events
  unfolding new_coordinator
  limited_at_most_max max_events os = ground (arith, limited_count os (new_coordinator max_events))

  IsSegmented-run :
      (os : List (Call J)) (c : EventCoordinator J) → IsSegmented c → IsSegmented (run os c)
  unfolding run
  IsSegmented-run [] c h = h
  IsSegmented-run (o ∷ os) c h = IsSegmented-run os (step o c).1 (segment-step o c h)

  -- The two assertions of _next_segment never fail: no call after any calls raises one.
  pub assertions_hold :
      (max_events : ℕ) (os : List (Call J)) (o : Call J)
      → (step o (run os (new_coordinator max_events))).0 ≢ err assertion
  unfolding new_coordinator
  assertions_hold max_events os o =
      no_assertion o (run os (new_coordinator max_events))
        (IsSegmented-run os (new_coordinator max_events) (inl refl))

  streamed-run :
      (os : List (Call J)) (c : EventCoordinator J)
      → (run os c).streamed_text ≡ (c.streamed_text || any is_text os)
  unfolding run
  streamed-run [] c = ground arith
  streamed-run (o ∷ os) c = ground (arith, streamed-step o c, streamed-run os (step o c).1)

  -- The content of final_response is "" if a text delta was asked for before it, it reports no error and
  -- it was given a content; otherwise it is the content that it was given.
  pub final_content :
      (max_events : ℕ) (os : List (Call J)) (a : FinalArguments J) (r : FinalResponse J)
      → (step (final a) (run os (new_coordinator max_events))).0 ≡ ok (some (final_response r))
      → ((any is_text os ≡ true)
          × (a.error ≡ false)
          × (is_some a.content ≡ true)
          × (r.content ≡ some ""))
        ⊎ (((any is_text os ≡ false) ⊎ (a.error ≡ true) ⊎ (a.content ≡ none))
            × (r.content ≡ a.content))
  unfolding step try_final_response new_coordinator
  final_content max_events os a r h = ground (arith, streamed-run os (new_coordinator max_events))

  response-run :
      (os : List (Call J)) (c : EventCoordinator J)
      → (run os c).response_buffer ≡ c.response_buffer ++ texts os
  unfolding run
  response-run [] c = sym (append-nil c.response_buffer)
  response-run (o ∷ os) c =
      rw (response-run os (step o c).1, response-step o c)
        (append_assoc c.response_buffer (text_of o) (texts os))

  -- The accumulated response is the contents of the text deltas in the order of the calls, the ones that
  -- the event limit refused included.
  pub accumulated_response-run :
      (max_events : ℕ) (os : List (Call J))
      → accumulated_response (run os (new_coordinator max_events)) ≡ concat (texts os)
  unfolding accumulated_response new_coordinator
  accumulated_response-run max_events os = ap concat (response-run os (new_coordinator max_events))
