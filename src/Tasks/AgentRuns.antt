-- ===== src/Tasks/AgentRuns.antt =====
-- The calls on persistent agents (app/tasks/interface.py), one after the other.
use assistant_runtime.Prelude.{ℕ, ◌≡◌, refl, String, Option, List, [], ◌∷◌, Dict, lookup, string_eq}
use assistant_runtime.Prelude.Triples.{
  Keeps, Always, Post-state, Keeps-pure, Keeps-raise_if, Keeps-if, Keeps-bind,
}
use assistant_runtime.Tasks.Types.{is_active, TaskError}
use assistant_runtime.Access.Principals.{Principal}
use assistant_runtime.Tasks.Agents.{
  AgentService, NewAgent, M, start_agent, move_agent, configure_agent, stop_agent, with_config,
  with_stop, new_agent,
}
use assistant_runtime.Tasks.Exclusive.{
  OneActive, raise_found-OneActive, get_agent-OneActive, write-OneActive, admit-OneActive,
  move_to-OneActive,
}

-- A call, with what it is told of its names and config, and what it draws.
pub data AgentCall (J : Type 0) : Type 0 where
  starts : Option TaskError → ℕ → (id : String) → NewAgent J → Principal → AgentCall J
  moves :
      Option TaskError
      → (id : String) → (session : Option String) → (suffix : String) → Principal
      → AgentCall J
  configures : Option TaskError → (id : String) → Dict String (Option J) → Principal → AgentCall J
  stops : ℕ → (id : String) → Principal → AgentCall J

module _ {J : Type 0} where
  -- The service after a call, whether or not it raises.
  unfoldable pub step : AgentCall J → AgentService J → AgentService J
  step (starts check now id n p) s = (start_agent check now id n p s).1
  step (moves check id session suffix p) s = (move_agent check id session suffix p s).1
  step (configures check id overrides p) s = (configure_agent check id overrides p s).1
  step (stops now id p) s = (stop_agent now id p s).1

  unfoldable pub run : List (AgentCall J) → AgentService J → AgentService J
  run [] s = s
  run (c ∷ cs) s = run cs (step c s)

  start_agent-OneActive :
      (check : Option TaskError) (now : ℕ) (id : String) (n : NewAgent J) (p : Principal)
      → Keeps OneActive (start_agent check now id n p) Always
  unfolding start_agent
  start_agent-OneActive check now id n p = record {
    at = λ s h.
        (Keeps-bind _ _ (Keeps-raise_if _ _) λ _ _.
            Keeps-bind _ _ (raise_found-OneActive check)
              λ _ _. admit-OneActive now (new_agent id s.default_profile p.id n)).at
          s h;
  }

  move_agent-OneActive :
      (check : Option TaskError) (id : String) (session : Option String) (suffix : String)
      (p : Principal)
      → Keeps {S = AgentService J} OneActive (move_agent check id session suffix p) Always
  unfolding move_agent
  move_agent-OneActive check id session suffix p =
      Keeps-bind _ _ (raise_found-OneActive check) λ _ _.
        Keeps-bind _ _ (get_agent-OneActive id p)
          λ a _. Keeps-bind _ _ (Keeps-raise_if _ _) λ _ _. move_to-OneActive id a _

  configure_agent-OneActive :
      (check : Option TaskError) (id : String) (overrides : Dict String (Option J)) (p : Principal)
      → Keeps OneActive (configure_agent check id overrides p) Always
  unfolding configure_agent
  configure_agent-OneActive check id overrides p =
      Keeps-bind _ _ (raise_found-OneActive check) λ _ _.
        Keeps-bind _ _ (get_agent-OneActive id p) λ a _. Keeps-bind _ _ (Keeps-raise_if _ _) λ _ _.
          write-OneActive id a (with_config overrides a) [] (λ r y. y) (λ r. refl) (λ r. refl)

  stop_agent-OneActive :
      (now : ℕ) (id : String) (p : Principal)
      → Keeps {S = AgentService J} OneActive (stop_agent now id p) Always
  unfolding stop_agent
  stop_agent-OneActive now id p = Keeps-bind _ _ (get_agent-OneActive id p) λ a _.
      Keeps-if (is_active a.status) _ _ Always
        (λ _. write-OneActive id a (with_stop now) _ (λ r y. cc y) (λ r. refl) (λ r. refl))
        (λ _. Keeps-pure a Always tt)

  kept :
      {A : Type 0} (m : M J A)
      → Keeps OneActive m Always
      → (s : AgentService J) → OneActive s
      → OneActive (m s).1
  kept m k s h = Post-state OneActive Always (m s) (k.at s h)

  step-OneActive : (c : AgentCall J) (s : AgentService J) → OneActive s → OneActive (step c s)
  unfolding step
  step-OneActive (starts check now id n p) s h = kept _ (start_agent-OneActive check now id n p) s h
  step-OneActive (moves check id session suffix p) s h =
      kept _ (move_agent-OneActive check id session suffix p) s h
  step-OneActive (configures check id overrides p) s h =
      kept _ (configure_agent-OneActive check id overrides p) s h
  step-OneActive (stops now id p) s h = kept _ (stop_agent-OneActive now id p) s h

  run-AreExclusive :
      (cs : List (AgentCall J)) (s : AgentService J) → OneActive s → OneActive (run cs s)
  unfolding run
  run-AreExclusive [] s h = h
  run-AreExclusive (c ∷ cs) s h = run-AreExclusive cs (step c s) (step-OneActive c s h)

  -- Whatever agents are started, moved, configured and stopped, from a service that has none: two different
  -- agents that are active have different sessions and differ in their profile or their subject.
  pub run-OneActive :
      (cs : List (AgentCall J)) (s : AgentService J) → s.store.agents ≡ [] → OneActive (run cs s)
  unfolding lookup
  run-OneActive cs s e = run-AreExclusive cs s (λ j k a b f. cc (rw e at f))
