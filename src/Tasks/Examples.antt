-- ===== src/Tasks/Examples.antt =====
-- The theorems on background tasks at one task that is started, cancelled and ended.
use assistant_runtime.Prelude.{
  ◌≤◌, ◌≡◌, ◌>>=◌, is_empty, strip, refl, String, true, false, none, some, Option, List, [], ◌∷◌,
  lookup, put, ok, size, one_if, occurrences, arith, string_eq,
}
use assistant_runtime.Tasks.Types.{
  is_finished, queued, running, interrupted, failed, cancelled, TaskRecord,
}
use assistant_runtime.Tasks.Store
use assistant_runtime.Tasks.Runner.{
  Runner, returned, was_cancelled, reserve, submit, start_turn, end_turn, mark_cancelled,
  finish_unstarted,
}
use assistant_runtime.Tasks.Ends.{
  Steps, none_yet, and_then, submits, messages, starts, ends, marks, finishes, ended_for_good,
}
use assistant_runtime.Access.Principals.{Principal}
use assistant_runtime.Tasks.Agents.{AgentService, NewAgent}
use assistant_runtime.Tasks.Exclusive.{OneActive}
use assistant_runtime.Tasks.AgentRuns
use assistant_runtime.Tasks.AgentRuns.{
  AgentCall, starts as agent_starts, moves, stops, run-OneActive,
}
use assistant_runtime.Tasks.OpenJobs.{Ended, HasJobs, Steps-HasJobs}
use assistant_runtime.Tasks.Service.{NewTask, queue, start_task, queue_message, cancel}
use assistant_runtime.Tasks.Cancels.{cancel-Ended}
use assistant_runtime.Tasks.Stops.{stop-Ended}
use assistant_runtime.Tasks.Published.{ids, has_ended, published_at_most_once, jobs_at_most_max}

abbrev task : TaskRecord String
task = record {
  id = "t1";
  session_id = "task-t1";
  task = "Summarise the deal";
  status = queued;
  created_by = "ann";
  profile = none;
  subject = none;
  context = none;
  parent_session_id = none;
  result = none;
  error = none;
  usage = none;
  created_at = 1;
  started_at = none;
  finished_at = none;
  updated_at = 1;
}

abbrev runner : Runner String
runner = record {
  config = record {
    enabled = true;
    max_waiting = 2;
    timeout_seconds = 900;
    result_max_chars = 100;
  };
  store = Store.empty;
  jobs = [];
  cancel_requested = [];
  published = [];
}

abbrev ann : Principal
ann = record { id = "ann"; roles = []; label = "" }

abbrev summarise : NewTask
summarise = record {
  task = some "Summarise the deal";
  profile = none;
  subject = none;
  context = none;
  parent_session_id = none;
}

abbrev submitted : Runner String
submitted = (start_task (λ p s. none) false none 1 "t1" summarise ann runner).1

abbrev started : Runner String
started = (start_turn 2 "t1" submitted).1

abbrev marked : Runner String
marked = mark_cancelled "t1" started

abbrev ended : Runner String
ended = end_turn 3 "t1" was_cancelled marked

abbrev finished : Runner String
finished = finish_unstarted 4 "t1" cancelled ended

run : Steps runner finished
unfolding lookup Store.create
run =
    and_then ended finished
      (and_then marked ended
        (and_then started marked
          (and_then submitted started
            (and_then runner submitted none_yet
              (submits (λ p s. none) false none 1 "t1" summarise ann refl refl))
            (starts 2 "t1" refl))
          (marks "t1" refl))
        (ends 3 "t1" was_cancelled refl))
      (finishes 4 "t1" cancelled refl refl)

published_at_most_once_example :
    occurrences "t1" (ids finished.published) ≤ one_if (has_ended "t1" finished.store)
published_at_most_once_example = published_at_most_once runner finished "t1" refl refl run

abbrev stopped : Runner String
stopped = finish_unstarted 5 "t1" interrupted (end_turn 4 "t1" was_cancelled started)

until_started : Steps runner started
unfolding lookup Store.create
until_started =
    and_then submitted started
      (and_then runner submitted none_yet
        (submits (λ p s. none) false none 1 "t1" summarise ann refl refl))
      (starts 2 "t1" refl)

stop-Ended_example : Ended "t1" stopped
unfolding start_turn submit Store.create lookup put start_task ◌>>=◌ is_empty strip
stop-Ended_example =
    stop-Ended runner started stopped "t1"
      (record task { status = running; started_at = some 2; updated_at = 2 }) refl until_started
      refl
      (
        end_turn 4 "t1" was_cancelled started,
        5,
        and_then started _ none_yet (ends 4 "t1" was_cancelled refl),
        none_yet,
      )

abbrev running_task : TaskRecord String
running_task = record task { status = running; started_at = some 2; updated_at = 2 }

started-HasJobs : HasJobs started
unfolding lookup
started-HasJobs = Steps-HasJobs runner started until_started (λ id r f o. cc f)

cancel-Ended_example :
    (q : TaskRecord String) × ((cancel 3 "t1" (some was_cancelled) ann started).0 ≡ ok q)
    × (is_finished q.status ≡ true)
unfolding start_turn submit Store.create lookup put start_task ◌>>=◌ is_empty strip
cancel-Ended_example =
    cancel-Ended 3 "t1" (some was_cancelled) ann started running_task started-HasJobs refl refl

-- Three tasks, of which the third finds no room, and a message, which finds none either.
abbrev asked : String → Runner String → Runner String
asked id s = (start_task (λ p q. none) false none 1 id summarise ann s).1

abbrev crowded : Runner String
crowded = (queue_message "m1" "a1" (asked "t3" (asked "t2" submitted))).1

crowding : Steps runner crowded
unfolding start_task queue reserve Store.create submit lookup put ◌>>=◌ is_empty strip
crowding =
    and_then (asked "t3" (asked "t2" submitted)) crowded
      (and_then (asked "t2" submitted) (asked "t3" (asked "t2" submitted))
        (and_then submitted (asked "t2" submitted)
          (and_then runner submitted none_yet
            (submits (λ p s. none) false none 1 "t1" summarise ann refl refl))
          (submits (λ p s. none) false none 1 "t2" summarise ann refl refl))
        (submits (λ p s. none) false none 1 "t3" summarise ann refl refl))
      (messages "m1" "a1" refl refl)

jobs_at_most_max_example :
    (size crowded.jobs ≤ crowded.config.max_waiting) × (crowded.config ≡ runner.config)
jobs_at_most_max_example = jobs_at_most_max runner crowded (omega arith) crowding

abbrev broken : TaskRecord String
broken = record task { status = failed; error = some "No answer"; finished_at = some 5 }

abbrev later : Runner String
later = record runner { store = record { tasks = ("t1", broken) ∷ []; agents = [] } }

ended_for_good_example :
    lookup "t1" (end_turn 6 "t1" (returned none none none) later).store.tasks ≡ some broken
unfolding lookup
ended_for_good_example =
    ended_for_good later (end_turn 6 "t1" (returned none none none) later) "t1" broken refl refl (
      and_then later (end_turn 6 "t1" (returned none none none) later) none_yet
        (ends 6 "t1" (returned none none none) refl))

abbrev agency : AgentService String
agency = record { enabled = true; default_profile = some "sales"; store = Store.empty; pins = [] }

abbrev for_deal : Option String → NewAgent String
for_deal session = record {
  profile = none;
  subject = some "deal-1";
  session_id = session;
  config = [];
}

abbrev agent_calls : List (AgentCall String)
agent_calls =
    agent_starts none 1 "a1" (for_deal none) ann
    ∷ agent_starts none 2 "a2" (for_deal (some "s2")) ann
    ∷ moves none "a1" (some "s2") "0a1b2c3d" ann
    ∷ stops 3 "a1" ann
    ∷ agent_starts none 4 "a3" (for_deal (some "s2")) ann
    ∷ []

run-OneActive_example : OneActive (AgentRuns.run agent_calls agency)
run-OneActive_example = run-OneActive agent_calls agency refl
