-- ===== src/Tasks/Stops.antt =====
-- That background tasks end (app/tasks/_runner.py: stop), whatever else runs meanwhile.
use assistant_runtime.Prelude.{
  ℕ, ◌≡◌, refl, sym, inl, inr, String, true, some, List, [], ◌∷◌, ◌==◌, ==_iff, any, keys, lookup,
  string_eq, Bool-cases,
}
use mathlib.Core.Path.{subst}
use assistant_runtime.Tasks.Types.{interrupted, is_finished, TaskRecord}
use assistant_runtime.Tasks.Runner.{Runner, finish_unstarted}
use assistant_runtime.Tasks.Ends.{finishes, Steps, none_yet, and_then, ended_for_good}
use assistant_runtime.Tasks.OpenJobs.{
  any-keys, HasJobs, Ended, Step-HasJobs, Steps-HasJobs, Step-Known, Steps-Known, finish-Ended,
}

module _ {J : Type 0} where
  -- `stop` for the jobs that it found: it waits for the worker of each, and then records its end if nothing
  -- else did. Other steps may run meanwhile.
  abbrev pub StopRun : List String → Runner J → Runner J → Type 0
  StopRun [] s t = Steps s t
  StopRun (id ∷ ids) s t =
      (u : Runner J) × (now : ℕ) × Steps s u × StopRun ids (finish_unstarted now id interrupted u) t

  Ended-after : (id : String) (s t : Runner J) → Steps s t → Ended id s → Ended id t
  Ended-after id s t ss (r, h, y) = (r, ended_for_good s t id r h y ss, y)

  StopRun-Ended :
      (id : String) (ids : List String) (s t : Runner J) → StopRun ids s t → Ended id s → Ended id t
  StopRun-Ended id [] s t ss e = Ended-after id s t ss e
  StopRun-Ended id (k ∷ ids) s t (u, now, ss, run) e = StopRun-Ended id ids _ t run (
      Ended-after id u _ (and_then u _ none_yet (finishes now k interrupted refl refl))
        (Ended-after id s u ss e))

  StopRun-found :
      (id : String) (ids : List String) (s t : Runner J) (r : TaskRecord J)
      → StopRun ids s t
      → HasJobs s
      → lookup id s.store.tasks ≡ some r
      → any (λ k. k == id) ids ≡ true
      → Ended id t
  StopRun-found id [] s t r ss h e m = cc m
  StopRun-found id (k ∷ ids) s t r (u, now, ss, run) h e m =
      let (q, e') = Steps-Known id s u ss r e in
      let hu = Steps-HasJobs s u ss h in
      let step = finishes now k interrupted refl refl in
      elim (Bool-cases (k == id)) [
        | inl same ↦
            let e'' =
              subst (λ i. lookup i u.store.tasks ≡ some q) (sym ((==_iff k id).0 same)) e' in
            StopRun-Ended id ids _ t run (
              subst (λ i. Ended i (finish_unstarted now k interrupted u)) ((==_iff k id).0 same)
                (finish-Ended now k interrupted u q refl hu e''))
        | inr other ↦
            let (q', e'') = Step-Known id u _ step q e' in
            StopRun-found id ids _ t q' run (Step-HasJobs u _ step hu) e'' (rw other at m)
      ]

  -- In a runner that starts without tasks, every task that is stored when `stop` begins has ended when it
  -- returns, whatever jobs have started, ended or been cancelled before, and whatever runs meanwhile.
  pub stop-Ended :
      (start s t : Runner J) (id : String) (r : TaskRecord J)
      → start.store.tasks ≡ []
      → Steps start s
      → lookup id s.store.tasks ≡ some r
      → StopRun (keys s.jobs) s t
      → Ended id t
  unfolding lookup
  stop-Ended start s t id r e before h run =
      let jobs = Steps-HasJobs start s before (λ k x f o. cc (rw e at f)) in
      elim (Bool-cases (is_finished r.status)) [
        | inl y ↦ StopRun-Ended id (keys s.jobs) s t run (r, h, y)
        | inr o ↦
            StopRun-found id (keys s.jobs) s t r run jobs h (any-keys id s.jobs (jobs id r h o))
      ]
