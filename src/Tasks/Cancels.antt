-- ===== src/Tasks/Cancels.antt =====
-- That a cancelled task ends (app/tasks/interface.py: cancel; app/tasks/_runner.py: cancel).
use assistant_runtime.Prelude.{
  ℕ, ◌≡◌, refl, ap, ◌∙◌, inl, inr, String, Bool, true, false, Option, none, some, beq_refl, lookup,
  has, remove, lookup-remove, lookup-put_self, Result, ok, ◌>>=◌, string_eq, Bool-cases,
}
use assistant_runtime.Access.Principals.{Principal}
use assistant_runtime.Tasks.Types.{is_finished, TaskRecord, TaskError, is_visible}
use assistant_runtime.Tasks.Store
use assistant_runtime.Tasks.Runner.{
  Runner, TasksConfig, Outcome, returned, was_cancelled, timed_out, raised, end_values, end_turn,
  finish_unstarted, mark_cancelled,
}
use assistant_runtime.Tasks.Service.{get, cancel_job, cancel}
use assistant_runtime.Tasks.Published.{end_values-finished}
use assistant_runtime.Tasks.OpenJobs.{HasJobs}

module _ {J : Type 0} where
  end_values-created_by :
      (c : TasksConfig) (b : Bool) (now : ℕ) (o : Outcome J) (r : TaskRecord J)
      → (end_values c b now o r).created_by ≡ r.created_by
  unfolding end_values
  end_values-created_by c b now (returned content none usage) r = refl
  end_values-created_by c b now (returned content (some tool) usage) r = refl
  end_values-created_by c true now was_cancelled r = refl
  end_values-created_by c false now was_cancelled r = refl
  end_values-created_by c b now timed_out r = refl
  end_values-created_by c b now (raised text type_name) r = refl

  job_gone : (id : String) (s : Runner J) → has id (remove id s.jobs) ≡ false
  unfolding has
  job_gone id s = rw (lookup-remove id id s.jobs, beq_refl id) refl

  -- The record of an open task after the runner's `cancel`.
  cancel_job-ends :
      (now : ℕ) (id : String) (o : Option (Outcome J)) (s : Runner J) (r : TaskRecord J)
      → has id s.jobs ≡ true
      → lookup id s.store.tasks ≡ some r
      → is_finished r.status ≡ false
      → (q : TaskRecord J) × (lookup id (cancel_job now id o s).store.tasks ≡ some q)
        × (is_finished q.status ≡ true)
        × (q.created_by ≡ r.created_by)
  unfolding cancel_job mark_cancelled end_turn finish_unstarted Store.update
  cancel_job-ends now id none s r h e n =
      rw h (rw (e, Store.update) (rw n (_, lookup-put_self id _ s.store.tasks, refl, refl)))
  cancel_job-ends now id (some o) s r h e n = rw h (
      rw (job_gone id s) (
        rw (e, Store.update)
          (rw n (
            _,
            lookup-put_self id _ s.store.tasks,
            end_values-finished s.config _ now o r,
            end_values-created_by s.config _ now o r,
          ))))

  get_found :
      (id : String) (p : Principal) (s : Runner J) (r : TaskRecord J)
      → lookup id s.store.tasks ≡ some r
      → is_visible r.created_by p ≡ true
      → get id p s ≡ (ok r, s)
  unfolding get ◌>>=◌
  get_found id p s r e v = rw e (rw v refl)

  -- Where every open task has a job, `cancel` of a task that the caller may see returns its record, and the
  -- record has ended: whether it had ended before, its worker ends in any way, or its worker was never entered.
  pub cancel-Ended :
      (now : ℕ) (id : String) (o : Option (Outcome J)) (p : Principal) (s : Runner J)
      (r : TaskRecord J)
      → HasJobs s
      → lookup id s.store.tasks ≡ some r
      → is_visible r.created_by p ≡ true
      → (q : TaskRecord J) × ((cancel now id o p s).0 ≡ ok q) × (is_finished q.status ≡ true)
  unfolding cancel ◌>>=◌
  cancel-Ended now id o p s r jobs e v = elim (Bool-cases (is_finished r.status)) [
    | inl y ↦ (r, rw (get_found id p s r e v) (rw y refl), y)
    | inr n ↦
        let (q, found, y, by) = cancel_job-ends now id o s r (jobs id r e n) e n in
        let seen_still : is_visible q.created_by p ≡ true =
          ap (λ (c : String). is_visible c p) by ∙ v in
        (
          q,
          rw (get_found id p s r e v) (
              rw n (
                ap (λ (x : Result TaskError (TaskRecord J) × Runner J). x.0)
                  (get_found id p (cancel_job now id o s) q found seen_still))),
          y,
        )
  ]
