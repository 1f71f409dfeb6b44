-- ===== src/Tasks/Submits.antt =====
-- What start_task and message_agent (app/tasks/interface.py) do to the runner: nothing, or one more job.
use assistant_runtime.Prelude.{
  ℕ, ◌≡◌, refl, ◌⊎◌, inl, inr, String, Bool, false, not, Option, none, some, ◌>>=◌, pure, raise,
  raise_if, is_empty, Bool-cases, Option-cases, string_eq,
}
use assistant_runtime.Access.Principals.{Principal}
use assistant_runtime.Tasks.Types.{queued, TaskRecord, TaskError}
use assistant_runtime.Tasks.Store
use assistant_runtime.Tasks.Runner.{Runner, is_full, reserve, submit}
use assistant_runtime.Tasks.Service.{NewTask, stripped, new_task, queue, start_task, queue_message}

module _ {J : Type 0} where
  queue-cases :
      (now : ℕ) (new : TaskRecord J) (s : Runner J)
      → ((queue now new s).1 ≡ s)
        ⊎ ((is_full s ≡ false)
            × ((queue now new s).1
                ≡ submit new.id none (record s { store = (Store.create now new s.store).1 })))
  unfolding queue reserve Store.create
  queue-cases now new s = elim (Bool-cases (is_full s)) [
    | inl e ↦ inl (rw e refl)
    | inr e ↦ inr (e, rw e refl)
  ]

  -- `start_task` changes nothing, or adds a new, queued task with its job where there was room.
  pub start_task-cases :
      (check_names : Option String → Option String → Option TaskError) (inside : Bool)
      (default_profile : Option String) (now : ℕ) (id : String) (n : NewTask)
      (principal : Principal) (s : Runner J)
      → let t = (start_task check_names inside default_profile now id n principal s).1 in
        (t ≡ s)
        ⊎ ((new : TaskRecord J) × (new.status ≡ queued)
            × (new.id ≡ id)
            × (is_full s ≡ false)
            × (t ≡ submit new.id none (record s { store = (Store.create now new s.store).1 })))
  unfolding start_task ◌>>=◌ raise_if pure raise
  start_task-cases check_names inside default_profile now id n principal s =
      elim (Bool-cases inside) [
        | inl e ↦ inl (rw e refl)
        | inr e ↦ rw e (elim (Bool-cases (not s.config.enabled)) [
          | inl f ↦ inl (rw f refl)
          | inr f ↦ rw f (elim (Bool-cases (is_empty (stripped n.task))) [
            | inl g ↦ inl (rw g refl)
            | inr g ↦ rw g (elim (Option-cases (check_names n.profile n.subject)) [
              | inr (x, h) ↦ inl (rw h refl)
              | inl h ↦
                  rw h (elim (queue-cases now (new_task id default_profile principal.id n) s) [
                    | inl u ↦ inl u
                    | inr (room, u) ↦
                        inr (new_task id default_profile principal.id n, refl, refl, room, u)
                  ])
            ])
          ])
        ])
      ]

  -- A message's job is added where there was room, and otherwise nothing changes.
  pub queue_message-cases :
      (id agent : String) (s : Runner J)
      → ((queue_message id agent s).1 ≡ s)
        ⊎ ((is_full s ≡ false) × ((queue_message id agent s).1 ≡ submit id (some agent) s))
  unfolding queue_message reserve
  queue_message-cases id agent s = elim (Bool-cases (is_full s)) [
    | inl e ↦ inl (rw e refl)
    | inr e ↦ inr (e, rw e refl)
  ]
