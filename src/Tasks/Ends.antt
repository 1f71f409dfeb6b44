-- ===== src/Tasks/Ends.antt =====
-- How background tasks end (app/tasks/_runner.py): whatever starts, ends, is cancelled or stopped at once,
-- in whatever order.
use assistant_runtime.Prelude.{
  ℕ, ◌≡◌, refl, sym, ◌∙◌, ◌⊎◌, inl, inr, String, Bool, true, false, Option, none, some, ◌==◌,
  ==_iff, lookup, has, put, lookup-put, any, arith, string_eq, Bool-cases, Option-cases,
}
use mathlib.Core.Path.{subst}
use mathlib.Core.Option.{some-injective}
use assistant_runtime.Tasks.Types.{
  TaskStatus, queued, running, done, failed, cancelled, interrupted, is_finished, is_queued,
  TaskRecord, TaskError,
}
use assistant_runtime.Tasks.Store
use assistant_runtime.Tasks.Store.{TaskStore}
use assistant_runtime.Tasks.Runner.{
  Runner, Outcome, not_finished, with_failure, end_values, submit, with_start, start_turn,
  end_unstarted, end_turn, mark_cancelled, unstarted_error, finish_unstarted,
}
use assistant_runtime.Access.Principals.{Principal}
use assistant_runtime.Tasks.Service.{NewTask, start_task, queue_message}
use assistant_runtime.Tasks.Submits.{start_task-cases, queue_message-cases}

-- The two ends that are recorded for a job that never ran.
abbrev pub is_stop : TaskStatus → Bool
is_stop cancelled = true
is_stop interrupted = true
is_stop _ = false

not_queued : (s : TaskStatus) → is_finished s ≡ true → is_queued s ≡ false
not_queued queued h = cc
not_queued running h = cc
not_queued done h = refl
not_queued failed h = refl
not_queued cancelled h = refl
not_queued interrupted h = refl

not_open : (s : TaskStatus) → is_finished s ≡ true → not_finished s ≡ false
not_open s h = rw h refl

module _ {J : Type 0} where
  abbrev pub is_open_if : Option (TaskRecord J) → Bool
  is_open_if none = false
  is_open_if (some r) = not_finished r.status

  abbrev pub is_open_at : String → TaskStore J → Bool
  is_open_at id t = is_open_if (lookup id t.tasks)

  -- A part of a job that runs without waiting, a request to start a task and a message to an agent. The id
  -- that is drawn for a task or a message is no other task's.
  pub data Step (s t : Runner J) : Type 0 where
    submits :
        (check_names : Option String → Option String → Option TaskError) (inside : Bool)
        (default_profile : Option String) (now : ℕ) (id : String) (n : NewTask)
        (principal : Principal)
        → lookup id s.store.tasks ≡ none
        → t ≡ (start_task check_names inside default_profile now id n principal s).1
        → Step s t
    messages :
        (id agent : String)
        → lookup id s.store.tasks ≡ none
        → t ≡ (queue_message id agent s).1
        → Step s t
    starts : (now : ℕ) (id : String) → t ≡ (start_turn now id s).1 → Step s t
    ends : (now : ℕ) (id : String) (o : Outcome J) → t ≡ end_turn now id o s → Step s t
    -- A job leaves before its turn only because `start` found that its task had ended.
    leaves : (id : String) → is_open_at id s.store ≡ false → t ≡ end_unstarted id s → Step s t
    marks : (id : String) → t ≡ mark_cancelled id s → Step s t
    finishes :
        (now : ℕ) (id : String) (status : TaskStatus)
        → is_stop status ≡ true
        → t ≡ finish_unstarted now id status s
        → Step s t

  pub data Steps (s : Runner J) : Runner J → Type 0 where
    none_yet : Steps s s
    and_then : (t u : Runner J) → Steps s t → Step t u → Steps s u

  pub update-cases :
      (now : ℕ) (id : String) (only_from : TaskStatus → Bool) (f : TaskRecord J → TaskRecord J)
      (t : TaskStore J)
      → (Store.update now id only_from f t ≡ (none, t))
        ⊎ ((r : TaskRecord J) × (lookup id t.tasks ≡ some r)
            × (only_from r.status ≡ true)
            × (Store.update now id only_from f t ≡ (
              some (record (f r) { updated_at = now }),
              record t { tasks = put id (record (f r) { updated_at = now }) t.tasks },
            )))
  unfolding Store.update
  update-cases now id only_from f t = elim (Option-cases (lookup id t.tasks)) [
    | inl e ↦ inl (rw (e, Store.update) refl)
    | inr (r, e) ↦ elim (Bool-cases (only_from r.status)) [
      | inl g ↦ inr (r, e, g, rw (e, Store.update) (rw g refl))
      | inr g ↦ inl (rw (e, Store.update) (rw g refl))
    ]
  ]

  -- A record that is not allowed to change stays.
  update-keeps :
      (now : ℕ) (id j : String) (only_from : TaskStatus → Bool) (f : TaskRecord J → TaskRecord J)
      (t : TaskStore J) (a : TaskRecord J)
      → lookup j t.tasks ≡ some a
      → only_from a.status ≡ false
      → lookup j (Store.update now id only_from f t).1.tasks ≡ some a
  update-keeps now id j only_from f t a e n = elim (update-cases now id only_from f t) [
    | inl g ↦ rw g e
    | inr (r, g, y, h) ↦ rw h (elim (Bool-cases (id == j)) [
      | inl q ↦
          let here = subst (λ i. lookup i t.tasks ≡ some r) ((==_iff id j).0 q) g in
          let same : a ≡ r = some-injective a r (sym e ∙ here) in
          cc (subst (λ x. only_from x.status ≡ true) (sym same) y, n)
      | inr q ↦ rw (lookup-put id j (record (f r) { updated_at = now }) t.tasks) (rw q e)
    ])
  ]

  Step-keeps :
      (id : String) (a : TaskRecord J) (s t : Runner J)
      → Step s t
      → is_finished a.status ≡ true
      → lookup id s.store.tasks ≡ some a
      → lookup id t.store.tasks ≡ some a
  unfolding Store.create submit start_turn end_turn end_unstarted mark_cancelled finish_unstarted
  Step-keeps id a s t (submits check inside profile now i n p fresh e) f h =
      rw e (elim (start_task-cases check inside profile now i n p s) [
        | inl same ↦ rw same h
        | inr (new, q, own, room, g) ↦ rw g (
            rw
              (lookup-put new.id id (record new { created_at = now; updated_at = now })
                s.store.tasks)
              (ground (arith, ==_iff new.id id, h, fresh, own)))
      ])
  Step-keeps id a s t (messages i agent fresh e) f h =
      rw e (elim (queue_message-cases i agent s) [ inl same ↦ rw same h | inr (room, g) ↦ rw g h ])
  Step-keeps id a s t (starts now i e) f h =
      rw e (update-keeps now i id is_queued (with_start now) s.store a h (not_queued a.status f))
  Step-keeps id a s t (ends now i o e) f h = rw e (
      update-keeps now i id not_finished
        (end_values s.config (any (λ j. j == i) s.cancel_requested) now o) s.store a h
        (not_open a.status f))
  Step-keeps id a s t (leaves i closed e) f h = rw e h
  Step-keeps id a s t (marks i e) f h = rw e h
  Step-keeps id a s t (finishes now i status stop e) f h = rw e (elim (Bool-cases (has i s.jobs)) [
    | inl g ↦ rw g (
        update-keeps now i id not_finished (with_failure now status (unstarted_error status))
          s.store a h (not_open a.status f))
    | inr g ↦ rw g h
  ])

  -- A task that has ended never changes again: whatever jobs start, end, are cancelled or stopped later, its
  -- record stays the same.
  pub ended_for_good :
      (s t : Runner J) (id : String) (a : TaskRecord J)
      → lookup id s.store.tasks ≡ some a
      → is_finished a.status ≡ true
      → Steps s t
      → lookup id t.store.tasks ≡ some a
  ended_for_good s _ id a h f none_yet = h
  ended_for_good s _ id a h f (and_then t u ss x) =
      Step-keeps id a t u x f (ended_for_good s t id a h f ss)
