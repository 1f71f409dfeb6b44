-- ===== src/Tasks/Published.antt =====
-- The end of a background task (app/tasks/_runner.py) is published once, and the queue is bounded.
use assistant_runtime.Prelude.{
  ℕ, ◌≤◌, ◌≡◌, refl, sym, ap, ◌∙◌, inl, inr, String, Bool, true, false, Option, none, some, List,
  [], ◌∷◌, ◌++◌, ◌==◌, ==_iff, any, Dict, lookup, has, put, size, lookup-put, size-put_most,
  size-remove_most, arith, string_eq, Bool-cases, one_if, occurrences, occurrences-append,
}
use mathlib.Core.Path.{subst}
use assistant_runtime.Tasks.Types.{
  TaskStatus, queued, running, done, failed, cancelled, interrupted, is_finished, is_queued,
  TaskRecord,
}
use assistant_runtime.Tasks.Store
use assistant_runtime.Tasks.Store.{TaskStore}
use assistant_runtime.Tasks.Runner.{
  Runner, TasksConfig, Outcome, returned, was_cancelled, timed_out, raised, not_finished,
  with_failure, with_start, end_values, publish_if, is_full, submit, start_turn, end_unstarted,
  end_turn, mark_cancelled, unstarted_error, finish_unstarted,
}
use assistant_runtime.Tasks.Ends.{
  is_stop, Step, submits, messages, starts, ends, leaves, marks, finishes, Steps, none_yet,
  and_then, update-cases,
}
use assistant_runtime.Tasks.Submits.{start_task-cases, queue_message-cases}

pub queued_open : (s : TaskStatus) → is_queued s ≡ true → is_finished s ≡ false
queued_open queued h = refl
queued_open running h = cc
queued_open done h = cc
queued_open failed h = cc
queued_open cancelled h = cc
queued_open interrupted h = cc

pub stop_finished : (s : TaskStatus) → is_stop s ≡ true → is_finished s ≡ true
stop_finished queued h = cc
stop_finished running h = cc
stop_finished done h = refl
stop_finished failed h = refl
stop_finished cancelled h = refl
stop_finished interrupted h = refl

module _ {J : Type 0} where
  abbrev pub ids : List (TaskRecord J) → List String
  ids [] = []
  ids (r ∷ rs) = r.id ∷ ids rs

  ids-append : (rs qs : List (TaskRecord J)) → ids (rs ++ qs) ≡ ids rs ++ ids qs
  ids-append [] qs = refl
  ids-append (r ∷ rs) qs = ap (λ l. r.id ∷ l) (ids-append rs qs)

  abbrev finished_if : Option (TaskRecord J) → Bool
  finished_if none = false
  finished_if (some r) = is_finished r.status

  abbrev pub has_ended : String → TaskStore J → Bool
  has_ended id t = finished_if (lookup id t.tasks)

  -- Every task is stored under its id, and its end was published at most once, and not before it ended.
  abbrev AtMostOne : String → TaskStore J → List (TaskRecord J) → Type 0
  AtMostOne id t ps =
      ((k : String) (r : TaskRecord J) → lookup k t.tasks ≡ some r → r.id ≡ k)
      × (occurrences id (ids ps) ≤ one_if (has_ended id t))

  written-keyed :
      (k : String) (c : TaskRecord J) (d : Dict String (TaskRecord J))
      → c.id ≡ k
      → ((j : String) (r : TaskRecord J) → lookup j d ≡ some r → r.id ≡ j)
      → (j : String) (r : TaskRecord J) → lookup j (put k c d) ≡ some r
      → r.id ≡ j
  written-keyed k c d same keyed j r h = elim (Bool-cases (k == j)) [
    | inl q ↦
        let e : some c ≡ some r = rw (lookup-put k j c d, q) at h in cc (e, same, (==_iff k j).0 q)
    | inr q ↦ keyed j r (rw (lookup-put k j c d, q) at h)
  ]

  -- A change of an open task that leaves it open, or new tasks.
  open-AtMostOne :
      (id k : String) (c : TaskRecord J) (t : TaskStore J) (ps : List (TaskRecord J))
      → c.id ≡ k
      → has_ended k t ≡ false
      → AtMostOne id t ps
      → AtMostOne id (record t { tasks = put k c t.tasks }) ps
  open-AtMostOne id k c t ps same before (keyed, b) = (
    written-keyed k c t.tasks same keyed,
    rw (lookup-put k id c t.tasks) (elim (Bool-cases (k == id)) [
      | inl q ↦
          let here = subst (λ i. has_ended i t ≡ false) ((==_iff k id).0 q) before in
          rw q (omega (arith, rw here at b))
      | inr q ↦ rw q b
    ]),
  )

  -- The end of an open task, with its publication.
  end-AtMostOne :
      (id k : String) (c : TaskRecord J) (t : TaskStore J) (ps : List (TaskRecord J))
      → c.id ≡ k
      → is_finished c.status ≡ true
      → has_ended k t ≡ false
      → AtMostOne id t ps
      → AtMostOne id (record t { tasks = put k c t.tasks }) (ps ++ c ∷ [])
  end-AtMostOne id k c t ps same fin before (keyed, b) = (
    written-keyed k c t.tasks same keyed,
    rw
        (
          lookup-put k id c t.tasks,
          ids-append ps (c ∷ []),
          occurrences-append id (ids ps) (c.id ∷ []),
          same,
        )
        (elim (Bool-cases (k == id)) [
          | inl q ↦
              let here = subst (λ i. has_ended i t ≡ false) ((==_iff k id).0 q) before in
              rw q (rw fin (omega (arith, rw here at b)))
          | inr q ↦ rw q (omega (arith, b))
        ]),
  )

  finished-AtMostOne :
      (id k : String) (now : ℕ) (f : TaskRecord J → TaskRecord J) (t : TaskStore J)
      (ps : List (TaskRecord J))
      → ((r : TaskRecord J) → (f r).id ≡ r.id)
      → ((r : TaskRecord J) → is_finished (f r).status ≡ true)
      → AtMostOne id t ps
      → let after = Store.update now k not_finished f t in
        AtMostOne id after.1 (publish_if after.0 ps)
  finished-AtMostOne id k now f t ps same fin h = elim (update-cases now k not_finished f t) [
    | inl e ↦ rw e h
    | inr (r, e, o, g) ↦ rw g (
        end-AtMostOne id k (record (f r) { updated_at = now }) t ps (same r ∙ h.0 k r e) (fin r)
          (rw e (ground (arith, o))) h)
  ]

  end_values-id :
      (c : TasksConfig) (b : Bool) (now : ℕ) (o : Outcome J) (r : TaskRecord J)
      → (end_values c b now o r).id ≡ r.id
  unfolding end_values
  end_values-id c b now (returned content none usage) r = refl
  end_values-id c b now (returned content (some tool) usage) r = refl
  end_values-id c true now was_cancelled r = refl
  end_values-id c false now was_cancelled r = refl
  end_values-id c b now timed_out r = refl
  end_values-id c b now (raised text type_name) r = refl

  pub end_values-finished :
      (c : TasksConfig) (b : Bool) (now : ℕ) (o : Outcome J) (r : TaskRecord J)
      → is_finished (end_values c b now o r).status ≡ true
  unfolding end_values
  end_values-finished c b now (returned content none usage) r = refl
  end_values-finished c b now (returned content (some tool) usage) r = refl
  end_values-finished c true now was_cancelled r = refl
  end_values-finished c false now was_cancelled r = refl
  end_values-finished c b now timed_out r = refl
  end_values-finished c b now (raised text type_name) r = refl

  Step-AtMostOne :
      (id : String) (s t : Runner J)
      → Step s t
      → AtMostOne id s.store s.published
      → AtMostOne id t.store t.published
  unfolding Store.create submit start_turn end_turn end_unstarted mark_cancelled finish_unstarted
  Step-AtMostOne id s t (submits check inside profile now i n p fresh e) h =
      rw e (elim (start_task-cases check inside profile now i n p s) [
        | inl same ↦ rw same h
        | inr (new, q, own, room, g) ↦
            let fresh' = subst (λ k. lookup k s.store.tasks ≡ none) (sym own) fresh in
            rw g (
              open-AtMostOne id new.id (record new { created_at = now; updated_at = now }) s.store
                s.published refl (rw fresh' refl) h)
      ])
  Step-AtMostOne id s t (messages i agent fresh e) h =
      rw e (elim (queue_message-cases i agent s) [ inl same ↦ rw same h | inr (room, g) ↦ rw g h ])
  Step-AtMostOne id s t (starts now k e) h =
      rw e (elim (update-cases now k is_queued (with_start now) s.store) [
        | inl g ↦ rw g h
        | inr (r, f, o, g) ↦ rw g (
            open-AtMostOne id k (record (with_start now r) { updated_at = now }) s.store s.published
              (h.0 k r f) (rw f (queued_open r.status o)) h)
      ])
  Step-AtMostOne id s t (ends now k o e) h =
      let f = end_values s.config (any (λ j. j == k) s.cancel_requested) now o in
      rw e (
        finished-AtMostOne id k now f s.store s.published (end_values-id s.config _ now o)
          (end_values-finished s.config _ now o) h)
  Step-AtMostOne id s t (leaves k closed e) h = rw e h
  Step-AtMostOne id s t (marks k e) h = rw e h
  Step-AtMostOne id s t (finishes now k status stop e) h = rw e (elim (Bool-cases (has k s.jobs)) [
    | inl g ↦ rw g (
        finished-AtMostOne id k now (with_failure now status (unstarted_error status)) s.store
          s.published (λ r. refl) (λ r. stop_finished status stop) h)
    | inr g ↦ rw g h
  ])

  Steps-AtMostOne :
      (id : String) (s t : Runner J)
      → Steps s t
      → AtMostOne id s.store s.published
      → AtMostOne id t.store t.published
  Steps-AtMostOne id s _ none_yet h = h
  Steps-AtMostOne id s _ (and_then t u ss x) h =
      Step-AtMostOne id t u x (Steps-AtMostOne id s t ss h)

  -- In a runner that starts without tasks, whatever jobs start, end, are cancelled or stopped, and in
  -- whatever order, the end of a task is published at most once, and only once its record has ended.
  pub published_at_most_once :
      (s t : Runner J) (id : String)
      → s.store.tasks ≡ []
      → s.published ≡ []
      → Steps s t
      → occurrences id (ids t.published) ≤ one_if (has_ended id t.store)
  unfolding lookup
  published_at_most_once s t id e f ss =
      (Steps-AtMostOne id s t ss (λ k r h. cc (rw e at h), rw (f, e) (omega arith))).1

  abbrev Bounded : Runner J → Runner J → Type 0
  Bounded s t = (size t.jobs ≤ t.config.max_waiting) × (t.config ≡ s.config)

  with_room-Bounded :
      (id : String) (agent : Option String) (s : Runner J)
      → is_full s ≡ false
      → size (put id agent s.jobs) ≤ s.config.max_waiting
  with_room-Bounded id agent s room = ground (arith, room, size-put_most id agent s.jobs)

  Step-Bounded : (s t : Runner J) → Step s t → size s.jobs ≤ s.config.max_waiting → Bounded s t
  unfolding submit start_turn end_turn end_unstarted mark_cancelled finish_unstarted
  Step-Bounded s t (submits check inside profile now i n p fresh e) h =
      rw e (elim (start_task-cases check inside profile now i n p s) [
        | inl same ↦ rw same (h, refl)
        | inr (new, q, own, room, g) ↦ rw g (with_room-Bounded new.id none s room, refl)
      ])
  Step-Bounded s t (messages i agent fresh e) h = rw e (elim (queue_message-cases i agent s) [
    | inl same ↦ rw same (h, refl)
    | inr (room, g) ↦ rw g (with_room-Bounded i (some agent) s room, refl)
  ])
  Step-Bounded s t (starts now k e) h = rw e (h, refl)
  Step-Bounded s t (ends now k o e) h = rw e (omega (arith, h, size-remove_most k s.jobs), refl)
  Step-Bounded s t (leaves k closed e) h = rw e (omega (arith, h, size-remove_most k s.jobs), refl)
  Step-Bounded s t (marks k e) h = rw e (h, refl)
  Step-Bounded s t (finishes now k status stop e) h = rw e (elim (Bool-cases (has k s.jobs)) [
    | inl g ↦ rw g (omega (arith, h, size-remove_most k s.jobs), refl)
    | inr g ↦ rw g (h, refl)
  ])

  -- The jobs of a runner that has no more of them than its configuration allows never become more,
  -- whatever tasks and messages are asked for, and whatever jobs start, end, are cancelled or stopped.
  pub jobs_at_most_max :
      (s t : Runner J)
      → size s.jobs ≤ s.config.max_waiting
      → Steps s t
      → (size t.jobs ≤ t.config.max_waiting) × (t.config ≡ s.config)
  jobs_at_most_max s _ h none_yet = (h, refl)
  jobs_at_most_max s _ h (and_then t u ss x) =
      let (b, c) = jobs_at_most_max s t h ss in let (b', c') = Step-Bounded t u x b in (b', c' ∙ c)
