-- ===== src/Tasks/OpenJobs.antt =====
-- The jobs of background tasks that have not ended (app/tasks/_runner.py), and what records their end.
use assistant_runtime.Prelude.{
  ℕ, ◌≡◌, refl, ap, ◌⊎◌, inl, inr, String, Bool, true, false, Option, none, some, [], ◌∷◌, ◌==◌,
  ==_iff, any, Dict, keys, lookup, has, put, remove, has-put, lookup-put, lookup-put_self,
  lookup-remove, arith, string_eq, Bool-cases, Option-cases,
}
use mathlib.Core.Path.{subst}
use mathlib.Core.Option.{some-injective}
use assistant_runtime.Tasks.Types.{TaskStatus, is_finished, is_queued, TaskRecord}
use assistant_runtime.Tasks.Store
use assistant_runtime.Tasks.Store.{TaskStore}
use assistant_runtime.Tasks.Runner.{
  Runner, not_finished, with_failure, with_start, end_values, submit, start_turn, end_unstarted,
  end_turn, mark_cancelled, unstarted_error, finish_unstarted,
}
use assistant_runtime.Tasks.Ends.{
  is_stop, is_open_at, Step, submits, messages, starts, ends, leaves, marks, finishes, Steps,
  none_yet, and_then, update-cases, ended_for_good,
}
use assistant_runtime.Tasks.Published.{queued_open, end_values-finished, stop_finished}
use assistant_runtime.Tasks.Submits.{start_task-cases, queue_message-cases}

has_other :
    (k id : String) (jobs : Dict String (Option String))
    → (k == id) ≡ false
    → has id jobs ≡ true
    → has id (remove k jobs) ≡ true
unfolding has
has_other k id jobs d h = rw (lookup-remove k id jobs) (rw d h)

put-has :
    (k id : String) (agent : Option String) (jobs : Dict String (Option String))
    → has id jobs ≡ true
    → has id (put k agent jobs) ≡ true
put-has k id agent jobs h = rw (has-put k id agent jobs) (ground (arith, h))

pub any-keys :
    (id : String) (d : Dict String (Option String))
    → has id d ≡ true
    → any (λ k. k == id) (keys d) ≡ true
unfolding has lookup
any-keys id [] h = h
any-keys id ((k, v) ∷ d) h = elim (Bool-cases (k == id)) [
  | inl q ↦ rw q refl
  | inr q ↦ rw q (any-keys id d (rw (q, has) at h))
]

module _ {J : Type 0} where
  -- Every task that has not ended has a job.
  abbrev pub HasJobs : Runner J → Type 0
  HasJobs s =
      (id : String) (r : TaskRecord J)
      → lookup id s.store.tasks ≡ some r
      → is_finished r.status ≡ false
      → has id s.jobs ≡ true

  abbrev pub Ended : String → Runner J → Type 0
  Ended id s =
      (r : TaskRecord J) × (lookup id s.store.tasks ≡ some r) × (is_finished r.status ≡ true)

  put-lookup :
      (k j : String) (c r : TaskRecord J) (d : Dict String (TaskRecord J))
      → lookup j (put k c d) ≡ some r
      → ((k ≡ j) × (c ≡ r)) ⊎ (((k == j) ≡ false) × (lookup j d ≡ some r))
  put-lookup k j c r d h = elim (Bool-cases (k == j)) [
    | inl q ↦ inl ((==_iff k j).0 q, some-injective c r (rw (lookup-put k j c d, q) at h))
    | inr q ↦ inr (q, rw (lookup-put k j c d, q) at h)
  ]

  closed_other :
      (id j : String) (r : TaskRecord J) (t : TaskStore J)
      → is_open_at id t ≡ false
      → lookup j t.tasks ≡ some r
      → is_finished r.status ≡ false
      → (id == j) ≡ false
  closed_other id j r t closed h o = elim (Bool-cases (id == j)) [
    | inl q ↦
        let here = subst (λ i. is_open_at i t ≡ false) ((==_iff id j).0 q) closed in
        ground (arith, here, h, o)
    | inr q ↦ q
  ]

  update_end :
      (now : ℕ) (id : String) (f : TaskRecord J → TaskRecord J) (t : TaskStore J)
      → ((Store.update now id not_finished f t ≡ (none, t)) × (is_open_at id t ≡ false))
        ⊎ ((x : TaskRecord J) × (lookup id t.tasks ≡ some x)
            × (Store.update now id not_finished f t ≡ (
              some (record (f x) { updated_at = now }),
              record t { tasks = put id (record (f x) { updated_at = now }) t.tasks },
            )))
  unfolding Store.update
  update_end now id f t = elim (Option-cases (lookup id t.tasks)) [
    | inl e ↦ inl (rw (e, Store.update) refl, rw e refl)
    | inr (x, e) ↦ elim (Bool-cases (not_finished x.status)) [
      | inl g ↦ inr (x, e, rw (e, Store.update) (rw g refl))
      | inr g ↦ inl (rw (e, Store.update) (rw g refl), rw e g)
    ]
  ]

  -- A task that is open after an end was open before it, and is another one.
  update-open :
      (now : ℕ) (id j : String) (f : TaskRecord J → TaskRecord J) (t : TaskStore J)
      (r : TaskRecord J)
      → ((x : TaskRecord J) → is_finished (f x).status ≡ true)
      → lookup j (Store.update now id not_finished f t).1.tasks ≡ some r
      → is_finished r.status ≡ false
      → ((id == j) ≡ false) × (lookup j t.tasks ≡ some r)
  update-open now id j f t r fin h o = elim (update_end now id f t) [
    | inl (e, closed) ↦ let h' = rw e at h in (closed_other id j r t closed h' o, h')
    | inr (x, e, g) ↦
        elim (put-lookup id j (record (f x) { updated_at = now }) r t.tasks (rw g at h)) [
          | inl (q, same) ↦ cc (ap (λ (a : TaskRecord J). is_finished a.status) same, fin x, o)
          | inr other ↦ other
        ]
  ]

  submitted-HasJobs :
      (now : ℕ) (new : TaskRecord J) (s : Runner J)
      → HasJobs s
      → HasJobs (submit new.id none (record s { store = (Store.create now new s.store).1 }))
  unfolding Store.create submit
  submitted-HasJobs now new s h = λ id r f o.
      elim (put-lookup new.id id (record new { created_at = now; updated_at = now }) r s.store.tasks
        f) [
          | inl (q, same) ↦ rw (has-put new.id id none s.jobs) (rw ((==_iff new.id id).1 q) refl)
          | inr (d, f') ↦ put-has new.id id none s.jobs (h id r f' o)
        ]

  pub Step-HasJobs : (s t : Runner J) → Step s t → HasJobs s → HasJobs t
  unfolding Store.create submit start_turn end_turn end_unstarted mark_cancelled finish_unstarted
  Step-HasJobs s t (submits check inside profile now i n p fresh e) h =
      rw e (elim (start_task-cases check inside profile now i n p s) [
        | inl same ↦ rw same h
        | inr (new, q, own, room, g) ↦ rw g (submitted-HasJobs now new s h)
      ])
  Step-HasJobs s t (messages i agent fresh e) h = rw e (elim (queue_message-cases i agent s) [
    | inl same ↦ rw same h
    | inr (room, g) ↦ rw g (λ id r f o. put-has i id (some agent) s.jobs (h id r f o))
  ])
  Step-HasJobs s t (starts now k e) h = rw e (λ id r f o.
      elim (update-cases now k is_queued (with_start now) s.store) [
        | inl g ↦ h id r (rw g at f) o
        | inr (x, e', y, g) ↦
            elim (put-lookup k id (record (with_start now x) { updated_at = now }) r s.store.tasks
              (rw g at f)) [
                | inl (q, same) ↦
                    subst (λ i. has i s.jobs ≡ true) q (h k x e' (queued_open x.status y))
                | inr (d, f') ↦ h id r f' o
              ]
      ])
  Step-HasJobs s t (ends now k o e) h = rw e (λ id r f y.
      let f0 = end_values s.config (any (λ j. j == k) s.cancel_requested) now o in
      let (d, f') = update-open now k id f0 s.store r (end_values-finished s.config _ now o) f y in
      has_other k id s.jobs d (h id r f' y))
  Step-HasJobs s t (leaves k closed e) h =
      rw e (λ id r f o. has_other k id s.jobs (closed_other k id r s.store closed f o) (h id r f o))
  Step-HasJobs s t (marks k e) h = rw e h
  Step-HasJobs s t (finishes now k status stop e) h = rw e (elim (Bool-cases (has k s.jobs)) [
    | inl g ↦ rw g (λ id r f o.
        let (d, f') =
          update-open now k id (with_failure now status (unstarted_error status)) s.store r
            (λ x. stop_finished status stop) f o in
        has_other k id s.jobs d (h id r f' o))
    | inr g ↦ rw g h
  ])

  pub Steps-HasJobs : (s t : Runner J) → Steps s t → HasJobs s → HasJobs t
  Steps-HasJobs s _ none_yet h = h
  Steps-HasJobs s _ (and_then t u ss x) h = Step-HasJobs t u x (Steps-HasJobs s t ss h)

  -- A task that was stored stays stored.
  put-Known :
      (k id : String) (c : TaskRecord J) (d : Dict String (TaskRecord J)) (r : TaskRecord J)
      → lookup id d ≡ some r
      → (q : TaskRecord J) × (lookup id (put k c d) ≡ some q)
  put-Known k id c d r h =
      rw (lookup-put k id c d)
        (elim (Bool-cases (k == id)) [ inl q ↦ (c, rw q refl) | inr q ↦ (r, rw q h) ])

  update-Known :
      (now : ℕ) (k id : String) (only_from : TaskStatus → Bool) (f : TaskRecord J → TaskRecord J)
      (t : TaskStore J) (r : TaskRecord J)
      → lookup id t.tasks ≡ some r
      → (q : TaskRecord J) × (lookup id (Store.update now k only_from f t).1.tasks ≡ some q)
  update-Known now k id only_from f t r h = elim (update-cases now k only_from f t) [
    | inl g ↦ rw g (r, h)
    | inr (x, e, o, g) ↦ rw g (put-Known k id (record (f x) { updated_at = now }) t.tasks r h)
  ]

  pub Step-Known :
      (id : String) (s t : Runner J)
      → Step s t
      → (r : TaskRecord J) → lookup id s.store.tasks ≡ some r
      → (q : TaskRecord J) × (lookup id t.store.tasks ≡ some q)
  unfolding Store.create submit start_turn end_turn end_unstarted mark_cancelled finish_unstarted
  Step-Known id s t (submits check inside profile now i n p fresh e) r h =
      rw e (elim (start_task-cases check inside profile now i n p s) [
        | inl same ↦ rw same (r, h)
        | inr (new, q, own, room, g) ↦ rw g (put-Known new.id id _ s.store.tasks r h)
      ])
  Step-Known id s t (messages i agent fresh e) r h = rw e (elim (queue_message-cases i agent s) [
    | inl same ↦ rw same (r, h)
    | inr (room, g) ↦ rw g (r, h)
  ])
  Step-Known id s t (starts now k e) r h =
      rw e (update-Known now k id is_queued (with_start now) s.store r h)
  Step-Known id s t (ends now k o e) r h = rw e (
      update-Known now k id not_finished
        (end_values s.config (any (λ j. j == k) s.cancel_requested) now o) s.store r h)
  Step-Known id s t (leaves k closed e) r h = rw e (r, h)
  Step-Known id s t (marks k e) r h = rw e (r, h)
  Step-Known id s t (finishes now k status stop e) r h = rw e (elim (Bool-cases (has k s.jobs)) [
    | inl g ↦ rw g (
        update-Known now k id not_finished (with_failure now status (unstarted_error status))
          s.store r h)
    | inr g ↦ rw g (r, h)
  ])

  pub Steps-Known :
      (id : String) (s t : Runner J)
      → Steps s t
      → (r : TaskRecord J) → lookup id s.store.tasks ≡ some r
      → (q : TaskRecord J) × (lookup id t.store.tasks ≡ some q)
  Steps-Known id s _ none_yet r h = (r, h)
  Steps-Known id s _ (and_then t u ss x) r h =
      let (q, k) = Steps-Known id s t ss r h in Step-Known id t u x q k

  -- What `_finish_unstarted` finds has ended after it.
  pub finish-Ended :
      (now : ℕ) (id : String) (status : TaskStatus) (s : Runner J) (r : TaskRecord J)
      → is_stop status ≡ true
      → HasJobs s
      → lookup id s.store.tasks ≡ some r
      → Ended id (finish_unstarted now id status s)
  unfolding finish_unstarted Store.update
  finish-Ended now id status s r stop h e = elim (Bool-cases (is_finished r.status)) [
    | inl y ↦ (
      r,
      ended_for_good s _ id r e y (and_then s _ none_yet (finishes now id status stop refl)),
      y,
    )
    | inr o ↦ rw (h id r e o) (
        rw (e, Store.update)
          (rw o (_, lookup-put_self id _ s.store.tasks, stop_finished status stop)))
  ]
