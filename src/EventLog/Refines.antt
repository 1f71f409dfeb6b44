-- ===== src/EventLog/Refines.antt =====
-- One request to the event log alone (event_log/interface.py: record) is a sequence of the steps of
-- concurrent requests.
use assistant_runtime.Prelude.{
  ℕ, ◌≡◌, refl, inl, inr, String, Bool, true, false, Option, none, some, List, [], ◌∷◌, Result, ok,
  err, continue, pure, raise, raise_if, ◌>>=◌, ◌>>◌, string_eq, Option-cases,
}
use mathlib.Core.Path.{subst}
use assistant_runtime.EventLog.Types.{EventRecord, EventLogError}
use assistant_runtime.EventLog.Store
use assistant_runtime.EventLog.Store.{EventStore, Tx}
use assistant_runtime.EventLog.Service.{
  Ingress, EventLog, NewEvent, M, event_record, to_deliver, claim, steer, with_delivery,
  transaction, deliver, deliver_if, record_event,
}
use assistant_runtime.EventLog.Writes.{written, claim-cases}
use assistant_runtime.EventLog.Service.{begin_delivery}
use assistant_runtime.EventLog.Requests.{
  System, stores, claims, steers, fails, notes, Steps, none_yet, and_then, enqueue, enqueue_to,
  steered, not_steered, noted,
}

module _ {J : Type 0} where
  -- The log between requests, after some calls of ingress.
  abbrev pub quiet : EventStore J → List ℕ → System J
  quiet t calls = record { store = t; waiting = []; claimed = []; ended = []; calls = calls }

  -- Every request that the method makes alone leads to a log between requests.
  abbrev pub Reaches : System J → EventLog J → Type 0
  Reaches from s =
      (t : EventStore J) × (calls : List ℕ) × (s.store ≡ some t) × Steps from (quiet t calls)

  transaction-some :
      {A : Type 0} (m : Tx J A) (s : EventLog J) (t : EventStore J)
      → s.store ≡ some t
      → transaction m s ≡ ((m t).0, record s { store = some (m t).1 })
  unfolding transaction
  transaction-some m s t h = rw (h, transaction) refl

  -- A request that has claimed the event calls ingress, if there is one, and notes how it went.
  noted-Reaches :
      (now : ℕ) (i : Option Ingress) (r : EventRecord J) (target : String) (from : System J)
      (s : EventLog J) (t : EventStore J) (calls : List ℕ)
      → s.store ≡ some t
      → Steps from (record (quiet t calls) { claimed = (r, target) ∷ [] })
      → Reaches from
          (transaction (Store.update now r.id (with_delivery now (steer i r target))) s).1
  noted-Reaches now none r target from s t calls h ss =
      let claimed = record (quiet t calls) { claimed = (r, target) ∷ [] } in
      let u = not_steered (r, target) [] claimed in
      let v = noted now (r.id, steer none r target) [] u in
      rw (transaction-some (Store.update now r.id (with_delivery now (steer none r target))) s t h)
        (
          v.store,
          calls,
          refl,
          and_then u v (and_then claimed u ss (fails [] [] (r, target) refl refl))
              (notes now [] [] (r.id, steer none r target) refl refl),
        )
  noted-Reaches now (some i) r target from s t calls h ss =
      let claimed = record (quiet t calls) { claimed = (r, target) ∷ [] } in
      let u = steered i (r, target) [] claimed in
      let v = noted now (r.id, steer (some i) r target) [] u in
      rw
        (transaction-some (Store.update now r.id (with_delivery now (steer (some i) r target))) s t
          h)
        (
          v.store,
          r.id ∷ calls,
          refl,
          and_then u v (and_then claimed u ss (steers i [] [] (r, target) refl refl))
              (notes now [] [] (r.id, steer (some i) r target) refl refl),
        )

  deliver-Reaches :
      (now : ℕ) (r : EventRecord J) (target : String) (from : System J) (s : EventLog J)
      (t : EventStore J) (calls : List ℕ)
      → s.store ≡ some t
      → Steps from (record (quiet t calls) { waiting = (r, target) ∷ [] })
      → Reaches from (deliver now r target s).1
  unfolding deliver ◌>>=◌ pure
  deliver-Reaches now r target from s t calls h ss =
      let asked = record (quiet t calls) { waiting = (r, target) ∷ [] } in
      elim (claim-cases now r target t) [
        | inl (c, e) ↦
            rw (transaction-some (claim now r target) s t h, deliver)
              (rw e (
                t,
                calls,
                refl,
                and_then asked (quiet t calls) ss (claims now [] [] (r, target) refl (rw e refl)),
              ))
        | inr (c, f, d, e) ↦
            let begun_store = written now r.id (begin_delivery target c) t in
            let begun_system = record (quiet begun_store calls) { claimed = (r, target) ∷ [] } in
            rw (transaction-some (claim now r target) s t h, deliver)
              (rw e (
                noted-Reaches now s.ingress r target from (record s { store = some begun_store })
                  begun_store calls refl
                  (and_then asked begun_system ss (claims now [] [] (r, target) refl (rw e refl)))))
      ]

  deliver_if-Reaches :
      (now : ℕ) (r : EventRecord J) (created : Bool) (from : System J) (s : EventLog J)
      (t : EventStore J) (calls : List ℕ)
      → s.store ≡ some t
      → Steps from (record (quiet t calls) { waiting = enqueue (ok (r, created)) [] })
      → Reaches from (deliver_if now r (to_deliver r) s).1
  unfolding pure
  deliver_if-Reaches now r created from s t calls h ss = elim (Option-cases (to_deliver r)) [
    | inl e ↦ rw e (
      t,
      calls,
      h,
      subst (λ o. Steps from (record (quiet t calls) { waiting = enqueue_to r o [] })) e ss,
    )
    | inr (target, e) ↦ rw e (
        deliver-Reaches now r target from s t calls h
          (subst (λ o. Steps from (record (quiet t calls) { waiting = enqueue_to r o [] })) e ss))
  ]

  guarded-Reaches :
      {A : Type 0} (b : Bool) (e : EventLogError) (m : M J A) (from : System J) (s : EventLog J)
      → Reaches from s
      → Reaches from (m s).1
      → Reaches from ((raise_if b e >> m) s).1
  unfolding ◌>>=◌ raise_if raise pure
  guarded-Reaches true e m from s h k = h
  guarded-Reaches false e m from s h k = k

  returned-Reaches :
      {A B : Type 0} (m : M J A) (g : A → B) (from : System J) (s : EventLog J)
      → Reaches from (m s).1
      → Reaches from ((m >>= λ a. pure (g a)) s).1
  unfolding ◌>>=◌ pure
  returned-Reaches {A} {B} m g from s h = go (m s) h
    where
      go :
          (x : Result EventLogError A × EventLog J)
          → Reaches from x.1
          → Reaches from (continue x.0 (λ a. pure (g a)) x.1).1
      go (ok a, u) k = k
      go (err e, u) k = k

  -- What `record` does once the event is stored.
  abbrev delivered_with : ℕ → EventRecord J → Bool → M J (EventRecord J × Bool)
  delivered_with now r created = do r' ← deliver_if now r (to_deliver r); pure (r', created)

  stored-Reaches :
      (now : ℕ) (n : NewEvent J) (s : EventLog J) (t : EventStore J) (calls : List ℕ)
      → s.store ≡ some t
      → Reaches
          (quiet t calls)
          ((transaction (Store.create_if_new now (event_record n)) >>= λ x.
              delivered_with now x.0 x.1)
            s).1
  unfolding ◌>>=◌
  stored-Reaches now n s t calls h =
      rw (transaction-some (Store.create_if_new now (event_record n)) s t h)
        (go (Store.create_if_new now (event_record n) t) refl)
    where
      go :
          (x : Result EventLogError (EventRecord J × Bool) × EventStore J)
          → Store.create_if_new now (event_record n) t ≡ x
          → Reaches
              (quiet t calls)
              (continue x.0 (λ y. delivered_with now y.0 y.1) (record s { store = some x.1 })).1
      go (err e, u) q = (
        u,
        calls,
        refl,
        and_then (quiet t calls) (quiet u calls) none_yet (stores now n (rw q refl)),
      )
      go (ok (r, created), u) q =
          returned-Reaches (deliver_if now r (to_deliver r)) (λ r'. (r', created)) (quiet t calls)
            (record s { store = some u })
            (deliver_if-Reaches now r created (quiet t calls) (record s { store = some u }) u calls
              refl
              (and_then (quiet t calls)
                (record (quiet u calls) { waiting = enqueue (ok (r, created)) [] }) none_yet
                (stores now n (rw q refl))))

  -- A request that runs alone on a started log, whether or not it raises, has the effect of some steps of
  -- concurrent requests that leave none under way.
  pub record_event-Reaches :
      (now : ℕ) (n : NewEvent J) (s : EventLog J) (t : EventStore J) (calls : List ℕ)
      → s.store ≡ some t
      → Reaches (quiet t calls) (record_event now n s).1
  unfolding record_event
  record_event-Reaches now n s t calls h =
      let here : Reaches (quiet t calls) s = (t, calls, h, none_yet) in
      guarded-Reaches _ _ _ _ s here (
        guarded-Reaches _ _ _ _ s here
          (guarded-Reaches _ _ _ _ s here (stored-Reaches now n s t calls h)))
