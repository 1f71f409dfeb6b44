-- ===== src/EventLog/Repeats.antt =====
-- An event is stored once per source and event id (event_log/_store.py: create_if_new).
use assistant_runtime.Prelude.{
  ℕ, ◌<◌, ◌≡◌, refl, sym, ◌∙◌, inl, inr, false, none, some, ◌==◌, ==_iff, lookup, lookup-put, ok,
  arith, nat_eq, string_eq, option_eq, pair_eq, Bool-cases,
}
use mathlib.Core.Path.{subst}
use mathlib.Core.Option.{some-injective}
use assistant_runtime.EventLog.Types.{Delivery, begun, delivered, failed, EventRecord}
use assistant_runtime.EventLog.Store
use assistant_runtime.EventLog.Store.{EventStore, numbered, key_of}
use assistant_runtime.EventLog.Service.{event_record, with_delivery, begin_delivery, moved_notice}
use assistant_runtime.EventLog.Writes.{
  Write, keeps, adds, begins, ends, moves, written, create_if_new-Write, claim-Write, end-Write,
  update_notice_tx-Write,
}
use assistant_runtime.EventLog.Requests.{
  System, Step, stores, claims, steers, fails, notes, moves_notice, stops_waiting, stops_claimed,
  stops_ended, Steps, none_yet, and_then,
}

-- What never changes of an event.
abbrev pub SameEvent : {J : Type 0} → EventRecord J → EventRecord J → Type 0
SameEvent a b =
    (b.id ≡ a.id)
    × (b.created_at ≡ a.created_at)
    × (b.occurred_at ≡ a.occurred_at)
    × (b.source ≡ a.source)
    × (b.event_id ≡ a.event_id)
    × (b.direction ≡ a.direction)
    × (b.kind ≡ a.kind)
    × (b.severity ≡ a.severity)
    × (b.history ≡ a.history)
    × (b.agent ≡ a.agent)
    × (b.summary ≡ a.summary)
    × (b.payload ≡ a.payload)
    × (b.target_session_id ≡ a.target_session_id)

module _ {J : Type 0} where
  SameEvent-refl : (a : EventRecord J) → SameEvent a a
  SameEvent-refl a = (refl, refl, refl, refl, refl, refl, refl, refl, refl, refl, refl, refl, refl)

  SameEvent-trans : (a b c : EventRecord J) → SameEvent a b → SameEvent b c → SameEvent a c
  SameEvent-trans a b c e f = (
    f.0 ∙ e.0,
    f.1 ∙ e.1,
    f.2 ∙ e.2,
    f.3 ∙ e.3,
    f.4 ∙ e.4,
    f.5 ∙ e.5,
    f.6 ∙ e.6,
    f.7 ∙ e.7,
    f.8 ∙ e.8,
    f.9 ∙ e.9,
    f.10 ∙ e.10,
    f.11 ∙ e.11,
    f.12 ∙ e.12,
  )

  with_delivery-SameEvent :
      (now at : ℕ) (d : Delivery) (r : EventRecord J)
      → SameEvent r (record (with_delivery now d r) { updated_at = at })
  with_delivery-SameEvent now at (begun target) r = SameEvent-refl r
  with_delivery-SameEvent now at (delivered target how) r = SameEvent-refl r
  with_delivery-SameEvent now at (failed target error) r = SameEvent-refl r

  -- The event `a` is stored under its number and its key, perhaps in a later state.
  abbrev Stored : ℕ → EventRecord J → EventStore J → Type 0
  Stored id a s =
      (id < s.next)
      × (lookup (key_of a) s.keys ≡ some id)
      × (r : EventRecord J) × (lookup id s.events ≡ some r)
      × SameEvent a r

  rewrite-Stored :
      (now id j : ℕ) (a r r' : EventRecord J) (s : EventStore J)
      → lookup j s.events ≡ some r
      → SameEvent r (record r' { updated_at = now })
      → Stored id a s
      → Stored id a (written now j r' s)
  rewrite-Stored now id j a r r' s e f (lt, k, b, g, h) = elim (Bool-cases (j == id)) [
    | inl q ↦
        let here = subst (λ i. lookup i s.events ≡ some r) ((==_iff j id).0 q) e in
        let same : b ≡ r = some-injective b r (sym g ∙ here) in
        (
          lt,
          k,
          record r' { updated_at = now },
          rw (lookup-put j id (record r' { updated_at = now }) s.events) (rw q refl),
          SameEvent-trans a r (record r' { updated_at = now }) (subst (λ x. SameEvent a x) same h)
              f,
        )
    | inr q ↦ (lt, k, b, rw (lookup-put j id (record r' { updated_at = now }) s.events) (rw q g), h)
  ]

  Write-Stored :
      (id : ℕ) (a : EventRecord J) (s t : EventStore J) → Write s t → Stored id a s → Stored id a t
  Write-Stored id a s t (keeps e) h = rw e h
  Write-Stored id a s t (adds now new g e) (lt, k, b, f, h) = rw e (
    omega (arith, lt),
    elim (Bool-cases (key_of new == key_of a)) [
      | inl q ↦ cc (subst (λ i. lookup i s.keys ≡ none) ((==_iff (key_of new) (key_of a)).0 q) g, k)
      | inr q ↦ rw (lookup-put (key_of new) (key_of a) s.next s.keys) (rw q k)
    ],
    b,
    rw (lookup-put s.next id (numbered now new s) s.events) (ground (arith, lt, f)),
    h,
  )
  Write-Stored id a s t (begins now j target r g e) h =
      rw e (rewrite-Stored now id j a r (begin_delivery target r) s g (SameEvent-refl r) h)
  Write-Stored id a s t (ends now j d r g e) h = rw e (
      rewrite-Stored now id j a r (with_delivery now d r) s g (with_delivery-SameEvent now now d r)
        h)
  Write-Stored id a s t (moves now j status r g out o e) h =
      rw e (rewrite-Stored now id j a r (moved_notice now status r) s g (SameEvent-refl r) h)

  pub Step-Write : (s t : System J) → Step s t → Write s.store t.store
  Step-Write s t (stores now n e) = rw e (create_if_new-Write now (event_record n) s.store)
  Step-Write s t (claims now pre post (r, target) k e) = rw e (claim-Write now r target s.store)
  Step-Write s t (steers ingress pre post (r, target) k e) = rw e (keeps refl)
  Step-Write s t (fails pre post (r, target) k e) = rw e (keeps refl)
  Step-Write s t (notes now pre post (i, d) k e) = rw e (end-Write now i d s.store)
  Step-Write s t (moves_notice now i status e) = rw e (update_notice_tx-Write now i status s.store)
  Step-Write s t (stops_waiting pre post w k e) = rw e (keeps refl)
  Step-Write s t (stops_claimed pre post w k e) = rw e (keeps refl)
  Step-Write s t (stops_ended pre post w k e) = rw e (keeps refl)

  Steps-Stored :
      (id : ℕ) (a : EventRecord J) (s t : System J)
      → Steps s t
      → Stored id a s.store
      → Stored id a t.store
  Steps-Stored id a s _ none_yet h = h
  Steps-Stored id a s _ (and_then t u ss x) h =
      Write-Stored id a t.store u.store (Step-Write t u x) (Steps-Stored id a s t ss h)

  -- Once an event is stored, and however concurrent requests run on, storing one with the same source and
  -- event id changes nothing and returns the stored event, not as a new one: the same number, and all that
  -- was recorded.
  pub stored_once :
      (s t : System J) (id now : ℕ) (a new : EventRecord J)
      → id < s.store.next
      → lookup (key_of a) s.store.keys ≡ some id
      → lookup id s.store.events ≡ some a
      → Steps s t
      → key_of new ≡ key_of a
      → (b : EventRecord J) × (Store.create_if_new now new t.store ≡ (ok (b, false), t.store))
        × SameEvent a b
  unfolding Store.create_if_new
  stored_once s t id now a new lt k e ss same =
      let (lt', k', b, f, h) = Steps-Stored id a s t ss (lt, k, a, e, SameEvent-refl a) in
      (b, rw (same, k', Store.create_if_new) (rw f refl), h)
