-- ===== src/EventLog/Writes.antt =====
-- What the transactions of the event log (_store.py, interface.py) can write, and what no write changes.
use assistant_runtime.Prelude.{
  ℕ, ◌+◌, ◌≡◌, refl, ◌⊎◌, inl, inr, String, Bool, true, false, Option, none, some, ◌==◌, ==_iff,
  lookup, put, ok, pure, raise, raise_if, gets, ◌>>=◌, nat_eq, string_eq, option_eq, pair_eq,
  Bool-cases, Option-cases,
}
use assistant_runtime.EventLog.Types.{Delivery, EventRecord, notice_order, order_below}
use assistant_runtime.EventLog.Store
use assistant_runtime.EventLog.Store.{EventStore, numbered, key_of}
use assistant_runtime.EventLog.Service.{
  claim, claim_found, with_delivery, begin_delivery, moved_notice, update_notice_tx, move_found,
}

module _ {J : Type 0} where
  -- The store with the event `r` written under its id.
  abbrev pub written : ℕ → ℕ → EventRecord J → EventStore J → EventStore J
  written now id r s = record s { events = put id (record r { updated_at = now }) s.events }

  abbrev pub with_new : ℕ → EventRecord J → EventStore J → EventStore J
  with_new now new s = record s {
    events = put s.next (numbered now new s) s.events;
    keys = put (key_of new) s.next s.keys;
    next = s.next + 1;
  }

  -- What one transaction does to the store.
  pub data Write (s t : EventStore J) : Type 0 where
    keeps : t ≡ s → Write s t
    adds :
        (now : ℕ) (new : EventRecord J)
        → lookup (key_of new) s.keys ≡ none
        → t ≡ with_new now new s
        → Write s t
    begins :
        (now id : ℕ) (target : String) (r : EventRecord J)
        → lookup id s.events ≡ some r
        → t ≡ written now id (begin_delivery target r) s
        → Write s t
    ends :
        (now id : ℕ) (d : Delivery) (r : EventRecord J)
        → lookup id s.events ≡ some r
        → t ≡ written now id (with_delivery now d r) s
        → Write s t
    moves :
        (now id : ℕ) (status : String) (r : EventRecord J)
        → lookup id s.events ≡ some r
        → r.direction ≡ "outbound"
        → order_below (notice_order status) (notice_order r.status) ≡ some false
        → t ≡ written now id (moved_notice now status r) s
        → Write s t

  pub create_if_new-Write :
      (now : ℕ) (new : EventRecord J) (s : EventStore J) → Write s (Store.create_if_new now new s).1
  unfolding Store.create_if_new
  create_if_new-Write now new s = elim (Option-cases (lookup (key_of new) s.keys)) [
    | inl e ↦ rw (e, Store.create_if_new) (adds now new e refl)
    | inr (id, e) ↦ elim (Option-cases (lookup id s.events)) [
      | inl f ↦ rw (e, Store.create_if_new) (rw f (keeps refl))
      | inr (r, f) ↦ rw (e, Store.create_if_new) (rw f (keeps refl))
    ]
  ]

  -- A claim leaves the store as it is and returns a record, or begins the delivery of an event that had
  -- none and returns nothing.
  pub claim-cases :
      (now : ℕ) (r : EventRecord J) (target : String) (s : EventStore J)
      → ((c : EventRecord J) × (claim now r target s ≡ (ok (some c), s)))
        ⊎ ((c : EventRecord J) × (lookup r.id s.events ≡ some c)
            × (c.delivery ≡ none)
            × (claim now r target s ≡ (ok none, written now r.id (begin_delivery target c) s)))
  unfolding claim Store.update ◌>>=◌ raise pure gets
  claim-cases now r target s = elim (Option-cases (lookup r.id s.events)) [
    | inl e ↦ inl (r, rw (e, claim) refl)
    | inr (c, e) ↦ elim (Option-cases c.delivery) [
      | inl f ↦ inr (c, e, f, rw (e, claim) (rw (f, claim_found) (rw (e, Store.update) refl)))
      | inr (d, f) ↦ inl (c, rw (e, claim) (rw (f, claim_found) refl))
    ]
  ]

  pub claim-Write :
      (now : ℕ) (r : EventRecord J) (target : String) (s : EventStore J)
      → Write s (claim now r target s).1
  claim-Write now r target s = elim (claim-cases now r target s) [
    | inl (c, e) ↦ rw e (keeps refl)
    | inr (c, e, f, g) ↦ rw g (begins now r.id target c e refl)
  ]

  pub end-Write :
      (now id : ℕ) (d : Delivery) (s : EventStore J)
      → Write s (Store.update now id (with_delivery now d) s).1
  unfolding Store.update
  end-Write now id d s = elim (Option-cases (lookup id s.events)) [
    | inl e ↦ rw (e, Store.update) (keeps refl)
    | inr (r, e) ↦ rw (e, Store.update) (ends now id d r e refl)
  ]

  move_found-Write :
      (now id : ℕ) (status : String) (r : EventRecord J) (o : Option Bool) (s : EventStore J)
      → lookup id s.events ≡ some r
      → r.direction ≡ "outbound"
      → order_below (notice_order status) (notice_order r.status) ≡ o
      → Write s (move_found now id status r o s).1
  unfolding raise pure Store.update
  move_found-Write now id status r none s e f g = keeps refl
  move_found-Write now id status r (some true) s e f g = keeps refl
  move_found-Write now id status r (some false) s e f g = elim (Bool-cases (status == r.status)) [
    | inl h ↦ rw h (keeps refl)
    | inr h ↦ rw h (rw (e, Store.update) (moves now id status r e f g refl))
  ]

  pub update_notice_tx-Write :
      (now id : ℕ) (status : String) (s : EventStore J)
      → Write s (update_notice_tx now id status s).1
  unfolding update_notice_tx Store.update ◌>>=◌ raise_if raise pure gets
  update_notice_tx-Write now id status s = elim (Option-cases (lookup id s.events)) [
    | inl e ↦ rw (e, update_notice_tx) (keeps refl)
    | inr (r, e) ↦ elim (Bool-cases (r.direction == "outbound")) [
      | inr f ↦ rw (e, update_notice_tx) (rw f (keeps refl))
      | inl f ↦
          rw (e, update_notice_tx)
            (rw f
              (move_found-Write now id status r _ s e ((==_iff r.direction "outbound").0 f) refl))
    ]
  ]
