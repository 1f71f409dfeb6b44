-- ===== src/EventLog/Requests.antt =====
-- Concurrent requests to the event log (interface.py): each call of `record` is a transaction that stores
-- the event, one that claims its delivery, the call of ingress and one that writes how it ended; between
-- them other requests run, and a request that is cancelled stops where it is.
use assistant_runtime.Prelude.{
  ℕ, ◌≡◌, String, Bool, Option, none, some, List, [], ◌∷◌, ◌++◌, Result, ok, err,
}
use assistant_runtime.EventLog.Types.{Delivery, EventRecord, EventLogError}
use assistant_runtime.EventLog.Store
use assistant_runtime.EventLog.Store.{EventStore, empty}
use assistant_runtime.EventLog.Service.{
  Ingress, NewEvent, event_record, to_deliver, claim, steer, with_delivery, update_notice_tx,
}

-- The store with the requests that are under way: those that found an event to deliver, those that claimed
-- it, and those whose call of ingress ended; `calls` are the events for which ingress was called.
pub record System (J : Type 0) : Type 0 where
  pub store : EventStore J
  pub waiting : List (EventRecord J × String)
  pub claimed : List (EventRecord J × String)
  pub ended : List (ℕ × Delivery)
  pub calls : List ℕ

module _ {J : Type 0} where
  abbrev pub idle : System J
  idle = record { store = empty; waiting = []; claimed = []; ended = []; calls = [] }

  abbrev pub enqueue_to :
      EventRecord J → Option String → List (EventRecord J × String) → List (EventRecord J × String)
  enqueue_to r none ws = ws
  enqueue_to r (some target) ws = (r, target) ∷ ws

  abbrev pub enqueue :
      Result EventLogError (EventRecord J × Bool)
      → List (EventRecord J × String)
      → List (EventRecord J × String)
  enqueue (ok (r, created)) ws = enqueue_to r (to_deliver r) ws
  enqueue (err e) ws = ws

  abbrev pub take_up :
      Result EventLogError (Option (EventRecord J))
      → EventRecord J × String
      → List (EventRecord J × String)
      → List (EventRecord J × String)
  take_up (ok none) w cs = w ∷ cs
  take_up _ w cs = cs

  abbrev pub stored : ℕ → NewEvent J → System J → System J
  stored now n s =
      let (r, t) = Store.create_if_new now (event_record n) s.store in
      record s { store = t; waiting = enqueue r s.waiting }

  abbrev pub claimed_by :
      ℕ → EventRecord J × String → List (EventRecord J × String) → System J → System J
  claimed_by now (r, target) others s =
      let (c, t) = claim now r target s.store in
      record s { store = t; waiting = others; claimed = take_up c (r, target) s.claimed }

  abbrev pub steered :
      Ingress → EventRecord J × String → List (EventRecord J × String) → System J → System J
  steered ingress (r, target) others s = record s {
    claimed = others;
    ended = (r.id, steer (some ingress) r target) ∷ s.ended;
    calls = r.id ∷ s.calls;
  }

  -- Without an ingress service nothing is called.
  abbrev pub not_steered :
      EventRecord J × String → List (EventRecord J × String) → System J → System J
  not_steered (r, target) others s = record s {
    claimed = others;
    ended = (r.id, steer none r target) ∷ s.ended;
  }

  abbrev pub noted : ℕ → ℕ × Delivery → List (ℕ × Delivery) → System J → System J
  noted now (id, d) others s = record s {
    store = (Store.update now id (with_delivery now d) s.store).1;
    ended = others;
  }

  abbrev pub told : ℕ → ℕ → String → System J → System J
  told now id status s = record s { store = (update_notice_tx now id status s.store).1 }

  pub data Step (s t : System J) : Type 0 where
    stores : (now : ℕ) (n : NewEvent J) → t ≡ stored now n s → Step s t
    claims :
        (now : ℕ) (pre post : List (EventRecord J × String)) (w : EventRecord J × String)
        → s.waiting ≡ pre ++ w ∷ post
        → t ≡ claimed_by now w (pre ++ post) s
        → Step s t
    steers :
        (ingress : Ingress) (pre post : List (EventRecord J × String)) (w : EventRecord J × String)
        → s.claimed ≡ pre ++ w ∷ post
        → t ≡ steered ingress w (pre ++ post) s
        → Step s t
    fails :
        (pre post : List (EventRecord J × String)) (w : EventRecord J × String)
        → s.claimed ≡ pre ++ w ∷ post
        → t ≡ not_steered w (pre ++ post) s
        → Step s t
    notes :
        (now : ℕ) (pre post : List (ℕ × Delivery)) (w : ℕ × Delivery)
        → s.ended ≡ pre ++ w ∷ post
        → t ≡ noted now w (pre ++ post) s
        → Step s t
    moves_notice : (now id : ℕ) (status : String) → t ≡ told now id status s → Step s t
    -- A request is cancelled.
    stops_waiting :
        (pre post : List (EventRecord J × String)) (w : EventRecord J × String)
        → s.waiting ≡ pre ++ w ∷ post
        → t ≡ record s { waiting = pre ++ post }
        → Step s t
    stops_claimed :
        (pre post : List (EventRecord J × String)) (w : EventRecord J × String)
        → s.claimed ≡ pre ++ w ∷ post
        → t ≡ record s { claimed = pre ++ post }
        → Step s t
    stops_ended :
        (pre post : List (ℕ × Delivery)) (w : ℕ × Delivery)
        → s.ended ≡ pre ++ w ∷ post
        → t ≡ record s { ended = pre ++ post }
        → Step s t

  pub data Steps (s : System J) : System J → Type 0 where
    none_yet : Steps s s
    and_then : (t u : System J) → Steps s t → Step t u → Steps s u
