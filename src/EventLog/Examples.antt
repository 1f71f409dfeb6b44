-- ===== src/EventLog/Examples.antt =====
-- Two requests that post the same event at once, and an ingress that accepts it.
use assistant_runtime.Prelude.{
  occurrences, ℕ, ◌≤◌, ◌≡◌, refl, String, false, ◌>>=◌, raise, pure, gets, none, some, [], ◌∷◌,
  lookup, ok, put, arith, nat_eq, string_eq, pair_eq,
}
use assistant_runtime.EventLog.Types.{EventRecord}
use assistant_runtime.EventLog.Store
use assistant_runtime.EventLog.Store.{EventStore, key_of}
use assistant_runtime.EventLog.Service.{Ingress, NewEvent, event_record, claim}
use assistant_runtime.EventLog.Requests.{
  System, idle, stores, claims, steers, Steps, none_yet, and_then, stored, claimed_by, steered,
}
use assistant_runtime.EventLog.Once.{delivered_at_most_once}
use assistant_runtime.EventLog.Service.{EventLog, record_event}
use assistant_runtime.EventLog.Refines.{Reaches, quiet, record_event-Reaches}
use assistant_runtime.EventLog.Repeats.{SameEvent, stored_once}

abbrev mail : NewEvent String
mail = record {
  event_id = "m1";
  direction = "inbound";
  source = "crm";
  kind = "mail";
  severity = "warning";
  agent = none;
  summary = "A reply";
  payload = none;
  target_session_id = some "s1";
  history = false;
  occurred_at = none;
}

abbrev accepting : Ingress
accepting c = ok (record { status = some "delivered"; delivery = some "queued" })

abbrev event : ℕ → EventRecord String
event at = record (event_record mail) { id = 1; created_at = at; updated_at = at }

-- Both requests stored the event, the first one claimed it and called ingress.
abbrev both_stored : System String
both_stored = stored 6 mail (stored 5 mail idle)

abbrev first_claimed : System String
first_claimed = claimed_by 7 (event 5, "s1") ((event 5, "s1") ∷ []) both_stored

abbrev first_steered : System String
first_steered = steered accepting (event 5, "s1") [] first_claimed

abbrev second_claimed : System String
second_claimed = claimed_by 8 (event 5, "s1") [] first_steered

history : Steps idle second_claimed
unfolding Store.create_if_new Store.update claim lookup put ◌>>=◌ raise pure gets
history =
    and_then first_steered second_claimed
      (and_then first_claimed first_steered
        (and_then both_stored first_claimed
          (and_then (stored 5 mail idle) both_stored
            (and_then idle (stored 5 mail idle) none_yet (stores 5 mail refl)) (stores 6 mail refl))
          (claims 7 [] ((event 5, "s1") ∷ []) (event 5, "s1") refl refl))
        (steers accepting [] [] (event 5, "s1") refl refl))
      (claims 8 [] [] (event 5, "s1") refl refl)

delivered_at_most_once_example : occurrences 1 second_claimed.calls ≤ 1
delivered_at_most_once_example = delivered_at_most_once second_claimed history 1

abbrev log : System String
log = record {
  store = record { events = (1, event 5) ∷ []; keys = (("crm", "m1"), 1) ∷ []; next = 2 };
  waiting = (event 5, "s1") ∷ [];
  claimed = [];
  ended = [];
  calls = [];
}

log_claimed : Steps log (claimed_by 7 (event 5, "s1") [] log)
log_claimed =
    and_then log (claimed_by 7 (event 5, "s1") [] log) none_yet
      (claims 7 [] [] (event 5, "s1") refl refl)

stored_once_example :
    (b : EventRecord String) × (Store.create_if_new 9
        (event_record mail)
        (claimed_by 7 (event 5, "s1") [] log).store
      ≡ (ok (b, false), (claimed_by 7 (event 5, "s1") [] log).store))
    × SameEvent (event 5) b
unfolding lookup
stored_once_example =
    stored_once log (claimed_by 7 (event 5, "s1") [] log) 1 9 (event 5) (event_record mail)
      (omega arith) refl refl log_claimed refl

abbrev service : EventLog String
service = record { max_page = 100; ingress = some accepting; store = some Store.empty }

record_event-Reaches_example : Reaches (quiet Store.empty []) (record_event 5 mail service).1
record_event-Reaches_example = record_event-Reaches 5 mail service Store.empty [] refl
