-- ===== src/EventLog/Store.antt =====
-- src/assistant_runtime/app/event_log/_store.py: InMemoryEventStore. A transaction holds the store's one
-- lock, so its calls are one step; a copy of a record is the record. `now` is the time of the call.
use assistant_runtime.Prelude.{
  ℕ, ◌+◌, String, Bool, true, false, not, ◌&&◌, Option, none, some, List, [], ◌==◌, Dict, values,
  lookup, put, keep_if, length, take, sort_by, ltb, leb, Exec, ok, err, nat_eq, string_eq, pair_eq,
  option_eq,
}
use assistant_runtime.Base.Cursors.{ChangeCursor, admits, key_before}
use assistant_runtime.EventLog.Types.{EventRecord, EventLogError, missing_key}

pub record EventStore (J : Type 0) : Type 0 where
  pub events : Dict ℕ (EventRecord J)
  pub keys : Dict (String × String) ℕ
  pub next : ℕ

-- The filters of a list; an absent one passes every record.
pub record EventFilters : Type 0 where
  pub direction : Option String
  pub source : Option String
  pub agent : Option String
  pub kind : Option String
  pub history : Option Bool

abbrev matches_text : Option String → Option String → Bool
matches_text none value = true
matches_text (some f) value = value == some f

abbrev matches_flag : Option Bool → Bool → Bool
matches_flag none b = true
matches_flag (some true) b = b
matches_flag (some false) b = not b

abbrev pub Tx : Type 0 → Type 0 → Type 0
Tx J A = Exec (EventStore J) EventLogError A

module _ {J : Type 0} where
  abbrev pub empty : EventStore J
  empty = record { events = []; keys = []; next = 1 }

  abbrev pub key_of : EventRecord J → String × String
  key_of r = (r.source, r.event_id)

  abbrev stored : Option (EventRecord J) → Tx J (EventRecord J × Bool)
  stored none s = (err missing_key, s)
  stored (some r) s = (ok (r, false), s)

  -- The record of `new` under the next id, made now.
  abbrev pub numbered : ℕ → EventRecord J → EventStore J → EventRecord J
  numbered now new s = record new { id = s.next; created_at = now; updated_at = now }

  unfoldable pub create_if_new : ℕ → EventRecord J → Tx J (EventRecord J × Bool)
  create_if_new now new s = elim (lookup (key_of new) s.keys) [
    | some id ↦ stored (lookup id s.events) s
    | none ↦
        let r = numbered now new s in
        (
          ok (r, true),
          record s {
            events = put s.next r s.events;
            keys = put (key_of new) s.next s.keys;
            next = s.next + 1;
          },
        )
  ]

  abbrev pub get : ℕ → EventStore J → Option (EventRecord J)
  get id s = lookup id s.events

  -- `f` replaces the values.
  unfoldable pub update : ℕ → ℕ → (EventRecord J → EventRecord J) → Tx J (EventRecord J)
  update now id f s = elim (lookup id s.events) [
    | none ↦ (err missing_key, s)
    | some r ↦
        let changed = record (f r) { updated_at = now } in
        (ok changed, record s { events = put id changed s.events })
  ]

  abbrev matches_event : EventFilters → EventRecord J → Bool
  matches_event f r =
      matches_text f.direction (some r.direction)
      && matches_text f.source (some r.source)
      && matches_text f.agent r.agent
      && matches_text f.kind (some r.kind)
      && matches_flag f.history r.history

  abbrev changed_since : Option (ChangeCursor ℕ) → List (EventRecord J) → List (EventRecord J)
  changed_since none rs = sort_by (λ a b. ltb a.id b.id) rs
  changed_since (some c) rs =
      sort_by (λ a b. key_before ltb (a.updated_at, a.id) (b.updated_at, b.id))
        (keep_if (λ r. admits ltb c (some r.updated_at) r.id) rs)

  unfoldable pub list_events :
      ℕ → ℕ → Option (ChangeCursor ℕ) → EventFilters → EventStore J → List (EventRecord J)
  list_events after limit updated_after f s = take limit (
      changed_since updated_after
        (keep_if (λ r. ltb after r.id && matches_event f r) (values s.events)))

  unfoldable pub count_created : ℕ → ℕ → EventStore J → ℕ
  count_created start end s =
      length (keep_if (λ r. leb start r.created_at && ltb r.created_at end) (values s.events))
