-- ===== src/Actions/Store.antt =====
-- src/assistant_runtime/services/actions/_store.py: InMemoryActionStore. A transaction holds the store's
-- one lock, so its calls are one step; a copy of a record is the record. `now` is the time of the call.
use assistant_runtime.Prelude.{
  ℕ, ◌+◌, String, Bool, true, false, not, ◌&&◌, Option, none, some, List, [], ◌==◌, Dict, values,
  lookup, has, put, is_some, keep_if, length, take, sort_by, ltb, leb, nat_eq, string_eq, option_eq,
  if◌then◌else◌,
}
use assistant_runtime.Base.Cursors.{ChangeCursor, admits, key_before}
use assistant_runtime.Actions.Types.{ActionRecord, ConfirmationRecord}

pub record ActionStore (J : Type 0) : Type 0 where
  pub actions : Dict ℕ (ActionRecord J)
  pub confirmations : Dict String (ConfirmationRecord J)
  pub next_action : ℕ
  pub next_seq : ℕ

-- The filters of a list; an absent one passes every record.
pub record ActionFilters : Type 0 where
  pub status : Option String
  pub kind : Option String
  pub profile : Option String
  pub subject : Option String

pub record ConfirmationFilters : Type 0 where
  pub action_id : Option ℕ
  pub status : Option String
  pub sender : Option String
  pub audience : Option String
  pub signed : Option Bool
  pub reconciled : Option Bool

abbrev matches_text : Option String → Option String → Bool
matches_text none value = true
matches_text (some f) value = value == some f

abbrev matches_number : Option ℕ → ℕ → Bool
matches_number none value = true
matches_number (some f) value = value == f

abbrev matches_flag : Option Bool → Bool → Bool
matches_flag none b = true
matches_flag (some true) b = b
matches_flag (some false) b = not b

abbrev older_than : Option ℕ → ℕ → Bool
older_than none id = true
older_than (some before) id = ltb id before

module _ {J : Type 0} where
  abbrev pub empty : ActionStore J
  empty = record { actions = []; confirmations = []; next_action = 1; next_seq = 1 }

  -- The record of `new` under the next id, made now.
  unfoldable pub create_action : ℕ → ActionRecord J → ActionStore J → ActionRecord J × ActionStore J
  create_action now new s =
      let r = record new { id = s.next_action; created_at = now; updated_at = now } in
      (r, record s { actions = put s.next_action r s.actions; next_action = s.next_action + 1 })

  abbrev pub get_action : ℕ → ActionStore J → Option (ActionRecord J)
  get_action id s = lookup id s.actions

  -- `changed` is the record with the values replaced.
  unfoldable pub update_action :
      ℕ → ℕ → ActionRecord J → ActionStore J → ActionRecord J × ActionStore J
  update_action now id changed s =
      let r = record changed { updated_at = now } in (r, record s { actions = put id r s.actions })

  abbrev matches_action : ActionFilters → ActionRecord J → Bool
  matches_action f r =
      matches_text f.status (some r.status)
      && matches_text f.kind (some r.kind)
      && matches_text f.profile r.profile
      && matches_text f.subject r.subject

  abbrev changed_since : Option (ChangeCursor ℕ) → List (ActionRecord J) → List (ActionRecord J)
  changed_since none rs = sort_by (λ a b. ltb b.id a.id) rs
  changed_since (some c) rs =
      sort_by (λ a b. key_before ltb (a.updated_at, a.id) (b.updated_at, b.id))
        (keep_if (λ r. admits ltb c (some r.updated_at) r.id) rs)

  unfoldable pub list_actions :
      ℕ → Option ℕ → Option (ChangeCursor ℕ) → ActionFilters → ActionStore J → List (ActionRecord J)
  list_actions limit before updated_after f s = take limit (
      changed_since updated_after
        (keep_if (λ r. older_than before r.id && matches_action f r) (values s.actions)))

  unfoldable pub count_created : ℕ → ℕ → ActionStore J → ℕ
  count_created start end s =
      length (keep_if (λ r. leb start r.created_at && ltb r.created_at end) (values s.actions))

  abbrev touched :
      ℕ → ℕ → Option (ActionRecord J) → Dict ℕ (ActionRecord J) → Dict ℕ (ActionRecord J)
  touched now id none d = d
  touched now id (some r) d = put id (record r { updated_at = now }) d

  -- The private _touch.
  unfoldable pub touch : ℕ → ℕ → ActionStore J → ActionStore J
  touch now id s = record s { actions = touched now id (lookup id s.actions) s.actions }

  unfoldable pub add_confirmation :
      ℕ → ConfirmationRecord J → ActionStore J → Option (ConfirmationRecord J) × ActionStore J
  unfolding touch
  add_confirmation now new s =
      if has new.id s.confirmations
      then (none, s)
      else (let r = record new { seq = s.next_seq } in
          (
            some r,
            touch now new.action_id (record s {
              confirmations = put new.id r s.confirmations;
              next_seq = s.next_seq + 1;
            }),
          ))

  abbrev pub get_confirmation : String → ActionStore J → Option (ConfirmationRecord J)
  get_confirmation id s = lookup id s.confirmations

  unfoldable pub update_confirmation :
      ℕ → String → ConfirmationRecord J → ActionStore J → ConfirmationRecord J × ActionStore J
  unfolding touch
  update_confirmation now id changed s = (
    changed,
    touch now changed.action_id (record s { confirmations = put id changed s.confirmations }),
  )

  abbrev matches_confirmation : ConfirmationFilters → ConfirmationRecord J → Bool
  matches_confirmation f r =
      matches_number f.action_id r.action_id
      && matches_text f.status (some r.status)
      && matches_text f.sender r.sender
      && matches_text f.audience r.audience
      && matches_flag f.signed (is_some r.key_epoch)
      && matches_flag f.reconciled (is_some r.reconciled)

  unfoldable pub list_confirmations :
      ℕ → ℕ → ConfirmationFilters → ActionStore J → List (ConfirmationRecord J)
  list_confirmations after limit f s = take limit (
      sort_by (λ a b. ltb a.seq b.seq)
        (keep_if (λ r. ltb after r.seq && matches_confirmation f r) (values s.confirmations)))
