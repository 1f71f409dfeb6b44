-- ===== src/Actions/Service.antt =====
-- src/assistant_runtime/services/actions/interface.py: ActionService, with the store in memory. `is_uuid`
-- says whether `uuid.UUID` reads the text. Times carry their offset, so `confirm` never lacks one, and a
-- status that is no text is like one that is unknown.
use assistant_runtime.Prelude.{
  ℕ, String, Bool, not, ◌&&◌, ◌||◌, Option, none, some, List, [], ◌∷◌, ◌==◌, is_some, ok, err, Exec,
  pure, raise, raise_if, gets, ◌>>=◌, ◌>>◌, nat_eq, string_eq, option_eq, if◌then◌else◌,
}
use Prim.Native.Nat.{min}
use assistant_runtime.Base.Cursors.{ChangeCursor}
use assistant_runtime.Actions.Types.{
  ActionRecord, ConfirmationRecord, ActionError, not_started, bad_status, cannot_change, no_action,
  no_confirmation, bad_confirmation, status_conflict, revision_conflict, confirmation_exists,
  confirmation_settled, one_of,
}
use assistant_runtime.Actions.Store
use assistant_runtime.Actions.Store.{ActionStore, ActionFilters, ConfirmationFilters}
use assistant_runtime.Actions.Changes.{
  Proposal, ActionChanges, ConfirmationChanges, Approval, is_sha256, bad_reconciled, known_status,
  settling_status, is_empty_list, not_expected, not_at, statuses_or_none, number_or_none,
  other_action, changed_action, has_values, changed_confirmation, changes_settled,
}

pub record ActionsConfig : Type 0 where
  pub max_page : ℕ

pub record ActionService (J : Type 0) : Type 0 where
  pub config : ActionsConfig
  pub store : Option (ActionStore J)

abbrev pub M : Type 0 → Type 0 → Type 0
M J A = Exec (ActionService J) ActionError A

abbrev pub Tx : Type 0 → Type 0 → Type 0
Tx J A = Exec (ActionStore J) ActionError A

module _ {J : Type 0} where
  -- The private _require_store, and the transaction on the store.
  unfoldable pub transaction : {A : Type 0} → Tx J A → M J A
  transaction m s = elim s.store [
    | none ↦ (err not_started, s)
    | some t ↦ let (r, t') = m t in (r, record s { store = some t' })
  ]

  abbrev pub in_tx : {A : Type 0} → (ActionStore J → A × ActionStore J) → Tx J A
  in_tx f t = let (a, t') = f t in (ok a, t')

  abbrev pub found_action : ℕ → Option (ActionRecord J) → Tx J (ActionRecord J)
  found_action id none = raise (no_action id)
  found_action id (some r) = pure r

  abbrev pub found_confirmation :
      String → Option ℕ → Option (ConfirmationRecord J) → Tx J (ConfirmationRecord J)
  found_confirmation id action none = raise (no_confirmation id)
  found_confirmation id action (some r) =
      if other_action action r.action_id then raise (no_confirmation id) else pure r

  abbrev pub added : String → Option (ConfirmationRecord J) → Tx J (ConfirmationRecord J)
  added id none = raise (confirmation_exists id)
  added id (some r) = pure r

  unfoldable pub start : ActionService J → ActionService J
  start s = record s { store = some Store.empty }

  unfoldable pub stop : ActionService J → ActionService J
  stop s = record s { store = none }

  abbrev pub proposed_action : ℕ → Proposal J → ActionRecord J
  proposed_action now p = record {
    id = 0;
    kind = p.kind;
    status = p.status;
    created_by = p.by;
    text = p.text;
    arguments = p.arguments;
    profile = p.profile;
    subject = p.subject;
    history = record { status = p.status; at = now; by = p.by } ∷ [];
    confirmed_by = none;
    results = [];
    decided_at = none;
    revision = 1;
    proposed_text = none;
    revised_at = some now;
    created_at = now;
    updated_at = now;
  }

  -- The private _check_status.
  abbrev pub check_status : Option String → M J (Unit {0})
  check_status s = raise_if (not (known_status s)) bad_status

  unfoldable pub create : ℕ → Proposal J → M J (ActionRecord J)
  unfolding transaction
  create now p = do
    check_status (some p.status)
    transaction (in_tx (Store.create_action now (proposed_action now p)))

  unfoldable pub get : ℕ → M J (ActionRecord J × List (ConfirmationRecord J))
  unfolding transaction
  get id s =
      transaction
        (do
          found ← gets (Store.get_action id)
          r ← found_action id found
          let mine : ConfirmationFilters = record {
            action_id = some id;
            status = none;
            sender = none;
            audience = none;
            signed = none;
            reconciled = none;
          }
          cs ← gets (Store.list_confirmations 0 s.config.max_page mine)
          pure (r, cs))
        s

  unfoldable pub known_anchor : Option ℕ → Tx J (Unit {0})
  known_anchor none = pure tt
  known_anchor (some id) = do found ← gets (Store.get_action id); found_action id found; pure tt

  unfoldable pub list :
      ActionFilters → ℕ → Option ℕ → Option (ChangeCursor ℕ) → M J (List (ActionRecord J))
  unfolding transaction known_anchor
  list f limit before updated_after s =
      transaction
        (do
          known_anchor before
          gets (Store.list_actions (min limit s.config.max_page) before updated_after f))
        s

  unfoldable pub count : ℕ → ℕ → ActionService J → ℕ
  count start end s = elim s.store [ none ↦ 0 | some t ↦ Store.count_created start end t ]

  -- The transaction of `update`.
  unfoldable pub update_tx :
      ℕ → ℕ → ActionChanges J → String → Option (List String) → Option ℕ → Tx J (ActionRecord J)
  update_tx now id ch by expected_status expected_revision = do
    found ← gets (Store.get_action id)
    r ← found_action id found
    raise_if (not_expected expected_status r.status)
        (status_conflict r.status (statuses_or_none expected_status))
    raise_if (not_at expected_revision r.revision)
        (revision_conflict r.revision (number_or_none expected_revision))
    if has_values ch r
        then in_tx (Store.update_action now id (changed_action now by ch r))
        else pure r

  unfoldable pub update :
      ℕ → ℕ → ActionChanges J → String → Option (List String) → Option ℕ → M J (ActionRecord J)
  unfolding transaction update_tx
  update now id ch by expected_status expected_revision = do
    raise_if (not (is_empty_list ch.unknown)) (cannot_change ch.unknown)
    check_status ch.status
    transaction (update_tx now id ch by expected_status expected_revision)

  abbrev pub approved : Approval → ConfirmationRecord J
  approved a = record {
    seq = 0;
    id = a.confirmation_id;
    action_id = a.action_id;
    recipient = a.recipient;
    kind = a.kind;
    revision = a.revision;
    text_sha256 = a.text_sha256;
    source = a.source;
    confirmed_at = a.confirmed_at;
    status = "confirmed";
    key_epoch = a.key_epoch;
    sender = none;
    audience = none;
    result = none;
    reconciled = none;
  }

  unfoldable pub confirm_tx : ℕ → Approval → Tx J (ConfirmationRecord J)
  confirm_tx now a = do
    found ← gets (Store.get_action a.action_id)
    found_action a.action_id found
    r ← in_tx (Store.add_confirmation now (approved a))
    added a.confirmation_id r

  unfoldable pub update_confirmation_tx :
      ℕ → String → ConfirmationChanges J → Option ℕ → Tx J (ConfirmationRecord J)
  update_confirmation_tx now id ch action_id = do
    found ← gets (Store.get_confirmation id)
    r ← found_confirmation id action_id found
    raise_if (not (r.status == "confirmed") && changes_settled ch) (confirmation_settled r.status)
    if changes_settled ch || is_some ch.reconciled
        then in_tx (Store.update_confirmation now id (changed_confirmation ch r))
        else pure r

  unfoldable pub update_confirmation :
      ℕ → String → ConfirmationChanges J → Option ℕ → M J (ConfirmationRecord J)
  unfolding transaction update_confirmation_tx
  update_confirmation now id ch action_id = do
    raise_if (not (is_empty_list ch.unknown)) (cannot_change ch.unknown)
    raise_if (not (settling_status ch.status)) (bad_confirmation "status")
    raise_if (bad_reconciled ch.reconciled) (bad_confirmation "reconciled")
    transaction (update_confirmation_tx now id ch action_id)

  unfoldable pub confirmations : ℕ → ℕ → ConfirmationFilters → M J (List (ConfirmationRecord J))
  unfolding transaction
  confirmations after limit f s =
      transaction (gets (Store.list_confirmations after (min limit s.config.max_page) f)) s

  module _ (is_uuid : String → Bool) where
    unfoldable pub confirm : ℕ → Approval → M J (ConfirmationRecord J)
    unfolding transaction confirm_tx
    confirm now a = do
      raise_if (not (is_uuid a.confirmation_id)) (bad_confirmation "confirmation_id")
      raise_if (not (one_of a.kind ("message" ∷ "steer" ∷ []))) (bad_confirmation "kind")
      raise_if (not (one_of a.source ("button" ∷ "typed" ∷ "voice" ∷ [])))
          (bad_confirmation "source")
      raise_if (not (is_sha256 a.text_sha256)) (bad_confirmation "text_sha256")
      transaction (confirm_tx now a)
