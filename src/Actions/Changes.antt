-- ===== src/Actions/Changes.antt =====
-- src/assistant_runtime/services/actions/interface.py: what the methods of ActionService are given, and the
-- changes that they make to a record.
use assistant_runtime.Prelude.{
  ℕ, ◌+◌, String, Bool, true, false, not, ◌&&◌, ◌||◌, Option, none, some, List, [], ◌∷◌, ◌++◌, ◌==◌,
  Dict, put, is_some, length, codes, all_codes, is_between, nat_eq, string_eq, option_eq,
  if◌then◌else◌,
}
use assistant_runtime.Actions.Types.{
  ActionRecord, ConfirmationRecord, one_of, action_statuses, reconciled_values,
}

-- The arguments of `create`.
pub record Proposal (J : Type 0) : Type 0 where
  pub kind : String
  pub by : String
  pub text : Option String
  pub arguments : Option J
  pub profile : Option String
  pub subject : Option String
  pub status : String

-- The keys of a `changes` dict with their values; `unknown` lists the keys that cannot be changed.
pub record ActionChanges (J : Type 0) : Type 0 where
  pub unknown : List String
  pub status : Option String
  pub text : Option (Option String)
  pub arguments : Option (Option J)
  pub confirmed_by : Option (Option String)
  pub decided_at : Option (Option ℕ)
  pub results : Option (Dict String J)

pub record ConfirmationChanges (J : Type 0) : Type 0 where
  pub unknown : List String
  pub status : Option String
  pub result : Option (Option J)
  pub key_epoch : Option (Option ℕ)
  pub sender : Option (Option String)
  pub audience : Option (Option String)
  pub reconciled : Option (Option String)

-- The arguments of `confirm`.
pub record Approval : Type 0 where
  pub action_id : ℕ
  pub confirmation_id : String
  pub recipient : String
  pub kind : String
  pub revision : ℕ
  pub text_sha256 : String
  pub source : String
  pub confirmed_at : ℕ
  pub key_epoch : Option ℕ

-- ^[0-9a-f]{64}$
abbrev pub is_sha256 : String → Bool
is_sha256 s =
    all_codes (λ c. is_between b'0' b'9' c || is_between b'a' b'f' c) (codes s)
    && (length (codes s) == 64)

abbrev pub or_kept {ℓ} : {A : Type ℓ} → Option A → A → A
or_kept none a = a
or_kept (some b) a = b

abbrev pub is_new_status : Option String → String → Bool
is_new_status none current = false
is_new_status (some s) current = not (s == current)

abbrev pub is_new_text : Option (Option String) → Option String → Bool
is_new_text none current = false
is_new_text (some t) current = not (t == current)

abbrev pub first_text : Option String → Option String → Option String
first_text none current = current
first_text (some t) current = some t

abbrev pub bad_reconciled : Option (Option String) → Bool
bad_reconciled (some (some r)) = not (one_of r reconciled_values)
bad_reconciled _ = false

abbrev pub known_status : Option String → Bool
known_status none = true
known_status (some s) = one_of s action_statuses

abbrev pub settling_status : Option String → Bool
settling_status none = true
settling_status (some s) = s == "sent" || s == "failed"

abbrev pub is_empty_list {ℓ} : {A : Type ℓ} → List A → Bool
is_empty_list [] = true
is_empty_list (x ∷ xs) = false

abbrev pub not_expected : Option (List String) → String → Bool
not_expected none status = false
not_expected (some ss) status = not (one_of status ss)

abbrev pub not_at : Option ℕ → ℕ → Bool
not_at none revision = false
not_at (some e) revision = not (revision == e)

abbrev pub statuses_or_none : Option (List String) → List String
statuses_or_none none = []
statuses_or_none (some ss) = ss

abbrev pub number_or_none : Option ℕ → ℕ
number_or_none none = 0
number_or_none (some n) = n

-- `action_id not in (None, current.action_id)`
abbrev pub other_action : Option ℕ → ℕ → Bool
other_action none id = false
other_action (some a) id = not (a == id)

module _ {J : Type 0} where
  -- `{**old, **new}`
  abbrev pub merge : Dict String J → Dict String J → Dict String J
  merge old [] = old
  merge old ((k, v) ∷ new) = merge (put k v old) new

  abbrev pub with_status : ℕ → String → Option String → ActionRecord J → ActionRecord J
  with_status now by none r = r
  with_status now by (some s) r = if s == r.status then r else record r {
    status = s;
    history = r.history ++ record { status = s; at = now; by = by } ∷ [];
  }

  abbrev pub with_text : ℕ → Option (Option String) → ActionRecord J → ActionRecord J
  with_text now none r = r
  with_text now (some t) r = if t == r.text then r else record r {
    text = t;
    revision = r.revision + 1;
    proposed_text = first_text r.proposed_text r.text;
    revised_at = some now;
  }

  abbrev pub with_results : Option (Dict String J) → ActionRecord J → ActionRecord J
  with_results none r = r
  with_results (some d) r = record r { results = merge r.results d }

  -- The `values` of `update`, put into the record.
  unfoldable pub changed_action : ℕ → String → ActionChanges J → ActionRecord J → ActionRecord J
  changed_action now by ch r =
      let q = with_results ch.results (with_text now ch.text (with_status now by ch.status r)) in
      record q {
        arguments = or_kept ch.arguments q.arguments;
        confirmed_by = or_kept ch.confirmed_by q.confirmed_by;
        decided_at = or_kept ch.decided_at q.decided_at;
      }

  -- `values` is not empty.
  unfoldable pub has_values : ActionChanges J → ActionRecord J → Bool
  has_values ch r =
      is_new_status ch.status r.status
      || is_new_text ch.text r.text
      || is_some ch.results
      || is_some ch.arguments
      || is_some ch.confirmed_by
      || is_some ch.decided_at

  unfoldable pub changed_confirmation :
      ConfirmationChanges J → ConfirmationRecord J → ConfirmationRecord J
  changed_confirmation ch r = record r {
    status = or_kept ch.status r.status;
    result = or_kept ch.result r.result;
    key_epoch = or_kept ch.key_epoch r.key_epoch;
    sender = or_kept ch.sender r.sender;
    audience = or_kept ch.audience r.audience;
    reconciled = or_kept ch.reconciled r.reconciled;
  }

  -- A change of what is fixed once the confirmation is settled.
  abbrev pub changes_settled : ConfirmationChanges J → Bool
  changes_settled ch =
      is_some ch.status
      || is_some ch.result
      || is_some ch.key_epoch
      || is_some ch.sender
      || is_some ch.audience
