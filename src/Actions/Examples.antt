-- ===== src/Actions/Examples.antt =====
-- The theorems on actions at one service: a draft that is edited, confirmed and sent.
use assistant_runtime.Prelude.{
  ℕ, ◌≡◌, refl, String, Bool, true, none, some, List, [], ◌∷◌, lookup, err, arith, nat_eq,
  string_eq,
}
use assistant_runtime.Actions.Types.{ActionRecord, ConfirmationRecord, revision_conflict}
use assistant_runtime.Actions.Store.{ActionStore}
use assistant_runtime.Actions.Service
use assistant_runtime.Actions.Service.{ActionService, start, transaction}
use assistant_runtime.Actions.Changes.{Proposal, ActionChanges, ConfirmationChanges, Approval}
use assistant_runtime.Actions.Steps
use assistant_runtime.Actions.Steps.{Call, run, step}
use assistant_runtime.Actions.History.{Evolves, run-Evolves}
use assistant_runtime.Actions.Consistent.{AllConsistent, run-AllConsistent}
use assistant_runtime.Actions.Conflicts.{stale_edit_refused}
use assistant_runtime.Actions.Confirmed.{Follows, run-Follows}

abbrev service : ActionService String
service = record { config = record { max_page = 50 }; store = none }

abbrev is_uuid : String → Bool
is_uuid s = true

abbrev draft : Proposal String
draft = record {
  kind = "email";
  by = "host";
  text = some "Dear all";
  arguments = none;
  profile = none;
  subject = some "deal-1";
  status = "proposed";
}

abbrev edit : String → ActionChanges String
edit t = record {
  unknown = [];
  status = some "scheduled";
  text = some (some t);
  arguments = none;
  confirmed_by = none;
  decided_at = none;
  results = none;
}

abbrev approval : Approval
approval = record {
  action_id = 1;
  confirmation_id = "c1";
  recipient = "ann";
  kind = "message";
  revision = 2;
  text_sha256 = "0123456789abcdef0123456789abcdef0123456789abcdef0123456789abcdef";
  source = "button";
  confirmed_at = 12;
  key_epoch = none;
}

abbrev sent : ConfirmationChanges String
sent = record {
  unknown = [];
  status = some "sent";
  result = some (some "ok");
  key_epoch = none;
  sender = none;
  audience = none;
  reconciled = none;
}

abbrev beginning : List (Call String)
beginning =
    Steps.creates 10 draft
    ∷ Steps.updates 11 1 (edit "Dear Ann") "host" none (some 1)
    ∷ Steps.confirms 12 approval
    ∷ []

abbrev ending : List (Call String)
ending =
    Steps.updates_confirmation 13 "c1" sent (some 1)
    ∷ Steps.updates_confirmation 14 "c1" sent none
    ∷ Steps.creates 15 draft
    ∷ []

-- The store after `beginning`, but for the first revision's text.
abbrev mail : ActionRecord String
mail = record {
  id = 1;
  kind = "email";
  status = "scheduled";
  created_by = "host";
  text = some "Dear Ann";
  arguments = none;
  profile = none;
  subject = some "deal-1";
  history =
      record { status = "proposed"; at = 10; by = "host" }
      ∷ record { status = "scheduled"; at = 11; by = "host" }
      ∷ [];
  confirmed_by = none;
  results = [];
  decided_at = none;
  revision = 2;
  proposed_text = some "Dear all";
  revised_at = some 11;
  created_at = 10;
  updated_at = 12;
}

abbrev click : ConfirmationRecord String
click = record {
  seq = 1;
  id = "c1";
  action_id = 1;
  recipient = "ann";
  kind = "message";
  revision = 2;
  text_sha256 = "0123456789abcdef0123456789abcdef0123456789abcdef0123456789abcdef";
  source = "button";
  confirmed_at = 12;
  status = "confirmed";
  key_epoch = none;
  sender = none;
  audience = none;
  result = none;
  reconciled = none;
}

abbrev shelf : ActionStore String
shelf = record {
  actions = (1, mail) ∷ [];
  confirmations = ("c1", click) ∷ [];
  next_action = 2;
  next_seq = 2;
}

abbrev edited : ActionService String
edited = record { config = record { max_page = 50 }; store = some shelf }

run-AllConsistent_example :
    (t : ActionStore String) × ((run is_uuid beginning (start service)).store ≡ some t)
    × AllConsistent t
run-AllConsistent_example = run-AllConsistent is_uuid beginning service

run-Evolves_example :
    (u : ActionStore String) × (b : ActionRecord String) × ((run is_uuid ending edited).store
      ≡ some u)
    × (lookup 1 u.actions ≡ some b)
    × Evolves mail b
unfolding lookup
run-Evolves_example = run-Evolves is_uuid ending edited shelf 1 mail refl (omega arith) refl

run-Follows_example :
    (u : ActionStore String) × (b : ConfirmationRecord String) × ((run is_uuid ending edited).store
      ≡ some u)
    × (lookup "c1" u.confirmations ≡ some b)
    × Follows click b
unfolding lookup
run-Follows_example = run-Follows is_uuid ending edited shelf "c1" click refl refl

stale_edit_refused_example :
    let later = run is_uuid ending edited in
    let after = Service.update 20 1 (edit "Hello") "host" none (some 1) later in
    (r : ℕ) × (after.0 ≡ err (revision_conflict r 1)) × (after.1.store ≡ later.store)
unfolding lookup
stale_edit_refused_example =
    stale_edit_refused is_uuid ending 20 1 (edit "Hello") "host" 1 edited shelf mail refl refl refl
      (omega arith) refl (omega arith)
