-- ===== src/Actions/Types.antt =====
-- src/assistant_runtime/services/actions/models.py and exceptions.py: the records of the module. `J` is
-- the type of the JSON values that the service stores unread; times are numbers.
use assistant_runtime.Prelude.{ℕ, String, Bool, Option, List, [], ◌∷◌, ◌==◌, Dict, any, string_eq}

pub record HistoryEntry : Type 0 where
  pub status : String
  pub at : ℕ
  pub by : String

pub record ActionRecord (J : Type 0) : Type 0 where
  pub id : ℕ
  pub kind : String
  pub status : String
  pub created_by : String
  pub text : Option String
  pub arguments : Option J
  pub profile : Option String
  pub subject : Option String
  pub history : List HistoryEntry
  pub confirmed_by : Option String
  pub results : Dict String J
  pub decided_at : Option ℕ
  pub revision : ℕ
  pub proposed_text : Option String
  pub revised_at : Option ℕ
  pub created_at : ℕ
  pub updated_at : ℕ

pub record ConfirmationRecord (J : Type 0) : Type 0 where
  pub seq : ℕ
  pub id : String
  pub action_id : ℕ
  pub recipient : String
  pub kind : String
  pub revision : ℕ
  pub text_sha256 : String
  pub source : String
  pub confirmed_at : ℕ
  pub status : String
  pub key_epoch : Option ℕ
  pub sender : Option String
  pub audience : Option String
  pub result : Option J
  pub reconciled : Option String

pub data ActionError : Type 0 where
  not_started : ActionError
  bad_status : ActionError
  cannot_change : List String → ActionError
  no_action : ℕ → ActionError
  no_confirmation : String → ActionError
  bad_confirmation : (field : String) → ActionError
  status_conflict : (current : String) → (expected : List String) → ActionError
  revision_conflict : (current expected : ℕ) → ActionError
  confirmation_exists : String → ActionError
  confirmation_settled : (status : String) → ActionError

-- `x in xs`
abbrev pub one_of : String → List String → Bool
one_of x xs = any (λ y. y == x) xs

abbrev pub action_statuses : List String
action_statuses =
    "proposed" ∷ "scheduled" ∷ "sending" ∷ "sent" ∷ "failed" ∷ "discarded" ∷ "undone" ∷ []

abbrev pub reconciled_values : List String
reconciled_values = "matched" ∷ "altered" ∷ "missing" ∷ "undelivered" ∷ []
