-- ===== src/EventLog/Types.antt =====
-- src/assistant_runtime/app/event_log/models.py and exceptions.py: the records of the module. `J` is the
-- type of the JSON values that the service stores unread; times are numbers.
use assistant_runtime.Prelude.{
  ℕ, String, Bool, Option, none, some, List, [], ◌∷◌, ◌==◌, any, ltb, string_eq, if◌then◌else◌,
}

-- The `delivery` dict: how far the delivery into the session `target` came.
pub data Delivery : Type 0 where
  begun : (target : String) → Delivery
  delivered : (target : String) → (how : Option String) → Delivery
  failed : (target : String) → (error : String) → Delivery

pub record EventRecord (J : Type 0) : Type 0 where
  pub id : ℕ
  pub event_id : String
  pub direction : String
  pub source : String
  pub kind : String
  pub severity : String
  pub status : String
  pub agent : Option String
  pub summary : String
  pub payload : Option J
  pub target_session_id : Option String
  pub history : Bool
  pub delivery : Option Delivery
  pub occurred_at : Option ℕ
  pub created_at : ℕ
  pub delivered_at : Option ℕ
  pub heard_at : Option ℕ
  pub updated_at : ℕ

-- The errors of the module; `missing_key` is the KeyError of a dict.
pub data EventLogError : Type 0 where
  not_started : EventLogError
  bad_direction : EventLogError
  bad_severity : EventLogError
  outbound_target : EventLogError
  bad_notice_status : EventLogError
  no_event : ℕ → EventLogError
  inbound_event : ℕ → EventLogError
  notice_is_already : ℕ → (status : String) → EventLogError
  missing_key : EventLogError

-- `x in xs`
abbrev pub one_of : String → List String → Bool
one_of x xs = any (λ y. y == x) xs

abbrev pub directions : List String
directions = "inbound" ∷ "outbound" ∷ []

abbrev pub severities : List String
severities = "info" ∷ "warning" ∷ "critical" ∷ []

-- NOTICE_ORDER.get(status)
abbrev pub notice_order : String → Option ℕ
notice_order s =
    if s == "pending"
    then some 0
    else if s == "delivered"
    then some 1
    else if s == "heard"
    then some 2
    else none

-- `NOTICE_ORDER[a] < NOTICE_ORDER[b]`; none is a KeyError.
abbrev pub order_below : Option ℕ → Option ℕ → Option Bool
order_below (some a) (some b) = some (ltb a b)
order_below _ _ = none
