-- ===== src/EventLog/Service.antt =====
-- src/assistant_runtime/app/event_log/interface.py: EventLogService, with the store in memory. The ingress
-- service is a parameter: for a call, what it returns, or the text and the type of what it raises.
use assistant_runtime.Prelude.{
  ℕ, String, Bool, true, false, not, ◌&&◌, Option, none, some, List, [], ◌∷◌, ◌==◌, is_some, Result,
  ok, err, Exec, pure, raise, raise_if, gets, ◌>>=◌, ◌>>◌, is_empty, concat, nat_eq, string_eq,
  option_eq, if◌then◌else◌,
}
use Prim.Native.Nat.{min}
use assistant_runtime.Base.Cursors.{ChangeCursor}
use assistant_runtime.EventLog.Types
use assistant_runtime.EventLog.Types.{
  Delivery, begun, EventRecord, EventLogError, not_started, bad_direction, bad_severity,
  outbound_target, bad_notice_status, no_event, inbound_event, notice_is_already, one_of,
  directions, severities, notice_order, order_below,
}
use assistant_runtime.EventLog.Store
use assistant_runtime.EventLog.Store.{EventStore, EventFilters, Tx}

-- The arguments of `IngressService.deliver`.
pub record IngressCall : Type 0 where
  pub from_agent : String
  pub via : String
  pub message : String
  pub session_id : String
  pub severity : String

-- The `status` and the `delivery` of what it returns.
pub record IngressOutcome : Type 0 where
  pub status : Option String
  pub delivery : Option String

-- What it raises: the text of the exception and the name of its type.
pub record IngressFailure : Type 0 where
  pub text : String
  pub type_name : String

abbrev pub Ingress : Type 0
Ingress = IngressCall → Result IngressFailure IngressOutcome

pub record EventLog (J : Type 0) : Type 0 where
  pub max_page : ℕ
  pub ingress : Option Ingress
  pub store : Option (EventStore J)

-- The arguments of `record`.
pub record NewEvent (J : Type 0) : Type 0 where
  pub event_id : String
  pub direction : String
  pub source : String
  pub kind : String
  pub severity : String
  pub agent : Option String
  pub summary : String
  pub payload : Option J
  pub target_session_id : Option String
  pub history : Bool
  pub occurred_at : Option ℕ

abbrev pub M : Type 0 → Type 0 → Type 0
M J A = Exec (EventLog J) EventLogError A

-- `_INBOX_SEVERITY[severity]`; the text of the KeyError otherwise.
abbrev pub inbox_severity : String → Result IngressFailure String
inbox_severity s =
    if s == "info"
    then ok "info"
    else if s == "warning"
    then ok "action_needed"
    else if s == "critical"
    then ok "urgent"
    else err (record { text = concat ("'" ∷ s ∷ "'" ∷ []); type_name = "KeyError" })

-- `a or b`
abbrev pub text_or : Option String → String → String
text_or none b = b
text_or (some a) b = if is_empty a then b else a

abbrev failure_text : IngressFailure → String
failure_text f = if is_empty f.text then f.type_name else f.text

abbrev pub how_delivered : IngressOutcome → Option String
how_delivered o = if o.status == some "delivered" then o.delivery else some "inbox"

-- How the delivery went.
abbrev pub delivery_of : String → Result IngressFailure IngressOutcome → Delivery
delivery_of target (ok o) = Types.delivered target (how_delivered o)
delivery_of target (err f) = Types.failed target (failure_text f)

module _ {J : Type 0} where
  -- The private _require_store, and the transaction on the store.
  unfoldable pub transaction : {A : Type 0} → Tx J A → M J A
  transaction m s = elim s.store [
    | none ↦ (err not_started, s)
    | some t ↦ let (r, t') = m t in (r, record s { store = some t' })
  ]

  unfoldable pub start : EventLog J → EventLog J
  start s = record s { store = some Store.empty }

  unfoldable pub stop : EventLog J → EventLog J
  stop s = record s { store = none }

  -- The values of a new event.
  abbrev pub event_record : NewEvent J → EventRecord J
  event_record n = record {
    id = 0;
    event_id = n.event_id;
    direction = n.direction;
    source = n.source;
    kind = n.kind;
    severity = n.severity;
    status = if n.direction == "inbound" then "received" else "pending";
    agent = n.agent;
    summary = n.summary;
    payload = n.payload;
    target_session_id = n.target_session_id;
    history = n.history;
    delivery = none;
    occurred_at = n.occurred_at;
    created_at = 0;
    delivered_at = none;
    heard_at = none;
    updated_at = 0;
  }

  -- The text and the call that steer an event into the session `target`.
  abbrev pub event_text : EventRecord J → String
  event_text r = concat (
      r.kind ∷ " (" ∷ r.severity ∷ ")" ∷ (if is_empty r.summary then [] else ": " ∷ r.summary ∷ []))

  abbrev pub ingress_call : EventRecord J → (target severity : String) → IngressCall
  ingress_call r target severity = record {
    from_agent = text_or r.agent r.source;
    via = r.source;
    message = event_text r;
    session_id = target;
    severity = severity;
  }

  abbrev pub call_ingress :
      EventRecord J → String → Ingress → Result IngressFailure String → Delivery
  call_ingress r target deliver (ok severity) =
      delivery_of target (deliver (ingress_call r target severity))
  call_ingress r target deliver (err f) = delivery_of target (err f)

  unfoldable pub steer : Option Ingress → EventRecord J → String → Delivery
  steer none r target = Types.failed target "No ingress service"
  steer (some deliver) r target = call_ingress r target deliver (inbox_severity r.severity)

  -- The values that are written once the delivery ended.
  abbrev pub with_delivery : ℕ → Delivery → EventRecord J → EventRecord J
  with_delivery now (Types.delivered target how) r = record r {
    delivery = some (Types.delivered target how);
    status = "delivered";
    delivered_at = some now;
  }
  with_delivery now d r = record r { delivery = some d }

  abbrev pub begin_delivery : String → EventRecord J → EventRecord J
  begin_delivery target r = record r { delivery = some (begun target) }

  -- The first transaction of `_deliver`: nothing, or the record that it returns because another request
  -- has started the delivery.
  abbrev pub claim_found :
      ℕ → EventRecord J → String → Option (EventRecord J) → Tx J (Option (EventRecord J))
  claim_found now r target none = pure (some r)
  claim_found now r target (some current) =
      if is_some current.delivery
      then pure (some current)
      else (do Store.update now r.id (begin_delivery target); pure none)

  unfoldable pub claim : ℕ → EventRecord J → String → Tx J (Option (EventRecord J))
  unfolding Store.update
  claim now r target = do found ← gets (Store.get r.id); claim_found now r target found

  abbrev pub deliver_claimed :
      ℕ → EventRecord J → String → Option (EventRecord J) → M J (EventRecord J)
  deliver_claimed now r target (some current) = pure current
  deliver_claimed now r target none =
      λ s. transaction (Store.update now r.id (with_delivery now (steer s.ingress r target))) s

  -- `_deliver`
  unfoldable pub deliver : ℕ → EventRecord J → String → M J (EventRecord J)
  unfolding transaction claim Store.update steer
  deliver now r target = do
    taken ← transaction (claim now r target)
    deliver_claimed now r target taken

  -- The session that an event is to be steered into.
  abbrev pub to_deliver : EventRecord J → Option String
  to_deliver r = if not r.history && not (is_some r.delivery) then r.target_session_id else none

  abbrev pub deliver_if : ℕ → EventRecord J → Option String → M J (EventRecord J)
  deliver_if now r none = pure r
  deliver_if now r (some target) = deliver now r target

  unfoldable pub record_event : ℕ → NewEvent J → M J (EventRecord J × Bool)
  unfolding transaction Store.create_if_new deliver
  record_event now n = do
    raise_if (not (one_of n.direction directions)) bad_direction
    raise_if (not (one_of n.severity severities)) bad_severity
    raise_if ((n.direction == "outbound") && is_some n.target_session_id) outbound_target
    (r, created) ← transaction (Store.create_if_new now (event_record n))
    r' ← deliver_if now r (to_deliver r)
    pure (r', created)

  abbrev pub found_event : ℕ → Option (EventRecord J) → Tx J (EventRecord J)
  found_event id none = raise (no_event id)
  found_event id (some r) = pure r

  unfoldable pub get : ℕ → M J (EventRecord J)
  unfolding transaction
  get id = transaction (do found ← gets (Store.get id); found_event id found)

  unfoldable pub list :
      ℕ
      → ℕ
      → EventFilters
      → (news_only : Bool) → Option (ChangeCursor ℕ)
      → M J (List (EventRecord J))
  unfolding transaction
  list after limit f news_only updated_after s =
      transaction
        (gets (
          Store.list_events after (min limit s.max_page) updated_after
            (record f { history = if news_only then some false else none })))
        s

  unfoldable pub count : ℕ → ℕ → EventLog J → ℕ
  count start end s = elim s.store [ none ↦ 0 | some t ↦ Store.count_created start end t ]

  abbrev pub moved_notice : ℕ → String → EventRecord J → EventRecord J
  moved_notice now status r = record r {
    status = status;
    delivered_at = if is_some r.delivered_at then r.delivered_at else some now;
    heard_at = if status == "heard" then some now else r.heard_at;
  }

  abbrev pub move_found : ℕ → ℕ → String → EventRecord J → Option Bool → Tx J (EventRecord J)
  move_found now id status r none = raise Types.missing_key
  move_found now id status r (some true) = raise (notice_is_already id r.status)
  move_found now id status r (some false) =
      if status == r.status then pure r else Store.update now id (moved_notice now status)

  unfoldable pub update_notice_tx : ℕ → ℕ → String → Tx J (EventRecord J)
  unfolding Store.update
  update_notice_tx now id status = do
    found ← gets (Store.get id)
    r ← found_event id found
    raise_if (not (r.direction == "outbound")) (inbound_event id)
    move_found now id status r (order_below (notice_order status) (notice_order r.status))

  unfoldable pub update_notice : ℕ → ℕ → String → M J (EventRecord J)
  unfolding transaction update_notice_tx
  update_notice now id status = do
    raise_if (not (one_of status ("delivered" ∷ "heard" ∷ []))) bad_notice_status
    transaction (update_notice_tx now id status)
