-- ===== src/Session/Steering.antt =====
-- src/assistant_runtime/app/assistant/_session_store.py: steering, which waits outside the message tree
-- until a turn takes it.
use assistant_runtime.Prelude.{
  ℕ, String, Bool, true, false, not, ◌&&◌, ◌||◌, Option, none, some, List, [], ◌∷◌, map, ◌==◌, Dict,
  lookup, has, put, Result, ok, err, pure, raise, raise_if, modify, ◌>>=◌, ◌>>◌, keep_if, sort_by,
  ltb, string_ltb, nat_eq, string_eq,
}
use assistant_runtime.Session.Types.{
  Steering, SteeringStatus, pending, delivered, promoted, Request, Context,
}
use assistant_runtime.Session.Context.{contains, add_steering}
use assistant_runtime.Session.StaleTools.{Codec}
use assistant_runtime.Session.Persistence.{
  SessionPersistence, StoreError, session_not_found, steering_exists, key_error,
}
use assistant_runtime.Session.Cache.{M, set_context, on_db}
use assistant_runtime.Session.Loading.{get_context_if_exists}

-- `xs or None`
abbrev or_none {ℓ} : {A : Type ℓ} → List A → Option (List A)
or_none [] = none
or_none (x ∷ xs) = some (x ∷ xs)

abbrev or_time : Option ℕ → ℕ → ℕ
or_time none t = t
or_time (some s) t = s

-- `profile in (None, profile_name)`
abbrev for_profile : String → Option String → Bool
for_profile name none = true
for_profile name (some p) = p == name

abbrev is_shown : SteeringStatus → Bool
is_shown pending = false
is_shown delivered = true
is_shown promoted = true

module _ {J : Type 0} where
  unfoldable pub steering_record : ℕ → String → Request J → SteeringStatus → Option ℕ → Steering J
  steering_record now id r status delivered_at = record {
    id = r.id;
    session_id = id;
    content = r.content;
    profile = r.profile;
    status = status;
    attachments = or_none r.attachments;
    created_at = now;
    delivered_at = delivered_at;
  }

  abbrev pub with_record :
      String
      → Option (Steering J)
      → Result StoreError (List (Steering J))
      → Result StoreError (List (Steering J))
  with_record id none rest = err (key_error id)
  with_record id (some r) (ok rs) = ok (r ∷ rs)
  with_record id (some r) (err e) = err e

  -- `[index[id] for id in ids]`
  abbrev pub records_at :
      Dict String (Steering J) → List String → Result StoreError (List (Steering J))
  records_at index [] = ok []
  records_at index (id ∷ ids) = with_record id (lookup id index) (records_at index ids)

  abbrev pub selected : List String → Context J → List String
  selected ids c = keep_if (λ id. contains id ids) c.pending_steering_ids

  abbrev pub deliver : ℕ → Steering J → Steering J
  deliver now r = record r { status = delivered; delivered_at = some now }

  abbrev pub put_records : List (Steering J) → Dict String (Steering J) → Dict String (Steering J)
  put_records [] index = index
  put_records (r ∷ rs) index = put_records rs (put r.id r index)

  unfoldable pub acknowledge : List String → List (Steering J) → Context J → Context J
  acknowledge ids updated c = record c {
    steering_index = put_records updated c.steering_index;
    pending_steering_ids = keep_if (λ id. not (contains id ids)) c.pending_steering_ids;
  }

  abbrev shown_before : Steering J → Steering J → Bool
  shown_before a b =
      let s = or_time a.delivered_at a.created_at in
      let t = or_time b.delivered_at b.created_at in
      ltb s t
      || ((s == t)
          && (ltb a.created_at b.created_at
              || ((a.created_at == b.created_at) && string_ltb a.id b.id)))

  abbrev wanted : Option String → List (Steering J) → List (Steering J)
  wanted none rs = rs
  wanted (some name) rs = keep_if (λ r. for_profile name r.profile) rs

module _ {D J : Type 0} where
  -- `if ctx is None: raise LookupError`
  abbrev pub required : Option (Context J) → M D J (Context J)
  required none = raise session_not_found
  required (some c) = pure c

  abbrev pub of_result : {A : Type 0} → Result StoreError A → M D J A
  of_result (ok a) = pure a
  of_result (err e) = raise e

module _ {D J : Type 0} (codec : Codec J) (persistence : SessionPersistence D J) where
  open persistence use {create_steering, mark_steering}

  unfoldable pub queue_steering :
      ℕ → String → Request J → SteeringStatus → Option ℕ → M D J (Steering J)
  unfolding get_context_if_exists steering_record
  queue_steering now id r status delivered_at = do
    found ← get_context_if_exists codec persistence now id
    c ← required found
    raise_if (has r.id c.steering_index) (steering_exists r.id)
    on_db tt (create_steering (steering_record now id r status delivered_at))
    modify (set_context id (add_steering c (steering_record now id r status delivered_at)))
    pure (steering_record now id r status delivered_at)

  unfoldable pub list_pending_steering : ℕ → String → Option String → M D J (List (Steering J))
  unfolding get_context_if_exists
  list_pending_steering now id profile_name = do
    found ← get_context_if_exists codec persistence now id
    c ← required found
    rs ← of_result (records_at c.steering_index c.pending_steering_ids)
    pure (wanted profile_name rs)

  abbrev pub mark_in :
      ℕ → String → List String → Context J → List String → M D J (List (Steering J))
  mark_in now id ids c [] = pure []
  mark_in now id ids c (p ∷ ps) = do
    rs ← of_result (records_at c.steering_index (p ∷ ps))
    on_db tt (mark_steering (p ∷ ps) delivered now)
    modify (set_context id (acknowledge ids (map (deliver now) rs) c))
    pure (map (deliver now) rs)

  unfoldable pub mark_steering_delivered : ℕ → String → List String → M D J (List (Steering J))
  unfolding get_context_if_exists acknowledge
  mark_steering_delivered now id ids = do
    found ← get_context_if_exists codec persistence now id
    c ← required found
    mark_in now id ids c (selected ids c)

  unfoldable pub get_display_steering : ℕ → String → M D J (List (Steering J))
  unfolding get_context_if_exists
  get_display_steering now id = do
    found ← get_context_if_exists codec persistence now id
    c ← required found
    rs ← of_result (records_at c.steering_index c.steering_order)
    pure (sort_by shown_before (keep_if (λ r. is_shown r.status) rs))
