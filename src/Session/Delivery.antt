-- ===== src/Session/Delivery.antt =====
-- Steering (_session_store.py) is acknowledged at most once.
use assistant_runtime.Prelude.{
  ℕ, ◌≡◌, refl, String, not, some, List, [], ◌∷◌, map, ==_iff, lookup, remove, lookup-put, keep_if,
  Result, ok, err, continue, ◌>>=◌, ◌>>◌, modify, pure, arith, string_eq, inl, inr, Bool-cases,
}
use mathlib.Core.Path.{subst}
use assistant_runtime.Session.Types.{Context, Steering, delivered}
use assistant_runtime.Session.Context.{contains}
use assistant_runtime.Session.StaleTools.{Codec}
use assistant_runtime.Session.Persistence.{SessionPersistence, StoreError}
use assistant_runtime.Session.Cache.{SessionStore, touch_session, set_context, on_db}
use assistant_runtime.Session.Loading.{get_context_if_exists}
use assistant_runtime.Session.Steering.{
  acknowledge, selected, of_result, mark_in, mark_steering_delivered, records_at, deliver,
}

selected_none :
    (ids ps : List String)
    → keep_if (λ id. contains id ids) (keep_if (λ id. not (contains id ids)) ps) ≡ []
selected_none ids [] = refl
selected_none ids (p ∷ ps) = elim (Bool-cases (contains p ids)) [
  | inl e ↦ rw e (selected_none ids ps)
  | inr e ↦ rw (e, contains) (rw (e, contains) (selected_none ids ps))
]

-- The session is cached, and none of the records waits in it.
abbrev Settled : {D J : Type 0} → List String → String → SessionStore D J → Type 0
Settled {J = J} ids id s = (c : Context J) × (lookup id s.sessions ≡ some c) × (selected ids c ≡ [])

module _ {D J : Type 0} (codec : Codec J) (persistence : SessionPersistence D J) where
  pub cached_hit :
      (now : ℕ) (id : String) (s : SessionStore D J) (c : Context J)
      → lookup id s.sessions ≡ some c
      → get_context_if_exists codec persistence now id s
        ≡ (ok (some (record c { used_at = some now })), touch_session now id s)
  unfolding get_context_if_exists
  cached_hit now id s c e = rw (e, get_context_if_exists) (rw (e, touch_session) refl)

  touched :
      (now : ℕ) (id : String) (s : SessionStore D J) (c : Context J)
      → lookup id s.sessions ≡ some c
      → lookup id (touch_session now id s).sessions ≡ some (record c { used_at = some now })
  unfolding touch_session
  touched now id s c e =
      let new = record c { used_at = some now } in
      rw (e, touch_session)
        (ground (arith, ==_iff id id, lookup-put id id new (remove id s.sessions)))

  mark-Settled :
      (now : ℕ) (id : String) (ids : List String) (s : SessionStore D J)
      → Settled ids id s
      → (mark_steering_delivered codec persistence now id ids s).0 ≡ ok []
  unfolding mark_steering_delivered ◌>>=◌
  mark-Settled now id ids s (c, e, f) = rw (cached_hit now id s c e) (rw f refl)

  written-Settled :
      (id : String) (ids : List String) (c : Context J) (rs us : List (Steering J))
      (t : SessionStore D J) (r : Result StoreError (Unit {0}) × SessionStore D J)
      → continue r.0 (λ _. modify (set_context id (acknowledge ids rs c)) >> pure rs) r.1
        ≡ (ok us, t)
      → Settled ids id t
  unfolding ◌>>=◌ acknowledge
  written-Settled id ids c rs us t (err e, s) h = cc
  written-Settled id ids c rs us t (ok a, s) h =
      let new = acknowledge ids rs c in
      let q : set_context id new s ≡ t = cc in
      (
        new,
        subst (λ u. lookup id u.sessions ≡ some new) q
            (ground (arith, ==_iff id id, lookup-put id id new s.sessions)),
        selected_none ids c.pending_steering_ids,
      )

  mark_in-Settled :
      (now : ℕ) (id : String) (ids ps : List String) (c : Context J) (s t : SessionStore D J)
      (us : List (Steering J))
      → lookup id s.sessions ≡ some c
      → selected ids c ≡ ps
      → mark_in codec persistence now id ids c ps s ≡ (ok us, t)
      → Settled ids id t
  unfolding ◌>>=◌
  mark_in-Settled now id ids [] c s t us e f h =
      let q : s ≡ t = cc in (c, subst (λ u. lookup id u.sessions ≡ some c) q e, f)
  mark_in-Settled now id ids (p ∷ ps) c s t us e f h = go (records_at c.steering_index (p ∷ ps)) h
    where
      go :
          (rr : Result StoreError (List (Steering J)))
          → (do
            rs ← of_result rr
            on_db tt (persistence.mark_steering (p ∷ ps) delivered now)
            modify (set_context id (acknowledge ids (map (deliver now) rs) c))
            pure (map (deliver now) rs))
              s
            ≡ (ok us, t)
          → Settled ids id t
      go (err x) k = cc
      go (ok rs) k =
          written-Settled id ids c (map (deliver now) rs) us t
            (on_db tt (persistence.mark_steering (p ∷ ps) delivered now) s) k

  -- Steering is acknowledged at most once: after a call on a cached session that returned, a second one
  -- for the same ids returns without an error and with nothing.
  pub mark_steering_twice :
      (now later : ℕ) (id : String) (ids : List String) (c : Context J) (s t : SessionStore D J)
      (us : List (Steering J))
      → lookup id s.sessions ≡ some c
      → mark_steering_delivered codec persistence now id ids s ≡ (ok us, t)
      → (mark_steering_delivered codec persistence later id ids t).0 ≡ ok []
  unfolding mark_steering_delivered ◌>>=◌
  mark_steering_twice now later id ids c s t us e h = mark-Settled later id ids t (
      mark_in-Settled now id ids _ _ (touch_session now id s) t us (touched now id s c e) refl
        (rw (cached_hit now id s c e) at h))
