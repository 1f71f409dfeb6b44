-- ===== src/Session/StateSound.antt =====
-- The methods of _session_store.py on steering and on a session's state leave the trees as they are.
use assistant_runtime.Prelude.{
  ℕ, String, Option, none, some, List, [], ◌∷◌, Result, ok, err, modify,
}
use assistant_runtime.Prelude.Triples.{
  Keeps, Always, Keeps-pure, Keeps-raise, Keeps-raise_if, Keeps-modify, Keeps-bind,
}
use assistant_runtime.Session.Types.{Context, SteeringStatus, Request}
use assistant_runtime.Session.Context.{add_steering}
use assistant_runtime.Session.StaleTools.{Codec}
use assistant_runtime.Session.Persistence.{SessionPersistence, StoreError}
use assistant_runtime.Session.Cache.{set_context}
use assistant_runtime.Session.Loading.{or_new, get_context_async}
use assistant_runtime.Session.Invariant.{IsSound}
use assistant_runtime.Session.CacheSound.{
  AllSound, MaybeSound, LoadsTrees, set_context-AllSound, write-AllSound, get_context-AllSound,
  get_context_if_exists-AllSound,
}
use assistant_runtime.Session.Steering.{
  required, of_result, acknowledge, mark_in, selected, queue_steering, mark_steering_delivered,
}
use assistant_runtime.Session.State.{set_owner, ensure_owned_session}

module _ {D J : Type 0} where
  pub required-IsSound :
      (found : Option (Context J))
      → MaybeSound found
      → Keeps (AllSound {D = D}) (required found) IsSound
  required-IsSound none h = Keeps-raise _ IsSound
  required-IsSound (some c) h = Keeps-pure c IsSound h

  of_result-AllSound :
      {A : Type 0} (r : Result StoreError A) → Keeps (AllSound {D = D} {J = J}) (of_result r) Always
  of_result-AllSound (ok a) = Keeps-pure a Always tt
  of_result-AllSound (err e) = Keeps-raise e Always

  pub set-AllSound :
      (id : String) (c : Context J)
      → IsSound c
      → Keeps {E = StoreError} (AllSound {D = D}) (modify (set_context id c)) Always
  set-AllSound id c h = Keeps-modify _ (set_context-AllSound id c h)

  or_new-AllSound :
      (codec : Codec J) (persistence : SessionPersistence D J) (now : ℕ) (id : String)
      (found : Option (Context J))
      → MaybeSound found
      → Keeps AllSound (or_new codec persistence now id found) IsSound
  or_new-AllSound codec persistence now id none h = record {
    at = λ s a. get_context-AllSound now id s a;
  }
  or_new-AllSound codec persistence now id (some c) h = Keeps-pure c IsSound h

module _ {D J : Type 0} (codec : Codec J) (persistence : SessionPersistence D J)
    (loads : LoadsTrees persistence) where
  -- Queueing steering, raising or not, leaves every cached context sound, if every one was and
  -- the database loads a session's messages with every parent before its children.
  pub queue_steering-AllSound :
      (now : ℕ) (id : String) (r : Request J) (status : SteeringStatus) (delivered_at : Option ℕ)
      → Keeps AllSound (queue_steering codec persistence now id r status delivered_at) Always
  unfolding queue_steering add_steering
  queue_steering-AllSound now id r status delivered_at =
      Keeps-bind _ _ (get_context_if_exists-AllSound codec persistence loads now id) λ found h.
        Keeps-bind _ _ (required-IsSound found h) λ c s. Keeps-bind _ _ (Keeps-raise_if _ _) λ _ _.
          Keeps-bind _ _ (write-AllSound _)
            λ _ _. Keeps-bind _ _ (set-AllSound id _ s) λ _ _. Keeps-pure _ Always tt

  mark_in-AllSound :
      (now : ℕ) (id : String) (ids : List String) (c : Context J) (ps : List String)
      → IsSound c
      → Keeps AllSound (mark_in codec persistence now id ids c ps) Always
  unfolding acknowledge
  mark_in-AllSound now id ids c [] s = Keeps-pure [] Always tt
  mark_in-AllSound now id ids c (p ∷ ps) s = Keeps-bind _ _ (of_result-AllSound _) λ _ _.
      Keeps-bind _ _ (write-AllSound _)
        λ _ _. Keeps-bind _ _ (set-AllSound id _ s) λ _ _. Keeps-pure _ Always tt

  -- Acknowledging steering, raising or not, leaves every cached context sound, if every one was and
  -- the database loads a session's messages with every parent before its children.
  pub mark_steering_delivered-AllSound :
      (now : ℕ) (id : String) (ids : List String)
      → Keeps AllSound (mark_steering_delivered codec persistence now id ids) Always
  unfolding mark_steering_delivered
  mark_steering_delivered-AllSound now id ids =
      Keeps-bind _ _ (get_context_if_exists-AllSound codec persistence loads now id) λ found h.
        Keeps-bind _ _ (required-IsSound found h)
          λ c s. mark_in-AllSound now id ids c (selected ids c) s

  -- Setting the owner, raising or not, leaves every cached context sound, if every one was and
  -- the database loads a session's messages with every parent before its children.
  pub set_owner-AllSound :
      (now : ℕ) (id : String) (owner : Option String)
      → Keeps AllSound (set_owner codec persistence now id owner) Always
  unfolding set_owner
  set_owner-AllSound now id owner =
      Keeps-bind _ _ (get_context_if_exists-AllSound codec persistence loads now id) λ found h.
        Keeps-bind _ _ (required-IsSound found h)
          λ c s. Keeps-bind _ _ (write-AllSound _) λ _ _. set-AllSound id _ s

  -- Getting a context, from the cache, the database or anew, raising or not, leaves every cached context
  -- sound and returns a sound one, if every one was sound and the database loads a session's messages with
  -- every parent before its children.
  pub get_context_async-AllSound :
      (now : ℕ) (id : String) → Keeps AllSound (get_context_async codec persistence now id) IsSound
  unfolding get_context_async
  get_context_async-AllSound now id =
      Keeps-bind _ _ (get_context_if_exists-AllSound codec persistence loads now id)
        λ found h. or_new-AllSound codec persistence now id found h

  -- The same for a context that is given an owner.
  pub ensure_owned_session-AllSound :
      (now : ℕ) (id owner : String)
      → Keeps AllSound (ensure_owned_session codec persistence now id owner) IsSound
  unfolding ensure_owned_session
  ensure_owned_session-AllSound now id owner =
      Keeps-bind _ _ (get_context_async-AllSound now id) λ c s.
        Keeps-bind _ _ (set-AllSound id _ s)
          λ _ _. Keeps-bind _ _ (write-AllSound _) λ _ _. Keeps-pure _ IsSound s
