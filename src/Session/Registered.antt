-- ===== src/Session/Registered.antt =====
-- A user message under a message of a cached session is registered (_session_store.py, without a database).
use assistant_runtime.Prelude.{
  ℕ, ◌≡◌, refl, String, Bool, true, false, not, Option, none, some, List, ==_iff, Dict, lookup, has,
  put, lookup-put, ok, Exec, pure, raise, raise_if, modify, ◌>>=◌, arith, string_eq,
}
use assistant_runtime.Session.Types.{Message, Request, Context}
use assistant_runtime.Session.Context.{add_message, refresh_cached_path_for_new_leaf}
use assistant_runtime.Session.StaleTools.{Codec}
use assistant_runtime.Session.Persistence.{SessionPersistence, StoreError}
use assistant_runtime.Session.Cache.{SessionStore, touch_session, set_context, on_db}
use assistant_runtime.Session.Messages.{
  is_steering, bind_if, bind_context, user_record, counted, publish, save_session_state, place,
  write_message, register_user_message,
}
use assistant_runtime.Session.Invariant.{IsSound, publish-IsSound}
use assistant_runtime.Session.State.{get_message}
use assistant_runtime.Session.Delivery.{cached_hit}

module _ {S E A B : Type 0} where
  Returns-bind :
      (m : Exec S E A) (f : A → Exec S E B) (s t u : S) (a : A) (b : B)
      → m s ≡ (ok a, t)
      → f a t ≡ (ok b, u)
      → (m >>= f) s ≡ (ok b, u)
  unfolding ◌>>=◌
  Returns-bind m f s t u a b p q = rw p q

module _ {S E : Type 0} where
  raise_if-passes : (b : Bool) (e : E) (s : S) → b ≡ false → raise_if b e s ≡ (ok tt, s)
  unfolding raise_if pure raise
  raise_if-passes true e s h = cc
  raise_if-passes false e s h = refl

module _ {S E A : Type 0} where
  pure-ok : (a : A) (s : S) → pure {E = E} a s ≡ (ok a, s)
  unfolding pure
  pure-ok a s = refl

module _ {S E : Type 0} where
  modify-ok : (f : S → S) (s : S) → modify {E = E} f s ≡ (ok tt, f s)
  unfolding modify
  modify-ok f s = refl

module _ {J : Type 0} where
  get-found :
      {D : Type 0} (id message_id : String) (c : Context J) (m : Message J) (s : SessionStore D J)
      → lookup message_id c.message_index ≡ some m
      → get_message id message_id (set_context id c s) ≡ some m
  unfolding get_message
  get-found id message_id c m s h = ground (arith, ==_iff id id, lookup-put id id c s.sessions)

  in_index :
      (index old : Dict String (Message J)) (id : String) (m : Message J)
      → index ≡ put id m old
      → lookup id index ≡ some m
  in_index index old id m h = rw h (ground (arith, ==_iff id id, lookup-put id id m old))

  has-found :
      (id : String) (index : Dict String (Message J)) (m : Message J)
      → lookup id index ≡ some m
      → not (has id index) ≡ false
  unfolding has
  has-found id index m h = ground arith

  has-missing :
      (id : String) (index : Dict String (Message J))
      → lookup id index ≡ none
      → has id index ≡ false
  unfolding has
  has-missing id index h = ground arith

module _ {D J : Type 0} (codec : Codec J) (persistence : SessionPersistence D J) where
  place-ok :
      (now : ℕ) (id : String) (owner pid : Option String) (parent : String) (c : Context J)
      (q : Message J) (s : SessionStore D J)
      → pid ≡ some parent
      → lookup parent c.message_index ≡ some q
      → place codec persistence now id owner pid (some c) s
        ≡ (ok (record { context = c; new_owner = none; parent_id = some parent }), s)
  place-ok now id owner pid parent c q s e f = rw e (
      Returns-bind _ _ s s s tt _ (raise_if-passes _ _ s (has-found parent c.message_index q f))
        (pure-ok _ s))

  touched-db :
      (now : ℕ) (id : String) (s : SessionStore D J) (c : Context J)
      → lookup id s.sessions ≡ some c
      → s.db ≡ none
      → (touch_session now id s).db ≡ none
  unfolding touch_session
  touched-db now id s c e d = rw (e, touch_session) d

  on_db-none :
      {A : Type 0} (a : A) (op : Exec D StoreError A) (s : SessionStore D J)
      → s.db ≡ none
      → on_db a op s ≡ (ok a, s)
  on_db-none a op s d = rw d refl

  bind_if-none :
      (b : Bool) (id : String) (profile subject : Option String) (s : SessionStore D J)
      → s.db ≡ none
      → bind_if codec persistence b id profile subject s ≡ (ok tt, s)
  unfolding pure
  bind_if-none true id profile subject s d = on_db-none tt _ s d
  bind_if-none false id profile subject s d = refl

  write_message-none :
      (id : String) (c : Context J) (owner profile subject : Option String) (m : Message J)
      (s : SessionStore D J)
      → s.db ≡ none
      → write_message codec persistence id c owner profile subject m s ≡ (ok tt, s)
  unfolding write_message
  write_message-none id c owner profile subject m s d =
      Returns-bind _ _ s s s tt tt (on_db-none tt _ s d)
        (Returns-bind _ _ s s s tt tt (bind_if-none _ id _ _ s d) (on_db-none tt _ s d))

  publish-ok :
      (id : String) (c c' : Context J) (m : Message J) (s : SessionStore D J)
      → refresh_cached_path_for_new_leaf (add_message c m) m ≡ ok c'
      → publish id c m s ≡ (ok c', set_context id c' (set_context id (add_message c m) s))
  unfolding publish ◌>>=◌
  publish-ok id c c' m s e = rw e refl

  save-ok :
      (id : String) (c : Context J) (s : SessionStore D J)
      → s.db ≡ none
      → save_session_state codec persistence id (set_context id c s) ≡ (ok tt, set_context id c s)
  unfolding save_session_state
  save-ok id c s d = ground (arith, ==_iff id id, lookup-put id id c s.sessions)

  module _ (user_prompt_messages : J → ℕ → List J) where
    -- Without a database, a request that is no steering, with a new id and under a message of its cached
    -- and sound session, is registered: the call returns, the message that it returns is found under the
    -- request's id, and it is the session's active leaf.
    pub register_user_message_found :
        (now : ℕ) (r : Request J) (owner : Option String) (prompt : Option J) (s : SessionStore D J)
        (c : Context J) (parent : String) (q : Message J)
        → s.db ≡ none
        → lookup r.session_id s.sessions ≡ some c
        → IsSound c
        → is_steering r.message_type ≡ false
        → r.parent_id ≡ some parent
        → lookup parent c.message_index ≡ some q
        → lookup r.id c.message_index ≡ none
        → (c' : Context J) × (m : Message J) × (t : SessionStore D J) × (register_user_message codec
              persistence user_prompt_messages now r owner prompt s
            ≡ (ok (c', m), t))
          × (get_message r.session_id r.id t ≡ some m)
          × (c'.active_leaf_id ≡ some r.id)
    unfolding register_user_message bind_context user_record
    register_user_message_found now r owner prompt s c parent q d e sound st par found fresh =
        let s1 = touch_session now r.session_id s in
        let c1 : Context J = record c { used_at = some now } in
        let m =
          user_record r (some parent)
            (user_prompt_messages (elim prompt [ none ↦ codec.text r.content | some j ↦ j ]) now)
            now in
        let c2 = bind_context c1 none r.profile r.subject in
        let (c3, e3, sound3, leaf, index) = publish-IsSound c2 m sound fresh (q, found) in
        let c4 = counted r c3 in
        let s3 = set_context r.session_id c3 (set_context r.session_id (add_message c2 m) s1) in
        let s4 = set_context r.session_id c4 s3 in
        let d1 = touched-db now r.session_id s c e d in
        (
          c4,
          m,
          s4,
          Returns-bind _ _ s s s4 tt (c4, m) (raise_if-passes _ _ s st)
              (Returns-bind _ _ s s1 s4 _ (c4, m)
                (cached_hit codec persistence now r.session_id s c e)
                (Returns-bind _ _ s1 s1 s4 _ (c4, m)
                  (place-ok now r.session_id owner r.parent_id parent c1 q s1 par found)
                  (Returns-bind _ _ s1 s1 s4 tt (c4, m)
                    (raise_if-passes _ _ s1 (has-missing r.id c.message_index fresh))
                    (Returns-bind _ _ s1 s1 s4 tt (c4, m)
                      (write_message-none r.session_id c1 none r.profile r.subject m s1 d1)
                      (Returns-bind _ _ s1 s3 s4 c3 (c4, m) (publish-ok r.session_id c2 c3 m s1 e3)
                        (Returns-bind _ _ s3 s4 s4 tt (c4, m) (modify-ok _ s3)
                          (Returns-bind _ _ s4 s4 s4 tt (c4, m) (save-ok r.session_id c4 s3 d1)
                            (pure-ok _ s4)))))))),
          get-found r.session_id r.id c4 m s3 (in_index _ c.message_index r.id m index),
          leaf,
        )
