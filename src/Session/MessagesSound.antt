-- ===== src/Session/MessagesSound.antt =====
-- Registering and updating messages in src/assistant_runtime/app/assistant/_session_store.py keeps every
-- cached context sound, on every branch, raising ones included.
use assistant_runtime.Prelude.{
  ℕ, ◌≡◌, String, Bool, true, false, not, ◌&&◌, Option, none, some, List, Dict, lookup, has,
  is_some, is_empty, arith, string_eq, nat_eq, Bool-cases, Option-cases, put-put, AllValues-put,
  inl, inr, ◌>>=◌,
}
use assistant_runtime.Prelude.Triples.{
  Keeps, Always, Keeps-pure, Keeps-raise, Keeps-bind, Keeps-modify, Keeps-raise_if, Keeps-if,
}
use assistant_runtime.Session.Types.{Message, Context, Request}
use assistant_runtime.Session.Context.{latest_leaf_id}
use assistant_runtime.Session.StaleTools.{Codec}
use assistant_runtime.Session.Persistence.{SessionPersistence}
use assistant_runtime.Session.Messages.{
  Place, bind_context, user_record, publish, write_message, save_session_state, unshadow,
  shadowed_by, at_leaf, under_parent, place, bind_if, register_user_message, is_first, truthy_or,
}
use assistant_runtime.Session.Paths.{PathTo, root, child}
use assistant_runtime.Session.Invariant.{IsSound, IsParent, publish-IsSound}
use assistant_runtime.Session.Leaves.{latest_leaf-IsParent, some_found}
use assistant_runtime.Session.CacheSound.{
  AllSound, MaybeSound, LoadsTrees, set_context-AllSound, get_context-AllSound, write-AllSound,
  load_session-AllSound, get_context_if_exists-AllSound,
}

pub not-false : {b : Bool} → not b ≡ false → b ≡ true
not-false {b} h = ground arith

pub missing :
    {J : Type 0} (id : String) (index : Dict String (Message J))
    → has id index ≡ false
    → lookup id index ≡ none
unfolding has
missing id index h = ground arith

module _ {D J : Type 0} where
  -- The context that a publication leaves, in place of the session's.
  pub publish-AllSound :
      (id : String) (c : Context J) (m : Message J)
      → IsSound c
      → has m.id c.message_index ≡ false
      → IsParent c.message_index m.parent_id
      → Keeps (AllSound {D = D} {J = J}) (publish id c m) IsSound
  unfolding publish ◌>>=◌
  publish-AllSound id c m s fresh par =
      let (c', e, s', _, _) = publish-IsSound c m s (missing m.id c.message_index fresh) par in
      record {
        at = λ t a. rw (e, publish) (rw put-put (AllValues-put IsSound id c' t.sessions a s', s'));
      }

module _ {J : Type 0} where
  -- A place in a sound context, under a parent that is there.
  pub record IsPlace (p : Place J) : Type 0 where
    pub sound : IsSound p.context
    pub parent : IsParent p.context.message_index p.parent_id

  path-IsParent :
      {index : Dict String (Message J)} {leaf : Option String} {ms : List (Message J)}
      → PathTo index leaf ms
      → IsParent index leaf
  path-IsParent root = tt
  path-IsParent (child {m = m} found up e) = (m, found)

  truthy_or-IsParent :
      (index : Dict String (Message J)) (a b : Option String)
      → IsParent index a
      → IsParent index b
      → IsParent index (truthy_or a b)
  truthy_or-IsParent index none b ha hb = hb
  truthy_or-IsParent index (some id) b ha hb = elim (Bool-cases (is_empty id)) [
    | inl e ↦ rw e hb
    | inr e ↦ rw e ha
  ]

  leaf-IsParent :
      (c : Context J)
      → IsSound c
      → IsParent c.message_index (truthy_or c.active_leaf_id (latest_leaf_id c))
  leaf-IsParent c s =
      truthy_or-IsParent c.message_index c.active_leaf_id (latest_leaf_id c)
        (path-IsParent s.cached) (latest_leaf-IsParent c s.indexed)

module _ {D J : Type 0} (codec : Codec J) (persistence : SessionPersistence D J)
    (loads : LoadsTrees persistence) where
  pub save_session_state-AllSound :
      (id : String) → Keeps AllSound (save_session_state codec persistence id) Always
  unfolding save_session_state
  save_session_state-AllSound id = record {
    at = λ s a. elim (Option-cases (lookup id s.sessions)) [
      | inl e ↦ rw (e, save_session_state) ((Keeps-pure tt Always tt).at s a)
      | inr (c, e) ↦
          rw (e, save_session_state) ((write-AllSound (persistence.save_state id c)).at s a)
    ];
  }

  shadowed_by-AllSound :
      (id : String) (c : Context J) (l : Option (Context J))
      → IsSound c
      → MaybeSound l
      → Keeps AllSound (shadowed_by codec persistence id c l) MaybeSound
  shadowed_by-AllSound id c none s h = Keeps-pure (some c) MaybeSound s
  shadowed_by-AllSound id c (some l) s h =
      Keeps-bind _ _ (Keeps-modify _ (set_context-AllSound id l h))
        λ _ _. Keeps-pure (some l) MaybeSound h

  pub unshadow-AllSound :
      (now : ℕ) (id : String) (c : Option (Context J))
      → MaybeSound c
      → Keeps AllSound (unshadow codec persistence now id c) MaybeSound
  unshadow-AllSound now id none h = Keeps-pure none MaybeSound tt
  unshadow-AllSound now id (some c) h = record {
    at = λ s a. elim (Bool-cases (is_first c && is_some s.db)) [
      | inl e ↦ rw e (
          (Keeps-bind _ _ (load_session-AllSound codec persistence loads now id)
              (λ l k. shadowed_by-AllSound id c l h k)).at
            s a)
      | inr e ↦ rw e (a, h)
    ];
  }

  pub at_leaf-AllSound :
      (now : ℕ) (id : String) (owner : Option String) (c : Option (Context J))
      → MaybeSound c
      → Keeps AllSound (at_leaf codec persistence now id owner c) IsPlace
  at_leaf-AllSound now id owner none h = record {
    at = λ s a.
        let (a', k) = get_context-AllSound now id s a in (a', record { sound = k; parent = tt });
  }
  at_leaf-AllSound now id owner (some c) h =
      Keeps-if (is_first c) _ _ IsPlace
        (λ _. Keeps-pure _ IsPlace (record { sound = h; parent = tt }))
        (λ _. Keeps-pure _ IsPlace (record { sound = h; parent = leaf-IsParent c h }))

  under_parent-AllSound :
      (parent : String) (c : Option (Context J))
      → MaybeSound c
      → Keeps AllSound (under_parent codec persistence parent c) IsPlace
  under_parent-AllSound parent none h = Keeps-raise _ IsPlace
  under_parent-AllSound parent (some c) h = Keeps-bind _ _ (Keeps-raise_if _ _) λ _ e.
      Keeps-pure _ IsPlace
        (record { sound = h; parent = some_found parent c.message_index (not-false e) })

  place-AllSound :
      (now : ℕ) (id : String) (owner parent : Option String) (c : Option (Context J))
      → MaybeSound c
      → Keeps AllSound (place codec persistence now id owner parent c) IsPlace
  place-AllSound now id owner none c h =
      Keeps-bind _ _ (unshadow-AllSound now id c h) (at_leaf-AllSound now id owner)
  place-AllSound now id owner (some parent) c h = under_parent-AllSound parent c h

  bind_if-AllSound :
      (b : Bool) (id : String) (profile subject : Option String)
      → Keeps AllSound (bind_if codec persistence b id profile subject) Always
  bind_if-AllSound false id profile subject = Keeps-pure tt Always tt
  bind_if-AllSound true id profile subject =
      write-AllSound (persistence.set_binding id profile subject)

  pub write_message-AllSound :
      (id : String) (c : Context J) (owner profile subject : Option String) (m : Message J)
      → Keeps AllSound (write_message codec persistence id c owner profile subject m) Always
  unfolding write_message
  write_message-AllSound id c owner profile subject m = Keeps-bind _ _ (write-AllSound _) λ _ _.
      Keeps-bind _ _ (bind_if-AllSound _ id _ _)
        λ _ _. write-AllSound (persistence.create_message m)

  module _ (user_prompt_messages : J → ℕ → List J) where
    -- Registering a user message, raising or not, leaves every cached context sound, if every one was and
    -- the database loads a session's messages with every parent before its children.
    pub register_user_message-AllSound :
        (now : ℕ) (r : Request J) (owner_id : Option String) (prompt : Option J)
        → Keeps AllSound
            (register_user_message codec persistence user_prompt_messages now r owner_id prompt)
            Always
    unfolding register_user_message bind_context user_record
    register_user_message-AllSound now r owner_id prompt =
        Keeps-bind _ _ (Keeps-raise_if _ _) λ _ _.
          Keeps-bind _ _ (get_context_if_exists-AllSound codec persistence loads now r.session_id)
            λ found h.
              Keeps-bind _ _ (place-AllSound now r.session_id owner_id r.parent_id found h) λ p k.
                Keeps-bind _ _ (Keeps-raise_if _ _) λ _ fresh.
                  Keeps-bind _ _
                    (write_message-AllSound r.session_id p.context p.new_owner r.profile r.subject
                      _)
                    λ _ _.
                      Keeps-bind _ _ (publish-AllSound r.session_id _ _ k.sound fresh k.parent)
                        λ c s.
                          Keeps-bind _ _ (Keeps-modify _ (set_context-AllSound r.session_id _ s))
                            λ _ _.
                              Keeps-bind _ _ (save_session_state-AllSound r.session_id)
                                λ _ _. Keeps-pure _ Always tt
