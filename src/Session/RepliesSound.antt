-- ===== src/Session/RepliesSound.antt =====
-- Assistant and host messages, and updates, in src/assistant_runtime/app/assistant/_session_store.py
-- keep every cached context sound, on every branch, raising ones included.
use assistant_runtime.Prelude.{
  ℕ, ◌≡◌, refl, ap, String, Option, none, some, List, [], ◌∷◌, ◌==◌, lookup, string_eq,
  Option-cases, inl, inr, if◌then◌else◌,
}
use assistant_runtime.Prelude.Triples.{
  Keeps, Always, Keeps-pure, Keeps-raise, Keeps-bind, Keeps-modify, Keeps-raise_if,
}
use assistant_runtime.Session.Types.{Message, Segment, Context}
use assistant_runtime.Session.StaleTools.{Codec}
use assistant_runtime.Session.Persistence.{SessionPersistence, MessageChanges}
use assistant_runtime.Session.Messages.{
  UsageChange, bind_context, changed, publish_update, replace_on_path, resolve_usage,
}
use assistant_runtime.Session.Paths.{replace}
use assistant_runtime.Session.Replies.{
  host_record, answer_in, update_found, with_usage, register_assistant_message,
  register_host_message, update_message,
}
use assistant_runtime.Session.Invariant.{IsSound}
use assistant_runtime.Session.Replaced.{replace-IsSound}
use assistant_runtime.Session.Leaves.{some_found}
use assistant_runtime.Session.CacheSound.{
  AllSound, MaybeSound, LoadsTrees, set_context-AllSound, write-AllSound,
  get_context_if_exists-AllSound,
}
use assistant_runtime.Session.MessagesSound.{
  not-false, publish-AllSound, save_session_state-AllSound, unshadow-AllSound, at_leaf-AllSound,
  write_message-AllSound,
}

module _ {J : Type 0} where
  replace_on_path-eq :
      (id : String) (new : Message J) (ms : List (Message J))
      → replace_on_path id new ms ≡ replace id new ms
  replace_on_path-eq id new [] = refl
  replace_on_path-eq id new (m ∷ ms) =
      ap (λ (l : List (Message J)). (if m.id == id then new else m) ∷ l)
        (replace_on_path-eq id new ms)

  publish_update-IsSound :
      (id : String) (now : ℕ) (ch : MessageChanges J) (m : Message J) (c : Context J)
      → IsSound c
      → lookup id c.message_index ≡ some m
      → IsSound (publish_update id (changed now ch m) c)
  unfolding publish_update changed
  publish_update-IsSound id now ch m c s found =
      rw replace_on_path-eq (replace-IsSound c id m (changed now ch m) s found refl refl)

module _ {D J : Type 0} (codec : Codec J) (persistence : SessionPersistence D J)
    (loads : LoadsTrees persistence) where
  answer_in-AllSound :
      (parent : String) (c : Option (Context J)) (m : Message J)
      → m.parent_id ≡ some parent
      → MaybeSound c
      → Keeps AllSound (answer_in codec persistence parent c m) Always
  answer_in-AllSound parent none m e s = Keeps-raise _ Always
  answer_in-AllSound parent (some c) m e s = Keeps-bind _ _ (Keeps-raise_if _ _) λ _ here.
      Keeps-bind _ _ (Keeps-raise_if _ _) λ _ _. Keeps-bind _ _ (Keeps-raise_if _ _) λ _ fresh.
        Keeps-bind _ _ (write-AllSound (persistence.create_message m)) λ _ _.
          Keeps-bind _ _
            (publish-AllSound m.session_id c m s fresh
              (rw e (some_found parent c.message_index (not-false here))))
            λ _ _. Keeps-pure m Always tt

  -- Registering an assistant message, raising or not, leaves every cached context sound, if every one was and
  -- the database loads a session's messages with every parent before its children.
  pub register_assistant_message-AllSound :
      (now : ℕ) (session_id id parent_id content : String) (segments : Option (List (Segment J)))
      (usage : Option J) (created_at : Option ℕ) (prompt : Option J)
      (model_messages : Option (List J))
      → Keeps AllSound
          (register_assistant_message codec persistence now session_id id parent_id content segments
            usage created_at prompt model_messages)
          Always
  unfolding register_assistant_message
  register_assistant_message-AllSound now session_id id parent_id content segments usage created_at
        prompt model_messages =
      Keeps-bind _ _ (get_context_if_exists-AllSound codec persistence loads now session_id)
        λ c s. answer_in-AllSound parent_id c _ refl s

  -- Registering a host message, raising or not, leaves every cached context sound, if every one was and
  -- the database loads a session's messages with every parent before its children.
  pub register_host_message-AllSound :
      (now : ℕ) (session_id id content : String) (segments : List (Segment J))
      (owner_id profile subject : Option String)
      → Keeps AllSound
          (register_host_message codec persistence now session_id id content segments owner_id
            profile subject)
          Always
  unfolding register_host_message bind_context host_record
  register_host_message-AllSound now session_id id content segments owner_id profile subject =
      Keeps-bind _ _ (get_context_if_exists-AllSound codec persistence loads now session_id)
        λ found h.
          Keeps-bind _ _ (unshadow-AllSound codec persistence loads now session_id found h) λ c s.
            Keeps-bind _ _ (at_leaf-AllSound codec persistence loads now session_id owner_id c s)
              λ p k. Keeps-bind _ _ (Keeps-raise_if _ _) λ _ fresh.
                Keeps-bind _ _
                  (write_message-AllSound codec persistence loads session_id p.context p.new_owner
                    profile subject _)
                  λ _ _.
                    Keeps-bind _ _ (publish-AllSound session_id _ _ k.sound fresh k.parent) λ _ _.
                      Keeps-bind _ _
                        (save_session_state-AllSound codec persistence loads session_id)
                        λ _ _. Keeps-pure _ Always tt

  update_found-AllSound :
      (now : ℕ) (session_id id : String) (u : UsageChange J) (ch : MessageChanges J)
      (c : Option (Context J))
      → MaybeSound c
      → Keeps AllSound (update_found codec persistence now session_id id u ch c) Always
  update_found-AllSound now session_id id u ch none s = Keeps-raise _ Always
  update_found-AllSound now session_id id u ch (some c) s =
      elim (Option-cases (lookup id c.message_index)) [
        | inl e ↦ rw (e, update_found) (Keeps-raise _ Always)
        | inr (m, e) ↦
            rw (e, update_found)
              (Keeps-bind _ _ (write-AllSound _) λ _ _.
                Keeps-bind _ _
                  (Keeps-modify _ (
                    set_context-AllSound session_id _ (
                      publish_update-IsSound id now
                        (with_usage codec persistence (resolve_usage u m.usage) ch) m c s e)))
                  λ _ _. Keeps-pure _ Always tt)
      ]

  -- Updating a message, raising or not, leaves every cached context sound, if every one was and
  -- the database loads a session's messages with every parent before its children.
  pub update_message-AllSound :
      (now : ℕ) (session_id id : String) (u : UsageChange J) (ch : MessageChanges J)
      → Keeps AllSound (update_message codec persistence now session_id id u ch) Always
  unfolding update_message
  update_message-AllSound now session_id id u ch =
      Keeps-bind _ _ (get_context_if_exists-AllSound codec persistence loads now session_id)
        λ c s. update_found-AllSound now session_id id u ch c s
