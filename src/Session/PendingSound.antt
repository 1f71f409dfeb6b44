-- ===== src/Session/PendingSound.antt =====
-- The pins, the pending action, the prompt snapshots and the repair (_session_store.py) keep the trees sound.
use assistant_runtime.Prelude.{
  ℕ, ◌≡◌, refl, String, Option, none, some, List, [], ◌∷◌, lookup, ok, gets, arith, string_eq, ltb,
  Bool-cases, Option-cases, inl, inr, AllValues-put, AllValues-remove, AllValues-lookup,
}
use mathlib.Core.Path.{subst}
use assistant_runtime.Prelude.Triples.{Keeps, Always, Keeps-pure, Keeps-modify, Keeps-bind}
use assistant_runtime.Session.Types.{Message, Context}
use assistant_runtime.Session.StaleTools.{Codec, repair_stale_tools_in_context}
use assistant_runtime.Session.Persistence.{SessionPersistence, StoreError}
use assistant_runtime.Session.Cache.{SessionStore, pin, unpin}
use assistant_runtime.Session.Loading.{truthy, write_segments}
use assistant_runtime.Session.Context.{resolve_path}
use assistant_runtime.Session.InPlace.{repair-IsSound, mark_changed-IsSound}
use assistant_runtime.Session.Messages.{save_session_state}
use assistant_runtime.Session.State.{
  delete_session, set_pending_action, clear_pending_action, clear_in, repair_stale_host_tools,
  resolved, or_context, save_prompt_snapshot,
}
use assistant_runtime.Session.Invariant.{IsSound, cached_path_exact}
use assistant_runtime.Session.CacheSound.{
  AllSound, LoadsTrees, set_context-AllSound, get_context-AllSound, write-AllSound,
  get_context_if_exists-AllSound,
}
use assistant_runtime.Session.StateSound.{set-AllSound, required-IsSound}

module _ {D J : Type 0} where
  pub pin-AllSound : (id : String) (s : SessionStore D J) → AllSound s → AllSound (pin id s)
  unfolding pin
  pin-AllSound id s a = elim (Option-cases (lookup id s.pinned)) [
    | inl e ↦ rw (e, pin) a
    | inr (n, e) ↦ rw (e, pin) a
  ]

  pub unpin-AllSound : (id : String) (s : SessionStore D J) → AllSound s → AllSound (unpin id s)
  unfolding unpin
  unpin-AllSound id s a = elim (Option-cases (lookup id s.pinned)) [
    | inl e ↦ rw (e, unpin) a
    | inr (n, e) ↦ rw (e, unpin) (elim (Bool-cases (ltb 1 n)) [ inl f ↦ rw f a | inr f ↦ rw f a ])
  ]

module _ {D J : Type 0} (codec : Codec J) (persistence : SessionPersistence D J) where
  save_session_state-AllSound :
      (id : String) → Keeps AllSound (save_session_state codec persistence id) Always
  unfolding save_session_state
  save_session_state-AllSound id = record {
    at = λ s a. elim (Option-cases (lookup id s.sessions)) [
      | inl e ↦ rw (e, save_session_state) ((Keeps-pure tt Always tt).at s a)
      | inr (c, e) ↦
          rw (e, save_session_state) ((write-AllSound (persistence.save_state id c)).at s a)
    ];
  }

  pub delete_session-AllSound :
      (id : String) → Keeps AllSound (delete_session codec persistence id) Always
  unfolding delete_session
  delete_session-AllSound id =
      Keeps-bind _ _ (write-AllSound _)
        λ _ _. Keeps-modify _ (λ s a. AllValues-remove IsSound id s.sessions a)

  pub set_pending_action-AllSound :
      (now : ℕ) (id call tool message : String) (batch : Option (List String)) (mode : String)
      → Keeps AllSound
          (set_pending_action codec persistence now id call tool message batch mode)
          Always
  unfolding set_pending_action
  set_pending_action-AllSound now id call tool message batch mode =
      Keeps-bind _ _
        (Keeps-modify _
          (λ s a. let (b, c) = get_context-AllSound now id s a in AllValues-put IsSound id _ _ b c))
        λ _ _. save_session_state-AllSound id

  clear_in-AllSound :
      (id : String) (c : Context J) (call : Option String)
      → IsSound c
      → Keeps AllSound (clear_in codec persistence id c call) Always
  clear_in-AllSound id c none h = Keeps-pure none Always tt
  clear_in-AllSound id c (some call) h =
      Keeps-bind _ _ (Keeps-modify _ (set_context-AllSound id _ h))
        λ _ _. Keeps-bind _ _ (save_session_state-AllSound id) λ _ _. Keeps-pure _ Always tt

  pub clear_pending_action-AllSound :
      (id : String) → Keeps AllSound (clear_pending_action codec persistence id) Always
  unfolding clear_pending_action
  clear_pending_action-AllSound id = record {
    at = λ s a. elim (Option-cases (lookup id s.sessions)) [
      | inl e ↦ rw (e, clear_pending_action) (a, tt)
      | inr (c, e) ↦
          rw (e, clear_pending_action)
            ((clear_in-AllSound id c (truthy c.pending_tool_call_id)
                (AllValues-lookup IsSound id s.sessions a e)).at
              s a)
    ];
  }

  pub save_prompt_snapshot-AllSound :
      (now : ℕ) (id hash content : String)
      → Keeps AllSound (save_prompt_snapshot codec persistence now id hash content) Always
  unfolding save_prompt_snapshot
  save_prompt_snapshot-AllSound now id hash content = record {
    at = λ s a. elim (Option-cases s.db) [
      | inl e ↦
          let (b, c) = get_context-AllSound now id s a in
          rw (e, save_prompt_snapshot) (AllValues-put IsSound id _ _ b c, tt)
      | inr (d, e) ↦
          rw (e, save_prompt_snapshot)
            ((write-AllSound (persistence.save_prompt_snapshot hash content)).at _ a)
    ];
  }

module _ {D J : Type 0} (codec : Codec J) (persistence : SessionPersistence D J)
    (loads : LoadsTrees persistence) where
  truthy-some : (o : Option String) (t : String) → truthy o ≡ some t → o ≡ some t
  truthy-some none t h = cc
  truthy-some (some u) t h = ground (arith, h)

  resolved-IsSound :
      (c : Context J) (rs : List (String × Message J))
      → IsSound c
      → Keeps AllSound (resolved codec persistence c rs) IsSound
  resolved-IsSound c [] h = Keeps-pure c IsSound h
  resolved-IsSound c (r ∷ rs) h = elim (Option-cases (truthy c.active_leaf_id)) [
    | inl e ↦ rw (e, resolved) (Keeps-pure c IsSound h)
    | inr (leaf, e) ↦
        let same = truthy-some c.active_leaf_id leaf e in
        let found = subst (λ l. resolve_path c l ≡ ok c.cached_path) same (cached_path_exact c h) in
        rw (e, resolved)
          (rw found (
            Keeps-bind _ _ (Keeps-pure c.cached_path (λ p. p ≡ c.cached_path) refl)
              λ p q. Keeps-pure _ IsSound (rw q h)))
  ]

  or_context-IsSound :
      (id : String) (c : Context J)
      → IsSound c
      → Keeps {E = StoreError} AllSound
          (gets (λ (s : SessionStore D J). or_context c (lookup id s.sessions)))
          IsSound
  unfolding gets
  or_context-IsSound id c h = record {
    at = λ s a. elim (Option-cases (lookup id s.sessions)) [
      | inl e ↦ rw e (a, h)
      | inr (d, e) ↦ rw e (a, AllValues-lookup IsSound id s.sessions a e)
    ];
  }

  write_segments-AllSound :
      (rs : List (String × Message J))
      → Keeps (AllSound {D = D}) (write_segments codec persistence rs) Always
  write_segments-AllSound [] = Keeps-pure tt Always tt
  write_segments-AllSound (r ∷ rs) = write-AllSound _

  pub repair_stale_host_tools-AllSound :
      (now : ℕ) (id : String)
      → Keeps AllSound (repair_stale_host_tools codec persistence now id) Always
  unfolding repair_stale_host_tools
  repair_stale_host_tools-AllSound now id =
      Keeps-bind _ _ (get_context_if_exists-AllSound codec persistence loads now id) λ found h.
        Keeps-bind _ _ (required-IsSound found h) λ c s.
          Keeps-bind _ _ (clear_pending_action-AllSound codec persistence id) λ _ _.
            Keeps-bind _ _ (or_context-IsSound id c s) λ c1 s1.
              let s2 = repair-IsSound codec [] c1 s1 in
              let s3 =
                mark_changed-IsSound now _ (repair_stale_tools_in_context codec [] c1).0 s2 in
              Keeps-bind _ _ (set-AllSound id _ s2) λ _ _.
                Keeps-bind _ _ (write_segments-AllSound _) λ _ _.
                  Keeps-bind _ _ (set-AllSound id _ s3) λ _ _.
                    Keeps-bind _ _ (resolved-IsSound _ _ s3)
                      λ c3 s4. Keeps-bind _ _ (set-AllSound id _ s4) λ _ _. Keeps-pure _ Always tt
