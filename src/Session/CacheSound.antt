-- ===== src/Session/CacheSound.antt =====
-- The cache of src/assistant_runtime/app/assistant/_session_store.py holds sound contexts only: getting,
-- evicting, touching and loading keep that.
use Prim.Native.Nat.{pred}
use assistant_runtime.Prelude.{
  ℕ, ◌≡◌, refl, ap, ◌∙◌, leb, String, Option, none, some, List, [], ◌∷◌, Dict, size, lookup, remove,
  has, Result, ok, err, Exec, string_eq, Bool-cases, Option-cases, inl, inr, AllValues,
  AllValues-put, AllValues-remove, AllValues-lookup,
}
use assistant_runtime.Prelude.Triples.{Keeps, Always, Post, Keeps-pure, Keeps-bind, Keeps-modify}
use assistant_runtime.Session.Types.{
  Message, Segment, ToolEntry, Context, LoadedSession, PendingAction,
}
use assistant_runtime.Session.Context.{context_from_loaded}
use assistant_runtime.Session.StaleTools.{Codec, repair_stale_tools_in_context}
use assistant_runtime.Session.Persistence.{SessionPersistence, StoreError}
use assistant_runtime.Session.Cache.{
  SessionStore, evict_loop, evict_if_needed, touch_session, set_context, get_context, on_db,
  of_path, with_db,
}
use assistant_runtime.Session.Loading.{
  restore_pending_action, load_session, truthy, restored, write_segments, drop_stored, hydrate,
  publish_loaded, touch_if, get_context_if_exists, keep_ids,
}
use assistant_runtime.Session.Invariant.{IsSound}
use assistant_runtime.Session.Loaded.{Addable, context_from_loaded-IsSound, empty_context-IsSound}
use assistant_runtime.Session.InPlace.{repair-IsSound, mark_changed-IsSound}

-- Every cached context is sound.
abbrev pub AllSound : {D J : Type 0} → SessionStore D J → Type 0
AllSound s = AllValues IsSound s.sessions

abbrev pub MaybeSound : {J : Type 0} → Option (Context J) → Type 0
MaybeSound none = Unit
MaybeSound (some c) = IsSound c

AllValues-evict_loop :
    {A : Type 0} (P : A → Type 0) (left : ℕ) (pinned : Dict String ℕ) (d : Dict String A)
    → AllValues P d
    → AllValues P (evict_loop left pinned d)
unfolding evict_loop
AllValues-evict_loop P left pinned [] a = tt
AllValues-evict_loop P left pinned ((k, c) ∷ d) a = elim (Bool-cases (leb left 0)) [
  | inl e ↦ rw e a
  | inr e ↦ rw e (elim (Bool-cases (has k pinned)) [
    | inl h ↦ rw h (a.0, AllValues-evict_loop P left pinned d a.1)
    | inr h ↦ rw h (AllValues-evict_loop P (pred left) pinned d a.1)
  ])
]

module _ {D J : Type 0} where
  pub evict_if_needed-AllSound : (s : SessionStore D J) → AllSound s → AllSound (evict_if_needed s)
  unfolding evict_if_needed
  evict_if_needed-AllSound s a = elim (Bool-cases (leb (size s.sessions) 200)) [
    | inl e ↦ rw e a
    | inr e ↦ rw e (AllValues-evict_loop IsSound _ s.pinned s.sessions a)
  ]

  pub set_context-AllSound :
      (id : String) (c : Context J)
      → IsSound c
      → (s : SessionStore D J) → AllSound s
      → AllSound (set_context id c s)
  set_context-AllSound id c sc s a = AllValues-put IsSound id c s.sessions a sc

  pub touch_session-AllSound :
      (now : ℕ) (id : String) (s : SessionStore D J)
      → AllSound s
      → AllSound (touch_session now id s)
  unfolding touch_session
  touch_session-AllSound now id s a = elim (Option-cases (lookup id s.sessions)) [
    | inl e ↦ rw e a
    | inr (c, e) ↦ rw e (
        AllValues-put IsSound id _ (remove id s.sessions) (AllValues-remove IsSound id s.sessions a)
          (AllValues-lookup IsSound id s.sessions a e))
  ]

  pub get_context-AllSound :
      (now : ℕ) (id : String) (s : SessionStore D J)
      → AllSound s
      → AllSound (get_context now id s).1 × IsSound (get_context now id s).0
  unfolding get_context
  get_context-AllSound now id s a = elim (Option-cases (lookup id s.sessions)) [
    | inl e ↦
        let fresh = empty_context-IsSound in
        rw (e, get_context)
          (
            set_context-AllSound id _ fresh (evict_if_needed s) (evict_if_needed-AllSound s a),
            fresh,
          )
    | inr (c, e) ↦
        rw (e, get_context)
          (touch_session-AllSound now id s a, AllValues-lookup IsSound id s.sessions a e)
  ]

  -- The database's calls do not touch the cache.
  pub on_db-AllSound :
      {A : Type 0} (F : A → Type 0) (default : A) (op : Exec D StoreError A)
      → F default
      → ((d : D) (a : A) → (op d).0 ≡ ok a → F a)
      → Keeps (AllSound {D = D} {J = J}) (on_db default op) F
  on_db-AllSound {A} F default op f0 f = record { at = λ s a. go s a s.db }
    where
      done :
          (s : SessionStore D J)
          → AllSound s
          → (r : Result StoreError A × D) → ((x : A) → r.0 ≡ ok x → F x)
          → Post AllSound F (with_db s r)
      done s a (ok x, d) g = (a, g x refl)
      done s a (err e, d) g = a

      go :
          (s : SessionStore D J)
          → AllSound s
          → (db : Option D)
          → Post {E = StoreError}
              (AllSound {D = D} {J = J})
              F
              (elim db [ none ↦ (ok default, s) | some d ↦ with_db s (op d) ])
      go s a none = (a, f0)
      go s a (some d) = done s a (op d) (f d)

  pub write-AllSound :
      (op : Exec D StoreError (Unit {0})) → Keeps (AllSound {D = D} {J = J}) (on_db tt op) Always
  write-AllSound op = on_db-AllSound Always tt op tt (λ d a e. tt)

-- What the store relies on: a session's rows load in an order in which each follows its parent.
abbrev pub LoadsTrees : {D J : Type 0} → SessionPersistence D J → Type 0
LoadsTrees {D} {J} persistence =
    (id : String) (d : D) (l : LoadedSession J)
    → (persistence.load id d).0 ≡ ok (some l)
    → Addable [] l.messages

module _ {J : Type 0} where
  restored-IsSound :
      (p : PendingAction) (segments : Option (List (Segment J))) (c : Context J) (id : String)
      (t : Option (ToolEntry J))
      → IsSound c
      → IsSound (restored p segments c id t).1
  restored-IsSound p segments c id none s = s
  restored-IsSound p segments c id (some t) s = s

  restore-IsSound :
      (c : Context J) (p : Option PendingAction)
      → IsSound c
      → IsSound (restore_pending_action c p).1
  unfolding restore_pending_action
  restore-IsSound c none s = s
  restore-IsSound c (some p) s = elim (Option-cases (truthy p.tool_call_id)) [
    | inl e ↦ rw (e, restore_pending_action) s
    | inr (id, e) ↦ rw (e, restore_pending_action) (restored-IsSound p _ c id _ s)
  ]

-- What is found is sound.
module _ {D J : Type 0} (codec : Codec J) (persistence : SessionPersistence D J)
    (loads : LoadsTrees persistence) where
  write_segments-AllSound :
      (rs : List (String × Message J)) → Keeps AllSound (write_segments codec persistence rs) Always
  write_segments-AllSound [] = Keeps-pure tt Always tt
  write_segments-AllSound (r ∷ rs) = write-AllSound (persistence.update_segments (r ∷ rs))

  drop_stored-AllSound :
      (id : String) (p : Option PendingAction) (kept : Option String) (c : Context J)
      → Keeps AllSound (drop_stored codec persistence id p kept c) Always
  drop_stored-AllSound id none kept c = Keeps-pure tt Always tt
  drop_stored-AllSound id (some p) (some k) c = Keeps-pure tt Always tt
  drop_stored-AllSound id (some p) none c = write-AllSound (persistence.save_state id c)

  of_path-context :
      (l : LoadedSession J)
      → Addable [] l.messages
      → Keeps (AllSound {D = D} {J = J}) (of_path (context_from_loaded l)) IsSound
  of_path-context l a =
      let (c, e, s) = context_from_loaded-IsSound l a in rw e (Keeps-pure c IsSound s)

  hydrate-AllSound :
      (now : ℕ) (id : String) (l : LoadedSession J)
      → Addable [] l.messages
      → Keeps AllSound (hydrate codec persistence now id l) IsSound
  hydrate-AllSound now id l a = Keeps-bind _ _ (of_path-context l a) λ c s.
      let s1 = restore-IsSound c l.pending_action s in
      let r = restore_pending_action c l.pending_action in
      let keep = keep_ids r.0 r.1.pending_tool_batch in
      let s2 = repair-IsSound codec keep r.1 s1 in
      let fixed = repair_stale_tools_in_context codec keep r.1 in
      let s3 = mark_changed-IsSound now fixed.1 fixed.0 s2 in
      Keeps-bind _ _ (write_segments-AllSound fixed.1) λ _ _.
        Keeps-bind _ _ (drop_stored-AllSound id l.pending_action r.0 _)
          λ _ _. Keeps-pure _ IsSound s3

  publish_loaded-AllSound :
      (now : ℕ) (id : String) (l : Option (LoadedSession J))
      → ((x : LoadedSession J) → l ≡ some x → Addable [] x.messages)
      → Keeps AllSound (publish_loaded codec persistence now id l) MaybeSound
  publish_loaded-AllSound now id none a = Keeps-pure none MaybeSound tt
  publish_loaded-AllSound now id (some l) a =
      Keeps-bind _ _ (hydrate-AllSound now id l (a l refl)) λ c s.
        Keeps-bind _ _
          (Keeps-modify _
            (λ t h. set_context-AllSound id c s (evict_if_needed t) (evict_if_needed-AllSound t h)))
          λ _ _. Keeps-pure (some c) MaybeSound s

  -- A loaded session is published, and returned, as a sound context.
  pub load_session-AllSound :
      (now : ℕ) (id : String) → Keeps AllSound (load_session codec persistence now id) MaybeSound
  unfolding load_session
  load_session-AllSound now id =
      Keeps-bind _ _
        (on_db-AllSound (λ o. (x : LoadedSession J) → o ≡ some x → Addable [] x.messages) none
          (persistence.load id) (λ x e. cc) (λ d o e x f. loads id d x (e ∙ ap ok f)))
        (publish_loaded-AllSound now id)

  pub get_context_if_exists-AllSound :
      (now : ℕ) (id : String)
      → Keeps AllSound (get_context_if_exists codec persistence now id) MaybeSound
  unfolding get_context_if_exists
  get_context_if_exists-AllSound now id = record {
    at = λ s a. elim (Option-cases (lookup id s.sessions)) [
      | inl e ↦
          rw (e, get_context_if_exists)
            ((Keeps-bind _ _ (load_session-AllSound now id) touch).at s a)
      | inr (c, e) ↦
          rw (e, get_context_if_exists)
            (touch_session-AllSound now id s a, AllValues-lookup IsSound id s.sessions a e)
    ];
  }
    where
      touch :
          (o : Option (Context J))
          → MaybeSound o
          → Keeps AllSound (touch_if {D = D} codec persistence now id o) MaybeSound
      touch none s = Keeps-pure none MaybeSound tt
      touch (some c) s = record { at = λ t a. (touch_session-AllSound now id t a, s) }
