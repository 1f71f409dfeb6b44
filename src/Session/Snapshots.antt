-- ===== src/Session/Snapshots.antt =====
-- What the prompt snapshots of the session store (_session_store.py) promise.
use assistant_runtime.Prelude.{
  ℕ, zero, suc, ◌+◌, ◌-◌, ◌≤◌, ◌≡◌, refl, String, none, some, [], ◌∷◌, ◌++◌, ==_iff, Dict, size,
  lookup, put, remove, lookup-put, lookup-remove, drop, ok, arith, string_eq, inl, inr,
  Option-cases, Bool-cases, leb, ◌∙◌,
}
use assistant_runtime.Session.Types.{Context}
use assistant_runtime.Session.StaleTools.{Codec}
use assistant_runtime.Session.Persistence.{SessionPersistence}
use assistant_runtime.Session.Cache.{
  SessionStore, get_context, set_context, touch_session, evict_if_needed, on_db,
}
use assistant_runtime.Session.State.{
  keep_snapshot, snapshot_cache_size, save_prompt_snapshot, prompt_snapshot,
}

lookup-drop :
    {A : Type 0} (n : ℕ) (d : Dict String A) (k : String) (a : A)
    → n ≤ size d
    → lookup k d ≡ none
    → lookup k (drop n (d ++ (k, a) ∷ [])) ≡ some a
unfolding lookup
lookup-drop zero [] k a h none_yet = ground (arith, ==_iff k k)
lookup-drop (suc n) [] k a h none_yet = ground arith
lookup-drop zero ((j, b) ∷ d) k a h none_yet = ground (arith, ==_iff j k, lookup-drop zero d k a)
lookup-drop (suc n) ((j, b) ∷ d) k a h none_yet = ground (arith, ==_iff j k, lookup-drop n d k a)

size-append : {A : Type 0} (d e : Dict String A) → size (d ++ e) ≡ size d + size e
size-append [] e = omega arith
size-append (x ∷ d) e = omega (arith, size-append d e)

size-drop : {A : Type 0} (n : ℕ) (d : Dict String A) → size (drop n d) ≡ size d - n
size-drop zero d = omega arith
size-drop (suc n) [] = omega arith
size-drop (suc n) (x ∷ d) = omega (arith, size-drop n d)

lookup-keep_snapshot :
    (hash content : String) (d : Dict String String)
    → lookup hash (keep_snapshot hash content d) ≡ some content
unfolding keep_snapshot
lookup-keep_snapshot hash content d =
    lookup-drop _ (remove hash d) hash content
      (omega (arith, size-append (remove hash d) ((hash, content) ∷ [])))
      (ground (arith, ==_iff hash hash, lookup-remove hash hash d))

size-keep_snapshot :
    (hash content : String) (d : Dict String String) → size (keep_snapshot hash content d) ≤ 256
unfolding keep_snapshot
size-keep_snapshot hash content d = omega (
  arith,
  size-drop (size (remove hash d ++ (hash, content) ∷ []) - 256)
      (remove hash d ++ (hash, content) ∷ []),
)

module _ {D J : Type 0} where
  get_context-db :
      (now : ℕ) (id : String) (s : SessionStore D J)
      → ((get_context now id s).1.db ≡ s.db) × ((get_context now id s).1.snapshots ≡ s.snapshots)
  unfolding get_context touch_session evict_if_needed
  get_context-db now id s = elim (Option-cases (lookup id s.sessions)) [
    | inl e ↦
        rw (e, get_context)
          (elim (Bool-cases (leb (size s.sessions) 200)) [
            | inl f ↦ rw (f, evict_if_needed) (refl, refl)
            | inr f ↦ rw (f, evict_if_needed) (refl, refl)
          ])
    | inr (c, e) ↦ rw (e, get_context) (rw (e, touch_session) (refl, refl))
  ]

module _ {D J : Type 0} (codec : Codec J) (persistence : SessionPersistence D J) where
  read_in_session :
      (id hash content : String) (s : SessionStore D J) (c : Context J)
      → s.db ≡ none
      → let new = record c { prompt_snapshots = put hash content c.prompt_snapshots } in
        (prompt_snapshot codec persistence id hash (set_context id new s)).0 ≡ ok (some content)
  unfolding prompt_snapshot
  read_in_session id hash content s c e =
      let new = record c { prompt_snapshots = put hash content c.prompt_snapshots } in
      ground (
        arith,
        ==_iff id id,
        ==_iff hash hash,
        lookup-put id id new s.sessions,
        lookup-put hash hash content c.prompt_snapshots,
      )

  -- A prompt snapshot that was saved, even if the database refused it, is the one that is read next.
  pub prompt_snapshot-save :
      (now : ℕ) (id hash content : String) (s : SessionStore D J)
      → (prompt_snapshot codec persistence id hash
          (save_prompt_snapshot codec persistence now id hash content s).1).0
        ≡ ok (some content)
  unfolding save_prompt_snapshot prompt_snapshot
  prompt_snapshot-save now id hash content s = elim (Option-cases s.db) [
    | inl e ↦
        rw (e, save_prompt_snapshot)
          (read_in_session id hash content (get_context now id s).1 (get_context now id s).0
            ((get_context-db now id s).0 ∙ e))
    | inr (d, e) ↦
        rw (e, save_prompt_snapshot)
          (rw (e, on_db) (rw (lookup-keep_snapshot hash content s.snapshots, prompt_snapshot) refl))
  ]

  -- Saving a prompt snapshot, even if the database refuses it, keeps a cache of at most 256 of them
  -- within 256.
  pub save_prompt_snapshot-size :
      (now : ℕ) (id hash content : String) (s : SessionStore D J)
      → size s.snapshots ≤ snapshot_cache_size
      → size (save_prompt_snapshot codec persistence now id hash content s).1.snapshots
        ≤ snapshot_cache_size
  unfolding save_prompt_snapshot
  save_prompt_snapshot-size now id hash content s h = elim (Option-cases s.db) [
    | inl e ↦ rw (e, save_prompt_snapshot) (rw (get_context-db now id s).1 h)
    | inr (d, e) ↦
        rw (e, save_prompt_snapshot) (rw (e, on_db) (size-keep_snapshot hash content s.snapshots))
  ]
