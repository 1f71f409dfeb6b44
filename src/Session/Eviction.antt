-- ===== src/Session/Eviction.antt =====
-- What the eviction and the pins of the session cache (_session_store.py) promise.
use Prim.Native.Nat.{min, pred}
use assistant_runtime.Prelude.{
  ℕ, suc, ◌+◌, ◌/◌, ◌≡◌, ◌≢◌, refl, String, true, some, [], ◌∷◌, ==_iff, Dict, size, lookup, has,
  put, lookup-put, lookup-remove, arith, string_eq, leb, if◌then◌else◌, inl, inr, Bool-cases,
  Option-cases,
}
use assistant_runtime.Session.Cache.{
  SessionStore, max_memory_sessions, evict_loop, evict_if_needed, pin, unpin,
}

evict_loop-pinned :
    {A : Type 0} (left : ℕ) (pinned : Dict String ℕ) (d : Dict String A) (k : String)
    → has k pinned ≡ true
    → lookup k (evict_loop left pinned d) ≡ lookup k d
unfolding evict_loop lookup
evict_loop-pinned left pinned [] k h = refl
evict_loop-pinned left pinned ((j, a) ∷ d) k h = ground (
  arith,
  ==_iff j k,
  evict_loop-pinned left pinned d k h,
  evict_loop-pinned (pred left) pinned d k h,
)

-- How many entries are not pinned.
unfoldable pub unpinned : {A : Type 0} → Dict String ℕ → Dict String A → ℕ
unpinned pinned [] = 0
unpinned pinned ((k, a) ∷ d) =
    let rest = unpinned pinned d in if has k pinned then rest else suc rest

evict_loop-size :
    {A : Type 0} (left : ℕ) (pinned : Dict String ℕ) (d : Dict String A)
    → size (evict_loop left pinned d) + min left (unpinned pinned d) ≡ size d
unfolding evict_loop unpinned
evict_loop-size left pinned [] = ground arith
evict_loop-size left pinned ((j, a) ∷ d) =
    ground (arith, evict_loop-size left pinned d, evict_loop-size (pred left) pinned d)

module _ {D J : Type 0} where
  -- Eviction removes no pinned session.
  pub evict_if_needed-pinned :
      (s : SessionStore D J) (id : String)
      → has id s.pinned ≡ true
      → lookup id (evict_if_needed s).sessions ≡ lookup id s.sessions
  unfolding evict_if_needed
  evict_if_needed-pinned s id h =
      ground (arith, evict_loop-pinned (size s.sessions / 2) s.pinned s.sessions id h)

  -- Above the bound, eviction removes half of the sessions, or all that are not pinned if those are
  -- fewer; otherwise it removes none.
  pub evict_if_needed-size :
      (s : SessionStore D J)
      → size (evict_if_needed s).sessions
          + (if leb (size s.sessions) max_memory_sessions
              then 0
              else min (size s.sessions / 2) (unpinned s.pinned s.sessions))
        ≡ size s.sessions
  unfolding evict_if_needed
  evict_if_needed-size s = elim (Bool-cases (leb (size s.sessions) 200)) [
    | inl e ↦ rw e (omega arith)
    | inr e ↦ rw e (evict_loop-size (size s.sessions / 2) s.pinned s.sessions)
  ]

  -- Pinning and then unpinning a session whose pin count is not 0 leaves every session pinned as often
  -- as before.
  pub unpin-pin :
      (s : SessionStore D J) (id other : String)
      → (lookup id s.pinned ≢ some 0)
      → lookup other (unpin id (pin id s)).pinned ≡ lookup other s.pinned
  unfolding pin unpin
  unpin-pin s id other h = elim (Option-cases (lookup id s.pinned)) [
    | inl e ↦
        rw (e, pin)
          (ground (
            arith,
            ==_iff id id,
            ==_iff id other,
            lookup-put id id 1 s.pinned,
            lookup-put id other 1 s.pinned,
            lookup-remove id other (put id 1 s.pinned),
          ))
    | inr (n, e) ↦
        rw (e, pin)
          (ground (
            arith,
            ==_iff id id,
            ==_iff id other,
            lookup-put id id (n + 1) s.pinned,
            lookup-put id other (n + 1) s.pinned,
            lookup-put id other n (put id (n + 1) s.pinned),
            lookup-remove id other (put id (n + 1) s.pinned),
          ))
  ]
