-- ===== src/HostState/Versions.antt =====
-- What the versions of services/host_state/_store.py promise: they rise with every write and are
-- never reused, and a write that expects an outdated version changes nothing.
use assistant_runtime.Prelude.{
  ℕ, ◌+◌, ◌≤◌, ◌<◌, ◌≡◌, refl, sym, String, Bool, true, false, inl, inr, Option, none, some, List,
  [], ◌∷◌, ◌==◌, lookup, lookup-put, lookup-remove, arith, string_eq, pair_eq, nat_eq, Option-cases,
  ==_iff, is_some,
}
use mathlib.Core.Path.{subst}
use assistant_runtime.HostState.Store.{
  HostStateEntry, Key, Store, base_version, new_entry, put_entry, delete_entry,
}

-- One call of the store's writing operations.
pub data Op (V : Type 0) : Type 0 where
  put_op : Key → V → String → Option ℕ → ℕ → Op V
  delete_op : Key → Option ℕ → Op V

abbrev cons_if : Bool → Option ℕ → List ℕ → List ℕ
cons_if true (some v) vs = v ∷ vs
cons_if _ _ vs = vs

-- Each number is larger than the one before it, and the first is larger than `b`.
abbrev pub Ascending : ℕ → List ℕ → Type 0
Ascending b [] = Unit
Ascending b (v ∷ vs) = (b < v) × Ascending v vs

Ascending-le : (a b : ℕ) (vs : List ℕ) → a ≤ b → Ascending b vs → Ascending a vs
Ascending-le a b [] h p = tt
Ascending-le a b (v ∷ vs) h p = (omega arith, p.1)

Ascending-cons_if :
    (b : Bool) (r : Option ℕ) (lo hi : ℕ) (vs : List ℕ)
    → lo ≤ hi
    → ((n : ℕ) → b ≡ true → r ≡ some n → (n ≡ hi) × (lo < n))
    → Ascending hi vs
    → Ascending lo (cons_if b r vs)
Ascending-cons_if true (some n) lo hi vs h f p =
    let (e, q) = f n refl refl in (q, subst (λ m. Ascending m vs) (sym e) p)
Ascending-cons_if true none lo hi vs h f p = Ascending-le lo hi vs h p
Ascending-cons_if false r lo hi vs h f p = Ascending-le lo hi vs h p

module _ {V : Type 0} where
  abbrev version_of : Option (HostStateEntry V) → Option ℕ
  version_of none = none
  version_of (some e) = some e.version

  -- The state after a call, and the version that it handed out.
  unfoldable pub step : Op V → Store V → Option ℕ × Store V
  step (put_op k v by expected now) s =
      let (r, s') = put_entry k.0 k.1 v by expected now s in (version_of r, s')
  step (delete_op k expected) s = let (r, s') = delete_entry k.0 k.1 expected s in (none, s')

  unfoldable pub run : List (Op V) → Store V → Store V
  run [] s = s
  run (o ∷ os) s = run os (step o s).1

  abbrev op_key : Op V → Key
  op_key (put_op k v by expected now) = k
  op_key (delete_op k expected) = k

  -- The versions that the calls hand out at a key, in order.
  unfoldable pub versions_at : Key → List (Op V) → Store V → List ℕ
  versions_at k [] s = []
  versions_at k (o ∷ os) s = cons_if (op_key o == k) (step o s).0 (versions_at k os (step o s).1)

  -- A write leaves a key's counter alone, or raises it at its own key.
  base_version-put :
      (k j : Key) (v : V) (by : String) (expected : Option ℕ) (now : ℕ) (s : Store V)
      → base_version j s ≤ base_version j (put_entry k.0 k.1 v by expected now s).1
  unfolding put_entry
  base_version-put k j v by expected now s = ground (
    arith,
    ==_iff k j,
    lookup-put k j (new_entry k v by now s) s.entries,
    lookup-remove k j s.deleted,
  )

  base_version-delete :
      (k j : Key) (expected : Option ℕ) (s : Store V)
      → base_version j s ≤ base_version j (delete_entry k.0 k.1 expected s).1
  unfolding delete_entry base_version
  base_version-delete k j expected s = elim (Option-cases (lookup k s.entries)) [
    | inl h ↦ ground arith
    | inr (e, h) ↦
        ground
          (arith, ==_iff k j, lookup-put k j (e.version + 1) s.deleted, lookup-remove k j s.entries)
  ]

  base_version-step :
      (o : Op V) (j : Key) (s : Store V) → base_version j s ≤ base_version j (step o s).1
  unfolding step
  base_version-step (put_op k v by expected now) j s = base_version-put k j v by expected now s
  base_version-step (delete_op k expected) j s = base_version-delete k j expected s

  -- The version that a write hands out is the counter's new value.
  handed_out :
      (o : Op V) (s : Store V) (n : ℕ)
      → (step o s).0 ≡ some n
      → (n ≡ base_version (op_key o) (step o s).1) × (base_version (op_key o) s < n)
  unfolding step put_entry
  handed_out (put_op k v by expected now) s n h =
      ground (arith, ==_iff k k, lookup-put k k (new_entry k v by now s) s.entries)
  handed_out (delete_op k expected) s n h = cc

  -- At one key the versions that successful writes return, over any calls on any keys, rise strictly
  -- from the key's counter: none is ever handed out twice, also across a deletion.
  pub versions_at-Ascending :
      (k : Key) (os : List (Op V)) (s : Store V) → Ascending (base_version k s) (versions_at k os s)
  unfolding versions_at
  versions_at-Ascending k [] s = tt
  versions_at-Ascending k (o ∷ os) s =
      Ascending-cons_if (op_key o == k) (step o s).0 (base_version k s)
        (base_version k (step o s).1) (versions_at k os (step o s).1) (base_version-step o k s)
        (λ n t r.
          subst (λ j. (n ≡ base_version j (step o s).1) × (base_version j s < n))
            ((==_iff (op_key o) k).0 t) (handed_out o s n r))
        (versions_at-Ascending k os (step o s).1)

  base_version-run :
      (os : List (Op V)) (j : Key) (s : Store V) → base_version j s ≤ base_version j (run os s)
  unfolding run
  base_version-run [] j s = omega arith
  base_version-run (o ∷ os) j s =
      omega (arith, base_version-step o j s, base_version-run os j (step o s).1)

  -- A write that expects a version (not 0) below the key's counter is refused and changes nothing.
  stale_put :
      (k : Key) (v : V) (by : String) (e now : ℕ) (s : Store V)
      → 0 < e
      → e < base_version k s
      → put_entry k.0 k.1 v by (some e) now s ≡ (none, s)
  unfolding put_entry
  stale_put k v by e now s p q = ground arith

  put_raises :
      (k : Key) (v : V) (by : String) (e now : ℕ) (s : Store V)
      → 0 < e
      → is_some (put_entry k.0 k.1 v by (some e) now s).0 ≡ true
      → e < base_version k (put_entry k.0 k.1 v by (some e) now s).1
  unfolding put_entry
  put_raises k v by e now s p h =
      ground (arith, ==_iff k k, lookup-put k k (new_entry k v by now s) s.entries)

  -- Two writers that read the same version, which is not 0: after the first one's successful write, and whatever calls
  -- follow it, the second one's write with the version that both read is refused and changes nothing.
  pub lost_update_refused :
      (k : Key) (v w : V) (by other : String) (e now later : ℕ) (os : List (Op V)) (s : Store V)
      → 0 < e
      → is_some (put_entry k.0 k.1 v by (some e) now s).0 ≡ true
      → let t = run os (put_entry k.0 k.1 v by (some e) now s).1 in
        put_entry k.0 k.1 w other (some e) later t ≡ (none, t)
  lost_update_refused k v w by other e now later os s p h = stale_put k w other e later _ p (
      omega (
        arith,
        put_raises k v by e now s p h,
        base_version-run os k (put_entry k.0 k.1 v by (some e) now s).1,
      ))
