-- ===== src/Session/Invariant.antt =====
-- What holds of a context of src/assistant_runtime/app/assistant/_session_store.py between two calls,
-- and that adding and replacing messages keeps it.
use assistant_runtime.Prelude.{
  ℕ, ◌≤◌, ◌≡◌, refl, sym, ap, ◌∙◌, String, Option, none, some, List, [], ◌∷◌, ◌++◌, ◌==◌, Dict,
  values, size, lookup, lookup-put, lookup-put_self, put, size-put_new, values-put_new, ok, length,
  length-append, arith, string_eq, option_eq, Bool-cases, ==_iff, if◌then◌else◌, inl, inr,
}
use mathlib.Core.List.{append-nil}
use mathlib.Core.Path.{subst}
use assistant_runtime.Session.Types.{Message, Context}
use assistant_runtime.Session.Context.{
  list_at, add_child, add_message, resolve_path, refresh_cached_path_for_new_leaf,
}
use assistant_runtime.Session.Paths.{
  PathTo, root, child, IsTree, PathTo-put_new, resolve-PathTo, bounded,
}

children-add_child :
    (parent p : Option String) (id : String) (children : Dict (Option String) (List String))
    → list_at (lookup p (add_child parent id children)) ≡ (
        if parent == p then list_at (lookup p children) ++ id ∷ [] else list_at (lookup p children))
unfolding add_child
children-add_child parent p id children =
    let with_parent = put parent (list_at (lookup parent children) ++ id ∷ []) children in
    ground (
      arith,
      ==_iff parent p,
      ==_iff (some id) p,
      lookup-put parent p (list_at (lookup parent children) ++ id ∷ []) children,
      lookup-put (some id) p (list_at (lookup (some id) with_parent)) with_parent,
    )

module _ {J : Type 0} where
  -- The ids of the messages with a parent, in the order in which they were added.
  abbrev pub child_ids : Option String → List (Message J) → List String
  child_ids p [] = []
  child_ids p (m ∷ ms) = if m.parent_id == p then m.id ∷ child_ids p ms else child_ids p ms

  child_ids-append :
      (p : Option String) (xs ys : List (Message J))
      → child_ids p (xs ++ ys) ≡ child_ids p xs ++ child_ids p ys
  child_ids-append p [] ys = refl
  child_ids-append p (x ∷ xs) ys = ground (arith, child_ids-append p xs ys)

  -- Every entry is filed under its message's id.
  abbrev pub EntriesKeyed : Dict String (Message J) → Type 0
  EntriesKeyed [] = Unit
  EntriesKeyed ((id, m) ∷ d) = (m.id ≡ id) × EntriesKeyed d

  pub EntriesKeyed-put :
      (k : String) (new : Message J) (d : Dict String (Message J))
      → new.id ≡ k
      → EntriesKeyed d
      → EntriesKeyed (put k new d)
  unfolding put
  EntriesKeyed-put k new [] h a = (h, tt)
  EntriesKeyed-put k new ((i, m) ∷ d) h a = elim (Bool-cases (i == k)) [
    | inl e ↦ rw e (h ∙ sym ((==_iff i k).0 e), a.1)
    | inr e ↦ rw e (a.0, EntriesKeyed-put k new d h a.1)
  ]

  -- The message index, with what is derived from it.
  pub record IndexedTree (index : Dict String (Message J))
      (by_parent : Dict (Option String) (List String)) (count : ℕ) : Type 0 where
    pub tree : IsTree index
    pub entries : EntriesKeyed index
    pub counted : count ≡ size index
    pub children : (p : Option String) → list_at (lookup p by_parent) ≡ child_ids p (values index)

  abbrev pub IsIndexed : Context J → Type 0
  IsIndexed c = IndexedTree c.message_index c.children_by_parent c.message_count

  -- An indexed tree whose cached path is the path of its active leaf.
  pub record SoundTree (index : Dict String (Message J))
      (by_parent : Dict (Option String) (List String)) (count : ℕ) (path : List (Message J))
      (leaf : Option String) : Type 0 where
    pub indexed : IndexedTree index by_parent count
    pub open indexed use *
    pub cached : PathTo index leaf path

  abbrev pub IsSound : Context J → Type 0
  IsSound c =
      SoundTree c.message_index c.children_by_parent c.message_count c.cached_path c.active_leaf_id

  -- A parent that a new message may have: none, or a message of the index.
  abbrev pub IsParent : Dict String (Message J) → Option String → Type 0
  IsParent index none = Unit
  IsParent index (some id) = (m : Message J) × (lookup id index ≡ some m)

  pub parent_path :
      {index : Dict String (Message J)}
      → IsTree index
      → (p : Option String) → IsParent index p
      → (ms : List (Message J)) × PathTo index p ms × (length ms ≤ size index)
  parent_path t none h = ([], root, omega arith)
  parent_path t (some id) (m, found) = t.rooted id m found

  new_path :
      (index : Dict String (Message J)) (m : Message J)
      → lookup m.id index ≡ none
      → {ms : List (Message J)} → PathTo index m.parent_id ms
      → PathTo (put m.id m index) (some m.id) (ms ++ m ∷ [])
  new_path index m fresh p =
      child (lookup-put_self m.id m index) (PathTo-put_new index m.id m fresh p) refl

  pub IsTree-put_new :
      (index : Dict String (Message J)) (m : Message J)
      → IsTree index
      → lookup m.id index ≡ none
      → IsParent index m.parent_id
      → IsTree (put m.id m index)
  IsTree-put_new index m t fresh par = record {
    keyed = λ id n found. elim (Bool-cases (m.id == id)) [
      | inl e ↦ ground (arith, lookup-put m.id id m index, ==_iff m.id id)
      | inr e ↦ ground (arith, lookup-put m.id id m index, t.keyed id n)
    ];
    rooted = λ id n found. elim (Bool-cases (m.id == id)) [
      | inl e ↦
          let (ms, p, h) = parent_path t m.parent_id par in
          (
            ms ++ m ∷ [],
            subst (λ k. PathTo (put m.id m index) (some k) (ms ++ m ∷ [])) ((==_iff m.id id).0 e)
                (new_path index m fresh p),
            omega (arith, length-append ms (m ∷ []), size-put_new m.id m index fresh),
          )
      | inr e ↦
          let (ms, p, h) = t.rooted id n (ground (arith, lookup-put m.id id m index)) in
          (ms, PathTo-put_new index m.id m fresh p, omega (arith, size-put_new m.id m index fresh))
    ];
  }

  child_ids-one :
      (p : Option String) (m : Message J) (ms : List (Message J))
      → child_ids p (ms ++ m ∷ [])
        ≡ (if m.parent_id == p then child_ids p ms ++ m.id ∷ [] else child_ids p ms)
  child_ids-one p m ms = elim (Bool-cases (m.parent_id == p)) [
    | inl e ↦ rw (child_ids-append, e)
    | inr e ↦ rw (child_ids-append, e) (append-nil _)
  ]

  pub add_message-IsIndexed :
      (c : Context J) (m : Message J)
      → IsIndexed c
      → lookup m.id c.message_index ≡ none
      → IsParent c.message_index m.parent_id
      → IsIndexed (add_message c m)
  unfolding add_message
  add_message-IsIndexed c m s fresh par = record {
    tree = IsTree-put_new c.message_index m s.tree fresh par;
    entries = EntriesKeyed-put m.id m c.message_index refl s.entries;
    counted = refl;
    children = λ q.
        children-add_child m.parent_id q m.id c.children_by_parent
        ∙ ap (λ (l : List String). if m.parent_id == q then l ++ m.id ∷ [] else l) (s.children q)
        ∙ sym (child_ids-one q m (values c.message_index))
        ∙ ap (child_ids q) (sym (values-put_new m.id m c.message_index fresh));
  }

  abbrev published : Context J → Message J → List (Message J) → Context J
  published c m path = record (add_message c m) {
    cached_path = path ++ m ∷ [];
    active_leaf_id = some m.id;
  }

  published-IsSound :
      (c : Context J) (m : Message J) {path : List (Message J)}
      → IsSound c
      → lookup m.id c.message_index ≡ none
      → IsParent c.message_index m.parent_id
      → PathTo c.message_index m.parent_id path
      → IsSound (published c m path)
  unfolding add_message
  published-IsSound c m s fresh par p = record {
    indexed = add_message-IsIndexed c m s.indexed fresh par;
    cached = new_path c.message_index m fresh p;
  }

  -- Adding a message with a new id under a parent that is there to a sound context, and refreshing its
  -- cached path, succeeds and leaves a sound context with that message as its active leaf and the index
  -- extended by it.
  pub publish-IsSound :
      (c : Context J) (m : Message J)
      → IsSound c
      → lookup m.id c.message_index ≡ none
      → IsParent c.message_index m.parent_id
      → (c' : Context J) × (refresh_cached_path_for_new_leaf (add_message c m) m ≡ ok c')
        × IsSound c'
        × (c'.active_leaf_id ≡ some m.id)
        × (c'.message_index ≡ put m.id m c.message_index)
  unfolding refresh_cached_path_for_new_leaf add_message
  publish-IsSound c m s fresh par = elim (Bool-cases (c.active_leaf_id == m.parent_id)) [
    | inl e ↦
        let p =
          subst (λ l. PathTo c.message_index l c.cached_path)
            ((==_iff c.active_leaf_id m.parent_id).0 e) s.cached in
        (published c m c.cached_path, rw e refl, published-IsSound c m s fresh par p, refl, refl)
    | inr e ↦
        let (ms, p, h) = parent_path s.tree m.parent_id par in
        let after = PathTo-put_new c.message_index m.id m fresh p in
        (
          published c m ms,
          rw e (
              rw (
                resolve-PathTo (add_message c m) after
                  (omega (arith, size-put_new m.id m c.message_index fresh)))),
          published-IsSound c m s fresh par p,
          refl,
          refl,
        )
  ]

  -- The path that the cache holds is the one that `_resolve_path` finds for the active leaf.
  pub cached_path_exact :
      (c : Context J) → IsSound c → resolve_path c c.active_leaf_id ≡ ok c.cached_path
  cached_path_exact c s = resolve-PathTo c s.cached (bounded s.tree s.cached)
