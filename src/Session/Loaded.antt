-- ===== src/Session/Loaded.antt =====
-- What `_context_from_loaded` of src/assistant_runtime/app/assistant/_session_store.py makes of the rows of
-- a session, and that changes of messages in place keep a context sound.
use assistant_runtime.Prelude.{
  ◌≡◌, refl, String, Option, none, List, [], ◌∷◌, Dict, lookup, put, ok, string_eq, option_eq,
}
use assistant_runtime.Session.Types.{Message, Steering, Context, LoadedSession}
use assistant_runtime.Session.Context.{
  list_at, latest_leaf_id, add_message, add_messages, add_steering, add_all_steering,
  context_from_loaded, empty_context, start_context,
}
use assistant_runtime.Session.Paths.{root, IsTree, resolve-PathTo}
use assistant_runtime.Session.Invariant.{
  IsIndexed, IsSound, IsParent, parent_path, add_message-IsIndexed,
}
use assistant_runtime.Session.Leaves.{latest_leaf-IsParent}

no_children : (p : Option String) → list_at (lookup p []) ≡ []
unfolding lookup
no_children p = refl

module _ {J : Type 0} where
  -- Rows in an order in which each is new and follows its parent.
  abbrev pub Addable : Dict String (Message J) → List (Message J) → Type 0
  Addable index [] = Unit
  Addable index (m ∷ ms) =
      (lookup m.id index ≡ none) × IsParent index m.parent_id × Addable (put m.id m index) ms

  add_messages-IsIndexed :
      (c : Context J) (ms : List (Message J))
      → IsIndexed c
      → Addable c.message_index ms
      → IsIndexed (add_messages c ms)
  unfolding add_message
  add_messages-IsIndexed c [] s a = s
  add_messages-IsIndexed c (m ∷ ms) s a =
      add_messages-IsIndexed (add_message c m) ms (add_message-IsIndexed c m s a.0 a.1) a.2

  add_all_steering-IsIndexed :
      (c : Context J) (rs : List (Steering J)) → IsIndexed c → IsIndexed (add_all_steering c rs)
  unfolding add_steering
  add_all_steering-IsIndexed c [] s = s
  add_all_steering-IsIndexed c (r ∷ rs) s = add_all_steering-IsIndexed (add_steering c r) rs s

  pub empty-IsTree : IsTree {J = J} []
  unfolding lookup
  empty-IsTree = record { keyed = λ id m h. cc; rooted = λ id m h. cc }

  pub empty_context-IsSound : IsSound (empty_context {J = J})
  empty_context-IsSound = record {
    indexed = record {
      tree = empty-IsTree;
      entries = tt;
      counted = refl;
      children = λ p. no_children p;
    };
    cached = root;
  }

  -- Rows in such an order load, as a sound context with the latest leaf active.
  pub context_from_loaded-IsSound :
      (l : LoadedSession J)
      → Addable [] l.messages
      → (c : Context J) × (context_from_loaded l ≡ ok c) × IsSound c
  unfolding context_from_loaded
  context_from_loaded-IsSound l a =
      let c0 : Context J = start_context l in
      let i0 : IsIndexed c0 = record {
        tree = empty-IsTree;
        entries = tt;
        counted = refl;
        children = λ p. no_children p;
      } in
      let c = add_all_steering (add_messages c0 l.messages) l.steering in
      let i =
        add_all_steering-IsIndexed (add_messages c0 l.messages) l.steering
          (add_messages-IsIndexed c0 l.messages i0 a) in
      let (ms, p, h) = parent_path i.tree (latest_leaf_id c) (latest_leaf-IsParent c i) in
      let c' = record c { active_leaf_id = latest_leaf_id c; cached_path = ms } in
      (c', rw (resolve-PathTo c p h), record { indexed = i; cached = p })
