-- ===== src/Session/Resolved.antt =====
-- `_resolve_path` of src/assistant_runtime/app/assistant/_session_store.py ends.
use assistant_runtime.Prelude.{
  ℕ, ◌≤◌, ◌≡◌, refl, sym, ap, ◌∙◌, String, Option, some, List, [], ◌∷◌, ◌++◌, Dict, size, lookup,
  ok, arith, string_eq,
}
use mathlib.Core.List.{append-nil}
use mathlib.Core.Option.{some-injective}
use mathlib.Core.Path.{subst}
use assistant_runtime.Session.Types.{Message, Context}
use assistant_runtime.Session.Context.{walk}
use assistant_runtime.Session.Paths.{PathTo, root, child, walk-PathTo}
use assistant_runtime.Session.Invariant.{IsSound}

module _ {J : Type 0} where
  -- A path to a message is a path to its parent, and the message.
  last_of :
      (index : Dict String (Message J)) (id : String) (m : Message J)
      → lookup id index ≡ some m
      → {leaf : Option String} {ns : List (Message J)} → PathTo index leaf ns
      → leaf ≡ some id
      → (ms : List (Message J)) × PathTo index m.parent_id ms × (ns ≡ ms ++ m ∷ [])
  last_of index id m found root q = cc q
  last_of index id m found (child {id = i} {m = x} {ms = ms} here up e) q =
      let same : x ≡ m =
        some-injective x m (sym here ∙ ap (λ j. lookup j index) (some-injective i id q) ∙ found) in
      (
        ms,
        subst (λ (y : Message J). PathTo index y.parent_id ms) same up,
        e ∙ ap (λ y. ms ++ y ∷ []) same,
      )

  -- In a sound context the loop of `_resolve_path` ends for every message of the index, within as many rounds
  -- as there are messages: it raises nothing, and returns the messages from a root to the message, each the
  -- parent of the next. More rounds change nothing.
  pub walk_ends :
      (c : Context J) (id : String) (m : Message J)
      → IsSound c
      → lookup id c.message_index ≡ some m
      → (ms : List (Message J)) × PathTo c.message_index m.parent_id ms
        × ((fuel : ℕ)
            → size c.message_index ≤ fuel
            → walk fuel c.message_index (some id) [] ≡ ok (ms ++ m ∷ []))
  walk_ends c id m s found =
      let (ns, p, h) = s.tree.rooted id m found in
      let (ms, up, e) = last_of c.message_index id m found p refl in
      (
        ms,
        up,
        λ fuel enough.
            walk-PathTo c.message_index (child found up e) fuel [] (omega (arith, h, enough))
            ∙ ap ok (append-nil ns ∙ e),
      )
