-- ===== src/Session/InPlace.antt =====
-- Changes of messages in place in src/assistant_runtime/app/assistant/_session_store.py and
-- _stale_tools.py: they keep ids and parents, and so the tree and the cached path.
use assistant_runtime.Prelude.{
  ℕ, suc, ◌≡◌, refl, sym, ap, ◌∙◌, String, Option, some, List, [], ◌∷◌, ◌++◌, Dict, values, size,
  lookup, length, arith, string_eq, option_eq, Option-cases, ==_iff, inl, inr,
}
use mathlib.Core.Path.{subst}
use mathlib.Core.Option
use assistant_runtime.Session.Types.{Message, Context}
use assistant_runtime.Session.Context.{map_index, map_path, map_messages}
use assistant_runtime.Session.Paths.{PathTo, root, child, IsTree}
use assistant_runtime.Session.Invariant.{IsSound, EntriesKeyed, child_ids}
use assistant_runtime.Session.StaleTools.{
  Codec, repair_message, or_same, repair_stale_tools_in_context,
}
use assistant_runtime.Session.Loading.{mark_changed}

module _ {J : Type 0} (f : String → Message J → Message J)
    (same_id : (k : String) (m : Message J) → (f k m).id ≡ m.id)
    (same_parent : (k : String) (m : Message J) → (f k m).parent_id ≡ m.parent_id) where
  lookup-map_index :
      (k : String) (d : Dict String (Message J))
      → lookup k (map_index f d) ≡ Option.map (f k) (lookup k d)
  unfolding lookup
  lookup-map_index k [] = refl
  lookup-map_index k ((i, m) ∷ d) = ground (arith, ==_iff i k, lookup-map_index k d)

  -- A message found after the change is a changed one.
  found_before :
      (k : String) (d : Dict String (Message J)) (n : Message J)
      → lookup k (map_index f d) ≡ some n
      → (m : Message J) × (lookup k d ≡ some m) × (n ≡ f k m)
  found_before k d n h = elim (Option-cases (lookup k d)) [
    | inl e ↦ absurd (ground (arith, lookup-map_index k d))
    | inr (m, e) ↦ (m, e, ground (arith, lookup-map_index k d))
  ]

  found_after :
      (k : String) (d : Dict String (Message J)) (m : Message J)
      → lookup k d ≡ some m
      → lookup k (map_index f d) ≡ some (f k m)
  found_after k d m h = ground (arith, lookup-map_index k d)

  map_path-append :
      (xs ys : List (Message J)) → map_path f (xs ++ ys) ≡ map_path f xs ++ map_path f ys
  map_path-append [] ys = refl
  map_path-append (x ∷ xs) ys = ap (λ (l : List (Message J)). f x.id x ∷ l) (map_path-append xs ys)

  length-map_path : (xs : List (Message J)) → length (map_path f xs) ≡ length xs
  length-map_path [] = refl
  length-map_path (x ∷ xs) = ap suc (length-map_path xs)

  size-map_index : (d : Dict String (Message J)) → size (map_index f d) ≡ size d
  size-map_index [] = refl
  size-map_index ((k, m) ∷ d) = ap suc (size-map_index d)

  PathTo-map_index :
      (d : Dict String (Message J))
      → IsTree d
      → {leaf : Option String} {ms : List (Message J)} → PathTo d leaf ms
      → PathTo (map_index f d) leaf (map_path f ms)
  PathTo-map_index d t root = root
  PathTo-map_index d t (child {id = id} {m = m} {ms = ms} found up e) =
      child {m = f id m} (found_after id d m found)
        (subst (λ p. PathTo (map_index f d) p (map_path f ms)) (sym (same_parent id m))
          (PathTo-map_index d t up))
        (ap (map_path f) e
          ∙ map_path-append ms (m ∷ [])
          ∙ ap (λ (k : String). map_path f ms ++ f k m ∷ []) (t.keyed id m found))

  EntriesKeyed-map_index :
      (d : Dict String (Message J)) → EntriesKeyed d → EntriesKeyed (map_index f d)
  EntriesKeyed-map_index [] a = tt
  EntriesKeyed-map_index ((k, m) ∷ d) a = (same_id k m ∙ a.0, EntriesKeyed-map_index d a.1)

  child_ids-map_index :
      (p : Option String) (d : Dict String (Message J))
      → child_ids p (values (map_index f d)) ≡ child_ids p (values d)
  child_ids-map_index p [] = refl
  child_ids-map_index p ((k, m) ∷ d) = rw (same_id k m, same_parent k m, child_ids-map_index p d)

  -- A change of messages in place that keeps their ids and parents keeps a context sound.
  pub map_messages-IsSound : (c : Context J) → IsSound c → IsSound (map_messages f c)
  map_messages-IsSound c s = record {
    indexed = record {
      tree = record {
        keyed = λ k n h.
            let (m, e, q) = found_before k c.message_index n h in
            ap (λ (x : Message J). x.id) q ∙ same_id k m ∙ s.tree.keyed k m e;
        rooted = λ k n h.
            let (m, e, q) = found_before k c.message_index n h in
            let (ms, p, le) = s.tree.rooted k m e in
            (
              map_path f ms,
              PathTo-map_index c.message_index s.tree p,
              omega (arith, length-map_path ms, size-map_index c.message_index),
            );
      };
      entries = EntriesKeyed-map_index c.message_index s.entries;
      counted = s.counted ∙ sym (size-map_index c.message_index);
      children = λ p. s.children p ∙ sym (child_ids-map_index p c.message_index);
    };
    cached = PathTo-map_index c.message_index s.tree s.cached;
  }

module _ {J : Type 0} (codec : Codec J) (keep : List String) where
  repair_message-keeps :
      (m : Message J)
      → ((or_same m (repair_message codec keep m)).id ≡ m.id)
        × ((or_same m (repair_message codec keep m)).parent_id ≡ m.parent_id)
  unfolding repair_message
  repair_message-keeps m = ground arith

  -- Repairing the stale tools of a sound context leaves it sound.
  pub repair-IsSound :
      (c : Context J) → IsSound c → IsSound (repair_stale_tools_in_context codec keep c).0
  unfolding repair_stale_tools_in_context
  repair-IsSound c s =
      map_messages-IsSound (λ id m. or_same m (repair_message codec keep m))
        (λ k m. (repair_message-keeps m).0) (λ k m. (repair_message-keeps m).1) c s

pub mark_changed-IsSound :
    {J : Type 0} (now : ℕ) (repaired : Dict String (Message J)) (c : Context J)
    → IsSound c
    → IsSound (mark_changed now repaired c)
unfolding mark_changed
mark_changed-IsSound now repaired c s =
    map_messages-IsSound _ (λ k m. ground arith) (λ k m. ground arith) c s
