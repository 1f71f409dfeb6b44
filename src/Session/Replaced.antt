-- ===== src/Session/Replaced.antt =====
-- A message of src/assistant_runtime/app/assistant/_session_store.py that is replaced by another version of it.
use assistant_runtime.Prelude.{
  ◌≡◌, sym, ◌∙◌, String, Option, some, [], ◌∷◌, ◌==◌, Dict, values, lookup, lookup-put, put,
  size-put_old, arith, string_eq, option_eq, Bool-cases, ==_iff, inl, inr,
}
use assistant_runtime.Session.Types.{Message, Context}
use assistant_runtime.Session.Paths.{IsTree, PathTo-put_old, replace, length-replace}
use assistant_runtime.Session.Invariant.{child_ids, EntriesKeyed-put, IsSound}

module _ {J : Type 0} where
  IsTree-put_old :
      (index : Dict String (Message J)) (k : String) (old new : Message J)
      → IsTree index
      → lookup k index ≡ some old
      → new.id ≡ old.id
      → new.parent_id ≡ old.parent_id
      → IsTree (put k new index)
  IsTree-put_old index k old new t was same_id same = record {
    keyed = λ id n found. elim (Bool-cases (k == id)) [
      | inl e ↦ ground (arith, lookup-put k id new index, ==_iff k id, t.keyed k old was)
      | inr e ↦ ground (arith, lookup-put k id new index, t.keyed id n)
    ];
    rooted = λ id n found.
        let here : (m : Message J) × (lookup id index ≡ some m) = elim (Bool-cases (k == id)) [
          | inl e ↦ (old, ground (arith, ==_iff k id))
          | inr e ↦ (n, ground (arith, lookup-put k id new index))
        ] in
        let (ms, p, h) = t.rooted id here.0 here.1 in
        (
          replace k new ms,
          PathTo-put_old index k old new t.keyed was same p,
          omega (arith, length-replace k new ms, size-put_old k new old index was),
        );
  }

  child_ids-put_old :
      (p : Option String) (k : String) (old new : Message J) (index : Dict String (Message J))
      → lookup k index ≡ some old
      → new.id ≡ old.id
      → new.parent_id ≡ old.parent_id
      → child_ids p (values (put k new index)) ≡ child_ids p (values index)
  unfolding lookup put
  child_ids-put_old p k old new [] was same_id same = cc
  child_ids-put_old p k old new ((i, m) ∷ index) was same_id same = elim (Bool-cases (i == k)) [
    | inl e ↦ ground arith
    | inr e ↦ ground (arith, child_ids-put_old p k old new index)
  ]

  -- Replacing a message by a version of it with the same id and parent, in the index and on the cached
  -- path, keeps a context sound.
  pub replace-IsSound :
      (c : Context J) (k : String) (old new : Message J)
      → IsSound c
      → lookup k c.message_index ≡ some old
      → new.id ≡ old.id
      → new.parent_id ≡ old.parent_id
      → IsSound (record c {
        message_index = put k new c.message_index;
        cached_path = replace k new c.cached_path;
      })
  replace-IsSound c k old new s was same_id same = record {
    indexed = record {
      tree = IsTree-put_old c.message_index k old new s.tree was same_id same;
      entries = EntriesKeyed-put k new c.message_index (same_id ∙ s.tree.keyed k old was) s.entries;
      counted = s.counted ∙ sym (size-put_old k new old c.message_index was);
      children =
          λ p. s.children p ∙ sym (child_ids-put_old p k old new c.message_index was same_id same);
    };
    cached = PathTo-put_old c.message_index k old new s.tree.keyed was same s.cached;
  }
