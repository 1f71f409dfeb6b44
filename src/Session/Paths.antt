-- ===== src/Session/Paths.antt =====
-- The paths of src/assistant_runtime/app/assistant/_session_store.py: what `_resolve_path` computes on
-- the message index, described by a relation.
use assistant_runtime.Prelude.{
  ℕ, zero, suc, ◌+◌, ◌≤◌, ◌≡◌, refl, ap, ◌∙◌, String, Option, none, some, List, [], ◌∷◌, ◌++◌, ◌==◌,
  Dict, size, lookup, lookup-put, put, ok, length, length-append, arith, string_eq, option_eq,
  Bool-cases, ==_iff, if◌then◌else◌, inl, inr,
}
use mathlib.Core.List.{append-nil, append_assoc}
use mathlib.Core.Path.{subst}
use assistant_runtime.Session.Types.{Message, Context}
use assistant_runtime.Session.Context.{walk, resolve_path}

module _ {J : Type 0} where
  -- `PathTo index leaf ms`: `ms` leads from a message without a parent to `leaf`, each message the
  -- parent of the next, all of them looked up in the index. No leaf has the empty path.
  pub data PathTo (index : Dict String (Message J))
      : Option String → List (Message J) → Type 0 where
    root : PathTo index none []
    child :
        {id : String} {m : Message J} {ms ms' : List (Message J)}
        → lookup id index ≡ some m
        → PathTo index m.parent_id ms
        → ms' ≡ ms ++ m ∷ []
        → PathTo index (some id) ms'

  -- The loop finds the path, given fuel for its length.
  pub walk-PathTo :
      (index : Dict String (Message J)) {leaf : Option String} {ms : List (Message J)}
      → PathTo index leaf ms
      → (fuel : ℕ) (path : List (Message J)) → length ms ≤ fuel
      → walk fuel index leaf path ≡ ok (ms ++ path)
  unfolding walk
  walk-PathTo index root zero path h = refl
  walk-PathTo index root (suc fuel) path h = refl
  walk-PathTo index (child {m = m} {ms = ms} found up e) zero path h =
      absurd (omega (arith, ap length e, length-append ms (m ∷ [])))
  walk-PathTo index (child {m = m} {ms = ms} found up e) (suc fuel) path h =
      rw (found, walk, e, append_assoc)
        (walk-PathTo index up fuel (m ∷ path)
          (omega (arith, ap length e, length-append ms (m ∷ []))))

  -- Adding a message under a new id leaves every path as it is.
  pub PathTo-put_new :
      (index : Dict String (Message J)) (k : String) (new : Message J)
      → lookup k index ≡ none
      → {leaf : Option String} {ms : List (Message J)} → PathTo index leaf ms
      → PathTo (put k new index) leaf ms
  PathTo-put_new index k new fresh root = root
  PathTo-put_new index k new fresh (child {id = id} {m = m} found up e) =
      child (ground (arith, lookup-put k id new index, ==_iff k id))
        (PathTo-put_new index k new fresh up) e

  -- The messages of a path with the one under `k` replaced.
  abbrev pub replace : String → Message J → List (Message J) → List (Message J)
  replace k new [] = []
  replace k new (m ∷ ms) = (if m.id == k then new else m) ∷ replace k new ms

  replace-append :
      (k : String) (new : Message J) (xs ys : List (Message J))
      → replace k new (xs ++ ys) ≡ replace k new xs ++ replace k new ys
  replace-append k new [] ys = refl
  replace-append k new (x ∷ xs) ys =
      ap (λ (l : List (Message J)). (if x.id == k then new else x) ∷ l) (replace-append k new xs ys)

  abbrev pub IsKeyed : Dict String (Message J) → Type 0
  IsKeyed index = (id : String) (m : Message J) → lookup id index ≡ some m → m.id ≡ id

  -- Replacing a message by one with its id and parent keeps the paths, the message replaced.
  pub PathTo-put_old :
      (index : Dict String (Message J)) (k : String) (old new : Message J)
      → IsKeyed index
      → lookup k index ≡ some old
      → new.parent_id ≡ old.parent_id
      → {leaf : Option String} {ms : List (Message J)} → PathTo index leaf ms
      → PathTo (put k new index) leaf (replace k new ms)
  PathTo-put_old index k old new keyed was same root = root
  PathTo-put_old index k old new keyed was same (child {id = id} {m = m} {ms = ms} found up e) =
      let ih = PathTo-put_old index k old new keyed was same up in
      let last = ap (replace k new) e ∙ replace-append k new ms (m ∷ []) in
      elim (Bool-cases (id == k)) [
        | inl t ↦
            child {m = new} (ground (arith, lookup-put k id new index, ==_iff k id, ==_iff id k))
              (subst (λ p. PathTo (put k new index) p (replace k new ms))
                (ground (arith, ==_iff id k)) ih)
              (last ∙ ground (arith, ==_iff m.id k, ==_iff id k, keyed id m found))
        | inr f ↦
            child {m = m} (ground (arith, lookup-put k id new index, ==_iff k id, ==_iff id k)) ih
              (last ∙ ground (arith, ==_iff m.id k, ==_iff id k, keyed id m found))
      ]

  pub length-replace :
      (k : String) (new : Message J) (ms : List (Message J)) → length (replace k new ms) ≡ length ms
  length-replace k new [] = refl
  length-replace k new (m ∷ ms) = ap suc (length-replace k new ms)

  -- A message index in which every message can be reached from a root: none waits on a missing parent,
  -- and no message is its own ancestor.
  pub record IsTree (index : Dict String (Message J)) : Type 0 where
    pub keyed : IsKeyed index
    pub rooted :
        (id : String) (m : Message J)
        → lookup id index ≡ some m
        → (ms : List (Message J)) × PathTo index (some id) ms × (length ms ≤ size index)

  -- Two paths to one leaf are one path.
  pub PathTo-unique :
      {index : Dict String (Message J)} {leaf : Option String} {ms ns : List (Message J)}
      → PathTo index leaf ms
      → PathTo index leaf ns
      → ms ≡ ns
  PathTo-unique {index} {leaf} {ms} {ns} p q =
      let enough = length ms + length ns in
      let here = walk-PathTo index p enough [] (omega arith) in
      let there = walk-PathTo index q enough [] (omega arith) in
      cc (here, there, append-nil ms, append-nil ns)

  -- The code's `_resolve_path` answers every leaf of a sound index with its path.
  pub resolve-PathTo :
      (c : Context J) {leaf : Option String} {ms : List (Message J)}
      → PathTo c.message_index leaf ms
      → length ms ≤ size c.message_index
      → resolve_path c leaf ≡ ok ms
  unfolding resolve_path
  resolve-PathTo c {leaf} {ms} p h =
      rw (walk-PathTo c.message_index p _ [] h) (ap ok (append-nil ms))

  pub bounded :
      {index : Dict String (Message J)}
      → IsTree index
      → {leaf : Option String} {ms : List (Message J)} → PathTo index leaf ms
      → length ms ≤ size index
  bounded t root = omega arith
  bounded t (child {id = id} {m = m} found up e) =
      let (ns, p, h) = t.rooted id m found in
      omega (arith, ap length (PathTo-unique (child found up e) p))
