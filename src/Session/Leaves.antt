-- ===== src/Session/Leaves.antt =====
-- The latest leaf and the context of a loaded session in
-- src/assistant_runtime/app/assistant/_session_store.py.
use assistant_runtime.Prelude.{
  ◌≡◌, String, true, Option, none, some, List, [], ◌∷◌, Dict, values, lookup, has, arith, string_eq,
  option_eq, Bool-cases, Option-cases, ==_iff, if◌then◌else◌, inl, inr, ◌⊎◌,
}
use assistant_runtime.Session.Types.{Message, Context}
use assistant_runtime.Session.Context.{latest, latest_leaf_id, is_leaf, newer}
use assistant_runtime.Session.Invariant.{IsIndexed, IsParent, EntriesKeyed}

module _ {J : Type 0} where
  pub some_found :
      (id : String) (index : Dict String (Message J))
      → has id index ≡ true
      → (m : Message J) × (lookup id index ≡ some m)
  unfolding has
  some_found id index h = elim (Option-cases (lookup id index)) [ inl e ↦ cc | inr f ↦ f ]

  -- The best leaf is the one at hand, or a message of the index.
  latest-found :
      (children : Dict (Option String) (List String)) (d : Dict String (Message J))
      (best : Option (Message J)) {m : Message J}
      → EntriesKeyed d
      → latest children best (values d) ≡ some m
      → (best ≡ some m) ⊎ (has m.id d ≡ true)
  unfolding latest has lookup
  latest-found children [] best keyed h = inl h
  latest-found children ((id, n) ∷ d) best {m} keyed h = ground (
    arith,
    ==_iff id m.id,
    latest-found children d (if is_leaf children n then newer best n else best) keyed.1 h,
  )

  pub latest_leaf-IsParent :
      (c : Context J) → IsIndexed c → IsParent c.message_index (latest_leaf_id c)
  unfolding latest_leaf_id
  latest_leaf-IsParent c s =
      elim (Option-cases (latest c.children_by_parent none (values c.message_index))) [
        | inl e ↦ rw e tt
        | inr (m, e) ↦
            rw e (elim (latest-found c.children_by_parent c.message_index none s.entries e) [
              | inl f ↦ cc
              | inr f ↦ some_found m.id c.message_index f
            ])
      ]

  pub latest-IsLeaf :
      (children : Dict (Option String) (List String)) (best : Option (Message J))
      (ms : List (Message J)) {m : Message J}
      → ((b : Message J) → best ≡ some b → is_leaf children b ≡ true)
      → latest children best ms ≡ some m
      → is_leaf children m ≡ true
  unfolding latest
  latest-IsLeaf children best [] h e = h _ e
  latest-IsLeaf children best (n ∷ ms) h e = elim (Bool-cases (is_leaf children n)) [
    | inl t ↦ latest-IsLeaf children (newer best n) ms (λ b g. ground (arith, h b)) (rw t at e)
    | inr f ↦ latest-IsLeaf children best ms h (rw f at e)
  ]
