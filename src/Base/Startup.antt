-- ===== src/Base/Startup.antt =====
-- What LifecycleManager (base/lifecycle.py) promises on start and on failure.
use assistant_runtime.Prelude.{
  ◌≡◌, refl, sym, ap, ◌∙◌, ◌⊎◌, inl, inr, String, true, false, List, [], ◌∷◌, ◌++◌, map, ok, err,
  All, Bool-cases,
}
use mathlib.Core.List.{reverse, append-nil, append_assoc}
use assistant_runtime.Base.Lifecycle.{
  LifecycleManager, Behaviour, Call, started, start_failed, stop_call, stop_loop, stop_all,
  start_loop, start_all, start_raised,
}

module _ (b : Behaviour) where
  stop_loop-map :
      (ns : List String) (calls : List Call) → stop_loop b ns calls ≡ calls ++ map (stop_call b) ns
  unfolding stop_loop
  stop_loop-map [] calls = sym (append-nil calls)
  stop_loop-map (n ∷ ns) calls =
      rw (stop_loop-map ns (calls ++ stop_call b n ∷ []))
        (append_assoc calls (stop_call b n ∷ []) (map (stop_call b) ns))

  -- The manager after a start of `ns` that succeeded.
  abbrev pub all_started : List String → LifecycleManager → LifecycleManager
  all_started ns m = record m {
    started_names = m.started_names ++ ns;
    calls = m.calls ++ map started ns;
  }

  -- The manager after a start of `pre` that succeeded and one of `n` that failed.
  abbrev pub rolled_back : List String → String → LifecycleManager → LifecycleManager
  rolled_back pre n m = record m {
    started_names = [];
    calls =
        m.calls
        ++ (map started pre
            ++ start_failed n ∷ map (stop_call b) (reverse (m.started_names ++ (pre ++ n ∷ []))));
  }

  abbrev pub FailsAt : List String → LifecycleManager → List String → String → List String → Type 0
  FailsAt ns m pre n post =
      (ns ≡ pre ++ n ∷ post)
      × All (λ k. b.starts k ≡ true) pre
      × (b.starts n ≡ false)
      × (start_loop b ns m ≡ (err (start_raised n), rolled_back pre n m))

  start_loop-cases :
      (ns : List String) (m : LifecycleManager)
      → (All (λ k. b.starts k ≡ true) ns × (start_loop b ns m ≡ (ok tt, all_started ns m)))
        ⊎ ((pre : List String) × (n : String) × (post : List String) × FailsAt ns m pre n post)
  unfolding start_loop
  start_loop-cases [] m = inl (tt, rw (append-nil m.started_names, append-nil m.calls) refl)
  start_loop-cases (n ∷ ns) m = elim (Bool-cases (b.starts n)) [
    | inr e ↦ inr (
      [],
      n,
      ns,
      (
        refl,
        tt,
        e,
        rw (e, start_loop)
            (rw
              (
                stop_loop-map (reverse (m.started_names ++ n ∷ []))
                    (m.calls ++ start_failed n ∷ []),
                stop_all,
                append_assoc m.calls (start_failed n ∷ [])
                    (map (stop_call b) (reverse (m.started_names ++ n ∷ []))),
              )
              refl),
      ),
    )
    | inl e ↦
        let m1 = record m {
          started_names = m.started_names ++ n ∷ [];
          calls = m.calls ++ started n ∷ [];
        } in
        elim (start_loop-cases ns m1) [
          | inl (a, q) ↦ inl (
            (e, a),
            rw (e, start_loop)
                (q
                  ∙ rw
                      (
                        append_assoc m.started_names (n ∷ []) ns,
                        append_assoc m.calls (started n ∷ []) (map started ns),
                      )
                      refl),
          )
          | inr (pre, k, post, (split, a, f, q)) ↦ inr (
            n ∷ pre,
            k,
            post,
            (
              ap (λ l. n ∷ l) split,
              (e, a),
              f,
              rw (e, start_loop)
                  (q
                    ∙ rw
                        (
                          append_assoc m.started_names (n ∷ []) (pre ++ k ∷ []),
                          append_assoc m.calls (started n ∷ []) (
                              map started pre
                              ++ start_failed k
                                ∷ map (stop_call b)
                                    (reverse (m.started_names ++ (n ∷ [] ++ (pre ++ k ∷ []))))),
                        )
                        refl),
            ),
          )
        ]
  ]

  -- Starting a manager of which nothing is started: all components start, in the order of their
  -- registration; or those before some component start and it fails, start raises, and they and it are
  -- stopped in the reverse order, each once and whether or not one of the stops raises, and no
  -- component counts as started.
  pub start_all-cases :
      (m : LifecycleManager)
      → m.started_names ≡ []
      → (All (λ k. b.starts k ≡ true) m.components
          × (start_all b m ≡ (
            ok tt,
            record m { started_names = m.components; calls = m.calls ++ map started m.components },
          )))
        ⊎ ((pre : List String) × (n : String) × (post : List String) × (m.components
              ≡ pre ++ n ∷ post)
            × All (λ k. b.starts k ≡ true) pre
            × (b.starts n ≡ false)
            × (start_all b m ≡ (
              err (start_raised n),
              record m {
                started_names = [];
                calls =
                    m.calls
                    ++ (map started pre
                        ++ start_failed n ∷ map (stop_call b) (reverse (pre ++ n ∷ [])));
              },
            )))
  unfolding start_all
  start_all-cases m h = elim (start_loop-cases m.components m) [
    | inl (a, q) ↦ inl (a, q ∙ rw h refl)
    | inr (pre, n, post, (split, a, f, q)) ↦ inr (pre, n, post, split, a, f, q ∙ rw h refl)
  ]
