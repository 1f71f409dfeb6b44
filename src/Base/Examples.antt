-- ===== src/Base/Examples.antt =====
-- The theorems on the base package at small inputs.
use assistant_runtime.Prelude.{
  ◌≡◌, refl, ◌⊎◌, String, true, false, not, none, List, [], ◌∷◌, ◌++◌, ◌==◌, map, ok, err, All, ltb,
  arith, nat_eq, string_eq,
}
use mathlib.Core.List.{reverse}
use assistant_runtime.Base.Lifecycle.{
  LifecycleManager, Behaviour, started, start_failed, start_all, start_raised, stop_call,
}
use assistant_runtime.Base.Startup.{start_all-cases}
use assistant_runtime.Base.Pages.{IsStrict, admitted, cursor_after, admitted-cursor_after}

abbrev manager : LifecycleManager
manager = record {
  components = "database" ∷ "telemetry" ∷ "voice" ∷ [];
  started_names = [];
  calls = [];
}

abbrev behaviour : Behaviour
behaviour = record {
  starts = λ n. not (n == "telemetry");
  stops = λ n. not (n == "database");
  health = λ n. none;
}

start_all-cases_example :
    (All (λ k. behaviour.starts k ≡ true) manager.components
      × (start_all behaviour manager ≡ (
        ok tt,
        record manager {
          started_names = manager.components;
          calls = map started manager.components;
        },
      )))
    ⊎ ((pre : List String) × (n : String) × (post : List String) × (manager.components
          ≡ pre ++ n ∷ post)
        × All (λ k. behaviour.starts k ≡ true) pre
        × (behaviour.starts n ≡ false)
        × (start_all behaviour manager ≡ (
          err (start_raised n),
          record manager {
            started_names = [];
            calls =
                map started pre
                ++ start_failed n ∷ map (stop_call behaviour) (reverse (pre ++ n ∷ []));
          },
        )))
start_all-cases_example = start_all-cases behaviour manager refl

ltb-IsStrict : IsStrict ltb
ltb-IsStrict = record { irreflexive = λ a. ground arith; asymmetric = λ a b h. ground (arith, h) }

admitted-cursor_after_example :
    admitted ltb (cursor_after ltb (3, 2)) ((3, 1) ∷ (3, 2) ∷ (3, 4) ∷ (7, 1) ∷ [])
    ≡ (3, 4) ∷ (7, 1) ∷ []
admitted-cursor_after_example =
    admitted-cursor_after ltb ltb-IsStrict ((3, 1) ∷ []) (3, 2) ((3, 4) ∷ (7, 1) ∷ [])
      ((refl, (refl, (refl, tt))), ((refl, (refl, tt)), ((refl, tt), (tt, tt))))
