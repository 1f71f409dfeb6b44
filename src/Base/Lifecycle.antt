-- ===== src/Base/Lifecycle.antt =====
-- src/assistant_runtime/base/lifecycle.py: LifecycleManager. A component is its name; what its `start`,
-- `stop` and `health_check` do is a parameter, and `calls` lists the calls with their outcomes.
use assistant_runtime.Prelude.{
  String, Bool, true, false, not, Option, none, some, List, [], ◌∷◌, ◌++◌, any, ◌==◌, ok, err, Exec,
  string_eq, if◌then◌else◌,
}
use mathlib.Core.List.{reverse}

pub data LifecycleError : Type 0 where
  already_registered : (name : String) → LifecycleError
  start_raised : (name : String) → LifecycleError

pub data Call : Type 0 where
  started : (name : String) → Call
  start_failed : (name : String) → Call
  stopped : (name : String) → Call
  stop_failed : (name : String) → Call

pub record LifecycleManager : Type 0 where
  pub components : List String
  pub started_names : List String
  pub calls : List Call

-- What a component does when it is called: whether `start` and `stop` return, and what `health_check`
-- returns, or none where it raises: its `healthy` (false if absent) and its `ready` (true if absent).
pub record Behaviour : Type 0 where
  pub starts : String → Bool
  pub stops : String → Bool
  pub health : String → Option (Bool × Bool)

abbrev pub new_manager : LifecycleManager
new_manager = record { components = []; started_names = []; calls = [] }

unfoldable pub register : String → Exec LifecycleManager LifecycleError (Unit {0})
register name m =
    if any (λ n. n == name) m.components
    then (err (already_registered name), m)
    else (ok tt, record m { components = m.components ++ name ∷ [] })

pub data Health : Type 0 where
  unhealthy degraded healthy : Health

module _ (b : Behaviour) where
  open b use {starts, stops, health}

  abbrev pub stop_call : String → Call
  stop_call name = if stops name then stopped name else stop_failed name

  -- The loop of `_stop_all`: a component that fails to stop does not keep the others from stopping.
  unfoldable pub stop_loop : List String → List Call → List Call
  stop_loop [] calls = calls
  stop_loop (n ∷ ns) calls = stop_loop ns (calls ++ stop_call n ∷ [])

  unfoldable pub stop_all : LifecycleManager → LifecycleManager
  unfolding stop_loop
  stop_all m = record m { started_names = []; calls = stop_loop (reverse m.started_names) m.calls }

  -- The loop of `start_all` over the components that are left.
  unfoldable pub start_loop : List String → Exec LifecycleManager LifecycleError (Unit {0})
  unfolding stop_all
  start_loop [] m = (ok tt, m)
  start_loop (n ∷ ns) m =
      let m1 = record m { started_names = m.started_names ++ n ∷ [] } in
      let rest = start_loop ns (record m1 { calls = m.calls ++ started n ∷ [] }) in
      if starts n
      then rest
      else (err (start_raised n), stop_all (record m1 { calls = m.calls ++ start_failed n ∷ [] }))

  unfoldable pub start_all : Exec LifecycleManager LifecycleError (Unit {0})
  unfolding start_loop
  start_all m = start_loop m.components m

  abbrev check_healthy : Option (Bool × Bool) → Bool
  check_healthy none = false
  check_healthy (some (h, r)) = h

  abbrev check_ready : Option (Bool × Bool) → Bool
  check_ready none = true
  check_ready (some (h, r)) = r

  unfoldable pub overall : LifecycleManager → Health
  overall m =
      if any (λ n. not (check_healthy (health n))) m.components
      then unhealthy
      else if any (λ n. not (check_ready (health n))) m.components
      then degraded
      else healthy
