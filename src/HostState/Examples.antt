-- ===== src/HostState/Examples.antt =====
-- The host-state theorems at one service: two writers of the key `ui/theme`.
use assistant_runtime.Prelude.{
  ℕ, ◌≡◌, refl, String, arith, lookup, put, remove, Option, none, some, List, [], ◌∷◌, ok, err,
}
use assistant_runtime.HostState.Store
use assistant_runtime.HostState.Store.{HostStateEntry, Key, base_version}
use assistant_runtime.HostState.Service
use assistant_runtime.HostState.Service.{HostStateConfig, conflict, not_found}
use assistant_runtime.HostState.Versions
use assistant_runtime.HostState.Versions.{
  Op, versions_at, Ascending, versions_at-Ascending, lost_update_refused,
}
use assistant_runtime.HostState.Contract.{get-put, get-delete}

abbrev config : HostStateConfig
config = record { max_value_bytes = 100; max_page = 10 }

abbrev key : Key
key = ("ui", "theme")

abbrev entry : ℕ → HostStateEntry String
entry n = record {
  namespace = "ui";
  key = "theme";
  value = "dark";
  version = n;
  updated_by = "w";
  updated_at = some 7;
}

abbrev kept : Store.Store String
kept = record { entries = (key, entry 2) ∷ []; deleted = [] }

abbrev service : Service.Service String
service = record { config = config; store = some kept }

abbrev json_size : String → Option ℕ
json_size v = some 6

abbrev calls : List (Op String)
calls =
    Op.put_op key "light" "a" (some 2) 8
    ∷ Op.delete_op key none
    ∷ Op.put_op ("ui", "font") "mono" "b" none 9
    ∷ Op.put_op key "dark" "b" none 9
    ∷ []

versions_at-Ascending_example : Ascending (base_version key kept) (versions_at key calls kept)
versions_at-Ascending_example = versions_at-Ascending key calls kept

-- The versions that these calls hand out at the key: 5, not 1, after the deletion.
versions_test : versions_at key calls kept ≡ 3 ∷ 5 ∷ []
unfolding Service.put Service.get Service.delete Service.check Service.matches_namespace
    Service.matches_key Store.put_entry Store.get Store.delete_entry lookup put remove versions_at
    Versions.step Versions.run
versions_test = refl

lost_update_refused_example :
    let t = Versions.run calls (Store.put_entry "ui" "theme" "light" "a" (some 2) 8 kept).1 in
    Store.put_entry "ui" "theme" "dark" "b" (some 2) 9 t ≡ (none, t)
unfolding Service.put Service.get Service.delete Service.check Service.matches_namespace
    Service.matches_key Store.put_entry Store.get Store.delete_entry lookup put remove versions_at
    Versions.step Versions.run
lost_update_refused_example =
    lost_update_refused key "light" "dark" "a" "b" 2 8 9 calls kept (omega arith) refl

get-put_example :
    (Service.get "ui" "theme" (Service.put json_size "ui" "theme" "dark" "w" (some 2) 7 service).1
      ≡ (ok (entry 3), (Service.put json_size "ui" "theme" "dark" "w" (some 2) 7 service).1))
    × ((entry 3).value ≡ "dark")
unfolding Service.put Service.get Service.delete Service.check Service.matches_namespace
    Service.matches_key Store.put_entry Store.get Store.delete_entry lookup put remove versions_at
    Versions.step Versions.run
get-put_example =
    get-put json_size "ui" "theme" "dark" "w" (some 2) 7 service
      (Service.put json_size "ui" "theme" "dark" "w" (some 2) 7 service).1 (entry 3) refl

get-delete_example :
    let t = (Service.delete "ui" "theme" "w" (some 2) service).1 in
    Service.get "ui" "theme" t ≡ (err not_found, t)
unfolding Service.put Service.get Service.delete Service.check Service.matches_namespace
    Service.matches_key Store.put_entry Store.get Store.delete_entry lookup put remove versions_at
    Versions.step Versions.run
get-delete_example =
    get-delete "ui" "theme" "w" (some 2) service
      (Service.delete "ui" "theme" "w" (some 2) service).1 refl
