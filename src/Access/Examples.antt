-- ===== src/Access/Examples.antt =====
-- Concrete callers of AccessService (app/access/interface.py).
use assistant_runtime.Prelude.{
  ◌≡◌, ◌≢◌, ◌⊎◌, ◌↔◌, refl, String, none, some, [], ◌∷◌, true, false, ok, err, lookup, strip,
  is_empty,
}
use mathlib.Core.Path.{subst}
use assistant_runtime.Access.Principals.{is_blank, Principal, Credentials, http, header}
use assistant_runtime.Access.Service.{
  AccessConfig, AccessMode, trusted_local, header_mode, AccessService, HostAnswer, gave, gave_none,
  host_mode, assertion_failed, authenticate, check_session, text_or,
}
use assistant_runtime.Access.Named.{IsNamed, authenticate-IsNamed}
use assistant_runtime.Access.Tokens.{Bears, local_token_exact}
use assistant_runtime.Access.Ownership.{name_of, owners_apart}

-- The names of these headers are in lower case.
abbrev same : String → String
same s = s

abbrev nobody : Credentials → HostAnswer
nobody c = gave_none

abbrev config : AccessMode → AccessConfig
config m = record {
  mode = m;
  principal_header = "x-id";
  roles_header = "x-roles";
  local_token = "secret";
}

abbrev service : AccessMode → AccessService
service m = record { config = config m; has_authenticator = false; started = true }

abbrev ann : Credentials
ann = record {
  transport = http;
  headers = ("x-id", " ann ") ∷ ("x-roles", "editor, viewer") ∷ [];
  token = none;
  client = none;
}

abbrev holder : Credentials
holder = record {
  transport = http;
  headers = ("authorization", "bearer  secret") ∷ [];
  token = none;
  client = none;
}

abbrev ann_principal : Principal
ann_principal = record { id = "ann"; roles = "editor" ∷ "viewer" ∷ []; label = "" }

abbrev host_service : AccessService
host_service = record { config = config host_mode; has_authenticator = true; started = true }

abbrev knows_ann : Credentials → HostAnswer
knows_ann c = gave ann_principal

given-IsNamed : (q : Principal) → gave ann_principal ≡ gave q → IsNamed q
unfolding is_blank strip
given-IsNamed q h = let same : ann_principal ≡ q = cc h in subst IsNamed same refl

authenticate-IsNamed_example :
    ((p : Principal) → authenticate same knows_ann host_service ann ≡ ok p → IsNamed p)
    × (host_service.config.mode ≡ header_mode
        → authenticate same knows_ann host_service ann ≢ err assertion_failed)
authenticate-IsNamed_example = authenticate-IsNamed same knows_ann host_service ann given-IsNamed

local_token_exact_example :
    ((p : Principal) × (authenticate same nobody (service trusted_local) holder ≡ ok p)) ↔ (
      (holder.token ≡ some "secret")
      ⊎ Bears same (text_or (header same "authorization" holder)) "secret")
unfolding is_empty
local_token_exact_example = local_token_exact same nobody (service trusted_local) holder refl refl

-- The same name with other spaces and another role.
abbrev ann_again : Credentials
ann_again = record {
  transport = http;
  headers = ("x-roles", "viewer") ∷ ("x-id", "ann") ∷ [];
  token = none;
  client = none;
}

abbrev ann_viewer : Principal
ann_viewer = record { id = "ann"; roles = "viewer" ∷ []; label = "" }

owners_apart_example :
    (name_of same (service header_mode) ann ≡ name_of same (service header_mode) ann_again)
    × (some "ann" ≡ some (name_of same (service header_mode) ann))
unfolding authenticate header lookup check_session strip
owners_apart_example =
    owners_apart same nobody (service header_mode) refl ann ann_again ann_principal ann_viewer
      (some "ann") refl refl refl refl refl refl
