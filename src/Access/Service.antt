-- ===== src/Access/Service.antt =====
-- src/assistant_runtime/app/access/interface.py: AccessService. The host's `authenticate` callback is a
-- parameter: what it answers, or how it fails.
use assistant_runtime.Prelude.{
  String, Bool, true, false, not, Option, none, some, List, [], ◌∷◌, ◌++◌, ◌==◌, Result, ok, err,
  any, map, keep_if, strip, is_empty, string_eq, nat_eq, if◌then◌else◌,
}
use Prim.Native.Char.{Char, code}
use assistant_runtime.Access.Principals.{
  Principal, Credentials, new_principal, local_principal, is_admin, header, can_access_session,
}

pub data AccessMode : Type 0 where
  trusted_local header_mode host_mode : AccessMode

pub record AccessConfig : Type 0 where
  pub mode : AccessMode
  pub principal_header : String
  pub roles_header : String
  pub local_token : String

pub data AccessError : Type 0 where
  not_authenticated : String → AccessError
  denied : String → AccessError
  assertion_failed : AccessError

-- What the callback does: it gives a principal, None or some other value, or it raises.
pub data HostAnswer : Type 0 where
  gave : Principal → HostAnswer
  gave_none gave_other : HostAnswer
  raised_authentication : String → HostAnswer
  raised_other : HostAnswer

pub record AccessService : Type 0 where
  pub config : AccessConfig
  pub has_authenticator : Bool
  pub started : Bool

abbrev is_host : AccessMode → Bool
is_host host_mode = true
is_host _ = false

unfoldable pub start : AccessService → Result AccessError AccessService
start s =
    if (if is_host s.config.mode then not s.has_authenticator else false)
    then err (denied "ACCESS__MODE=host needs AssistantDefinition.authenticate")
    else ok (record s { started = true })

unfoldable pub stop : AccessService → AccessService
stop s = record s { started = false }

-- `s.partition(" ")`, without the separator.
unfoldable pub partition_space : String → String × String
partition_space String.[] = (String.[], String.[])
partition_space (String.◌∷◌ c s) =
    let rest = partition_space s in
    if code c == 32 then (String.[], s) else (String.◌∷◌ c rest.0, rest.1)

abbrev pub text_or : Option String → String
text_or none = ""
text_or (some t) = t

abbrev cons_first : Char → List String → List String
cons_first c [] = String.◌∷◌ c String.[] ∷ []
cons_first c (p ∷ ps) = String.◌∷◌ c p ∷ ps

-- `s.split(",")`
unfoldable pub split_commas : String → List String
split_commas String.[] = String.[] ∷ []
split_commas (String.◌∷◌ c s) =
    let rest = split_commas s in if code c == b',' then String.[] ∷ rest else cons_first c rest

abbrev pub roles_in : String → List String
roles_in s = keep_if (λ r. not (is_empty r)) (map strip (split_commas s))

-- The ValueError of Principal cannot come here; were it raised, it would not be an AccessError.
abbrev pub made : Option Principal → Result AccessError Principal
made none = err assertion_failed
made (some p) = ok p

abbrev pub named : String → String → Result AccessError Principal
named id roles =
    if is_empty id
    then err (not_authenticated "Missing header")
    else made (new_principal id (roles_in roles) "")

abbrev pub answered : HostAnswer → Result AccessError Principal
answered (gave p) = ok p
answered gave_none = err (not_authenticated "Not authenticated")
answered gave_other = err (not_authenticated "Host authenticator returned no Principal")
answered (raised_authentication t) = err (not_authenticated t)
answered raised_other = err (not_authenticated "Authentication failed")

abbrev pub ask_host : Bool → HostAnswer → Result AccessError Principal
ask_host true answer = answered answer
ask_host false answer = err assertion_failed

abbrev pub local_if : Result AccessError (Unit {0}) → Result AccessError Principal
local_if (ok u) = ok local_principal
local_if (err e) = err e

abbrev pub given : Option String → List String
given none = []
given (some t) = t ∷ []

module _ (lower : String → String) where
  abbrev pub bearer : String → String → List String
  bearer scheme value =
      if (if lower scheme == "bearer" then not (is_empty (strip value)) else false)
      then strip value ∷ []
      else []

  -- The tokens that a caller presents.
  unfoldable pub presented : Credentials → List String
  unfolding header partition_space
  presented c =
      let (scheme, value) = partition_space (text_or (header lower "authorization" c)) in
      bearer scheme value ++ given c.token

  -- `compare_digest` on the bytes of two texts is their equality.
  unfoldable pub check_local_token : AccessConfig → Credentials → Result AccessError (Unit {0})
  unfolding presented
  check_local_token config c =
      if (if is_empty config.local_token
        then false
        else not (any (λ t. t == config.local_token) (presented c)))
      then err (not_authenticated "This runtime requires its local token")
      else ok tt

  unfoldable pub principal_of_headers : AccessConfig → Credentials → Result AccessError Principal
  unfolding header new_principal split_commas
  principal_of_headers config c =
      named (strip (text_or (header lower config.principal_header c)))
        (text_or (header lower config.roles_header c))

  abbrev pub by_mode :
      AccessMode
      → (Credentials → HostAnswer)
      → AccessService
      → Credentials
      → Result AccessError Principal
  by_mode trusted_local host s c = local_if (check_local_token s.config c)
  by_mode header_mode host s c = principal_of_headers s.config c
  by_mode host_mode host s c = ask_host s.has_authenticator (host c)

  unfoldable pub authenticate :
      (Credentials → HostAnswer) → AccessService → Credentials → Result AccessError Principal
  unfolding check_local_token principal_of_headers
  authenticate host s c = by_mode s.config.mode host s c

unfoldable pub require_admin : Principal → Result AccessError (Unit {0})
require_admin p =
    if is_admin p then ok tt else err (denied "Administration requires the admin role")

unfoldable pub check_session : Principal → Option String → Result AccessError (Unit {0})
unfolding can_access_session
check_session p owner_id =
    if can_access_session p owner_id
    then ok tt
    else err (denied "Session belongs to another principal")
