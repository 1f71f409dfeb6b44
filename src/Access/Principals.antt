-- ===== src/Access/Principals.antt =====
-- src/assistant_runtime/principal.py: principals and credentials. `lower` is `str.lower`. Of the payload of a
-- Socket.IO connect, only the text under "token" is read.
use assistant_runtime.Prelude.{
  String, Bool, false, ◌||◌, Option, none, some, List, [], ◌∷◌, ◌==◌, Dict, lookup, put, any, strip,
  is_empty, string_eq, if◌then◌else◌,
}

pub record Principal : Type 0 where
  pub id : String
  pub roles : List String
  pub label : String

abbrev admin_role : String
admin_role = "admin"

abbrev pub is_admin : Principal → Bool
is_admin p = any (λ r. r == admin_role) p.roles

-- `not id or not id.strip()`
unfoldable pub is_blank : String → Bool
is_blank id = is_empty id || is_empty (strip id)

-- `Principal(id=..., roles=..., label=...)`: `none` is the ValueError for an id that is empty.
unfoldable pub new_principal : String → List String → String → Option Principal
unfolding is_blank
new_principal id roles label =
    if is_blank id then none else some (record { id = id; roles = roles; label = label })

abbrev pub local_principal : Principal
local_principal = record { id = "local"; roles = admin_role ∷ []; label = "local operator" }

pub data Transport : Type 0 where
  http socketio in_process : Transport

pub record Credentials : Type 0 where
  pub transport : Transport
  pub headers : Dict String String
  pub token : Option String
  pub client : Option String

module _ (lower : String → String) where
  -- `{k.lower(): v for k, v in headers.items()}`
  abbrev pub lower_headers : Dict String String → Dict String String → Dict String String
  lower_headers [] d = d
  lower_headers ((k, v) ∷ hs) d = lower_headers hs (put (lower k) v d)

  unfoldable pub from_headers :
      Transport → Dict String String → Option String → Option String → Credentials
  from_headers transport headers token client = record {
    transport = transport;
    headers = lower_headers headers [];
    token = token;
    client = client;
  }

  unfoldable pub header : String → Credentials → Option String
  header name c = lookup (lower name) c.headers

abbrev pub is_owner : Option String → String → Bool
is_owner none id = false
is_owner (some o) id = o == id

unfoldable pub can_access_session : Principal → Option String → Bool
can_access_session p owner_id = is_admin p || is_owner owner_id p.id
