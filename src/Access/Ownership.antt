-- ===== src/Access/Ownership.antt =====
-- Which sessions the callers of AccessService (app/access/interface.py, principal.py) reach.
use assistant_runtime.Prelude.{
  ◌≡◌, sym, ap, ◌∙◌, String, false, ◌||◌, Option, none, some, List, ◌==◌, ok, strip, is_empty,
  string_eq, Bool-cases, inl, inr,
}
use mathlib.Core.Option.{some-injective}
use assistant_runtime.Access.Principals.{Principal, Credentials, is_admin, new_principal, header}
use assistant_runtime.Access.Service.{
  AccessMode, header_mode, AccessService, HostAnswer, named, made, roles_in, text_or, by_mode,
  authenticate, principal_of_headers, check_session,
}
use assistant_runtime.Access.Named.{ok_inj}

new_principal-id :
    (id : String) (roles : List String) (label : String) (p : Principal)
    → new_principal id roles label ≡ some p
    → p.id ≡ id
unfolding new_principal
new_principal-id id roles label p h = elim (Bool-cases (is_empty id || is_empty (strip id))) [
  | inl e ↦ cc (rw e at h)
  | inr e ↦ sym (ap (λ (q : Principal). q.id) (some-injective _ p (rw e at h)))
]

made-id :
    (o : Option Principal) (id : String) (p : Principal)
    → ((q : Principal) → o ≡ some q → q.id ≡ id)
    → made o ≡ ok p
    → p.id ≡ id
made-id none id p f h = cc h
made-id (some q) id p f h = f p (ap some (ok_inj q p h))

named-id : (id roles : String) (p : Principal) → named id roles ≡ ok p → p.id ≡ id
named-id id roles p h = elim (Bool-cases (is_empty id)) [
  | inl e ↦ cc (rw e at h)
  | inr e ↦
      made-id (new_principal id (roles_in roles) "") id p (new_principal-id id (roles_in roles) "")
        (rw e at h)
]

-- A principal without the admin role reaches the sessions that it owns, and no others.
pub check_session-owner :
    (p : Principal) (owner : Option String)
    → is_admin p ≡ false
    → check_session p owner ≡ ok tt
    → owner ≡ some p.id
unfolding check_session
check_session-owner p none a h = cc (rw a at h)
check_session-owner p (some o) a h = elim (Bool-cases (o == p.id)) [
  | inl e ↦ ap some ((string_eq.eqb_iff o p.id).0 e)
  | inr e ↦ cc (rw (a, e) at h)
]

-- The name that the proxy gives.
abbrev pub name_of : (String → String) → AccessService → Credentials → String
name_of lower s c = strip (text_or (header lower s.config.principal_header c))

module _ (lower : String → String) (host : Credentials → HostAnswer) (s : AccessService)
    (by_headers : s.config.mode ≡ header_mode) where
  authenticate-id :
      (c : Credentials) (p : Principal)
      → authenticate lower host s c ≡ ok p
      → p.id ≡ name_of lower s c
  unfolding authenticate principal_of_headers
  authenticate-id c p h =
      named-id (name_of lower s c) (text_or (header lower s.config.roles_header c)) p
        (sym (ap (λ (m : AccessMode). by_mode lower m host s c) by_headers) ∙ h)

  -- In the mode of headers, if two authenticated callers without the admin role both pass the check of one
  -- session, then the proxy gave both the same name, and the session belongs to that name.
  pub owners_apart :
      (c d : Credentials) (p q : Principal) (owner : Option String)
      → authenticate lower host s c ≡ ok p
      → authenticate lower host s d ≡ ok q
      → is_admin p ≡ false
      → is_admin q ≡ false
      → check_session p owner ≡ ok tt
      → check_session q owner ≡ ok tt
      → (name_of lower s c ≡ name_of lower s d) × (owner ≡ some (name_of lower s c))
  owners_apart c d p q owner hp hq ap1 aq1 kp kq =
      let x = check_session-owner p owner ap1 kp ∙ ap some (authenticate-id c p hp) in
      let y = check_session-owner q owner aq1 kq ∙ ap some (authenticate-id d q hq) in
      (some-injective (name_of lower s c) (name_of lower s d) (sym x ∙ y), x)
