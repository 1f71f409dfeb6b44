-- ===== src/Access/Named.antt =====
-- Every caller that AccessService (app/access/interface.py) authenticates has a name.
use assistant_runtime.Prelude.{
  ◌≡◌, ◌≢◌, refl, sym, ap, ◌∙◌, inl, inr, String, Bool, true, false, ◌&&◌, ◌||◌, Option, none, some,
  List, Result, ok, err, strip, strip_left, strip_right, is_space, is_empty, arith, Bool-cases,
}
use Prim.Native.Char.{code}
use mathlib.Core.Path.{subst}
use mathlib.Core.Option.{some-injective}
use assistant_runtime.Access.Principals.{
  Principal, Credentials, is_blank, new_principal, local_principal, header,
}
use assistant_runtime.Access.Service.{
  AccessMode, trusted_local, header_mode, host_mode, AccessService, AccessError, HostAnswer, gave,
  gave_none, gave_other, raised_authentication, raised_other, by_mode, authenticate,
  check_local_token, principal_of_headers, named, made, answered, ask_host, local_if,
  assertion_failed, roles_in, text_or,
}

-- Only spaces.
is_spaces : String → Bool
unfolding is_space
is_spaces String.[] = true
is_spaces (String.◌∷◌ c s) = is_space (code c) && is_spaces s

is_empty-strip_right : (s : String) → is_empty (strip_right s) ≡ is_spaces s
unfolding is_spaces strip_right
is_empty-strip_right String.[] = refl
is_empty-strip_right (String.◌∷◌ c s) = ground (arith, is_empty-strip_right s)

is_spaces-strip_left : (s : String) → is_spaces (strip_left s) ≡ is_spaces s
unfolding is_spaces strip_left
is_spaces-strip_left String.[] = refl
is_spaces-strip_left (String.◌∷◌ c s) = elim (Bool-cases (is_space (code c))) [
  | inl e ↦ rw e (is_spaces-strip_left s)
  | inr e ↦ rw e (rw e refl)
]

is_empty-strip : (s : String) → is_empty (strip s) ≡ is_spaces s
unfolding strip
is_empty-strip s = is_empty-strip_right (strip_left s) ∙ is_spaces-strip_left s

is_spaces-strip_right : (s : String) → is_spaces (strip_right s) ≡ is_empty (strip_right s)
unfolding is_spaces strip_right
is_spaces-strip_right String.[] = refl
is_spaces-strip_right (String.◌∷◌ c s) =
    elim (Bool-cases (is_empty (strip_right s) && is_space (code c))) [
      | inl e ↦ rw e refl
      | inr e ↦ rw e (ground (arith, e, is_spaces-strip_right s))
    ]

is_empty-strip-strip : (s : String) → is_empty (strip (strip s)) ≡ is_empty (strip s)
is_empty-strip-strip s =
    is_empty-strip (strip s) ∙ unfold strip in is_spaces-strip_right (strip_left s)

abbrev pub IsNamed : Principal → Type 0
IsNamed p = is_blank p.id ≡ false

new_principal-IsNamed :
    (id : String) (roles : List String) (label : String) (p : Principal)
    → new_principal id roles label ≡ some p
    → IsNamed p
unfolding new_principal
new_principal-IsNamed id roles label p h = elim (Bool-cases (is_empty id || is_empty (strip id))) [
  | inl e ↦ cc (rw e at h)
  | inr e ↦ subst IsNamed (some-injective _ p (rw e at h)) e
]

pub ok_inj : (q p : Principal) → (let r : Result AccessError Principal = ok q in r) ≡ ok p → q ≡ p
ok_inj q p h = cc h

made-IsNamed :
    (o : Option Principal) (p : Principal)
    → ((q : Principal) → o ≡ some q → IsNamed q)
    → made o ≡ ok p
    → IsNamed p
made-IsNamed none p f h = cc h
made-IsNamed (some q) p f h = f p (ap some (ok_inj q p h))

named-IsNamed : (id roles : String) (p : Principal) → named id roles ≡ ok p → IsNamed p
named-IsNamed id roles p h = elim (Bool-cases (is_empty id)) [
  | inl e ↦ cc (rw e at h)
  | inr e ↦
      made-IsNamed (new_principal id (roles_in roles) "") p
        (new_principal-IsNamed id (roles_in roles) "") (rw e at h)
]

-- A name of the headers never fails the constructor.
named-ok : (id roles : String) → named (strip id) roles ≢ err assertion_failed
unfolding new_principal
named-ok id roles h = elim (Bool-cases (is_empty (strip id))) [
  | inl e ↦ cc (rw e at h)
  | inr e ↦ let twice = is_empty-strip-strip id ∙ e in cc (rw (e, twice) at h)
]

answered-IsNamed :
    (a : HostAnswer) (p : Principal)
    → ((q : Principal) → a ≡ gave q → IsNamed q)
    → answered a ≡ ok p
    → IsNamed p
answered-IsNamed (gave q) p f h = f p (ap gave (ok_inj q p h))
answered-IsNamed gave_none p f h = cc h
answered-IsNamed gave_other p f h = cc h
answered-IsNamed (raised_authentication t) p f h = cc h
answered-IsNamed raised_other p f h = cc h

ask_host-IsNamed :
    (b : Bool) (a : HostAnswer) (p : Principal)
    → ((q : Principal) → a ≡ gave q → IsNamed q)
    → ask_host b a ≡ ok p
    → IsNamed p
ask_host-IsNamed true a p f h = answered-IsNamed a p f h
ask_host-IsNamed false a p f h = cc h

local-IsNamed : IsNamed local_principal
unfolding is_blank strip
local-IsNamed = refl

local_if-IsNamed :
    (r : Result AccessError (Unit {0})) (p : Principal) → local_if r ≡ ok p → IsNamed p
local_if-IsNamed (ok u) p h = subst IsNamed (ok_inj local_principal p h) local-IsNamed
local_if-IsNamed (err e) p h = cc h

module _ (lower : String → String) (host : Credentials → HostAnswer) where
  by_mode-IsNamed :
      (s : AccessService) (c : Credentials) (p : Principal) (m : AccessMode)
      → ((q : Principal) → host c ≡ gave q → IsNamed q)
      → by_mode lower m host s c ≡ ok p
      → IsNamed p
  unfolding principal_of_headers
  by_mode-IsNamed s c p trusted_local f h =
      local_if-IsNamed (check_local_token lower s.config c) p h
  by_mode-IsNamed s c p header_mode f h =
      named-IsNamed (strip (text_or (header lower s.config.principal_header c)))
        (text_or (header lower s.config.roles_header c)) p h
  by_mode-IsNamed s c p host_mode f h = ask_host-IsNamed s.has_authenticator (host c) p f h

  -- If the principals that the host's callback gives have names, then every principal that `authenticate`
  -- returns has one, in every mode; and in the mode of headers it fails with no ValueError.
  pub authenticate-IsNamed :
      (s : AccessService) (c : Credentials)
      → ((q : Principal) → host c ≡ gave q → IsNamed q)
      → ((p : Principal) → authenticate lower host s c ≡ ok p → IsNamed p)
        × (s.config.mode ≡ header_mode → authenticate lower host s c ≢ err assertion_failed)
  unfolding authenticate principal_of_headers
  authenticate-IsNamed s c f = (
    λ p h. by_mode-IsNamed s c p s.config.mode f h,
    λ m h.
        named-ok (text_or (header lower s.config.principal_header c))
          (text_or (header lower s.config.roles_header c))
          (ap (λ (x : AccessMode). by_mode lower x host s c) (sym m) ∙ h),
  )
