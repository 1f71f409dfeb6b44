-- ===== src/Access/Tokens.antt =====
-- Who the local token of AccessService (app/access/interface.py: _check_local_token) lets in.
use assistant_runtime.Prelude.{
  ◌≡◌, ◌⊎◌, ◌↔◌, inl, inr, refl, ap, ◌∙◌, String, Bool, true, false, Option, none, some, List, [],
  ◌∷◌, ◌++◌, ◌==◌, any, ok, strip, is_empty, nat_eq, string_eq, Bool-cases,
}
use Prim.Native.Char.{Char, code}
use mathlib.Core.Path.{subst}
use assistant_runtime.Access.Principals.{Principal, Credentials, local_principal, header}
use assistant_runtime.Access.Service.{
  AccessConfig, trusted_local, AccessService, HostAnswer, partition_space, text_or, presented,
  check_local_token, authenticate, local_if, bearer, given,
}

-- The text without spaces before the first one, and what follows it.
abbrev pub SplitsAt : String → String → String → Type 0
SplitsAt String.[] a b = ⊥
SplitsAt (String.◌∷◌ c s) String.[] b = ((code c == 32) ≡ true) × (s ≡ b)
SplitsAt (String.◌∷◌ c s) (String.◌∷◌ d a) b = ((code c == 32) ≡ false) × (c ≡ d) × SplitsAt s a b

partition_splits : (s a b : String) → SplitsAt s a b → partition_space s ≡ (a, b)
unfolding partition_space
partition_splits String.[] a b h = absurd h
partition_splits (String.◌∷◌ c s) String.[] b (e, q) = rw e (ap (λ (x : String). (String.[], x)) q)
partition_splits (String.◌∷◌ c s) (String.◌∷◌ d a) b (e, q, h) =
    rw (e, partition_splits s a b h) (ap (λ (x : Char). (String.◌∷◌ x a, b)) q)

-- Without a space there is nothing after it.
splits_partition :
    (s : String)
    → SplitsAt s (partition_space s).0 (partition_space s).1 ⊎ ((partition_space s).1 ≡ String.[])
unfolding partition_space
splits_partition String.[] = inr refl
splits_partition (String.◌∷◌ c s) = elim (Bool-cases (code c == 32)) [
  | inl e ↦ rw e (inl (e, refl))
  | inr e ↦ rw e (elim (splits_partition s) [ inl h ↦ inl (e, refl, h) | inr h ↦ inr h ])
]

any-append :
    (p : String → Bool) (xs ys : List String)
    → any p (xs ++ ys) ≡ true
    → (any p xs ≡ true) ⊎ (any p ys ≡ true)
any-append p [] ys h = inr h
any-append p (x ∷ xs) ys h = elim (Bool-cases (p x)) [
  | inl e ↦ inl (rw e refl)
  | inr e ↦ elim (any-append p xs ys (rw e at h)) [ inl g ↦ inl (rw e g) | inr g ↦ inr g ]
]

any-left : (p : String → Bool) (xs ys : List String) → any p xs ≡ true → any p (xs ++ ys) ≡ true
any-left p [] ys h = cc h
any-left p (x ∷ xs) ys h = elim (Bool-cases (p x)) [
  | inl e ↦ rw e refl
  | inr e ↦ rw e (any-left p xs ys (rw e at h))
]

any-right : (p : String → Bool) (xs ys : List String) → any p ys ≡ true → any p (xs ++ ys) ≡ true
any-right p [] ys h = h
any-right p (x ∷ xs) ys h = elim (Bool-cases (p x)) [
  | inl e ↦ rw e refl
  | inr e ↦ rw e (any-right p xs ys h)
]

given_in : (t : String) (o : Option String) → any (λ x. x == t) (given o) ≡ true → o ≡ some t
given_in t none h = cc h
given_in t (some x) h = elim (Bool-cases (x == t)) [
  | inl e ↦ ap some ((string_eq.eqb_iff x t).0 e)
  | inr e ↦ cc (rw e at h)
]

empty_after : (b : String) → b ≡ String.[] → is_empty (strip b) ≡ false → ⊥
unfolding strip
empty_after b e m = cc (subst (λ x. is_empty (strip x) ≡ false) e m)

module _ (lower : String → String) where
  -- The header asks for the scheme `bearer`, in any case, with the token.
  abbrev pub Bears : String → String → Type 0
  Bears h t =
      (scheme : String) × (value : String) × SplitsAt h scheme value
      × (lower scheme ≡ "bearer")
      × (strip value ≡ t)

  bearer_in :
      (a b t : String)
      → any (λ x. x == t) (bearer lower a b) ≡ true
      → (lower a ≡ "bearer") × (strip b ≡ t) × (is_empty (strip b) ≡ false)
  bearer_in a b t h = elim (Bool-cases (lower a == "bearer")) [
    | inl e ↦ elim (Bool-cases (is_empty (strip b))) [
      | inl y ↦ cc (rw (e, y) at h)
      | inr n ↦ elim (Bool-cases (strip b == t)) [
        | inl q ↦
            ((string_eq.eqb_iff (lower a) "bearer").0 e, (string_eq.eqb_iff (strip b) t).0 q, n)
        | inr q ↦ cc (rw (e, n, q) at h)
      ]
    ]
    | inr e ↦ cc (rw e at h)
  ]

  bearer_out :
      (a b t : String)
      → lower a ≡ "bearer"
      → strip b ≡ t
      → is_empty t ≡ false
      → any (λ x. x == t) (bearer lower a b) ≡ true
  bearer_out a b t e q n =
      let e' = (string_eq.eqb_iff (lower a) "bearer").1 e in
      let q' = (string_eq.eqb_iff (strip b) t).1 q in
      let n' : is_empty (strip b) ≡ false = rw q n in rw (e', n', q') refl

  presents :
      (t : String) (c : Credentials)
      → is_empty t ≡ false
      → (any (λ x. x == t) (presented lower c) ≡ true)
        ↔ ((c.token ≡ some t) ⊎ Bears (text_or (header lower "authorization" c)) t)
  unfolding presented
  presents t c n = (forth, back)
    where
      h : String
      h = text_or (header lower "authorization" c)

      a : String
      a = (partition_space h).0

      b : String
      b = (partition_space h).1

      forth :
          any (λ x. x == t) (bearer lower a b ++ given c.token) ≡ true
          → (c.token ≡ some t) ⊎ Bears h t
      forth k = elim (any-append (λ x. x == t) (bearer lower a b) (given c.token) k) [
        | inl l ↦
            let (e, q, m) = bearer_in a b t l in
            elim (splits_partition h) [
              | inl split ↦ inr (a, b, split, e, q)
              | inr none_after ↦ absurd (empty_after b none_after m)
            ]
        | inr r ↦ inl (given_in t c.token r)
      ]

      back :
          (c.token ≡ some t) ⊎ Bears h t
          → any (λ x. x == t) (bearer lower a b ++ given c.token) ≡ true
      back (inl e) =
          any-right (λ x. x == t) (bearer lower a b) (given c.token)
            (rw e (rw ((string_eq.eqb_iff t t).1 refl) refl))
      back (inr (scheme, value, split, e, q)) =
          let p = partition_splits h scheme value split in
          any-left (λ x. x == t) (bearer lower a b) (given c.token)
            (bearer_out a b t (ap (λ (x : String × String). lower x.0) p ∙ e)
              (ap (λ (x : String × String). strip x.1) p ∙ q) n)

  passes :
      (config : AccessConfig) (c : Credentials)
      → is_empty config.local_token ≡ false
      → ((p : Principal) × (local_if (check_local_token lower config c) ≡ ok p))
        ↔ (any (λ x. x == config.local_token) (presented lower c) ≡ true)
  unfolding check_local_token
  passes config c n = elim (Bool-cases (any (λ x. x == config.local_token) (presented lower c))) [
    | inl e ↦ (λ h. e, λ h. (local_principal, rw (n, e) refl))
    | inr e ↦ (λ (p, h). cc (rw (n, e) at h), λ h. cc (e, h))
  ]

  -- In the mode trusted_local with a local token, `authenticate` lets in exactly the callers that present the
  -- token: as the token of a Socket.IO connect, or in an Authorization header of the scheme bearer, in any
  -- case, with spaces around it or not.
  pub local_token_exact :
      (host : Credentials → HostAnswer) (s : AccessService) (c : Credentials)
      → s.config.mode ≡ trusted_local
      → is_empty s.config.local_token ≡ false
      → ((p : Principal) × (authenticate lower host s c ≡ ok p)) ↔ (
          (c.token ≡ some s.config.local_token)
          ⊎ Bears (text_or (header lower "authorization" c)) s.config.local_token)
  unfolding authenticate
  local_token_exact host s c m n = rw m (
      let (through, let_in) = passes s.config c n in
      let (shown, show_it) = presents s.config.local_token c n in
      (λ h. shown (through h), λ h. let_in (show_it h)))
