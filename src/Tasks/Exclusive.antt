-- ===== src/Tasks/Exclusive.antt =====
-- One agent is active per profile and subject, and per session (app/tasks/interface.py: _check_free).
use assistant_runtime.Prelude.{
  ℕ, ◌≡◌, refl, sym, ◌∙◌, ◌⊎◌, inl, inr, String, Bool, true, false, Option, none, some, List, [],
  ◌∷◌, ◌++◌, ◌==◌, ==_iff, Dict, values, lookup, put, lookup-put, keep_if, All, pure, raise, gets,
  ◌>>=◌, string_eq, option_eq, pair_eq, Bool-cases, Option-cases,
}
use assistant_runtime.Prelude.Triples.{Keeps, Always, Keeps-pure, Keeps-raise}
use mathlib.Core.Path.{subst}
use mathlib.Core.Option.{some-injective}
use mathlib.Core.List.{reverse, reverse-cons}
use assistant_runtime.Tasks.Types.{is_active, AgentRecord, TaskError, is_visible}
use assistant_runtime.Access.Principals.{Principal}
use assistant_runtime.Tasks.Store
use assistant_runtime.Tasks.Store.{TaskStore}
use assistant_runtime.Tasks.Agents.{
  AgentService, PinCall, raise_found, identity, same_identity, check_free, active_agents, get_agent,
  admit, write_agent, with_session, move_to,
}

module _ {A : Type 0} (P : A → Type 0) where
  All-split : (xs ys : List A) → All P (xs ++ ys) → All P xs × All P ys
  All-split [] ys h = (tt, h)
  All-split (x ∷ xs) ys (h, hs) = let (a, b) = All-split xs ys hs in ((h, a), b)

  All-reverse : (xs : List A) → All P (reverse xs) → All P xs
  All-reverse [] h = tt
  All-reverse (x ∷ xs) h =
      let (a, b) = All-split (reverse xs) (x ∷ []) (rw (reverse-cons x xs) at h) in
      (b.0, All-reverse xs a)

  All-keep_if : (q : A → Bool) (xs : List A) → All P (keep_if q xs) → All (λ x. q x ≡ true → P x) xs
  All-keep_if q [] h = tt
  All-keep_if q (x ∷ xs) h = elim (Bool-cases (q x)) [
    | inl e ↦ let k = rw e at h in ((λ _. k.0), All-keep_if q xs k.1)
    | inr e ↦ ((λ f. cc (e, f)), All-keep_if q xs (rw e at h))
  ]

  All-values :
      (d : Dict String A) (k : String) (a : A) → All P (values d) → lookup k d ≡ some a → P a
  unfolding lookup
  All-values [] k a h e = cc
  All-values ((j, b) ∷ d) k a (h, hs) e = elim (Bool-cases (j == k)) [
    | inl q ↦ subst P (some-injective b a (rw q at e)) h
    | inr q ↦ All-values d k a hs (rw q at e)
  ]

module _ {J : Type 0} where
  -- Two agents that cannot be active at once.
  abbrev pub Clash : AgentRecord J → AgentRecord J → Type 0
  Clash a b = (a.session_id ≡ b.session_id) ⊎ (identity a ≡ identity b)

  abbrev pub AreExclusive : Dict String (AgentRecord J) → Type 0
  AreExclusive d =
      (j k : String) (a b : AgentRecord J)
      → lookup j d ≡ some a
      → lookup k d ≡ some b
      → is_active a.status ≡ true
      → is_active b.status ≡ true
      → Clash a b
      → j ≡ k

  Clash-sym : (a b : AgentRecord J) → Clash a b → Clash b a
  Clash-sym a b (inl e) = inl (sym e)
  Clash-sym a b (inr e) = inr (sym e)

  abbrev Free : String → Option (Option String × Option String) → AgentRecord J → Type 0
  Free session i a = (same_identity i a ≡ false) × ((a.session_id == session) ≡ false)

  check_free-Free :
      (session : String) (i : Option (Option String × Option String)) (xs : List (AgentRecord J))
      → check_free session i xs ≡ none
      → All (Free session i) xs
  unfolding check_free
  check_free-Free session i [] h = tt
  check_free-Free session i (a ∷ xs) h = elim (Bool-cases (same_identity i a)) [
    | inl e ↦ cc (rw e at h)
    | inr e ↦ elim (Bool-cases (a.session_id == session)) [
      | inl f ↦ cc (rw (e, f) at h)
      | inr f ↦ ((e, f), check_free-Free session i xs (rw (e, f) at h))
    ]
  ]

  -- What a check that found nothing says of every active agent.
  not_taken :
      (session : String) (i : Option (Option String × Option String)) (t : TaskStore J) (k : String)
      (a : AgentRecord J)
      → check_free session i (active_agents t) ≡ none
      → lookup k t.agents ≡ some a
      → is_active a.status ≡ true
      → Free session i a
  not_taken session i t k a h e f =
      All-values _ t.agents k a
        (All-keep_if (Free session i) _ (values t.agents)
          (All-reverse (Free session i) _ (check_free-Free session i _ h)))
        e f

  -- Writing an agent that clashes with no other active one.
  put-AreExclusive :
      (k : String) (c : AgentRecord J) (d : Dict String (AgentRecord J))
      → ((j : String) (b : AgentRecord J)
          → lookup j d ≡ some b
          → is_active b.status ≡ true
          → is_active c.status ≡ true
          → Clash b c
          → j ≡ k)
      → AreExclusive d
      → AreExclusive (put k c d)
  put-AreExclusive k c d new old i j a b e f x y clash = elim (Bool-cases (k == i)) [
    | inl p ↦
        let ci : c ≡ a = some-injective c a (rw (lookup-put k i c d, p) at e) in
        elim (Bool-cases (k == j)) [
          | inl q ↦ sym ((==_iff k i).0 p) ∙ (==_iff k j).0 q
          | inr q ↦
              let fj = rw (lookup-put k j c d, q) at f in
              sym ((==_iff k i).0 p)
              ∙ sym (new j b fj y (rw ci x) (Clash-sym c b (subst (λ z. Clash z b) (sym ci) clash)))
        ]
    | inr p ↦
        let ei = rw (lookup-put k i c d, p) at e in
        elim (Bool-cases (k == j)) [
          | inl q ↦
              let cj : c ≡ b = some-injective c b (rw (lookup-put k j c d, q) at f) in
              new i a ei x (rw cj y) (subst (λ z. Clash a z) (sym cj) clash) ∙ (==_iff k j).0 q
          | inr q ↦ old i j a b ei (rw (lookup-put k j c d, q) at f) x y clash
        ]
  ]

  -- An update that keeps who the agent is, and gives an active agent a session that no other one has.
  update-AreExclusive :
      (id : String) (f : AgentRecord J → AgentRecord J) (t : TaskStore J)
      → ((r : AgentRecord J) → is_active (f r).status ≡ true → is_active r.status ≡ true)
      → ((r : AgentRecord J) → identity (f r) ≡ identity r)
      → ((j : String) (b r : AgentRecord J)
          → lookup j t.agents ≡ some b
          → is_active b.status ≡ true
          → lookup id t.agents ≡ some r
          → is_active r.status ≡ true
          → b.session_id ≡ (f r).session_id
          → j ≡ id)
      → AreExclusive t.agents
      → AreExclusive (Store.update_agent id f t).1.agents
  unfolding Store.update_agent
  update-AreExclusive id f t live who free h = elim (Option-cases (lookup id t.agents)) [
    | inl e ↦ rw (e, Store.update_agent) h
    | inr (r, e) ↦
        rw (e, Store.update_agent)
          (put-AreExclusive id (f r) t.agents
            (λ j b g x y clash. elim clash [
              | inl s ↦ free j b r g x e (live r y) s
              | inr i ↦ h j id b r g e x (live r y) (inr (i ∙ who r))
            ])
            h)
  ]

  -- What `f` leaves of the sessions as well.
  same-AreExclusive :
      (id : String) (f : AgentRecord J → AgentRecord J) (t : TaskStore J)
      → ((r : AgentRecord J) → is_active (f r).status ≡ true → is_active r.status ≡ true)
      → ((r : AgentRecord J) → identity (f r) ≡ identity r)
      → ((r : AgentRecord J) → (f r).session_id ≡ r.session_id)
      → AreExclusive t.agents
      → AreExclusive (Store.update_agent id f t).1.agents
  same-AreExclusive id f t live who session h =
      update-AreExclusive id f t live who
        (λ j b r g x e y s. h j id b r g e x y (inl (s ∙ session r))) h

  abbrev pub OneActive : AgentService J → Type 0
  OneActive s = AreExclusive s.store.agents

  pub raise_found-OneActive :
      (o : Option TaskError) → Keeps (OneActive) (raise_found o) (Always {A = Unit {0}})
  raise_found-OneActive none = Keeps-pure tt Always tt
  raise_found-OneActive (some e) = Keeps-raise e Always

  pub get_agent-OneActive : (id : String) (p : Principal) → Keeps OneActive (get_agent id p) Always
  unfolding get_agent ◌>>=◌ gets pure raise
  get_agent-OneActive id p = record {
    at = λ s h. elim (Option-cases (lookup id s.store.agents)) [
      | inl e ↦ rw (e, get_agent) h
      | inr (a, e) ↦
          rw (e, get_agent)
            (elim (Bool-cases (is_visible a.created_by p)) [
              | inl v ↦ rw v (h, tt)
              | inr v ↦ rw v h
            ])
    ];
  }

  pub write-OneActive :
      (id : String) (a : AgentRecord J) (f : AgentRecord J → AgentRecord J) (pins : List PinCall)
      → ((r : AgentRecord J) → is_active (f r).status ≡ true → is_active r.status ≡ true)
      → ((r : AgentRecord J) → identity (f r) ≡ identity r)
      → ((r : AgentRecord J) → (f r).session_id ≡ r.session_id)
      → Keeps OneActive (write_agent id a f pins) Always
  write-OneActive id a f pins live who session = record {
    at = λ s h. (same-AreExclusive id f s.store live who session h, tt);
  }

  pub admit-OneActive : (now : ℕ) (a : AgentRecord J) → Keeps OneActive (admit now a) Always
  unfolding admit Store.create_agent ◌>>=◌ gets pure raise
  admit-OneActive now a = record {
    at = λ s h.
        elim (Option-cases (check_free a.session_id (some (identity a)) (active_agents s.store))) [
          | inr (e, f) ↦ rw (f, admit) h
          | inl f ↦
              rw (f, admit)
                (
                  put-AreExclusive a.id (record a { created_at = now }) s.store.agents
                      (λ j b g x y clash.
                        let (i, k) = not_taken a.session_id (some (identity a)) s.store j b f g x in
                        elim clash [
                          | inl c ↦ cc (k, (==_iff b.session_id a.session_id).1 c)
                          | inr c ↦ cc (i, (==_iff (identity b) (identity a)).1 c)
                        ])
                      h,
                  tt,
                )
        ];
  }

  pub move_to-OneActive :
      (id : String) (a : AgentRecord J) (session : String)
      → Keeps OneActive (move_to id a session) Always
  unfolding Store.update_agent ◌>>=◌ gets pure raise
  move_to-OneActive id a session = record {
    at = λ s h. elim (Bool-cases (session == a.session_id)) [
      | inl q ↦ rw (q, move_to) (h, tt)
      | inr q ↦ elim (Option-cases (check_free session none (active_agents s.store))) [
        | inr (e, f) ↦ rw (q, move_to) (rw f h)
        | inl f ↦
            rw (q, move_to)
              (rw f (
                update-AreExclusive id (with_session session) s.store (λ r y. y) (λ r. refl)
                    (λ j b r g x e y c. cc (
                      (not_taken session none s.store j b f g x).1,
                      (==_iff b.session_id session).1 c,
                    ))
                    h,
                tt,
              ))
      ]
    ];
  }
