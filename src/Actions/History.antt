-- ===== src/Actions/History.antt =====
-- What becomes of an action record (services/actions): its history only grows, its revision counts its
-- texts, and its status is the last one of its history.
use assistant_runtime.Prelude.{
  ℕ, ◌≤◌, ◌<◌, ◌≡◌, refl, sym, ◌∙◌, inl, inr, String, Bool, Option, none, some, List, [], ◌∷◌, ◌++◌,
  ◌==◌, ==_iff, Dict, lookup, put, lookup-put, arith, nat_eq, string_eq, option_eq, Bool-cases,
  Option-cases,
}
use mathlib.Core.Path.{subst}
use mathlib.Core.Option.{some-injective}
use mathlib.Core.List.{append-nil, append_assoc}
use assistant_runtime.Actions.Types.{HistoryEntry, ActionRecord}
use assistant_runtime.Actions.Store.{
  ActionStore, create_action, update_action, touch, add_confirmation, update_confirmation,
}
use assistant_runtime.Actions.Service.{ActionService, proposed_action}
use assistant_runtime.Actions.Changes.{
  ActionChanges, changed_action, changed_confirmation, with_status, with_text, with_results,
}
use assistant_runtime.Actions.Steps.{
  Call, run, Move, stays, creates_action, changes_action, approves, changes_confirmation, run-keeps,
}

-- What never changes of an action.
abbrev pub SameProposal : {J : Type 0} → ActionRecord J → ActionRecord J → Type 0
SameProposal a b =
    (b.id ≡ a.id)
    × (b.kind ≡ a.kind)
    × (b.created_by ≡ a.created_by)
    × (b.created_at ≡ a.created_at)
    × (b.profile ≡ a.profile)
    × (b.subject ≡ a.subject)

-- How `b` can follow `a`.
pub record Evolves {J : Type 0} (a b : ActionRecord J) : Type 0 where
  pub same : SameProposal a b
  pub revised : a.revision ≤ b.revision
  pub same_text : b.revision ≡ a.revision → b.text ≡ a.text
  pub added : List HistoryEntry
  pub grown : b.history ≡ a.history ++ added

module _ {J : Type 0} where
  Evolves-refl : (a : ActionRecord J) → Evolves a a
  Evolves-refl a = record {
    same = (refl, refl, refl, refl, refl, refl);
    revised = omega arith;
    same_text = λ h. refl;
    added = [];
    grown = sym (append-nil a.history);
  }

  Evolves-trans : (a b c : ActionRecord J) → Evolves a b → Evolves b c → Evolves a c
  Evolves-trans a b c e f = record {
    same = (
      f.same.0 ∙ e.same.0,
      f.same.1 ∙ e.same.1,
      f.same.2 ∙ e.same.2,
      f.same.3 ∙ e.same.3,
      f.same.4 ∙ e.same.4,
      f.same.5 ∙ e.same.5,
    );
    revised = omega (arith, e.revised, f.revised);
    same_text = λ h.
        f.same_text (omega (arith, h, e.revised, f.revised))
        ∙ e.same_text (omega (arith, h, e.revised, f.revised));
    added = e.added ++ f.added;
    grown = f.grown ∙ rw (e.grown) (append_assoc a.history e.added f.added);
  }

  with_status-Evolves :
      (now : ℕ) (by : String) (st : Option String) (r : ActionRecord J)
      → Evolves r (with_status now by st r)
  with_status-Evolves now by none r = Evolves-refl r
  with_status-Evolves now by (some s) r = elim (Bool-cases (s == r.status)) [
    | inl e ↦ rw e (Evolves-refl r)
    | inr e ↦ rw e (record {
      same = (refl, refl, refl, refl, refl, refl);
      revised = omega arith;
      same_text = λ h. refl;
      added = record { status = s; at = now; by = by } ∷ [];
      grown = refl;
    })
  ]

  with_text-Evolves :
      (now : ℕ) (t : Option (Option String)) (r : ActionRecord J) → Evolves r (with_text now t r)
  with_text-Evolves now none r = Evolves-refl r
  with_text-Evolves now (some t) r = elim (Bool-cases (t == r.text)) [
    | inl e ↦ rw e (Evolves-refl r)
    | inr e ↦ rw e (record {
      same = (refl, refl, refl, refl, refl, refl);
      revised = omega arith;
      same_text = λ h. absurd (omega (arith, h));
      added = [];
      grown = sym (append-nil r.history);
    })
  ]

  -- A record that agrees with `b` in what the relation reads.
  Evolves-like :
      (a b c : ActionRecord J)
      → SameProposal b c
      → c.revision ≡ b.revision
      → c.text ≡ b.text
      → c.history ≡ b.history
      → Evolves a b
      → Evolves a c
  Evolves-like a b c s r t h e = Evolves-trans a b c e (record {
    same = s;
    revised = omega (arith, r);
    same_text = λ _. t;
    added = [];
    grown = h ∙ sym (append-nil b.history);
  })

  with_results-Evolves :
      (d : Option (Dict String J)) (r : ActionRecord J) → Evolves r (with_results d r)
  with_results-Evolves none r = Evolves-refl r
  with_results-Evolves (some d) r =
      Evolves-like r r _ (refl, refl, refl, refl, refl, refl) refl refl refl (Evolves-refl r)

  changed_action-Evolves :
      (now : ℕ) (by : String) (ch : ActionChanges J) (r : ActionRecord J)
      → Evolves r (changed_action now by ch r)
  unfolding changed_action
  changed_action-Evolves now by ch r =
      let r1 = with_status now by ch.status r in
      let r2 = with_text now ch.text r1 in
      Evolves-like r (with_results ch.results r2) _ (refl, refl, refl, refl, refl, refl) refl refl
        refl
        (Evolves-trans r r1 _ (with_status-Evolves now by ch.status r) (
          Evolves-trans r1 r2 _ (with_text-Evolves now ch.text r1)
            (with_results-Evolves ch.results r2)))

  -- The ids that are handed out are below the next one.
  abbrev pub IsNumbered : ActionStore J → Type 0
  IsNumbered s = (k : ℕ) → s.next_action ≤ k → lookup k s.actions ≡ none

  -- The action is in the store, as a later state of `a`.
  abbrev pub HoldsIn : ℕ → ActionRecord J → ℕ → Dict ℕ (ActionRecord J) → Type 0
  HoldsIn id a next d = (id < next) × (b : ActionRecord J) × (lookup id d ≡ some b) × Evolves a b

  abbrev pub Holds : ℕ → ActionRecord J → ActionStore J → Type 0
  Holds id a s = HoldsIn id a s.next_action s.actions

  -- Writing a later state of a record over it.
  put-at :
      (k id : ℕ) (d : Dict ℕ (ActionRecord J)) (r c b : ActionRecord J)
      → lookup k d ≡ some r
      → Evolves r c
      → lookup id d ≡ some b
      → (x : ActionRecord J) × (lookup id (put k c d) ≡ some x) × Evolves b x
  put-at k id d r c b e f h = elim (Bool-cases (k == id)) [
    | inl q ↦
        let same : k ≡ id = (==_iff k id).0 q in
        let old : r ≡ b =
          some-injective r b (sym e ∙ subst (λ j. lookup j d ≡ some b) (sym same) h) in
        (c, ground (arith, lookup-put k id c d), subst (λ x. Evolves x c) old f)
    | inr q ↦ (b, ground (arith, lookup-put k id c d), Evolves-refl b)
  ]

  touched-at :
      (now k id : ℕ) (s : ActionStore J) (b : ActionRecord J)
      → lookup id s.actions ≡ some b
      → (c : ActionRecord J) × (lookup id (touch now k s).actions ≡ some c) × Evolves b c
  unfolding touch
  touched-at now k id s b h = elim (Option-cases (lookup k s.actions)) [
    | inl e ↦ rw e (b, h, Evolves-refl b)
    | inr (r, e) ↦ rw e (
        put-at k id s.actions r _ b e
          (Evolves-like r r _ (refl, refl, refl, refl, refl, refl) refl refl refl (Evolves-refl r))
          h)
  ]

  HoldsIn-later :
      (id : ℕ) (a : ActionRecord J) (n : ℕ) (d d' : Dict ℕ (ActionRecord J))
      → ((b : ActionRecord J)
          → lookup id d ≡ some b
          → (c : ActionRecord J) × (lookup id d' ≡ some c) × Evolves b c)
      → HoldsIn id a n d
      → HoldsIn id a n d'
  HoldsIn-later id a n d d' later (lt, b, h, e) =
      let (c, k, f) = later b h in (lt, c, k, Evolves-trans a b c e f)

  Holds-Move :
      (id : ℕ) (a : ActionRecord J) (s t : ActionStore J) → Holds id a s → Move s t → Holds id a t
  unfolding create_action update_action add_confirmation update_confirmation touch
  Holds-Move id a s t h (stays e) = subst (Holds id a) (sym e) h
  Holds-Move id a s t (lt, b, h, e) (creates_action now p known q) = rw q (
    omega arith,
    b,
    ground (
      arith,
      ==_iff s.next_action id,
      lookup-put s.next_action id (create_action now (proposed_action now p) s).0 s.actions,
    ),
    e,
  )
  Holds-Move id a s t h (changes_action now k by ch r known e q) = rw q (
      HoldsIn-later id a s.next_action s.actions _
        (λ b f.
          put-at k id s.actions r _ b e
            (Evolves-like r (changed_action now by ch r) _ (refl, refl, refl, refl, refl, refl) refl
              refl refl (changed_action-Evolves now by ch r))
            f)
        h)
  Holds-Move id a s t h (approves now q fresh e) =
      rw (e, fresh)
        (HoldsIn-later id a s.next_action s.actions _ (λ b f. touched-at now q.action_id id s b f)
          h)
  Holds-Move id a s t h (changes_confirmation now k ch r found settled e) = rw e (
      HoldsIn-later id a s.next_action s.actions _
        (λ b f. touched-at now (changed_confirmation ch r).action_id id s b f) h)

  -- An action that a store with numbered actions holds: its kind, creator, profile and subject stay, its
  -- history only grows, its revision never falls, and its text changes only with its revision.
  pub run-Evolves :
      (is_uuid : String → Bool) (cs : List (Call J)) (s : ActionService J) (t : ActionStore J)
      (id : ℕ) (a : ActionRecord J)
      → s.store ≡ some t
      → id < t.next_action
      → lookup id t.actions ≡ some a
      → (u : ActionStore J) × (b : ActionRecord J) × ((run is_uuid cs s).store ≡ some u)
        × (lookup id u.actions ≡ some b)
        × Evolves a b
  run-Evolves is_uuid cs s t id a h lt e =
      let (u, k, (less, b, f, g)) =
        run-keeps is_uuid (Holds id a) (Holds-Move id a) cs s t h (lt, a, e, Evolves-refl a) in
      (u, b, k, f, g)
