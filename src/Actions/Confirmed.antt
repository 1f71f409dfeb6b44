-- ===== src/Actions/Confirmed.antt =====
-- What was confirmed (services/actions) never changes, and a confirmation is settled once.
use assistant_runtime.Prelude.{
  ◌≡◌, refl, sym, ◌∙◌, inl, inr, String, Bool, true, false, not, Option, none, some, List, ◌==◌,
  ==_iff, Dict, lookup, has, put, lookup-put, is_some, arith, nat_eq, string_eq, Bool-cases,
}
use mathlib.Core.Path.{subst}
use mathlib.Core.Option.{some-injective}
use assistant_runtime.Actions.Types.{ConfirmationRecord}
use assistant_runtime.Actions.Store.{
  ActionStore, create_action, update_action, touch, add_confirmation, update_confirmation,
}
use assistant_runtime.Actions.Service.{ActionService}
use assistant_runtime.Actions.Changes.{
  ConfirmationChanges, changed_confirmation, changes_settled, or_kept,
}
use assistant_runtime.Actions.Steps.{
  Call, run, Move, stays, creates_action, changes_action, approves, changes_confirmation, run-keeps,
}

-- What the owner confirmed.
abbrev pub SameApproval : {J : Type 0} → ConfirmationRecord J → ConfirmationRecord J → Type 0
SameApproval a b =
    (b.seq ≡ a.seq)
    × (b.id ≡ a.id)
    × (b.action_id ≡ a.action_id)
    × (b.recipient ≡ a.recipient)
    × (b.kind ≡ a.kind)
    × (b.revision ≡ a.revision)
    × (b.text_sha256 ≡ a.text_sha256)
    × (b.source ≡ a.source)
    × (b.confirmed_at ≡ a.confirmed_at)

-- How the confirmation was signed and settled.
abbrev pub SameOutcome : {J : Type 0} → ConfirmationRecord J → ConfirmationRecord J → Type 0
SameOutcome a b =
    (b.status ≡ a.status)
    × (b.result ≡ a.result)
    × (b.key_epoch ≡ a.key_epoch)
    × (b.sender ≡ a.sender)
    × (b.audience ≡ a.audience)

abbrev pub is_settled : {J : Type 0} → ConfirmationRecord J → Bool
is_settled a = not (a.status == "confirmed")

pub record Follows {J : Type 0} (a b : ConfirmationRecord J) : Type 0 where
  pub approval : SameApproval a b
  pub outcome : is_settled a ≡ true → SameOutcome a b

or_kept_none : {A : Type 0} (o : Option A) (a : A) → is_some o ≡ false → or_kept o a ≡ a
or_kept_none none a h = refl
or_kept_none (some b) a h = cc

module _ {J : Type 0} where
  Follows-refl : (a : ConfirmationRecord J) → Follows a a
  Follows-refl a = record {
    approval = (refl, refl, refl, refl, refl, refl, refl, refl, refl);
    outcome = λ _. (refl, refl, refl, refl, refl);
  }

  Follows-trans : (a b c : ConfirmationRecord J) → Follows a b → Follows b c → Follows a c
  Follows-trans a b c e f = record {
    approval =
        let p = e.approval in
        let q = f.approval in
        (
          q.0 ∙ p.0,
          q.1 ∙ p.1,
          q.2 ∙ p.2,
          q.3 ∙ p.3,
          q.4 ∙ p.4,
          q.5 ∙ p.5,
          q.6 ∙ p.6,
          q.7 ∙ p.7,
          q.8 ∙ p.8,
        );
    outcome = λ h.
        let p = e.outcome h in
        let q = f.outcome (rw p.0 h) in (q.0 ∙ p.0, q.1 ∙ p.1, q.2 ∙ p.2, q.3 ∙ p.3, q.4 ∙ p.4);
  }

  changed_confirmation-Follows :
      (ch : ConfirmationChanges J) (r : ConfirmationRecord J)
      → (is_settled r ≡ true → changes_settled ch ≡ false)
      → Follows r (changed_confirmation ch r)
  unfolding changed_confirmation
  changed_confirmation-Follows ch r h = record {
    approval = (refl, refl, refl, refl, refl, refl, refl, refl, refl);
    outcome = λ k.
        let f = h k in
        (
          or_kept_none ch.status r.status (ground (arith, f)),
          or_kept_none ch.result r.result (ground (arith, f)),
          or_kept_none ch.key_epoch r.key_epoch (ground (arith, f)),
          or_kept_none ch.sender r.sender (ground (arith, f)),
          or_kept_none ch.audience r.audience (ground (arith, f)),
        );
  }

  -- The confirmation is in the store, as a later state of `a`.
  abbrev pub HoldsConfirmation :
      String → ConfirmationRecord J → Dict String (ConfirmationRecord J) → Type 0
  HoldsConfirmation id a d = (b : ConfirmationRecord J) × (lookup id d ≡ some b) × Follows a b

  written :
      (id k : String) (a r c : ConfirmationRecord J) (d : Dict String (ConfirmationRecord J))
      → lookup k d ≡ some r
      → Follows r c
      → HoldsConfirmation id a d
      → HoldsConfirmation id a (put k c d)
  written id k a r c d e f (b, h, g) = elim (Bool-cases (k == id)) [
    | inl q ↦
        let same : k ≡ id = (==_iff k id).0 q in
        let old : r ≡ b =
          some-injective r b (sym e ∙ subst (λ j. lookup j d ≡ some b) (sym same) h) in
        (
          c,
          ground (arith, lookup-put k id c d),
          Follows-trans a b c g (subst (λ x. Follows x c) old f),
        )
    | inr q ↦ (b, ground (arith, lookup-put k id c d), g)
  ]

  added :
      (id k : String) (a c : ConfirmationRecord J) (d : Dict String (ConfirmationRecord J))
      → has k d ≡ false
      → HoldsConfirmation id a d
      → HoldsConfirmation id a (put k c d)
  unfolding has
  added id k a c d e (b, h, g) = (b, ground (arith, ==_iff k id, lookup-put k id c d), g)

  Move-Follows :
      (id : String) (a : ConfirmationRecord J) (s t : ActionStore J)
      → HoldsConfirmation id a s.confirmations
      → Move s t
      → HoldsConfirmation id a t.confirmations
  unfolding create_action update_action add_confirmation update_confirmation touch
  Move-Follows id a s t h (stays e) = subst (λ u. HoldsConfirmation id a u.confirmations) (sym e) h
  Move-Follows id a s t h (creates_action now p known e) = rw e h
  Move-Follows id a s t h (changes_action now k by ch r known found e) = rw e h
  Move-Follows id a s t h (approves now q fresh e) =
      rw (e, fresh) (added id q.confirmation_id a _ s.confirmations fresh h)
  Move-Follows id a s t h (changes_confirmation now k ch r found settled e) = rw e (
      written id k a r (changed_confirmation ch r) s.confirmations found
        (changed_confirmation-Follows ch r settled) h)

  -- A confirmation that is stored stays stored, over any calls: what was confirmed never changes, and once
  -- it is settled neither do its status, its result and its signing.
  pub run-Follows :
      (is_uuid : String → Bool) (cs : List (Call J)) (s : ActionService J) (t : ActionStore J)
      (id : String) (a : ConfirmationRecord J)
      → s.store ≡ some t
      → lookup id t.confirmations ≡ some a
      → (u : ActionStore J) × (b : ConfirmationRecord J) × ((run is_uuid cs s).store ≡ some u)
        × (lookup id u.confirmations ≡ some b)
        × Follows a b
  run-Follows is_uuid cs s t id a h e =
      let (u, k, (b, f, g)) =
        run-keeps is_uuid (λ v. HoldsConfirmation id a v.confirmations) (Move-Follows id a) cs s t h
          (a, e, Follows-refl a) in
      (u, b, k, f, g)
