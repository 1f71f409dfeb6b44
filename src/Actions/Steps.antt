-- ===== src/Actions/Steps.antt =====
-- The calls of services/actions/interface.py as steps of the store, and the few moves that they can make.
use assistant_runtime.Prelude.{
  ℕ, ◌≡◌, refl, String, Bool, true, false, not, ◌&&◌, ◌||◌, Option, some, List, [], ◌∷◌, ◌==◌,
  lookup, has, is_some, pure, raise, raise_if, gets, ◌>>=◌, ◌>>◌, Bool-cases, Option-cases, inl,
  inr, string_eq, nat_eq,
}
use assistant_runtime.Actions.Types.{ActionRecord, ConfirmationRecord, ActionError}
use assistant_runtime.Actions.Store
use assistant_runtime.Actions.Store.{ActionStore, ActionFilters}
use assistant_runtime.Actions.Service
use assistant_runtime.Actions.Service.{
  ActionService, M, Tx, transaction, in_tx, check_status, proposed_action, approved, update_tx,
  confirm_tx, update_confirmation_tx,
}
use assistant_runtime.Actions.Changes.{
  Proposal, ActionChanges, ConfirmationChanges, Approval, changed_action, has_values,
  changed_confirmation, changes_settled, known_status, not_expected, not_at, other_action,
}

-- A call of the service that can change its store, with the time at which it is made.
pub data Call (J : Type 0) : Type 0 where
  creates : ℕ → Proposal J → Call J
  updates :
      ℕ → (id : ℕ) → ActionChanges J → (by : String) → Option (List String) → Option ℕ → Call J
  confirms : ℕ → Approval → Call J
  updates_confirmation : ℕ → (id : String) → ConfirmationChanges J → Option ℕ → Call J

and_false : (x y : Bool) → (x && y) ≡ false → x ≡ true → y ≡ false
and_false true y h k = h
and_false false y h k = cc

not-not : (b : Bool) → not (not b) ≡ true → b ≡ true
not-not true h = refl
not-not false h = cc

module _ {J : Type 0} (is_uuid : String → Bool) where
  -- The service after a call, whether or not it raises.
  unfoldable pub step : Call J → ActionService J → ActionService J
  step (creates now p) s = (Service.create now p s).1
  step (updates now id ch by status revision) s = (Service.update now id ch by status revision s).1
  step (confirms now a) s = (Service.confirm is_uuid now a s).1
  step (updates_confirmation now id ch action) s =
      (Service.update_confirmation now id ch action s).1

  unfoldable pub run : List (Call J) → ActionService J → ActionService J
  run [] s = s
  run (c ∷ cs) s = run cs (step c s)

module _ {J : Type 0} where
  -- What a call does to the store.
  pub data Move (s t : ActionStore J) : Type 0 where
    stays : t ≡ s → Move s t
    creates_action :
        (now : ℕ) (p : Proposal J)
        → known_status (some p.status) ≡ true
        → t ≡ (Store.create_action now (proposed_action now p) s).1
        → Move s t
    changes_action :
        (now id : ℕ) (by : String) (ch : ActionChanges J) (r : ActionRecord J)
        → known_status ch.status ≡ true
        → lookup id s.actions ≡ some r
        → t ≡ (Store.update_action now id (changed_action now by ch r) s).1
        → Move s t
    approves :
        (now : ℕ) (a : Approval)
        → has a.confirmation_id s.confirmations ≡ false
        → t ≡ (Store.add_confirmation now (approved a) s).1
        → Move s t
    changes_confirmation :
        (now : ℕ) (id : String) (ch : ConfirmationChanges J) (r : ConfirmationRecord J)
        → lookup id s.confirmations ≡ some r
        → (not (r.status == "confirmed") ≡ true → changes_settled ch ≡ false)
        → t ≡ (Store.update_confirmation now id (changed_confirmation ch r) s).1
        → Move s t

  -- The service's store has made a move.
  abbrev pub Moved : ActionStore J → ActionService J → Type 0
  Moved t s = (t' : ActionStore J) × (s.store ≡ some t') × Move t t'

  -- A method that makes a move on a started service, whether it returns or raises.
  pub record Makes {A : Type 0} (m : M J A) : Type 0 where
    pub at : (s : ActionService J) (t : ActionStore J) → s.store ≡ some t → Moved t (m s).1

  Makes-guarded :
      {A : Type 0} (b : Bool) (e : ActionError) (m : M J A)
      → (not b ≡ true → Makes m)
      → Makes (raise_if b e >> m)
  unfolding raise_if raise pure ◌>>=◌
  Makes-guarded true e m k = record { at = λ s t h. (t, h, stays refl) }
  Makes-guarded false e m k = record { at = (k refl).at }

  Makes-transaction :
      {A : Type 0} (m : Tx J A) → ((t : ActionStore J) → Move t (m t).1) → Makes (transaction m)
  unfolding transaction
  Makes-transaction m k = record { at = λ s t h. rw h ((m t).1, refl, k t) }

  update_tx-Move :
      (now id : ℕ) (ch : ActionChanges J) (by : String) (status : Option (List String))
      (revision : Option ℕ)
      → known_status ch.status ≡ true
      → (t : ActionStore J) → Move t (update_tx now id ch by status revision t).1
  unfolding update_tx ◌>>=◌ raise_if raise pure gets
  update_tx-Move now id ch by status revision known t = elim (Option-cases (lookup id t.actions)) [
    | inl e ↦ rw (e, update_tx) (stays refl)
    | inr (r, e) ↦ elim (Bool-cases (not_expected status r.status)) [
      | inl f ↦ rw (e, update_tx) (rw f (stays refl))
      | inr f ↦ elim (Bool-cases (not_at revision r.revision)) [
        | inl g ↦ rw (e, update_tx) (rw (f, g) (stays refl))
        | inr g ↦ elim (Bool-cases (has_values ch r)) [
          | inl v ↦ rw (e, update_tx) (rw (f, g, v) (changes_action now id by ch r known e refl))
          | inr v ↦ rw (e, update_tx) (rw (f, g, v) (stays refl))
        ]
      ]
    ]
  ]

  confirm_tx-Move : (now : ℕ) (a : Approval) (t : ActionStore J) → Move t (confirm_tx now a t).1
  unfolding confirm_tx ◌>>=◌ raise pure gets Store.add_confirmation
  confirm_tx-Move now a t = elim (Option-cases (lookup a.action_id t.actions)) [
    | inl e ↦ rw (e, confirm_tx) (stays refl)
    | inr (r, e) ↦ elim (Bool-cases (has a.confirmation_id t.confirmations)) [
      | inl f ↦ rw (e, confirm_tx) (rw f (stays refl))
      | inr f ↦ rw (e, confirm_tx) (rw f (approves now a f (rw f refl)))
    ]
  ]

  update_confirmation_tx-Move :
      (now : ℕ) (id : String) (ch : ConfirmationChanges J) (action : Option ℕ) (t : ActionStore J)
      → Move t (update_confirmation_tx now id ch action t).1
  unfolding update_confirmation_tx ◌>>=◌ raise_if raise pure gets
  update_confirmation_tx-Move now id ch action t = elim (Option-cases (lookup id t.confirmations)) [
    | inl e ↦ rw (e, update_confirmation_tx) (stays refl)
    | inr (r, e) ↦ elim (Bool-cases (other_action action r.action_id)) [
      | inl f ↦ rw (e, update_confirmation_tx) (rw f (stays refl))
      | inr f ↦ elim (Bool-cases (not (r.status == "confirmed") && changes_settled ch)) [
        | inl g ↦ rw (e, update_confirmation_tx) (rw (f, g) (stays refl))
        | inr g ↦ elim (Bool-cases (changes_settled ch || is_some ch.reconciled)) [
          | inl v ↦
              rw (e, update_confirmation_tx)
                (rw (f, g, v) (changes_confirmation now id ch r e (and_false _ _ g) refl))
          | inr v ↦ rw (e, update_confirmation_tx) (rw (f, g, v) (stays refl))
        ]
      ]
    ]
  ]

module _ {J : Type 0} where
  create-Makes : (now : ℕ) (p : Proposal J) → Makes (Service.create now p)
  unfolding Service.create
  create-Makes now p =
      Makes-guarded _ _ _
        λ known. Makes-transaction _ (λ t. creates_action now p (not-not _ known) refl)

  update-Makes :
      (now id : ℕ) (ch : ActionChanges J) (by : String) (status : Option (List String))
      (revision : Option ℕ)
      → Makes (Service.update now id ch by status revision)
  unfolding Service.update
  update-Makes now id ch by status revision = Makes-guarded _ _ _ λ _.
      Makes-guarded _ _ _
        λ known. Makes-transaction _ (update_tx-Move now id ch by status revision (not-not _ known))

  confirm-Makes :
      (is_uuid : String → Bool) (now : ℕ) (a : Approval)
      → Makes {J = J} (Service.confirm is_uuid now a)
  unfolding Service.confirm
  confirm-Makes is_uuid now a = Makes-guarded _ _ _ λ _. Makes-guarded _ _ _ λ _.
      Makes-guarded _ _ _ λ _. Makes-guarded _ _ _ λ _. Makes-transaction _ (confirm_tx-Move now a)

  update_confirmation-Makes :
      (now : ℕ) (id : String) (ch : ConfirmationChanges J) (action : Option ℕ)
      → Makes (Service.update_confirmation now id ch action)
  unfolding Service.update_confirmation
  update_confirmation-Makes now id ch action = Makes-guarded _ _ _ λ _. Makes-guarded _ _ _ λ _.
      Makes-guarded _ _ _ λ _. Makes-transaction _ (update_confirmation_tx-Move now id ch action)

module _ {J : Type 0} (is_uuid : String → Bool) where
  -- Every call on a started service makes one of the moves.
  pub step-Moved :
      (c : Call J) (s : ActionService J) (t : ActionStore J)
      → s.store ≡ some t
      → Moved t (step is_uuid c s)
  unfolding step
  step-Moved (creates now p) s t h = (create-Makes now p).at s t h
  step-Moved (updates now id ch by status revision) s t h =
      (update-Makes now id ch by status revision).at s t h
  step-Moved (confirms now a) s t h = (confirm-Makes is_uuid now a).at s t h
  step-Moved (updates_confirmation now id ch action) s t h =
      (update_confirmation-Makes now id ch action).at s t h

  -- What every move keeps, every run keeps.
  pub run-keeps :
      (P : ActionStore J → Type 0)
      → ((s t : ActionStore J) → P s → Move s t → P t)
      → (cs : List (Call J)) (s : ActionService J) (t : ActionStore J) → s.store ≡ some t
      → P t
      → (t' : ActionStore J) × ((run is_uuid cs s).store ≡ some t') × P t'
  unfolding run
  run-keeps P keep [] s t h p = (t, h, p)
  run-keeps P keep (c ∷ cs) s t h p =
      let (t1, h1, m) = step-Moved c s t h in
      run-keeps P keep cs (step is_uuid c s) t1 h1 (keep t t1 p m)
