-- ===== src/Actions/Consistent.antt =====
-- Every action record (services/actions) agrees with its own history.
use assistant_runtime.Prelude.{
  ℕ, ◌≤◌, ◌<◌, ◌≡◌, refl, sym, inl, inr, String, Bool, true, Option, none, some, List, [], ◌∷◌,
  ◌++◌, ◌==◌, Dict, lookup, AllValues, AllValues-lookup, AllValues-put, arith, nat_eq, string_eq,
  option_eq, Bool-cases, Option-cases,
}
use mathlib.Core.Path.{subst}
use assistant_runtime.Actions.Types.{HistoryEntry, ActionRecord, one_of, action_statuses}
use assistant_runtime.Actions.Store.{
  ActionStore, create_action, update_action, touch, add_confirmation, update_confirmation,
}
use assistant_runtime.Actions.Service.{ActionService, start}
use assistant_runtime.Actions.Changes.{
  ActionChanges, changed_action, changed_confirmation, with_status, with_text, with_results,
  known_status,
}
use assistant_runtime.Actions.Steps.{
  Call, run, Move, stays, creates_action, changes_action, approves, changes_confirmation, run-keeps,
}

abbrev pub last_status : List HistoryEntry → Option String
last_status [] = none
last_status (e ∷ []) = some e.status
last_status (e ∷ f ∷ es) = last_status (f ∷ es)

-- The status is a known one and the last one of the history, and the first text has revision 1.
pub record IsConsistent {J : Type 0} (r : ActionRecord J) : Type 0 where
  pub recorded : last_status r.history ≡ some r.status
  pub known : one_of r.status action_statuses ≡ true
  pub revised : 0 < r.revision

last_status-append :
    (es : List HistoryEntry) (e : HistoryEntry) → last_status (es ++ e ∷ []) ≡ some e.status
last_status-append [] e = refl
last_status-append (f ∷ []) e = refl
last_status-append (f ∷ g ∷ es) e = last_status-append (g ∷ es) e

module _ {J : Type 0} where
  IsConsistent-like :
      (a b : ActionRecord J)
      → b.history ≡ a.history
      → b.status ≡ a.status
      → a.revision ≤ b.revision
      → IsConsistent a
      → IsConsistent b
  IsConsistent-like a b h s r c = record {
    recorded = rw (h, s) c.recorded;
    known = rw s c.known;
    revised = omega (arith, r, c.revised);
  }

  with_status-IsConsistent :
      (now : ℕ) (by : String) (st : Option String) (r : ActionRecord J)
      → known_status st ≡ true
      → IsConsistent r
      → IsConsistent (with_status now by st r)
  with_status-IsConsistent now by none r k c = c
  with_status-IsConsistent now by (some s) r k c = elim (Bool-cases (s == r.status)) [
    | inl e ↦ rw e c
    | inr e ↦
        rw e (record { recorded = last_status-append r.history _; known = k; revised = c.revised })
  ]

  with_text-IsConsistent :
      (now : ℕ) (t : Option (Option String)) (r : ActionRecord J)
      → IsConsistent r
      → IsConsistent (with_text now t r)
  with_text-IsConsistent now none r c = c
  with_text-IsConsistent now (some t) r c = elim (Bool-cases (t == r.text)) [
    | inl e ↦ rw e c
    | inr e ↦ rw e (IsConsistent-like r _ refl refl (omega arith) c)
  ]

  with_results-IsConsistent :
      (d : Option (Dict String J)) (r : ActionRecord J)
      → IsConsistent r
      → IsConsistent (with_results d r)
  with_results-IsConsistent none r c = c
  with_results-IsConsistent (some d) r c = IsConsistent-like r _ refl refl (omega arith) c

  changed_action-IsConsistent :
      (now later : ℕ) (by : String) (ch : ActionChanges J) (r : ActionRecord J)
      → known_status ch.status ≡ true
      → IsConsistent r
      → IsConsistent (record (changed_action now by ch r) { updated_at = later })
  unfolding changed_action
  changed_action-IsConsistent now later by ch r k c =
      let r1 = with_status now by ch.status r in
      let r2 = with_text now ch.text r1 in
      IsConsistent-like (with_results ch.results r2) _ refl refl (omega arith) (
        with_results-IsConsistent ch.results r2
          (with_text-IsConsistent now ch.text r1 (with_status-IsConsistent now by ch.status r k c)))

  abbrev pub AllConsistent : ActionStore J → Type 0
  AllConsistent s = AllValues IsConsistent s.actions

  touch-AllConsistent :
      (now k : ℕ) (s : ActionStore J) → AllConsistent s → AllConsistent (touch now k s)
  unfolding touch
  touch-AllConsistent now k s a = elim (Option-cases (lookup k s.actions)) [
    | inl e ↦ rw e a
    | inr (r, e) ↦ rw e (
        AllValues-put IsConsistent k _ s.actions a (
          IsConsistent-like r _ refl refl (omega arith)
            (AllValues-lookup IsConsistent k s.actions a e)))
  ]

  Move-AllConsistent : (s t : ActionStore J) → AllConsistent s → Move s t → AllConsistent t
  unfolding create_action update_action add_confirmation update_confirmation touch
  Move-AllConsistent s t a (stays e) = subst AllConsistent (sym e) a
  Move-AllConsistent s t a (creates_action now p known e) = rw e (
      AllValues-put IsConsistent s.next_action _ s.actions a
        (record { recorded = refl; known = known; revised = omega arith }))
  Move-AllConsistent s t a (changes_action now k by ch r known found e) = rw e (
      AllValues-put IsConsistent k _ s.actions a (
        changed_action-IsConsistent now now by ch r known
          (AllValues-lookup IsConsistent k s.actions a found)))
  Move-AllConsistent s t a (approves now q fresh e) =
      rw (e, fresh) (touch-AllConsistent now q.action_id s a)
  Move-AllConsistent s t a (changes_confirmation now k ch r found settled e) =
      rw e (touch-AllConsistent now (changed_confirmation ch r).action_id s a)

  -- After any calls on a service that has just started, every action's status is one of the known ones
  -- and the last one of its history, and its revision is at least 1.
  pub run-AllConsistent :
      (is_uuid : String → Bool) (cs : List (Call J)) (s : ActionService J)
      → (t : ActionStore J) × ((run is_uuid cs (start s)).store ≡ some t) × AllConsistent t
  unfolding start
  run-AllConsistent is_uuid cs s =
      run-keeps is_uuid AllConsistent Move-AllConsistent cs (start s) _ refl tt
