-- ===== src/Actions/Conflicts.antt =====
-- Two editors of one action (services/actions): an edit of an outdated revision is refused.
use assistant_runtime.Prelude.{
  ℕ, ◌<◌, ◌≡◌, refl, sym, ap, ◌∙◌, String, Bool, true, Option, none, some, List, [], lookup, err,
  pure, raise, raise_if, gets, ◌>>=◌, arith, nat_eq,
}
use assistant_runtime.Actions.Types.{ActionRecord, revision_conflict}
use assistant_runtime.Actions.Store.{ActionStore}
use assistant_runtime.Actions.Service
use assistant_runtime.Actions.Service.{ActionService, transaction, update_tx}
use assistant_runtime.Actions.Changes.{ActionChanges, known_status, not_at, is_empty_list}
use assistant_runtime.Actions.Steps.{Call, run}
use assistant_runtime.Actions.History.{run-Evolves}

not_at-below : (e r : ℕ) → e < r → not_at (some e) r ≡ true
not_at-below e r h = ground arith

module _ {J : Type 0} where
  stale_tx :
      (now id : ℕ) (ch : ActionChanges J) (by : String) (e : ℕ) (t : ActionStore J)
      (r : ActionRecord J)
      → lookup id t.actions ≡ some r
      → e < r.revision
      → update_tx now id ch by none (some e) t ≡ (err (revision_conflict r.revision e), t)
  unfolding update_tx ◌>>=◌ raise_if raise pure gets
  stale_tx now id ch by e t r f lt = rw (f, update_tx) (rw (not_at-below e r.revision lt) refl)

  update_runs :
      (now id : ℕ) (ch : ActionChanges J) (by : String) (es : Option (List String)) (e : Option ℕ)
      (s : ActionService J)
      → is_empty_list ch.unknown ≡ true
      → known_status ch.status ≡ true
      → Service.update now id ch by es e s ≡ transaction (update_tx now id ch by es e) s
  unfolding Service.update ◌>>=◌ raise_if raise pure
  update_runs now id ch by es e s u k = rw (u, Service.update) (rw k refl)

  stale_update :
      (now id : ℕ) (ch : ActionChanges J) (by : String) (e : ℕ) (s : ActionService J)
      (t : ActionStore J) (r : ActionRecord J)
      → ch.unknown ≡ []
      → known_status ch.status ≡ true
      → s.store ≡ some t
      → lookup id t.actions ≡ some r
      → e < r.revision
      → let after = Service.update now id ch by none (some e) s in
        (after.0 ≡ err (revision_conflict r.revision e)) × (after.1.store ≡ some t)
  unfolding transaction
  stale_update now id ch by e s t r u k h f lt =
      rw (update_runs now id ch by none (some e) s (ap is_empty_list u) k)
        (rw (h, transaction) (rw (stale_tx now id ch by e t r f lt) (refl, refl)))

  -- Once an action has a revision above `e`, and whatever calls follow, an edit that expects revision `e`,
  -- names only what can be changed, a known status if any, and expects no status, raises a revision
  -- conflict and changes nothing.
  pub stale_edit_refused :
      (is_uuid : String → Bool) (cs : List (Call J)) (now id : ℕ) (ch : ActionChanges J)
      (by : String) (e : ℕ) (s : ActionService J) (t : ActionStore J) (a : ActionRecord J)
      → ch.unknown ≡ []
      → known_status ch.status ≡ true
      → s.store ≡ some t
      → id < t.next_action
      → lookup id t.actions ≡ some a
      → e < a.revision
      → let later = run is_uuid cs s in
        let after = Service.update now id ch by none (some e) later in
        (r : ℕ) × (after.0 ≡ err (revision_conflict r e)) × (after.1.store ≡ later.store)
  stale_edit_refused is_uuid cs now id ch by e s t a u k h lt f low =
      let (t', b, g, found, evolved) = run-Evolves is_uuid cs s t id a h lt f in
      let (raised, same) =
        stale_update now id ch by e (run is_uuid cs s) t' b u k g found
          (omega (arith, evolved.revised)) in
      (b.revision, raised, same ∙ sym g)
