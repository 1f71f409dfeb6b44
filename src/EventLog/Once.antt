-- ===== src/EventLog/Once.antt =====
-- No event is steered into its session twice (event_log/interface.py: _deliver).
use assistant_runtime.Prelude.{
  one_if, one_if-true, occurrences, occurrences-append, ℕ, ◌+◌, ◌≤◌, ◌≡◌, refl, ap, inl, inr,
  String, Bool, true, false, Option, none, some, List, [], ◌∷◌, ◌++◌, ◌==◌, ==_iff, lookup,
  lookup-put, is_some, arith, nat_eq, string_eq, option_eq, pair_eq, Bool-cases,
}
use mathlib.Core.Path.{subst}
use assistant_runtime.EventLog.Types.{Delivery, begun, delivered, failed, EventRecord}
use assistant_runtime.EventLog.Store.{EventStore, numbered}
use assistant_runtime.EventLog.Service.{event_record, with_delivery, begin_delivery, moved_notice}
use assistant_runtime.EventLog.Writes.{
  Write, keeps, adds, begins, ends, moves, written, create_if_new-Write, claim-cases, end-Write,
  update_notice_tx-Write,
}
use assistant_runtime.EventLog.Requests.{
  System, idle, Step, stores, claims, steers, fails, notes, moves_notice, stops_waiting,
  stops_claimed, stops_ended, Steps, none_yet, and_then, claimed_by, stored, noted, told,
}

module _ {J : Type 0} where
  abbrev ids : List (EventRecord J × String) → List ℕ
  ids [] = []
  ids ((r, target) ∷ ws) = r.id ∷ ids ws

  ids-append : (vs ws : List (EventRecord J × String)) → ids (vs ++ ws) ≡ ids vs ++ ids ws
  ids-append [] ws = refl
  ids-append ((r, target) ∷ vs) ws = ap (λ l. r.id ∷ l) (ids-append vs ws)

  -- Taking a request out of the list takes one occurrence of its event.
  taken :
      (id : ℕ) (pre post ws : List (EventRecord J × String)) (w : EventRecord J × String)
      → ws ≡ pre ++ w ∷ post
      → occurrences id (ids ws) ≡ one_if (w.0.id == id) + occurrences id (ids (pre ++ post))
  taken id pre post ws (r, target) e =
      rw
        (
          e,
          ids-append pre ((r, target) ∷ post),
          occurrences-append id (ids pre) (r.id ∷ ids post),
          ids-append pre post,
          occurrences-append id (ids pre) (ids post),
        )
        (omega arith)

  -- The delivery of the event has been begun.
  abbrev has_delivery : Option (EventRecord J) → Bool
  has_delivery none = false
  has_delivery (some r) = is_some r.delivery

  abbrev pub is_begun : ℕ → EventStore J → Bool
  is_begun id s = has_delivery (lookup id s.events)

  abbrev Fresh : EventStore J → Type 0
  Fresh s = (id : ℕ) → s.next ≤ id → lookup id s.events ≡ none

  with_delivery-has :
      (now : ℕ) (d : Delivery) (r : EventRecord J) → is_some (with_delivery now d r).delivery ≡ true
  with_delivery-has now (begun target) r = refl
  with_delivery-has now (delivered target how) r = refl
  with_delivery-has now (failed target error) r = refl

  -- A write of an event that is there.
  rewrite_event :
      (now id : ℕ) (r r' : EventRecord J) (s : EventStore J)
      → lookup id s.events ≡ some r
      → (is_some r.delivery ≡ true → is_some r'.delivery ≡ true)
      → Fresh s
      → Fresh (written now id r' s)
        × ((j : ℕ) → is_begun j s ≡ true → is_begun j (written now id r' s) ≡ true)
  rewrite_event now id r r' s e k f = (
    λ j h. elim (Bool-cases (id == j)) [
      | inl q ↦ cc (subst (λ i. lookup i s.events ≡ some r) ((==_iff id j).0 q) e, f j h)
      | inr q ↦ rw (lookup-put id j (record r' { updated_at = now }) s.events) (rw q (f j h))
    ],
    λ j h. elim (Bool-cases (id == j)) [
      | inl q ↦
          let here = subst (λ i. lookup i s.events ≡ some r) ((==_iff id j).0 q) e in
          rw (lookup-put id j (record r' { updated_at = now }) s.events) (rw q (k (rw here at h)))
      | inr q ↦ rw (lookup-put id j (record r' { updated_at = now }) s.events) (rw q h)
    ],
  )

  Write-begun :
      (s t : EventStore J)
      → Write s t
      → Fresh s
      → Fresh t × ((j : ℕ) → is_begun j s ≡ true → is_begun j t ≡ true)
  Write-begun s t (keeps e) f = rw e (f, λ j h. h)
  Write-begun s t (adds now new g e) f = rw e (
    λ j h. elim (Bool-cases (s.next == j)) [
      | inl q ↦ ground (arith, ==_iff s.next j, h)
      | inr q ↦
          rw (lookup-put s.next j (numbered now new s) s.events) (rw q (f j (omega (arith, h))))
    ],
    λ j h. elim (Bool-cases (s.next == j)) [
      | inl q ↦ cc (rw (f j (ground (arith, ==_iff s.next j, q))) at h)
      | inr q ↦ rw (lookup-put s.next j (numbered now new s) s.events) (rw q h)
    ],
  )
  Write-begun s t (begins now id target r g e) f =
      rw e (rewrite_event now id r (begin_delivery target r) s g (λ h. refl) f)
  Write-begun s t (ends now id d r g e) f =
      rw e (rewrite_event now id r (with_delivery now d r) s g (λ h. with_delivery-has now d r) f)
  Write-begun s t (moves now id status r g out o e) f =
      rw e (rewrite_event now id r (moved_notice now status r) s g (λ h. h) f)

  -- The calls of ingress for the event and the requests that claimed it are at most one, and none before
  -- the delivery is begun.
  abbrev AtMostOne : ℕ → System J → Type 0
  AtMostOne id s =
      Fresh s.store
      × (occurrences id (ids s.claimed) + occurrences id s.calls ≤ one_if (is_begun id s.store))

  -- A step that only writes to the store.
  written-AtMostOne :
      (id : ℕ) (s t : System J)
      → Write s.store t.store
      → t.claimed ≡ s.claimed
      → t.calls ≡ s.calls
      → AtMostOne id s
      → AtMostOne id t
  written-AtMostOne id s t w c k (f, b) =
      let (g, m) = Write-begun s.store t.store w f in
      (
        g,
        rw (c, k)
            (omega (arith, b, one_if-true (is_begun id s.store) (is_begun id t.store) (m id))),
      )

  claim-AtMostOne :
      (id now : ℕ) (w : EventRecord J × String) (others : List (EventRecord J × String))
      (s : System J)
      → AtMostOne id s
      → AtMostOne id (claimed_by now w others s)
  claim-AtMostOne id now (r, target) others s (f, b) = elim (claim-cases now r target s.store) [
    | inl (c, e) ↦ rw e (f, b)
    | inr (c, e, d, g) ↦
        let (f', m) = Write-begun s.store _ (begins now r.id target c e refl) f in
        let put_begun =
          lookup-put r.id id (record (begin_delivery target c) { updated_at = now })
            s.store.events in
        rw g (
          f',
          elim (Bool-cases (r.id == id)) [
            | inl q ↦
                let here : lookup id s.store.events ≡ some c =
                  subst (λ i. lookup i s.store.events ≡ some c) ((==_iff r.id id).0 q) e in
                rw (put_begun) (rw q (omega (arith, rw (here, d) at b)))
            | inr q ↦ rw (put_begun) (rw q (omega (arith, b)))
          ],
        )
  ]

  steer-AtMostOne :
      (id : ℕ) (pre post : List (EventRecord J × String)) (w : EventRecord J × String)
      (s : System J)
      → s.claimed ≡ pre ++ w ∷ post
      → occurrences id (ids s.claimed) + occurrences id s.calls
        ≡ occurrences id (ids (pre ++ post)) + occurrences id (w.0.id ∷ s.calls)
  steer-AtMostOne id pre post w s e = omega (arith, taken id pre post s.claimed w e)

  Step-AtMostOne : (id : ℕ) (s t : System J) → Step s t → AtMostOne id s → AtMostOne id t
  Step-AtMostOne id s t (stores now n e) h = rw e (
      written-AtMostOne id s (stored now n s) (create_if_new-Write now (event_record n) s.store)
        refl refl h)
  Step-AtMostOne id s t (claims now pre post w k e) h =
      rw e (claim-AtMostOne id now w (pre ++ post) s h)
  Step-AtMostOne id s t (steers ingress pre post (r, target) k e) (f, b) =
      rw e (f, omega (arith, b, steer-AtMostOne id pre post (r, target) s k))
  Step-AtMostOne id s t (fails pre post (r, target) k e) (f, b) =
      rw e (f, omega (arith, b, taken id pre post s.claimed (r, target) k))
  Step-AtMostOne id s t (notes now pre post (i, d) k e) h = rw e (
      written-AtMostOne id s (noted now (i, d) (pre ++ post) s) (end-Write now i d s.store) refl
        refl h)
  Step-AtMostOne id s t (moves_notice now i status e) h = rw e (
      written-AtMostOne id s (told now i status s) (update_notice_tx-Write now i status s.store)
        refl refl h)
  Step-AtMostOne id s t (stops_waiting pre post w k e) h = rw e h
  Step-AtMostOne id s t (stops_claimed pre post w k e) (f, b) =
      rw e (f, omega (arith, b, taken id pre post s.claimed w k))
  Step-AtMostOne id s t (stops_ended pre post w k e) h = rw e h

  Steps-AtMostOne : (id : ℕ) (s t : System J) → Steps s t → AtMostOne id s → AtMostOne id t
  Steps-AtMostOne id s _ none_yet h = h
  Steps-AtMostOne id s _ (and_then t u ss x) h =
      Step-AtMostOne id t u x (Steps-AtMostOne id s t ss h)

  -- From an empty log, however the steps of concurrent requests interleave and wherever requests are
  -- cancelled, ingress is called at most once for each event.
  pub delivered_at_most_once : (s : System J) → Steps idle s → (id : ℕ) → occurrences id s.calls ≤ 1
  unfolding lookup
  delivered_at_most_once s ss id =
      let (f, b) = Steps-AtMostOne id idle s ss (λ j h. refl, omega arith) in
      omega (arith, b, one_if-true (is_begun id s.store) true (λ _. refl))
