-- ===== src/Events/Termination.antt =====
-- The loop of src/www/model/events.ts ends when listeners stop enqueuing.
use pepper_vpn_client.Common.{
  ℕ, zero, suc, ◌+◌, ◌<◌, ◌≡◌, ◌≢◌, refl, inl, inr, List, [], ◌∷◌, ◌++◌, arith, Bool-cases,
  Option-cases, true,
}
use pepper_vpn_client.Events.{
  EventQueue, Client, Run, exhausted, push, idle, find_listeners, call_listeners, dispatch,
  followed_by, finish, publish_loop, publish_queued_events, start_publishing,
}
use pepper_vpn_client.Events.Order.{dispatch-order}
use pepper_vpn_client.Events.Delivery.{dispatch-Delivers}

abbrev pub total : {Event : Type 0} → (Event → ℕ) → List Event → ℕ
total weight [] = 0
total weight (e ∷ es) = weight e + total weight es

total-append :
    {Event : Type 0} (weight : Event → ℕ) (es fs : List Event)
    → total weight (es ++ fs) ≡ total weight es + total weight fs
total-append weight [] fs = omega arith
total-append weight (e ∷ es) fs = omega (arith, total-append weight es fs)

module _ {Ty Event Listener World : Type 0} (client : Client Ty Event Listener World) where
  -- Publishing an event to the listeners of `table` enqueues less than it took off the queue.
  abbrev pub Settles : (Event → ℕ) → List (Ty × List Listener) → Type 0
  Settles weight table =
      (e : Event) (q : EventQueue Ty Event Listener) (w : World)
      → q.listeners_by_event_type ≡ table
      → total weight (dispatch client e q w).enqueued < weight e

  queued-dispatch :
      (e : Event) (es : List Event) (q : EventQueue Ty Event Listener) (w : World)
      → (dispatch client e (record q { queued_events = es }) w).queue.queued_events
        ≡ es ++ (dispatch client e (record q { queued_events = es }) w).enqueued
  queued-dispatch e es q w = cons_injective (dispatch_whole (dispatch-order client e es q w))
    where
      r : Run Ty Event Listener World
      r = dispatch client e (record q { queued_events = es }) w

      dispatch_whole :
          r.handled ++ r.queue.queued_events ≡ (e ∷ es) ++ r.enqueued
          → e ∷ r.queue.queued_events ≡ e ∷ (es ++ r.enqueued)
      dispatch_whole h = unfold dispatch in h

      cons_injective :
          e ∷ r.queue.queued_events ≡ e ∷ (es ++ r.enqueued)
          → r.queue.queued_events ≡ es ++ r.enqueued
      cons_injective h = cc

  status-call_listeners :
      (ls : List Listener) (e : Event) (q : EventQueue Ty Event Listener) (w : World)
      → (call_listeners client ls e q w).status ≢ exhausted
  unfolding call_listeners
  status-call_listeners [] e q w = λ h. cc
  status-call_listeners (l ∷ ls) e q w =
      let r = client.run l e w in
      let ih = status-call_listeners ls e (push q r.enqueued) r.world in
      elim (Bool-cases r.throws) [ inl threw ↦ rw threw (λ h. cc) | inr went_on ↦ rw went_on ih ]

  status-dispatch :
      (e : Event) (q : EventQueue Ty Event Listener) (w : World)
      → (dispatch client e q w).status ≢ exhausted
  unfolding dispatch
  status-dispatch e q w =
      elim (Option-cases (find_listeners client q.listeners_by_event_type (client.type_of e))) [
        | inl dropped ↦ rw (dropped, dispatch) (λ h. cc)
        | inr (ls, found) ↦ rw (found, dispatch) (status-call_listeners ls e q w)
      ]

  followed_by-ne-exhausted :
      (r s : Run Ty Event Listener World)
      → r.status ≢ exhausted
      → s.status ≢ exhausted
      → (followed_by r s).status ≢ exhausted
  unfolding followed_by
  followed_by-ne-exhausted r s h k = ground arith

  loop_ends :
      (weight : Event → ℕ) (fuel : ℕ) (es : List Event) (q : EventQueue Ty Event Listener)
      (w : World)
      → Settles weight q.listeners_by_event_type
      → total weight es < fuel
      → (publish_loop client fuel (record q { queued_events = es }) w).status ≢ exhausted
  unfolding publish_loop
  loop_ends weight zero es q w settles enough = elim enough [ ]
  loop_ends weight (suc fuel) [] q w settles enough = λ h. unfold idle in cc
  loop_ends weight (suc fuel) (e ∷ es) q w settles enough =
      let q' = record q { queued_events = es } in
      let r = dispatch client e q' w in
      let same : r.queue.listeners_by_event_type ≡ q.listeners_by_event_type =
        (dispatch-Delivers client e q' w).0 in
      followed_by-ne-exhausted r (publish_loop client fuel r.queue r.world) (status-dispatch e q' w)
        (loop_ends weight fuel r.queue.queued_events r.queue r.world (rw same settles) (
          rw (queued-dispatch e es q w)
            (omega (arith, settles e q' w refl, total-append weight es r.enqueued))))

  finish-ne-exhausted :
      (r : Run Ty Event Listener World) → r.status ≢ exhausted → (finish r).status ≢ exhausted
  unfolding finish
  finish-ne-exhausted r h = ground arith

  -- If publishing an event always enqueues less than it took off, by some weight, then any call of
  -- `startPublishing` returns or throws: fuel above the weight of the queue is never used up.
  pub start_publishing_ends :
      (weight : Event → ℕ) (fuel : ℕ) (q : EventQueue Ty Event Listener) (w : World)
      → Settles weight q.listeners_by_event_type
      → total weight q.queued_events < fuel
      → (start_publishing client fuel q w).status ≢ exhausted
  unfolding start_publishing
  start_publishing_ends weight fuel q w settles enough =
      let go = record q { is_started = true; is_publishing = true } in
      let h =
        finish-ne-exhausted (publish_loop client fuel go w)
          (loop_ends weight fuel q.queued_events go w settles enough) in
      elim (Bool-cases q.is_publishing) [
        | inl nested ↦
            unfold publish_queued_events idle in rw (nested, publish_queued_events) (λ e. cc)
        | inr outer ↦ unfold publish_queued_events in rw (outer, publish_queued_events) h
      ]
