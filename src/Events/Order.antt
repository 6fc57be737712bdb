-- ===== src/Events/Order.antt =====
-- The order in which the queue of src/www/model/events.ts publishes.
use mathlib.Core.List.{append_assoc, append-nil}
use pepper_vpn_client.Common.{
  ℕ, zero, suc, arith, true, ◌≡◌, refl, sym, ap, ◌∙◌, inl, inr, List, [], ◌∷◌, ◌++◌, Bool-cases,
  Option-cases,
}
use pepper_vpn_client.Events.{
  finish, enqueue, start_publishing, publish_queued_events, EventQueue, Client, Run, Status, done,
  thrown, exhausted, push, find_listeners, call_listeners, dispatch, followed_by, publish_loop,
  publish_queued_events, enqueue,
}

-- `r` handled a first part of what stood in `q` and what its listeners added, and left the rest.
abbrev pub IsInOrder :
    {Ty Event Listener World : Type 0}
    → EventQueue Ty Event Listener
    → Run Ty Event Listener World
    → Type 0
IsInOrder q r = r.handled ++ r.queue.queued_events ≡ q.queued_events ++ r.enqueued

pub append_chain {ℓ} :
    {A : Type ℓ} (a b c d e f g : List A)
    → a ++ b ≡ c ++ d
    → e ++ f ≡ b ++ g
    → (a ++ e) ++ f ≡ c ++ (d ++ g)
append_chain a b c d e f g h k =
    append_assoc a e f
    ∙ ap (λ t. a ++ t) k
    ∙ sym (append_assoc a b g)
    ∙ ap (λ t. t ++ g) h
    ∙ append_assoc c d g

module _ {Ty Event Listener World : Type 0} (client : Client Ty Event Listener World) where
  queued-call_listeners :
      (ls : List Listener) (e : Event) (q : EventQueue Ty Event Listener) (w : World)
      → (call_listeners client ls e q w).queue.queued_events
        ≡ q.queued_events ++ (call_listeners client ls e q w).enqueued
  unfolding call_listeners
  queued-call_listeners [] e q w = sym (append-nil _)
  queued-call_listeners (l ∷ ls) e q w =
      let r = client.run l e w in
      let ih = queued-call_listeners ls e (push q r.enqueued) r.world in
      elim (Bool-cases r.throws) [
        | inl threw ↦ rw threw
        | inr went_on ↦ rw went_on (
            ih
            ∙ append_assoc q.queued_events r.enqueued
                (call_listeners client ls e (push q r.enqueued) r.world).enqueued)
      ]

  pub dispatch-order :
      (e : Event) (es : List Event) (q : EventQueue Ty Event Listener) (w : World)
      → IsInOrder
          (record q { queued_events = e ∷ es })
          (dispatch client e (record q { queued_events = es }) w)
  unfolding dispatch
  dispatch-order e es q w =
      elim (Option-cases (find_listeners client q.listeners_by_event_type (client.type_of e))) [
        | inl dropped ↦ rw (dropped, dispatch) (ap (λ t. e ∷ t) (sym (append-nil es)))
        | inr (ls, found) ↦
            rw (found, dispatch)
              (ap (λ t. e ∷ t) (queued-call_listeners ls e (record q { queued_events = es }) w))
      ]

  followed_by-order :
      (q : EventQueue Ty Event Listener) (r s : Run Ty Event Listener World)
      → IsInOrder q r
      → IsInOrder r.queue s
      → IsInOrder q (followed_by r s)
  unfolding followed_by
  followed_by-order q r s h k = by_status r.status refl
    where
      by_status : (t : Status) → r.status ≡ t → IsInOrder q (followed_by r s)
      by_status done e =
          rw (e, followed_by)
            (append_chain r.handled r.queue.queued_events q.queued_events r.enqueued s.handled
              s.queue.queued_events s.enqueued h k)
      by_status thrown e = rw (e, followed_by) h
      by_status exhausted e = rw (e, followed_by) h

  loop_from-order :
      (fuel : ℕ) (es : List Event) (q : EventQueue Ty Event Listener) (w : World)
      → IsInOrder
          (record q { queued_events = es })
          (publish_loop client fuel (record q { queued_events = es }) w)
  unfolding publish_loop
  loop_from-order zero [] q w = refl
  loop_from-order zero (e ∷ es) q w = sym (append-nil (e ∷ es))
  loop_from-order (suc fuel) [] q w = refl
  loop_from-order (suc fuel) (e ∷ es) q w =
      let r = dispatch client e (record q { queued_events = es }) w in
      followed_by-order (record q { queued_events = e ∷ es }) r
        (publish_loop client fuel r.queue r.world) (dispatch-order e es q w)
        (loop_from-order fuel r.queue.queued_events r.queue r.world)

  pub publish_loop-order :
      (fuel : ℕ) (q : EventQueue Ty Event Listener) (w : World)
      → IsInOrder q (publish_loop client fuel q w)
  publish_loop-order fuel q w = loop_from-order fuel q.queued_events q w

  finish-order :
      (q : EventQueue Ty Event Listener) (r : Run Ty Event Listener World)
      → IsInOrder q r
      → IsInOrder q (finish r)
  unfolding finish
  finish-order q r h = by_status r.status refl
    where
      by_status : (t : Status) → r.status ≡ t → IsInOrder q (finish r)
      by_status done e = rw (e, finish) h
      by_status thrown e = rw (e, finish) h
      by_status exhausted e = rw (e, finish) h

  publish_queued_events-order :
      (fuel : ℕ) (q : EventQueue Ty Event Listener) (w : World)
      → IsInOrder q (publish_queued_events client fuel q w)
  publish_queued_events-order fuel q w = elim (Bool-cases q.is_publishing) [
    | inl nested ↦
        unfold publish_queued_events in
        rw (nested, publish_queued_events) (sym (append-nil q.queued_events))
    | inr outer ↦
        let go = record q { is_publishing = true } in
        let h = finish-order q (publish_loop client fuel go w) (publish_loop-order fuel go w) in
        unfold publish_queued_events in rw (outer, publish_queued_events) h
  ]

  -- Whether or not publishing has started or is going on, and however the call ends: the events that
  -- an `enqueue` hands to listeners, followed by those that it leaves in the queue, are the events
  -- that were queued, then the new event, then what listeners enqueued meanwhile, in this order.
  pub enqueue-order :
      (fuel : ℕ) (e : Event) (q : EventQueue Ty Event Listener) (w : World)
      → (enqueue client fuel e q w).handled ++ (enqueue client fuel e q w).queue.queued_events
        ≡ (q.queued_events ++ e ∷ []) ++ (enqueue client fuel e q w).enqueued
  unfolding enqueue
  enqueue-order fuel e q w = ground (
    arith,
    publish_queued_events-order fuel (push q (e ∷ [])) w,
    append-nil (q.queued_events ++ e ∷ []),
  )

  -- However the call ends: the events that a `startPublishing` hands to listeners, followed by those
  -- that it leaves in the queue, are the events that were queued, then what listeners enqueued
  -- meanwhile, in this order.
  pub start_publishing-order :
      (fuel : ℕ) (q : EventQueue Ty Event Listener) (w : World)
      → IsInOrder q (start_publishing client fuel q w)
  unfolding start_publishing
  start_publishing-order fuel q w =
      publish_queued_events-order fuel (record q { is_started = true }) w
