-- ===== src/Events/Delivery.antt =====
-- Which listeners the queue of src/www/model/events.ts calls, and that a call returns.
use mathlib.Core.List.{append_assoc, append-nil}
use pepper_vpn_client.Common.{
  Option, ℕ, zero, suc, ◌≡◌, refl, sym, ap, ◌∙◌, none, some, inl, inr, List, [], ◌∷◌, ◌++◌, map,
  Bool-cases, Option-cases, true,
}
use pepper_vpn_client.Events.{
  EventQueue, Client, Run, Status, done, thrown, exhausted, push, find_listeners, call_listeners,
  dispatch, followed_by, finish, publish_loop, publish_queued_events, start_publishing,
}

abbrev pub or_empty {ℓ} : {A : Type ℓ} → Option (List A) → List A
or_empty none = []
or_empty (some ls) = ls

-- the listeners of an event's type, none for a type without a list
abbrev pub subscribers :
    {Ty Event Listener World : Type 0}
    → Client Ty Event Listener World
    → List (Ty × List Listener)
    → Event
    → List Listener
subscribers client table e = or_empty (find_listeners client table (client.type_of e))

-- Each event goes to each of its subscribers once, in the order of subscription.
abbrev pub deliveries :
    {Ty Event Listener World : Type 0}
    → Client Ty Event Listener World
    → List (Ty × List Listener)
    → List Event
    → List (Listener × Event)
deliveries client table [] = []
deliveries client table (e ∷ es) =
    map (λ l. (l, e)) (subscribers client table e) ++ deliveries client table es

module _ {Ty Event Listener World : Type 0} (client : Client Ty Event Listener World) where
  deliveries-append :
      (table : List (Ty × List Listener)) (es fs : List Event)
      → deliveries client table (es ++ fs)
        ≡ deliveries client table es ++ deliveries client table fs
  deliveries-append table [] fs = refl
  deliveries-append table (e ∷ es) fs =
      ap (λ t. map (λ l. (l, e)) (subscribers client table e) ++ t) (deliveries-append table es fs)
      ∙ sym (
          append_assoc (map (λ l. (l, e)) (subscribers client table e)) (deliveries client table es)
            (deliveries client table fs))

  -- A run that keeps the table, and whose calls are the deliveries of what it handled if it returned.
  abbrev pub Delivers : List (Ty × List Listener) → Run Ty Event Listener World → Type 0
  Delivers table r =
      (r.queue.listeners_by_event_type ≡ table)
      × (r.status ≡ done → r.calls ≡ deliveries client table r.handled)

  call_listeners-calls :
      (ls : List Listener) (e : Event) (q : EventQueue Ty Event Listener) (w : World)
      → ((call_listeners client ls e q w).queue.listeners_by_event_type ≡ q.listeners_by_event_type)
        × ((call_listeners client ls e q w).status ≡ done
            → (call_listeners client ls e q w).calls ≡ map (λ l. (l, e)) ls)
  unfolding call_listeners
  call_listeners-calls [] e q w = (refl, λ _. refl)
  call_listeners-calls (l ∷ ls) e q w =
      let r = client.run l e w in
      let ih = call_listeners-calls ls e (push q r.enqueued) r.world in
      elim (Bool-cases r.throws) [
        | inl threw ↦ rw threw (refl, λ h. cc)
        | inr went_on ↦ rw went_on (ih.0, λ h. ap (λ t. (l, e) ∷ t) (ih.1 h))
      ]

  pub dispatch-Delivers :
      (e : Event) (q : EventQueue Ty Event Listener) (w : World)
      → Delivers q.listeners_by_event_type (dispatch client e q w)
  unfolding dispatch
  dispatch-Delivers e q w =
      elim (Option-cases (find_listeners client q.listeners_by_event_type (client.type_of e))) [
        | inl dropped ↦ rw (dropped, dispatch) (refl, λ _. refl)
        | inr (ls, found) ↦
            let h = call_listeners-calls ls e q w in
            rw (found, dispatch) (h.0, λ d. h.1 d ∙ sym (append-nil (map (λ l. (l, e)) ls)))
      ]

  followed_by-Delivers :
      (table : List (Ty × List Listener)) (r s : Run Ty Event Listener World)
      → Delivers table r
      → Delivers r.queue.listeners_by_event_type s
      → Delivers table (followed_by r s)
  unfolding followed_by
  followed_by-Delivers table r s h k = by_status r.status refl
    where
      by_status : (t : Status) → r.status ≡ t → Delivers table (followed_by r s)
      by_status done e =
          let k' : Delivers table s = rw h.0 at k in
          let joined = deliveries-append table r.handled s.handled in
          rw (e, followed_by)
            (
              k'.0,
              λ d.
                  ap (λ t. t ++ s.calls) (h.1 e)
                  ∙ ap (λ t. deliveries client table r.handled ++ t) (k'.1 d)
                  ∙ sym joined,
            )
      by_status thrown e = rw (e, followed_by) (h.0, λ d. cc)
      by_status exhausted e = rw (e, followed_by) (h.0, λ d. cc)

  loop_from-Delivers :
      (fuel : ℕ) (es : List Event) (q : EventQueue Ty Event Listener) (w : World)
      → Delivers q.listeners_by_event_type
          (publish_loop client fuel (record q { queued_events = es }) w)
  unfolding publish_loop
  loop_from-Delivers zero [] q w = (refl, λ _. refl)
  loop_from-Delivers zero (e ∷ es) q w = (refl, λ d. cc)
  loop_from-Delivers (suc fuel) [] q w = (refl, λ _. refl)
  loop_from-Delivers (suc fuel) (e ∷ es) q w =
      let r = dispatch client e (record q { queued_events = es }) w in
      followed_by-Delivers q.listeners_by_event_type r (publish_loop client fuel r.queue r.world)
        (dispatch-Delivers e (record q { queued_events = es }) w)
        (loop_from-Delivers fuel r.queue.queued_events r.queue r.world)

  -- the calls that were made before a listener threw are a first part of the deliveries
  finish-Delivers :
      (table : List (Ty × List Listener)) (r : Run Ty Event Listener World)
      → Delivers table r
      → Delivers table (finish r)
  unfolding finish
  finish-Delivers table r h = by_status r.status refl
    where
      by_status : (t : Status) → r.status ≡ t → Delivers table (finish r)
      by_status done e = rw (e, finish) (h.0, λ _. h.1 e)
      by_status thrown e = rw (e, finish) (h.0, λ d. cc)
      by_status exhausted e = rw (e, finish) (h.0, λ d. cc)

  pub publish_queued_events-Delivers :
      (fuel : ℕ) (q : EventQueue Ty Event Listener) (w : World)
      → Delivers q.listeners_by_event_type (publish_queued_events client fuel q w)
  publish_queued_events-Delivers fuel q w = elim (Bool-cases q.is_publishing) [
    | inl nested ↦
        unfold publish_queued_events in rw (nested, publish_queued_events) (refl, λ _. refl)
    | inr outer ↦
        let go = record q { is_publishing = true } in
        let h =
          finish-Delivers q.listeners_by_event_type (publish_loop client fuel go w)
            (loop_from-Delivers fuel q.queued_events go w) in
        unfold publish_queued_events in rw (outer, publish_queued_events) h
  ]

  -- A `startPublishing` that returns has called, for the events that it took off the queue and in
  -- their order, each subscriber of the event's type once, in the order of subscription, and no other.
  pub start_publishing-calls :
      (fuel : ℕ) (q : EventQueue Ty Event Listener) (w : World)
      → (start_publishing client fuel q w).status ≡ done
      → (start_publishing client fuel q w).calls
        ≡ deliveries client q.listeners_by_event_type (start_publishing client fuel q w).handled
  unfolding start_publishing
  start_publishing-calls fuel q w h =
      (publish_queued_events-Delivers fuel (record q { is_started = true }) w).1 h
