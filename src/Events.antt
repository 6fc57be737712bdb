-- ===== src/Events.antt =====
-- src/www/model/events.ts: the publisher-subscriber queue. Events, their constructors, listeners
-- and what listeners change (`World`) are the parameters of a client. A listener is seen through
-- its `Reply`: the events that it enqueues while it runs, the world that it leaves, and whether it
-- throws. Listeners subscribe before publishing starts, and none subscribes while it runs.
pub mod Order
pub mod Delivery
pub mod Throwing
pub mod Termination
mod Tests
use pepper_vpn_client.Common.{
  ℕ, zero, suc, Bool, true, false, Option, none, some, List, [], ◌∷◌, ◌++◌, if◌then◌else◌,
}

pub record EventQueue (Ty Event Listener : Type 0) : Type 0 where
  pub queued_events : List Event
  pub listeners_by_event_type : List (Ty × List Listener)
  pub is_started : Bool
  pub is_publishing : Bool

abbrev pub new_queue : {Ty Event Listener : Type 0} → EventQueue Ty Event Listener
new_queue = record {
  queued_events = [];
  listeners_by_event_type = [];
  is_started = false;
  is_publishing = false;
}

pub record Reply (Event World : Type 0) : Type 0 where
  pub enqueued : List Event
  pub world : World
  pub throws : Bool

-- How a call ended: it returned, a listener threw out of it, or the fuel ran out.
pub data Status : Type 0 where
  done thrown exhausted : Status

-- What a call did: the state that it left, the events that it took off the queue, the listener
-- calls that it made, and the events that listeners enqueued meanwhile, each in order.
pub record Run (Ty Event Listener World : Type 0) : Type 0 where
  pub queue : EventQueue Ty Event Listener
  pub world : World
  pub handled : List Event
  pub calls : List (Listener × Event)
  pub enqueued : List Event
  pub status : Status

module _ {Ty Event Listener : Type 0} where
  -- `this.queuedEvents.push(event)`; all that `enqueue` does while events are being published
  unfoldable pub push : EventQueue Ty Event Listener → List Event → EventQueue Ty Event Listener
  push q es = record q { queued_events = q.queued_events ++ es }

  unfoldable pub idle : {W : Type 0} → EventQueue Ty Event Listener → W → Run Ty Event Listener W
  idle q w = record { queue = q; world = w; handled = []; calls = []; enqueued = []; status = done }

-- The constructor of an event, the equality of constructors, and what the listeners do.
pub record Client (Ty Event Listener World : Type 0) : Type 0 where
  pub same_type : Ty → Ty → Bool
  pub type_of : Event → Ty
  pub run : Listener → Event → World → Reply Event World

-- `first`, and then, if it returned, `second` from where it ended
unfoldable pub followed_by :
    {Ty Event Listener World : Type 0}
    → Run Ty Event Listener World
    → Run Ty Event Listener World
    → Run Ty Event Listener World
followed_by first second = elim first.status [
  | done ↦ record second {
    handled = first.handled ++ second.handled;
    calls = first.calls ++ second.calls;
    enqueued = first.enqueued ++ second.enqueued;
  }
  | _ ↦ first
]

-- `this.isPublishing = false` stands behind the loop, and is not reached past a listener that throws.
unfoldable pub finish :
    {Ty Event Listener World : Type 0} → Run Ty Event Listener World → Run Ty Event Listener World
finish r = elim r.status [
  | done ↦ record r { queue = record r.queue { is_publishing = false } }
  | _ ↦ r
]

module _ {Ty Event Listener World : Type 0} (client : Client Ty Event Listener World) where
  open client use {same_type, type_of, run}

  unfoldable pub find_listeners : List (Ty × List Listener) → Ty → Option (List Listener)
  find_listeners [] t = none
  find_listeners ((u, ls) ∷ m) t = if same_type u t then some ls else find_listeners m t

  add_listener : List (Ty × List Listener) → Ty → Listener → List (Ty × List Listener)
  add_listener [] t l = (t, l ∷ []) ∷ []
  add_listener ((u, ls) ∷ m) t l =
      if same_type u t then (u, ls ++ l ∷ []) ∷ m else (u, ls) ∷ add_listener m t l

  unfoldable pub subscribe :
      EventQueue Ty Event Listener → Ty → Listener → EventQueue Ty Event Listener
  unfolding add_listener
  subscribe q t l = record q {
    listeners_by_event_type = add_listener q.listeners_by_event_type t l;
  }

  -- the inner `for` loop
  unfoldable pub call_listeners :
      List Listener → Event → EventQueue Ty Event Listener → World → Run Ty Event Listener World
  unfolding idle push
  call_listeners [] e q w = idle q w
  call_listeners (l ∷ ls) e q w =
      let r = run l e w in
      let q' = push q r.enqueued in
      let rest = call_listeners ls e q' r.world in
      if r.throws
      then record {
        queue = q';
        world = r.world;
        handled = [];
        calls = (l, e) ∷ [];
        enqueued = r.enqueued;
        status = thrown;
      }
      else record rest { calls = (l, e) ∷ rest.calls; enqueued = r.enqueued ++ rest.enqueued }

  -- One round of the outer loop, for an event that `shift` has taken off the queue. With no list of
  -- listeners the event is dropped.
  unfoldable pub dispatch :
      Event → EventQueue Ty Event Listener → World → Run Ty Event Listener World
  unfolding find_listeners call_listeners
  dispatch e q w =
      let r : Run Ty Event Listener World =
        elim (find_listeners q.listeners_by_event_type (type_of e)) [
          | none ↦ idle q w
          | some ls ↦ call_listeners ls e q w
        ] in
      record r { handled = e ∷ [] }

  -- the `while` loop of `publishQueuedEvents`
  unfoldable pub publish_loop :
      ℕ → EventQueue Ty Event Listener → World → Run Ty Event Listener World
  unfolding dispatch followed_by
  publish_loop zero q w = elim q.queued_events [
    | [] ↦ idle q w
    | _ ↦ record (idle q w) { status = exhausted }
  ]
  publish_loop (suc fuel) q w = elim q.queued_events [
    | [] ↦ idle q w
    | e ∷ es ↦
        let r = dispatch e (record q { queued_events = es }) w in
        let later = publish_loop fuel r.queue r.world in followed_by r later
  ]

  unfoldable pub publish_queued_events :
      ℕ → EventQueue Ty Event Listener → World → Run Ty Event Listener World
  unfolding idle
  publish_queued_events fuel q w =
      if q.is_publishing
      then idle q w
      else finish (publish_loop fuel (record q { is_publishing = true }) w)

  unfoldable pub enqueue :
      ℕ → Event → EventQueue Ty Event Listener → World → Run Ty Event Listener World
  unfolding push idle
  enqueue fuel e q w =
      let q' = push q (e ∷ []) in
      if q'.is_started then publish_queued_events fuel q' w else idle q' w

  unfoldable pub start_publishing :
      ℕ → EventQueue Ty Event Listener → World → Run Ty Event Listener World
  start_publishing fuel q w = publish_queued_events fuel (record q { is_started = true }) w
