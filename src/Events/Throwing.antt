-- ===== src/Events/Throwing.antt =====
-- What the queue of src/www/model/events.ts does once a listener has thrown.
use pepper_vpn_client.Common.{
  ℕ, zero, suc, ◌≡◌, refl, ◌∙◌, inl, inr, List, [], ◌∷◌, ◌++◌, arith, Bool-cases, Option-cases,
  true,
}
use pepper_vpn_client.Events.{
  EventQueue, Client, Run, thrown, push, idle, find_listeners, subscribe, call_listeners, dispatch,
  followed_by, finish, publish_loop, publish_queued_events, start_publishing, enqueue,
}

module _ {Ty Event Listener World : Type 0} (client : Client Ty Event Listener World) where
  -- Any later calls of the queue, each from the world that it finds, and the listener calls that
  -- they make.
  pub data Later (q : EventQueue Ty Event Listener)
      : EventQueue Ty Event Listener → List (Listener × Event) → Type 0 where
    here : Later q q []
    then_enqueue :
        {t : EventQueue Ty Event Listener} {calls : List (Listener × Event)}
        → Later q t calls
        → (fuel : ℕ) (e : Event) (w : World)
        → Later q (enqueue client fuel e t w).queue (calls ++ (enqueue client fuel e t w).calls)
    then_start :
        {t : EventQueue Ty Event Listener} {calls : List (Listener × Event)}
        → Later q t calls
        → (fuel : ℕ) (w : World)
        → Later q
            (start_publishing client fuel t w).queue
            (calls ++ (start_publishing client fuel t w).calls)
    then_subscribe :
        {t : EventQueue Ty Event Listener} {calls : List (Listener × Event)}
        → Later q t calls
        → (type : Ty) (l : Listener) → Later q (subscribe client t type l) calls

  Later-stuck :
      {q t : EventQueue Ty Event Listener} {calls : List (Listener × Event)}
      → Later q t calls
      → q.is_publishing ≡ true
      → (t.is_publishing ≡ true) × (calls ≡ [])
  unfolding enqueue start_publishing publish_queued_events subscribe
  Later-stuck here h = (h, refl)
  Later-stuck (then_enqueue {t} later fuel e w) h =
      let (p, c) = Later-stuck later h in ground (arith)
  Later-stuck (then_start {t} later fuel w) h = let (p, c) = Later-stuck later h in ground (arith)
  Later-stuck (then_subscribe later type l) h = Later-stuck later h

  finish_thrown : (r : Run Ty Event Listener World) → (finish r).status ≡ thrown → finish r ≡ r
  unfolding finish
  finish_thrown r h = ground arith

  publishing-call_listeners :
      (ls : List Listener) (e : Event) (q : EventQueue Ty Event Listener) (w : World)
      → (call_listeners client ls e q w).queue.is_publishing ≡ q.is_publishing
  unfolding call_listeners
  publishing-call_listeners [] e q w = refl
  publishing-call_listeners (l ∷ ls) e q w =
      let r = client.run l e w in
      let ih = publishing-call_listeners ls e (push q r.enqueued) r.world in
      elim (Bool-cases r.throws) [ inl threw ↦ rw threw | inr went_on ↦ rw went_on ih ]

  publishing-dispatch :
      (e : Event) (q : EventQueue Ty Event Listener) (w : World)
      → (dispatch client e q w).queue.is_publishing ≡ q.is_publishing
  unfolding dispatch
  publishing-dispatch e q w =
      elim (Option-cases (find_listeners client q.listeners_by_event_type (client.type_of e))) [
        | inl dropped ↦ rw (dropped, dispatch)
        | inr (ls, found) ↦ rw (found, dispatch) (publishing-call_listeners ls e q w)
      ]

  publishing-followed_by :
      (r s : Run Ty Event Listener World)
      → s.queue.is_publishing ≡ r.queue.is_publishing
      → (followed_by r s).queue.is_publishing ≡ r.queue.is_publishing
  unfolding followed_by
  publishing-followed_by r s h = ground arith

  publishing-loop :
      (fuel : ℕ) (es : List Event) (q : EventQueue Ty Event Listener) (w : World)
      → (publish_loop client fuel (record q { queued_events = es }) w).queue.is_publishing
        ≡ q.is_publishing
  unfolding publish_loop
  publishing-loop zero [] q w = refl
  publishing-loop zero (e ∷ es) q w = refl
  publishing-loop (suc fuel) [] q w = refl
  publishing-loop (suc fuel) (e ∷ es) q w =
      let r = dispatch client e (record q { queued_events = es }) w in
      let h = publishing-dispatch e (record q { queued_events = es }) w in
      let ih = publishing-loop fuel r.queue.queued_events r.queue r.world in
      publishing-followed_by r (publish_loop client fuel r.queue r.world) ih ∙ h

  -- A listener that throws out of `enqueue` stops the queue for good: whatever is enqueued,
  -- subscribed or started later, no listener is ever called again.
  pub enqueue_thrown_stops :
      (fuel : ℕ) (e : Event) (q : EventQueue Ty Event Listener) (w : World)
      → (enqueue client fuel e q w).status ≡ thrown
      → (t : EventQueue Ty Event Listener) (calls : List (Listener × Event))
      → Later (enqueue client fuel e q w).queue t calls
      → calls ≡ []
  enqueue_thrown_stops fuel e q w h t calls later = (Later-stuck later (stuck h)).1
    where
      go : EventQueue Ty Event Listener
      go = record (push q (e ∷ [])) { is_publishing = true }

      stuck :
          (enqueue client fuel e q w).status ≡ thrown
          → (enqueue client fuel e q w).queue.is_publishing ≡ true
      stuck h =
          unfold enqueue publish_queued_events idle in
          ground (
            arith,
            finish_thrown (publish_loop client fuel go w),
            publishing-loop fuel go.queued_events go w,
          )
