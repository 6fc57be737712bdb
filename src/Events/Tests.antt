-- ===== src/Events/Tests.antt =====
-- Runs of the queue of src/www/model/events.ts, and its theorems at concrete clients.
use pepper_vpn_client.Common.{ℕ, zero, suc, ◌≡◌, ◌≢◌, refl, [], ◌∷◌, ◌++◌, false, true, arith, ◌==◌}
use pepper_vpn_client.Events.{
  EventQueue, new_queue, Reply, Client, done, thrown, exhausted, subscribe, dispatch, finish,
  publish_loop, publish_queued_events, start_publishing, enqueue,
}
use pepper_vpn_client.Events.Delivery.{deliveries, start_publishing-calls}
use pepper_vpn_client.Events.Termination.{Settles, start_publishing_ends}
use pepper_vpn_client.Events.Throwing.{here, then_enqueue, enqueue_thrown_stops}

-- Events are numbers of one type. Listener 0 enqueues the number below, listener 1 throws at 7,
-- and the others do nothing. The world counts the calls.
reply : ℕ → ℕ → ℕ → Reply ℕ ℕ
reply zero zero w = record { enqueued = []; world = suc w; throws = false }
reply zero (suc n) w = record { enqueued = n ∷ []; world = suc w; throws = false }
reply (suc l) n w = record { enqueued = []; world = suc w; throws = n == 7 }

abbrev client : Client ℕ ℕ ℕ ℕ
client = record { same_type = λ a b. a == b; type_of = λ e. 0; run = reply }

abbrev ready : EventQueue ℕ ℕ ℕ
ready = record {
  queued_events = 2 ∷ 5 ∷ [];
  listeners_by_event_type = (0, 0 ∷ 1 ∷ []) ∷ [];
  is_started = false;
  is_publishing = false;
}

runs_in_order :
    (start_publishing client 20 ready 0).handled ≡ 2 ∷ 5 ∷ 1 ∷ 4 ∷ 0 ∷ 3 ∷ 2 ∷ 1 ∷ 0 ∷ []
unfolding start_publishing publish_queued_events finish publish_loop reply
runs_in_order = refl

table_by_subscribing :
    (subscribe client (subscribe client new_queue 0 0) 0 1).listeners_by_event_type
    ≡ ready.listeners_by_event_type
unfolding subscribe
table_by_subscribing = refl

ready_returns : (start_publishing client 20 ready 0).status ≡ done
unfolding start_publishing publish_queued_events finish publish_loop reply
ready_returns = refl

start_publishing-calls_example :
    (start_publishing client 20 ready 0).calls
    ≡ deliveries client ready.listeners_by_event_type (start_publishing client 20 ready 0).handled
start_publishing-calls_example = start_publishing-calls client 20 ready 0 ready_returns

ready-Settles : Settles client suc ready.listeners_by_event_type
unfolding dispatch reply
ready-Settles zero q w same = rw (same, dispatch) (grind arith)
ready-Settles (suc e) q w same = rw (same, dispatch) (grind arith)

start_publishing_ends_example : (start_publishing client 20 ready 0).status ≢ exhausted
start_publishing_ends_example =
    start_publishing_ends client suc 20 ready 0 ready-Settles (omega arith)

abbrev started : EventQueue ℕ ℕ ℕ
started = record ready { queued_events = []; is_started = true }

seven_throws : (enqueue client 20 7 started 0).status ≡ thrown
unfolding enqueue publish_queued_events finish publish_loop reply
seven_throws = refl

enqueue_thrown_stops_example :
    [] ++ (enqueue client 20 3 (enqueue client 20 7 started 0).queue 0).calls ≡ []
enqueue_thrown_stops_example =
    enqueue_thrown_stops client 20 7 started 0 seven_throws
      (enqueue client 20 3 (enqueue client 20 7 started 0).queue 0).queue
      ([] ++ (enqueue client 20 3 (enqueue client 20 7 started 0).queue 0).calls)
      (then_enqueue here 20 3 0)
