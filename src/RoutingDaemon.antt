-- ===== src/RoutingDaemon.antt =====
-- src/electron/routing_service.ts, the class RoutingDaemon, with one call of `start`, as the method
-- `connect` of GoVpnTunnel makes it. What the socket of node emits, and what is parsed of the data it
-- hands over, are events; so are the calls of `start` and `stop`. An error of a socket with no
-- listener, and the result of a write, are not modelled.
pub mod Started
pub mod Resetting
mod Tests
use pepper_vpn_client.Common.{
  ℕ, String, Bool, true, false, Option, none, some, List, [], ◌∷◌, ◌++◌, ◌&&◌, ◌==◌, if◌then◌else◌,
}

pub data RoutingServiceRequest : Type 0 where
  configure_request : String → Bool → RoutingServiceRequest
  reset_request : RoutingServiceRequest

-- The actions of the enum, and any other text.
pub data RoutingServiceAction : Type 0 where
  configure_routing reset_routing status_changed : RoutingServiceAction
  other_action : String → RoutingServiceAction

pub record RoutingServiceResponse : Type 0 where
  pub action : RoutingServiceAction
  pub status_code : ℕ
  pub error_message : Option String
  pub connection_status : ℕ

abbrev pub success : ℕ
success = 0

-- The listeners on the socket: before `start`; `initialErrorHandler`; `cleanup` with the listener for
-- the first message; `cleanup` only, after a first message that was not good; `cleanup` with
-- `dataHandler`; none any more.
pub data Listeners : Type 0 where
  not_started connecting configuring refused configured removed : Listeners

pub data StartError : Type 0 where
  routing_failed : Option String → StartError
  system_configuration : String → StartError

-- the promise of `start`
pub data StartPromise : Type 0 where
  pending fulfilled : StartPromise
  rejected : StartError → StartPromise

pub record RoutingDaemon : Type 0 where
  pub proxy_address : String
  pub is_auto_connect : Bool
  -- whether `this.socket` is set
  pub socket : Bool
  pub stopping : Bool
  -- whether `onceDisconnected` is fulfilled
  pub disconnected : Bool
  -- whether there is a `networkChangeListener`
  pub has_listener : Bool
  pub listeners : Listeners
  pub start_promise : StartPromise
  -- whether `end` or `destroy` was called on the socket
  pub ended : Bool
  -- what was written to the socket, and the calls of `networkChangeListener`
  pub written : List RoutingServiceRequest
  pub network_changes : List ℕ

abbrev pub new_routing_daemon : String → Bool → RoutingDaemon
new_routing_daemon address auto = record {
  proxy_address = address;
  is_auto_connect = auto;
  socket = false;
  stopping = false;
  disconnected = false;
  has_listener = false;
  listeners = not_started;
  start_promise = pending;
  ended = false;
  written = [];
  network_changes = [];
}

-- `start`, up to the connection
unfoldable pub start : RoutingDaemon → RoutingDaemon
start d = elim d.listeners [
  | not_started ↦ record d { socket = true; listeners = connecting }
  | _ ↦ d
]

-- The socket is connected.
unfoldable pub connected : RoutingDaemon → RoutingDaemon
connected d = elim d.listeners [
  | connecting ↦ record d {
    listeners = configuring;
    written = d.written ++ configure_request d.proxy_address d.is_auto_connect ∷ [];
  }
  | _ ↦ d
]

unfoldable pub cleanup : RoutingDaemon → RoutingDaemon
cleanup d = record d { listeners = removed; socket = false; disconnected = true }

-- `initialErrorHandler`
unfoldable pub initial_error_handler : RoutingDaemon → RoutingDaemon
initial_error_handler d = record d {
  socket = false;
  listeners = removed;
  start_promise = rejected (system_configuration "routing daemon is not running");
}

-- The socket emits an error.
unfoldable pub socket_error : RoutingDaemon → RoutingDaemon
unfolding cleanup initial_error_handler
socket_error d = elim d.listeners [
  | connecting ↦ initial_error_handler d
  | configuring ↦ cleanup d
  | refused ↦ cleanup d
  | configured ↦ cleanup d
  | _ ↦ d
]

-- The socket is closed.
unfoldable pub socket_closed : RoutingDaemon → RoutingDaemon
unfolding cleanup
socket_closed d = elim d.listeners [
  | configuring ↦ cleanup d
  | refused ↦ cleanup d
  | configured ↦ cleanup d
  | _ ↦ d
]

abbrev pub is_configured : RoutingServiceResponse → Bool
is_configured message = elim message.action [
  | configure_routing ↦ message.status_code == success
  | _ ↦ false
]

abbrev pub refuse : Option String → RoutingDaemon → RoutingDaemon
refuse reason d = record d {
  start_promise = rejected (routing_failed reason);
  ended = true;
  listeners = refused;
}

-- The listener for the first message.
unfoldable pub first_data : Option RoutingServiceResponse → RoutingDaemon → RoutingDaemon
unfolding cleanup
first_data none d = refuse (some "empty routing service response") d
first_data (some message) d =
    if is_configured message
    then if d.stopping
      then record (cleanup d) {
        ended = true;
        start_promise =
            rejected (system_configuration "routing daemon service stopped before started");
      }
      else record d { listeners = configured; start_promise = fulfilled }
    else refuse message.error_message d

unfoldable pub data_handler : Option RoutingServiceResponse → RoutingDaemon → RoutingDaemon
data_handler none d = d
data_handler (some message) d = elim message.action [
  | status_changed ↦
      if d.has_listener
      then record d { network_changes = d.network_changes ++ message.connection_status ∷ [] }
      else d
  | reset_routing ↦ if d.socket then record d { ended = true } else d
  | _ ↦ d
]

-- The socket hands over data, of which `parseRoutingServiceResponse` gives `message`.
unfoldable pub receive : Option RoutingServiceResponse → RoutingDaemon → RoutingDaemon
unfolding first_data data_handler
receive message d = elim d.listeners [
  | configuring ↦ first_data message d
  | configured ↦ data_handler message d
  | _ ↦ d
]

unfoldable pub write_reset : RoutingDaemon → RoutingDaemon
write_reset d = record d { written = d.written ++ reset_request ∷ [] }

unfoldable pub stop : RoutingDaemon → RoutingDaemon
unfolding write_reset
stop d =
    if d.socket
    then if d.stopping then d else write_reset (record d { stopping = true })
    else record d { disconnected = true }

unfoldable pub set_on_network_change : Bool → RoutingDaemon → RoutingDaemon
set_on_network_change listens d = record d { has_listener = listens }

pub data Event : Type 0 where
  starts connects fails closes stops : Event
  receives : Option RoutingServiceResponse → Event
  listens : Bool → Event

unfoldable pub event : Event → RoutingDaemon → RoutingDaemon
unfolding start connected socket_error socket_closed stop receive set_on_network_change
event starts d = start d
event connects d = connected d
event fails d = socket_error d
event closes d = socket_closed d
event stops d = stop d
event (receives message) d = receive message d
event (listens b) d = set_on_network_change b d

unfoldable pub run : List Event → RoutingDaemon → RoutingDaemon
unfolding event
run [] d = d
run (e ∷ es) d = run es (event e d)
