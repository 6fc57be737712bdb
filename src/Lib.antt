-- ===== src/Lib.antt =====
-- The core of PepperVPN, an Outline client and server manager in TypeScript.
--
-- In the client a user adds access keys to a list of servers, and connects to one of them. With the
-- manager a user installs servers in a cloud. The parts, and the files that model them, with
-- paths below pepper-vpn-client-master/, the one directory of the repository:
--
-- - Errors (src/www/model/errors.ts): the error classes, the codes that stand for the native ones
--   between processes, `fromErrorCode` and `toErrorCode`.
-- - Events (src/www/model/events.ts): the class EventQueue, through which the repository and the
--   servers tell the application what happened. `Events.publish_loop` is its `while` loop.
-- - AccessKey (src/www/app/outline_server_repository/access_key_serialization.ts, with the types
--   of src/www/app/tunnel.ts): static keys and session configurations.
--   Fetch has the request for a dynamic key and the parsers of its answer.
-- - Server (src/www/app/outline_server_repository/server.ts): one server, which connects through a
--   tunnel and disconnects.
-- - Repository (src/www/app/outline_server_repository/index.ts): the persisted list of servers.
--   It validates keys, makes servers, stores the list as JSON at every change and loads it again
--   in its constructor. Keys compares, names and validates access keys.
-- - Settings (src/www/app/settings.ts): the user's settings in the browser's storage.
-- - TunnelStore (src/electron/tunnel_store.ts): the file with the tunnel to connect at login.
-- - Tun2socks (src/electron/go_vpn_tunnel.ts, with src/electron/process.ts): the program that carries
--   the traffic, and its restarts.
-- - RoutingDaemon (src/electron/routing_service.ts): the connection to the service that changes the
--   routing table, as the listeners on its socket and what they do to the promises.
-- - ValueStream (server_manager/infrastructure/value_stream.ts): a value with generators that watch
--   it; in the manager, the state of an installation.
-- - HexEncoding (server_manager/infrastructure/hex_encoding.ts): texts out of hexadecimal numbers.
-- - DigitalOcean (server_manager/web_app/digitalocean_server.ts): the installation of a server on a
--   droplet, which writes its progress into tags. Tags has the tags and the address of the API.
-- - Gcp (server_manager/web_app/gcp_server.ts): the installation of a server on GCP, and its deletion.
-- - GcpAccount (server_manager/web_app/gcp_account.ts): projects and new servers of a GCP account, as
--   the calls of the API that they make.
-- - CloudAccounts (server_manager/web_app/cloud_accounts.ts): the cloud accounts that are connected.
-- - PathApi (server_manager/infrastructure/path_api.ts): requests to the management API of a server.
-- - Shadowbox (server_manager/web_app/shadowbox_server.ts): what the manager knows of a server, by the
--   configuration that it keeps and the requests that it sends. Remote has the server behind the
--   management API, with requests and answers that are under way.
-- - ManualServers (server_manager/web_app/manual_server.ts): the servers added by hand, and their
--   storage.
-- - DataAmounts (server_manager/web_app/data_formatting.ts): amounts of data and their units.
-- - Locations (server_manager/web_app/location_formatting.ts): the options for the location of a server.
-- - App (src/www/app/app.ts): the class App: the cards of the servers, and the handlers of the views,
--   of the clipboard and of intercepted links, over Repository, Server and Settings. The calls of
--   the root element are kept in their order.
-- - ElectronTunnel (src/www/app/electron_outline_tunnel.ts): the tunnel of the desktop client as the
--   window sees it. A method with an `await` is two functions, before it and after it.
-- - MainProcess (src/electron/index.ts): the life cycle of the VPN in the main process, with the tray,
--   the launch at login and intercepted links, over TunnelStore. Tunnels are numbers, and what
--   happens while a handler waits is an argument. Failing has the reasons for which a start fails.
-- - UrlInterceptor (src/www/app/url_interceptor.ts): links that the system hands to the mobile
--   clients, until App listens.
-- - VpnTunnel (src/electron/go_vpn_tunnel.ts): the class GoVpnTunnel, over Tun2socks and
--   RoutingDaemon. How the promises of their `stop` end, if they do, is an argument.
-- - Common: lists, texts, maps and results that the other files share.
--
-- State is passed explicitly: a method takes the record of its object and gives the record that it
-- leaves, with a result where it may throw. A server is known by its id, so the objects that the
-- repository shares with its listeners go by value. Names are the source's in snake case.
--
-- The publishing loop runs on fuel, since listeners may enqueue without end; where the listeners
-- settle, a bound on the pending work is enough fuel. So do the loops that poll an operation of GCP:
-- more fuel than the rounds up to the one that is done is enough. All other loops are
-- structural recursions.
--
-- Parameters: the URL and access key parsers, `decodeURIComponent`, JSON at the stored types, the
-- tunnel, the fetched configuration, the answers of the cloud's API, and what a server does on a
-- request of its management API. Where a theorem needs something of them, it is a hypothesis
-- of that theorem. Not modelled: logging, the rendering of the user interface, the native
-- code behind a tunnel, failures of the browser's storage, listeners that subscribe while events are
-- published.
pub mod Common
pub mod Errors
pub mod Events
pub mod AccessKey
pub mod Server
pub mod Repository
pub mod App
pub mod ElectronTunnel
pub mod MainProcess
pub mod UrlInterceptor
pub mod VpnTunnel
pub mod Tun2socks
pub mod RoutingDaemon
pub mod ValueStream
pub mod HexEncoding
pub mod DigitalOcean
pub mod Settings
pub mod TunnelStore
pub mod CloudAccounts
pub mod PathApi
pub mod Shadowbox
pub mod ManualServers
pub mod DataAmounts
pub mod Locations
pub mod Gcp
pub mod GcpAccount
