-- ===== src/Lib.antt =====
-- FerrumProxy: the TypeScript of the share client (FerrumClient) and of the web GUI's server
-- (FerrumGUI), as definitions that run, and the theorems that make them correct.
--
-- The share client publishes a local service, either by a relay (relayShareClient.ts) or itself
-- (sharedServiceManager.ts), and has a command line (clientCli.ts). The GUI's server keeps a
-- registry of proxies (services.ts), guards and authenticates the requests on it (index.ts,
-- authManager.ts), runs the proxies as processes and restarts them (processManager.ts,
-- index.ts), and adds up the connections that they report (ipAnalytics.ts).
--
-- Files and code, with paths from the repository's root:
--   Base: what all share: Boolean tests, lists and texts over the native numbers, a JavaScript
--   Map as a list of entries (get, put and delete are its get, set and delete), buffers, decimal
--   texts, and the pieces of regular expressions.
--   Relay: FerrumClient/src/relayShareClient.ts. Relay/Socket has readExact and
--   readUntilCloseOrLine as functions of the chunks that a socket delivers, where what readExact
--   puts back is lost, as the socket flows on with no listener, Relay/Frame has encodeUdpFrame
--   and readUdpFrame. Relay/Client is the class: its state, a loop for each call of
--   runTcpTunnelLoop and runUdpTunnelLoop with the place where it waits, and one step for each
--   event. Relay/Commands has the options, commands and answers.
--   Services: FerrumGUI/src/services.ts, the memory and the file of the registry, which a write
--   that fails leaves in doubt; `load` is left out.
--   Auth: FerrumGUI/src/authManager.ts; Auth/Login the login, logout, setup and password routes
--   of FerrumGUI/src/index.ts, which call the registry; Auth/Access both middlewares.
--   Guard: FerrumGUI/src/index.ts, securityGuard and its token buckets. Its verdicts are those
--   of Auth.
--   Restart: FerrumGUI/src/index.ts, the listener of exits that restarts a proxy.
--   ManagerApi: FerrumGUI/src/index.ts, the Manager API's port and token of an instance.
--   Gui: FerrumGUI/src/index.ts, the routes that start, stop, restart and delete an instance,
--   the listener of exits with its timer, and the stop of all before an update of the GUI, on
--   one state of Services, Processes, Restart and the watched files; Gui/Init is init, from the
--   loaded registry on. A handler runs as a whole, but for the wait in processManager.restart
--   and the parts of an update.
--   Certificates: FerrumGUI/src/index.ts, ensureLetsEncryptCertificate, and in
--   Certificates/Firewall prepareHttp01Firewall and its cleanup, over a trace of the commands
--   and what they answer.
--   IpBlock: FerrumGUI/src/ipBlockConfig.ts, validateIpBlockConfig over what can stand in each
--   place of a request's body.
--   Processes: FerrumGUI/src/processManager.ts. What spawn does is an argument of start: it
--   throws, or makes a child with a process id or without. A chunk of output is decoded by
--   itself, by the platform's toString, which is a parameter. The exit event is what Restart
--   listens to.
--   IpAnalytics: FerrumGUI/src/ipAnalytics.ts.
--   Systemd: FerrumGUI/src/systemdUpdate.ts, the plan of a restart after an update; the delay
--   that systemdDurationMs reads is an argument.
--   Share: FerrumClient/src/sharedServiceManager.ts: Share/Manager the state, the log and the
--   bandwidth window, Share/ProxyHeader the PROXY protocol header, Share/Handlers one function
--   for each event of a socket or timer, Share/Lifecycle start and stop, stop as two parts with
--   the wait for the servers' close between them, and their runs in any order.
--   ClientCli: FerrumClient/src/clientCli.ts, parseArgs and validateOptions.
--   Tests: runs at concrete inputs.
--
-- A handler is a function from the state before it to the state after it and its result; an
-- exception is a value. The clock's time is an argument of each call, in milliseconds. Random
-- tokens, process ids and the answers of listen and bind are arguments. UTF-8, toString of a
-- buffer, toLowerCase, Number, URL and net.isIP are parameters, with what is used of them as
-- named hypotheses. The code's tokens are floating-point numbers; here they are counted exactly,
-- without the rounding, in parts of 1/60000, in which the refill of each policy is a whole
-- number.
--
-- Only `decimal` runs on fuel: a number has at most as many digits as its successor says, which
-- is the fuel given, and Base/Decimal reads back what it writes. The searches for an exit code
-- and for a port (Base/Searches) take the number of candidates that are left. Every other loop
-- is recursion on its list.
--
-- Not modelled: the proxy itself (src/*.rs), the Geyser extension (FerrumGeyser), the React and
-- desktop user interfaces, HTTP transport, file and process input and output, YAML and JSON
-- reading, downloads and updates of the binaries.
pub mod Base
pub mod Relay
pub mod Services
pub mod Auth
pub mod Guard
pub mod Gui
pub mod Share
pub mod Processes
pub mod ClientCli
pub mod Restart
pub mod IpAnalytics
pub mod Systemd
pub mod ManagerApi
pub mod Certificates
pub mod IpBlock
mod Tests
