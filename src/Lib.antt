-- ===== src/Lib.antt =====
-- Verification library of plexd, the node agent of a mesh network (Go).
--
-- The program. A control plane sends the agent signed events and answers its requests for the desired
-- state. internal/api verifies each event (signature, time window, nonce) before it is dispatched.
-- internal/reconcile fetches the state, computes a diff against the snapshot of the last state that
-- was applied, and calls handlers: those of internal/wireguard for the peers, of internal/policy for the
-- packet filter, of internal/bridge for the relay and the tunnels of a bridge node. internal/nat finds
-- the public endpoint with STUN, internal/nodeapi serves the state to local clients, and internal/tunnel
-- keeps the sessions that forward connections through the mesh. internal/actions runs hooks that
-- internal/integrity has verified, and internal/logfwd, auditfwd and metrics send what they collect.
--
-- The files, and the code that they model (paths from the repository's root):
--   Base             lists, maps, integers and Boolean tests that all parts share
--   Api/Envelope     internal/api/envelope.go: SignedEnvelope, ParseEnvelope
--   Api/Types        internal/api/types.go: the wire types that the other parts use
--   Api/Verifier     internal/api/verifier.go: NonceStore (Add, cleanup), Ed25519Verifier (SetKeys, Verify)
--   Api/Errors, Reconnect
--                    internal/api/errors.go, reconnect.go: ClassifyError, ReconnectEngine
--   Api/Sse, Stream, Dispatcher
--                    internal/api/sse.go, dispatcher.go: SSEParser, SSEStream, EventDispatcher
--   Reconcile/Diff   internal/reconcile/diff.go: ComputeDiff and its helpers
--   Reconcile/Drift, Snapshot, Reconciler
--                    internal/reconcile/drift.go, snapshot.go, reconciler.go: BuildDriftReport, the
--                    snapshot, runCycle, invokeHandlers, safeInvoke, TriggerReconcile, the wake-ups of Run
--   Policy/Firewall, Engine, Settings, Enforcer
--                    internal/policy/firewall.go, engine.go, config.go, enforcer.go: FilterPeers,
--                    BuildFirewallRules, the configuration, the Enforcer over any FirewallController
--   Policy/Nftables  internal/policy/nftables_linux.go: buildRuleExprs and the operations on chains
--   Bridge/Relay     internal/bridge/relay.go, relay_handler.go: Relay, RelaySession, the handlers
--   Bridge/Controllers
--                    internal/bridge/route.go, access_controller.go, vpn_controller.go: the calls
--   Bridge/SiteToSite
--                    internal/bridge/site_to_site.go, site_to_site_handler.go: SiteToSiteManager
--   Bridge/Config, Manager, UserAccess, Ingress
--                    internal/bridge/config.go, manager.go, handler.go, user_access.go,
--                    user_access_handler.go, ingress.go, ingress_handler.go, ingress_controller.go
--   Bridge/Resync    the loops that the handlers of rules and of tunnels share
--   NatTraversal/Stun, Discovery
--                    internal/nat/stun.go, discoverer.go, reporter.go: messages on bytes, Discover
--   WireGuard/Manager
--                    internal/wireguard/index.go, controller.go, manager.go, handler.go
--   NodeApi/Cache    internal/nodeapi/cache.go: StateCache and its files
--   Tunnel/Sessions  internal/tunnel/manager.go: SessionManager with its timers
--   Actions          internal/actions/executor.go, handler.go, config.go: Executor, runHook, limitedWriter
--   Integrity        internal/integrity: Store, Verifier, VerifyFile
--   Forwarding       internal/logfwd/forwarder.go and its copies in internal/auditfwd and internal/metrics
-- A module is named for a part; the modules under it are named for what they prove, and those called
-- Tests hold runs and instances at concrete inputs.
--
-- How the code is read. Numbers are natural numbers, or the integers of Base/Int where the code's type
-- has a sign and the value comes from outside; a time is a number of nanoseconds with 0 for the zero
-- time, and each reading of the clock is an argument. A nil slice and an empty one are the same list. A
-- Go map is an association list without repeated keys, and the order in which the code ranges over it is
-- the list's order. An operation is a function from its arguments and the state to the new state and an
-- error; log lines are left out, and the calls run one after another, as the code's locks make them.
-- Where objects are shared and changed (the sessions of the relay) they have numbers. Signatures, JSON,
-- base64, package net and the system's calls are arguments: functions where the code needs only their
-- results, or an environment that decides from the calls before whether the next one fails. A slice
-- expression that can be out of range gives an outcome of its own, since it panics.
--
-- Fuel. The loop over STUN attributes runs on fuel: one more than the bytes of the message, and each
-- round takes four bytes at least. So does the loop that sends batches: an entry of the buffer for each
-- round, and each round sends one at least, with a batch size that is not zero (with zero the code would
-- not end its loop). All other loops are by recursion on a list.
--
-- Not modelled: HTTP requests, what the processes of hooks do and what built-in actions do, the SSH
-- server, the netlink controllers other than the nftables one, Kubernetes, packaging, the sources of
-- metrics and logs, registration, the server of the node API, and the command line. They are input and
-- output around the parts above, or parts that do not depend on them. Goroutines are modelled where
-- Actions/Running says so, as steps that follow each other; elsewhere the calls of one component do not
-- overlap. A timer callback that runs late is not modelled.
pub mod Base
pub mod Actions
pub mod Api
pub mod Reconcile
pub mod Policy
pub mod Bridge
pub mod NatTraversal
pub mod WireGuard
pub mod Forwarding
pub mod Integrity
pub mod NodeApi
pub mod Tunnel
