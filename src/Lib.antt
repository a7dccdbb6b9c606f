-- ===== src/Lib.antt =====
-- beamd, a tunnel server and its agent: which public hostnames lead to which agent, who may open a
-- session, how sessions and streams end, what is counted, and how the programs are configured.
--
-- The program's parts, and the files that model them:
--   Naming.antt, Naming/Derive.antt    internal/naming: tunnel names, slugs, hostnames and their
--     shapes (naming.go), and names derived from a directory or a git checkout (derive.go).
--   Edge/Hosts.antt                    internal/edge/hostnames.go: the hostnames of one tunnel.
--   Edge/Registry.antt                 internal/edge/edge.go: the route table with register,
--     unregister, dropSession, and the promotion of a session.
--   Edge/Streams.antt                  edge.go: stream leases, watchers, and openRouteStreamForRoute in
--     steps.
--   Edge/Admission.antt                edge.go: the slots of transports and sessions, and the
--     handshake of handleTunnelSession, in one go; Edge/Admission/Steps.antt has its steps, with
--     those of acquirePreauth, releasePreauth and dropSession, and Alone.antt relates the two.
--   Edge/Control.antt                  edge.go: handleControlMsg.
--   Edge/Requests.antt                 edge.go: handler, handleMetrics, the proxy's ErrorHandler.
--   Edge/Framing.antt                  edge.go: stripFramingHeaders.
--   Edge/Traffic.antt                  internal/edge/traffic.go: the byte counters (RecordTraffic,
--     bytesOutBySlug); Edge/Traffic/File.antt is their file (load, Flush), and Edge/Traffic/Lease.antt
--     is countingConn and leasedConn.
--   Auth.antt, Auth/Http.antt          internal/auth: the memory store, Open, and HTTPStore.
--   Certs/Gate.antt                    internal/certs/decisiongate.go: the gate before on-demand
--     certificates.
--   Client.antt                        internal/client/client.go: connectOnce, the order of the
--     transports and the classification of failures.
--   Client/Registrations.antt          client.go: Register, Unregister, the replies that readControl
--     hands on, and the replay after a reconnect.
--   Tunnel/Session.antt                internal/tunnel/session.go: sessionState.
--   Tunnel/Yamux.antt                  internal/tunnel/yamux.go: the streams and the gate of a
--     session; Tunnel/Yamux/Run.antt says what its goroutines do.
--   Tunnel/Quic.antt                   internal/tunnel/quic.go: how connections end, are dialed and
--     accepted; Tunnel/Quic/Keys.antt is the persisted keys.
--   Config.antt                        internal/config/transport.go and window.go.
--   Config/Server.antt, Config/Server/Environment.antt
--                                      internal/config/server.go: Validate, FinalizeRuntime, LoadServer.
--   Config/Accounts.antt               internal/config/accounts.go.
--   Config/Project.antt                internal/config/project.go: DiscoverProject.
--   Cli/Resolve.antt                   cmd/beamd/resolve.go, and what client.go does with it to open a
--     tunnel.
--   Reqlog/Shipper.antt                internal/reqlog/shipper.go: readBatch, drainFile, drain.
--   Reqlog/Sink.antt                   internal/reqlog/file.go: the writer of the log and its count of
--     dropped events; Reqlog/Tail.antt is repairTail.
--   Proto.antt                         internal/proto/proto.go: readLineCapped.
--   Cache.antt                         the eviction that HTTPStore and the gate share.
-- A file under a component's folder holds the theorems that its name says. Tests/ holds concrete
-- runs, and instances of the theorems.
--
-- How the code corresponds. A function keeps its name, in snake case. A Go string is the list of its
-- bytes, a map an association list (the order in which Go ranges over a map is an argument where it
-- matters), a pointer to a session is a number into a heap, and a time is a number of nanoseconds.
-- A lock is not modelled: what runs under a lock is one step. Edge/Registry/Invariant.antt says what
-- the steps of the edge are and in which sequences they run; in Edge/Streams/ and
-- Edge/Admission/ a run is a list of steps of many requests or transports, one for each critical section,
-- channel operation or call that may block, in any order. In Tunnel/ and in Edge/Traffic/Lease.antt a run
-- is a list of events in any order: one for each critical section in Tunnel/Session.antt, and in the
-- others one for each method or callback, except that the opening of a stream is two; closing a yamux session is one
-- event there, with its claim, the close of the raw session and the beginning of finish. unregister is one
-- step of the route table. What a call outside the repository answers
-- (git, the control plane, the authorizer of a name, a dial, a write) is an argument of the operation
-- that asks.
-- Numbers are natural numbers, without bound; the gauges and the settings of an edge are integers, and
-- the byte counters are the 64 bits of an int64. Two definitions run on fuel: the writing of a number in
-- decimal is given one more step than the number, and the walk up the directories one more than the
-- bytes of the first, which is enough where each parent is shorter. A loop that meets its surroundings
-- anew in each turn (the replay of registrations, the shipper) recurs over a list of such turns.
--
-- A visitor's request is routed by the table of Edge/Registry.antt and takes a lease of
-- Edge/Streams.antt; a transport is admitted by Edge/Admission.antt with the slug that Auth.antt
-- resolves, and its messages reach the table through Edge/Control.antt.
--
-- The streams that Edge/Streams.antt leases are closed by the watcher of Edge/Traffic/Lease.antt, which
-- waits for the Done channel of Tunnel/Yamux.antt; that file uses the claims and the
-- registry of Tunnel/Session.antt. Cli/Resolve.antt uses the names of Naming.antt, the accounts and the project.
--
-- Not modelled: the yamux and QUIC libraries and the streams of quic_stream.go, certmagic and DNS,
-- request events and metrics beyond the gauges, the shutdown, the rest of the agent's client, the
-- daemon, the device login, and the flags and prompts of the command line. YAML and JSON are
-- parameters.
pub mod Prelude
pub mod Naming
pub mod Edge
pub mod Cache
pub mod Auth
pub mod Certs
pub mod Tunnel
pub mod Config
pub mod Client
pub mod Cli
pub mod Proto
pub mod Reqlog
pub mod Tests
