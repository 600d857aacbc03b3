-- ===== src/Lib.antt =====
-- A small panel for proxy nodes and the agent that serves one node.
--
-- tiny-xboard (tiny-xboard/) is the panel: it keeps nodes, users and traffic counters in memory and
-- in four JSON documents, and answers the agents' requests for users and configuration and takes
-- their traffic. The agent (cmd/mini-sb-agent/, panelapi/, counter/) counts and limits the traffic of
-- the users it got from panels.
--
-- Base holds what all parts share: tests and conditionals, lists, results, integers with Go's int64
-- arithmetic (Base/Int), Go strings with Atoi, Itoa, ToLower and TrimSpace (Base/Text) and with Split,
-- Fields, ReplaceAll and ParseUint (Base/Words), maps as association lists (Base/Map) and sorting by a
-- key (Base/Sort).
--
-- TinyXboard models tiny-xboard/:
--   Schema, NodeType, Validate  the structs, node types and validators of store.go
--   Persist                     persist.go: one document with its backup and temporary file; Faults
--                               says which system calls of a write fail, Persist/Crash cuts a write
--                               off between two of them
--   Reality                     reality.go: ensureRealityKeypair
--   Store                       the operations of store.go on World, the store and its directory:
--                               State (Store), Save (SaveNode, SaveUsers, SaveTraffic,
--                               flushTrafficIfDirty), LoadNode, LoadUsers (loadUsers, RefreshUsers),
--                               LoadTraffic (loadTraffic, NewStore), Users (SetUsers, AddUser,
--                               DeleteUser, EnabledUsers, Accumulate), Nodes (lookups, validToken)
--   Auth                        auth.go: authenticate, matchNodeType
--   Api                         api.go: handleUser, handleConfig, handlePush,
--                               NodeConfigResponse
--   Main                        main.go: run, serve and the flusher, whose flushes requests come
--                               between, for given requests and ways in which the server ends
-- The operations have the names of the functions, in snake case. A state-changing function returns
-- the new world with its result, errors included. An Env carries what an operation meets outside:
-- codecs, cryptography, faults, clock, the modification time of users.json and the random token.
--
-- Counter/RateLimit models the token bucket of counter/ratelimit.go: Allow, Wait, SetRate, Close.
-- Tokens are integers, in billionths of a byte, and times are in nanoseconds. The source computes them
-- in float64, which rounds: how many tokens a refill gives can differ by the rounding.
--
-- Counter/Limited models the connection wrappers of that file, over a connection and limiters that are
-- parameters: Complete follows Write, and Buffer WriteBuffer.
--
-- Counter/Traffic models counter/counter.go: the storages of the users of one inbound on a heap, into
-- which the open connections keep pointers. Ledger is the abstract view, an account by user; Run
-- takes operations on accounts in any order; Connections has the connections with the pointers they
-- keep, books that describe them without pointers, and pushes between what they do; Push and Orphan
-- follow a push of accounts and a removed user.
--
-- PanelApi models panelapi/:
--   (itself), Sync   multi.go and sync.go: MultiPanel, Syncer with its three functions as the record
--                    Callbacks; what connections do during a push is a step between the snapshot
--                    and the commit
--   Client           client.go and local.go: the users as they are read, matchesInbound, PushTraffic
--   NodeConfig       node_config.go: StringInt, decodeNodeConfig, ProbeNodeConfig
--   Fetch            client.go and node_config.go: NewClient, endpoint, FetchUsers, FetchNodeConfig
--
-- Uplink and Downlink join both programs: a push from PushTraffic to handlePush, and the users from
-- handleUser to FetchUsers.
--
-- Agent models cmd/mini-sb-agent/:
--   Hook             main.go: the traffic hook, with the counters of Counter/Traffic by inbound;
--                    Hook/Exact joins it with Sync and the counters
--   Users            user_manager.go: ApplyBox (Apply), the lookups and the limiters of users, which
--                    are limiters of Counter/RateLimit on a heap
--   Update           main.go: what a new list of users does to the manager and the hook
--   Config           xboard_config.go: generateXboardConfig up to the inbounds; Config/Panel joins it
--                    with the answer of TinyXboard/Api, Config/Cert has ensureSelfSignedCert on the
--                    files of a disk, and Config/Generate the command xboard-generate-config
--   Options          main.go: the tuning of the options, the choice of the panel, the stats API
--   Debug            runtime_debug.go: the samples of /proc and the cgroup; Debug/Csv has the file
--                    that they are written to
-- A panel's answers, the inbounds of sing-box, json.Unmarshal, the generation of a certificate and the
-- contents of the files that are read are parameters there.
--
-- Bounds: users are limited to 1000 and documents to 16 MiB, as in the source. The loop of Wait takes
-- one clock reading for each round from a list; one for every burst of the bytes is enough. The loop
-- of RateLimitedConn.Write has a round for each byte, of which each round sends at least one, and so has
-- that of WriteBuffer. Maps stand for Go maps in the order that one iteration meets.
--
-- Not modelled: the JSON codecs, base64, X25519, X.509 and the HTTP exchanges (parameters), locks and
-- sockets, the parsing of flags, the registration of the third-party sing-box, the constant parts of its
-- document, the start of the logger of runtime_debug.go with its ticker, and scripts.
pub mod Base
pub mod TinyXboard
pub mod Uplink
pub mod Downlink
pub mod Counter
pub mod PanelApi
pub mod Agent
