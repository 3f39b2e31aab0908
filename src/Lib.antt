-- ===== src/Lib.antt =====
-- The IncomUdon Relay: what its packet handlers promise.
--
-- The Relay (main.go) is a UDP server for push-to-talk voice. Endpoints join a channel, one or a few of
-- them hold the talk floor at a time, and the Relay forwards what the talkers send. Around that stand the
-- authentication of control packets (control_auth.go), the admission of endpoints by an identity ticket
-- (identity_admission.go) or a service grant (service_admission.go), and the counters of the floor
-- interrupt (relay_diagnostics.go). A packet is parsed, the channel is swept of expired members, the
-- packet's control authentication is checked against a key and a replay window, a JOIN resolves the
-- admissions that the endpoint has proved, and then the handlers of the floor and of the membership
-- change the channel and send to its peers. Beside the packets stand a link to the management
-- (private_control.go), which revokes admissions and asks for the state, and a directory for clients
-- (directory_v3.go).
--
-- Which file is about which part:
--   Base        lists, Boolean tests, equality as an instance, Go maps as association lists, bits.
--   Platform    what is not Relay code: random bytes, HMAC, SHA-256, Ed25519, IP addresses.
--   Replay      acceptReplayCounter of control_auth.go; Replay/Bitmap, Replay/Accepted and Replay/Runs
--               relate the bitmap to the set of accepted counters.
--   Wire        packetHeader to parsedPacket, parsePacket and the build functions of main.go.
--   Nonce       nextRelayNonce and newRelayInstanceIDLocked of control_auth.go.
--   Auth        controlAuthState: State, Packet (tags), Challenge (cookies and sessions before a JOIN);
--               Auth/Sessions is a run of its exchanges, Auth/Counters what a run lets through.
--   Admission   Types, Ticket and Identity for identity_admission.go; Grant, Service and
--               Service/Exchange for service_admission.go; Identity/History and Service/History
--               are runs of their operations.
--   Diagnostics relayDiagnosticsState of relay_diagnostics.go.
--   Relay       peer, channel and server of main.go: Peers, Membership, Join, Floor, Request, Media;
--               Relay/History is a run of the operations on the channels. Relay/Output is what
--               goes to the socket (the send functions of main.go and control_auth.go), Relay/Dispatch
--               is handlePacket and handleMediaPacket of main.go, in the parts Exchange (before a
--               JOIN), Admit (the gate) and Serve (the last switch). Relay/Sweep is a tick of
--               cleanupLoop, and Relay/Revocation is revokeManagedServiceAdmission of
--               management.go.
--   Directory   Replay, Packing, Pages and Budget for directory_v3.go: directoryReplayState,
--               packDirectoryRows, splitDirectorySnapshotPages, and the rates of requests and
--               responses.
--   PrivateControl
--               Idempotency for the revocations of private_control.go that are carried out once,
--               Snapshot for private_control_snapshot.go, State for the deny rules of
--               private_control_state.go.
--   Examples    concrete runs.
--
-- How the code is read. A handler takes the state and gives the new state, with the packets, events and
-- observations that it causes as a list of effects in the order of the calls. Each mutex makes one
-- handler one step, so an interleaving is a list of steps; denyPttRequest, which takes the lock again, is
-- read on the state that the handler has just left. A time is a count of nanoseconds, 0 the zero time,
-- and each reading of the clock is an argument. Numbers are natural numbers with the wrap-around of
-- uint16, uint32 and uint64 written out where the code can reach it. A Go map is a list of entries; the
-- order in which a range loop meets them is the list's, and what is shown holds for every list. A pointer
-- to a peer is read through the map that holds it. Strings of tickets and grants are their bytes. Base64
-- and JSON are parameters, as are the functions of Platform; what is assumed of one stands with the
-- theorem as a named hypothesis (IsU32Source, HasLongMac). What a handler sends becomes a list of
-- datagrams, and what it tells the management or the diagnostics stays an effect in the same list; a
-- failed write, which the code only logs, is not told apart. handlePacket reads the clock at numbered
-- places, so its clock is a function of the place. Fuel stands in two loops of the directory, over the
-- groups of a packing and over the pages: it is the number of rows, and each turn takes one at least. The
-- other counted loops are the code's own: 32 draws of an instance ID and six attempts of a packing.
--
-- Not modelled: main with its flags and timers, the logs and size statistics of main.go, the
-- loading of keys; of management.go the HTTP interface, the access lists and the audit; of
-- private_control.go the sessions and frames, and the files of private_control_state.go; of
-- directory_v3.go the registrations, requests and cursors; secret_file_permissions.go, which is
-- calls of the operating system.
pub mod Base
pub mod Platform
pub mod Replay
pub mod Wire
pub mod Nonce
pub mod Auth
pub mod Admission
pub mod Diagnostics
pub mod Relay
pub mod Directory
pub mod PrivateControl
pub mod Examples
