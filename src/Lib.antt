-- ===== src/Lib.antt =====
-- A model of go-playit, a client of the playit.gg tunnel service written in Go, with the theorems about
-- it. The program registers an agent over UDP with a control server (tunnel/setup.go), exchanges requests
-- and feeds with it (tunnel/control.go), and is to forward players' datagrams over a second UDP channel
-- (tunnel/udp_tunnel.go). SimplesTunnel (tunnel/simples_tunnel.go) ties both together.
--
-- Files and the code that they model:
--   Wire         tunnel/bigint.go: ReadU8 to ReadU64, WriteU8 to WriteU64, the buffers and the options
--   Address      AddressPort of tunnel/bigint.go
--   Netip        net/netip of the standard library, as far as it is used
--   Types        tunnel/lib.go: PortProto, AgentSessionId, PortRange
--   Rpc          tunnel/rpc.go: MessageEncoding as an interface, ControlRpcMessage over it
--   Request      the requests of tunnel/control_message.go
--   Response     the responses of tunnel/control_message.go
--   Feed         tunnel/control_feed.go
--   UdpFlow      tunnel/udp_proto.go
--   Rwlock       tunnel/rwlock/rwlock.go; its mutex among threads in Rwlock/Threads
--   UdpTunnel    tunnel/udp_tunnel.go, with ReceiveFrom in UdpTunnel/Rx, and the calls of its lock in
--                UdpTunnel/Locking
--   Control      tunnel/control.go
--   Setup        SetupFindSuitableChannel of tunnel/setup.go
--   Register     ConnectedControl.Authenticate of tunnel/setup.go
--   Simples      tunnel/simples_tunnel.go, with Update in Simples/Update; over the API in Simples/Online
--   Runner       the loop of tunnel/runner.go, as a step relation and as a function; the process with its
--                goroutines and its exits in Runner/Process
--   Constants    the constants and lists of api/api.go
--   Json         encoding/json of the standard library, as far as it is used
--   Api          api/api.go and api/request.go, with api/claim.go in Api/Claim, api/others.go in Api/Agent, and
--                api/tunnels.go in Api/Tunnels (the data), Api/Listing (their JSON, DeleteTunnel, ListTunnels)
--                and Api/Create (CreateTunnel)
--   Tcp          tunnel/tcp_tunnel.go
--   Lan          tunnel/lan_address.go, with the dials in Lan/Dial
--   Lookup       tunnel/address_lookup.go
--   Base, Bits   shared lists, tests, outcomes, and bitwise operations
--   Tests        the theorems applied to concrete values
-- The other modules below these hold the theorems, and are named for what they are about.
--
-- How state and operations correspond. A method with a pointer receiver is a function from the state to
-- the new state and its results. An io.Writer is the bytes that are appended, an io.Reader the bytes that
-- are left: WriteTo gives `Written`, ReadFrom a `Get`. A Go error is `err`, a run-time panic `panic`. A nil
-- pointer is `none`. The functions are named as in the source, in lower case with underscores: SetUdpTunnel
-- is set_udp_tunnel, IsIspired is_expired, RecFeedMsg rec_feed_msg. WriteTo and ReadFrom carry their type:
-- ControlFeed.ReadFrom is read_feed. Integers are natural numbers; where Go's wrap around, the model writes
-- the remainder. A time is its stamp in milliseconds.
--
-- What comes from outside is an argument: the clock at each use and the result of each socket call. A server
-- of the HTTP API is a function from a request to its answer. The text forms of UUIDs, addresses and times
-- are a record of printers and parsers, Formats: encoding/json is modelled on JSON
-- values, not on texts, and of a key that an object has in several cases only the last value is decoded. Datagrams that are handed to sockets are part of a call's result. Datagram, ReadOutcome,
-- Network, Replies, World, Arrival and Tick collect these answers.
--
-- Loops. The loops of the tunnel have fixed bounds in the source: three rounds of five reads in Setup, five
-- requests of five reads in Authenticate, thirty passes in Update. The model counts these passes down, so
-- its bounds are the source's own. What is numbered by a round or a try is numbered by those left. The two
-- loops of the API client that ask until something has happened have no bound: wait_user and
-- wait_allocated are given fuel, one for each answer, and are `none` without enough. The runner's loop is run on a list of what its passes get from outside.
--
-- Concurrency. The methods' definitions take one call after the other. That they wait for each other at the
-- lock is modelled apart, in Rwlock/Threads after the documentation of sync.RWMutex: a thread is the list of its
-- calls of the mutex, which UdpTunnel/Locking gives for each method, and a run a sequence of steps of any
-- threads. A lock for writing is two calls, since a writer that waits keeps new readers out.
--
-- Not modelled: log output, sleeping, and ClaimUrl. A read that fails leaves no partly filled value behind in the model.
pub mod Json
pub mod Constants
pub mod Base
pub mod Bits
pub mod Wire
pub mod Netip
pub mod Address
pub mod Types
pub mod Rpc
pub mod Request
pub mod Response
pub mod Feed
pub mod UdpFlow
pub mod Rwlock
pub mod UdpTunnel
pub mod Lan
pub mod Lookup
pub mod Control
pub mod Setup
pub mod Register
pub mod Simples
pub mod Runner
pub mod Tcp
pub mod Api
pub mod Tests
