-- ===== src/Lib.antt =====
-- zk-wsp: a proxy for HTTP requests over websockets that clients open to a server.
--
-- The program has two ends. A client (client/) opens websockets to the server (server/), half of
-- them to read requests from and half of them to write requests to. Either end keeps its
-- connections in a pool, offers the idle ones for writing in a buffered channel, and proxies an
-- HTTP request by taking a connection from there, sending the request over it and copying the
-- response. The package common/ holds the connections themselves and what both ends share;
-- request.go and response.go hold the serialized forms.
--
-- Which file models what:
--   - Common/Types, Common/Pool: common/types.go, the constants and the two interfaces. The interface
--     ConnectionPool is a record of operations with its laws, which Server/Pool/Interface and
--     Client/Pool/Interface fill for the two pools.
--   - Common/Store: the connection objects of common/readConnection.go and common/writeConnection.go.
--     A pointer is a number at which one store holds the object, so the pool's lists, the idle channel
--     and the handlers share it. A websocket is a handle, and the calls of its Close are logged.
--   - Common/Write, Common/Read: the methods that change a connection's status. Each holds the
--     connection's lock, so that a method is one step on the store; Common/Write/History runs any
--     sequence of such steps.
--   - Common/Proxy: ProxyRequest. Common/Receive: GetValueWithTimeout. Common/Utils: the request
--     fields. Common/Auth: ValidateKeyWithZkCloud.
--   - Common/Reader: the goroutine of WriteConnection.Start interleaved with a handler that uses the
--     connection, as a step relation over program counters. It takes the calls on the store from
--     Common/Write, and its handler has the steps of ProxyRequest at which it meets the goroutine.
--   - Common/Pings: the loop of ReadConnection.Start interleaved with its pings and with others that
--     close the connection, as a step relation.
--   - Common/Serve: the loop of ReadConnection.Start and its error answers; Common/Serve/Exchange puts
--     it at the other end of ProxyRequest.
--   - Greeting: the first message on a websocket, from client/utils.go to server/server.go.
--   - Http: the header map and the response writer as net/http has them, response.go, and of
--     request.go the serialized request (Http/Request) and the rules (Http/Rule).
--   - Server/Config, Server/Pool: server/config.go, server/pool.go. Of server/server.go, Server/Handlers
--     has Register and Request, and Server/Upkeep clean and Shutdown; Server/Status has its
--     getConnectionStatus and server/connectionStatus.go. Server/Running runs all of them, and the
--     start and the end of connections, in any order; what one call does is one step there.
--     Server/Members is an abstract view of it, a table of the connections of each client.
--   - Client/Config, Client/Login, Client/Pool, Client/Handlers: client/config.go and client/constants.go,
--     client/wspLogin.go, client/pool.go with Connect of client/utils.go, and client/client.go. The
--     rounds of startInternal are in Client/Handlers, as they change the client. Client/Running runs the
--     loop of the pool's Start, the requests, the refreshes of the token, and the start and the end of
--     connections, in any order; what one call does is one step there.
--   - Client/Locks: the goroutines that meet at the locks of client/pool.go and common/writeConnection.go,
--     as a step relation in which a goroutine may wait while it holds a lock.
--   - Common/Secrets, Client/Secrets: the Kubernetes secrets, of common/utils.go and client/k8sutils.go.
--   - Link: the two ends together, from the dial of client/utils.go to the connection that the server has
--     for its next request.
--   - Programs, Files: cmd/wsp_client/main.go, cmd/wsp_server/main.go (Programs/ServerMain) and
--     utils/utils.go.
--   - Prelude, Outcome, Result: shared names, lists, integers, texts and dictionaries; how a piece of
--     Go code ends (a value, a wait for ever, a panic); a value or an error.
--   - Tests: concrete runs and each theorem at a concrete input.
--
-- Conventions. Outcome has the cases ok, blocked (a channel operation that nobody completes) and
-- panic. A channel is the list of what it holds. Times are nanoseconds since Go's zero time, and do
-- not run backwards. What an external library answers (websockets, HTTP, JSON, URLs, timers, the
-- Kubernetes and the cloud service) is an argument of the definitions. The products that make
-- durations, the doubling of the retry interval and the number of connections to create wrap around
-- at 64 bits; the time that a wait has left is an integer without a bound. A negative PoolMaxSize makes
-- NewPool panic; that a large one exhausts the memory is left out. Which locks of connections are never
-- given back is an argument of the cleaning, which waits for them. No loop needs fuel but the decimal printer, which has one
-- step more than its number; every other loop recurs on a list (the loop of ReadConnection.Start on
-- what the peer sends) or on how often it runs.
--
-- Not modelled: logging; how the two Start methods set up net/http and the tickers; the records of
-- server/models.go, which nothing uses; examples/; the tickers. A connection whose Start is spawned
-- is a result of the definition that spawns it. Reads of shared fields outside a lock (data races)
-- are taken to be atomic.
pub mod Prelude
pub mod Outcome
pub mod Result
pub mod Files
pub mod Http
pub mod Common
pub mod Greeting
pub mod Server
pub mod Client
pub mod Programs
pub mod Link
mod Tests
