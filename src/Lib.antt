-- ===== src/Lib.antt =====
-- A model of the chat server: what happens to bytes, requests, sessions and messages between the
-- socket and the stores.
--
-- How the parts work together. `TcpServer` reads bytes from a socket and hands them to the
-- connection's `ConnectionContext`, whose `PacketCodec` cuts them into packets. At most one packet of a
-- connection is with a worker at a time; the others wait in the context. A worker decodes its packet,
-- and `MessageHandler` calls a service (`UserService`, `ChatService`, `FriendService`,
-- `GroupService`). A service checks the fields with `Validator`, asks `SessionManager` who is on the
-- connection, and calls repositories over MySQL and stores over Redis. A message for a user of
-- another server goes through a Redis stream, which that server's `RedisPushStream` reads.
--
-- The files, and the code that each is about:
--   Base          numbers, lists, maps, texts as lists of bytes, `std::to_string`, `std::strtoll`,
--                 `std::hex`
--   Codec/Packet  `PacketCodec` (src/codec/packet_codec.cc)
--   Net/Context   `ConnectionContext` (src/ConnectionContext.cc), less the system calls
--   Net/Handler   `IMessageHandler` (include/net/IMessageHandler.h) as an interface: the server is shown
--                 right for each handler that fulfils what its theorems ask
--   Net/Server    `TcpServer` (src/TcpServer.cc) and the queue of `ThreadPool`
--                 (src/concurrency/thread_pool.cc): the tables of connections, the jobs of workers
--                 (Workers), the answers, pushes and delivery marks (Delivery), sockets (Sockets),
--                 timeouts (Timeouts), deliveries for other servers (Remote), and the loop (Events).
--                 Balance and Tracking count the requests and marks that are under way
--   Session/Manager  `SessionManager` (src/server/session_manager.cc)
--   Session/Store  `RedisSessionStore` (src/server/redis_session_store.cc) and its Lua scripts, over
--                 the hashes that Redis keeps; no key expires, so the EXPIRE calls of the scripts
--                 are left out
--   Validation    `Validator` and its UTF-8 decoder (src/common/validator.cc)
--   Model         the records and status codes (include/model, include/common, include/protocol)
--   Service/Exec, Service/Interfaces, Service/Common
--                 what a service method is (Exec/Steps: what holds of all its runs), the abstract classes that it calls (include/db,
--                 include/cache, include/server, include/stream, include/security), and the helpers
--                 that several services declare
--   Service/Ids, Service/Routing, Service/Chat, Service/Inbox
--                 `ChatService` (src/service/chat_service.cc): the ids, the route of a message,
--                 sendMessage, and the methods for stored messages
--   Service/Friend  `FriendService` (src/service/friend_service.cc)
--   Service/Group, Service/GroupMessages
--                 `GroupService` (src/service/group_service.cc)
--   Service/User, Service/UserSessions
--                 `UserService` (src/service/user_service.cc)
--   Cache         `MessageDedupCache` and `RedisRateLimiter` (src/cache), with the commands of Redis
--                 that they rely on as named laws, for keys that do not expire in between; the Lua
--                 script of the limiter is a definition over INCR, EXPIRE and TTL
--   Stream        `RedisPushStream` (src/stream/redis_push_stream.cc)
--   Db/Pool       `DbPool` (src/db/db_pool.cc): its methods cut where they give up the lock (Borrowing),
--                 connecting with retries (Connecting), and histories of threads (Running)
--   Model/Settings, Config
--                 the records of the settings and `ConfigLoader` (src/config/config_loader.cc,
--                 src/config/redis_config.cc): the fields of a JSON object (Json), the sections
--                 (Sections), the environment (Environment), the tests (Validating, Redis) and the
--                 whole (Loading), from the text of the file on
--
-- How code becomes definitions. A class is a record of its fields, a method a function from the old
-- state to the new one. A `std::string` is the list of its bytes, an `int64_t` an integer, a `uint64_t`
-- a natural number with its wrap-around written out. A service method is an `Exec`: a function on the
-- state `W` of all the stores behind it, which answers with a value or with the code and the message
-- of a refusal. The abstract classes are records of functions on `W`, so what is shown of a service
-- holds for each implementation, also for one that fails. Time, process ids, counters and random
-- bytes are arguments.
--
-- Loops and fuel. The loop of `PacketCodec::feed` runs on as much fuel as the buffer has bytes, and
-- `DecodeUtf8` on as much as the text has: each round takes at least one byte off. `std::to_string` of
-- n has n + 1 rounds, of which each takes a digit off. `DbPool::createConnection` has as many rounds as
-- its 32-bit bound says, and each round of `DbPool::borrow` is an event of a history. The other loops
-- are structural.
--
-- The server and its threads. `Net.Server.Events.step` takes one event: a client that connects, a
-- socket that epoll reports, the timer, the eventfd of the workers, a worker that takes its next job, or
-- another thread that asks for a delivery or gives one up. A history is a list of events in any order,
-- so that the interleavings of the loop and the workers are all among them. What recv, send and the
-- clock answer stands in the event; what epoll_ctl and the pool's submit answer, call by call, stands
-- in the last arguments of `start_server`, so that either may fail at any call. A job of a worker is
-- one step, since it touches the server only through the queues at its end: a job that marks the
-- messages of a push takes the fence down and queues its event together, where the source does the one
-- right before the other. The loop over the marks of other connections takes them in the order of
-- their first push, where the source walks an unordered map. A weak pointer to a connection is its id:
-- it can be locked as long as the connection is in the table, which is the only owner that lasts.
--
-- The database pool and its threads. A method of `DbPool` is cut where it gives up the lock, and the
-- pieces of all calls follow each other in any order (Db/Pool/Running). A connection is told by a
-- number of its own, so that it can be shown to have one owner. What a ping, the clock, the wait and
-- the attempts to connect answer stands in the event, and a wait may end at any time.
--
-- What is not here. The dispatch of `MessageHandler`, the codec of JSON messages, the SQL of the
-- repositories, `CachedUserRepository`, the pool of Redis, `ServerConfig::ToSafeString`, reading files
-- and logging are not modelled. nlohmann/json, libmysqlclient, hiredis and crypt are not part of the
-- repository: the parser of the configuration is a parameter. The locks of the other classes are left
-- out: a method is one step, as the mutex of its class makes it.
pub mod Base
pub mod Codec
pub mod Net
pub mod Session
pub mod Validation
pub mod Model
pub mod Cache
pub mod Stream
pub mod Db
pub mod Service
pub mod Config
