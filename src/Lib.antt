-- ===== src/Lib.antt =====
-- ReactorKV: a key-value server over TCP with a skip list as its store.
--
-- A connection's bytes pass through these parts. net/epoll_poller.cpp waits for events and
-- net/channel.cpp turns them into calls of net/tcp_connection.cpp, which reads into a Buffer
-- (net/buffer.h, net/buffer.cpp) and calls onMessage of server/kv_server.cpp. That cuts the bytes
-- into requests (protocol/codec.h, protocol/message.h), runs each on the store
-- (storage/kvstore.cpp over storage/skiplist.h), and sends the answers through the connection's
-- output buffer. Paths are from the repository's directory src/.
--
-- Files:
-- - Prelude, Words, Bytes, KeyOrder: shared names and lemmas, size_t arithmetic with its
--   wrap-around, strings as lists of bytes, and the order on keys.
-- - SortedMap: the abstract map, a sorted list of pairs.
-- - SkipList (storage/skiplist.h): nodes in a store, where shared_ptr is an address; insert, remove,
--   search, contains, clear, size and getRandomLevel. SkipList.File has dumpFile, loadFile and
--   parseString. SkipList.Inv is the representation invariant.
-- - KvStore (storage/kvstore.cpp): put, get, del, exists, save and load. KvStore.Text is the text of
--   a saved map.
-- - Buffer (net/buffer.h, net/buffer.cpp): the buffer and its operations.
-- - Message, Codec (protocol): requests, responses, parseRequest, parseLine, encodeResponse.
-- - Server (server/kv_server.cpp): handleRequest, onMessage, onConnection, loadData, saveData.
--   Server.Round is one round of onMessage's loop. Server.Hub has any number of connections on any
--   number of threads, whose rounds come to the store in any order. Server.Socket has one
--   connection with the server's callbacks, from the first byte to the socket's last write.
-- - Program (server/main.cpp): the options, and a run from the load to the destruction of the store,
--   with the threads of the loops that serve on behind loop().
-- - Channel (net/channel.h, net/channel.cpp), Poller (net/epoll_poller.cpp, net/poller.cpp).
-- - Connection (net/tcp_connection.cpp): every handler as a function to its effects, in order.
-- - EventLoop (net/eventloop.cpp, net/eventloop_thread_pool.cpp): functors queued for a loop's
--   thread and the wake-ups for them, and the choice of a loop. EventLoop.Turns is loop with other
--   threads, as a step relation in which a push and its wake-up are two steps.
-- - LoopThread (net/eventloop_thread.cpp): a loop's thread and the caller that starts and destroys
--   it, with every lock, test, wait and notification as a step; all their states are explored.
-- - Acceptor (net/acceptor.cpp): the listening socket and what becomes of an accepted descriptor.
-- - TcpServer (net/tcp_server.cpp): the connections, their names, and the loops that they run on.
-- - Client (client/kvclient.cpp, from the repository's root): connect, the commands, parseResponse
--   and every call. Client.Session joins a client and a server: a call appends its command to the
--   server's input buffer, onMessage runs, and the client receives the answers. Client.Prompt
--   (client/main.cpp) has the lines typed and what is printed.
-- - Timestamp (base/timestamp.cpp), Logger (base/logger.cpp, base/current_thread.h): the text of a
--   time and of a log line, and which messages are written.
-- - Mutex (base/mutex.h), Latch (base/count_down_latch.h).
-- - BlockingQueue (base/blocking_queue.h), with put and take as one step each. BlockingQueue.Threads
--   has the bounded queue with every lock, test, wait, push, pop, notification and unlock of every
--   thread as a step of its own, as a step relation.
-- - ThreadPool (base/threadpool.cpp).
-- - Tests: the theorems at concrete inputs.
--
-- Conventions. A pointer that is null or out of range where the code follows it is the result none.
-- A method under a mutex is one step, but in BlockingQueue.Threads and LoopThread. The draws of the
-- random generator, what the operating system's calls return and the files are arguments. A walk
-- along a level has the store's next free address as its fuel, which exceeds the number of entries;
-- the loop of onMessage has a round for each readable byte and one more. Server.Stream,
-- Server.Socket and Client.Session have one connection alone at the store; in Server.Hub and
-- Program a round of onMessage, which calls the store at most once, is one step, and rounds of all
-- connections come in any order. Counts of entries are natural numbers without the limit of int;
-- the sizes of buffers wrap at 2^64, and theorems ask for sizes below 2^63. Characters are classed
-- as in the C locale. A session's network delivers every answer whole and to one recv. In
-- do_pending_functors a loop's functors run without calls of other threads between them;
-- EventLoop.Turns has such calls.
--
-- Not modelled: the log lines of the other parts, the calls of pthread and of sockets themselves
-- (their results are arguments or steps), the release of nodes that nothing points to, the loop
-- around poll, the clock, and the options of the client. Negative numbers are left out where the
-- program has no use for them: levels of a skip list below 0, waits of a negative time, and times
-- before 1970.
pub mod Prelude
pub mod KeyOrder
pub mod Bytes
pub mod SortedMap
pub mod SkipList
pub mod KvStore
pub mod Words
pub mod Buffer
pub mod Message
pub mod Codec
pub mod Server
pub mod Program
pub mod Client
pub mod Channel
pub mod Poller
pub mod Connection
pub mod EventLoop
pub mod LoopThread
pub mod Acceptor
pub mod TcpServer
pub mod Timestamp
pub mod Logger
pub mod Mutex
pub mod Latch
pub mod BlockingQueue
pub mod ThreadPool
pub mod Tests
