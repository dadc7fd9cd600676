-- ===== src/Lib.antt =====
-- muMuduo: a multi-reactor TCP network library. A TcpServer accepts connections on a base loop and
-- gives each to one of a pool of loops, every loop on a thread of its own. A loop waits in epoll
-- through its Poller, passes each event to the Channel of the descriptor, and then runs the
-- functors that other threads have queued. A TcpConnection has a channel and two Buffers. What the
-- user sends is written to the socket at once as far as the socket takes it, the rest waits in the
-- output buffer, and the channel asks for the write event until the buffer is empty.
--
-- The files, and the code that they are about:
--
--   Common        numbers, lists, dictionaries, faults, decimal text; no code of the program
--   Buffer        Buffer.h and Buffer.cc
--   Channel       Channel.h and Channel.cc: the mask of events, and which handlers an event runs
--   Reactor       Poller.h, Poller.cc, EPollPoller.h, EPollPoller.cc, and the calls of Channel.h
--                 that go through the loop to the poller
--   Loop          EventLoop.h and EventLoop.cc: the queue of functors and the wakeup descriptor;
--                 Loop/Create has the constructor, the destructor and DefaultPoller.cc
--   Server        TcpServer.h and TcpServer.cc: the connections by name
--   ThreadPool    EventLoopThreadPool.h and EventLoopThreadPool.cc
--   Port          what TcpConnection.cc asks of its channel; Port/OnReactor fills it from Reactor
--   Connection    TcpConnection.h and TcpConnection.cc
--   Hub           the connections of a server on one loop, beside each other: parts of TcpServer.cc,
--                 TcpConnection.cc and EventLoop.cc over one reactor
--   Acceptor      Acceptor.h and Acceptor.cc; Acceptor/Serve joins it to the server
--   Socket        Socket.h and Socket.cc
--   InetAddress   InetAddress.h and InetAddress.cc
--   Thread        Thread.h, Thread.cc, CurrentThread.h and CurrentThread.cc
--   LoopThread    EventLoopThread.h and EventLoopThread.cc
--   Timestamp     Timestamp.h and Timestamp.cc
--   Logger        Logger.h and Logger.cc
--   Echo          example/testserver.cc
--
-- Names are those of the source: `makeSpace` is `make_space`, a field loses its last underscore. A
-- member function is a function from the state of its object to the new state; one that can leave
-- the defined behaviour of C++, throw, or end the program returns an Outcome, in which a Fault
-- tells which of these it is. A long function is split at its branches (`send_in_loop`,
-- `buffer_rest`, `store_rest`, `arm`), and the parts call each other as the code goes through them.
--
-- Buffer: a vector is a list of bytes; `size_t` arithmetic wraps at 2 ^ 64. Every block that is
-- copied is checked to lie inside the vector. `resize` throws above the limit of a vector of char.
-- The bytes that readv stores, and what write answers, are arguments.
--
-- Channel and Reactor: a channel is a record on a heap and is named by its address, as in the `ptr`
-- of an epoll_event. The interest list of the kernel is an interface (Epoll) with the laws of
-- epoll_ctl as its manual has them. Reactor/ListEpoll is a list that has these laws. A failed
-- EPOLL_CTL_DEL is only logged, as LOG_ERROR does; any other failure ends the program, as LOG_FATAL
-- does. What epoll_wait returns is an argument of `poll`.
--
-- Connection: the operations on the thread of the loop, over the interface Port. The effects on the
-- outside stand in a trace, oldest first: bytes written, the half-close of the socket, calls of the
-- user's callbacks, and functors handed to the loop. A callback of the user is a point of the
-- trace; what it calls in turn is a further operation. A write takes at most the bytes that it is
-- given; where a theorem needs this, it says so.
--
-- Hub: a server without loop threads, so its one loop serves all connections. An object and its
-- channel are named by one number. A history is a list of actions: a new connection, an event of
-- one connection or a call of its user, and a round of the queued `connectDestroyed`, after which
-- the objects end. Each event is one action, so the events of several connections come in any
-- order. That the close callback was called is read off the trace of a connection, and each call
-- queues one `connectDestroyed`. The kernel is taken to have room for every descriptor, so no
-- EPOLL_CTL_ADD ends the program. Calls of other threads on a connection are left out. HubInv
-- (Hub/Apart) says of such a loop that its reactor is consistent, that each connection is sound on
-- it with the callbacks of its constructor on its channel, that every other channel calls into no
-- connection, and that the queued objects are there. Hub/Round has a whole round of the loop: the
-- poll, the handlers of the channels that it reports, as the channels have them bound, and the
-- queued `connectDestroyed`. The other functors of a connection are effects of its trace. What the
-- sockets answer in a round is an argument, a function of the object. The names in the server's
-- map, the calls of a socket, and what the acceptor does before its callback are left to their own
-- files; the wakeup channel's handler only reads its descriptor.
--
-- Loop: the loop's thread and any number of others take steps in any order (Loop/Steps). A call of
-- `queueInLoop` or `quit` by another thread is two steps, the halves of that function: its change,
-- under the mutex or of an atomic, and the test with the `wakeup` behind it; `owing` and
-- `owing_quit` count the threads between the two. The eventfd is an interface (Eventfd) with what
-- its manual says of reading and writing. What a functor does besides queueing is left out. The
-- loop's own thread queues functors and quits only from handlers and functors, not before `loop` or
-- after it.
--
-- ThreadPool and Server: a loop is named by its address, a connection is what the server keeps of
-- it: its loop, its name and its socket. The counter of connections is an `int`, and to count past
-- its largest value is a Fault. The functors that are handed to a loop stand in a trace.
--
-- Acceptor, Socket and Echo: what a system call returns is an argument, and the calls made are a
-- trace. The acceptor's callback is a parameter; Acceptor/Serve gives it `new_connection`. Echo
-- runs the callbacks of the example server on a connection of the library.
--
-- Thread and LoopThread: the thread that owns an EventLoopThread and the thread that runs its loop
-- take steps in any order; `loop_` is read and written at the places where the code does, the
-- semaphore is a counter, and the wait on the condition ends when the pointer is set. `quit` may be
-- called at any time while the loop object is there; `loop()` clears its flag first. The objects
-- outlive the steps, and one call of startLoop is made.
--
-- InetAddress, Timestamp and Logger: a text is a list of characters as numbers; the functions of
-- arpa/inet.h and localtime are interfaces (Inet, Calendar) with laws from their manuals. A buffer
-- has its size: `sprintf` past its end is a Fault, and `snprintf` cuts.
--
-- Recursion is on lists and on counts that the program itself has, so there is no fuel; only the
-- decimal text of a number is built with the number itself as a bound on its digits.
--
-- Not modelled: Callbacks.h and noncopyable.h, which are type names and copies that the compiler
-- forbids; the files under build, which CMake generates; the destructor of the poller, which closes
-- a descriptor; getters, and setters of callbacks that are a point of a trace whether set or not;
-- the order in which the destructor of TcpServer goes through a hash map; and the lines that
-- components log. Reading the clock, and the receive time that handlers are given, have no effect
-- on anything modelled and are left out. `isInLoopThread` and `connected` have no return statement;
-- they are taken to return what they compare.
pub mod Common
pub mod Buffer
pub mod Channel
pub mod Reactor
pub mod ThreadPool
pub mod Port
pub mod Connection
pub mod Loop
pub mod Server
pub mod Thread
pub mod LoopThread
pub mod InetAddress
pub mod Timestamp
pub mod Logger
pub mod Socket
pub mod Acceptor
pub mod Echo
pub mod Hub
