-- ===== src/Lib.antt =====
-- Models and theorems of the epoll echo server: a multi-threaded reactor on Linux's epoll, whose
-- connections exchange messages as TLV frames (an eight-byte header in network byte order, of a
-- type and a length, and then the body).
--
-- The parts, and how they interact. A `Server` owns the main event loop, the thread pool and the
-- connections. Its `Acceptor` hands each new descriptor to the server, which asks the pool for an
-- event loop and makes a `Connection` there. An event loop asks its `Epoller` for ready channels; a
-- ready `Channel` runs the connection's `HandleMessage`, which reads a frame and calls the message
-- callback, and its `HandleWrite`, which empties the connection's send `Buffer` into the socket.
--
-- Which file models which part:
--   Base.antt             tests, lists, memory, event masks; nothing of the program
--   Buffer.antt           buffer.h, buffer.cpp (Buffer): one function for each method
--   Tlv.antt              tlvheader.h, and the header conversions of connection.cpp
--   Channel/State.antt    channel.h, channel.cpp (Channel): its fields and setters
--   Channel/Dispatch.antt channel.cpp (HandleEvent, HandleEventWithGuard)
--   Channel/Enable.antt   channel.cpp (EnableET, EnableRead, EnableWrite)
--   Epoller.antt          epoller.h, epoller.cpp (Epoller, ~Epoller, UndateChannel, DeleteChannel);
--                         Epoller/Wait.antt has `Epoll`
--   EventLoop.antt        eventloop.h, eventloop.cpp (EventLoop): the functions handed to a loop and
--                         its wakeups; EventLoop/Wakeup.antt has the threads' steps,
--                         EventLoop/Handling.antt and EventLoop/Rounds.antt the rounds of
--                         `Start` as such steps,
--                         EventLoop/Polling.antt the ready channels of a round, and
--                         EventLoop/Setup.antt the constructor, the destructor, UpdateChannel and
--                         DeleteChannel
--   ThreadPool.antt       eventloopthreadpool.h, eventloopthreadpool.cpp (EventLoopThreadPool)
--   EventLoopThread.antt  eventloopthread.h, eventloopthread.cpp (EventLoopThread)
--   CurrentThread.antt    currentthread.h, currentthread.cpp
--   Acceptor.antt         acceptor.h, acceptor.cpp (Acceptor), except Accept
--   Server.antt           server.h, server.cpp (Server), acceptor.cpp (Accept);
--                         Server/Lifecycle.antt has the life of the connections as steps, and
--                         Server/Closing.antt the way of one close through the loops' lists
--   Echo.antt             echoserver.cpp (onConnection, onMessage); Echo/Main.antt has `main`, which
--                         puts the parts together, with the Start of Server and
--                         EventLoopThreadPool; Echo/Event.antt, Echo/FirstMessage.antt,
--                         Echo/Round.antt and Echo/Life.antt are about an event, the first
--                         message, a round and the whole life of a connection
--   Config.antt           config.h, config.cpp (Config)
--   Logger.antt           logger.h, logger.cpp (LoggerInner); Logger/Process.antt has Debug, Info,
--                         Error and Fatal, and how code that may call Fatal ends; Logger/Life.antt
--                         the life of a logger as steps
--   BufferPool.antt       bufferpool.h (BufferPool)
--   Client.antt           client.cpp, client_longconn.cpp (hashVector, the check of the reply);
--                         Client/Package.antt has generateRandomPackage, Client/Thread.antt
--                         client_thread of both programs, Client/Report.antt `main` of client.cpp;
--                         Client/Short.antt has the threads of client.cpp side by side, and
--                         Client/Long/Moves.antt those of client_longconn.cpp with its `main`
--   Connection/State.antt connection.h, connection.cpp (Connection): its fields, its constructor,
--                         ConnectionEstablished, ConnectionDestructor, HandleClose
--   Connection/Sender.antt connection.cpp (Send, Send2, SendWithTwoSysCall, SendInternal,
--                         WriteNonBlocking, Write, HandleWrite)
--   Connection/Reader.antt connection.cpp (ReadNonBlocking, Read, HandleMessage)
--   Connection/Events.antt connection.cpp: the callbacks that the constructor sets, run by HandleEvent
-- A class is a record; a method is a function that takes the record, and what the system calls in it
-- answer, and returns the new record. Each file's children hold the theorems about it, and a child
-- `Tests` the tests.
--
-- System calls. What `read`, `write`, `epoll_ctl` and `epoll_wait` answer is an argument of the
-- function that makes the call, so a theorem holds whatever the kernel does, within the hypotheses
-- that it names (for instance that `read` gives no more bytes than it was asked for). The interest
-- list of epoll is the interface `EpollInstance` of Epoller/Registration.antt.
--
-- Loops. `ReadNonBlocking` makes one `read` in each round, so its model recurs on the list of the
-- answers, and `none` is a loop that still waits for an answer; no fuel is needed. When it ends is the
-- subject of Connection/Reader/Termination.antt and Connection/Reader/Bursts.antt.
--
-- Numbers. Indices and sizes are natural numbers; the `int` arithmetic of the buffer is the subject
-- of Buffer/Bounds.antt. A `uint32_t` is kept below 2 ^ 32 by an explicit `%`, and the host is
-- little-endian. An event mask is its bit pattern.
--
-- Threads. A step of one thread that holds a mutex, or makes one atomic access, is one step of the
-- models: EventLoop/Wakeup.antt, EventLoopThread.antt, Server/Lifecycle.antt, Server/Closing.antt,
-- Logger/Life.antt, Client/Short.antt and Client/Long/Moves.antt are relations between states, with a
-- step for each thing that a thread may do next. Client/Interleaved.antt has what the threads of both clients have in common.
-- What the loops' threads share without a mutex is not modelled. `tid_` of a loop is never assigned: its
-- value is an argument, and so is what a thread takes for its own id.
--
-- Not modelled: the text of log messages and where the program logs, except in Acceptor,
-- EventLoopThread, the constructor of EventLoop and `main`; the addresses and options of sockets; the
-- getters, and the setters of callbacks other than those of Channel; the join of threads; the sleep and
-- the catch of the logger's thread; the loop of the main reactor behind `main`, which is EventLoop's;
-- and the scripts and statistics, which are no code of the program.
pub mod CurrentThread
pub mod Acceptor
pub mod Base
pub mod Buffer
pub mod Tlv
pub mod Channel
pub mod Epoller
pub mod Connection
pub mod EventLoop
pub mod Echo
pub mod ThreadPool
pub mod Server
pub mod EventLoopThread
pub mod Client
pub mod Logger
pub mod Config
pub mod BufferPool
