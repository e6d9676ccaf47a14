-- ===== src/Echo/Main.antt =====
-- `main` of echoserver.cpp up to the loop of the main reactor, and what it calls: the constructors,
-- `SetThreadNums` and `Start` of EchoServer and Server.
-- logger.h gives every source file a logger of its own: `Loggers` has those that are used here.
use Prim.Native.String.{String}
use epoll_server.Base.{ℕ, zero, suc, ◌+◌, Bool, true, false, List, [], ◌∷◌, ◌++◌, if◌then◌else◌}
use epoll_server.Config.{Config, parse_arg}
use epoll_server.Config as ConfigParts
use epoll_server.Logger.{Logger, start_aasync, open_target}
use epoll_server.Logger.Life.{running, start_failed}
use epoll_server.EventLoopThread as Threads
use epoll_server.Logger.Process.{
  Outcome, returns, terminates, asserts, Reply, succeeds, fails, M, pure, ◌>>=◌, ◌>>◌, line,
  log_info, in_file,
}
use epoll_server.EventLoop.Setup.{LoopReplies, Reactor}
use epoll_server.EventLoop.Setup as Setup
use epoll_server.Acceptor.{Acceptor, Replies, construct}
use epoll_server.ThreadPool.{ThreadPool, set_thread_nums}
use epoll_server.ThreadPool as ThreadPoolParts
use epoll_server.Server.{Task, Server, ConnRef}
use epoll_server.Server as ServerParts

pub record Loggers : Type 0 where
  pub echoserver : Logger
  pub eventloop : Logger
  pub acceptor : Logger
  pub server : Logger
  pub eventloopthreadpool : Logger
  pub eventloopthread : Logger

abbrev pub in_echoserver : {A : Type 0} → M Logger A → M Loggers A
in_echoserver m = in_file (λ ls. ls.echoserver) (λ l ls. record ls { echoserver = l }) m

abbrev pub in_eventloop : {A : Type 0} → M Logger A → M Loggers A
in_eventloop m = in_file (λ ls. ls.eventloop) (λ l ls. record ls { eventloop = l }) m

abbrev pub in_acceptor : {A : Type 0} → M Logger A → M Loggers A
in_acceptor m = in_file (λ ls. ls.acceptor) (λ l ls. record ls { acceptor = l }) m

abbrev pub in_server : {A : Type 0} → M Logger A → M Loggers A
in_server m = in_file (λ ls. ls.server) (λ l ls. record ls { server = l }) m

abbrev pub in_pool : {A : Type 0} → M Logger A → M Loggers A
in_pool m = in_file (λ ls. ls.eventloopthreadpool) (λ l ls. record ls { eventloopthreadpool = l }) m

abbrev pub in_threads : {A : Type 0} → M Threads.Loggers A → M Loggers A
in_threads m ls =
    elim (m (record { eventloopthread = ls.eventloopthread; eventloop = ls.eventloop })) [
      | returns a k ↦
          returns a (record ls { eventloopthread = k.eventloopthread; eventloop = k.eventloop })
      | terminates k ↦
          terminates (record ls { eventloopthread = k.eventloopthread; eventloop = k.eventloop })
      | asserts ↦ asserts
    ]

-- What a thread of the pool meets: whether std::thread could be made, its id, and what the calls of its
-- two loops answer.
pub record ThreadReplies : Type 0 where
  pub made : Bool
  pub thread : ℕ
  pub first : LoopReplies
  pub second : LoopReplies

-- When the thread that writes the log opens the file, and whether it can: before `main` logs its line,
-- after that, or only when `main` is in the loop of the main reactor. Nothing else that `main` comes to
-- before that loop uses the logger of echoserver.cpp.
pub data Opening : Type 0 where
  before_line after_line : Reply (Unit {0}) → Opening
  later : Opening

-- Whether the thread that writes the log could be made, its id, and its file.
pub record WriterReplies : Type 0 where
  pub made : Bool
  pub thread : ℕ
  pub opening : Opening

-- The main loop, the acceptor, and the rest of the server.
pub record EchoServer : Type 0 where
  pub reactor : Reactor Task
  pub acceptor : Acceptor
  pub server : Server

abbrev pub set_server_threads : ℕ → EchoServer → EchoServer
set_server_threads n e = record e { server = ServerParts.set_thread_nums n e.server }

-- `threads i` is what the thread made in round `i` meets, `started i` the number of its loop, and `number`
-- how `<<` prints an id. The line that a thread logs behind the mutex comes at any later time, and is
-- not among these.
module _ (number : ℕ → String) (threads : ℕ → ThreadReplies) (started : ℕ → ℕ) (thread : ℕ) where
  -- `EventLoopThread::Start`: an exception of std::thread is not caught, and a loop that cannot be made
  -- ends the process.
  unfoldable pub run_thread : Bool → ThreadReplies → ℕ → M Loggers ℕ
  run_thread false t loop ls = terminates ls
  run_thread true t loop ls =
      (in_threads (Threads.make_loops number t.thread {A = Task} t.first t.second) >>= λ _.
      pure loop)
        ls

  -- The loop of `EventLoopThreadPool::Start`: `todo` rounds from round `i` on.
  unfoldable pub start_threads : ℕ → ℕ → ThreadPool ℕ → M Loggers (ThreadPool ℕ)
  unfolding run_thread
  start_threads i zero p = pure p
  start_threads i (suc todo) p = run_thread (threads i).made (threads i) (started i) >>= λ loop.
      start_threads (i + 1) todo
        (record p { sub_reactors = p.sub_reactors + 1; event_loops = p.event_loops ++ (loop ∷ []) })

  -- `EventLoopThreadPool::Start`.
  unfoldable pub start_pool : ThreadPool ℕ → M Loggers (ThreadPool ℕ)
  unfolding log_info start_threads
  start_pool pool = do
    in_pool (log_info thread (line "EventLoopThreadPool::Start" "" "thread pool starting..."))
    running ← start_threads 0 pool.thread_nums pool
    in_pool (log_info thread (line "EventLoopThreadPool::Start" "" "thread pooling start succ"))
    pure running

  -- `Server::Start`, up to the loop of the main reactor.
  unfoldable pub start_server : EchoServer → M Loggers EchoServer
  unfolding log_info start_pool
  start_server e = do
    in_server (log_info thread (line "Server::Start" "" "server starting"))
    pool ← start_pool e.server.thread_pool
    in_server (log_info thread (line "Server::Start" "" "server start succ, main_reactor running"))
    pure (record e { server = record (e.server) { thread_pool = pool } })

-- The assignment to `async_thread`: an exception of std::thread is not caught. The answer is whether
-- there is a thread that writes the log.
abbrev pub make_writer : Bool → Logger × Bool → Outcome Logger Bool
make_writer made (l, false) = returns false l
make_writer true (l, true) = returns true l
make_writer false (l, true) = terminates l

-- The start of `AsyncThreadFunc`, for the file's answer.
abbrev pub open_log : ℕ → Reply (Unit {0}) → Logger → Logger
open_log thread (succeeds _) l = open_target thread running (start_failed "") true l
open_log thread (fails err) l = open_target thread running (start_failed err) false l

-- It comes before the line of `main`, or behind it; `true` is a thread that is there.
abbrev pub open_before : ℕ → Bool → Opening → M Logger (Unit {0})
open_before thread true (before_line file) l = returns tt (open_log thread file l)
open_before thread _ _ l = returns tt l

abbrev pub open_after : ℕ → Bool → Opening → M Logger (Unit {0})
open_after thread true (after_line file) l = returns tt (open_log thread file l)
open_after thread _ _ l = returns tt l

-- `I` is the type of the `int`s, and `is_set n` is whether `n` is not 0.
module _ {I : Type 0} where
  -- `if (config.IS_ASYNC_LOGGER) Logger.StartAasync(config.LOG_FILE)`
  unfoldable pub start_logger : (I → Bool) → Bool → Config I → M Logger Bool
  start_logger is_set made config l =
      if is_set config.is_async_logger then make_writer made (start_aasync l) else returns false l

  -- `Server::Server`, and around it `EchoServer::EchoServer`.
  unfoldable pub echo_server :
      ℕ → ℕ → (List ℕ → I → Replies) → Reactor Task → Config I → M Loggers EchoServer
  echo_server thread main_reactor socket_replies reactor config = do
    acceptor ← in_acceptor (construct thread (socket_replies config.addr config.port))
    pure (record {
      reactor = reactor;
      acceptor = acceptor;
      server = ServerParts.init (ThreadPoolParts.init main_reactor);
    })

  -- `rounds n` is how often a loop from 0 up to `n` runs, `text` the line on the configuration, and
  -- `socket_replies` what the acceptor's calls answer for an address and a port.
  module _ (rounds : I → ℕ) (is_set : I → Bool) (text : Config I → String) (atoi : List ℕ → I)
      (loop_replies : LoopReplies) (socket_replies : List ℕ → I → Replies) (main_reactor : ℕ)
      (writer : WriterReplies) (number : ℕ → String) (threads : ℕ → ThreadReplies) (started : ℕ → ℕ)
      (thread : ℕ) where
    -- The numbers are 8080, 0 and that of the cores, as for `Config.init`.
    unfoldable pub main : I → I → I → List (ℕ × List ℕ) → M Loggers EchoServer
    unfolding start_logger echo_server start_server log_info
    main default_port zero_int cores args = do
      let config = parse_arg atoi args (ConfigParts.init default_port zero_int cores)
      writes ← in_echoserver (start_logger is_set writer.made config)
      in_echoserver (open_before writer.thread writes writer.opening)
      in_echoserver (log_info thread (line "main" "" (text config)))
      in_echoserver (open_after writer.thread writes writer.opening)
      reactor ← in_eventloop (Setup.construct thread loop_replies)
      server ← echo_server thread main_reactor socket_replies reactor config
      start_server number threads started thread
          (set_server_threads (rounds config.thread_num) server)
