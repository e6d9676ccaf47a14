-- ===== src/Echo/Pool.antt =====
-- How the start of the pool's threads ends, and what it leaves of the loggers.
use Prim.Native.String.{String}
use epoll_server.Base.{
  ℕ, zero, suc, ◌+◌, ◌<◌, ◌≡◌, ◌⊎◌, inl, inr, refl, ap, ◌∙◌, subst, Bool, true, false, [], ◌∷◌,
  ◌++◌, arith,
}
use epoll_server.Logger.{LogLevel, Message, Logger, log, print_line, push_line, info}
use epoll_server.Logger.Process.{
  Outcome, returns, terminates, asserts, pure, ◌>>=◌, Reply, succeeds, fails, log_info, log_fatal,
  line, in_file, ◌>>◌,
}
use epoll_server.EventLoop.Setup.{LoopReplies, Reactor, construct, with_eventfd}
use epoll_server.EventLoopThread as Threads
use epoll_server.Server.{Task}
use epoll_server.ThreadPool.{ThreadPool, start}
use epoll_server.ThreadPool as ThreadPoolParts
use epoll_server.Echo.Main.{
  Loggers, ThreadReplies, EchoServer, in_threads, in_pool, in_server, run_thread, start_threads,
  start_pool, start_server,
}

pub log-is_async :
    (thread : ℕ) (level : LogLevel) (m : Message) (l : Logger)
    → (log thread level m l).is_async ≡ l.is_async
unfolding log print_line push_line
log-is_async thread level m l = ground arith

-- Each logger writes to the log file if it did before.
pub record Unchanged (before after : Loggers) : Type 0 where
  pub echoserver : after.echoserver.is_async ≡ before.echoserver.is_async
  pub eventloop : after.eventloop.is_async ≡ before.eventloop.is_async
  pub acceptor : after.acceptor.is_async ≡ before.acceptor.is_async
  pub server : after.server.is_async ≡ before.server.is_async
  pub eventloopthreadpool : after.eventloopthreadpool.is_async ≡ before.eventloopthreadpool.is_async
  pub eventloopthread : after.eventloopthread.is_async ≡ before.eventloopthread.is_async

pub Unchanged-trans : {a b c : Loggers} → Unchanged a b → Unchanged b c → Unchanged a c
Unchanged-trans p q = record {
  echoserver = q.echoserver ∙ p.echoserver;
  eventloop = q.eventloop ∙ p.eventloop;
  acceptor = q.acceptor ∙ p.acceptor;
  server = q.server ∙ p.server;
  eventloopthreadpool = q.eventloopthreadpool ∙ p.eventloopthreadpool;
  eventloopthread = q.eventloopthread ∙ p.eventloopthread;
}

Unchanged-refl : (a : Loggers) → Unchanged a a
Unchanged-refl a = record {
  echoserver = refl;
  eventloop = refl;
  acceptor = refl;
  server = refl;
  eventloopthreadpool = refl;
  eventloopthread = refl;
}

-- A system call has failed.
abbrev pub Fails : {A : Type 0} → Reply A → Type 0
Fails r = (err : String) × (r ≡ fails err)

-- The thread could not be made, or one of its two loops.
abbrev pub Lost : ThreadReplies → Type 0
Lost t = (t.made ≡ false) ⊎ (Fails t.first.eventfd ⊎ Fails t.second.eventfd)

module _ (number : ℕ → String) (thread : ℕ) where
  -- The two loops of a thread.
  LoopsEnd :
      LoopReplies → LoopReplies → Threads.Loggers → Outcome Threads.Loggers (Reactor Task) → Type 0
  LoopsEnd first second ls (returns loop after) =
      (after.eventloop.is_async ≡ ls.eventloop.is_async)
      × (after.eventloopthread.is_async ≡ ls.eventloopthread.is_async)
  LoopsEnd first second ls (terminates after) = Fails first.eventfd ⊎ Fails second.eventfd
  LoopsEnd first second ls asserts = ⊥

  make_loops_ends :
      (first second : LoopReplies) (ls : Threads.Loggers)
      → LoopsEnd first second ls (Threads.make_loops number thread {A = Task} first second ls)
  unfolding LoopsEnd Threads.make_loops Threads.make_loop Threads.log_in_thread log_info log_fatal
      construct with_eventfd
  make_loops_ends first second ls = by_replies first.eventfd second.eventfd refl refl
    where
      made : Reply ℕ → LoopReplies → Threads.Loggers → Outcome Threads.Loggers (Reactor Task)
      made a r =
          in_file (λ ls. ls.eventloop) (λ l ls. record ls { eventloop = l })
            (with_eventfd thread a r)

      begun : Threads.Loggers
      begun = record ls {
        eventloopthread =
            log thread info
              (line "EventLoopThread::ThreadRunFunc" "" (Threads.starting_text number thread))
              ls.eventloopthread;
      }

      by_replies :
          (a b : Reply ℕ)
          → first.eventfd ≡ a
          → second.eventfd ≡ b
          → LoopsEnd first second ls ((made a first >>= λ _. made b second) begun)
      by_replies (fails err) b e f = inl (err, e)
      by_replies (succeeds n) (fails err) e f = inr (err, f)
      by_replies (succeeds n) (succeeds m) e f =
          (refl, log-is_async thread info _ ls.eventloopthread)

module _ (number : ℕ → String) (threads : ℕ → ThreadReplies) (started : ℕ → ℕ) (thread : ℕ) where
  -- The start of one thread.
  ThreadEnd : ThreadReplies → ℕ → Loggers → Outcome Loggers ℕ → Type 0
  ThreadEnd t loop ls (returns l after) = (l ≡ loop) × Unchanged ls after
  ThreadEnd t loop ls (terminates after) = Lost t
  ThreadEnd t loop ls asserts = ⊥

  run_thread_ends :
      (t : ThreadReplies) (loop : ℕ) (ls : Loggers)
      → ThreadEnd t loop ls (run_thread number threads started thread t.made t loop ls)
  unfolding ThreadEnd run_thread LoopsEnd
  run_thread_ends t loop ls = by_made t.made refl
    where
      inside : Threads.Loggers
      inside = record { eventloopthread = ls.eventloopthread; eventloop = ls.eventloop }

      by_loops :
          (o : Outcome Threads.Loggers (Reactor Task))
          → LoopsEnd number t.thread t.first t.second inside o
          → ThreadEnd t loop ls ((in_threads (λ _. o) >>= λ _. pure loop) ls)
      by_loops (returns l k) h = (
        refl,
        record {
          echoserver = refl;
          eventloop = h.0;
          acceptor = refl;
          server = refl;
          eventloopthreadpool = refl;
          eventloopthread = h.1;
        },
      )
      by_loops (terminates k) h = inr h
      by_loops asserts h = h

      by_made :
          (b : Bool)
          → t.made ≡ b
          → ThreadEnd t loop ls (run_thread number threads started thread b t loop ls)
      by_made false e = inl e
      by_made true e = by_loops _ (make_loops_ends number t.thread t.first t.second inside)

  -- The rounds that start the threads: the pool after them, or a thread that was lost.
  RoundsEnd : ℕ → ℕ → ThreadPool ℕ → Loggers → Outcome Loggers (ThreadPool ℕ) → Type 0
  RoundsEnd i n p ls (returns q after) =
      (q ≡ ThreadPoolParts.start_threads started i n p) × Unchanged ls after
  RoundsEnd i n p ls (terminates after) = (k : ℕ) × (k < i + n) × Lost (threads k)
  RoundsEnd i n p ls asserts = ⊥

  start_threads_end :
      (i n : ℕ) (p : ThreadPool ℕ) (ls : Loggers)
      → RoundsEnd i n p ls (start_threads number threads started thread i n p ls)
  unfolding RoundsEnd start_threads ThreadPoolParts.start_threads ThreadEnd
  start_threads_end i zero p ls = (refl, Unchanged-refl ls)
  start_threads_end i (suc n) p ls =
      by_thread (start_threads_end (i + 1) n) _ (run_thread_ends (threads i) (started i) ls)
    where
      pushed : ℕ → ThreadPool ℕ
      pushed loop = record p {
        sub_reactors = p.sub_reactors + 1;
        event_loops = p.event_loops ++ (loop ∷ []);
      }

      by_rest :
          (now : Loggers)
          → Unchanged ls now
          → (o : Outcome Loggers (ThreadPool ℕ)) → RoundsEnd (i + 1) n (pushed (started i)) now o
          → RoundsEnd i (suc n) p ls o
      by_rest now u (returns q after) (same, v) = (same, Unchanged-trans u v)
      by_rest now u (terminates after) (k, below, lost) = (k, omega arith, lost)
      by_rest now u asserts h = h

      by_thread :
          ((q : ThreadPool ℕ) (now : Loggers)
            → RoundsEnd
                (i + 1)
                n
                q
                now
                (start_threads number threads started thread (i + 1) n q now))
          → (o : Outcome Loggers ℕ) → ThreadEnd (threads i) (started i) ls o
          → RoundsEnd i (suc n) p ls (
              ((λ _. o) >>= λ loop.
              start_threads number threads started thread (i + 1) n (pushed loop))
                ls)
      by_thread rest (returns l now) (same, u) = by_rest now u _ (
          subst
            (λ q.
              RoundsEnd (i + 1) n q now
                (start_threads number threads started thread (i + 1) n (pushed l) now))
            (ap pushed same) (rest (pushed l) now))
      by_thread rest (terminates now) h = (i, omega arith, h)
      by_thread rest asserts h = h

  -- `Server::Start` on a server with this pool.
  unfoldable pub StartEnd : EchoServer → Loggers → Outcome Loggers EchoServer → Type 0
  StartEnd e ls (returns f after) =
      (f ≡ record e {
        server = record (e.server) { thread_pool = start started e.server.thread_pool };
      })
      × Unchanged ls after
  StartEnd e ls (terminates after) =
      (k : ℕ) × (k < e.server.thread_pool.thread_nums) × Lost (threads k)
  StartEnd e ls asserts = ⊥

  pub start_server_ends :
      (e : EchoServer) (ls : Loggers)
      → StartEnd e ls (start_server number threads started thread e ls)
  unfolding StartEnd RoundsEnd start_server start_pool log_info start
  start_server_ends e ls =
      by_rounds _ (start_threads_end 0 e.server.thread_pool.thread_nums e.server.thread_pool begun)
    where
      begun : Loggers
      begun = record ls {
        server = log thread info (line "Server::Start" "" "server starting") ls.server;
        eventloopthreadpool =
            log thread info (line "EventLoopThreadPool::Start" "" "thread pool starting...")
              ls.eventloopthreadpool;
      }

      begun-Unchanged : Unchanged ls begun
      begun-Unchanged = record {
        echoserver = refl;
        eventloop = refl;
        acceptor = refl;
        server = log-is_async thread info _ ls.server;
        eventloopthreadpool = log-is_async thread info _ ls.eventloopthreadpool;
        eventloopthread = refl;
      }

      by_rounds :
          (o : Outcome Loggers (ThreadPool ℕ))
          → RoundsEnd 0 e.server.thread_pool.thread_nums e.server.thread_pool begun o
          → StartEnd e ls (
              (((λ _. o) >>= λ running.
              in_pool
                (log_info thread (line "EventLoopThreadPool::Start" "" "thread pooling start succ"))
              >> pure running)
                  >>= λ pool.
                      in_server (
                        log_info thread
                          (line "Server::Start" "" "server start succ, main_reactor running"))
                      >> pure (record e { server = record (e.server) { thread_pool = pool } }))
                begun)
      by_rounds (returns q now) (same, u) = (
        ap (λ p. record e { server = record (e.server) { thread_pool = p } }) same,
        Unchanged-trans (Unchanged-trans begun-Unchanged u) (record {
          echoserver = refl;
          eventloop = refl;
          acceptor = refl;
          server = log-is_async thread info _ now.server;
          eventloopthreadpool = log-is_async thread info _ now.eventloopthreadpool;
          eventloopthread = refl;
        }),
      )
      by_rounds (terminates now) (k, below, lost) = (k, omega arith, lost)
      by_rounds asserts h = h
