-- ===== src/Echo/Launched.antt =====
-- What `main` of the echo server has come to when it reaches the loop of the main reactor, or when the
-- process ends before.
use Prim.Native.String.{String}
use epoll_server.Base.{ℕ, suc, ◌≡◌, ◌⊎◌, inl, inr, refl, ap, ◌∙◌, Bool, List, [], ◌∷◌, some, List}
use epoll_server.Base.{List, [], ◌∷◌}
use epoll_server.Base.{false, true}
use epoll_server.Logger.Process.{fails}
use epoll_server.Logger.{error, Message, Logger, log}
use epoll_server.Logger.Process.{
  Outcome, returns, terminates, asserts, pure, ◌>>=◌, succeeds, fails,
}
use epoll_server.EventLoop.Setup.{LoopReplies, Reactor}
use epoll_server.Acceptor.{Acceptor, Replies}
use epoll_server.Acceptor.Ready.{IsReady, Constructed, log_errors}
use epoll_server.Base.{zero}
use epoll_server.ThreadPool.{
  next_event_loop, start, start_threads, set_thread_nums, ThreadPool, init, next_event_loops,
}
use epoll_server.ThreadPool.Started.{threads, running, next_event_loops-running}
use epoll_server.Server as ServerParts
use epoll_server.Echo.Main.{Loggers, in_acceptor, EchoServer, set_server_threads, start_server}
use epoll_server.Echo.Main.{ThreadReplies, WriterReplies, Opening, before_line, after_line}
use epoll_server.Echo.Pool.{log-is_async, Unchanged, Fails, Lost, StartEnd, start_server_ends}
use epoll_server.Base.{◌&&◌, not, ◌<◌, subst, sym}

log_errors-is_async :
    (thread : ℕ) (ms : List Message) (l : Logger) → (log_errors thread ms l).is_async ≡ l.is_async
unfolding log_errors
log_errors-is_async thread [] l = refl
log_errors-is_async thread (m ∷ ms) l =
    log_errors-is_async thread ms (log thread error m l) ∙ log-is_async thread error m l

-- The thread that writes the log could not open the file before `main` was in its loop.
abbrev pub cannot_open : Opening → Bool
cannot_open (before_line (fails err)) = true
cannot_open (after_line (fails err)) = true
cannot_open _ = false

-- Which loggers write to the log file: the flag turns on that of echoserver.cpp alone, and only as long
-- as the file can be opened. One that was on before has its thread already.
abbrev pub is_on : Bool → Bool → Opening → Bool
is_on true flag o = true
is_on false flag o = flag && not (cannot_open o)

pub record Asynchronous (flag : Bool) (o : Opening) (before after : Loggers) : Type 0 where
  pub echoserver : after.echoserver.is_async ≡ is_on before.echoserver.is_async flag o
  pub eventloop : after.eventloop.is_async ≡ before.eventloop.is_async
  pub acceptor : after.acceptor.is_async ≡ before.acceptor.is_async
  pub server : after.server.is_async ≡ before.server.is_async
  pub eventloopthreadpool : after.eventloopthreadpool.is_async ≡ before.eventloopthreadpool.is_async
  pub eventloopthread : after.eventloopthread.is_async ≡ before.eventloopthread.is_async

Asynchronous-Unchanged :
    {flag : Bool} {o : Opening} {before now after : Loggers}
    → Asynchronous flag o before now
    → Unchanged now after
    → Asynchronous flag o before after
Asynchronous-Unchanged p q = record {
  echoserver = q.echoserver ∙ p.echoserver;
  eventloop = q.eventloop ∙ p.eventloop;
  acceptor = q.acceptor ∙ p.acceptor;
  server = q.server ∙ p.server;
  eventloopthreadpool = q.eventloopthreadpool ∙ p.eventloopthreadpool;
  eventloopthread = q.eventloopthread ∙ p.eventloopthread;
}

-- What the next calls of NextEventLoop return: the loop of each thread, in turn; without threads, the main
-- reactor.
unfoldable pub Spreads : ℕ → (ℕ → ℕ) → ℕ → ThreadPool ℕ → Type 0
Spreads main_reactor started zero pool = next_event_loop pool ≡ some (main_reactor, pool)
Spreads main_reactor started (suc n) pool =
    next_event_loops (suc n) pool ≡ some (threads started 0 (suc n), pool)

-- The pool of `n` threads.
pub record Serving (main_reactor : ℕ) (started : ℕ → ℕ) (n : ℕ) (pool : ThreadPool ℕ) : Type 0 where
  pub is_running : pool ≡ running main_reactor started n
  pub spread : Spreads main_reactor started n pool

running-Spreads :
    (main_reactor : ℕ) (started : ℕ → ℕ) (n : ℕ)
    → Spreads main_reactor started n (running main_reactor started n)
unfolding Spreads next_event_loop start start_threads set_thread_nums init
running-Spreads main_reactor started zero = refl
running-Spreads main_reactor started (suc n) = next_event_loops-running main_reactor started n

running-Serving :
    (main_reactor : ℕ) (started : ℕ → ℕ) (n : ℕ)
    → Serving main_reactor started n (running main_reactor started n)
running-Serving main_reactor started n = record {
  is_running = refl;
  spread = running-Spreads main_reactor started n;
}

module _ (loop_replies : LoopReplies) (main_reactor : ℕ) (writer : WriterReplies)
    (threads : ℕ → ThreadReplies) (started : ℕ → ℕ) where
  -- For the answers to the acceptor's calls, the number of threads and the flag of the logger.
  unfoldable pub Launched : Replies → ℕ → Bool → Loggers → Outcome Loggers EchoServer → Type 0
  Launched r n flag ls (returns e after) =
      (eventfd fd : ℕ) × (loop_replies.eventfd ≡ succeeds eventfd)
      × (r.socket ≡ succeeds fd)
      × (r.setsockopt ≡ succeeds tt)
      × IsReady r.ctl_ok fd e.acceptor
      × Serving main_reactor started n e.server.thread_pool
      × Asynchronous flag writer.opening ls after
  Launched r n flag ls (terminates after) =
      ((flag ≡ true) × (writer.made ≡ false))
      ⊎ (Fails loop_replies.eventfd
          ⊎ (Fails r.socket ⊎ (Fails r.setsockopt ⊎ ((i : ℕ) × (i < n) × Lost (threads i)))))
  Launched r n flag ls asserts = ⊥

  module _ (number : ℕ → String) (thread : ℕ) (r : Replies) (n : ℕ) (flag : Bool)
      (ls : Loggers) where
    abbrev pub new_server : Reactor ServerParts.Task → Acceptor → EchoServer
    new_server reactor acceptor = record {
      reactor = reactor;
      acceptor = acceptor;
      server = ServerParts.init (init main_reactor);
    }

    -- Behind the constructor of EchoServer.
    by_start :
        (reactor : Reactor ServerParts.Task) (acceptor : Acceptor) (eventfd fd : ℕ) (now : Loggers)
        → loop_replies.eventfd ≡ succeeds eventfd
        → r.socket ≡ succeeds fd
        → r.setsockopt ≡ succeeds tt
        → IsReady r.ctl_ok fd acceptor
        → Asynchronous flag writer.opening ls now
        → (o : Outcome Loggers EchoServer)
        → StartEnd number threads started thread
            (set_server_threads n (new_server reactor acceptor))
            now
            o
        → Launched r n flag ls o
    unfolding Launched StartEnd ServerParts.init set_thread_nums
    by_start reactor acceptor eventfd fd now loop socket reuse ready a (returns e after) (same, u) =
        (
          eventfd,
          fd,
          loop,
          socket,
          reuse,
          subst (λ e. IsReady r.ctl_ok fd e.acceptor) (sym same) ready,
          subst (λ e. Serving main_reactor started n e.server.thread_pool) (sym same)
              (running-Serving main_reactor started n),
          Asynchronous-Unchanged a u,
        )
    by_start reactor acceptor eventfd fd now loop socket reuse ready a (terminates k)
          (i, below, lost) =
        inr (inr (inr (inr (i, below, lost))))
    by_start reactor acceptor eventfd fd now loop socket reuse ready a asserts c = c

    -- Behind the acceptor, for the way in which its constructor ends.
    pub by_acceptor :
        (reactor : Reactor ServerParts.Task) (eventfd : ℕ) (now : Loggers)
        → loop_replies.eventfd ≡ succeeds eventfd
        → Asynchronous flag writer.opening ls now
        → (o : Outcome Logger Acceptor) → Constructed thread r now.acceptor o
        → Launched r n flag ls (
            ((in_acceptor (λ _. o) >>= λ acceptor. pure (new_server reactor acceptor)) >>= λ e.
            start_server number threads started thread (set_server_threads n e))
              now)
    unfolding Launched Constructed
    by_acceptor reactor eventfd now loop a (returns acceptor k) (fd, socket, reuse, ready, lines) =
        by_start reactor acceptor eventfd fd _ loop socket reuse ready
          (record {
            echoserver = a.echoserver;
            eventloop = a.eventloop;
            acceptor =
                ap (λ l. l.is_async) lines ∙ log_errors-is_async thread _ now.acceptor ∙ a.acceptor;
            server = a.server;
            eventloopthreadpool = a.eventloopthreadpool;
            eventloopthread = a.eventloopthread;
          })
          _
          (start_server_ends number threads started thread
            (set_server_threads n (new_server reactor acceptor)) (record now { acceptor = k }))
    by_acceptor reactor eventfd now loop a (terminates k) (err, what, inl socket, lines) =
        inr (inr (inl (err, socket)))
    by_acceptor reactor eventfd now loop a (terminates k) (err, what, inr reuse, lines) =
        inr (inr (inr (inl (err, reuse))))
    by_acceptor reactor eventfd now loop a asserts c = c
