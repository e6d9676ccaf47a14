-- ===== src/Echo/Launch.antt =====
-- What `main` of the echo server comes to, whatever the command line says and the system calls answer.
use Prim.Native.String.{String}
use epoll_server.Base.{ℕ, ◌≡◌, inl, inr, refl, ◌∙◌, Bool, List, List}
use epoll_server.Base.{List, if◌then◌else◌}
use epoll_server.Config.{Config, parse_arg}
use epoll_server.Base.{false, true}
use epoll_server.Config.LastWins.{last_arg, setting, text, parse_arg_lem}
use epoll_server.Config.{any_address}
use epoll_server.Config as ConfigParts
use epoll_server.Logger.{start_aasync}
use epoll_server.Logger.Process.{Reply, fails, log_fatal}
use epoll_server.EventLoop.Setup.{with_eventfd}
use epoll_server.EventLoop.Setup as Setup
use epoll_server.Echo.Main.{in_eventloop, start_logger, echo_server, main}
use epoll_server.Acceptor.Ready.{construct-Constructed}
use epoll_server.Logger.{error, Logger, info}
use epoll_server.Logger.Process.{Outcome, returns, ◌>>=◌, succeeds, fails, log_info}
use epoll_server.EventLoop.Setup.{LoopReplies, Reactor}
use epoll_server.Acceptor.{Replies}
use epoll_server.ThreadPool.Started.{threads}
use epoll_server.Echo.Main.{Loggers, in_eventloop, EchoServer, set_server_threads, start_server}
use epoll_server.Echo.Main.{
  ThreadReplies, WriterReplies, Opening, before_line, after_line, later, open_log, open_before,
  open_after, make_writer, in_echoserver,
}
use epoll_server.Logger.Process.{M, line, ◌>>◌}
use epoll_server.Logger.{open_target}
use epoll_server.Echo.Pool.{log-is_async}
use epoll_server.Base.{not}
use epoll_server.Echo.Launched.{cannot_open, is_on, Asynchronous, Launched, by_acceptor}

module _ {I : Type 0} (rounds : I → ℕ) (is_set : I → Bool) (line_of : Config I → String)
    (atoi : List ℕ → I) (loop_replies : LoopReplies) (socket_replies : List ℕ → I → Replies)
    (main_reactor : ℕ) (number : ℕ → String) (threads : ℕ → ThreadReplies) (started : ℕ → ℕ)
    (thread : ℕ) where
  abbrev LaunchedWith : WriterReplies → Config I → Loggers → Outcome Loggers EchoServer → Type 0
  LaunchedWith writer c ls =
      Launched loop_replies main_reactor writer threads started (socket_replies c.addr c.port)
        (rounds c.thread_num) (is_set c.is_async_logger) ls

  -- `main` behind its line and the opening of the log.
  abbrev rest_of_main : Config I → M Loggers EchoServer
  rest_of_main c = in_eventloop (Setup.construct thread loop_replies) >>= λ reactor.
      echo_server thread main_reactor socket_replies reactor c >>= λ server.
      start_server number threads started thread (set_server_threads (rounds c.thread_num) server)

  -- For the answer of `eventfd`.
  by_eventfd :
      (writer : WriterReplies) (c : Config I) (ls now : Loggers)
      → Asynchronous (is_set c.is_async_logger) writer.opening ls now
      → (eventfd : Reply ℕ) → loop_replies.eventfd ≡ eventfd
      → LaunchedWith writer c ls (
          (in_eventloop (with_eventfd thread eventfd loop_replies) >>= λ reactor.
          echo_server thread main_reactor socket_replies reactor c >>= λ server.
          start_server number threads started thread
            (set_server_threads (rounds c.thread_num) server))
            now)
  unfolding Launched with_eventfd echo_server log_fatal
  by_eventfd writer c ls now a (fails err) e = inr (inl (err, e))
  by_eventfd writer c ls now a (succeeds fd) e =
      by_acceptor loop_replies main_reactor writer threads started number thread
        (socket_replies c.addr c.port) (rounds c.thread_num) (is_set c.is_async_logger) ls _ fd now
        e a _ (construct-Constructed thread now.acceptor (socket_replies c.addr c.port))

  -- The logger of echoserver.cpp is `l` when `main` comes to the constructor of EventLoop.
  by_logger :
      (writer : WriterReplies) (c : Config I) (ls : Loggers) (l : Logger)
      → l.is_async ≡ is_on ls.echoserver.is_async (is_set c.is_async_logger) writer.opening
      → LaunchedWith writer c ls (rest_of_main c (record ls { echoserver = l }))
  unfolding Setup.construct
  by_logger writer c ls l on =
      by_eventfd writer c ls (record ls { echoserver = l })
        (record {
          echoserver = on;
          eventloop = refl;
          acceptor = refl;
          server = refl;
          eventloopthreadpool = refl;
          eventloopthread = refl;
        })
        loop_replies.eventfd refl

  open_log-is_async :
      (w : ℕ) (l : Logger)
      → ((open_log w (succeeds tt) l).is_async ≡ l.is_async)
        × ((err : String) → (open_log w (fails err) l).is_async ≡ false)
  unfolding open_target
  open_log-is_async w l = (log-is_async w info _ l, λ err. log-is_async w error _ _)

  abbrev line_and_rest : ℕ → Bool → Opening → Config I → M Loggers EchoServer
  line_and_rest w writes o c =
      in_echoserver (open_before w writes o)
      >> (in_echoserver (log_info thread (line "main" "" (line_of c)))
          >> (in_echoserver (open_after w writes o) >> rest_of_main c))

  -- No thread has been started to write the log.
  by_silence :
      (writer : WriterReplies) (c : Config I) (ls : Loggers)
      → ls.echoserver.is_async
        ≡ is_on ls.echoserver.is_async (is_set c.is_async_logger) writer.opening
      → LaunchedWith writer c ls (line_and_rest writer.thread false writer.opening c ls)
  unfolding log_info
  by_silence writer c ls on =
      by_logger writer c ls _ (log-is_async thread info _ ls.echoserver ∙ on)

  -- One has been started, and opens the file at one of the three times.
  by_opening :
      (made : Bool) (w : ℕ) (o : Opening) (c : Config I) (ls : Loggers) (l : Logger)
      → l.is_async ≡ true
      → ls.echoserver.is_async ≡ false
      → is_set c.is_async_logger ≡ true
      → LaunchedWith
          (record { made = made; thread = w; opening = o })
          c
          ls
          (line_and_rest w true o c (record ls { echoserver = l }))
  unfolding log_info
  by_opening made w o c ls l on off flag = by_time o
    where
      writer : Opening → WriterReplies
      writer o = record { made = made; thread = w; opening = o }

      expected :
          (o : Opening)
          → not (cannot_open o) ≡ is_on ls.echoserver.is_async (is_set c.is_async_logger) o
      expected o = rw (off, flag) refl

      by_time :
          (o : Opening)
          → LaunchedWith (writer o) c ls (line_and_rest w true o c (record ls { echoserver = l }))
      by_time (before_line (succeeds u)) = by_logger (writer (before_line (succeeds u))) c ls _ (
          log-is_async thread info _ _
          ∙ (open_log-is_async w l).0
          ∙ on
          ∙ expected (before_line (succeeds u)))
      by_time (before_line (fails err)) = by_logger (writer (before_line (fails err))) c ls _ (
          log-is_async thread info _ _
          ∙ (open_log-is_async w l).1 err
          ∙ expected (before_line (fails err)))
      by_time (after_line (succeeds u)) = by_logger (writer (after_line (succeeds u))) c ls _ (
          (open_log-is_async w _).0
          ∙ log-is_async thread info _ l
          ∙ on
          ∙ expected (after_line (succeeds u)))
      by_time (after_line (fails err)) =
          by_logger (writer (after_line (fails err))) c ls _
            ((open_log-is_async w _).1 err ∙ expected (after_line (fails err)))
      by_time later =
          by_logger (writer later) c ls _ (log-is_async thread info _ l ∙ on ∙ expected later)

  -- What StartAasync does when it is called.
  by_start_aasync :
      (made : Bool) (w : ℕ) (o : Opening) (c : Config I) (ls : Loggers)
      → is_set c.is_async_logger ≡ true
      → (d : Bool) → ls.echoserver.is_async ≡ d
      → LaunchedWith
          (record { made = made; thread = w; opening = o })
          c
          ls
          ((in_echoserver (λ l.
                make_writer made (if d then (l, false) else (record l { is_async = true }, true)))
              >>= λ writes. line_and_rest w writes o c)
            ls)
  unfolding Launched
  by_start_aasync made w o c ls flag true on =
      by_silence (record { made = made; thread = w; opening = o }) c ls (rw on refl)
  by_start_aasync true w o c ls flag false off = by_opening true w o c ls _ refl off flag
  by_start_aasync false w o c ls flag false off = inl (flag, refl)

  by_flag :
      (made : Bool) (w : ℕ) (o : Opening) (c : Config I) (ls : Loggers)
      → (b : Bool) → is_set c.is_async_logger ≡ b
      → LaunchedWith
          (record { made = made; thread = w; opening = o })
          c
          ls
          ((in_echoserver (λ l. if b then make_writer made (start_aasync l) else returns false l)
              >>= λ writes. line_and_rest w writes o c)
            ls)
  unfolding start_aasync
  by_flag made w o c ls true flag = by_start_aasync made w o c ls flag ls.echoserver.is_async refl
  by_flag made w o c ls false flag =
      by_silence (record { made = made; thread = w; opening = o }) c ls
        (rw flag (unasked ls.echoserver.is_async o))
    where
      unasked : (d : Bool) (o : Opening) → d ≡ is_on d false o
      unasked true o = refl
      unasked false o = refl

  main_config :
      (writer : WriterReplies) (default_port zero_int cores : I) (args : List (ℕ × List ℕ))
      (ls : Loggers)
      → LaunchedWith writer
          (parse_arg atoi args (ConfigParts.init default_port zero_int cores))
          ls
          (main rounds is_set line_of atoi loop_replies socket_replies main_reactor writer number
            threads started thread default_port zero_int cores args ls)
  unfolding main start_logger
  main_config writer default_port zero_int cores args ls =
      let c : Config I = parse_arg atoi args (ConfigParts.init default_port zero_int cores) in
      by_flag writer.made writer.thread writer.opening c ls (is_set c.is_async_logger) refl

  -- Whatever the command line says and the system calls answer, `main` ends before the loop of the main
  -- reactor only by Fatal or by an exception of std::thread, and only if eventfd, socket or setsockopt
  -- fails, if the thread that writes the log is asked for and cannot be made, or if a thread of the pool
  -- cannot be made or one of its two loops gets no eventfd; no assertion fails. Else it comes to that loop,
  -- also if bind or listen has failed, with an acceptor whose channel is that of the listening socket and
  -- listens for new connections. The pool is the one of as many threads as the last `-t` says (or the
  -- default, if there is none): every as many calls of NextEventLoop return the loop of each thread once,
  -- and without threads a call returns the main reactor. And asynchronous logging is on for the logger of
  -- echoserver.cpp if it was on before, or if the last `-a` is not 0 and the thread that writes the log has
  -- not failed by then to open the file; the loggers of the other files are as they were.
  pub main-Launched :
      (writer : WriterReplies) (default_port zero_int cores : I) (args : List (ℕ × List ℕ))
      (ls : Loggers)
      → Launched loop_replies main_reactor writer threads started
          (socket_replies
            (setting text any_address (last_arg 108 args))
            (setting atoi default_port (last_arg 112 args)))
          (rounds (setting atoi cores (last_arg 116 args)))
          (is_set (setting atoi zero_int (last_arg 97 args)))
          ls
          (main rounds is_set line_of atoi loop_replies socket_replies main_reactor writer number
            threads started thread default_port zero_int cores args ls)
  unfolding ConfigParts.init
  main-Launched writer default_port zero_int cores args ls =
      let (port, addr, threads, flag, file) =
        parse_arg_lem atoi args (ConfigParts.init default_port zero_int cores) in
      let h = main_config writer default_port zero_int cores args ls in
      rw (port, addr, threads, flag) at h
