-- ===== src/Logger/Tests.antt =====
-- A line below the level, two above it, and a round for one line.
use epoll_server.Base.{some, none, ◌≡◌, refl, true, false, List, [], ◌∷◌, ◌++◌}
use epoll_server.Logger.Life.{
  Life, begin, start, log_line, open_file, opening, returned, Reach, here, next, starts, opens,
  logs,
}
use epoll_server.Logger.Written.{Stage, Reach-Written}
use epoll_server.Logger.{start_aasync, init, debug, info, error, Message, Logger, Target}
use epoll_server.Logger.Failure.{OnFile, run-OnFile}
use epoll_server.Logger.Order.{Event, logged, round, accepted, run, lines_of, run-lines_of}

abbrev text : Message
text = record { name = "n"; err = ""; message = "m" }

abbrev writing : Logger
writing = record {
  is_async = true;
  buffer = [];
  is_print_cout = true;
  async_thread_failed = false;
  cout = [];
}

abbrev empty_file : Target
empty_file = record { lines = []; failed = false }

abbrev events : List Event
events = logged 1 debug text ∷ logged 1 info text ∷ logged 2 error text ∷ round 1 ∷ []

-- Without a failure the line on the info level is in the file, and the error still waits.
all_lines :
    lines_of (run (λ ls x. true) events (writing, empty_file))
    ≡ lines_of (writing, empty_file) ++ accepted events
all_lines =
    run-lines_of (λ ls x. true) (λ ls x. refl) events writing empty_file
      (record { on = refl; thread = refl; file = refl })

-- A file that has room for no line.
full_file :
    OnFile
      (λ ls x. false)
      (lines_of (writing, empty_file) ++ accepted events)
      (run (λ ls x. false) events (writing, empty_file)).1
      (run (λ ls x. false) events (writing, empty_file)).0.buffer
full_file =
    run-OnFile (λ ls x. false) events writing empty_file
      (record { on = refl; thread = refl; file = refl })

-- The directory of the log file does not exist, and a line is logged later.
abbrev started : Life
started = record { logger = (start_aasync init).0; async_thread = opening; since = some [] }

abbrev not_opened : Life
not_opened = log_line 1 info text (open_file 2 "No such file or directory" false started)

not_opened-Reach : Reach (λ ls x. true) begin not_opened
unfolding begin start init
not_opened-Reach =
    next (next (next here (starts refl)) (opens 2 "No such file or directory" false refl))
      (logs 1 info text)

Reach-Written_example :
    Stage (λ ls x. true) returned not_opened.logger not_opened.since × (start not_opened ≡ none)
unfolding log_line open_file
Reach-Written_example = Reach-Written (λ ls x. true) not_opened-Reach
