-- ===== src/Server/Tests.antt =====
-- A server with one thread, whose loop is number 1, and a connection that comes and goes.
use epoll_server.Base.{ℕ, ◌+◌, ◌≡◌, refl, true, none, some, [], ◌∷◌}
use epoll_server.ThreadPool.{ThreadPool, next_event_loop, loop_at}
use epoll_server.EventLoop.{EventLoop}
use epoll_server.EventLoop as Loop
use epoll_server.Connection.State.{invalid, Session}
use epoll_server.Server.{
  ConnRef, Task, close_in_loop, init, Setup, insert, erase, handle_new_connection,
  handle_close_in_loop, queue_destructor,
}
use epoll_server.Server.Lifecycle.{
  serving, closing, System, accepted, close_called, Reach, here, next, starting,
}
use epoll_server.Base.{false}
use epoll_server.Server.NewConnection.{IsOpen}
use epoll_server.Server.Accepting.{Accepting, accept_event, accept_event-IsOpen}
use epoll_server.Connection.State.{handle_close}
use epoll_server.Connection.Sample.{idle}
use epoll_server.Server as ServerParts
use epoll_server.Server.{Server}
use epoll_server.Server.Closing.{World, own, call, close, closes, runs}
use epoll_server.Server.Closing as ClosingParts
use epoll_server.Server.Closing.Stages.{Stage, Holds}
use epoll_server.Server.Closing.Stages as Stages
use epoll_server.Server.Closing.Run.{Ending, Reach-Ending}
use epoll_server.EventLoop.{queue_one_func, run_one_func}
use epoll_server.Base.{update}
use epoll_server.Server.Safety.{IsOwned, Reach-IsOwned, Reach-handle_close_in_loop}

abbrev one_thread : ThreadPool ℕ
one_thread = record {
  main_reactor = 0;
  sub_reactors = 1;
  event_loops = 1 ∷ [];
  thread_nums = 1;
  next = 0;
}

abbrev idle_loops : ℕ → EventLoop Task
idle_loops i = Loop.init (100 + i)

abbrev setup : Setup
setup = record { state = invalid; tied = true; et_ok = true; read_ok = true }

-- Descriptor 7, served by loop 1.
abbrev first : ConnRef
first = record { id = 1; client_fd = 7; event_loop = 1 }

abbrev after_close : System
after_close = record {
  server = record { thread_pool = one_thread; connections_map = insert 7 first (λ key. none) };
  loops = idle_loops;
  live = record { conn = first; phase = closing } ∷ [];
}

trace : Reach (starting one_thread idle_loops) after_close
unfolding handle_new_connection next_event_loop loop_at init
trace =
    next (next here (accepted setup none 1 7 tt refl))
      (close_called [] [] (record { conn = first; phase = serving }) refl refl)

Reach-IsOwned_example : IsOwned after_close
Reach-IsOwned_example = Reach-IsOwned one_thread idle_loops trace

Reach-handle_close_in_loop_example :
    (insert 7 first (λ key. none) 7 ≡ some first)
    × (handle_close_in_loop 100 first idle_loops after_close.server
        ≡ some (
          record (after_close.server) { connections_map = erase 7 (insert 7 first (λ key. none)) },
          queue_destructor 100 first idle_loops,
        ))
Reach-handle_close_in_loop_example =
    Reach-handle_close_in_loop one_thread idle_loops 100 [] []
      (record { conn = first; phase = closing }) trace refl refl

one_thread-next : next_event_loop one_thread ≡ some (1, one_thread)
unfolding next_event_loop loop_at
one_thread-next = refl

-- The acceptor's channel, ready for EPOLLIN.
abbrev ready_server : Accepting
unfolding init
ready_server = record {
  accept_channel = record {
    client_fd = 3;
    listening_events = 3;
    ready_events = 1;
    in_epoll = true;
    failed = false;
    tied = false;
  };
  server = init one_thread;
  made = [];
}

accept_event-IsOpen_example :
    (accept_event setup (some (λ s. s)) 1 none false true ready_server ≡ some ready_server)
    × ((t : Session) × (accept_event setup (some (λ s. s)) 1 (some 7) false true ready_server
          ≡ some (record ready_server {
            server = record {
              thread_pool = one_thread;
              connections_map = insert 7 first ready_server.server.connections_map;
            };
            made = (first, t) ∷ [];
          }))
        × IsOpen 7 t)
unfolding init
accept_event-IsOpen_example =
    accept_event-IsOpen setup (some (λ s. s)) 1 7 1 one_thread false true ready_server refl
      one_thread-next

-- The connection is open, and nothing waits in a loop.
abbrev open_world : World
open_world = record {
  server = after_close.server;
  loops = idle_loops;
  session = idle;
  destroyed = false;
}

open_world-Holds : Holds first 0 0 Stages.serving open_world
unfolding Loop.init insert own
open_world-Holds = record {
  waiting = λ i. refl;
  entry = refl;
  closed = (refl, refl, refl);
  destroyed = refl;
}

-- HandleClose on a thread that does not take itself for the main one, and then HandleCloseInLoop.
abbrev closed_world : World
closed_world = record open_world {
  loops = update idle_loops 0 (queue_one_func 101 (close_in_loop first) (idle_loops 0));
  session = handle_close idle;
}

close_trace : ClosingParts.Reach first 0 open_world closed_world
unfolding close ServerParts.handle_close run_one_func handle_close queue_one_func Loop.init update
close_trace = ClosingParts.next ClosingParts.here (closes 101 true refl)

run_trace : (w : World) × ClosingParts.Reach first 0 open_world w
unfolding call handle_close_in_loop queue_destructor queue_one_func handle_close Loop.init insert
    update
run_trace =
    (_, ClosingParts.next close_trace (runs 999 0 true [] [] (close_in_loop first) refl refl refl))

Reach-Ending_example : (p : Stage) × Holds first 0 0 p run_trace.0 × Ending first 0 0 p run_trace.0
Reach-Ending_example = Reach-Ending first 0 0 run_trace.1 open_world-Holds
