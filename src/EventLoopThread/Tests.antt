-- ===== src/EventLoopThread/Tests.antt =====
-- `Start` goes to sleep, and then the new thread makes and stores its loop, with eventfd 5.
use Prim.Native.String.{String}
use epoll_server.Base.{ℕ, ◌≡◌, ◌≢◌, refl, true, some}
use epoll_server.Channel.State as ChannelState
use epoll_server.Channel.Enable.{enable_read}
use epoll_server.Logger
use epoll_server.Logger.Process.{succeeds, fails}
use epoll_server.EventLoop
use epoll_server.Epoller
use epoll_server.EventLoop.Setup.{Reactor, LoopReplies, construct, with_eventfd}
use epoll_server.EventLoopThread.{
  EventLoopThread, Loggers, init, check, log_in_thread, make_loop, make_loops, build, publish,
  sleeping, returned, built, terminated, Reach, here, next, checks, builds, publishes,
}
use epoll_server.EventLoopThread.Handshake.{IsSafe, made}
use epoll_server.EventLoopThread.Ending.{Ended, Reach-check, Reach-Ended}

abbrev decimal : ℕ → String
decimal n = "7"

abbrev first : LoopReplies
first = record { epoll_create = some 8; eventfd = succeeds 4; ctl_ok = true; tid = 0; tied = true }

abbrev second : LoopReplies
second = record { epoll_create = some 8; eventfd = succeeds 5; ctl_ok = true; tid = 0; tied = true }

abbrev no_descriptor : LoopReplies
no_descriptor = record {
  epoll_create = some 8;
  eventfd = fails "Too many open files";
  ctl_ok = true;
  tid = 0;
  tied = true;
}

abbrev fresh : Loggers
fresh = record { eventloopthread = Logger.init; eventloop = Logger.init }

abbrev asleep : EventLoopThread ℕ
asleep = check (init fresh)

trace : Reach decimal 7 first second (init {A = ℕ} fresh) (build decimal 7 first second asleep)
unfolding init check
trace = next (next here (checks refl refl)) (builds refl)

Reach-Ended_example :
    IsSafe (made first second) (build decimal 7 first second asleep)
    × (u : EventLoopThread ℕ) × Reach decimal 7 first second (build decimal 7 first second asleep) u
    × Ended (made first second) u
Reach-Ended_example = Reach-Ended decimal 7 first second fresh trace

abbrev loop : Reactor ℕ
loop = record {
  loop = EventLoop.init 0;
  epoller = Epoller.construct (some 8);
  wakeup_event_fd = 5;
  wakeup_channel = enable_read true (ChannelState.init 5 true);
}

loop_is_built : (build decimal 7 first second asleep).runner ≡ built loop
unfolding build make_loops make_loop log_in_thread construct with_eventfd
loop_is_built = refl

loop_returned :
    let t : EventLoopThread ℕ = publish loop (build decimal 7 first second asleep) in
    (t.starter ≢ sleeping) × ((check t).starter ≡ returned loop)
unfolding publish
loop_returned =
    Reach-check decimal 7 first second fresh loop (next trace (publishes loop loop_is_built)) refl

-- Without a descriptor for the first loop, the process ends, and `Start` has not returned.
no_loop : (build decimal 7 no_descriptor second asleep).runner ≡ terminated
unfolding build make_loops make_loop log_in_thread construct with_eventfd
no_loop = refl
