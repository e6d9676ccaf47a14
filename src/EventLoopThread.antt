-- ===== src/EventLoopThread.antt =====
-- eventloopthread.h and eventloopthread.cpp: `ThreadRunFunc`, and how `Start` waits for its loop.
-- A pointer to an event loop is the loop as it was made. A step is what a thread does while it holds the
-- mutex, or all that it does between two holds of it. The loop's own `Start` never returns, so that the
-- code behind it in `ThreadRunFunc` is not reached. `A` is the type of the functions of a loop.
pub mod Handshake
pub mod Ending
mod Tests
use Prim.Native.String.{String}
use Prim.Native.String as Text
use epoll_server.Base.{ℕ, ◌≡◌, Bool, true, false, Option, none, some}
use epoll_server.Logger.{Logger}
use epoll_server.Logger.Process.{
  Outcome, returns, terminates, asserts, M, ◌>>=◌, ◌>>◌, line, log_info, in_file,
}
use epoll_server.EventLoop.Setup.{Reactor, LoopReplies, construct}

-- Where `Start` stands: about to test `event_loop`, in `cv.wait`, or back with a loop.
pub data Starter (A : Type 0) : Type 0 where
  checking sleeping : Starter A
  returned : Reactor A → Starter A

-- Where `ThreadRunFunc` stands: at its start, with its two loops made, behind the store of the second,
-- in that loop, or ended by `std::terminate`, and the process with it.
pub data Runner (A : Type 0) : Type 0 where
  starting terminated : Runner A
  built stored looping : Reactor A → Runner A

-- logger.h gives every source file a logger of its own.
pub record Loggers : Type 0 where
  pub eventloopthread : Logger
  pub eventloop : Logger

pub record EventLoopThread (A : Type 0) : Type 0 where
  pub event_loop : Option (Reactor A)
  pub starter : Starter A
  pub runner : Runner A
  pub loggers : Loggers

module _ {A : Type 0} where
  -- The constructor, and the start of the thread in `Start`.
  unfoldable pub init : Loggers → EventLoopThread A
  init loggers = record {
    event_loop = none;
    starter = checking;
    runner = starting;
    loggers = loggers;
  }

  -- The condition of the `while` in `Start`, and what follows it.
  abbrev pub tested : Option (Reactor A) → Starter A
  tested none = sleeping
  tested (some loop) = returned loop

  unfoldable pub check : EventLoopThread A → EventLoopThread A
  check t = record t { starter = tested t.event_loop }

  abbrev pub notified : Starter A → Starter A
  notified sleeping = checking
  notified checking = checking
  notified (returned loop) = returned loop

  -- `ThreadRunFunc` stores its loop and calls `notify_one`.
  unfoldable pub publish : Reactor A → EventLoopThread A → EventLoopThread A
  publish loop t = record t {
    event_loop = some loop;
    starter = notified t.starter;
    runner = stored loop;
  }

  abbrev pub after_loops : Outcome Loggers (Reactor A) → EventLoopThread A → EventLoopThread A
  after_loops (returns loop ls) t = record t { runner = built loop; loggers = ls }
  after_loops (terminates ls) t = record t { runner = terminated; loggers = ls }
  after_loops asserts t = record t { runner = terminated }

  abbrev pub after_log :
      Reactor A → Outcome Loggers (Unit {0}) → EventLoopThread A → EventLoopThread A
  after_log loop (returns _ ls) t = record t { runner = looping loop; loggers = ls }
  after_log loop (terminates ls) t = record t { runner = terminated; loggers = ls }
  after_log loop asserts t = record t { runner = terminated }

  abbrev pub is_alive : Runner A → Bool
  is_alive terminated = false
  is_alive _ = true

module _ {A : Type 0} (thread : ℕ) where
  unfoldable pub make_loop : LoopReplies → M Loggers (Reactor A)
  make_loop replies =
      in_file (λ ls. ls.eventloop) (λ l ls. record ls { eventloop = l }) (construct thread replies)

-- `number` is how `<<` prints a number, and `thread` what `gettid` answers on the new thread.
module _ (number : ℕ → String) (thread : ℕ) where
  abbrev pub starting_text : String
  starting_text = Text.◌++◌ "Event Loop Thead[" (Text.◌++◌ (number thread) "] starting...")

  -- The stream still holds the first text when the second is put into it.
  abbrev pub ready_text : String
  ready_text =
      Text.◌++◌ starting_text
        (Text.◌++◌ "Event Loop Thead[" (Text.◌++◌ (number thread) "] start succ"))

  unfoldable pub log_in_thread : String → M Loggers (Unit {0})
  unfolding log_info
  log_in_thread text =
      in_file (λ ls. ls.eventloopthread) (λ l ls. record ls { eventloopthread = l })
        (log_info thread (line "EventLoopThread::ThreadRunFunc" "" text))

  module _ {A : Type 0} where
    -- Two loops are made; the first is not used.
    unfoldable pub make_loops : LoopReplies → LoopReplies → M Loggers (Reactor A)
    unfolding log_in_thread make_loop
    make_loops first second = do
      log_in_thread starting_text
      loop1 ← make_loop {A = A} thread first
      make_loop thread second

    -- `ThreadRunFunc` up to the mutex.
    unfoldable pub build : LoopReplies → LoopReplies → EventLoopThread A → EventLoopThread A
    unfolding make_loops
    build first second t = after_loops (make_loops first second t.loggers) t

    -- `ThreadRunFunc` behind the mutex, up to the loop.
    unfoldable pub announce : Reactor A → EventLoopThread A → EventLoopThread A
    unfolding log_in_thread
    announce loop t = after_log loop (log_in_thread ready_text t.loggers) t

    -- A step of `Start` (`wait` may return without a notification) or of `ThreadRunFunc`.
    pub data Step (first second : LoopReplies) (t : EventLoopThread A)
        : EventLoopThread A → Type 0 where
      checks : is_alive t.runner ≡ true → t.starter ≡ checking → Step first second t (check t)
      wakes :
          is_alive t.runner ≡ true
          → t.starter ≡ sleeping
          → Step first second t (record t { starter = checking })
      builds : t.runner ≡ starting → Step first second t (build first second t)
      publishes : (loop : Reactor A) → t.runner ≡ built loop → Step first second t (publish loop t)
      announces :
          (loop : Reactor A) → t.runner ≡ stored loop → Step first second t (announce loop t)

    pub data Reach (first second : LoopReplies) (t : EventLoopThread A)
        : EventLoopThread A → Type 0 where
      here : Reach first second t t
      next :
          {u v : EventLoopThread A}
          → Reach first second t u
          → Step first second u v
          → Reach first second t v
