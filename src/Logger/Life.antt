-- ===== src/Logger/Life.antt =====
-- The life of a logger: calls of `Log` and `StartAasync` from any thread, and the writing thread with
-- `AsyncThreadFunc`, one after the other in any order.
use Prim.Native.String.{String}
use epoll_server.Base.{
  ℕ, ◌≡◌, Bool, true, false, Option, none, some, List, [], ◌∷◌, ◌++◌, if◌then◌else◌,
}
use epoll_server.Logger.{
  LogLevel, info, error, Message, Line, Logger, Target, init, log, is_below, file_line,
  start_aasync, open_target, write_batch,
}
use epoll_server.Logger.Process.{line}

-- `async_thread`: not started, at the start of `AsyncThreadFunc`, in its loop, or behind its `return`.
pub data AsyncThread : Type 0 where
  unstarted opening returned : AsyncThread
  writing : Target → AsyncThread

-- `since` has the lines on the level and above that were logged after `StartAasync` was called first.
pub record Life : Type 0 where
  pub logger : Logger
  pub async_thread : AsyncThread
  pub since : Option (List Line)

unfoldable pub begin : Life
begin = record { logger = init; async_thread = unstarted; since = none }

-- A thread that has been started and not joined is joinable, also when its function has returned.
abbrev pub is_joinable : AsyncThread → Bool
is_joinable unstarted = false
is_joinable _ = true

-- The assignment to `async_thread`: `none` is `std::terminate`, which it calls if that is joinable.
abbrev pub start_thread : Life → Bool → Option Life
start_thread s true = none
start_thread s false =
    some (record s { logger = (start_aasync s.logger).0; async_thread = opening; since = some [] })

-- `StartAasync`
unfoldable pub start : Life → Option Life
start s = if s.logger.is_async then some s else start_thread s (is_joinable s.async_thread)

abbrev pub noted : LogLevel → Message → Option (List Line) → Option (List Line)
noted level m none = none
noted level m (some ls) = some (if is_below level then ls else ls ++ (file_line level m ∷ []))

unfoldable pub log_line : ℕ → LogLevel → Message → Life → Life
log_line thread level m s = record s {
  logger = log thread level m s.logger;
  since = noted level m s.since;
}

abbrev pub running : Message
running = line "LoggerInner::StartAasync" "" "async thread running"

abbrev pub start_failed : String → Message
start_failed err = line "LoggerInner::StartAasync" err "async thread start failed"

-- The beginning of `AsyncThreadFunc`, when the file is open (and empty) and when it is not: `err` is then
-- the text of `errno`. `thread` is the id of the writing thread.
unfoldable pub open_file : ℕ → String → Bool → Life → Life
open_file thread err true s = record {
  logger = open_target thread running (start_failed err) true s.logger;
  async_thread = writing (record { lines = []; failed = false });
  since = noted info running s.since;
}
open_file thread err false s = record {
  logger = open_target thread running (start_failed err) false s.logger;
  async_thread = returned;
  since = noted error (start_failed err) s.since;
}

-- `max_size`
abbrev pub max_size : ℕ
max_size = 10000

-- A round of the loop of `AsyncThreadFunc`.
unfoldable pub write_round : (List Line → Line → Bool) → Target → Life → Life
write_round takes t s =
    let (l, u) = write_batch takes max_size (s.logger, t) in
    record s { logger = l; async_thread = writing u }

pub data Step (takes : List Line → Line → Bool) (s : Life) : Life → Type 0 where
  logs : (thread : ℕ) (level : LogLevel) (m : Message) → Step takes s (log_line thread level m s)
  starts : {t : Life} → start s ≡ some t → Step takes s t
  opens :
      (thread : ℕ) (err : String) (ok : Bool)
      → s.async_thread ≡ opening
      → Step takes s (open_file thread err ok s)
  rounds : (t : Target) → s.async_thread ≡ writing t → Step takes s (write_round takes t s)

pub data Reach (takes : List Line → Line → Bool) (s : Life) : Life → Type 0 where
  here : Reach takes s s
  next : {t u : Life} → Reach takes s t → Step takes t u → Reach takes s u
