-- ===== src/Logger.antt =====
-- logger.h and logger.cpp: what is logged, where it goes, and the thread that writes the log file.
-- A line is kept as its parts; the text around them is the same in every line.
pub mod Order
pub mod Process
pub mod Failure
pub mod Life
pub mod Calls
pub mod Written
mod Tests
use Prim.Native.String.{String}
use epoll_server.Base.{
  ℕ, zero, suc, Bool, true, false, not, ◌&&◌, Option, none, some, List, [], ◌∷◌, ◌++◌, ltb,
  if◌then◌else◌,
}

pub data LogLevel : Type 0 where
  debug info error fatal : LogLevel

abbrev pub level_number : LogLevel → ℕ
level_number debug = 0
level_number info = 1
level_number error = 2
level_number fatal = 3

-- _LOG_LEVEL, LOG_INFO
abbrev pub log_level : ℕ
log_level = 1

-- `getLogLevelName`
abbrev pub get_log_level_name : LogLevel → String
get_log_level_name debug = "DEBUG"
get_log_level_name info = "INFO"
get_log_level_name error = "ERROR"
get_log_level_name fatal = "ERROR"

pub record Message : Type 0 where
  pub name : String
  pub err : String
  pub message : String

-- The lines on the console have the thread's id.
pub record Line : Type 0 where
  pub level : String
  pub thread : Option ℕ
  pub text : Message

-- `LoggerInner`, with the lines that it has printed.
pub record Logger : Type 0 where
  pub is_async : Bool
  pub buffer : List Line
  pub is_print_cout : Bool
  pub async_thread_failed : Bool
  pub cout : List Line

unfoldable pub init : Logger
init = record {
  is_async = false;
  buffer = [];
  is_print_cout = true;
  async_thread_failed = false;
  cout = [];
}

unfoldable pub print_line : ℕ → LogLevel → Message → Logger → Logger
print_line thread level m l =
    let line : Line = record { level = get_log_level_name level; thread = some thread; text = m } in
    if l.is_print_cout then record l { cout = l.cout ++ (line ∷ []) } else l

abbrev pub file_line : LogLevel → Message → Line
file_line level m = record { level = get_log_level_name level; thread = none; text = m }

unfoldable pub push_line : LogLevel → Message → Logger → Logger
push_line level m l =
    if l.is_async && not l.async_thread_failed
    then record l { buffer = l.buffer ++ (file_line level m ∷ []) }
    else l

abbrev pub is_below : LogLevel → Bool
is_below level = ltb (level_number level) log_level

unfoldable pub log : ℕ → LogLevel → Message → Logger → Logger
unfolding print_line push_line
log thread level m l = if is_below level then l else push_line level m (print_line thread level m l)

-- The Boolean is whether the writing thread is started.
unfoldable pub start_aasync : Logger → Logger × Bool
start_aasync l = if l.is_async then (l, false) else (record l { is_async = true }, true)

-- The beginning of `AsyncThreadFunc`: whether the file could be opened.
unfoldable pub open_target : ℕ → Message → Message → Bool → Logger → Logger
unfolding log
open_target thread running failed true l = log thread info running l
open_target thread running failed false l =
    record (log thread error failed (record l { is_async = false })) { async_thread_failed = true }

-- The log file: its lines, and whether the stream has failed.
pub record Target : Type 0 where
  pub lines : List Line
  pub failed : Bool

-- `takes lines line` is whether the file, with these lines in it, takes one more.
module _ (takes : List Line → Line → Bool) where
  unfoldable pub write_line : Line → Target → Target
  write_line line t =
      if takes t.lines line
      then record t { lines = t.lines ++ (line ∷ []) }
      else record t { failed = true }

  -- The loop over the lines: a stream that has failed is left alone.
  unfoldable pub write_lines : ℕ → Target → List Line → Target × List Line
  unfolding write_line
  write_lines zero t b = (t, b)
  write_lines (suc n) t [] = (t, [])
  write_lines (suc n) t (line ∷ b) =
      let (u, c) = if t.failed then (t, line ∷ b) else (write_line line t, b) in write_lines n u c

  -- One round of the writing thread, with `max_size` lines at most.
  unfoldable pub write_batch : ℕ → Logger × Target → Logger × Target
  unfolding write_lines
  write_batch max_size (l, t) =
      let (u, b) = write_lines max_size t l.buffer in (record l { buffer = b }, u)
