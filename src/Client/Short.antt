-- ===== src/Client/Short.antt =====
-- The threads of client.cpp side by side. A step is one access to what they share: the counters, which
-- are atomic, and `ms`, which is not: its `++` is a load and a store. What the system answers is the
-- choice of the step.
pub mod Accounts
pub mod Run
pub mod Alone
mod Tests
use epoll_server.Base.{
  ℕ, ◌+◌, ◌%◌, ◌<◌, ◌≤◌, ◌≡◌, Bool, true, false, Option, List, ◌∷◌, [], ◌++◌, ◌==◌, ◌&&◌,
  if◌then◌else◌, length,
}
use epoll_server.Client.Thread.{
  Client, Exchange, open_socket, close_socket, max_message_size, accepted, count_success,
  count_time, wrote_all, replied,
}
use epoll_server.Client.Report.{Report, report, no_requests}
use epoll_server.Client.Interleaved.{Threads}

-- REQUESTS_PER_THREAD of client.cpp
abbrev pub requests_per_thread : ℕ
requests_per_thread = 100

-- Where a thread stands in `client_thread`, with the rounds and the successes that it has behind it, its
-- socket and its MESSAGE_SIZE: at the loop's condition, with its MESSAGE_SIZE, with what `ms++` has
-- loaded, before it counts the request, before `socket`, before `connect`, before `write`, before it
-- counts the time, before it counts the success, before `close`, and at its end.
pub data Position : Type 0 where
  looping : ℕ → ℕ → Position
  sized : ℕ → ℕ → ℕ → Position
  loaded : ℕ → ℕ → ℕ → ℕ → Position
  packed : ℕ → ℕ → ℕ → Position
  counted : ℕ → ℕ → ℕ → Position
  connecting : ℕ → ℕ → ℕ → ℕ → Position
  exchanging : ℕ → ℕ → ℕ → ℕ → Position
  answered : ℕ → ℕ → ℕ → Position
  timed : ℕ → ℕ → ℕ → Position
  closing : ℕ → ℕ → ℕ → Position
  ended : ℕ → ℕ → Position

abbrev pub count_request : Client → Client
count_request c = record c { total_requests = c.total_requests + 1 }

pub data Move (generate : ℕ → List ℕ) (c : Client) : Position → Client → Position → Type 0 where
  sizes :
      (i done : ℕ)
      → i < requests_per_thread
      → Move generate c (looping i done) c (sized i done (c.ms % max_message_size))
  loads : (i done size : ℕ) → Move generate c (sized i done size) c (loaded i done size c.ms)
  stores :
      (i done size ms : ℕ)
      → Move generate c (loaded i done size ms) (record c { ms = ms + 1 }) (packed i done size)
  counts :
      (i done size : ℕ)
      → Move generate c (packed i done size) (count_request c) (counted i done size)
  no_socket : (i done size : ℕ) → Move generate c (counted i done size) c (looping (i + 1) done)
  gets_socket :
      (fd i done size : ℕ)
      → Move generate c (counted i done size) (open_socket fd c) (connecting fd i done size)
  -- `inet_pton` or `connect` fails.
  refused : (fd i done size : ℕ) → Move generate c (connecting fd i done size) c (closing fd i done)
  connects :
      (fd i done size : ℕ)
      → Move generate c (connecting fd i done size) c (exchanging fd i done size)
  breaks :
      (fd i done size : ℕ) (x : Exchange)
      → accepted generate size x ≡ false
      → Move generate c (exchanging fd i done size) c (closing fd i done)
  succeeds :
      (fd i done size : ℕ) (x : Exchange)
      → accepted generate size x ≡ true
      → Move generate c (exchanging fd i done size) c (answered fd i done)
  times :
      (fd i done time : ℕ)
      → Move generate c (answered fd i done) (count_time time c) (timed fd i done)
  scores :
      (fd i done : ℕ)
      → Move generate c (timed fd i done) (count_success c) (closing fd i (done + 1))
  closes :
      (fd i done : ℕ)
      → Move generate c (closing fd i done) (close_socket fd c) (looping (i + 1) done)
  ends : (i done : ℕ) → requests_per_thread ≤ i → Move generate c (looping i done) c (ended i done)

abbrev pub threads_start : Threads Client Position
threads_start = record { shared = no_requests; at = λ i. looping 0 0 }

-- `main` waits until all of its threads have ended.
abbrev pub is_ended : Position → Bool
is_ended (ended i done) = true
is_ended _ = false

unfoldable pub main : ℕ → Threads Client Position → Option Report
main total_time s = report total_time s.shared
