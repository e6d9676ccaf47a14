-- ===== src/Client/Long/Moves.antt =====
-- The threads of client_longconn.cpp side by side. A step is one access to what they share: the counters,
-- which are atomic, and `ms`, which is not: its `++` is a load and a store. What the system answers is
-- the choice of the step.
use epoll_server.Base.{ℕ, ◌+◌, Option, ◌%◌, ◌<◌, ◌≤◌, ◌≡◌, Bool, true, false, List, []}
use epoll_server.Client.{hash_vector}
use epoll_server.Client.Package.{Order, generate_random_package}
use epoll_server.Client.Thread.{
  accepted, count_success, count_time, Client, Exchange, open_socket, close_socket,
  long_max_message_size, requests_per_thread,
}
use epoll_server.Client.Report.{Report, report}
use epoll_server.Client.Interleaved.{Threads}

-- client_longconn.cpp has its own copies of `generateRandomPackage` and `hashVector`, the same as those of
-- client.cpp.
abbrev pub long_generate_random_package : Order → ℕ → Option (List ℕ)
long_generate_random_package order len = generate_random_package order len

abbrev pub long_hash_vector : List ℕ → ℕ
long_hash_vector input = hash_vector input

-- Where a thread stands in `client_thread`, with its socket and the exchanges that it has completed:
-- before it adds to `total_requests`, before `socket`, before `connect`, at the loop's condition, with
-- its MESSAGE_SIZE, with what `ms++` has loaded, before `write`, before `close`, and at its end.
pub data Position : Type 0 where
  starting counted : Position
  connecting : ℕ → Position
  looping : ℕ → ℕ → Position
  sized : ℕ → ℕ → ℕ → Position
  loaded : ℕ → ℕ → ℕ → ℕ → Position
  exchanging : ℕ → ℕ → ℕ → Position
  closing : ℕ → ℕ → Position
  ended : ℕ → Position

abbrev pub count_all : Client → Client
count_all c = record c { total_requests = c.total_requests + requests_per_thread }

pub data Move (generate : ℕ → List ℕ) (c : Client) : Position → Client → Position → Type 0 where
  counts : Move generate c starting (count_all c) counted
  no_socket : Move generate c counted c (ended 0)
  gets_socket : (fd : ℕ) → Move generate c counted (open_socket fd c) (connecting fd)
  -- `inet_pton` or `connect` fails.
  refused : (fd : ℕ) → Move generate c (connecting fd) c (closing fd 0)
  connects : (fd : ℕ) → Move generate c (connecting fd) c (looping fd 0)
  sizes :
      (fd done : ℕ)
      → done < requests_per_thread
      → Move generate c (looping fd done) c (sized fd done (c.ms % long_max_message_size))
  loads : (fd done size : ℕ) → Move generate c (sized fd done size) c (loaded fd done size c.ms)
  stores :
      (fd done size ms : ℕ)
      → Move generate c
          (loaded fd done size ms)
          (record c { ms = ms + 1 })
          (exchanging fd done size)
  succeeds :
      (fd done size : ℕ) (x : Exchange)
      → accepted generate size x ≡ true
      → Move generate c (exchanging fd done size) (count_success c) (looping fd (done + 1))
  breaks :
      (fd done size : ℕ) (x : Exchange)
      → accepted generate size x ≡ false
      → Move generate c (exchanging fd done size) c (closing fd done)
  finishes :
      (fd done time : ℕ)
      → requests_per_thread ≤ done
      → Move generate c (looping fd done) (count_time time c) (closing fd done)
  closes : (fd done : ℕ) → Move generate c (closing fd done) (close_socket fd c) (ended done)

-- NUM_THREADS
abbrev pub num_threads : ℕ
num_threads = 16

-- The counters before the threads start; MIN_MESSAGE_SIZE is 1.
abbrev pub no_requests : Client
no_requests = record {
  total_requests = 0;
  successful_requests = 0;
  total_response_time = 0;
  ms = 1;
  opened = [];
  closed = [];
}

abbrev pub threads_start : Threads Client Position
threads_start = record { shared = no_requests; at = λ i. starting }

-- `main` waits until all of its threads have ended.
abbrev pub is_ended : Position → Bool
is_ended (ended done) = true
is_ended _ = false

unfoldable pub main : ℕ → Threads Client Position → Option Report
main total_time s = report total_time s.shared
