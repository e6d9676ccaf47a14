-- ===== src/Client/Long/Tests.antt =====
-- Two threads of client_longconn.cpp: the second sends one message while the first gets no socket.
use epoll_server.Base.{
  update, ℕ, zero, suc, ◌*◌, ◌<◌, ◌≤◌, ◌≡◌, refl, true, none, some, List, replicate, arith,
}
use epoll_server.Client.Thread.{
  Client, Exchange, accepted, open_socket, close_socket, requests_per_thread,
}
use epoll_server.Client.Report.{Reported}
use epoll_server.Client.Adds.{generate, replied-wrote_all}
use epoll_server.Client.Interleaved.{Threads, Reach, here, next, moves, steps, total, count}
use epoll_server.Client.Long.Moves.{
  Position, Move, threads_start, main, is_ended, counts, no_socket, gets_socket, closes, connects,
  sizes, loads, stores, succeeds, breaks,
}
use epoll_server.Client.Long.Accounts.{successes_of}
use epoll_server.Client.Long.Run.{threads-end, main-Counted}

abbrev letters : ℕ → List ℕ
letters size = replicate size 65

one_below : 1 < 2
one_below = omega arith

zero_below : 0 < 2
zero_below = omega arith

some_requests : 0 < requests_per_thread
some_requests = omega arith

more_requests : 1 < requests_per_thread
more_requests = omega arith

abbrev Test : Threads Client Position → Type 0
Test s = Reach (Move (generate letters)) 2 threads_start s

-- The second message, of two bytes, is not answered.
abbrev one_byte : Exchange
one_byte = record { written = some 9; bytes_received = some 9 }

abbrev no_answer : Exchange
no_answer = record { written = some 10; bytes_received = none }

one_byte-accepted : accepted (generate letters) 1 one_byte ≡ true
one_byte-accepted = replied-wrote_all letters 1 (some 9)

abbrev middle : (s : Threads Client Position) × Test s
unfolding update open_socket
middle = (
  _,
  next
      (next
        (next
          (next
            (next (next (next here (moves 1 one_below counts)) (moves 1 one_below (gets_socket 3)))
              (moves 0 zero_below counts))
            (moves 1 one_below (connects 3)))
          (moves 1 one_below (sizes 3 0 some_requests)))
        (moves 1 one_below (loads 3 0 1)))
      (moves 1 one_below (stores 3 0 1 1)),
)

abbrev both_end : (s : Threads Client Position) × Test s
unfolding update open_socket
both_end = (
  _,
  next
      (next
        (next
          (next
            (next
              (next (next middle.1 (moves 1 one_below (succeeds 3 0 1 one_byte one_byte-accepted)))
                (moves 0 zero_below no_socket))
              (moves 1 one_below (sizes 3 1 more_requests)))
            (moves 1 one_below (loads 3 1 2)))
          (moves 1 one_below (stores 3 1 2 2)))
        (moves 1 one_below (breaks 3 1 2 no_answer refl)))
      (moves 1 one_below (closes 3 1)),
)

all_ended : (i : ℕ) → i < 2 → is_ended (both_end.0.at i) ≡ true
unfolding update open_socket
all_ended zero h = refl
all_ended (suc zero) h = refl
all_ended (suc (suc i)) h = absurd (omega arith)

main-Counted_example :
    (count 3 both_end.0.shared.opened ≡ count 3 both_end.0.shared.closed)
    × (total successes_of 2 both_end.0.at ≤ 2 * requests_per_thread)
    × Reported (2 * requests_per_thread) (total successes_of 2 both_end.0.at) (main 9000 both_end.0)
unfolding update open_socket
main-Counted_example = main-Counted (generate letters) 2 9000 3 (omega arith) both_end.1 all_ended

one_success : both_end.0.shared.successful_requests ≡ 1
unfolding update open_socket close_socket
one_success = refl

threads-end_example :
    (steps (Move (generate letters)) 2 middle.1 ≤ 2 * 400005)
    × (t : Client) × (q : Position) × Move (generate letters) middle.0.shared (middle.0.at 1) t q
unfolding update open_socket
threads-end_example = threads-end (generate letters) 2 1 middle.1 one_below refl
