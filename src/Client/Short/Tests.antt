-- ===== src/Client/Short/Tests.antt =====
-- A thread of client.cpp that never gets a socket.
use epoll_server.Base.{
  ℕ, ◌+◌, ◌*◌, ◌<◌, ◌≤◌, ◌≡◌, refl, ap, true, none, List, replicate, arith, subst,
}
use epoll_server.Client.Thread.{Client, Attempt, client_thread}
use epoll_server.Client.Adds.{generate}
use epoll_server.Client.Accounts.{successes}
use epoll_server.Client.Report.{no_requests, Reported}
use epoll_server.Client.Interleaved.{Threads, Reach, here, steps, total, count}
use epoll_server.Client.Short.{
  Position, Move, looping, ended, requests_per_thread, threads_start, main, is_ended,
}
use epoll_server.Client.Short.Accounts.{successes_of}
use epoll_server.Client.Short.Alone.{Run, Run-Reach, client_thread-Run}
use epoll_server.Client.Short.Run.{requests-end, requests-Counted}

abbrev letters : ℕ → List ℕ
letters size = replicate size 65

abbrev no_sockets : List Attempt
no_sockets = replicate requests_per_thread (record {
  connecting = record { sock = none; address_ok = true; connected = true };
  exchange = record { written = none; bytes_received = none };
  response_time = 0;
})

client_thread-Run_example :
    Run
      (generate letters)
      no_requests
      (looping 0 0)
      (client_thread (generate letters) no_sockets no_requests)
      (ended requests_per_thread (0 + successes 256 no_sockets))
client_thread-Run_example = client_thread-Run letters no_sockets no_requests refl

-- The test with this thread alone, when it has ended.
abbrev alone :
    (s : Threads Client Position) × Reach (Move (generate letters)) 1 threads_start s
    × (s.shared ≡ client_thread (generate letters) no_sockets no_requests)
    × (s.at 0 ≡ ended requests_per_thread (0 + successes 256 no_sockets))
alone =
    Run-Reach (generate letters) no_requests (looping 0 0) threads_start.at refl
      (client_thread-Run letters no_sockets no_requests refl)

zero_below : (i : ℕ) → i < 1 → 0 ≡ i
zero_below i h = omega arith

alone_ended : (i : ℕ) → i < 1 → is_ended (alone.0.at i) ≡ true
alone_ended i h = subst (λ j. is_ended (alone.0.at j) ≡ true) (zero_below i h) (ap is_ended alone.3)

requests-Counted_example :
    (count 3 alone.0.shared.opened ≡ count 3 alone.0.shared.closed)
    × (total successes_of 1 alone.0.at ≤ 1 * requests_per_thread)
    × Reported (1 * requests_per_thread) (total successes_of 1 alone.0.at) (main 9000 alone.0)
requests-Counted_example =
    requests-Counted (generate letters) 1 9000 3 (omega arith) alone.1 alone_ended

-- Before the first step.
requests-end_example :
    (steps (Move (generate letters)) 16 {s = threads_start} here ≤ 16 * 1001)
    × (t : Client) × (q : Position) × Move (generate letters) no_requests (looping 0 0) t q
requests-end_example = requests-end (generate letters) 16 15 here (omega arith) refl
