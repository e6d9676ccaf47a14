-- ===== src/Client/Long/Run.antt =====
-- The threads of client_longconn.cpp all end, and what `main` prints then.
use epoll_server.Base.{
  ℕ, ◌+◌, ◌*◌, ◌-◌, ◌<◌, ◌≤◌, ◌≡◌, refl, true, false, false≢true, List, none, arith, sym, inl, inr,
  Bool-cases, ltb, ltb→lt, ltb→le,
}
use epoll_server.Client.Thread.{Client, requests_per_thread}
use epoll_server.Client.Report.{Reported}
use epoll_server.Client.Interleaved.{Threads, Reach, steps, total, total_same, Reach-steps, count}
use epoll_server.Client.Long.Moves.{
  Position, starting, counted, connecting, looping, sized, loaded, exchanging, closing, ended, Move,
  counts, no_socket, connects, sizes, loads, stores, breaks, finishes, closes, threads_start, main,
  is_ended,
}
use epoll_server.Client.Long.Accounts.{requests_of, successes_of, holds, counting}
use epoll_server.Client.Totals.{Accounts, Reach-Accounts, Accounts-AllCounted}

-- The steps that a thread has left at most.
abbrev left_in : ℕ → ℕ
left_in done = 4 * (requests_per_thread - done)

abbrev left : Position → ℕ
left starting = 400005
left counted = 400004
left (connecting fd) = 400003
left (looping fd done) = left_in done + 2
left (sized fd done size) = left_in (done + 1) + 5
left (loaded fd done size ms) = left_in (done + 1) + 4
left (exchanging fd done size) = left_in (done + 1) + 3
left (closing fd done) = 1
left (ended done) = 0

module _ (generate : ℕ → List ℕ) where
  move-left :
      (s : Client) (p : Position) (t : Client) (q : Position)
      → Move generate s p t q
      → left q < left p
  move-left s p t q (sizes fd done more) = omega (arith, more)
  move-left s p t q m = omega arith

  -- A thread that has not ended can go on, whatever the others have done.
  goes_on :
      (s : Client) (p : Position)
      → is_ended p ≡ false
      → (t : Client) × (q : Position) × Move generate s p t q
  goes_on s starting e = (_, _, counts)
  goes_on s counted e = (_, _, no_socket)
  goes_on s (connecting fd) e = (_, _, connects fd)
  goes_on s (looping fd done) e = elim (Bool-cases (ltb done requests_per_thread)) [
    | inl more ↦ (_, _, sizes fd done (ltb→lt done requests_per_thread more))
    | inr all ↦ (_, _, finishes fd done 0 (ltb→le done requests_per_thread all))
  ]
  goes_on s (sized fd done size) e = (_, _, loads fd done size)
  goes_on s (loaded fd done size ms) e = (_, _, stores fd done size ms)
  goes_on s (exchanging fd done size) e =
      (_, _, breaks fd done size (record { written = none; bytes_received = none }) refl)
  goes_on s (closing fd done) e = (_, _, closes fd done)
  goes_on s (ended done) e = absurd (false≢true (sym e))

  -- Whatever the system answers, and in whatever order the threads run: `n` threads together take at most
  -- 400005 steps each, and one that has not ended can take a further one. So all of them end, if every
  -- call of the system comes back.
  pub threads-end :
      (n i : ℕ) {s : Threads Client Position} (reach : Reach (Move generate) n threads_start s)
      → i < n
      → is_ended (s.at i) ≡ false
      → (steps (Move generate) n reach ≤ n * 400005)
        × (t : Client) × (q : Position) × Move generate s.shared (s.at i) t q
  threads-end n i {s} reach below e =
      let (t, q, move) = goes_on s.shared (s.at i) e in
      (
        omega (
          arith,
          Reach-steps (Move generate) n left move-left reach,
          total_same left n threads_start.at 400005 (λ j _. refl),
        ),
        t,
        q,
        move,
      )

  ended_requests : (p : Position) → is_ended p ≡ true → requests_of p ≡ requests_per_thread
  ended_requests (ended done) e = refl
  ended_requests starting e = absurd (false≢true e)
  ended_requests p e = refl

  ended_holds : (fd : ℕ) (p : Position) → is_ended p ≡ true → holds fd p ≡ 0
  ended_holds fd (ended done) e = refl
  ended_holds fd p e = absurd (false≢true e)

  -- In every order of the threads' steps, at each moment: the requests counted are REQUESTS_PER_THREAD
  -- for each of the threads that has begun, the successes are the exchanges that the threads have completed,
  -- and not more than the requests; and each descriptor has been opened once more than it has been closed
  -- for each thread that holds it.
  pub main-Accounts :
      (n : ℕ) {s : Threads Client Position}
      → Reach (Move generate) n threads_start s
      → Accounts (counting generate) n s
  main-Accounts n reach = Reach-Accounts (counting generate) n 1 reach

  -- When `n` threads have ended, in whatever order they ran: the requests counted are all of theirs, made
  -- or not; the successes are the exchanges that they have completed, and not more than these; every descriptor
  -- has been closed as often as it was opened; and if the test took any time, `main` prints these requests
  -- and successes if there was a success, and divides by 0 if there was none.
  pub main-Counted :
      (n total_time fd : ℕ) {s : Threads Client Position}
      → 0 < total_time
      → Reach (Move generate) n threads_start s
      → ((i : ℕ) → i < n → is_ended (s.at i) ≡ true)
      → (count fd s.shared.opened ≡ count fd s.shared.closed)
        × (total successes_of n s.at ≤ n * requests_per_thread)
        × Reported (n * requests_per_thread) (total successes_of n s.at) (main total_time s)
  unfolding main
  main-Counted n total_time fd {s} some_time reach all =
      Accounts-AllCounted (counting generate) n requests_per_thread total_time fd s
        (main-Accounts n reach) some_time (λ i below. ended_requests (s.at i) (all i below))
        (λ i below. ended_holds fd (s.at i) (all i below))
