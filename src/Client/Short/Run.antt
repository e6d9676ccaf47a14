-- ===== src/Client/Short/Run.antt =====
-- The threads of client.cpp all end, and what `main` prints then.
use epoll_server.Base.{
  ℕ, ◌+◌, ◌*◌, ◌-◌, ◌<◌, ◌≤◌, ◌≡◌, refl, true, false, false≢true, List, none, arith, sym, inl, inr,
  Bool-cases, ltb, ltb→lt, ltb→le,
}
use epoll_server.Client.Thread.{Client}
use epoll_server.Client.Report.{Reported}
use epoll_server.Client.Interleaved.{
  Threads, Reach, steps, total, total_same, Reach-steps, Reach-all, count,
}
use epoll_server.Client.Short.{
  Position, looping, sized, loaded, packed, counted, connecting, exchanging, answered, timed,
  closing, ended, Move, sizes, loads, stores, counts, no_socket, connects, breaks, times, scores,
  closes, ends, requests_per_thread, threads_start, main, is_ended,
}
use epoll_server.Client.Short.Accounts.{
  requests_of, successes_of, holds, counting, IsBounded, move-IsBounded,
}
use epoll_server.Client.Totals.{Accounts, Reach-Accounts, Accounts-AllCounted}

-- The steps that a thread has left at most.
abbrev left_in : ℕ → ℕ
left_in rounds = 10 * (requests_per_thread - rounds)

abbrev left : Position → ℕ
left (looping i done) = left_in i + 1
left (sized i done size) = left_in (i + 1) + 10
left (loaded i done size ms) = left_in (i + 1) + 9
left (packed i done size) = left_in (i + 1) + 8
left (counted i done size) = left_in (i + 1) + 7
left (connecting fd i done size) = left_in (i + 1) + 6
left (exchanging fd i done size) = left_in (i + 1) + 5
left (answered fd i done) = left_in (i + 1) + 4
left (timed fd i done) = left_in (i + 1) + 3
left (closing fd i done) = left_in (i + 1) + 2
left (ended i done) = 0

module _ (generate : ℕ → List ℕ) where
  move-left :
      (s : Client) (p : Position) (t : Client) (q : Position)
      → Move generate s p t q
      → left q < left p
  move-left s p t q (sizes i done more) = omega (arith, more)
  move-left s p t q m = omega arith

  -- A thread that has not ended can go on, whatever the others have done.
  goes_on :
      (s : Client) (p : Position)
      → is_ended p ≡ false
      → (t : Client) × (q : Position) × Move generate s p t q
  goes_on s (looping i done) e = elim (Bool-cases (ltb i requests_per_thread)) [
    | inl more ↦ (_, _, sizes i done (ltb→lt i requests_per_thread more))
    | inr all ↦ (_, _, ends i done (ltb→le i requests_per_thread all))
  ]
  goes_on s (sized i done size) e = (_, _, loads i done size)
  goes_on s (loaded i done size ms) e = (_, _, stores i done size ms)
  goes_on s (packed i done size) e = (_, _, counts i done size)
  goes_on s (counted i done size) e = (_, _, no_socket i done size)
  goes_on s (connecting fd i done size) e = (_, _, connects fd i done size)
  goes_on s (exchanging fd i done size) e =
      (_, _, breaks fd i done size (record { written = none; bytes_received = none }) refl)
  goes_on s (answered fd i done) e = (_, _, times fd i done 0)
  goes_on s (timed fd i done) e = (_, _, scores fd i done)
  goes_on s (closing fd i done) e = (_, _, closes fd i done)
  goes_on s (ended i done) e = absurd (false≢true (sym e))

  -- Whatever the system answers, and in whatever order the threads run: `n` threads together take at most
  -- 1001 steps each, and one that has not ended can take a further one. So all of them end, if every
  -- call of the system comes back.
  pub requests-end :
      (n i : ℕ) {s : Threads Client Position} (reach : Reach (Move generate) n threads_start s)
      → i < n
      → is_ended (s.at i) ≡ false
      → (steps (Move generate) n reach ≤ n * 1001)
        × (t : Client) × (q : Position) × Move generate s.shared (s.at i) t q
  requests-end n i {s} reach below e =
      let (t, q, move) = goes_on s.shared (s.at i) e in
      (
        omega (
          arith,
          Reach-steps (Move generate) n left move-left reach,
          total_same left n threads_start.at 1001 (λ j _. refl),
        ),
        t,
        q,
        move,
      )

  -- In every order of the threads' steps, at each moment: the requests counted are those that the threads
  -- have begun, the successes are those that they have completed, and not more than the requests; and each
  -- descriptor has been opened once more than it has been closed for each thread that holds it.
  pub requests-Accounts :
      (n : ℕ) {s : Threads Client Position}
      → Reach (Move generate) n threads_start s
      → Accounts (counting generate) n s
  requests-Accounts n reach = Reach-Accounts (counting generate) n 256 reach

  ended_requests :
      (p : Position) → IsBounded p → is_ended p ≡ true → requests_of p ≡ requests_per_thread
  ended_requests (ended i done) h e = h.1
  ended_requests p h e = absurd (false≢true e)

  ended_holds : (fd : ℕ) (p : Position) → is_ended p ≡ true → holds fd p ≡ 0
  ended_holds fd (ended i done) e = refl
  ended_holds fd p e = absurd (false≢true e)

  -- When `n` threads of client.cpp have ended, in whatever order they ran: REQUESTS_PER_THREAD requests are
  -- counted for each of them; the successes are those that they have completed, and not more than
  -- these; every descriptor has been closed as often as it was opened; and if the test took any time,
  -- `main` prints these requests and successes if there was a success, and divides by 0 if there was none.
  pub requests-Counted :
      (n total_time fd : ℕ) {s : Threads Client Position}
      → 0 < total_time
      → Reach (Move generate) n threads_start s
      → ((i : ℕ) → i < n → is_ended (s.at i) ≡ true)
      → (count fd s.shared.opened ≡ count fd s.shared.closed)
        × (total successes_of n s.at ≤ n * requests_per_thread)
        × Reported (n * requests_per_thread) (total successes_of n s.at) (main total_time s)
  unfolding main
  requests-Counted n total_time fd {s} some_time reach all =
      let bounded : (i : ℕ) → IsBounded (s.at i) =
        Reach-all (Move generate) n IsBounded (move-IsBounded generate) (λ i. omega arith) reach in
      Accounts-AllCounted (counting generate) n requests_per_thread total_time fd s
        (requests-Accounts n reach) some_time
        (λ i below. ended_requests (s.at i) (bounded i) (all i below))
        (λ i below. ended_holds fd (s.at i) (all i below))
