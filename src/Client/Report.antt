-- ===== src/Client/Report.antt =====
-- `main` of client.cpp: what it prints after its threads have ended.
-- The threads share the counters and `ms`. A request is one step here, so that the requests of all threads
-- are one list, in the order in which they are made; Client/Short.antt takes each access by itself.
use epoll_server.Base.{subst, ℕ, ◌*◌, ◌/◌, Option, none, some, List, [], ◌==◌, if◌then◌else◌}
use epoll_server.Base.{true, false, if_both, length, arith, refl, ◌≡◌, ◌<◌}
use epoll_server.Client.Adds.{Adds, generate}
use epoll_server.Client.Accounts.{successes, sockets, client_thread-Adds}
use epoll_server.Client.Thread.{Client, Attempt, client_thread}
use epoll_server.Client.Adds.{generate}

-- Times are in microseconds, but for the total time.
pub record Report : Type 0 where
  pub total_requests : ℕ
  pub successful_requests : ℕ
  pub total_time : ℕ
  pub average_response_time : ℕ
  pub requests_per_second : ℕ

-- `none` is a division by 0.
unfoldable pub report : ℕ → Client → Option Report
report total_time c =
    if c.successful_requests == 0
    then none
    else if total_time == 0
    then none
    else some (record {
      total_requests = c.total_requests;
      successful_requests = c.successful_requests;
      total_time = total_time / 1000;
      average_response_time = c.total_response_time / c.successful_requests;
      requests_per_second = (c.successful_requests * 1000000) / total_time;
    })

-- The counters before the threads start; MIN_MESSAGE_SIZE is 256.
abbrev pub no_requests : Client
no_requests = record {
  total_requests = 0;
  successful_requests = 0;
  total_response_time = 0;
  ms = 256;
  opened = [];
  closed = [];
}

unfoldable pub main : (ℕ → List ℕ) → List Attempt → ℕ → Option Report
main generate attempts total_time = report total_time (client_thread generate attempts no_requests)

-- What is printed for this many requests and successes; without a success the average divides by 0.
unfoldable pub Reported : ℕ → ℕ → Option Report → Type 0
Reported requests good none = good ≡ 0
Reported requests good (some r) =
    (0 < good) × (r.total_requests ≡ requests) × (r.successful_requests ≡ good)

==_zero : (n : ℕ) → n == 0 ≡ true → n ≡ 0
==_zero n e = ground arith

==_positive : (n : ℕ) → n == 0 ≡ false → 0 < n
==_positive n e = ground arith

pub report-Reported :
    (total_time : ℕ) (c : Client)
    → 0 < total_time
    → Reported c.total_requests c.successful_requests (report total_time c)
unfolding report Reported
report-Reported total_time c some_time =
    let P = Reported c.total_requests c.successful_requests in
    if_both P (c.successful_requests == 0) _ _ (λ e. ==_zero c.successful_requests e)
      (λ n.
        if_both P (total_time == 0) _ _ (λ e. absurd (omega (arith, ==_zero total_time e)))
          (λ _. (==_positive c.successful_requests n, refl, refl)))

module _ (body : ℕ → List ℕ) where
  -- However the requests of the threads follow on each other, if the test took any time: every request
  -- that was made is counted, and as successful exactly those that got a socket and a connection, wrote the
  -- whole packet and read as many bytes back; every socket opened has been closed, once each and in order.
  -- `main` prints these two numbers if there was a success, and divides by 0 if there was none.
  pub main-Reported :
      (attempts : List Attempt) (total_time : ℕ)
      → 0 < total_time
      → Adds no_requests
          (client_thread (generate body) attempts no_requests)
          (length attempts)
          (length attempts)
          (successes 256 attempts)
          (sockets attempts)
          (sockets attempts)
        × Reported
            (length attempts)
            (successes 256 attempts)
            (main (generate body) attempts total_time)
  unfolding main
  main-Reported attempts total_time some_time =
      let a = client_thread-Adds body attempts no_requests in
      let c : Client = client_thread (generate body) attempts no_requests in
      let counted : c.total_requests ≡ length attempts = let h = a.total in omega arith in
      let succeeded : c.successful_requests ≡ successes 256 attempts =
        let h = a.successful in omega arith in
      let printed : Option Report = report total_time c in
      (
        a,
        subst (λ good. Reported (length attempts) good printed) succeeded
            (subst (λ requests. Reported requests c.successful_requests printed) counted
              (report-Reported total_time c some_time)),
      )
