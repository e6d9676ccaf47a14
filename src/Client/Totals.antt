-- ===== src/Client/Totals.antt =====
-- The counters and the sockets of a test whose threads run side by side, against the positions of the
-- threads.
use epoll_server.Base.{ℕ, ◌+◌, ◌*◌, ◌<◌, ◌≤◌, ◌≡◌, ◌∙◌, [], arith, subst}
use epoll_server.Client.Thread.{Client}
use epoll_server.Client.Report.{report, Reported, report-Reported}
use epoll_server.Client.Interleaved.{
  Threads, Reach, total, total_same, total_le, Reach-total, Reach-all, count,
}

-- What a thread at a position has counted and holds, as its steps have it: the requests, the successes,
-- and how often a descriptor.
pub record Counting (P : Type 0) (Move : Client → P → Client → P → Type 0) : Type 1 where
  pub requests_of : P → ℕ
  pub successes_of : P → ℕ
  pub holds : ℕ → P → ℕ
  pub IsBounded : P → Type 0
  pub move_requests :
      (s : Client) (p : P) (t : Client) (q : P)
      → Move s p t q
      → t.total_requests + 0 + requests_of p ≡ s.total_requests + 0 + requests_of q
  pub move_successes :
      (s : Client) (p : P) (t : Client) (q : P)
      → Move s p t q
      → t.successful_requests + 0 + successes_of p ≡ s.successful_requests + 0 + successes_of q
  pub move_sockets :
      (fd : ℕ) (s : Client) (p : P) (t : Client) (q : P)
      → Move s p t q
      → count fd t.opened + count fd s.closed + holds fd p
        ≡ count fd s.opened + count fd t.closed + holds fd q
  pub move_bounded :
      (s : Client) (p : P) (t : Client) (q : P) → Move s p t q → IsBounded p → IsBounded q
  pub successes_bounded : (p : P) → IsBounded p → successes_of p ≤ requests_of p
  pub start : P
  pub start_bounded : IsBounded start
  pub start_requests : requests_of start ≡ 0
  pub start_successes : successes_of start ≡ 0
  pub start_holds : (fd : ℕ) → holds fd start ≡ 0

-- Nothing counted, opened or closed.
abbrev pub nothing_done : ℕ → Client
nothing_done ms = record {
  total_requests = 0;
  successful_requests = 0;
  total_response_time = 0;
  ms = ms;
  opened = [];
  closed = [];
}

module _ {P : Type 0} {Move : Client → P → Client → P → Type 0} (k : Counting P Move) (n : ℕ) where
  -- The requests and the successes are those of the threads, and each descriptor has been opened once
  -- more than it has been closed for each thread that holds it.
  pub record Accounts (s : Threads Client P) : Type 0 where
    pub requests : s.shared.total_requests ≡ total k.requests_of n s.at
    pub successes : s.shared.successful_requests ≡ total k.successes_of n s.at
    pub not_more : s.shared.successful_requests ≤ s.shared.total_requests
    pub sockets :
        (fd : ℕ) → count fd s.shared.opened ≡ count fd s.shared.closed + total (k.holds fd) n s.at

  -- Before the threads start.
  abbrev pub threads_start : ℕ → Threads Client P
  threads_start ms = record { shared = nothing_done ms; at = λ i. k.start }

  pub Reach-Accounts :
      (ms : ℕ) {s : Threads Client P} → Reach Move n (threads_start ms) s → Accounts s
  unfolding count
  Reach-Accounts ms {s} reach =
      let counted : s.shared.total_requests ≡ total k.requests_of n s.at = omega (
        arith,
        Reach-total Move n (λ c. c.total_requests) (λ c. 0) k.requests_of k.move_requests reach,
        total_same k.requests_of n (threads_start ms).at 0 (λ i below. k.start_requests),
      ) in
      let good : s.shared.successful_requests ≡ total k.successes_of n s.at = omega (
        arith,
        Reach-total Move n (λ c. c.successful_requests) (λ c. 0) k.successes_of k.move_successes
            reach,
        total_same k.successes_of n (threads_start ms).at 0 (λ i below. k.start_successes),
      ) in
      let bounded : (i : ℕ) → k.IsBounded (s.at i) =
        Reach-all Move n k.IsBounded k.move_bounded (λ i. k.start_bounded) reach in
      record {
        requests = counted;
        successes = good;
        not_more = omega (
          arith,
          total_le k.successes_of k.requests_of n s.at
              (λ i below. k.successes_bounded (s.at i) (bounded i)),
        );
        sockets = λ fd. omega (
          arith,
          Reach-total Move n (λ c. count fd c.opened) (λ c. count fd c.closed) (k.holds fd)
              (k.move_sockets fd) reach,
          total_same (k.holds fd) n (threads_start ms).at 0 (λ i below. k.start_holds fd),
        );
      }

  -- All threads have ended: every descriptor is closed again, the successes are not more than the
  -- requests, and this is what is reported.
  abbrev pub AllCounted : ℕ → ℕ → ℕ → Threads Client P → Type 0
  AllCounted each total_time fd s =
      (count fd s.shared.opened ≡ count fd s.shared.closed)
      × (total k.successes_of n s.at ≤ n * each)
      × Reported (n * each) (total k.successes_of n s.at) (report total_time s.shared)

  pub Accounts-AllCounted :
      (each total_time fd : ℕ) (s : Threads Client P)
      → Accounts s
      → 0 < total_time
      → ((i : ℕ) → i < n → k.requests_of (s.at i) ≡ each)
      → ((i : ℕ) → i < n → k.holds fd (s.at i) ≡ 0)
      → AllCounted each total_time fd s
  Accounts-AllCounted each total_time fd s a some_time all_made none_held =
      let requests : s.shared.total_requests ≡ n * each =
        a.requests ∙ total_same k.requests_of n s.at each all_made in
      (
        omega (arith, a.sockets fd, total_same (k.holds fd) n s.at 0 none_held),
        omega (arith, a.not_more, a.successes, requests),
        subst (λ good. Reported (n * each) good (report total_time s.shared)) a.successes
            (subst (λ made. Reported made s.shared.successful_requests (report total_time s.shared))
              requests (report-Reported total_time s.shared some_time)),
      )
