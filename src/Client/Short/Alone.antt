-- ===== src/Client/Short/Alone.antt =====
-- A thread of client.cpp that runs alone: its steps make what `client_thread` makes as a function.
use epoll_server.Base.{
  update, ℕ, ap, ◌+◌, ◌%◌, ◌<◌, ◌≡◌, refl, Bool, true, false, not, ◌&&◌, Option, none, some, List,
  [], ◌∷◌, if◌then◌else◌, arith, subst, length,
}
use epoll_server.Client.Thread.{
  Client, Exchange, Attempt, wrote_all, replied, accepted, open_socket, close_socket, exchanged,
  connected_to, request, client_thread, max_message_size,
}
use epoll_server.Client.Adds.{one_if, generate, replied-wrote_all}
use epoll_server.Client.Accounts.{succeeds as is_success, successes, request-Adds}
use epoll_server.Client.Interleaved.{Threads, Reach, next, moves}
use epoll_server.Client.Interleaved as Interleaved
use epoll_server.Client.Short.{
  Position, looping, counted, connecting, exchanging, answered, closing, ended, Move, sizes, loads,
  stores, counts, no_socket, gets_socket, refused, connects, breaks, succeeds, times, scores,
  closes, ends, requests_per_thread,
}

-- Steps of one thread.
pub data Run (generate : ℕ → List ℕ) (c : Client) (p : Position) : Client → Position → Type 0 where
  here : Run generate c p c p
  more :
      {d e : Client} {q r : Position}
      → Run generate c p d q
      → Move generate d q e r
      → Run generate c p e r

-- Whether an attempt succeeds that has a socket.
abbrev pub good : (ℕ → List ℕ) → ℕ → Attempt → Option ℕ → Bool
good generate size a none = false
good generate size a (some fd) =
    a.connecting.address_ok && a.connecting.connected && accepted generate size a.exchange

module _ (generate : ℕ → List ℕ) where
  -- The round ends without a success.
  stopped :
      {b : Client} {p : Position} (i done : ℕ) (c : Client)
      → Run generate b p c (looping (i + 1) done)
      → Run generate b p c (looping (i + 1) (done + 0))
  stopped {b} {p} i done c run =
      subst (λ n. Run generate b p c (looping (i + 1) n)) (omega arith) run

  exchanged-Run :
      {b : Client} {p : Position} (fd i done size time : ℕ) (x : Exchange) (c : Client)
      → Run generate b p c (exchanging fd i done size)
      → Run generate b p
          (exchanged generate size x fd time c)
          (looping (i + 1) (done + one_if (accepted generate size x)))
  unfolding exchanged
  exchanged-Run {b} {p} fd i done size time x c run =
      by_tests (wrote_all size x.written) (replied size (generate size) x.bytes_received)
        (λ e. breaks fd i done size x e) (λ e. succeeds fd i done size x e)
    where
      by_tests :
          (written reply : Bool)
          → ((written && reply) ≡ false
              → Move generate c (exchanging fd i done size) c (closing fd i done))
          → ((written && reply) ≡ true
              → Move generate c (exchanging fd i done size) c (answered fd i done))
          → Run generate b p
              (if not written
                then close_socket fd c
                else if not reply
                then close_socket fd c
                else close_socket fd (record c {
                  total_response_time = c.total_response_time + time;
                  successful_requests = c.successful_requests + 1;
                }))
              (looping (i + 1) (done + one_if (written && reply)))
      by_tests false reply no_good ok =
          stopped i done _ (more (more run (no_good refl)) (closes fd i done))
      by_tests true false no_good ok =
          stopped i done _ (more (more run (no_good refl)) (closes fd i done))
      by_tests true true no_good ok =
          more (more (more (more run (ok refl)) (times fd i done time)) (scores fd i done))
            (closes fd i (done + 1))

  connected_to-Run :
      {b : Client} {p : Position} (sock : Option ℕ) (i done size : ℕ) (a : Attempt) (c : Client)
      → Run generate b p c (counted i done size)
      → Run generate b p
          (connected_to generate sock size a c)
          (looping (i + 1) (done + one_if (good generate size a sock)))
  unfolding connected_to
  connected_to-Run none i done size a c run = stopped i done _ (more run (no_socket i done size))
  connected_to-Run {b} {p} (some fd) i done size a c run =
      by_tests a.connecting.address_ok a.connecting.connected
    where
      opened : Run generate b p (open_socket fd c) (connecting fd i done size)
      opened = more run (gets_socket fd i done size)

      by_tests :
          (address_ok connected : Bool)
          → Run generate b p
              (if not address_ok
                then close_socket fd (open_socket fd c)
                else if not connected
                then close_socket fd (open_socket fd c)
                else exchanged generate size a.exchange fd a.response_time (open_socket fd c))
              (looping
                (i + 1)
                (done + one_if (address_ok && connected && accepted generate size a.exchange)))
      by_tests false connected =
          stopped i done _ (more (more opened (refused fd i done size)) (closes fd i done))
      by_tests true false =
          stopped i done _ (more (more opened (refused fd i done size)) (closes fd i done))
      by_tests true true =
          exchanged-Run fd i done size a.response_time a.exchange _
            (more opened (connects fd i done size))

  request-Run :
      {b : Client} {p : Position} (i done : ℕ) (a : Attempt) (c : Client)
      → i < requests_per_thread
      → Run generate b p c (looping i done)
      → Run generate b p (request generate a c) (
          looping
            (i + 1)
            (done + one_if (good generate (c.ms % max_message_size) a a.connecting.sock)))
  unfolding request
  request-Run i done a c below run =
      let size : ℕ = c.ms % max_message_size in
      connected_to-Run a.connecting.sock i done size a _ (
        more
          (more (more (more run (sizes i done below)) (loads i done size))
            (stores i done size c.ms))
          (counts i done size))

-- A run of one thread is one of a test with this thread.
pub Run-Reach :
    (generate : ℕ → List ℕ) (c : Client) (p : Position) (at : ℕ → Position) {d : Client}
    {q : Position}
    → at 0 ≡ p
    → Run generate c p d q
    → (s : Threads Client Position) × Reach (Move generate) 1 (record { shared = c; at = at }) s
      × (s.shared ≡ d)
      × (s.at 0 ≡ q)
unfolding update
Run-Reach generate c p at e here = (_, Interleaved.here, refl, e)
Run-Reach generate c p at e (more run move) =
    let (s, reach, shared, position) = Run-Reach generate c p at e run in
    let first : 0 < 1 = omega arith in
    let step : Move generate s.shared (s.at 0) _ _ = rw (shared, position) move in
    (_, next reach (moves 0 first step), refl, refl)

module _ (body : ℕ → List ℕ) where
  good-succeeds :
      (size : ℕ) (a : Attempt) (sock : Option ℕ)
      → good (generate body) size a sock ≡ is_success size a sock
  good-succeeds size a none = refl
  good-succeeds size a (some fd) =
      ap
        (λ read.
          a.connecting.address_ok
          && a.connecting.connected
          && (wrote_all size a.exchange.written && read))
        (replied-wrote_all body size a.exchange.bytes_received)

  rounds-Run :
      {b : Client} {p : Position} (attempts : List Attempt) (i done : ℕ) (c : Client)
      → i + length attempts ≡ requests_per_thread
      → Run (generate body) b p c (looping i done)
      → Run
          (generate body)
          b
          p
          (client_thread (generate body) attempts c)
          (ended requests_per_thread (done + successes c.ms attempts))
  unfolding client_thread successes
  rounds-Run {b} {p} [] i done c all run =
      let last : i ≡ requests_per_thread = omega (arith, all) in
      let same : done ≡ done + 0 = omega arith in
      subst (λ n. Run (generate body) b p c (ended requests_per_thread n)) same
        (subst (λ j. Run (generate body) b p c (ended j done)) last
          (more run (ends i done (omega (arith, all)))))
  rounds-Run {b} {p} (a ∷ attempts) i done c all run =
      let size : ℕ = c.ms % max_message_size in
      let d : Client = request (generate body) a c in
      let once : ℕ = one_if (is_success size a a.connecting.sock) in
      let next_size : d.ms ≡ c.ms + 1 = (request-Adds body a c).next in
      let counted_once : one_if (good (generate body) size a a.connecting.sock) ≡ once =
        ap one_if (good-succeeds size a a.connecting.sock) in
      let sum : (done + one_if (good (generate body) size a a.connecting.sock))
            + successes d.ms attempts
          ≡ done + (once + successes (c.ms + 1) attempts) =
        rw (counted_once, next_size) (omega arith) in
      subst
        (λ n.
          Run (generate body) b p (client_thread (generate body) attempts d)
            (ended requests_per_thread n))
        sum
        (rounds-Run attempts (i + 1) _ d (omega (arith, all))
          (request-Run (generate body) i done a c (omega (arith, all)) run))

  -- A thread of client.cpp that runs alone can take its steps, for any answers to its REQUESTS_PER_THREAD
  -- requests, from its start to its end; and what it then has made of the counters and the sockets is
  -- what `client_thread` makes of them as a function, and its successes are those that `client_thread`
  -- counts.
  pub client_thread-Run :
      (attempts : List Attempt) (c : Client)
      → length attempts ≡ requests_per_thread
      → Run
          (generate body)
          c
          (looping 0 0)
          (client_thread (generate body) attempts c)
          (ended requests_per_thread (0 + successes c.ms attempts))
  client_thread-Run attempts c all = rounds-Run attempts 0 0 c (omega (arith, all)) here
