-- ===== src/Client/Short/Accounts.antt =====
-- What a thread of client.cpp has counted, and the socket that it holds, where it stands.
use epoll_server.Base.{ℕ, ◌+◌, ◌<◌, ◌≤◌, ◌≡◌, refl, List, arith}
use epoll_server.Client.Thread.{Client, open_socket, close_socket}
use epoll_server.Client.Interleaved.{count, count-snoc, one_at}
use epoll_server.Client.Totals.{Counting}
use epoll_server.Client.Short.{
  Position, looping, sized, loaded, packed, counted, connecting, exchanging, answered, timed,
  closing, ended, Move, sizes, gets_socket, closes, ends, requests_per_thread,
}

abbrev pub requests_of : Position → ℕ
requests_of (looping i done) = i
requests_of (sized i done size) = i
requests_of (loaded i done size ms) = i
requests_of (packed i done size) = i
requests_of (counted i done size) = i + 1
requests_of (connecting fd i done size) = i + 1
requests_of (exchanging fd i done size) = i + 1
requests_of (answered fd i done) = i + 1
requests_of (timed fd i done) = i + 1
requests_of (closing fd i done) = i + 1
requests_of (ended i done) = i

abbrev pub successes_of : Position → ℕ
successes_of (looping i done) = done
successes_of (sized i done size) = done
successes_of (loaded i done size ms) = done
successes_of (packed i done size) = done
successes_of (counted i done size) = done
successes_of (connecting fd i done size) = done
successes_of (exchanging fd i done size) = done
successes_of (answered fd i done) = done
successes_of (timed fd i done) = done
successes_of (closing fd i done) = done
successes_of (ended i done) = done

abbrev pub holds : ℕ → Position → ℕ
holds fd (connecting x i done size) = one_at fd x
holds fd (exchanging x i done size) = one_at fd x
holds fd (answered x i done) = one_at fd x
holds fd (timed x i done) = one_at fd x
holds fd (closing x i done) = one_at fd x
holds fd _ = 0

-- At most one success in each round, and no more rounds than there are.
abbrev pub IsBounded : Position → Type 0
IsBounded (looping i done) = (done ≤ i) × (i ≤ requests_per_thread)
IsBounded (sized i done size) = (done ≤ i) × (i < requests_per_thread)
IsBounded (loaded i done size ms) = (done ≤ i) × (i < requests_per_thread)
IsBounded (packed i done size) = (done ≤ i) × (i < requests_per_thread)
IsBounded (counted i done size) = (done ≤ i) × (i < requests_per_thread)
IsBounded (connecting fd i done size) = (done ≤ i) × (i < requests_per_thread)
IsBounded (exchanging fd i done size) = (done ≤ i) × (i < requests_per_thread)
IsBounded (answered fd i done) = (done ≤ i) × (i < requests_per_thread)
IsBounded (timed fd i done) = (done ≤ i) × (i < requests_per_thread)
IsBounded (closing fd i done) = (done ≤ i + 1) × (i < requests_per_thread)
IsBounded (ended i done) = (done ≤ i) × (i ≡ requests_per_thread)

module _ (generate : ℕ → List ℕ) where
  pub move-requests :
      (s : Client) (p : Position) (t : Client) (q : Position)
      → Move generate s p t q
      → t.total_requests + 0 + requests_of p ≡ s.total_requests + 0 + requests_of q
  unfolding open_socket close_socket
  move-requests s p t q (sizes i done more) = omega arith
  move-requests s p t q m = omega arith

  pub move-successes :
      (s : Client) (p : Position) (t : Client) (q : Position)
      → Move generate s p t q
      → t.successful_requests + 0 + successes_of p ≡ s.successful_requests + 0 + successes_of q
  unfolding open_socket close_socket
  move-successes s p t q (sizes i done more) = omega arith
  move-successes s p t q m = omega arith

  pub move-sockets :
      (fd : ℕ) (s : Client) (p : Position) (t : Client) (q : Position)
      → Move generate s p t q
      → count fd t.opened + count fd s.closed + holds fd p
        ≡ count fd s.opened + count fd t.closed + holds fd q
  unfolding open_socket close_socket
  move-sockets fd s p t q (gets_socket x i done size) = omega (arith, count-snoc fd x s.opened)
  move-sockets fd s p t q (closes x i done) = omega (arith, count-snoc fd x s.closed)
  move-sockets fd s p t q m = omega arith

  pub move-IsBounded :
      (s : Client) (p : Position) (t : Client) (q : Position)
      → Move generate s p t q
      → IsBounded p
      → IsBounded q
  move-IsBounded s p t q (sizes i done more) h = omega (arith, h, more)
  move-IsBounded s p t q (ends i done all) h = omega (arith, h, all)
  move-IsBounded s p t q m h = omega (arith, h)

  pub bounded_successes : (p : Position) → IsBounded p → successes_of p ≤ requests_of p
  bounded_successes (looping i done) h = h.0
  bounded_successes p h = omega (arith, h)

  abbrev pub counting : Counting Position (Move generate)
  counting = record {
    requests_of = requests_of;
    successes_of = successes_of;
    holds = holds;
    IsBounded = IsBounded;
    move_requests = move-requests;
    move_successes = move-successes;
    move_sockets = move-sockets;
    move_bounded = move-IsBounded;
    successes_bounded = bounded_successes;
    start = looping 0 0;
    start_bounded = omega arith;
    start_requests = refl;
    start_successes = refl;
    start_holds = λ fd. refl;
  }
