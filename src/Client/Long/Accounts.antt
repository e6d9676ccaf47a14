-- ===== src/Client/Long/Accounts.antt =====
-- The counters and the sockets of client_longconn.cpp at each moment, in whatever order its threads run.
use epoll_server.Base.{ℕ, ◌+◌, ◌<◌, ◌≤◌, ◌≡◌, refl, List, arith}
use epoll_server.Client.Thread.{Client, open_socket, close_socket, requests_per_thread}
use epoll_server.Client.Interleaved.{count, count-snoc, one_at}
use epoll_server.Client.Totals.{Counting}
use epoll_server.Client.Long.Moves.{
  Position, starting, counted, connecting, looping, sized, loaded, exchanging, closing, ended, Move,
  counts, gets_socket, sizes, closes,
}

-- The requests that a thread has counted, its successes, and whether it holds a socket.
abbrev pub requests_of : Position → ℕ
requests_of starting = 0
requests_of _ = requests_per_thread

abbrev pub successes_of : Position → ℕ
successes_of starting = 0
successes_of counted = 0
successes_of (connecting fd) = 0
successes_of (looping fd done) = done
successes_of (sized fd done size) = done
successes_of (loaded fd done size ms) = done
successes_of (exchanging fd done size) = done
successes_of (closing fd done) = done
successes_of (ended done) = done

abbrev pub holds : ℕ → Position → ℕ
holds fd starting = 0
holds fd counted = 0
holds fd (connecting x) = one_at fd x
holds fd (looping x done) = one_at fd x
holds fd (sized x done size) = one_at fd x
holds fd (loaded x done size ms) = one_at fd x
holds fd (exchanging x done size) = one_at fd x
holds fd (closing x done) = one_at fd x
holds fd (ended done) = 0

-- The exchanges that a thread has completed are not more than those that it makes.
abbrev pub IsBounded : Position → Type 0
IsBounded starting = Unit {0}
IsBounded counted = Unit {0}
IsBounded (connecting fd) = Unit {0}
IsBounded (looping fd done) = done ≤ requests_per_thread
IsBounded (sized fd done size) = done < requests_per_thread
IsBounded (loaded fd done size ms) = done < requests_per_thread
IsBounded (exchanging fd done size) = done < requests_per_thread
IsBounded (closing fd done) = done ≤ requests_per_thread
IsBounded (ended done) = done ≤ requests_per_thread

module _ (generate : ℕ → List ℕ) where
  pub move-requests :
      (s : Client) (p : Position) (t : Client) (q : Position)
      → Move generate s p t q
      → t.total_requests + 0 + requests_of p ≡ s.total_requests + 0 + requests_of q
  unfolding open_socket close_socket
  move-requests s p t q counts = omega arith
  move-requests s p t q m = omega arith

  pub move-successes :
      (s : Client) (p : Position) (t : Client) (q : Position)
      → Move generate s p t q
      → t.successful_requests + 0 + successes_of p ≡ s.successful_requests + 0 + successes_of q
  unfolding open_socket close_socket
  move-successes s p t q counts = omega arith
  move-successes s p t q m = omega arith

  pub move-sockets :
      (fd : ℕ) (s : Client) (p : Position) (t : Client) (q : Position)
      → Move generate s p t q
      → count fd t.opened + count fd s.closed + holds fd p
        ≡ count fd s.opened + count fd t.closed + holds fd q
  unfolding open_socket close_socket
  move-sockets fd s p t q (gets_socket x) = omega (arith, count-snoc fd x s.opened)
  move-sockets fd s p t q (closes x done) = omega (arith, count-snoc fd x s.closed)
  move-sockets fd s p t q m = omega arith

  pub move-IsBounded :
      (s : Client) (p : Position) (t : Client) (q : Position)
      → Move generate s p t q
      → IsBounded p
      → IsBounded q
  move-IsBounded s p t q (sizes fd done more) h = more
  move-IsBounded s p t q m h = omega arith

  pub bounded_successes : (p : Position) → IsBounded p → successes_of p ≤ requests_of p
  bounded_successes starting h = omega arith
  bounded_successes p h = omega arith

  abbrev pub counting : Counting Position (Move generate)
  counting = record {
    requests_of = requests_of;
    successes_of = successes_of;
    holds = holds;
    IsBounded = IsBounded;
    move_requests = move-requests;
    move_successes = move-successes;
    move_sockets = move-sockets;
    move_bounded = move-IsBounded;
    successes_bounded = bounded_successes;
    start = starting;
    start_bounded = tt;
    start_requests = refl;
    start_successes = refl;
    start_holds = λ fd. refl;
  }
