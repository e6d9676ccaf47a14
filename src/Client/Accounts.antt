-- ===== src/Client/Accounts.antt =====
-- What the counters and the sockets of a thread of client.cpp come to.
use epoll_server.Base.{
  ℕ, ap, ◌+◌, ◌%◌, refl, Bool, true, false, not, ◌&&◌, Option, none, some, List, [], ◌∷◌, ◌++◌,
  if◌then◌else◌, arith, length,
}
use epoll_server.Client.Thread.{
  Exchange, Client, Attempt, open_socket, close_socket, wrote_all, exchanged, connected_to, request,
  client_thread,
}
use epoll_server.Client.Adds.{
  is_complete, one_if, socket_of, Adds, sockets_kept-Adds, unchanged-Adds, open_socket-Adds,
  close_socket-Adds, Adds-Adds, generate, replied-wrote_all,
}

-- Whether a request that has a socket ends well.
abbrev pub succeeds : ℕ → Attempt → Option ℕ → Bool
succeeds size a none = false
succeeds size a (some fd) =
    a.connecting.address_ok && a.connecting.connected && is_complete size a.exchange

-- From message size `ms` on.
unfoldable pub successes : ℕ → List Attempt → ℕ
successes ms [] = 0
successes ms (a ∷ attempts) =
    one_if (succeeds (ms % 512) a a.connecting.sock) + successes (ms + 1) attempts

unfoldable pub sockets : List Attempt → List ℕ
sockets [] = []
sockets (a ∷ attempts) = socket_of a.connecting.sock ++ sockets attempts

module _ (body : ℕ → List ℕ) where
  exchanged-Adds :
      (size : ℕ) (x : Exchange) (fd response_time : ℕ) (c : Client)
      → Adds c
          (exchanged (generate body) size x fd response_time c)
          0
          0
          (one_if (is_complete size x))
          []
          (fd ∷ [])
  unfolding exchanged
  exchanged-Adds size x fd response_time c =
      rw (replied-wrote_all body size x.bytes_received)
        (by_tests (wrote_all size x.written) (wrote_all size x.bytes_received))
    where
      by_tests :
          (written read : Bool)
          → Adds c
              (if not written
                then close_socket fd c
                else if not read
                then close_socket fd c
                else close_socket fd (record c {
                  total_response_time = c.total_response_time + response_time;
                  successful_requests = c.successful_requests + 1;
                }))
              0
              0
              (one_if (written && read))
              []
              (fd ∷ [])
      by_tests false read = close_socket-Adds fd c
      by_tests true false = close_socket-Adds fd c
      by_tests true true =
          Adds-Adds {r = 0} {m = 0} {g = 1} refl refl refl
            (sockets_kept-Adds (omega arith) (omega arith) refl refl refl) (close_socket-Adds fd _)

  connected_to-Adds :
      (sock : Option ℕ) (size : ℕ) (a : Attempt) (c : Client)
      → Adds c
          (connected_to (generate body) sock size a c)
          0
          0
          (one_if (succeeds size a sock))
          (socket_of sock)
          (socket_of sock)
  unfolding connected_to
  connected_to-Adds none size a c = unchanged-Adds c
  connected_to-Adds (some fd) size a c =
      Adds-Adds refl refl (omega arith) (open_socket-Adds fd c)
        (by_tests a.connecting.address_ok a.connecting.connected)
    where
      d : Client
      d = open_socket fd c

      by_tests :
          (address_ok connected : Bool)
          → Adds d
              (if not address_ok
                then close_socket fd d
                else if not connected
                then close_socket fd d
                else exchanged (generate body) size a.exchange fd a.response_time d)
              0
              0
              (one_if (address_ok && connected && is_complete size a.exchange))
              []
              (fd ∷ [])
      by_tests false connected = close_socket-Adds fd d
      by_tests true false = close_socket-Adds fd d
      by_tests true true = exchanged-Adds size a.exchange fd a.response_time d

  pub request-Adds :
      (a : Attempt) (c : Client)
      → Adds c
          (request (generate body) a c)
          1
          1
          (one_if (succeeds (c.ms % 512) a a.connecting.sock))
          (socket_of a.connecting.sock)
          (socket_of a.connecting.sock)
  unfolding request
  request-Adds a c =
      Adds-Adds {r = 1} {m = 1} {g = 0} refl refl (omega arith)
        (sockets_kept-Adds refl refl (omega arith) refl refl)
        (connected_to-Adds a.connecting.sock (c.ms % 512) a _)

  -- A thread of client.cpp counts every request it makes and goes through one message size for each. It
  -- counts as successful exactly those that get a socket and a connection, write the whole packet and
  -- read as many bytes back. Every socket that it opens is closed again, once each and in order.
  pub client_thread-Adds :
      (attempts : List Attempt) (c : Client)
      → Adds c
          (client_thread (generate body) attempts c)
          (length attempts)
          (length attempts)
          (successes c.ms attempts)
          (sockets attempts)
          (sockets attempts)
  unfolding client_thread successes sockets
  client_thread-Adds [] c = unchanged-Adds c
  client_thread-Adds (a ∷ attempts) c =
      Adds-Adds (omega arith) (omega arith)
        (ap (λ n. one_if (succeeds (c.ms % 512) a a.connecting.sock) + successes n attempts)
          (request-Adds a c).next)
        (request-Adds a c) (client_thread-Adds attempts (request (generate body) a c))
