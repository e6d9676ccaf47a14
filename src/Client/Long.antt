-- ===== src/Client/Long.antt =====
-- What the counters and the socket of a thread of client_longconn.cpp come to.
pub mod Moves
pub mod Accounts
pub mod Run
mod Tests
use epoll_server.Base.{
  ℕ, suc, ◌+◌, ◌%◌, refl, Bool, true, false, not, ◌&&◌, Option, none, some, List, [], ◌∷◌,
  if◌then◌else◌, arith,
}
use epoll_server.Client.Thread.{
  Client, Exchange, Connecting, open_socket, close_socket, wrote_all, long_exchanges,
  long_connected, client_thread_longconn, requests_per_thread,
}
use epoll_server.Client.Adds.{
  is_complete, socket_of, Adds, sockets_kept-Adds, unchanged-Adds, open_socket-Adds,
  close_socket-Adds, Adds-Adds, generate, replied-wrote_all,
}

-- One connection for all messages: the first of them that fails ends the thread.
unfoldable pub long_successes : ℕ → List Exchange → ℕ
long_successes ms [] = 0
long_successes ms (x ∷ xs) =
    let rest : ℕ = long_successes (ms + 1) xs in if is_complete (ms % 256) x then suc rest else 0

unfoldable pub long_messages : ℕ → List Exchange → ℕ
long_messages ms [] = 0
long_messages ms (x ∷ xs) =
    let rest : ℕ = long_messages (ms + 1) xs in if is_complete (ms % 256) x then suc rest else 1

-- What a thread without a connection adds none of.
abbrev pub if_connected : Option ℕ → Connecting → ℕ → ℕ
if_connected none k n = 0
if_connected (some fd) k n = if k.address_ok && k.connected then n else 0

module _ (body : ℕ → List ℕ) where
  long_exchanges-Adds :
      (fd response_time : ℕ) (xs : List Exchange) (c : Client)
      → Adds c
          (long_exchanges (generate body) fd response_time xs c)
          0
          (long_messages c.ms xs)
          (long_successes c.ms xs)
          []
          (fd ∷ [])
  unfolding long_exchanges long_messages long_successes
  long_exchanges-Adds fd response_time [] c =
      Adds-Adds {r = 0} {m = 0} {g = 0} refl refl refl
        (sockets_kept-Adds (omega arith) (omega arith) (omega arith) refl refl)
        (close_socket-Adds fd _)
  long_exchanges-Adds fd response_time (x ∷ xs) c =
      rw (replied-wrote_all body (c.ms % 256) x.bytes_received) (
        by_tests (wrote_all (c.ms % 256) x.written) (wrote_all (c.ms % 256) x.bytes_received)
          (long_exchanges-Adds fd response_time xs e))
    where
      d : Client
      d = record c { ms = c.ms + 1 }

      e : Client
      e = record d { successful_requests = d.successful_requests + 1 }

      rest : Client
      rest = long_exchanges (generate body) fd response_time xs e

      stopped : Adds c (close_socket fd d) 0 1 0 [] (fd ∷ [])
      stopped =
          Adds-Adds {r = 0} {m = 1} {g = 0} refl refl refl
            (sockets_kept-Adds (omega arith) refl (omega arith) refl refl) (close_socket-Adds fd d)

      by_tests :
          (written read : Bool)
          → Adds e rest 0 (long_messages (c.ms + 1) xs) (long_successes (c.ms + 1) xs) [] (fd ∷ [])
          → Adds c
              (if not written
                then close_socket fd d
                else if not read
                then close_socket fd d
                else rest)
              0
              (if written && read then suc (long_messages (c.ms + 1) xs) else 1)
              (if written && read then suc (long_successes (c.ms + 1) xs) else 0)
              []
              (fd ∷ [])
      by_tests false read h = stopped
      by_tests true false h = stopped
      by_tests true true h =
          Adds-Adds {r = 0} {m = 1} {g = 1} refl (omega arith) (omega arith)
            (sockets_kept-Adds (omega arith) refl refl refl refl) h

  long_connected-Adds :
      (sock : Option ℕ) (k : Connecting) (response_time : ℕ) (xs : List Exchange) (c : Client)
      → Adds c
          (long_connected (generate body) sock k response_time xs c)
          0
          (if_connected sock k (long_messages c.ms xs))
          (if_connected sock k (long_successes c.ms xs))
          (socket_of sock)
          (socket_of sock)
  unfolding long_connected open_socket
  long_connected-Adds none k response_time xs c = unchanged-Adds c
  long_connected-Adds (some fd) k response_time xs c =
      Adds-Adds {r = 0} {m = 0} {g = 0} refl (omega arith) (omega arith) (open_socket-Adds fd c)
        (by_tests k.address_ok k.connected)
    where
      d : Client
      d = open_socket fd c

      by_tests :
          (address_ok connected : Bool)
          → Adds d
              (if not address_ok
                then close_socket fd d
                else if not connected
                then close_socket fd d
                else long_exchanges (generate body) fd response_time xs d)
              0
              (if address_ok && connected then long_messages c.ms xs else 0)
              (if address_ok && connected then long_successes c.ms xs else 0)
              []
              (fd ∷ [])
      by_tests false connected = close_socket-Adds fd d
      by_tests true false = close_socket-Adds fd d
      by_tests true true = long_exchanges-Adds fd response_time xs d

  -- A thread of client_longconn.cpp counts all its requests before it makes any. Without a connection
  -- it counts no success and makes no message; with one it counts the successes up to the first message
  -- that is not written whole or not answered whole, and sends no message after that. The one socket
  -- that it opens is closed again, once, in each case.
  pub client_thread_longconn-Adds :
      (k : Connecting) (response_time : ℕ) (xs : List Exchange) (c : Client)
      → Adds c
          (client_thread_longconn (generate body) k response_time xs c)
          requests_per_thread
          (if_connected k.sock k (long_messages c.ms xs))
          (if_connected k.sock k (long_successes c.ms xs))
          (socket_of k.sock)
          (socket_of k.sock)
  unfolding client_thread_longconn
  client_thread_longconn-Adds k response_time xs c =
      Adds-Adds {r = requests_per_thread} {m = 0} {g = 0} refl (omega arith) (omega arith)
        (sockets_kept-Adds refl (omega arith) (omega arith) refl refl)
        (long_connected-Adds k.sock k response_time xs _)
