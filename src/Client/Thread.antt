-- ===== src/Client/Thread.antt =====
-- `client_thread` of client.cpp (a connection for each request) and of client_longconn.cpp (one for
-- all), on the counters of the test and the sockets opened and closed. What the calls of the system
-- answer is an argument; a call that answers -1 has `none` for its number. `generate` is what
-- `generateRandomPackage` gives for a length.
use epoll_server.Base.{
  ℕ, ◌+◌, ◌%◌, Bool, false, not, ◌&&◌, Option, none, some, List, [], ◌∷◌, ◌++◌, ◌==◌, if◌then◌else◌,
}
use epoll_server.Tlv.{tlv_header_length}
use epoll_server.Client.{accepts_reply}

pub record Client : Type 0 where
  pub total_requests : ℕ
  pub successful_requests : ℕ
  pub total_response_time : ℕ
  pub ms : ℕ
  pub opened : List ℕ
  pub closed : List ℕ

-- `socket`, `inet_pton` and `connect`.
pub record Connecting : Type 0 where
  pub sock : Option ℕ
  pub address_ok : Bool
  pub connected : Bool

-- `write` and `read`.
pub record Exchange : Type 0 where
  pub written : Option ℕ
  pub bytes_received : Option ℕ

-- One request of client.cpp, and the time that it takes.
pub record Attempt : Type 0 where
  pub connecting : Connecting
  pub exchange : Exchange
  pub response_time : ℕ

unfoldable pub open_socket : ℕ → Client → Client
open_socket fd c = record c { opened = c.opened ++ (fd ∷ []) }

unfoldable pub close_socket : ℕ → Client → Client
close_socket fd c = record c { closed = c.closed ++ (fd ∷ []) }

-- The test on what `write` answers.
abbrev pub wrote_all : ℕ → Option ℕ → Bool
wrote_all size none = false
wrote_all size (some n) = n == size + tlv_header_length

-- The test on the reply.
abbrev pub replied : ℕ → List ℕ → Option ℕ → Bool
replied size packet none = false
replied size packet (some n) = accepts_reply size packet n

-- The exchange of one message goes well.
abbrev pub accepted : (ℕ → List ℕ) → ℕ → Exchange → Bool
accepted generate size x = wrote_all size x.written && replied size (generate size) x.bytes_received

abbrev pub count_success : Client → Client
count_success c = record c { successful_requests = c.successful_requests + 1 }

abbrev pub count_time : ℕ → Client → Client
count_time time c = record c { total_response_time = c.total_response_time + time }

-- MAX_MESSAGE_SIZE of client.cpp
abbrev pub max_message_size : ℕ
max_message_size = 512

-- MAX_MESSAGE_SIZE and REQUESTS_PER_THREAD of client_longconn.cpp
abbrev pub long_max_message_size : ℕ
long_max_message_size = 256

abbrev pub requests_per_thread : ℕ
requests_per_thread = 100000

module _ (generate : ℕ → List ℕ) where
  unfoldable pub exchanged : ℕ → Exchange → ℕ → ℕ → Client → Client
  unfolding close_socket
  exchanged size x fd response_time c =
      if not (wrote_all size x.written)
      then close_socket fd c
      else if not (replied size (generate size) x.bytes_received)
      then close_socket fd c
      else close_socket fd (record c {
        total_response_time = c.total_response_time + response_time;
        successful_requests = c.successful_requests + 1;
      })

  unfoldable pub connected_to : Option ℕ → ℕ → Attempt → Client → Client
  unfolding open_socket close_socket exchanged
  connected_to none size a c = c
  connected_to (some fd) size a c =
      let d : Client = open_socket fd c in
      if not a.connecting.address_ok
      then close_socket fd d
      else if not a.connecting.connected
      then close_socket fd d
      else exchanged size a.exchange fd a.response_time d

  -- One round of the loop of client.cpp.
  unfoldable pub request : Attempt → Client → Client
  unfolding connected_to
  request a c =
      connected_to a.connecting.sock (c.ms % max_message_size) a
        (record c { ms = c.ms + 1; total_requests = c.total_requests + 1 })

  unfoldable pub client_thread : List Attempt → Client → Client
  unfolding request
  client_thread [] c = c
  client_thread (a ∷ attempts) c = client_thread attempts (request a c)

  -- The loop of client_longconn.cpp, and what follows it.
  unfoldable pub long_exchanges : ℕ → ℕ → List Exchange → Client → Client
  unfolding close_socket
  long_exchanges fd response_time [] c =
      close_socket fd (record c { total_response_time = c.total_response_time + response_time })
  long_exchanges fd response_time (x ∷ xs) c =
      let size : ℕ = c.ms % long_max_message_size in
      let d : Client = record c { ms = c.ms + 1 } in
      let rest : Client =
        long_exchanges fd response_time xs
          (record d { successful_requests = d.successful_requests + 1 }) in
      if not (wrote_all size x.written)
      then close_socket fd d
      else if not (replied size (generate size) x.bytes_received)
      then close_socket fd d
      else rest

  unfoldable pub long_connected : Option ℕ → Connecting → ℕ → List Exchange → Client → Client
  unfolding open_socket close_socket long_exchanges
  long_connected none k response_time xs c = c
  long_connected (some fd) k response_time xs c =
      let d : Client = open_socket fd c in
      if not k.address_ok
      then close_socket fd d
      else if not k.connected
      then close_socket fd d
      else long_exchanges fd response_time xs d

  unfoldable pub client_thread_longconn : Connecting → ℕ → List Exchange → Client → Client
  unfolding long_connected
  client_thread_longconn k response_time xs c =
      long_connected k.sock k response_time xs
        (record c { total_requests = c.total_requests + requests_per_thread })
