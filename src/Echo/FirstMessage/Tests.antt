-- ===== src/Echo/FirstMessage/Tests.antt =====
-- Descriptor 7, which loop 1 serves, sends a message of two bytes at once; its socket takes four.
use epoll_server.Base.{ℕ, ◌≡◌, refl, true, false, some, List, [], ◌∷◌, ◌++◌, arith}
use epoll_server.Tlv.{swap, bytes, of_bytes, store32, load32, htonl}
use epoll_server.ThreadPool.{ThreadPool, next_event_loop, loop_at}
use epoll_server.Connection.State.{invalid, ReadReply, wrote, Session, connection_established}
use epoll_server.Connection.State as ConnectionState
use epoll_server.Connection.Events.{event}
use epoll_server.Connection.Reader.{read_round, wanted, header_bytes, header_complete, body_bytes}
use epoll_server.Connection.Reader.Bounds.{Fitting}
use epoll_server.Connection.Sample.{hello, whole, whole_data}
use epoll_server.Server.{Setup, init, insert, new_connection}
use epoll_server.Server.Accepting.{Accepting, accept_event}
use epoll_server.Echo.{on_message, on_connection}
use epoll_server.Echo.FirstMessage.{new_session, ready, Replied, first_message-Replied}
use epoll_server.Connection.Sender.Order.{frame}

abbrev setup : Setup
setup = record { state = invalid; tied = true; et_ok = true; read_ok = true }

abbrev one_thread : ThreadPool ℕ
one_thread = record {
  main_reactor = 0;
  sub_reactors = 1;
  event_loops = 1 ∷ [];
  thread_nums = 1;
  next = 0;
}

one_thread-next : next_event_loop one_thread ≡ some (1, one_thread)
unfolding next_event_loop loop_at
one_thread-next = refl

abbrev ready_server : Accepting
ready_server = record {
  accept_channel = record {
    client_fd = 3;
    listening_events = 3;
    ready_events = 1;
    in_epoll = true;
    failed = false;
    tied = false;
  };
  server = init one_thread;
  made = [];
}

abbrev new_client : Session
new_client = ready 5 (new_session setup 7)

new_client-Fitting : Fitting whole new_client
unfolding connection_established new_connection ConnectionState.init read_round wanted header_bytes
    header_complete body_bytes swap bytes of_bytes store32 load32 htonl
new_client-Fitting = omega arith

pool_next : next_event_loop ready_server.server.thread_pool ≡ some (1, one_thread)
unfolding init
pool_next = one_thread-next

first_message-Replied_example :
    (accept_event setup (some on_connection) 1 (some 7) false true ready_server
      ≡ some (record ready_server {
        server = record {
          thread_pool = one_thread;
          connections_map =
              insert 7
                (record { id = 1; client_fd = 7; event_loop = 1 })
                ready_server.server.connections_map;
        };
        made = (record { id = 1; client_fd = 7; event_loop = 1 }, new_session setup 7) ∷ [];
      }))
    × (v : Session) × (rest : List ReadReply) × (event
          (some (on_message true))
          (wrote 4)
          true
          true
          (whole ++ [])
          new_client
        ≡ some (v, rest ++ []))
    × Replied 4 hello v
unfolding frame
first_message-Replied_example =
    first_message-Replied setup 1 7 1 one_thread false true true true ready_server 5 4 hello whole
      [] refl pool_next (omega arith) (omega arith) refl (omega arith) new_client-Fitting whole_data
