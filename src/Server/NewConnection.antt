-- ===== src/Server/NewConnection.antt =====
-- The connection that `HandleNewConnection` makes.
use epoll_server.Base.{ℕ, ◌+◌, ◌≡◌, refl, Bool, true, false, Option, none, some, [], ◌++◌, arith}
use epoll_server.Buffer
use epoll_server.Buffer.Contents.{IsValid, contents}
use epoll_server.Channel.State as ChannelState
use epoll_server.Channel.State.{epollin, epollpri, epollet, listen, tie, set_in_epoll, set_failed}
use epoll_server.Channel.Dispatch.{call}
use epoll_server.Channel.Enable.{enable_et, enable_read}
use epoll_server.Epoller.{update_channel}
use epoll_server.ThreadPool.{ThreadPool, next_event_loop}
use epoll_server.Connection.State.{ConnectionState, connected, Session, connection_established}
use epoll_server.Connection.State as ConnectionState
use epoll_server.Connection.Reader.Delivery.{IsFresh}
use epoll_server.Server.{Server, Setup, insert, new_connection, handle_new_connection}

-- An open connection that has read, written and closed nothing, and listens for input.
pub record IsOpen (fd : ℕ) (t : Session) : Type 0 where
  pub descriptor : t.conn.client_fd ≡ fd
  pub state : t.conn.state ≡ connected
  pub reader : IsFresh t
  pub buffer : IsValid t.conn.send_buffer
  pub nothing_out : t.wire ++ contents t.conn.send_buffer ≡ []
  pub not_closed : t.close_calls ≡ 0
  pub will_report : t.conn.on_close_callback ≡ true
  pub tied : t.conn.channel.tied ≡ true
  pub listens : t.conn.channel.listening_events ≡ epollet + epollin + epollpri

channel_listens :
    (et_ok read_ok tied : Bool) (fd : ℕ)
    → ((enable_read read_ok (tie (enable_et et_ok (ChannelState.init fd tied)))).listening_events
        ≡ epollet + epollin + epollpri)
      × ((enable_read read_ok (tie (enable_et et_ok (ChannelState.init fd tied)))).tied ≡ true)
unfolding enable_read enable_et ChannelState.init listen tie update_channel set_in_epoll set_failed
channel_listens true true tied fd = (refl, refl)
channel_listens true false tied fd = (refl, refl)
channel_listens false true tied fd = (refl, refl)
channel_listens false false tied fd = (refl, refl)

pub established-IsOpen :
    (setup : Setup) (fd : ℕ)
    → IsOpen fd (connection_established setup.read_ok none (new_connection setup fd))
unfolding connection_established new_connection ConnectionState.init Buffer.init contents
established-IsOpen setup fd = record {
  descriptor = refl;
  state = refl;
  reader = record { no_header = refl; no_body = refl; waiting = refl };
  buffer = record { read_in = omega arith; write_in = omega arith };
  nothing_out = refl;
  not_closed = refl;
  will_report = refl;
  tied = (channel_listens setup.et_ok setup.read_ok setup.tied fd).1;
  listens = (channel_listens setup.et_ok setup.read_ok setup.tied fd).0;
}

-- If the pool has a loop to offer, then HandleNewConnection puts under the descriptor a connection
-- that this loop serves, and runs the connection callback, if one is set, once, on an open connection,
-- whatever its memory held before and whether or not epoll_ctl succeeds: its reader is between two frames, its send buffer is
-- valid and empty, its close callback is set and has not run, and its channel is tied to it and
-- listens for exactly EPOLLET, EPOLLIN and EPOLLPRI.
pub handle_new_connection-IsOpen :
    (setup : Setup) (on_connect : Option (Session → Session)) (id fd i : ℕ) (pool : ThreadPool ℕ)
    (y : Server)
    → next_event_loop y.thread_pool ≡ some (i, pool)
    → (t : Session) × (handle_new_connection setup on_connect id fd y
        ≡ some (
          record {
            thread_pool = pool;
            connections_map =
                insert fd (record { id = id; client_fd = fd; event_loop = i }) y.connections_map;
          },
          record { id = id; client_fd = fd; event_loop = i },
          call on_connect t,
        ))
      × IsOpen fd t
unfolding handle_new_connection connection_established
handle_new_connection-IsOpen setup on_connect id fd i pool y e = (
  connection_established setup.read_ok none (new_connection setup fd),
  rw (e, handle_new_connection) refl,
  established-IsOpen setup fd,
)
