-- ===== src/Server.antt =====
-- server.h, server.cpp, and `Accept` of acceptor.cpp: the connections that a server owns.
-- A `ConnRef` stands for a `shared_ptr` to a connection: which object it is, and the two fields that
-- the server reads. A pointer to an event loop is its number.
pub mod Lifecycle
pub mod Owners
pub mod Transitions
pub mod Safety
pub mod NewConnection
pub mod Accepting
pub mod Closing
mod Tests
use epoll_server.Base.{ℕ, Bool, true, false, Option, none, some, List, [], ◌==◌, if◌then◌else◌}
use epoll_server.ThreadPool
use epoll_server.ThreadPool.{ThreadPool, next_event_loop}
use epoll_server.EventLoop.{EventLoop, run_one_func, queue_one_func}
use epoll_server.Connection.State.{ConnectionState, Connection, Session, connection_established}
use epoll_server.Connection.State as ConnectionState

pub record ConnRef : Type 0 where
  pub id : ℕ
  pub client_fd : ℕ
  pub event_loop : ℕ

-- What the server and the connections hand to the event loops: `HandleCloseInLoop` and
-- `ConnectionDestructor`, each bound to a connection.
pub data Task : Type 0 where
  close_in_loop destroy : ConnRef → Task

-- `connectionsMap`: what it has for a descriptor.
abbrev pub ConnectionsMap : Type 0
ConnectionsMap = ℕ → Option ConnRef

unfoldable pub insert : ℕ → ConnRef → ConnectionsMap → ConnectionsMap
insert fd conn m = λ key. if key == fd then some conn else m key

unfoldable pub erase : ℕ → ConnectionsMap → ConnectionsMap
erase fd m = λ key. if key == fd then none else m key

pub record Server : Type 0 where
  pub thread_pool : ThreadPool ℕ
  pub connections_map : ConnectionsMap

unfoldable pub init : ThreadPool ℕ → Server
init pool = record { thread_pool = pool; connections_map = λ key. none }

abbrev pub set_thread_nums : ℕ → Server → Server
set_thread_nums n s = record s { thread_pool = ThreadPool.set_thread_nums n s.thread_pool }

-- What is indeterminate in a new connection, and what `epoll_ctl` answers while it is set up.
pub record Setup : Type 0 where
  pub state : ConnectionState
  pub tied : Bool
  pub et_ok : Bool
  pub read_ok : Bool

-- The new connection with its close callback set.
unfoldable pub new_connection : Setup → ℕ → Session
new_connection setup fd = record {
  conn = record (ConnectionState.init setup.state setup.tied setup.et_ok fd) {
    on_close_callback = true;
  };
  wire = [];
  close_calls = 0;
}

-- `HandleNewConnection`; `id` tells the new object from all others. `none` is an index out of range in
-- the thread pool.
unfoldable pub handle_new_connection :
    Setup → Option (Session → Session) → ℕ → ℕ → Server → Option (Server × ConnRef × Session)
unfolding insert new_connection
handle_new_connection setup on_connect id fd s = elim (next_event_loop s.thread_pool) [
  | none ↦ none
  | some (sub_reactor, pool) ↦
      (let conn : ConnRef = record { id = id; client_fd = fd; event_loop = sub_reactor } in
        some (
          record s { thread_pool = pool; connections_map = insert fd conn s.connections_map },
          conn,
          connection_established setup.read_ok on_connect (new_connection setup fd),
        ))
]

-- `Accept`: what `accept4` answers, and the callback if it is set. The line logged and the `close(-1)` after
-- an answer of -1, which closes nothing, are left out.
unfoldable pub accept {ℓ} : {S : Type ℓ} → Option ℕ → Option (ℕ → S → S) → S → S
accept none callback s = s
accept (some fd) none s = s
accept (some fd) (some callback) s = callback fd s

-- `HandleClose`, called on the thread `caller`: `HandleCloseInLoop` goes to the main reactor, or comes
-- back to be run at once.
unfoldable pub handle_close : ℕ → ConnRef → EventLoop Task → EventLoop Task × Option Task
handle_close caller conn main_reactor = run_one_func caller (close_in_loop conn) main_reactor

-- `loop->QueueOneFunc(std::bind(&Connection::ConnectionDestructor, conn))`
unfoldable pub queue_destructor : ℕ → ConnRef → (ℕ → EventLoop Task) → ℕ → EventLoop Task
queue_destructor caller conn loops i =
    if i == conn.event_loop then queue_one_func caller (destroy conn) (loops i) else loops i

-- `HandleCloseInLoop`: the entry is erased, and `ConnectionDestructor` is handed to the connection's
-- loop. `none` is the failure of its assertion.
unfoldable pub handle_close_in_loop :
    ℕ → ConnRef → (ℕ → EventLoop Task) → Server → Option (Server × (ℕ → EventLoop Task))
unfolding erase
handle_close_in_loop caller conn loops s = elim (s.connections_map conn.client_fd) [
  | none ↦ none
  | some found ↦ some (
    record s { connections_map = erase conn.client_fd s.connections_map },
    queue_destructor caller conn loops,
  )
]
