-- ===== src/Server/Closing.antt =====
-- The way of a close through the threads: `Connection::HandleClose`, `HandleCloseInLoop` on the main
-- reactor, and `ConnectionDestructor` on the connection's loop, each waiting in the list of its loop.
-- The ids of the threads are any numbers, since `tid_` of a loop is never assigned.
pub mod Queues
pub mod Stages
pub mod Run
use epoll_server.Base.{
  ℕ, ◌+◌, ◌≡◌, Bool, true, false, Option, none, some, List, [], ◌∷◌, ◌++◌, ◌==◌, if◌then◌else◌,
  update,
}
use epoll_server.EventLoop.{EventLoop}
use epoll_server.Connection.State.{disconnected, Session, is_disconnected, connection_destructor}
use epoll_server.Connection.State as ConnectionState
use epoll_server.Server.{ConnRef, Task, close_in_loop, destroy, Server, handle_close_in_loop}
use epoll_server.Server as ServerParts

-- The server, the loops by their numbers, and one of the connections; `destroyed` is whether its
-- ConnectionDestructor has run.
pub record World : Type 0 where
  pub server : Server
  pub loops : ℕ → EventLoop Task
  pub session : Session
  pub destroyed : Bool

abbrev pub with_list : List Task → EventLoop Task → EventLoop Task
with_list ts l = record l { to_do_list = ts }

module _ (c : ConnRef) where
  abbrev pub is_own : Task → Bool
  is_own (close_in_loop d) = d.id == c.id
  is_own (destroy d) = d.id == c.id

  -- The tasks of this connection.
  unfoldable pub own : List Task → List Task
  own [] = []
  own (t ∷ ts) = let rest = own ts in if is_own t then t ∷ rest else rest

-- The connection is `c`, and `main_reactor` the number of the main loop.
module _ (c : ConnRef) (main_reactor : ℕ) where
  abbrev pub after_call : World → Option (Server × (ℕ → EventLoop Task)) → Option World
  after_call w none = none
  after_call w (some (s, loops)) = some (record w { server = s; loops = loops })

  -- A task of this connection is run on the thread `self`; `ok` is what `epoll_ctl` answers.
  unfoldable pub call : (self : ℕ) (ok : Bool) → Task → World → Option World
  call self ok (close_in_loop d) w = after_call w (handle_close_in_loop self d w.loops w.server)
  call self ok (destroy d) w =
      some (record w { session = connection_destructor ok w.session; destroyed = true })

  abbrev pub after_run_one : ℕ → Bool → World → EventLoop Task × Option Task → Option World
  after_run_one self ok w (l, none) = some (record w { loops = update w.loops main_reactor l })
  after_run_one self ok w (l, some t) =
      call self ok t (record w { loops = update w.loops main_reactor l })

  -- `Connection::HandleClose` on the thread `self`, with the close callback, `Server::HandleClose`.
  unfoldable pub close : (self : ℕ) (ok : Bool) → World → Option World
  close self ok w =
      let v : World = record w { session = ConnectionState.handle_close w.session } in
      if is_disconnected w.session.conn.state
      then some w
      else if w.session.conn.on_close_callback
      then after_run_one self ok v (ServerParts.handle_close self c (v.loops main_reactor))
      else some v

  -- What happens elsewhere: the lists of the loops keep the tasks of this connection, no other connection
  -- has its descriptor before it is destroyed, and its other events leave alone what HandleClose reads and
  -- writes.
  pub record Elsewhere (w v : World) : Type 0 where
    pub tasks : (i : ℕ) → own c (v.loops i).to_do_list ≡ own c (w.loops i).to_do_list
    pub entry :
        w.destroyed ≡ false
        → v.server.connections_map c.client_fd ≡ w.server.connections_map c.client_fd
    pub state : v.session.conn.state ≡ w.session.conn.state
    pub callback : v.session.conn.on_close_callback ≡ w.session.conn.on_close_callback
    pub calls : v.session.close_calls ≡ w.session.close_calls
    pub destroyed : v.destroyed ≡ w.destroyed
    pub frozen : w.destroyed ≡ true → v.session ≡ w.session

  -- One of these tasks is taken from any place of a list and run.
  pub data Step (w : World) : World → Type 0 where
    elsewhere : {v : World} → Elsewhere w v → Step w v
    closes : (self : ℕ) (ok : Bool) {v : World} → close self ok w ≡ some v → Step w v
    runs :
        (self i : ℕ) (ok : Bool) (before after : List Task) (t : Task) {v : World}
        → (w.loops i).to_do_list ≡ before ++ (t ∷ after)
        → is_own c t ≡ true
        → call self ok t
            (record w { loops = update w.loops i (with_list (before ++ after) (w.loops i)) })
          ≡ some v
        → Step w v

  pub data Reach (w : World) : World → Type 0 where
    here : Reach w w
    next : {v u : World} → Reach w v → Step v u → Reach w u
