-- ===== src/Server/Lifecycle.antt =====
-- The life of the connections of a server, from `accept4` to the destructor.
-- The functions that are handed to the loops may run in any order and at any time.
use epoll_server.Base.{ℕ, ◌≡◌, ◌≢◌, Option, some, List, [], ◌∷◌, ◌++◌, All}
use epoll_server.ThreadPool.{ThreadPool}
use epoll_server.EventLoop.{EventLoop}
use epoll_server.Connection.State.{Session}
use epoll_server.Server.{
  ConnRef, Task, Server, init, Setup, handle_new_connection, handle_close_in_loop,
}

-- `HandleClose` has not run; it has handed `HandleCloseInLoop` to the main reactor; that has handed
-- `ConnectionDestructor` to the connection's loop.
pub data Phase : Type 0 where
  serving closing destroying : Phase

-- A connection object whose destructor has not run: its descriptor is open.
pub record Live : Type 0 where
  pub conn : ConnRef
  pub phase : Phase

pub record System : Type 0 where
  pub server : Server
  pub loops : ℕ → EventLoop Task
  pub live : List Live

-- The descriptor is not one of an object's.
abbrev pub Unused : ℕ → List Live → Type 0
Unused fd live = All (λ l. l.conn.client_fd ≢ fd) live

abbrev pub with_phase : Phase → Live → Live
with_phase p l = record l { phase = p }

pub data Step (y : System) : System → Type 0 where
  -- `accept4` gives a descriptor that is not open.
  accepted :
      (setup : Setup) (on_connect : Option (Session → Session)) (id fd : ℕ) {s : Server}
      {c : ConnRef} {session : Session}
      → Unused fd y.live
      → handle_new_connection setup on_connect id fd y.server ≡ some (s, c, session)
      → Step y (record y { server = s; live = record { conn = c; phase = serving } ∷ y.live })
  -- The first `HandleClose` of a connection.
  close_called :
      (before after : List Live) (l : Live)
      → y.live ≡ before ++ (l ∷ after)
      → l.phase ≡ serving
      → Step y (record y { live = before ++ (with_phase closing l ∷ after) })
  -- The main reactor, whose thread is `caller`, runs `HandleCloseInLoop`.
  close_run :
      (caller : ℕ) (before after : List Live) (l : Live) {s : Server} {loops : ℕ → EventLoop Task}
      → y.live ≡ before ++ (l ∷ after)
      → l.phase ≡ closing
      → handle_close_in_loop caller l.conn y.loops y.server ≡ some (s, loops)
      → Step y
          (record { server = s; loops = loops; live = before ++ (with_phase destroying l ∷ after) })
  -- The connection's loop runs `ConnectionDestructor` and drops the last pointer to the object.
  destroyed :
      (before after : List Live) (l : Live)
      → y.live ≡ before ++ (l ∷ after)
      → l.phase ≡ destroying
      → Step y (record y { live = before ++ after })

pub data Reach (y : System) : System → Type 0 where
  here : Reach y y
  next : {z w : System} → Reach y z → Step z w → Reach y w

-- A server with no connections yet.
abbrev pub starting : ThreadPool ℕ → (ℕ → EventLoop Task) → System
starting pool loops = record { server = init pool; loops = loops; live = [] }
