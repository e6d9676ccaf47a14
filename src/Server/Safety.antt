-- ===== src/Server/Safety.antt =====
-- What the map of connections holds at any time of their lives.
use epoll_server.Base.{ℕ, ◌≡◌, refl, sym, ap, ◌∙◌, subst, some, List, ◌∷◌, ◌++◌}
use epoll_server.ThreadPool.{ThreadPool}
use epoll_server.EventLoop.{EventLoop}
use epoll_server.Server.{Task, init, insert, erase, handle_close_in_loop, queue_destructor}
use epoll_server.Server.Lifecycle.{
  serving, closing, destroying, Live, System, Unused, with_phase, Step, accepted, close_called,
  close_run, destroyed, Reach, here, next, starting,
}
use epoll_server.Server.Owners.{
  entry_of, Owned, handle_new_connection-map, handle_close_in_loop-map, handle_close_in_loop_found,
}
use epoll_server.Server.Transitions.{
  Owned-Placed, insert-Owned, close_called-Owned, erase-Owned, destroyed-Owned,
}

abbrev pub IsOwned : System → Type 0
IsOwned y = Owned y.server.connections_map y.live

Step-IsOwned : {y z : System} → Step y z → IsOwned y → IsOwned z
Step-IsOwned {y} (accepted setup on_connect id fd {s} {c} unused e) o =
    let (map, same) = handle_new_connection-map setup on_connect id fd y.server e in
    let at_fd : Unused c.client_fd y.live = subst (λ k. Unused k y.live) (sym same) unused in
    let inserted : s.connections_map ≡ insert c.client_fd c y.server.connections_map =
      map ∙ ap (λ k. insert k c y.server.connections_map) (sym same) in
    subst (λ m. Owned m (record { conn = c; phase = serving } ∷ y.live)) (sym inserted)
      (insert-Owned c y.server.connections_map y.live at_fd o)
Step-IsOwned {y} (close_called before after l e phase) o =
    close_called-Owned y.server.connections_map before after l phase
      (subst (Owned y.server.connections_map) e o)
Step-IsOwned {y} (close_run caller before after l e phase run) o =
    subst (λ m. Owned m (before ++ (with_phase destroying l ∷ after)))
      (sym (handle_close_in_loop-map caller l.conn y.loops y.server run))
      (erase-Owned y.server.connections_map before after l
        (subst (Owned y.server.connections_map) e o))
Step-IsOwned {y} (destroyed before after l e phase) o =
    destroyed-Owned y.server.connections_map before after l phase
      (subst (Owned y.server.connections_map) e o)

pub starting-IsOwned :
    (pool : ThreadPool ℕ) (loops : ℕ → EventLoop Task) → IsOwned (starting pool loops)
unfolding init
starting-IsOwned pool loops = record { apart = tt; entries = tt; empty = λ fd u. refl }

-- If accept4 gives only descriptors that are not open, then at any time after the start of a server,
-- in whatever order its event loops run the functions handed to them: no two connection objects have
-- the same descriptor; the map has, for the descriptor of an object, that object until
-- HandleCloseInLoop has run for it and nothing from then on; and it has nothing for a descriptor
-- that is no object's, so that HandleNewConnection overwrites no entry.
pub Reach-IsOwned :
    (pool : ThreadPool ℕ) (loops : ℕ → EventLoop Task) {y : System}
    → Reach (starting pool loops) y
    → IsOwned y
Reach-IsOwned pool loops here = starting-IsOwned pool loops
Reach-IsOwned pool loops (next reach step) = Step-IsOwned step (Reach-IsOwned pool loops reach)

-- Whenever HandleCloseInLoop is due for a connection, its assertion holds, whichever thread runs it:
-- the map has an entry for the descriptor, and it is that connection's; the call takes it out and
-- leaves the rest of the map, and ConnectionDestructor is queued in the connection's own loop.
pub Reach-handle_close_in_loop :
    {y : System} (pool : ThreadPool ℕ) (loops : ℕ → EventLoop Task) (caller : ℕ)
    (before after : List Live) (l : Live)
    → Reach (starting pool loops) y
    → y.live ≡ before ++ (l ∷ after)
    → l.phase ≡ closing
    → (y.server.connections_map l.conn.client_fd ≡ some l.conn)
      × (handle_close_in_loop caller l.conn y.loops y.server
          ≡ some (
            record (y.server) { connections_map = erase l.conn.client_fd y.server.connections_map },
            queue_destructor caller l.conn y.loops,
          ))
Reach-handle_close_in_loop {y} pool loops caller before after l reach e phase =
    let o : Owned y.server.connections_map (before ++ (l ∷ after)) =
      subst (Owned y.server.connections_map) e (Reach-IsOwned pool loops reach) in
    let found : y.server.connections_map l.conn.client_fd ≡ some l.conn =
      (Owned-Placed y.server.connections_map before after l o).entry
      ∙ ap (λ q. entry_of (with_phase q l)) phase in
    (found, handle_close_in_loop_found caller l.conn l.conn y.loops y.server found)
