-- ===== src/Server/Accepting.antt =====
-- An event of the acceptor's channel, from `HandleEvent` through `Accept` to the new connection.
use epoll_server.Base.{
  ℕ, ◌≡◌, refl, ap, ◌∙◌, Bool, true, false, Option, none, some, List, ◌∷◌, ◌||◌, has, if_so,
  if_both,
}
use epoll_server.Base.{false≢true}
use epoll_server.Channel.State.{Channel, epollin, epollpri, epollout, epollrdhup}
use epoll_server.Channel.Dispatch.{call, wants_read, handle_event, handle_event_lem}
use epoll_server.ThreadPool.{ThreadPool, next_event_loop}
use epoll_server.Connection.State.{Session}
use epoll_server.Server.{Server, ConnRef, Setup, insert, handle_new_connection, accept}
use epoll_server.Server.NewConnection.{IsOpen, handle_new_connection-IsOpen}

-- The acceptor's channel, the server, and the connections made so far, the last one first.
pub record Accepting : Type 0 where
  pub accept_channel : Channel
  pub server : Server
  pub made : List (ConnRef × Session)

module _ (setup : Setup) (on_connect : Option (Session → Session)) (id : ℕ) where
  abbrev pub add : Accepting → Option (Server × ConnRef × Session) → Option Accepting
  add w none = none
  add w (some (s, c, t)) = some (record w { server = s; made = (c, t) ∷ w.made })

  -- The callback that Server's constructor gives to the acceptor; `none` is an index out of range.
  abbrev pub on_accept : ℕ → Option Accepting → Option Accepting
  on_accept fd none = none
  on_accept fd (some w) = add w (handle_new_connection setup on_connect id fd w.server)

  abbrev pub events_of : Option Accepting → ℕ
  events_of none = 0
  events_of (some w) = w.accept_channel.ready_events

  -- The acceptor's channel has only a read callback, which is `Accept`.
  abbrev pub accept_event : Option ℕ → Bool → Bool → Accepting → Option Accepting
  accept_event reply tied alive w =
      handle_event events_of (some (accept reply (some on_accept))) none tied alive (some w)

  or_left : (a b c : Bool) → a ≡ true → (a || b) || c ≡ true
  or_left true b c e = refl
  or_left false b c e = absurd (false≢true e)

  pub accept_event_reads :
      (reply : Option ℕ) (tied alive : Bool) (w : Accepting)
      → has w.accept_channel.ready_events epollin ≡ true
      → events_of (accept reply (some on_accept) (some w)) ≡ w.accept_channel.ready_events
      → accept_event reply tied alive w ≡ accept reply (some on_accept) (some w)
  accept_event_reads reply tied alive w due same =
      let t : Option Accepting = accept reply (some on_accept) (some w) in
      let mask : ℕ = w.accept_channel.ready_events in
      handle_event_lem events_of (some (accept reply (some on_accept))) none tied alive (some w)
        same
      ∙ if_so (wants_read mask) _ _
          (or_left (has mask epollin) (has mask epollpri) (has mask epollrdhup) due)
      ∙ if_both (λ u. u ≡ t) (has mask epollout) t t (λ _. refl) (λ _. refl)

-- When the acceptor's channel is ready for EPOLLIN, whatever else it is ready for, and the pool has a loop
-- to offer, HandleEvent calls accept4 once. If that answers -1, nothing changes. If it answers a
-- descriptor, there is one connection more: under the descriptor the map has a connection that this loop
-- serves, and the connection callback, if one is set, has run on it when it was open, with its reader
-- between two frames, its send buffer valid and empty, its close callback set and not run, and its channel
-- tied to it and listening for exactly EPOLLET, EPOLLIN and EPOLLPRI.
pub accept_event-IsOpen :
    (setup : Setup) (on_connect : Option (Session → Session)) (id fd i : ℕ) (pool : ThreadPool ℕ)
    (tied alive : Bool) (w : Accepting)
    → has w.accept_channel.ready_events epollin ≡ true
    → next_event_loop w.server.thread_pool ≡ some (i, pool)
    → (accept_event setup on_connect id none tied alive w ≡ some w)
      × ((t : Session) × (accept_event setup on_connect id (some fd) tied alive w
            ≡ some (record w {
              server = record {
                thread_pool = pool;
                connections_map =
                    insert fd
                      (record { id = id; client_fd = fd; event_loop = i })
                      w.server.connections_map;
              };
              made =
                  (record { id = id; client_fd = fd; event_loop = i }, call on_connect t) ∷ w.made;
            }))
          × IsOpen fd t)
unfolding accept
accept_event-IsOpen setup on_connect id fd i pool tied alive w due e =
    let (t, made, is_open) =
      handle_new_connection-IsOpen setup on_connect id fd i pool w.server e in
    let added = ap (add setup on_connect id w) made in
    (
      accept_event_reads setup on_connect id none tied alive w due refl,
      (
        t,
        accept_event_reads setup on_connect id (some fd) tied alive w due
              (ap (events_of setup on_connect id) added)
            ∙ added,
        is_open,
      ),
    )
