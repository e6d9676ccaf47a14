-- ===== src/Echo/FirstMessage.antt =====
-- A new client of the echo server: from the event of the acceptor's channel to the reply to its first
-- message.
mod Tests
use epoll_server.Base.{
  ℕ, ◌≤◌, ◌<◌, ◌≡◌, refl, sym, ap, ◌∙◌, subst, Bool, true, Option, some, List, [], ◌∷◌, ◌++◌,
  length, All, has, take, drop,
}
use epoll_server.Buffer.Contents.{contents}
use epoll_server.Channel.State.{epollin, set_ready_events}
use epoll_server.Channel.Dispatch.{wants_read}
use epoll_server.Tlv.{outgoing_header, max_tlv_length}
use epoll_server.ThreadPool.{ThreadPool, next_event_loop}
use epoll_server.Connection.State.{
  connected, ReadReply, wrote, Session, set_channel, connection_established,
}
use epoll_server.Connection.Events.{event}
use epoll_server.Connection.Sender.Order.{frame}
use epoll_server.Connection.Reader.Bounds.{Fitting}
use epoll_server.Connection.Reader.Messages.{Progress}
use epoll_server.Connection.Reader.Pieces.{IsPiece, data_of}
use epoll_server.Connection.Reader.Bursts.{outgoing_header-IsFrame}
use epoll_server.Connection.Reader.Delivery.{IsFresh, IsFresh-Progress}
use epoll_server.Server.{Setup, insert, new_connection, handle_new_connection, accept}
use epoll_server.Server.NewConnection.{IsOpen, established-IsOpen}
use epoll_server.Server.Accepting.{Accepting, add, events_of, accept_event, accept_event_reads}
use epoll_server.Echo.{on_message, on_connection}
use epoll_server.Echo.Event.{written, event-Answered}

-- The session that `HandleNewConnection` leaves.
abbrev pub new_session : Setup → ℕ → Session
new_session setup fd =
    connection_established setup.read_ok (some on_connection) (new_connection setup fd)

-- `Epoll` has set the ready events of its channel.
abbrev pub ready : ℕ → Session → Session
ready mask s = set_channel s (set_ready_events s.conn.channel mask)

new_session-IsOpen : (setup : Setup) (fd : ℕ) → IsOpen fd (new_session setup fd)
unfolding connection_established
new_session-IsOpen setup fd = established-IsOpen setup fd

ready-IsFresh : (mask : ℕ) (s : Session) → IsFresh s → IsFresh (ready mask s)
ready-IsFresh mask s f = record {
  no_header = f.no_header;
  no_body = f.no_body;
  waiting = f.waiting;
}

new_session_quiet :
    (setup : Setup) (fd : ℕ)
    → ((new_session setup fd).wire ≡ []) × (contents (new_session setup fd).conn.send_buffer ≡ [])
unfolding connection_established new_connection
new_session_quiet setup fd = (refl, (new_session-IsOpen setup fd).nothing_out)

-- What there is for a new client after its first message.
pub record Replied (k : ℕ) (msg : List ℕ) (v : Session) : Type 0 where
  pub state : v.conn.state ≡ connected
  pub wire : v.wire ≡ take k (frame msg)
  pub waiting : contents v.conn.send_buffer ≡ drop k (frame msg)
  pub reader : IsFresh v

accept_event-new_session :
    (setup : Setup) (id fd i : ℕ) (pool : ThreadPool ℕ) (tied alive : Bool) (w : Accepting)
    → has w.accept_channel.ready_events epollin ≡ true
    → next_event_loop w.server.thread_pool ≡ some (i, pool)
    → accept_event setup (some on_connection) id (some fd) tied alive w
      ≡ some (record w {
        server = record {
          thread_pool = pool;
          connections_map =
              insert fd
                (record { id = id; client_fd = fd; event_loop = i })
                w.server.connections_map;
        };
        made = (record { id = id; client_fd = fd; event_loop = i }, new_session setup fd) ∷ w.made;
      })
unfolding accept handle_new_connection
accept_event-new_session setup id fd i pool tied alive w due e =
    let made : handle_new_connection setup (some on_connection) id fd w.server
        ≡ some (
          record {
            thread_pool = pool;
            connections_map =
                insert fd (record { id = id; client_fd = fd; event_loop = i })
                  w.server.connections_map;
          },
          record { id = id; client_fd = fd; event_loop = i },
          new_session setup fd,
        ) =
      rw (e, handle_new_connection) refl in
    let added = ap (add setup (some on_connection) id w) made in
    accept_event_reads setup (some on_connection) id (some fd) tied alive w due
      (ap (events_of setup (some on_connection) id) added)
    ∙ added

-- When the acceptor's channel is ready for EPOLLIN, accept4 answers a descriptor and the pool has a loop to
-- offer, HandleEvent makes one connection, which this loop serves. And when the frame of this client's
-- first message, of 1 to MAX_TLV_LENGTH bytes, is there to read, cut up in any way, at an event of the new
-- connection, then in this one event the message is read and its frame queued as the reply; if EPOLLOUT
-- is ready too, as many of its bytes as `write` takes have been written, in order, and the others wait,
-- and nothing else has been written. The connection is open, and its reader is between two frames.
pub first_message-Replied :
    (setup : Setup) (id fd i : ℕ) (pool : ThreadPool ℕ) (tied alive ok ok' : Bool) (w : Accepting)
    (mask n : ℕ) (msg : List ℕ) (rs more : List ReadReply)
    → has w.accept_channel.ready_events epollin ≡ true
    → next_event_loop w.server.thread_pool ≡ some (i, pool)
    → 0 < length msg
    → length msg ≤ max_tlv_length
    → wants_read mask ≡ true
    → All IsPiece rs
    → Fitting rs (ready mask (new_session setup fd))
    → frame msg ≡ data_of rs
    → (accept_event setup (some on_connection) id (some fd) tied alive w
        ≡ some (record w {
          server = record {
            thread_pool = pool;
            connections_map =
                insert fd
                  (record { id = id; client_fd = fd; event_loop = i })
                  w.server.connections_map;
          };
          made =
              (record { id = id; client_fd = fd; event_loop = i }, new_session setup fd) ∷ w.made;
        }))
      × (v : Session) × (rest : List ReadReply) × (event
            (some (on_message ok))
            (wrote n)
            ok'
            true
            (rs ++ more)
            (ready mask (new_session setup fd))
          ≡ some (v, rest ++ more))
      × Replied (written mask n) msg v
unfolding frame set_ready_events
first_message-Replied setup id fd i pool tied alive ok ok' w mask n msg rs more due e some_bytes
      small readable pieces fitting bytes =
    let s : Session = ready mask (new_session setup fd) in
    let o : IsOpen fd (new_session setup fd) = new_session-IsOpen setup fd in
    let whole : Progress (outgoing_header (length msg)) msg s
        (outgoing_header (length msg) ++ msg) =
      IsFresh-Progress (outgoing_header (length msg)) msg
        (outgoing_header-IsFrame msg some_bytes small) s
        (ready-IsFresh mask (new_session setup fd) o.reader) in
    let (v, rest, run, answered, fresh) =
      event-Answered ok ok' true n msg rs more s _ some_bytes small o.state o.buffer readable whole
        pieces fitting bytes in
    let k : ℕ = written mask n in
    let (nothing_written, nothing_waits) = new_session_quiet setup fd in
    (
      accept_event-new_session setup id fd i pool tied alive w due e,
      v,
      rest,
      run,
      record {
        state = answered.state;
        wire =
            answered.wire
            ∙ ap (λ b. b ++ take k (contents (new_session setup fd).conn.send_buffer ++ frame msg))
                nothing_written
            ∙ ap (λ b. take k (b ++ frame msg)) nothing_waits;
        waiting = answered.waiting ∙ ap (λ b. drop k (b ++ frame msg)) nothing_waits;
        reader = fresh;
      },
    )
