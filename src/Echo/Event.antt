-- ===== src/Echo/Event.antt =====
-- One event of a connection of the echo server: `HandleEvent`, `HandleMessage`, `onMessage` and
-- `HandleWrite` one after the other.
use epoll_server.Base.{
  ℕ, ◌≤◌, ◌<◌, ◌≡◌, sym, ap, ◌∙◌, subst, Bool, true, Option, some, List, ◌++◌, length, All,
  if◌then◌else◌, has, take, drop, Bool-cases, inl, inr, append-nil,
}
use epoll_server.Buffer.Contents.{IsValid, contents, contents-retrieve, retrieve-IsValid}
use epoll_server.Channel.State.{epollout}
use epoll_server.Channel.Dispatch.{wants_read}
use epoll_server.Channel.Enable.{enable_write-ready_events}
use epoll_server.Tlv.{outgoing_header, max_tlv_length}
use epoll_server.Connection.State.{connected, ReadReply, wrote, Session}
use epoll_server.Connection.Events.{event, event-readable, then_write}
use epoll_server.Connection.Sender.{handle_write, write_non_blocking, send2}
use epoll_server.Connection.Sender.Order.{frame, contents-send2}
use epoll_server.Connection.Reader.Bounds.{Fitting}
use epoll_server.Connection.Reader.Frames.{Quiet}
use epoll_server.Connection.Reader.Messages.{Progress}
use epoll_server.Connection.Reader.Pieces.{IsPiece, data_of}
use epoll_server.Connection.Reader.Bursts.{outgoing_header-IsFrame}
use epoll_server.Connection.Reader.Delivery.{reset, IsFresh, reset-IsFresh, handle_message_delivers}
use epoll_server.Echo.{on_message, on_message_open, Echoed, on_message-Echoed}

-- The connection is open, and of the bytes that were waiting followed by the message's frame the
-- first `n` have been written and the others wait.
pub record Answered (n : ℕ) (msg : List ℕ) (s v : Session) : Type 0 where
  pub state : v.conn.state ≡ connected
  pub valid : IsValid v.conn.send_buffer
  pub wire : v.wire ≡ s.wire ++ take n (contents s.conn.send_buffer ++ frame msg)
  pub waiting : contents v.conn.send_buffer ≡ drop n (contents s.conn.send_buffer ++ frame msg)

on_message-Answered :
    (ok : Bool) (s t : Session)
    → s.conn.state ≡ connected
    → IsValid s.conn.send_buffer
    → Quiet s t
    → Answered 0 t.conn.read_buffer s (on_message ok t)
unfolding send2
on_message-Answered ok s t is_open v q =
    let e : Echoed ok t.conn.read_buffer s (on_message ok t) =
      on_message-Echoed ok s t is_open v q in
    let sends : on_message ok t ≡ send2 ok t.conn.read_buffer t =
      on_message_open ok t (q.state ∙ is_open) in
    record {
      state = e.state;
      valid = e.valid;
      wire = ap (λ u. u.wire) sends ∙ q.wire ∙ sym (append-nil s.wire);
      waiting =
          ap (λ u. contents u.conn.send_buffer) sends
          ∙ contents-send2 ok t.conn.read_buffer t (subst IsValid (sym q.send_buffer) v)
          ∙ ap (λ b. contents b ++ frame t.conn.read_buffer) q.send_buffer;
    }

reset-Answered :
    {n : ℕ} {msg : List ℕ} {s u : Session} → Answered n msg s u → Answered n msg s (reset u)
reset-Answered a = record { state = a.state; valid = a.valid; wire = a.wire; waiting = a.waiting }

handle_write-Answered :
    (n : ℕ) (ok : Bool) (msg : List ℕ) (s u : Session)
    → Answered 0 msg s u
    → Answered n msg s (handle_write (wrote n) ok u)
unfolding write_non_blocking
handle_write-Answered n ok msg s u a = record {
  state = a.state;
  valid = retrieve-IsValid u.conn.send_buffer n a.valid;
  wire =
      ap (λ c. u.wire ++ take n c) a.waiting
      ∙ ap (λ w. w ++ take n (contents s.conn.send_buffer ++ frame msg))
          (a.wire ∙ append-nil s.wire);
  waiting = contents-retrieve u.conn.send_buffer n a.valid ∙ ap (λ c. drop n c) a.waiting;
}

handle_write-IsFresh :
    (n : ℕ) (ok : Bool) (u : Session) → IsFresh u → IsFresh (handle_write (wrote n) ok u)
unfolding write_non_blocking
handle_write-IsFresh n ok u f = record {
  no_header = f.no_header;
  no_body = f.no_body;
  waiting = f.waiting;
}

-- How many bytes of those that wait are written in an event with these flags.
abbrev pub written : ℕ → ℕ → ℕ
written mask n = if has mask epollout then n else 0

then_write-Answered :
    (on_message : Option (Session → Session)) (mask n : ℕ) (ok : Bool) (msg : List ℕ)
    (s u : Session)
    → Answered 0 msg s u
    → IsFresh u
    → Answered (written mask n) msg s (then_write on_message (wrote n) ok mask u)
      × IsFresh (then_write on_message (wrote n) ok mask u)
then_write-Answered on_message mask n ok msg s u a f = elim (Bool-cases (has mask epollout)) [
  | inl out ↦ rw out (handle_write-Answered n ok msg s u a, handle_write-IsFresh n ok u f)
  | inr not_out ↦ rw not_out (a, f)
]

-- Let the rest of the frame of a message of 1 to MAX_TLV_LENGTH bytes be there to read, cut up in any
-- way, when HandleEvent is called for a readable event on an open connection of the echo server that has
-- read the frame up to there. Then one event reads the message, queues its frame behind the bytes that
-- were waiting and, if EPOLLOUT is ready too, writes: of all these bytes, as many as `write` takes have
-- been written, in order, and the others wait; without EPOLLOUT all of them wait. The connection is
-- open, its reader is between two frames, and all this is so also when the owner of the channel is gone.
pub event-Answered :
    (ok ok' alive : Bool) (n : ℕ) (msg : List ℕ) (rs more : List ReadReply) (s : Session)
    (todo : List ℕ)
    → 0 < length msg
    → length msg ≤ max_tlv_length
    → s.conn.state ≡ connected
    → IsValid s.conn.send_buffer
    → wants_read s.conn.channel.ready_events ≡ true
    → Progress (outgoing_header (length msg)) msg s todo
    → All IsPiece rs
    → Fitting rs s
    → todo ≡ data_of rs
    → (v : Session) × (rest : List ReadReply) × (event
          (some (on_message ok))
          (wrote n)
          ok'
          alive
          (rs ++ more)
          s
        ≡ some (v, rest ++ more))
      × Answered (written s.conn.channel.ready_events n) msg s v
      × IsFresh v
event-Answered ok ok' alive n msg rs more s todo some_bytes small is_open valid due p a f e =
    let callback : Session → Session = on_message ok in
    let (t, rest, run, _, quiet, c) =
      handle_message_delivers (outgoing_header (length msg)) msg
        (outgoing_header-IsFrame msg some_bytes small) callback rs more s todo p a f e in
    let queued : Answered 0 msg s (reset (on_message ok t)) = reset-Answered (
      subst (λ m. Answered 0 m s (on_message ok t)) c.message
        (on_message-Answered ok s t is_open valid quiet)) in
    let echoed : Echoed ok t.conn.read_buffer s (on_message ok t) =
      on_message-Echoed ok s t is_open valid quiet in
    let same : (on_message ok t).conn.channel.ready_events ≡ s.conn.channel.ready_events =
      ap (λ k. k.ready_events) echoed.listens ∙ enable_write-ready_events ok s.conn.channel in
    let (answered, fresh) =
      then_write-Answered (some callback) s.conn.channel.ready_events n ok' msg s
        (reset (callback t)) queued (reset-IsFresh (callback t)) in
    (
      then_write (some callback) (wrote n) ok' s.conn.channel.ready_events (reset (callback t)),
      rest,
      event-readable (some callback) (wrote n) ok' alive (rs ++ more) (rest ++ more) s
          (reset (callback t)) due run same,
      answered,
      fresh,
    )
