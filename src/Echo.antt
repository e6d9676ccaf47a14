-- ===== src/Echo.antt =====
-- echoserver.cpp: `onMessage`, and what a client gets back for a message.
pub mod Empty
pub mod Dialogue
pub mod Main
pub mod Pool
pub mod Launched
pub mod Launch
pub mod RoundTrip
pub mod Event
pub mod FirstMessage
pub mod Round
pub mod Life
mod Tests
use epoll_server.Base.{
  ℕ, ◌≤◌, ◌<◌, ◌≡◌, refl, sym, ap, subst, ◌∙◌, Bool, true, false, Option, some, List, ◌++◌, length,
  All, if◌then◌else◌,
}
use epoll_server.Buffer.Contents.{IsValid, contents}
use epoll_server.Channel.Enable.{enable_write}
use epoll_server.Tlv.{max_tlv_length}
use epoll_server.Connection.State.{
  ConnectionState, invalid, connected, disconnected, ReadReply, Session,
}
use epoll_server.Connection.Sender.{send2}
use epoll_server.Connection.Sender.Order.{frame, Adds, send2-Adds}
use epoll_server.Connection.Reader.Frames.{Quiet}
use epoll_server.Connection.Reader.Pieces.{IsPiece, data_of}
use epoll_server.Connection.Reader.Delivery.{reset, IsFresh, reset-IsFresh}
use epoll_server.Connection.Reader.Bursts.{receive, FittingBursts, data_of_bursts, receive-frame}

abbrev is_connected : ConnectionState → Bool
is_connected connected = true
is_connected _ = false

-- `onConnection` asks for the address of the peer, and does nothing with it.
abbrev pub on_connection : Session → Session
on_connection s = s

-- `ok` is what `epoll_ctl` answers to the `EnableWrite` of `Send2`.
unfoldable pub on_message : Bool → Session → Session
on_message ok s = if is_connected s.conn.state then send2 ok s.conn.read_buffer s else s

-- The message goes out behind what was to go out before, and the connection stays open and waits
-- until it can write.
pub record Echoed (ok : Bool) (msg : List ℕ) (s u : Session) : Type 0 where
  pub valid : IsValid u.conn.send_buffer
  pub stream :
      u.wire ++ contents u.conn.send_buffer ≡ (s.wire ++ contents s.conn.send_buffer) ++ frame msg
  pub listens : u.conn.channel ≡ enable_write ok s.conn.channel
  pub state : u.conn.state ≡ connected

pub on_message_open :
    (ok : Bool) (s : Session)
    → s.conn.state ≡ connected
    → on_message ok s ≡ send2 ok s.conn.read_buffer s
unfolding on_message
on_message_open ok s e = simp e

-- The callback on a session of which the reader has changed only its own fields.
pub on_message-Echoed :
    (ok : Bool) (s t : Session)
    → s.conn.state ≡ connected
    → IsValid s.conn.send_buffer
    → Quiet s t
    → Echoed ok t.conn.read_buffer s (on_message ok t)
unfolding send2
on_message-Echoed ok s t is_open v q =
    let msg : List ℕ = t.conn.read_buffer in
    let v' : IsValid t.conn.send_buffer = subst IsValid (sym q.send_buffer) v in
    let a : Adds t (send2 ok msg t) (frame msg) = send2-Adds ok msg t v' in
    subst (Echoed ok msg s) (sym (on_message_open ok t (q.state ∙ is_open))) (record {
      valid = a.valid;
      stream =
          a.stream
          ∙ ap (λ b. b ++ frame msg)
              (ap (λ w. w ++ contents t.conn.send_buffer) q.wire
                ∙ ap (λ b. s.wire ++ contents b) q.send_buffer);
      listens = ap (enable_write ok) q.channel;
      state = q.state ∙ is_open;
    })

pub reset-Echoed :
    {ok : Bool} {msg : List ℕ} {s u : Session} → Echoed ok msg s u → Echoed ok msg s (reset u)
reset-Echoed e = record { valid = e.valid; stream = e.stream; listens = e.listens; state = e.state }

-- Let the frame of a message of 1 to MAX_TLV_LENGTH bytes reach an open connection of the echo server
-- that is between two frames, with a valid send buffer, in any number of readable events and cut up in
-- any way. After the last event, the bytes written to the client followed by those in the send buffer
-- are those from before followed by exactly the frame of the same message; the connection is open,
-- its channel has asked for EPOLLOUT, and its reader is between two frames again.
pub receive-on_message-Echoed :
    (ok : Bool) (msg : List ℕ) (bs : List (List ReadReply)) (last : List ReadReply) (s : Session)
    → 0 < length msg
    → length msg ≤ max_tlv_length
    → s.conn.state ≡ connected
    → IsValid s.conn.send_buffer
    → IsFresh s
    → All (All IsPiece) bs
    → All IsPiece last
    → FittingBursts (some (on_message ok)) bs last s
    → 0 < length (data_of last)
    → frame msg ≡ data_of_bursts bs last
    → (u : Session) × (rest : List ReadReply) × (receive (some (on_message ok)) bs last s
        ≡ some (u, rest))
      × Echoed ok msg s u
      × IsFresh u
receive-on_message-Echoed ok msg bs last s some_bytes small is_open v fresh a l f h e =
    let (t, rest, run, message, quiet) =
      receive-frame (on_message ok) msg bs last s some_bytes small fresh a l f h e in
    let echoed : Echoed ok t.conn.read_buffer s (on_message ok t) =
      on_message-Echoed ok s t is_open v quiet in
    (
      reset (on_message ok t),
      rest,
      run,
      subst (λ m. Echoed ok m s (reset (on_message ok t))) message (reset-Echoed echoed),
      reset-IsFresh (on_message ok t),
    )
