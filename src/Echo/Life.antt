-- ===== src/Echo/Life.antt =====
-- The life of a connection of the echo server, whatever the client sends and whatever the system calls
-- answer.
pub mod Kept
pub mod Reading
pub mod Run
mod Tests
use epoll_server.Base.{
  ℕ, ◌≤◌, ◌≡◌, refl, sym, ap, ◌∙◌, subst, Bool, true, false, Option, none, some, List, [], ◌∷◌,
  ◌++◌, length, All, All-append, append-nil, append_assoc, arith, if_both, false≢true,
}
use epoll_server.Buffer.Contents.{IsValid, contents}
use epoll_server.Tlv.{max_tlv_length}
use epoll_server.Channel.Dispatch.{handle_event_keeps}
use epoll_server.Connection.State.{
  ConnectionState, disconnected, ReadReply, WriteReply, wrote, write_error, Session, handle_close,
  connection_destructor,
}
use epoll_server.Connection.Close.{handle_close_cases}
use epoll_server.Connection.Once.{Once, IsOnce, handle_close-IsOnce, write_non_blocking-IsOnce}
use epoll_server.Connection.Events.{Polled, event}
use epoll_server.Connection.Sender.{send2, write_non_blocking, is_transient}
use epoll_server.Connection.Sender.Order.{
  outgoing, frame, Adds, send2-Adds, write_non_blocking-Adds,
}
use epoll_server.Connection.Reader.{read_non_blocking, dispatch_message, handle_message}
use epoll_server.Connection.Reader.Bounds.{
  IsSound, Fitting, handle_close-IsSound, read_non_blocking-IsSound,
}
use epoll_server.Connection.Reader.Delivery.{reset}
use epoll_server.Connection.Reader.Outside.{
  Outside, outside, ResultKeeps, read_non_blocking-ResultKeeps,
}
use epoll_server.Echo.{on_message, is_connected}
use epoll_server.Echo.Dialogue.{frames_of}
use epoll_server.Echo.FirstMessage.{ready}

-- The reader's memory is in bounds, the send buffer is valid, and the close callback has run at most
-- once, and not before the connection is disconnected.
pub record IsWell (s : Session) : Type 0 where
  pub sound : IsSound s.conn
  pub valid : IsValid s.conn.send_buffer
  pub once : IsOnce s

-- What goes out is whole frames, none of them after the connection is disconnected.
pub record Replies (s t : Session) : Type 0 where
  pub messages : List (List ℕ)
  pub small : All (λ m. length m ≤ max_tlv_length) messages
  pub stream : outgoing t ≡ outgoing s ++ frames_of messages
  pub silent : s.conn.state ≡ disconnected → (t.conn.state ≡ disconnected) × (messages ≡ [])

-- What happens to a connection: an event of its channel with these flags (`alive` is whether the owner is
-- still there), with what `read`, `write` and `epoll_ctl` answer in it, if it comes to its end; and
-- the destructor.
pub data Step (s : Session) : Session → Type 0 where
  ready_event :
      (mask : ℕ) (ok ok' alive : Bool) (w : WriteReply) (rs : List ReadReply)
      {rest : List ReadReply} {t : Session}
      → Fitting rs (ready mask s)
      → event (some (on_message ok)) w ok' alive rs (ready mask s) ≡ some (t, rest)
      → Step s t
  destroyed : (ok : Bool) → Step s (connection_destructor ok s)

pub data Lived (s : Session) : Session → Type 0 where
  here : Lived s s
  next : {t u : Session} → Lived s t → Step t u → Lived s u
