-- ===== src/Connection/Lifetime.antt =====
-- How often the close callback of a connection runs.
use epoll_server.Base.{
  sym, subst, ◌++◌, ℕ, ◌≡◌, Bool, Option, none, some, List, if_both, subst, length,
}
use epoll_server.Connection.Reader.Outside.{ResultKeeps, read_non_blocking-ResultKeeps}
use epoll_server.Connection.Reader.Delivery.{reset}
use epoll_server.Tlv.{outgoing_header}
use epoll_server.Connection.State.{ReadReply, WriteReply, Session, handle_close}
use epoll_server.Connection.Sender.Whole.{send-send_internal}
use epoll_server.Connection.Sender.{send, send2, send_with_two_sys_call, write_non_blocking}
use epoll_server.Connection.Reader.{read_non_blocking, dispatch_message, handle_message}
use epoll_server.Connection.Once.{
  Once, IsOnce, handle_close-IsOnce, send_internal-IsOnce, write_non_blocking-IsOnce,
}

-- If the loop ends.
abbrev ResultOnce : Option (Session × List ReadReply) → Type 0
ResultOnce = ResultKeeps Once handle_close-IsOnce

-- Callbacks that keep it.
abbrev pub KeepsOnce : Option (Session → Session) → Type 0
KeepsOnce none = Unit {0}
KeepsOnce (some callback) = (s : Session) → IsOnce s → IsOnce (callback s)

dispatch_message-IsOnce :
    (on_message : Option (Session → Session)) (s : Session)
    → KeepsOnce on_message
    → IsOnce s
    → IsOnce (dispatch_message on_message s)
unfolding dispatch_message
dispatch_message-IsOnce none s k h = h
dispatch_message-IsOnce (some callback) s k h =
    if_both IsOnce s.conn.ready_to_handle_message (reset (callback s)) s (λ _. k s h) (λ _. h)

handle_message-ResultOnce :
    (on_message : Option (Session → Session)) (rs : List ReadReply) (s : Session)
    → KeepsOnce on_message
    → IsOnce s
    → ResultOnce (handle_message on_message rs s)
unfolding handle_message
handle_message-ResultOnce on_message rs s k h =
    go (read_non_blocking rs s) (read_non_blocking-ResultKeeps Once handle_close-IsOnce rs s h)
  where
    go :
        (result : Option (Session × List ReadReply))
        → ResultOnce result
        → ResultOnce (elim result [
          | none ↦ none
          | some (t, rest) ↦ some (dispatch_message on_message t, rest)
        ])
    go none r = tt
    go (some (t, rest)) r = dispatch_message-IsOnce on_message t k r

-- Whatever is done with a connection.
pub data Use (on_message : Option (Session → Session)) : Session → Session → Type 0 where
  unused : {s : Session} → Use on_message s s
  reads :
      (rs : List ReadReply) {rest : List ReadReply} {s t u : Session}
      → handle_message on_message rs s ≡ some (t, rest)
      → Use on_message t u
      → Use on_message s u
  sends :
      (w : WriteReply) (ok : Bool) (msg : List ℕ) {s u : Session}
      → Use on_message (send w ok msg s) u
      → Use on_message s u
  sends2 :
      (ok : Bool) (msg : List ℕ) {s u : Session}
      → Use on_message (send2 ok msg s) u
      → Use on_message s u
  sends_with_two_sys_call :
      (w : WriteReply) (ok : Bool) (w' : WriteReply) (ok' : Bool) (msg : List ℕ) {s u : Session}
      → Use on_message (send_with_two_sys_call w ok w' ok' msg s) u
      → Use on_message s u
  writable :
      (w : WriteReply) (ok : Bool) {s u : Session}
      → Use on_message (write_non_blocking w ok s) u
      → Use on_message s u
  closes : {s u : Session} → Use on_message (handle_close s) u → Use on_message s u

-- From a connection that is not disconnected and has not run its close callback, after any sequence of
-- readable and writable events, sends of all three kinds and HandleClose calls, whatever read and write
-- answer, and with a message callback that keeps this: the close callback has run at most once, and
-- not at all unless the connection is disconnected.
pub Use-IsOnce :
    (on_message : Option (Session → Session)) {s t : Session}
    → KeepsOnce on_message
    → Use on_message s t
    → IsOnce s
    → IsOnce t
unfolding send2 send_with_two_sys_call
Use-IsOnce m k unused h = h
Use-IsOnce m k (reads rs {s = s} e more) h =
    Use-IsOnce m k more (subst ResultOnce e (handle_message-ResultOnce m rs s k h))
Use-IsOnce m k (sends w ok msg {s} more) h = Use-IsOnce m k more (
    subst IsOnce (sym (send-send_internal w ok msg s))
      (send_internal-IsOnce w ok (outgoing_header (length msg) ++ msg) s h))
Use-IsOnce m k (sends2 ok msg {s} more) h = Use-IsOnce m k more h
Use-IsOnce m k (sends_with_two_sys_call w ok w' ok' msg {s} more) h = Use-IsOnce m k more (
    send_internal-IsOnce w' ok' msg _
      (send_internal-IsOnce w ok (outgoing_header (length msg)) s h))
Use-IsOnce m k (writable w ok {s} more) h = Use-IsOnce m k more (write_non_blocking-IsOnce w ok s h)
Use-IsOnce m k (closes {s} more) h = Use-IsOnce m k more (handle_close-IsOnce s h)
