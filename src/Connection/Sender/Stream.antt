-- ===== src/Connection/Sender/Stream.antt =====
-- The stream of bytes that a connection sends, over any sequence of calls.
use epoll_server.Base.{ℕ, Bool, List, [], ◌∷◌, ◌++◌, ◌≡◌, sym, append-nil}
use epoll_server.Buffer.Contents.{IsValid, contents}
use epoll_server.Connection.State.{WriteReply, Session}
use epoll_server.Connection.Sender.{send, send2, send_with_two_sys_call, write_non_blocking}
use epoll_server.Connection.Sender.Order.{
  outgoing, IsUsable, Adds, ValidBuffer, frame, send-Adds, send2-Adds, send_with_two_sys_call-Adds,
  write_non_blocking-Adds, Adds-trans,
}

-- What a connection is asked to do, with the answers of the system calls that it makes.
pub data SendCall : Type 0 where
  call_send : WriteReply → Bool → List ℕ → SendCall
  call_send2 : Bool → List ℕ → SendCall
  call_two : WriteReply → Bool → WriteReply → Bool → List ℕ → SendCall
  call_writable : WriteReply → Bool → SendCall

unfoldable pub apply : SendCall → Session → Session
apply (call_send w ok msg) s = send w ok msg s
apply (call_send2 ok msg) s = send2 ok msg s
apply (call_two w ok w' ok' msg) s = send_with_two_sys_call w ok w' ok' msg s
apply (call_writable w ok) s = write_non_blocking w ok s

unfoldable pub run : List SendCall → Session → Session
run [] s = s
run (c ∷ cs) s = run cs (apply c s)

-- Each `write` of `Send` and `SendInternal` takes bytes or asks to try again; the writes for a
-- channel that is ready for EPOLLOUT may fail in any way.
abbrev pub AllUsable : List SendCall → Type 0
AllUsable [] = Unit {0}
AllUsable (call_send w ok msg ∷ cs) = IsUsable w × AllUsable cs
AllUsable (call_two w ok w' ok' msg ∷ cs) = IsUsable w × IsUsable w' × AllUsable cs
AllUsable (_ ∷ cs) = AllUsable cs

-- The frames of the messages, in the order of the calls.
unfoldable pub frames : List SendCall → List ℕ
unfolding frame
frames [] = []
frames (call_send w ok msg ∷ cs) = frame msg ++ frames cs
frames (call_send2 ok msg ∷ cs) = frame msg ++ frames cs
frames (call_two w ok w' ok' msg ∷ cs) = frame msg ++ frames cs
frames (call_writable w ok ∷ cs) = frames cs

run-Adds :
    (cs : List SendCall) (s : Session)
    → ValidBuffer s
    → AllUsable cs
    → Adds s (run cs s) (frames cs)
unfolding run apply frames
run-Adds [] s v u = record { valid = v; stream = sym (append-nil (outgoing s)) }
run-Adds (call_send w ok msg ∷ cs) s v u =
    let a : Adds s (send w ok msg s) (frame msg) = send-Adds w ok msg s v u.0 in
    Adds-trans a (run-Adds cs (send w ok msg s) a.valid u.1)
run-Adds (call_send2 ok msg ∷ cs) s v u =
    let a : Adds s (send2 ok msg s) (frame msg) = send2-Adds ok msg s v in
    Adds-trans a (run-Adds cs (send2 ok msg s) a.valid u)
run-Adds (call_two w ok w' ok' msg ∷ cs) s v u =
    let t : Session = send_with_two_sys_call w ok w' ok' msg s in
    let a : Adds s t (frame msg) = send_with_two_sys_call-Adds w ok w' ok' msg s v u.0 u.1 in
    Adds-trans a (run-Adds cs t a.valid u.2)
run-Adds (call_writable w ok ∷ cs) s v u =
    let t : Session = write_non_blocking w ok s in
    let a : Adds s t [] = write_non_blocking-Adds w ok s v in Adds-trans a (run-Adds cs t a.valid u)

-- From a valid send buffer, whatever mixture of `Send`, `Send2`, `SendWithTwoSysCall` and writable
-- events follows, if the writes that the sends try take bytes or ask to try again, then the bytes on
-- the wire followed by those in the send buffer are those there were before, followed by exactly the
-- frames of the messages, in order; and the send buffer is valid.
pub run_stream :
    (cs : List SendCall) (s : Session)
    → IsValid s.conn.send_buffer
    → AllUsable cs
    → IsValid (run cs s).conn.send_buffer
      × ((run cs s).wire ++ contents (run cs s).conn.send_buffer
          ≡ (s.wire ++ contents s.conn.send_buffer) ++ frames cs)
run_stream cs s v u =
    let a : Adds s (run cs s) (frames cs) = run-Adds cs s v u in (a.valid, a.stream)
