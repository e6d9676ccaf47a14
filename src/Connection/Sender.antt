-- ===== src/Connection/Sender.antt =====
-- `Send`, `Send2`, `SendWithTwoSysCall` and `WriteNonBlocking`.
-- `w` is what `write` answers, and `ok` what `epoll_ctl` answers when the channel listens for
-- EPOLLOUT. A message is its bytes, its `len` their number.
pub mod Whole
pub mod Order
pub mod Stream
pub mod Failure
mod Tests
use epoll_server.Base.{
  ℕ, ◌-◌, Bool, true, false, List, ◌++◌, length, take, drop, ltb, ◌==◌, if◌then◌else◌,
}
use epoll_server.Buffer.{append, readable_bytes, retrieve}
use epoll_server.Buffer.Contents.{contents}
use epoll_server.Channel.Enable.{enable_write}
use epoll_server.Tlv.{outgoing_header}
use epoll_server.Connection.State.{
  Errno, eagain, ewouldblock, eintr, other, WriteReply, wrote, write_error, Connection, Session,
  handle_close,
}

-- EAGAIN, EWOULDBLOCK or EINTR: `write` may be tried again.
abbrev pub is_transient : Errno → Bool
is_transient (other n) = false
is_transient _ = true

-- The bytes go behind those in the send buffer, and the channel listens for EPOLLOUT.
unfoldable pub append_and_enable : Bool → List ℕ → Session → Session
append_and_enable ok rest s = record s {
  conn = record (s.conn) {
    send_buffer = append s.conn.send_buffer rest;
    channel = enable_write ok s.conn.channel;
  };
}

-- The end of `Send` and of `SendInternal`: what is left of the bytes is queued.
unfoldable pub queue_remaining : Bool → List ℕ → Session → Session
unfolding append_and_enable
queue_remaining ok rest s = if ltb 0 (length rest) then append_and_enable ok rest s else s

unfoldable pub write_first : WriteReply → Bool → List ℕ → Session → Session
unfolding queue_remaining
write_first (wrote n) ok response s =
    queue_remaining ok (drop n response) (record s { wire = s.wire ++ take n response })
write_first (write_error e) ok response s =
    if is_transient e then queue_remaining ok response s else handle_close s

-- The socket is tried only if nothing waits in the send buffer.
unfoldable pub send_internal : WriteReply → Bool → List ℕ → Session → Session
unfolding write_first
send_internal w ok msg s =
    if readable_bytes s.conn.send_buffer == 0
    then write_first w ok msg s
    else queue_remaining ok msg s

-- The end of `Send`: what `remaining` counts, `send_size` bytes into the response.
unfoldable pub send_remaining : Bool → List ℕ → ℕ → Session → Session
unfolding append_and_enable
send_remaining ok response send_size s =
    let remaining : ℕ = length response - send_size in
    if ltb 0 remaining then append_and_enable ok (drop send_size response) s else s

-- The answer to the `write` of the whole response.
unfoldable pub send_written : WriteReply → Bool → List ℕ → Session → Session
unfolding send_remaining
send_written (wrote n) ok response s =
    send_remaining ok response n (record s { wire = s.wire ++ take n response })
send_written (write_error e) ok response s =
    if is_transient e then send_remaining ok response 0 s else handle_close s

-- `Send` copies the header and the message into one response.
unfoldable pub send : WriteReply → Bool → List ℕ → Session → Session
unfolding send_written
send w ok msg s =
    let response : List ℕ = outgoing_header (length msg) ++ msg in
    if readable_bytes s.conn.send_buffer == 0
    then send_written w ok response s
    else send_remaining ok response 0 s

unfoldable pub send2 : Bool → List ℕ → Session → Session
send2 ok msg s = record s {
  conn = record (s.conn) {
    send_buffer = append (append s.conn.send_buffer (outgoing_header (length msg))) msg;
    channel = enable_write ok s.conn.channel;
  };
}

-- Two calls of `SendInternal`, each with its own answers.
unfoldable pub send_with_two_sys_call :
    WriteReply → Bool → WriteReply → Bool → List ℕ → Session → Session
send_with_two_sys_call w ok w' ok' msg s =
    send_internal w' ok' msg (send_internal w ok (outgoing_header (length msg)) s)

-- What a channel that is ready for EPOLLOUT leads to.
unfoldable pub write_non_blocking : WriteReply → Bool → Session → Session
write_non_blocking (wrote n) ok s = record s {
  conn = record (s.conn) { send_buffer = retrieve s.conn.send_buffer n };
  wire = s.wire ++ take n (contents s.conn.send_buffer);
}
write_non_blocking (write_error e) ok s =
    if is_transient e
    then record s {
      conn = record (s.conn) {
        send_buffer = retrieve s.conn.send_buffer 0;
        channel = enable_write ok s.conn.channel;
      };
    }
    else handle_close s

-- `Write`, which nothing calls.
abbrev pub write : WriteReply → Bool → Session → Session
write w ok s = write_non_blocking w ok s

abbrev pub handle_write : WriteReply → Bool → Session → Session
handle_write w ok s = write_non_blocking w ok s
