-- ===== src/Connection/Sender/Tests.antt =====
-- The theorems of the sender at concrete inputs.
use epoll_server.Base.{◌≡◌, refl, true, List, [], ◌∷◌, ◌++◌}
use epoll_server.Buffer
use epoll_server.Buffer.Contents.{IsValid, contents}
use epoll_server.Connection.State.{disconnected, eagain, eintr, other, wrote, write_error, Session}
use epoll_server.Connection.Sender.Whole.{send-send_internal}
use epoll_server.Tlv.{outgoing_header}
use epoll_server.Connection.Sender.{send, send_internal, send_with_two_sys_call}
use epoll_server.Connection.Sender.Stream.{
  SendCall, call_send, call_send2, call_two, call_writable, run, frames, run_stream,
}
use epoll_server.Connection.Sender.Failure.{send_with_two_sys_call_headerless}
use epoll_server.Connection.Sample.{idle, hello, idle-IsValid}

abbrev calls : List SendCall
calls =
    call_send (wrote 3) true hello
    ∷ call_send2 true (111 ∷ [])
    ∷ call_writable (write_error eagain) true
    ∷ call_writable (wrote 9) true
    ∷ call_two (wrote 8) true (write_error eintr) true hello
    ∷ call_writable (write_error (other 32)) true
    ∷ []

run_stream_example :
    IsValid (run calls idle).conn.send_buffer
    × ((run calls idle).wire ++ contents (run calls idle).conn.send_buffer
        ≡ ([] ++ []) ++ frames calls)
unfolding contents
run_stream_example = run_stream calls idle idle-IsValid (tt, (tt, refl, tt))

send_with_two_sys_call_headerless_example :
    let t : Session =
      send_with_two_sys_call (write_error (other 104)) true (wrote 2) true hello idle in
    (t.wire ≡ hello) × (t.conn.state ≡ disconnected)
unfolding Buffer.readable_bytes
send_with_two_sys_call_headerless_example =
    send_with_two_sys_call_headerless 104 true true hello idle refl

-- The socket takes three bytes of the header.
send-send_internal_example :
    send (wrote 3) true hello idle ≡ send_internal (wrote 3) true (outgoing_header 2 ++ hello) idle
send-send_internal_example = send-send_internal (wrote 3) true hello idle
