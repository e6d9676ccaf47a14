-- ===== src/Connection/Sender/Whole.antt =====
-- `Send` against `SendInternal` on the header and the message in one.
use epoll_server.Base.{
  ℕ, ◌≡◌, sym, ap, ◌∙◌, Bool, List, ◌++◌, length, drop, ltb, ◌==◌, if◌then◌else◌, length-drop,
}
use epoll_server.Buffer.{readable_bytes}
use epoll_server.Tlv.{outgoing_header}
use epoll_server.Connection.State.{WriteReply, wrote, write_error, Session, handle_close}
use epoll_server.Connection.Sender.{
  is_transient, append_and_enable, queue_remaining, write_first, send_internal, send_remaining,
  send_written, send,
}

-- `remaining` counts the bytes behind `response + send_size`.
send_remaining-queue_remaining :
    (ok : Bool) (response : List ℕ) (send_size : ℕ) (s : Session)
    → send_remaining ok response send_size s ≡ queue_remaining ok (drop send_size response) s
unfolding send_remaining queue_remaining
send_remaining-queue_remaining ok response send_size s =
    ap (λ n. if ltb 0 n then append_and_enable ok (drop send_size response) s else s)
      (sym (length-drop send_size response))

send_written-write_first :
    (w : WriteReply) (ok : Bool) (response : List ℕ) (s : Session)
    → send_written w ok response s ≡ write_first w ok response s
unfolding send_written write_first
send_written-write_first (wrote n) ok response s = send_remaining-queue_remaining ok response n _
send_written-write_first (write_error e) ok response s =
    ap (λ t. if is_transient e then t else handle_close s)
      (send_remaining-queue_remaining ok response 0 s)

-- Whatever `write` answers, and however `epoll_ctl` does, Send has on the connection and on the wire the
-- effect that SendInternal has on the header and the message in one piece: the two copies of the code
-- agree, on the path that waits behind the send buffer, on each outcome of the write, and on closing.
pub send-send_internal :
    (w : WriteReply) (ok : Bool) (msg : List ℕ) (s : Session)
    → send w ok msg s ≡ send_internal w ok (outgoing_header (length msg) ++ msg) s
unfolding send send_internal
send-send_internal w ok msg s =
    let response : List ℕ = outgoing_header (length msg) ++ msg in
    ap (λ t. if readable_bytes s.conn.send_buffer == 0 then t else send_remaining ok response 0 s)
      (send_written-write_first w ok response s)
    ∙ ap (λ t. if readable_bytes s.conn.send_buffer == 0 then write_first w ok response s else t)
        (send_remaining-queue_remaining ok response 0 s)
