-- ===== src/Connection/Sender/Failure.antt =====
-- `SendWithTwoSysCall` when the write of the header fails for good.
use epoll_server.Base.{ℕ, ◌≡◌, refl, ap, ◌∙◌, Bool, List, ◌++◌, arith, length, take_all, drop_all}
use epoll_server.Buffer.{readable_bytes}
use epoll_server.Connection.State.{disconnected, other, wrote, write_error, Session, handle_close}
use epoll_server.Connection.Close.{handle_close-kept, handle_close-disconnected}
use epoll_server.Connection.Sender.{send_internal, send_with_two_sys_call}

handle_close-send_buffer : (s : Session) → (handle_close s).conn.send_buffer ≡ s.conn.send_buffer
handle_close-send_buffer s =
    handle_close-kept (λ t. t.conn.send_buffer ≡ s.conn.send_buffer) s refl refl

handle_close-wire : (s : Session) → (handle_close s).wire ≡ s.wire
handle_close-wire s = handle_close-kept (λ t. t.wire ≡ s.wire) s refl refl

send_internal_fatal :
    (e : ℕ) (ok : Bool) (msg : List ℕ) (s : Session)
    → readable_bytes s.conn.send_buffer ≡ 0
    → send_internal (write_error (other e)) ok msg s ≡ handle_close s
unfolding send_internal
send_internal_fatal e ok msg s h = rw h

send_internal_whole :
    (ok : Bool) (msg : List ℕ) (s : Session)
    → readable_bytes s.conn.send_buffer ≡ 0
    → send_internal (wrote (length msg)) ok msg s ≡ record s { wire = s.wire ++ msg }
unfolding send_internal
send_internal_whole ok msg s h =
    rw (h, take_all (length msg) msg (omega arith), drop_all (length msg) msg (omega arith))

-- If nothing waits in the send buffer, the write of the header fails with an error that is not to be
-- tried again, and the write of the message then succeeds, `SendWithTwoSysCall` has closed the
-- connection and all the same put the message on the wire with no header before it.
pub send_with_two_sys_call_headerless :
    (e : ℕ) (ok ok' : Bool) (msg : List ℕ) (s : Session)
    → readable_bytes s.conn.send_buffer ≡ 0
    → let t : Session =
        send_with_two_sys_call (write_error (other e)) ok (wrote (length msg)) ok' msg s in
      (t.wire ≡ s.wire ++ msg) × (t.conn.state ≡ disconnected)
unfolding send_with_two_sys_call
send_with_two_sys_call_headerless e ok ok' msg s h =
    rw
      (
        send_internal_fatal e ok _ s h,
        send_internal_whole ok' msg (handle_close s)
            (ap readable_bytes (handle_close-send_buffer s) ∙ h),
      )
      (ap (λ w. w ++ msg) (handle_close-wire s), handle_close-disconnected s)
