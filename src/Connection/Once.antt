-- ===== src/Connection/Once.antt =====
-- What a send does to the number of the close callback's runs.
use epoll_server.Base.{
  ℕ, ◌+◌, ◌≤◌, ◌≡◌, sym, Bool, false, List, arith, if_both, false≢true, length, drop, ltb, ◌==◌,
}
use epoll_server.Buffer.{readable_bytes}
use epoll_server.Connection.State.{
  ConnectionState, invalid, connected, disconnected, WriteReply, wrote, write_error, Session,
  is_disconnected, handle_close,
}
use epoll_server.Connection.Reader.Outside.{Outside, outside}
use epoll_server.Connection.Close.{handle_close_cases}
use epoll_server.Connection.Sender.{
  is_transient, append_and_enable, queue_remaining, write_first, send_internal, write_non_blocking,
}

-- The callback has run at most once, and not before the connection is disconnected.
abbrev pub CallsAt : ConnectionState → ℕ → Type 0
CallsAt disconnected calls = calls ≤ 1
CallsAt _ calls = calls ≡ 0

abbrev pub Once : Outside → Type 0
Once o = CallsAt o.state o.close_calls

abbrev pub IsOnce : Session → Type 0
IsOnce s = Once (outside s)

not_yet :
    (c : ConnectionState) (calls : ℕ) → CallsAt c calls → is_disconnected c ≡ false → calls ≡ 0
not_yet invalid calls h e = h
not_yet connected calls h e = h
not_yet disconnected calls h e = absurd (false≢true (sym e))

pub handle_close-IsOnce : (s : Session) → IsOnce s → IsOnce (handle_close s)
handle_close-IsOnce s h =
    handle_close_cases IsOnce s (λ _. h)
      (λ e.
        let none_yet : s.close_calls ≡ 0 = not_yet s.conn.state s.close_calls h e in
        if_both (λ n. n ≤ 1) s.conn.on_close_callback (s.close_calls + 1) s.close_calls
          (λ _. omega arith) (λ _. omega arith))

queue_remaining-IsOnce :
    (ok : Bool) (rest : List ℕ) (s : Session) → IsOnce s → IsOnce (queue_remaining ok rest s)
unfolding queue_remaining append_and_enable
queue_remaining-IsOnce ok rest s h =
    if_both IsOnce (ltb 0 (length rest)) (append_and_enable ok rest s) s (λ _. h) (λ _. h)

write_first-IsOnce :
    (w : WriteReply) (ok : Bool) (msg : List ℕ) (s : Session)
    → IsOnce s
    → IsOnce (write_first w ok msg s)
unfolding write_first
write_first-IsOnce (wrote n) ok msg s h = queue_remaining-IsOnce ok (drop n msg) _ h
write_first-IsOnce (write_error e) ok msg s h =
    if_both IsOnce (is_transient e) (queue_remaining ok msg s) (handle_close s)
      (λ _. queue_remaining-IsOnce ok msg s h) (λ _. handle_close-IsOnce s h)

pub send_internal-IsOnce :
    (w : WriteReply) (ok : Bool) (msg : List ℕ) (s : Session)
    → IsOnce s
    → IsOnce (send_internal w ok msg s)
unfolding send_internal
send_internal-IsOnce w ok msg s h =
    if_both IsOnce (readable_bytes s.conn.send_buffer == 0) (write_first w ok msg s)
      (queue_remaining ok msg s) (λ _. write_first-IsOnce w ok msg s h)
      (λ _. queue_remaining-IsOnce ok msg s h)

pub write_non_blocking-IsOnce :
    (w : WriteReply) (ok : Bool) (s : Session) → IsOnce s → IsOnce (write_non_blocking w ok s)
unfolding write_non_blocking
write_non_blocking-IsOnce (wrote n) ok s h = h
write_non_blocking-IsOnce (write_error e) ok s h =
    if_both IsOnce (is_transient e) _ (handle_close s) (λ _. h) (λ _. handle_close-IsOnce s h)
