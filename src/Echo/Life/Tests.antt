-- ===== src/Echo/Life/Tests.antt =====
-- A message is echoed while the socket fails, the peer ends the stream, and the destructor runs.
use epoll_server.Base.{◌≡◌, refl, true, some, List, [], ◌∷◌, arith}
use epoll_server.Channel.Dispatch.{handle_event, handle_event_with_guard, handle_read, handle_write}
use epoll_server.Channel.State.{set_ready_events, listen}
use epoll_server.Channel.Enable.{enable_write}
use epoll_server.Epoller.{update_channel}
use epoll_server.Connection.Sender.{send2, write_non_blocking}
use epoll_server.Tlv.{swap, bytes, of_bytes, store32, load32, htonl}
use epoll_server.Connection.State.{
  ReadReply, got, write_error, other, eagain, Session, connection_destructor, handle_close,
}
use epoll_server.Connection.Events.{event, callbacks}
use epoll_server.Connection.Reader.{
  handle_message, read_non_blocking, dispatch_message, read_round, wanted, header_bytes,
  header_complete, body_bytes,
}
use epoll_server.Connection.Reader.Bounds.{Fitting}
use epoll_server.Connection.Sample.{idle, idle-IsValid, whole}
use epoll_server.Echo.{on_message}
use epoll_server.Echo.FirstMessage.{ready}
use epoll_server.Echo.Life.{IsWell, Replies, here, next, ready_event, destroyed}
use epoll_server.Echo.Life.Run.{Lived-Replies}

idle-IsWell : IsWell idle
idle-IsWell = record {
  sound = record {
    header_in = omega arith;
    body_in = omega arith;
    size = omega arith;
    no_body = λ _. refl;
  };
  valid = idle-IsValid;
  once = refl;
}

-- EPOLLIN and EPOLLOUT; EPIPE.
abbrev First : Session → List ReadReply → Type 0
First t rest =
    event (some (on_message true)) (write_error (other 32)) true true whole (ready 5 idle)
    ≡ some (t, rest)

unfoldable first_event : (t : Session) × (rest : List ReadReply) × First t rest
unfolding event callbacks set_ready_events handle_event handle_event_with_guard handle_read
    handle_write handle_message read_non_blocking read_round dispatch_message header_bytes
    header_complete body_bytes swap bytes of_bytes store32 load32 htonl on_message send2
    enable_write listen update_channel write_non_blocking handle_close
first_event = (_, _, refl)

first-Fitting : Fitting whole (ready 5 idle)
unfolding read_round wanted header_bytes header_complete body_bytes swap bytes of_bytes store32
    load32 htonl
first-Fitting = omega arith

-- The peer has ended the stream.
second_event :
    (t : Session) × (rest : List ReadReply) × (event
        (some (on_message true))
        (write_error eagain)
        true
        true
        (got [] ∷ [])
        (ready 1 first_event.0)
      ≡ some (t, rest))
unfolding event callbacks set_ready_events handle_event handle_event_with_guard handle_read
    handle_write handle_message read_non_blocking read_round dispatch_message header_bytes
    header_complete body_bytes swap bytes of_bytes store32 load32 htonl on_message send2
    enable_write listen update_channel write_non_blocking handle_close first_event
second_event = (_, _, refl)

second-Fitting : Fitting (got [] ∷ []) (ready 1 first_event.0)
unfolding read_round set_ready_events handle_close first_event
second-Fitting = (omega arith, tt)

Lived-Replies_example :
    IsWell (connection_destructor true second_event.0)
    × Replies idle (connection_destructor true second_event.0)
Lived-Replies_example =
    Lived-Replies
      (next
        (next
          (next here (
            ready_event 5 true true true (write_error (other 32)) whole first-Fitting
              first_event.2))
          (ready_event 1 true true true (write_error eagain) (got [] ∷ []) second-Fitting
            second_event.2))
        (destroyed true))
      idle-IsWell
