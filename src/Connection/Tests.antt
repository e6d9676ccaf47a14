-- ===== src/Connection/Tests.antt =====
-- Tests of the reader and the life of a connection, and their theorems at concrete inputs.
use epoll_server.Base.{◌≡◌, refl, ◌∙◌, true, some, List, [], ◌∷◌, ◌++◌, arith}
use epoll_server.Connection.Reader.Empty.{handle_message_empty}
use epoll_server.Connection.Reader.Frames.{InHeader}
use epoll_server.Tlv.{swap, bytes, of_bytes, store32, load32, htonl}
use epoll_server.Connection.State.{
  disconnected, eagain, eintr, other, ReadReply, got, read_error, write_error, Session,
  handle_close,
}
use epoll_server.Connection.Sender.{send2, write_non_blocking}
use epoll_server.Connection.Reader.{
  read_round, read_non_blocking, handle_message, dispatch_message, wanted, header_bytes,
  header_complete, body_bytes,
}
use epoll_server.Connection.Reader.Bounds.{IsSound, Fitting, read_non_blocking-IsSound}
use epoll_server.Connection.Reader.Termination.{read_non_blocking_terminates}
use epoll_server.Connection.Reader.Frames.{Quiet}
use epoll_server.Connection.Reader.Messages.{IsFrame, Complete}
use epoll_server.Connection.Reader.Pieces.{data_of}
use epoll_server.Connection.Reader.Delivery.{reset, IsFresh-Progress, handle_message_delivers}
use epoll_server.Tlv.Wire.{of_big_endian}
use epoll_server.Connection.Reader.Bursts.{FittingBursts, receive, receive_frame, receive-frame}
use epoll_server.Connection.Reader.Errors.{ended, handle_message-Broken, handle_message_too_long}
use epoll_server.Connection.Once.{IsOnce}
use epoll_server.Connection.Lifetime.{KeepsOnce, sends2, writable, closes, unused, Use-IsOnce}
use epoll_server.Connection.Sample.{
  idle, hello, first_burst, second_burst, last_burst, hello_header, hello-frame, idle-IsFresh,
  bursts_data, bursts_some,
}

-- The callback sends the message back.
abbrev echo : Session → Session
echo t = send2 true t.conn.read_buffer t

receive-hello :
    receive (some echo) (first_burst ∷ second_burst ∷ []) last_burst idle
    ≡ some (
      reset (
          echo (record idle {
            conn = record (idle.conn) {
              read_buffer = hello;
              read_tlv_header_length = 8;
              read_body_length = 2;
              tlv_header = record { type = 0; length = 2 };
              ready_to_handle_message = true;
            };
          })),
      [],
    )
unfolding receive handle_message read_non_blocking read_round dispatch_message header_bytes
    header_complete body_bytes swap bytes of_bytes store32 load32 htonl
receive-hello = refl

idle-IsSound : IsSound idle.conn
idle-IsSound = record {
  header_in = omega arith;
  body_in = omega arith;
  size = omega arith;
  no_body = λ _. refl;
}

first_burst-Fitting : Fitting (first_burst ++ (read_error eagain ∷ [])) idle
unfolding read_round wanted header_bytes bytes store32 of_bytes load32
first_burst-Fitting = omega arith

first_burst-IsSound : IsSound (header_bytes (0 ∷ 0 ∷ 0 ∷ 0 ∷ 0 ∷ []) idle).conn
unfolding read_non_blocking read_round
first_burst-IsSound =
    read_non_blocking-IsSound (first_burst ++ (read_error eagain ∷ [])) idle idle-IsSound
      first_burst-Fitting refl

read_non_blocking_terminates_example :
    (t : Session) × (rest : List ReadReply) × (read_non_blocking
        (second_burst ++ (got [] ∷ last_burst))
        idle
      ≡ some (t, rest ++ last_burst))
read_non_blocking_terminates_example =
    read_non_blocking_terminates second_burst (got []) last_burst idle refl

hello-IsFrame : IsFrame hello_header hello
unfolding of_big_endian
hello-IsFrame = record {
  header = refl;
  in_bytes = omega arith;
  announced = refl;
  not_empty = omega arith;
  small = omega arith;
}

bursts-Fitting : FittingBursts (some echo) (first_burst ∷ second_burst ∷ []) last_burst idle
unfolding handle_message read_non_blocking read_round dispatch_message wanted header_bytes
    header_complete body_bytes swap bytes of_bytes store32 load32 htonl
bursts-Fitting = omega arith

receive_frame_example :
    (t : Session) × (rest : List ReadReply) × (receive
        (some echo)
        (first_burst ∷ second_burst ∷ [])
        last_burst
        idle
      ≡ some (reset (echo t), rest))
    × (data_of rest ≡ [])
    × Quiet idle t
    × Complete hello t
receive_frame_example =
    receive_frame hello_header hello hello-IsFrame echo (first_burst ∷ second_burst ∷ []) last_burst
      idle idle-IsFresh (omega arith) (omega arith) bursts-Fitting bursts_some bursts_data

receive-frame_example :
    (t : Session) × (rest : List ReadReply) × (receive
        (some echo)
        (first_burst ∷ second_burst ∷ [])
        last_burst
        idle
      ≡ some (reset (echo t), rest))
    × (t.conn.read_buffer ≡ hello)
    × Quiet idle t
receive-frame_example =
    receive-frame echo hello (first_burst ∷ second_burst ∷ []) last_burst idle (omega arith)
      (omega arith) idle-IsFresh (omega arith) (omega arith) bursts-Fitting bursts_some
      (hello-frame ∙ bursts_data)

-- Everything in one readable event, with the start of another frame behind it.
abbrev whole : List ReadReply
whole = got hello_header ∷ got hello ∷ []

whole-Fitting : Fitting whole idle
unfolding read_round wanted header_bytes header_complete body_bytes swap bytes of_bytes store32
    load32 htonl
whole-Fitting = omega arith

last_burst_delivered :
    (t : Session) × (rest : List ReadReply) × (handle_message
        (some echo)
        (whole ++ (got hello_header ∷ []))
        idle
      ≡ some (reset (echo t), rest ++ (got hello_header ∷ [])))
    × (data_of rest ≡ [])
    × Quiet idle t
    × Complete hello t
unfolding data_of
last_burst_delivered =
    handle_message_delivers hello_header hello hello-IsFrame echo whole (got hello_header ∷ []) idle
      (hello_header ++ hello) (IsFresh-Progress hello_header hello hello-IsFrame idle idle-IsFresh)
      (omega arith) whole-Fitting refl

handle_message-Broken_example :
    (handle_message (some echo) (got [] ∷ whole) idle ≡ some (handle_close idle, whole))
    × ((handle_close idle).conn.state ≡ disconnected)
handle_message-Broken_example =
    handle_message-Broken hello_header hello (some echo) (got []) whole idle (hello_header ++ hello)
      hello-IsFrame ended (IsFresh-Progress hello_header hello hello-IsFrame idle idle-IsFresh)

handle_message_too_long_example :
    (t : Session) × (handle_message
        (some echo)
        (got (0 ∷ 0 ∷ 0 ∷ 0 ∷ 0 ∷ 0 ∷ 16 ∷ 1 ∷ []) ∷ whole)
        idle
      ≡ some (t, whole))
    × (t.conn.state ≡ disconnected)
    × (t.conn.read_buffer ≡ [])
unfolding of_big_endian
handle_message_too_long_example =
    handle_message_too_long (some echo) 0 (0 ∷ 0 ∷ 0 ∷ 0 ∷ 0 ∷ 16 ∷ 1 ∷ []) whole idle []
      (omega arith)
      (record {
        count = refl;
        total = refl;
        more = omega arith;
        no_body = refl;
        memory = refl;
        waiting = refl;
      })
      (omega arith)

-- A message is echoed, the socket fails, the peer ends the stream, and the server closes once more.
abbrev used : Session
used = handle_close (write_non_blocking (write_error (other 32)) true (send2 true hello idle))

echo-KeepsOnce : KeepsOnce (some echo)
unfolding send2
echo-KeepsOnce s h = h

Use-IsOnce_example : IsOnce used
Use-IsOnce_example =
    Use-IsOnce (some echo) echo-KeepsOnce
      (sends2 true hello (writable (write_error (other 32)) true (closes unused))) refl

-- The header of an empty message in two reads.
abbrev empty_header : List ReadReply
empty_header = got (0 ∷ 0 ∷ 0 ∷ 0 ∷ 0 ∷ []) ∷ read_error eintr ∷ got (0 ∷ 0 ∷ 0 ∷ []) ∷ []

empty_header-InHeader : InHeader idle.conn [] (data_of empty_header)
unfolding data_of
empty_header-InHeader = record {
  count = refl;
  total = refl;
  more = omega arith;
  no_body = refl;
  memory = refl;
  waiting = refl;
}

empty_header-Fitting : Fitting empty_header idle
unfolding read_round wanted header_bytes header_complete swap bytes of_bytes store32 load32 htonl
empty_header-Fitting = omega arith

handle_message_empty_example :
    (t : Session) × (handle_message (some (λ s. s)) (empty_header ++ (got [] ∷ [])) idle
      ≡ some (reset t, []))
    × (wanted t ≡ 0)
    × (t.conn.read_buffer ≡ [])
    × Quiet idle t
unfolding of_big_endian data_of
handle_message_empty_example =
    handle_message_empty (λ s. s) empty_header [] idle [] empty_header-InHeader refl (omega arith)
      empty_header-Fitting
