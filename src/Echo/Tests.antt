-- ===== src/Echo/Tests.antt =====
-- The echo at a concrete message, which arrives over three readable events.
use epoll_server.Base.{◌≡◌, refl, ◌∙◌, true, some, List, [], ◌∷◌, ◌++◌, arith}
use epoll_server.Base.{ℕ, ◌+◌, ltb, List, [], ◌∷◌, true}
use epoll_server.Config.{any_address}
use epoll_server.Config.LastWins.{last_arg}
use epoll_server.Logger.{init}
use epoll_server.Logger.Process.{Outcome, succeeds, fails}
use epoll_server.EventLoop.Setup.{LoopReplies}
use epoll_server.Acceptor.{Replies}
use epoll_server.Echo.Main.{Loggers, EchoServer, main, WriterReplies, ThreadReplies, after_line}
use epoll_server.Echo.Launched.{Launched}
use epoll_server.Echo.Launch.{main-Launched}
use epoll_server.Tlv.{swap, bytes, of_bytes, store32, load32, htonl}
use epoll_server.Connection.State.{ReadReply, Session, wrote}
use epoll_server.Connection.Reader.{
  read_round, read_non_blocking, handle_message, dispatch_message, wanted, header_bytes,
  header_complete, body_bytes,
}
use epoll_server.Connection.Reader.Delivery.{IsFresh, reset, IsFresh-Progress}
use epoll_server.Connection.Reader.Bursts.{FittingBursts, receive, outgoing_header-IsFrame}
use epoll_server.Connection.Reader.Bounds.{Fitting}
use epoll_server.Connection.Events.{event}
use epoll_server.Echo.Event.{Answered, event-Answered}
use epoll_server.Connection.Sample.{
  idle, hello, first_burst, second_burst, last_burst, hello-frame, idle-IsValid, idle-IsFresh,
  bursts_data, bursts_some, whole, whole_data,
}
use epoll_server.Buffer.Contents.{contents}
use epoll_server.Connection.Sender.{write_non_blocking}
use epoll_server.Connection.State.{got}
use epoll_server.Connection.Reader.Pieces.{data_of}
use epoll_server.Tlv.{outgoing_header}
use epoll_server.Echo.Empty.{empty-Echoed}
use epoll_server.Echo.Dialogue.{
  ArrivesEmpty, empty_message, Arrives, Dialogue, over, message, writable, IsServing, frames_of,
  Dialogue-outgoing,
}
use epoll_server.Base.{sym, length, false}
use epoll_server.Client.{random_package, accepts_reply}
use epoll_server.Connection.Sender.Order.{outgoing}
use epoll_server.Echo.RoundTrip.{frame-random_package, receive-random_package}
use epoll_server.Echo.{on_message, Echoed}

bursts-Fitting :
    FittingBursts (some (on_message true)) (first_burst ∷ second_burst ∷ []) last_burst idle
unfolding handle_message read_non_blocking read_round dispatch_message wanted header_bytes
    header_complete body_bytes swap bytes of_bytes store32 load32 htonl
bursts-Fitting = omega arith

receive-random_package_example :
    (u : Session) × (rest : List ReadReply) × (receive
        (some (on_message true))
        (first_burst ∷ second_burst ∷ [])
        last_burst
        idle
      ≡ some (u, rest))
    × Echoed true hello idle u
    × IsFresh u
    × (outgoing u ≡ outgoing idle ++ random_package 2 hello)
    × (accepts_reply 2 (random_package 2 hello) (length (random_package 2 hello)) ≡ true)
receive-random_package_example =
    receive-random_package true hello (first_burst ∷ second_burst ∷ []) last_burst idle
      (omega arith) (omega arith) refl idle-IsValid idle-IsFresh (omega arith) (omega arith)
      bursts-Fitting bursts_some (sym (frame-random_package hello) ∙ hello-frame ∙ bursts_data)

-- The connection after the echo, before the socket takes its ten bytes.
abbrev after_echo : Session
after_echo = reset (
    on_message true (record idle {
      conn = record (idle.conn) {
        read_buffer = hello;
        read_tlv_header_length = 8;
        read_body_length = 2;
        tlv_header = record { type = 0; length = 2 };
        ready_to_handle_message = true;
      };
    }))

receive-on_message :
    receive (some (on_message true)) (first_burst ∷ second_burst ∷ []) last_burst idle
    ≡ some (after_echo, [])
unfolding receive handle_message read_non_blocking read_round dispatch_message header_bytes
    header_complete body_bytes swap bytes of_bytes store32 load32 htonl
receive-on_message = refl

hello-Arrives : Arrives true hello (first_burst ∷ second_burst ∷ []) last_burst idle
hello-Arrives = record {
  some_bytes = omega arith;
  small = omega arith;
  pieces = omega arith;
  last_pieces = omega arith;
  fitting = bursts-Fitting;
  last_bytes = bursts_some;
  bytes = hello-frame ∙ bursts_data;
}

abbrev hello_dialogue : Dialogue idle (hello ∷ []) (write_non_blocking (wrote 10) true after_echo)
hello_dialogue =
    message true (first_burst ∷ second_burst ∷ []) last_burst hello-Arrives receive-on_message
      (writable (wrote 10) true tt over)

Dialogue-outgoing_example :
    IsServing (write_non_blocking (wrote 10) true after_echo)
    × ((write_non_blocking (wrote 10) true after_echo).wire
          ++ contents (write_non_blocking (wrote 10) true after_echo).conn.send_buffer
        ≡ ([] ++ []) ++ frames_of (hello ∷ []))
unfolding contents
Dialogue-outgoing_example =
    Dialogue-outgoing hello_dialogue
      (record { state = refl; valid = idle-IsValid; fresh = idle-IsFresh })

-- The header of an empty message in two reads.
abbrev empty_header : List ReadReply
empty_header = got (0 ∷ 0 ∷ 0 ∷ 0 ∷ 0 ∷ []) ∷ got (0 ∷ 0 ∷ 0 ∷ []) ∷ []

empty_header-ArrivesEmpty : ArrivesEmpty empty_header idle
unfolding data_of outgoing_header read_round wanted header_bytes header_complete swap bytes of_bytes
    store32 load32 htonl
empty_header-ArrivesEmpty = record { pieces = omega arith; fitting = omega arith; bytes = refl }

empty_dialogue : (u : Session) × Dialogue idle ([] ∷ []) u
empty_dialogue =
    let a = empty_header-ArrivesEmpty in
    let (u, run, _, _) =
      empty-Echoed true empty_header [] idle refl idle-IsValid idle-IsFresh a.bytes a.pieces
        a.fitting in
    (u, empty_message true empty_header [] a run over)

-- `-t 2 -a 1`, with an `atoi` that takes the first byte, and a port that is taken.
abbrev first_byte : List ℕ → ℕ
first_byte [] = 0
first_byte (b ∷ bytes) = b

abbrev arguments : List (ℕ × List ℕ)
arguments = (116, 2 ∷ []) ∷ (97, 1 ∷ []) ∷ []

abbrev port_taken : List ℕ → ℕ → Replies
port_taken addr port = record {
  socket = succeeds 5;
  setsockopt = succeeds tt;
  bind = fails "Address already in use";
  listen = succeeds tt;
  ctl_ok = true;
  tied = true;
}

abbrev loop_replies : LoopReplies
loop_replies = record {
  epoll_create = some 3;
  eventfd = succeeds 4;
  ctl_ok = true;
  tid = 0;
  tied = true;
}

abbrev fresh : Loggers
fresh = record {
  echoserver = init;
  eventloop = init;
  acceptor = init;
  server = init;
  eventloopthreadpool = init;
  eventloopthread = init;
}

-- The log file cannot be opened, and both threads of the pool can be made.
abbrev writer : WriterReplies
writer = record {
  made = true;
  thread = 2;
  opening = after_line (fails "No such file or directory");
}

abbrev thread_replies : ℕ → ThreadReplies
thread_replies i = record {
  made = true;
  thread = i + 3;
  first = loop_replies;
  second = loop_replies;
}

-- The loop of the thread made in round `i` is `i + 1`, and the main reactor is loop 0.
abbrev outcome : Outcome Loggers EchoServer
outcome =
    main (λ n. n) (λ n. ltb 0 n) (λ config. "ADDR") first_byte loop_replies port_taken 0 writer
      (λ n. "3") thread_replies (λ i. i + 1) 1 80 0 8 arguments fresh

main-Launched_example :
    Launched loop_replies 0 writer thread_replies
      (λ i. i + 1)
      (port_taken any_address 80)
      2
      true
      fresh
      outcome
unfolding last_arg
main-Launched_example =
    main-Launched (λ n. n) (λ n. ltb 0 n) (λ config. "ADDR") first_byte loop_replies port_taken 0
      (λ n. "3") thread_replies (λ i. i + 1) 1 writer 80 0 8 arguments fresh

-- The whole frame at once, ready to read and to write, and a socket that takes four bytes.
abbrev both_ready : Session
both_ready = record idle {
  conn = record (idle.conn) { channel = record (idle.conn.channel) { ready_events = 5 } };
}

whole-Fitting : Fitting whole both_ready
unfolding read_round wanted header_bytes header_complete body_bytes swap bytes of_bytes store32
    load32 htonl
whole-Fitting = omega arith

event-Answered_example :
    (v : Session) × (rest : List ReadReply) × (event
        (some (on_message true))
        (wrote 4)
        true
        false
        (whole ++ [])
        both_ready
      ≡ some (v, rest ++ []))
    × Answered 4 hello both_ready v
    × IsFresh v
event-Answered_example =
    event-Answered true true false 4 hello whole [] both_ready (outgoing_header 2 ++ hello)
      (omega arith) (omega arith) refl idle-IsValid refl
      (IsFresh-Progress (outgoing_header 2) hello
        (outgoing_header-IsFrame hello (omega arith) (omega arith)) both_ready
        (record { no_header = refl; no_body = refl; waiting = refl }))
      (omega arith) whole-Fitting whole_data
