-- ===== src/Echo/Round/Tests.antt =====
-- One connection is ready to read and to write and has a whole frame to read; its socket takes four bytes.
use epoll_server.Base.{ℕ, ◌≡◌, refl, Bool, true, some, List, [], ◌∷◌, ◌++◌, arith}
use epoll_server.Channel.State.{set_ready_events}
use epoll_server.Epoller.Wait.{Event, epoll, collect, reported}
use epoll_server.EventLoop.Polling.{AllReturn, polled}
use epoll_server.Tlv.{outgoing_header, swap, bytes, of_bytes, store32, load32, htonl}
use epoll_server.Connection.State.{ReadReply, WriteReply, wrote, Session}
use epoll_server.Connection.Reader.{read_round, wanted, header_bytes, header_complete, body_bytes}
use epoll_server.Connection.Reader.Bounds.{Fitting}
use epoll_server.Connection.Reader.Messages.{Progress}
use epoll_server.Connection.Reader.Delivery.{IsFresh, IsFresh-Progress}
use epoll_server.Connection.Reader.Bursts.{outgoing_header-IsFrame}
use epoll_server.Connection.Sample.{idle, hello, whole, whole_data, idle-IsValid}
use epoll_server.Echo.Event.{Answered, event-Answered}
use epoll_server.Echo.FirstMessage.{ready}
use epoll_server.Echo.Round.{
  Served, channel_of, put_channel, put_same, handle_event, echo_round, echo_round-Answered,
}

abbrev one_event : List Event
one_event = record { ptr = 1; events = 5 } ∷ []

abbrev all_idle : ℕ → Served
all_idle p = (idle, whole ++ [])

abbrev yes_all : ℕ → Bool
yes_all p = true

abbrev takes_four : ℕ → WriteReply
takes_four p = wrote 4

whole-Fitting : Fitting whole (ready 5 idle)
unfolding read_round wanted header_bytes header_complete body_bytes swap bytes of_bytes store32
    load32 htonl set_ready_events
whole-Fitting = omega arith

between_frames : Progress (outgoing_header 2) hello (ready 5 idle) (outgoing_header 2 ++ hello)
unfolding set_ready_events
between_frames =
    IsFresh-Progress (outgoing_header 2) hello
      (outgoing_header-IsFrame hello (omega arith) (omega arith)) (ready 5 idle)
      (record { no_header = refl; no_body = refl; waiting = refl })

comes_back : AllReturn (handle_event yes_all yes_all takes_four) one_event (
    polled channel_of put_channel put_same
      (handle_event yes_all yes_all takes_four)
      (some one_event)
      all_idle)
unfolding polled epoll collect set_ready_events
comes_back =
    let (v, rest, run, _, _) =
      event-Answered true true true 4 hello whole [] (ready 5 idle) (outgoing_header 2 ++ hello)
        (omega arith) (omega arith) refl idle-IsValid refl between_frames (omega arith)
        whole-Fitting whole_data in
    (((v, rest ++ []), run), tt)

echo_round-Answered_example :
    (after : ℕ → Served) × (echo_round yes_all yes_all takes_four (some one_event) all_idle
      ≡ some after)
    × (after 2 ≡ all_idle 2)
    × (v : Session) × (rest : List ReadReply) × (after 1 ≡ (v, rest ++ []))
    × Answered 4 hello idle v
    × IsFresh v
unfolding reported set_ready_events
echo_round-Answered_example =
    echo_round-Answered yes_all yes_all takes_four (some one_event) all_idle 1 2 5 4 hello whole []
      idle (outgoing_header 2 ++ hello) (omega arith) comes_back refl refl refl refl (omega arith)
      (omega arith) refl idle-IsValid refl between_frames (omega arith) whole-Fitting whole_data
