-- ===== src/Connection/Sample.antt =====
-- An open connection and the frame of a message in three bursts, for the tests.
use epoll_server.Base.{ℕ, ◌<◌, ◌≡◌, refl, true, false, List, [], ◌∷◌, ◌++◌, arith, length}
use epoll_server.Buffer.Contents.{IsValid}
use epoll_server.Channel.State.{Channel}
use epoll_server.Tlv.{outgoing_header, swap, bytes, store32, htonl}
use epoll_server.Connection.State.{connected, eintr, ReadReply, got, read_error, Session}
use epoll_server.Connection.Sender.Order.{frame}
use epoll_server.Connection.Reader.Pieces.{data_of}
use epoll_server.Connection.Reader.Delivery.{IsFresh}
use epoll_server.Connection.Reader.Bursts.{data_of_bursts}

abbrev pub small_channel : Channel
small_channel = record {
  client_fd = 7;
  listening_events = 3;
  ready_events = 1;
  in_epoll = true;
  failed = false;
  tied = true;
}

-- An open connection with nothing read and an empty send buffer of four bytes.
abbrev pub idle : Session
idle = record {
  conn = record {
    client_fd = 7;
    state = connected;
    channel = small_channel;
    read_buffer = [];
    send_buffer = record { buffer = 0 ∷ 0 ∷ 0 ∷ 0 ∷ []; read_index = 0; write_index = 0 };
    read_tlv_header_length = 0;
    read_body_length = 0;
    tlv_header = record { type = 0; length = 0 };
    ready_to_handle_message = false;
    on_close_callback = true;
  };
  wire = [];
  close_calls = 0;
}

abbrev pub hello : List ℕ
hello = 104 ∷ 105 ∷ []

-- Five header bytes; then the rest of them and a byte of the body; then the last byte.
abbrev pub first_burst : List ReadReply
first_burst = got (0 ∷ 0 ∷ 0 ∷ 0 ∷ 0 ∷ []) ∷ []

abbrev pub second_burst : List ReadReply
second_burst = read_error eintr ∷ got (0 ∷ 0 ∷ 2 ∷ []) ∷ got (104 ∷ []) ∷ []

abbrev pub last_burst : List ReadReply
last_burst = got (105 ∷ []) ∷ []

abbrev pub hello_header : List ℕ
hello_header = 0 ∷ 0 ∷ 0 ∷ 0 ∷ 0 ∷ 0 ∷ 0 ∷ 2 ∷ []

pub hello-frame : frame hello ≡ hello_header ++ hello
unfolding frame outgoing_header swap bytes store32 htonl
hello-frame = refl

pub idle-IsValid : IsValid idle.conn.send_buffer
idle-IsValid = omega arith

pub idle-IsFresh : IsFresh idle
idle-IsFresh = record { no_header = refl; no_body = refl; waiting = refl }

pub bursts_data :
    hello_header ++ hello ≡ data_of_bursts (first_burst ∷ second_burst ∷ []) last_burst
unfolding data_of_bursts data_of
bursts_data = refl

pub bursts_some : 0 < length (data_of last_burst)
unfolding data_of
bursts_some = omega arith

-- The whole frame at once.
abbrev pub whole : List ReadReply
whole = first_burst ++ second_burst ++ last_burst

pub whole_data : outgoing_header 2 ++ hello ≡ data_of whole
unfolding data_of frame
whole_data = hello-frame
