-- ===== src/Echo/RoundTrip.antt =====
-- A packet of the clients on its way to the echo server and back.
use epoll_server.Base.{
  ℕ, ◌≤◌, ◌<◌, ◌≡◌, refl, sym, ap, ◌∙◌, Bool, true, some, List, ◌++◌, length, All, arith, ◌+◌,
  ==_eq, length-append,
}
use epoll_server.Buffer.Contents.{IsValid}
use epoll_server.Tlv.{max_tlv_length, tlv_header_length}
use epoll_server.Tlv.Wire.{length-outgoing_header}
use epoll_server.Client.{random_package, accepts_reply, accepts_reply-random_package}
use epoll_server.Connection.State.{connected, ReadReply, Session}
use epoll_server.Connection.Sender.Order.{frame, outgoing}
use epoll_server.Connection.Reader.Pieces.{IsPiece, data_of}
use epoll_server.Connection.Reader.Delivery.{IsFresh}
use epoll_server.Connection.Reader.Bursts.{receive, FittingBursts, data_of_bursts}
use epoll_server.Echo.{on_message, Echoed, receive-on_message-Echoed}

pub frame-random_package : (msg : List ℕ) → frame msg ≡ random_package (length msg) msg
unfolding frame random_package
frame-random_package msg = refl

length-frame : (msg : List ℕ) → length (frame msg) ≡ length msg + tlv_header_length
unfolding frame
length-frame msg = omega (arith, length-append _ msg, length-outgoing_header (length msg))

-- Let the packet of a client, of a message of 1 to MAX_TLV_LENGTH bytes, reach an open connection of the
-- echo server that is between two frames, with a valid send buffer, in any number of readable events and
-- cut up in any way. After the last event, the bytes written to the client followed by those in the send
-- buffer are those from before followed by exactly this packet; the connection is open, its channel has
-- asked for EPOLLOUT, and its reader is between two frames again. And the client's check accepts the reply
-- when it has read as many bytes as the packet has.
pub receive-random_package :
    (ok : Bool) (body : List ℕ) (bs : List (List ReadReply)) (last : List ReadReply) (s : Session)
    → 0 < length body
    → length body ≤ max_tlv_length
    → s.conn.state ≡ connected
    → IsValid s.conn.send_buffer
    → IsFresh s
    → All (All IsPiece) bs
    → All IsPiece last
    → FittingBursts (some (on_message ok)) bs last s
    → 0 < length (data_of last)
    → random_package (length body) body ≡ data_of_bursts bs last
    → (u : Session) × (rest : List ReadReply) × (receive (some (on_message ok)) bs last s
        ≡ some (u, rest))
      × Echoed ok body s u
      × IsFresh u
      × (outgoing u ≡ outgoing s ++ random_package (length body) body)
      × (accepts_reply
            (length body)
            (random_package (length body) body)
            (length (random_package (length body) body))
          ≡ true)
receive-random_package ok body bs last s some_bytes small is_open v fresh a l f h e =
    let (u, rest, run, echoed, fresh') =
      receive-on_message-Echoed ok body bs last s some_bytes small is_open v fresh a l f h
        (frame-random_package body ∙ e) in
    (
      u,
      rest,
      run,
      echoed,
      fresh',
      echoed.stream ∙ ap (λ b. outgoing s ++ b) (frame-random_package body),
      accepts_reply-random_package (length body) body _
          ∙ ==_eq (length (random_package (length body) body)) (length body + tlv_header_length)
              (ap length (sym (frame-random_package body)) ∙ length-frame body),
    )
