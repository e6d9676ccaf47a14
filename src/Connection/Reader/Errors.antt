-- ===== src/Connection/Reader/Errors.antt =====
-- What the reader refuses: frames that are too long, and streams that end inside a frame.
use epoll_server.Base.{
  ℕ, ◌+◌, ◌<◌, ◌≡◌, refl, sym, ap, ◌∙◌, false, Option, some, List, [], ◌∷◌, ◌++◌, arith, length,
  drop, IsBytes, lt→ltb, le→ltb, ==_eq, ==_ne, take_all,
}
use epoll_server.Tlv.{TlvHeader, bytes, swap, max_tlv_length}
use epoll_server.Tlv.Wire.{of_big_endian, swap-length, length-bytes}
use epoll_server.Connection.State.{
  disconnected, other, ReadReply, got, read_error, Session, handle_close,
}
use epoll_server.Connection.Close.{handle_close-kept, handle_close-disconnected}
use epoll_server.Connection.Reader.{
  stop, header_bytes, header_complete, read_failed, read_header, read_body, read_round,
  handle_message, set_conn,
}
use epoll_server.Connection.Reader.Rounds.{read_non_blocking-stop}
use epoll_server.Connection.Reader.Frames.{InHeader, header_memory}
use epoll_server.Connection.Reader.Messages.{IsFrame, Progress, in_header, in_body}
use epoll_server.Connection.Reader.Delivery.{handle_message_lem, dispatch_waiting, Progress-waiting}

-- The end of the stream, or an error that is not to be tried again.
pub data Broken : ReadReply → Type 0 where
  ended : Broken (got [])
  failed : (e : ℕ) → Broken (read_error (other e))

Broken-read_header :
    (r : ReadReply) (s : Session) → Broken r → read_header r s ≡ stop (handle_close s)
unfolding read_header read_failed
Broken-read_header _ s ended = refl
Broken-read_header _ s (failed e) = refl

Broken-read_body :
    (r : ReadReply) (s : Session)
    → Broken r
    → s.conn.read_body_length < s.conn.tlv_header.length
    → read_body r s ≡ stop (handle_close s)
unfolding read_body read_failed
Broken-read_body _ s ended h =
    rw (==_ne s.conn.read_body_length s.conn.tlv_header.length (omega arith))
Broken-read_body _ s (failed e) h = refl

Broken-read_round :
    (head body : List ℕ) (r : ReadReply) (s : Session) (todo : List ℕ)
    → Broken r
    → Progress head body s todo
    → read_round r s ≡ stop (handle_close s)
unfolding read_round
Broken-read_round head body r s todo b (in_header done left e e' p) =
    rw (lt→ltb s.conn.read_tlv_header_length 8 (omega (arith, p.count, p.total, p.more)))
      (Broken-read_header r s b)
Broken-read_round head body r s todo b (in_body done left e e' more p) =
    rw (le→ltb s.conn.read_tlv_header_length 8 (omega (arith, p.header_read)))
      (Broken-read_body r s b (omega (arith, p.announced, p.count)))

-- Inside a frame, the end of the stream or an error other than EINTR, EAGAIN and EWOULDBLOCK closes
-- the connection, whatever the message callback: it does not run, and no later answer is read.
pub handle_message-Broken :
    (head body : List ℕ) (on_message : Option (Session → Session)) (r : ReadReply)
    (more : List ReadReply) (s : Session) (todo : List ℕ)
    → IsFrame head body
    → Broken r
    → Progress head body s todo
    → (handle_message on_message (r ∷ more) s ≡ some (handle_close s, more))
      × ((handle_close s).conn.state ≡ disconnected)
handle_message-Broken head body on_message r more s todo frame b p = (
  handle_message_lem on_message (r ∷ more) s (handle_close s) more (
        read_non_blocking-stop r more s (handle_close s) (Broken-read_round head body r s todo b p))
      ∙ ap (λ t. some (t, more))
          (dispatch_waiting on_message (handle_close s) (
            handle_close-kept (λ t. t.conn.ready_to_handle_message ≡ false) s
              (Progress-waiting head body frame s todo p)
              (Progress-waiting head body frame s todo p))),
  handle_close-disconnected s,
)

-- The reader of a header that announces more than MAX_TLV_LENGTH bytes gives up on the connection
-- when the header is whole: it is closed, the message callback does not run, no room is made for the
-- body, and no later answer is read.
pub handle_message_too_long :
    (on_message : Option (Session → Session)) (x : ℕ) (xs : List ℕ) (more : List ReadReply)
    (s : Session) (done : List ℕ)
    → IsBytes (x ∷ xs)
    → InHeader s.conn done (x ∷ xs)
    → max_tlv_length < of_big_endian (drop 4 (done ++ (x ∷ xs)))
    → (t : Session) × (handle_message on_message (got (x ∷ xs) ∷ more) s ≡ some (t, more))
      × (t.conn.state ≡ disconnected)
      × (t.conn.read_buffer ≡ s.conn.read_buffer)
unfolding read_round read_header header_complete
handle_message_too_long on_message x xs more s done b p long =
    let s' : Session = header_bytes (x ∷ xs) s in
    let h : TlvHeader = swap s'.conn.tlv_header in
    let u : Session = set_conn s' (record (s'.conn) { tlv_header = h }) in
    let whole : bytes s'.conn.tlv_header ≡ done ++ (x ∷ xs) =
      sym (
        take_all (length done + length (x ∷ xs)) (bytes s'.conn.tlv_header)
          (omega (arith, length-bytes s'.conn.tlv_header, p.total)))
      ∙ header_memory (x ∷ xs) s done b p.count (omega (arith, p.total)) p.memory in
    let says : h.length ≡ of_big_endian (drop 4 (done ++ (x ∷ xs))) =
      swap-length s'.conn.tlv_header ∙ ap (λ m. of_big_endian (drop 4 m)) whole in
    let round : read_round (got (x ∷ xs)) s ≡ stop (handle_close u) = rw (
      lt→ltb s.conn.read_tlv_header_length 8 (omega (arith, p.count, p.total)),
      ==_eq (s.conn.read_tlv_header_length + length (x ∷ xs)) 8 (omega (arith, p.count, p.total)),
      lt→ltb max_tlv_length h.length (omega (arith, says)),
    ) in
    (
      handle_close u,
      handle_message_lem on_message (got (x ∷ xs) ∷ more) s (handle_close u) more
            (read_non_blocking-stop (got (x ∷ xs)) more s (handle_close u) round)
          ∙ ap (λ t. some (t, more))
              (dispatch_waiting on_message (handle_close u) (
                handle_close-kept (λ t. t.conn.ready_to_handle_message ≡ false) u p.waiting
                  p.waiting)),
      handle_close-disconnected u,
      handle_close-kept (λ t. t.conn.read_buffer ≡ s.conn.read_buffer) u refl refl,
    )
