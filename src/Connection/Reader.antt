-- ===== src/Connection/Reader.antt =====
-- `ReadNonBlocking` and `HandleMessage`.
-- What each `read` answers is an element of a list, in the order of the calls: the `while (true)`
-- takes one answer a round. `none` is a loop that is still running when the answers end.
pub mod Rounds
pub mod Bounds
pub mod Termination
pub mod Frames
pub mod Messages
pub mod Pieces
pub mod Delivery
pub mod Bursts
pub mod Errors
pub mod Empty
pub mod Outside
use epoll_server.Base.{
  ℕ, ◌+◌, ◌-◌, Bool, true, false, Option, none, some, List, [], ◌∷◌, ◌++◌, length, blit, resize,
  ltb, ◌==◌, if◌then◌else◌,
}
use epoll_server.Channel.Dispatch.{call}
use epoll_server.Tlv.{TlvHeader, tlv_header_length, max_tlv_length, bytes, of_bytes, swap}
use epoll_server.Connection.State.{
  Errno, eagain, ewouldblock, eintr, other, ReadReply, got, read_error, Connection, Session,
  handle_close,
}

-- How a round of the loop ends: `continue` or its end, or `break`.
pub data Round : Type 0 where
  again : Session → Round
  stop : Session → Round

abbrev pub set_conn : Session → Connection → Session
set_conn s c = record s { conn = c }

-- The branches that both halves of the loop have for an answer of -1.
unfoldable pub read_failed : Errno → Session → Round
read_failed eintr s = again s
read_failed eagain s = stop s
read_failed ewouldblock s = stop s
read_failed (other n) s = stop (handle_close s)

-- A complete header: into host order, checked, and room made for the body.
unfoldable pub header_complete : Session → Round
header_complete s =
    let h : TlvHeader = swap s.conn.tlv_header in
    let c : Connection = record (s.conn) { tlv_header = h } in
    if ltb max_tlv_length h.length
    then stop (handle_close (set_conn s c))
    else again (set_conn s (record c { read_buffer = resize h.length 0 c.read_buffer }))

-- The bytes go into the header's memory behind those read before.
unfoldable pub header_bytes : List ℕ → Session → Session
header_bytes xs s = set_conn s (record (s.conn) {
  tlv_header = of_bytes (blit (bytes s.conn.tlv_header) s.conn.read_tlv_header_length xs);
  read_tlv_header_length = s.conn.read_tlv_header_length + length xs;
})

unfoldable pub read_header : ReadReply → Session → Round
unfolding read_failed header_complete header_bytes
read_header (got []) s = stop (handle_close s)
read_header (got (x ∷ xs)) s =
    let s' : Session = header_bytes (x ∷ xs) s in
    if s'.conn.read_tlv_header_length == tlv_header_length then header_complete s' else again s'
read_header (read_error e) s = read_failed e s

abbrev pub set_ready : Session → Session
set_ready s = set_conn s (record (s.conn) { ready_to_handle_message = true })

unfoldable pub body_bytes : List ℕ → Session → Session
body_bytes xs s = set_conn s (record (s.conn) {
  read_buffer = blit s.conn.read_buffer s.conn.read_body_length xs;
  read_body_length = s.conn.read_body_length + length xs;
})

-- The body has as many bytes as the header said.
abbrev pub body_complete : Session → Bool
body_complete s = s.conn.read_body_length == s.conn.tlv_header.length

unfoldable pub read_body : ReadReply → Session → Round
unfolding read_failed body_bytes
read_body (got []) s = if body_complete s then stop (set_ready s) else stop (handle_close s)
read_body (got (x ∷ xs)) s =
    let s' : Session = body_bytes (x ∷ xs) s in
    if body_complete s' then stop (set_ready s') else again s'
read_body (read_error e) s = read_failed e s

-- One round of the loop.
unfoldable pub read_round : ReadReply → Session → Round
unfolding read_header read_body
read_round r s =
    if ltb s.conn.read_tlv_header_length tlv_header_length then read_header r s else read_body r s

-- How many bytes the round's `read` asks for.
unfoldable pub wanted : Session → ℕ
wanted s =
    if ltb s.conn.read_tlv_header_length tlv_header_length
    then tlv_header_length - s.conn.read_tlv_header_length
    else length s.conn.read_buffer - s.conn.read_body_length

-- The session after the loop, and the answers that it has left.
unfoldable pub read_non_blocking : List ReadReply → Session → Option (Session × List ReadReply)
read_non_blocking [] s = none
read_non_blocking (r ∷ rs) s = elim (read_round r s) [
  | again s' ↦ read_non_blocking rs s'
  | stop s' ↦ some (s', rs)
]

-- `Read`
abbrev pub read : List ReadReply → Session → Option (Session × List ReadReply)
read rs s = read_non_blocking rs s

-- The message callback, if it is set and a message is ready, and the reader made ready for the next.
unfoldable pub dispatch_message : Option (Session → Session) → Session → Session
dispatch_message none s = s
dispatch_message (some callback) s =
    if s.conn.ready_to_handle_message
    then (let t : Session = callback s in
        set_conn t (record (t.conn) {
          ready_to_handle_message = false;
          read_tlv_header_length = 0;
          read_body_length = 0;
        }))
    else s

unfoldable pub handle_message :
    Option (Session → Session) → List ReadReply → Session → Option (Session × List ReadReply)
handle_message on_message rs s = elim (read rs s) [
  | none ↦ none
  | some (s', rest) ↦ some (dispatch_message on_message s', rest)
]
