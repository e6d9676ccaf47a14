-- ===== src/Connection/Reader/Outside.antt =====
-- What the reader leaves alone: all of a session but the reader's own fields, unless it closes the
-- connection.
use epoll_server.Base.{ℕ, Option, none, some, List, [], ◌∷◌, if_both, resize, ltb, ◌==◌}
use epoll_server.Buffer.{Buffer}
use epoll_server.Tlv.{TlvHeader, swap, max_tlv_length, tlv_header_length}
use epoll_server.Connection.State.{
  ConnectionState, Errno, eagain, ewouldblock, eintr, other, ReadReply, got, read_error, Session,
  handle_close,
}
use epoll_server.Connection.Reader.Rounds.{OfRound}
use epoll_server.Connection.Reader.{
  Round, set_conn, again, stop, read_failed, header_complete, header_bytes, read_header, set_ready,
  body_bytes, body_complete, read_body, read_round, read_non_blocking,
}

pub record Outside : Type 0 where
  pub state : ConnectionState
  pub send_buffer : Buffer
  pub wire : List ℕ
  pub close_calls : ℕ

abbrev pub outside : Session → Outside
outside s = record {
  state = s.conn.state;
  send_buffer = s.conn.send_buffer;
  wire = s.wire;
  close_calls = s.close_calls;
}

-- A property of these, which `HandleClose` keeps.
module _ (P : Outside → Type 0)
    (closes : (s : Session) → P (outside s) → P (outside (handle_close s))) where
  abbrev Holds : Session → Type 0
  Holds s = P (outside s)

  abbrev RoundKeeps : Round → Type 0
  RoundKeeps = OfRound Holds

  read_failed-RoundKeeps : (e : Errno) (s : Session) → Holds s → RoundKeeps (read_failed e s)
  unfolding read_failed
  read_failed-RoundKeeps eagain s h = h
  read_failed-RoundKeeps ewouldblock s h = h
  read_failed-RoundKeeps eintr s h = h
  read_failed-RoundKeeps (other n) s h = closes s h

  header_complete-RoundKeeps : (s : Session) → Holds s → RoundKeeps (header_complete s)
  unfolding header_complete
  header_complete-RoundKeeps s h =
      let header : TlvHeader = swap s.conn.tlv_header in
      let t : Session = set_conn s (record (s.conn) { tlv_header = header }) in
      let u : Session =
        set_conn t (record (t.conn) { read_buffer = resize header.length 0 t.conn.read_buffer }) in
      if_both RoundKeeps (ltb max_tlv_length header.length) (stop (handle_close t)) (again u)
        (λ _. closes t h) (λ _. h)

  read_header-RoundKeeps : (r : ReadReply) (s : Session) → Holds s → RoundKeeps (read_header r s)
  unfolding read_header header_bytes
  read_header-RoundKeeps (got []) s h = closes s h
  read_header-RoundKeeps (got (x ∷ xs)) s h =
      let t : Session = header_bytes (x ∷ xs) s in
      if_both RoundKeeps (t.conn.read_tlv_header_length == tlv_header_length) (header_complete t)
        (again t) (λ _. header_complete-RoundKeeps t h) (λ _. h)
  read_header-RoundKeeps (read_error e) s h = read_failed-RoundKeeps e s h

  read_body-RoundKeeps : (r : ReadReply) (s : Session) → Holds s → RoundKeeps (read_body r s)
  unfolding read_body body_bytes
  read_body-RoundKeeps (got []) s h =
      if_both RoundKeeps (body_complete s) (stop (set_ready s)) (stop (handle_close s)) (λ _. h)
        (λ _. closes s h)
  read_body-RoundKeeps (got (x ∷ xs)) s h =
      let t : Session = body_bytes (x ∷ xs) s in
      if_both RoundKeeps (body_complete t) (stop (set_ready t)) (again t) (λ _. h) (λ _. h)
  read_body-RoundKeeps (read_error e) s h = read_failed-RoundKeeps e s h

  read_round-RoundKeeps : (r : ReadReply) (s : Session) → Holds s → RoundKeeps (read_round r s)
  unfolding read_round
  read_round-RoundKeeps r s h =
      if_both RoundKeeps (ltb s.conn.read_tlv_header_length tlv_header_length) (read_header r s)
        (read_body r s) (λ _. read_header-RoundKeeps r s h) (λ _. read_body-RoundKeeps r s h)

  -- If the loop ends.
  abbrev pub ResultKeeps : Option (Session × List ReadReply) → Type 0
  ResultKeeps none = Unit {0}
  ResultKeeps (some (s, rest)) = Holds s

  pub read_non_blocking-ResultKeeps :
      (rs : List ReadReply) (s : Session) → Holds s → ResultKeeps (read_non_blocking rs s)
  unfolding read_non_blocking
  read_non_blocking-ResultKeeps [] s h = tt
  read_non_blocking-ResultKeeps (r ∷ rs) s h =
      go (λ t. read_non_blocking-ResultKeeps rs t) (read_round r s) (read_round-RoundKeeps r s h)
    where
      go :
          ((t : Session) → Holds t → ResultKeeps (read_non_blocking rs t))
          → (round : Round) → RoundKeeps round
          → ResultKeeps (elim round [ again t ↦ read_non_blocking rs t | stop t ↦ some (t, rs) ])
      go later (again t) k = later t k
      go later (stop t) k = k
