-- ===== src/Connection/Reader/Bounds.antt =====
-- The memory that the reader writes to.
use epoll_server.Base.{
  suc, ==_iff, ◌+◌, ◌≤◌, ◌<◌, ◌≡◌, some, List, [], ◌∷◌, arith, length, ltb, ◌==◌, Bool-cases, inl,
  inr, ltb→lt, ltb→le, length-blit, length-resize,
}
use epoll_server.Tlv.{TlvHeader, swap, max_tlv_length}
use epoll_server.Connection.State.{
  Errno, eagain, ewouldblock, eintr, other, ReadReply, got, read_error, Connection, Session,
  handle_close,
}
use epoll_server.Connection.Close.{handle_close-kept}
use epoll_server.Connection.Reader.Rounds.{OfRound, read_non_blocking-cons}
use epoll_server.Connection.Reader.{
  Round, again, stop, read_failed, header_complete, header_bytes, read_header, body_bytes,
  read_body, read_round, wanted, read_non_blocking, body_complete, set_conn,
}

-- read(2) gives no more bytes than it was asked for.
abbrev pub Fits : ReadReply → Session → Type 0
Fits (got xs) s = length xs ≤ wanted s
Fits (read_error e) s = Unit {0}

pub record IsSound (c : Connection) : Type 0 where
  pub header_in : c.read_tlv_header_length ≤ 8
  pub body_in : c.read_body_length ≤ length c.read_buffer
  pub size : length c.read_buffer ≤ max_tlv_length
  pub no_body : c.read_tlv_header_length < 8 → c.read_body_length ≡ 0

abbrev RoundSound : Round → Type 0
RoundSound = OfRound (λ s. IsSound s.conn)

pub handle_close-IsSound : (s : Session) → IsSound s.conn → IsSound (handle_close s).conn
handle_close-IsSound s v =
    handle_close-kept (λ t. IsSound t.conn) s v
      (record { header_in = v.header_in; body_in = v.body_in; size = v.size; no_body = v.no_body })

read_failed-IsSound : (e : Errno) (s : Session) → IsSound s.conn → RoundSound (read_failed e s)
unfolding read_failed
read_failed-IsSound eintr s v = v
read_failed-IsSound eagain s v = v
read_failed-IsSound ewouldblock s v = v
read_failed-IsSound (other n) s v = handle_close-IsSound s v

header_complete-IsSound :
    (s : Session)
    → IsSound s.conn
    → s.conn.read_body_length ≡ 0
    → s.conn.read_tlv_header_length ≡ 8
    → RoundSound (header_complete s)
unfolding header_complete
header_complete-IsSound s v empty full =
    let h : TlvHeader = swap s.conn.tlv_header in
    elim (Bool-cases (ltb max_tlv_length h.length)) [
      | inl long ↦ rw long (
          handle_close-IsSound (set_conn s (record (s.conn) { tlv_header = h })) (record {
            header_in = v.header_in;
            body_in = v.body_in;
            size = v.size;
            no_body = v.no_body;
          }))
      | inr short ↦ rw short (record {
        header_in = v.header_in;
        body_in = omega (arith, empty);
        size = omega (
          arith,
          length-resize h.length 0 s.conn.read_buffer,
          ltb→le max_tlv_length h.length short,
        );
        no_body = v.no_body;
      })
    ]

read_header-IsSound :
    (r : ReadReply) (s : Session)
    → IsSound s.conn
    → s.conn.read_tlv_header_length < 8
    → Fits r s
    → RoundSound (read_header r s)
unfolding read_header wanted header_bytes
read_header-IsSound (got []) s v early f = handle_close-IsSound s v
read_header-IsSound (got (x ∷ xs)) s v early f =
    let s' : Session = header_bytes (x ∷ xs) s in
    let fits : s.conn.read_tlv_header_length + suc (length xs) ≤ 8 = ground (arith, f, early) in
    let v' : IsSound s'.conn = record {
      header_in = fits;
      body_in = v.body_in;
      size = v.size;
      no_body = λ _. v.no_body early;
    } in
    elim (Bool-cases (s'.conn.read_tlv_header_length == 8)) [
      | inl full ↦ rw full (header_complete-IsSound s' v' (v.no_body early) ((==_iff _ 8).0 full))
      | inr partial ↦ rw partial v'
    ]
read_header-IsSound (read_error e) s v early f = read_failed-IsSound e s v

read_body-IsSound :
    (r : ReadReply) (s : Session)
    → IsSound s.conn
    → 8 ≤ s.conn.read_tlv_header_length
    → Fits r s
    → RoundSound (read_body r s)
unfolding read_body wanted body_bytes
read_body-IsSound (got []) s v late f = elim (Bool-cases (body_complete s)) [
  | inl done ↦
      rw done (record {
        header_in = v.header_in;
        body_in = v.body_in;
        size = v.size;
        no_body = v.no_body;
      })
  | inr short ↦ rw short (handle_close-IsSound s v)
]
read_body-IsSound (got (x ∷ xs)) s v late f =
    let s' : Session = body_bytes (x ∷ xs) s in
    let fits : s.conn.read_body_length + suc (length xs) ≤ length s.conn.read_buffer =
      ground (arith, f, late, v) in
    let same : length s'.conn.read_buffer ≡ length s.conn.read_buffer =
      length-blit s.conn.read_buffer s.conn.read_body_length (x ∷ xs) fits in
    let v' : IsSound s'.conn = record {
      header_in = v.header_in;
      body_in = omega (arith, fits, same);
      size = omega (arith, same, v);
      no_body = λ h. absurd (omega arith);
    } in
    elim (Bool-cases (body_complete s')) [
      | inl full ↦ rw full (record {
        header_in = v'.header_in;
        body_in = v'.body_in;
        size = v'.size;
        no_body = v'.no_body;
      })
      | inr partial ↦ rw partial v'
    ]
read_body-IsSound (read_error e) s v late f = read_failed-IsSound e s v

read_round-IsSound :
    (r : ReadReply) (s : Session) → IsSound s.conn → Fits r s → RoundSound (read_round r s)
unfolding read_round
read_round-IsSound r s v f = elim (Bool-cases (ltb s.conn.read_tlv_header_length 8)) [
  | inl early ↦ rw early (read_header-IsSound r s v (ltb→lt _ _ early) f)
  | inr late ↦ rw late (read_body-IsSound r s v (ltb→le s.conn.read_tlv_header_length 8 late) f)
]

-- Every answer that the loop comes to gives no more bytes than were asked for.
abbrev pub Fitting : List ReadReply → Session → Type 0
Fitting [] s = Unit {0}
Fitting (r ∷ rs) s =
    Fits r s × (elim (read_round r s) [ again s' ↦ Fitting rs s' | stop s' ↦ Unit {0} ])

-- A property of the session that every round keeps holds after the loop.
pub read_non_blocking_inv {ℓ} :
    (P : Session → Type ℓ)
    → ((r : ReadReply) (s : Session) → P s → Fits r s → OfRound P (read_round r s))
    → (rs : List ReadReply) (s : Session) {t : Session} {rest : List ReadReply} → P s
    → Fitting rs s
    → read_non_blocking rs s ≡ some (t, rest)
    → P t
unfolding read_non_blocking
read_non_blocking_inv P keep [] s v f e = absurd (cc)
read_non_blocking_inv P keep (r ∷ rs) s {t} {rest} v f e = elim (read_non_blocking-cons r rs s e) [
  | inl (s', go, e') ↦
      read_non_blocking_inv P keep rs s' {t = t} {rest = rest} (rw go at (keep r s v f.0))
        (rw go at f.1) e'
  | inr (end, _) ↦ rw end at (keep r s v f.0)
]

-- The loop keeps the reader sound, if no `read` gives more than it was asked for: the bytes read so
-- far lie inside the header and inside the body's buffer, the buffer is never larger than
-- MAX_TLV_LENGTH, and no body byte is read before the header is whole.
pub read_non_blocking-IsSound :
    (rs : List ReadReply) (s : Session) {t : Session} {rest : List ReadReply}
    → IsSound s.conn
    → Fitting rs s
    → read_non_blocking rs s ≡ some (t, rest)
    → IsSound t.conn
read_non_blocking-IsSound =
    read_non_blocking_inv (λ s. IsSound s.conn) (λ r s. read_round-IsSound r s)
