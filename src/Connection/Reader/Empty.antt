-- ===== src/Connection/Reader/Empty.antt =====
-- A frame without a body: the read of zero bytes behind its header.
use epoll_server.Base.{
  ℕ, ◌<◌, ◌≡◌, refl, sym, ap, ◌∙◌, some, List, [], ◌∷◌, ◌++◌, arith, length, drop, All,
  append_assoc, append-nil, ◌⊎◌, inl, inr, le→ltb, ==_eq,
}
use epoll_server.Base.{subst, ◌∙◌, ap, sym}
use epoll_server.Connection.Reader.{wanted}
use epoll_server.Connection.Reader.Messages.{wanted-InBody}
use epoll_server.Tlv.Wire.{of_big_endian}
use epoll_server.Connection.State.{eintr, ReadReply, got, read_error, Session}
use epoll_server.Connection.Reader.{
  again, stop, read_round, read_body, read_non_blocking, handle_message, set_ready, header_bytes,
}
use epoll_server.Connection.Reader.Rounds.{read_non_blocking-again, read_non_blocking-stop}
use epoll_server.Connection.Reader.Bounds.{Fitting}
use epoll_server.Connection.Reader.Frames.{
  header_ends, InHeader, InBody, Quiet, Quiet-refl, Quiet-trans, header_bytes-Quiet, header_goes_on,
  header_ends,
}
use epoll_server.Connection.Reader.Messages.{round_eintr}
use epoll_server.Connection.Reader.Pieces.{IsPiece, data_of}
use epoll_server.Connection.Reader.Delivery.{reset, handle_message_lem, dispatch_ready}

-- The reader stands behind a header that announces no bytes.
record AtEmptyBody (rs more : List ReadReply) (s t : Session) : Type 0 where
  run : read_non_blocking (rs ++ more) s ≡ read_non_blocking more t
  quiet : Quiet s t
  body : InBody t.conn [] []

one_more :
    (r : ReadReply) (rs more : List ReadReply) (s s' : Session) {t : Session}
    → read_round r s ≡ again s'
    → Quiet s s'
    → AtEmptyBody rs more s' t
    → AtEmptyBody (r ∷ rs) more s t
one_more r rs more s s' go q a = record {
  run = read_non_blocking-again r (rs ++ more) s s' go ∙ a.run;
  quiet = Quiet-trans q a.quiet;
  body = a.body;
}

-- Answers that bring no data are EINTR.
only_eintr :
    (rs more : List ReadReply) (t : Session)
    → All IsPiece rs
    → data_of rs ≡ []
    → InBody t.conn [] []
    → AtEmptyBody rs more t t
unfolding data_of
only_eintr [] more t a e p = record { run = refl; quiet = Quiet-refl t; body = p }
only_eintr (got [] ∷ rs) more t a e p = absurd (omega (arith, a.0))
only_eintr (got (x ∷ xs) ∷ rs) more t a e p = absurd (omega (arith, ap length e))
only_eintr (read_error eintr ∷ rs) more t a e p =
    one_more (read_error eintr) rs more t t (round_eintr t) (Quiet-refl t)
      (only_eintr rs more t a.1 e p)
only_eintr (read_error _ ∷ rs) more t a e p = absurd a.0

empty_or_not : (xs : List ℕ) → (xs ≡ []) ⊎ (0 < length xs)
empty_or_not [] = inl refl
empty_or_not (x ∷ xs) = inr (omega arith)

header_pieces :
    (rs more : List ReadReply) (s : Session) (done : List ℕ)
    → InHeader s.conn done (data_of rs)
    → of_big_endian (drop 4 (done ++ data_of rs)) ≡ 0
    → All IsPiece rs
    → Fitting rs s
    → (t : Session) × AtEmptyBody rs more s t
unfolding data_of
header_pieces [] more s done p z a f = absurd (omega (arith, p.more))
header_pieces (got [] ∷ rs) more s done p z a f = absurd (omega (arith, a.0))
header_pieces (got (x ∷ xs) ∷ rs) more s done p z a f = elim (empty_or_not (data_of rs)) [
  | inl none_left ↦
      let exact : (x ∷ xs) ++ data_of rs ≡ x ∷ xs =
        ap (λ l. (x ∷ xs) ++ l) none_left ∙ append-nil (x ∷ xs) in
      let (t, go, quiet, at_body) =
        header_ends x xs s done 0 a.0.1 (subst (InHeader s.conn done) exact p)
          (ap (λ l. of_big_endian (drop 4 (done ++ l))) (sym exact) ∙ z) (omega arith) in
      (
        t,
        one_more (got (x ∷ xs)) rs more s t go quiet
            (only_eintr rs more t a.1 none_left (at_body [] refl)),
      )
  | inr some_left ↦
      let (go, next) = header_goes_on x xs s done (data_of rs) a.0.1 p some_left in
      let (t, h) =
        header_pieces rs more (header_bytes (x ∷ xs) s) (done ++ (x ∷ xs)) next
          (ap (λ l. of_big_endian (drop 4 l)) (append_assoc done (x ∷ xs) (data_of rs)) ∙ z) a.1
          (rw go at f.1) in
      (
        t,
        one_more (got (x ∷ xs)) rs more s (header_bytes (x ∷ xs) s) go
            (header_bytes-Quiet (x ∷ xs) s) h,
      )
]
header_pieces (read_error eintr ∷ rs) more s done p z a f =
    let (t, h) = header_pieces rs more s done p z a.1 (rw (round_eintr s) at f.1) in
    (t, one_more (read_error eintr) rs more s s (round_eintr s) (Quiet-refl s) h)
header_pieces (read_error _ ∷ rs) more s done p z a f = absurd a.0

-- The read behind the header.
round_empty : (t : Session) → InBody t.conn [] [] → read_round (got []) t ≡ stop (set_ready t)
unfolding read_round read_body
round_empty t p = rw (
  le→ltb t.conn.read_tlv_header_length 8 (omega (arith, p.header_read)),
  ==_eq t.conn.read_body_length t.conn.tlv_header.length (omega (arith, p.count, p.announced)),
)

empty_buffer : (xs : List ℕ) → length xs ≡ 0 → xs ≡ []
empty_buffer [] e = refl
empty_buffer (x ∷ xs) e = absurd (omega arith)

-- Let the rest of a header that announces 0 bytes reach the reader in one readable event, cut up in any
-- way with EINTR anywhere, and the next read, which asks for 0 bytes, answer 0. Then this is
-- not taken for the end of the stream: the message callback runs once on an empty message, the
-- connection stays as it was, the reader is between two frames, and the answers behind stay unread.
pub handle_message_empty :
    (callback : Session → Session) (rs more : List ReadReply) (s : Session) (done : List ℕ)
    → InHeader s.conn done (data_of rs)
    → of_big_endian (drop 4 (done ++ data_of rs)) ≡ 0
    → All IsPiece rs
    → Fitting rs s
    → (t : Session) × (handle_message (some callback) (rs ++ (got [] ∷ more)) s
        ≡ some (reset (callback t), more))
      × (wanted t ≡ 0)
      × (t.conn.read_buffer ≡ [])
      × Quiet s t
unfolding wanted
handle_message_empty callback rs more s done p z a f =
    let (t, h) = header_pieces rs (got [] ∷ more) s done p z a f in
    (
      set_ready t,
      handle_message_lem (some callback) _ s (set_ready t) more
            (h.run ∙ read_non_blocking-stop (got []) more t (set_ready t) (round_empty t h.body))
          ∙ ap (λ u. some (u, more)) (dispatch_ready callback (set_ready t) refl),
      wanted-InBody t [] [] h.body,
      empty_buffer t.conn.read_buffer h.body.room,
      record {
        state = h.quiet.state;
        channel = h.quiet.channel;
        send_buffer = h.quiet.send_buffer;
        wire = h.quiet.wire;
        close_calls = h.quiet.close_calls;
      },
    )
