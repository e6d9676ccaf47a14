-- ===== src/Connection/Reader/Delivery.antt =====
-- `HandleMessage` over one frame that arrives in any number of bursts, however it is cut up.
use epoll_server.Base.{
  ℕ, ◌<◌, ◌≡◌, refl, sym, ap, ◌∙◌, true, false, Option, none, some, List, [], ◌∷◌, ◌++◌, arith,
  length, All, append-nil, length-append, inl, inr,
}
use epoll_server.Connection.State.{eagain, ReadReply, read_error, Session}
use epoll_server.Connection.Reader.{
  stop, read_failed, read_header, read_body, read_round, read_non_blocking, dispatch_message,
  handle_message, set_conn,
}
use epoll_server.Connection.Reader.Rounds.{read_non_blocking-stop}
use epoll_server.Connection.Reader.Bounds.{Fitting}
use epoll_server.Connection.Reader.Frames.{Quiet}
use epoll_server.Connection.Reader.Messages.{IsFrame, Progress, in_header, in_body, Complete}
use epoll_server.Connection.Reader.Pieces.{IsPiece, data_of, pieces}

-- The session after the callback, ready for the next frame.
abbrev pub reset : Session → Session
reset t = set_conn t (record (t.conn) {
  ready_to_handle_message = false;
  read_tlv_header_length = 0;
  read_body_length = 0;
})

-- The reader between two frames.
pub record IsFresh (s : Session) : Type 0 where
  pub no_header : s.conn.read_tlv_header_length ≡ 0
  pub no_body : s.conn.read_body_length ≡ 0
  pub waiting : s.conn.ready_to_handle_message ≡ false

pub reset-IsFresh : (t : Session) → IsFresh (reset t)
reset-IsFresh t = record { no_header = refl; no_body = refl; waiting = refl }

module _ (head body : List ℕ) (frame : IsFrame head body) where
  pub IsFresh-Progress : (s : Session) → IsFresh s → Progress head body s (head ++ body)
  IsFresh-Progress s f = in_header [] head refl refl (record {
    count = f.no_header;
    total = omega (arith, frame.header);
    more = omega (arith, frame.header);
    no_body = f.no_body;
    memory = refl;
    waiting = f.waiting;
  })

  pub Progress-waiting :
      (s : Session) (todo : List ℕ)
      → Progress head body s todo
      → s.conn.ready_to_handle_message ≡ false
  Progress-waiting s todo (in_header done left e e' p) = p.waiting
  Progress-waiting s todo (in_body done left e e' more p) = p.waiting

round_eagain : (s : Session) → read_round (read_error eagain) s ≡ stop s
unfolding read_round read_header read_body read_failed
round_eagain s = ground arith

pub dispatch_waiting :
    (on_message : Option (Session → Session)) (s : Session)
    → s.conn.ready_to_handle_message ≡ false
    → dispatch_message on_message s ≡ s
unfolding dispatch_message
dispatch_waiting none s h = refl
dispatch_waiting (some callback) s h = rw h

pub dispatch_ready :
    (callback : Session → Session) (s : Session)
    → s.conn.ready_to_handle_message ≡ true
    → dispatch_message (some callback) s ≡ reset (callback s)
unfolding dispatch_message
dispatch_ready callback s h = rw h

pub handle_message_lem :
    (on_message : Option (Session → Session)) (rs : List ReadReply) (s t : Session)
    (rest : List ReadReply)
    → read_non_blocking rs s ≡ some (t, rest)
    → handle_message on_message rs s ≡ some (dispatch_message on_message t, rest)
unfolding handle_message
handle_message_lem on_message rs s t rest e = rw (e, handle_message)

module _ (head body : List ℕ) (frame : IsFrame head body) where
  -- A burst that ends, with EAGAIN, inside the frame.
  pub handle_message_partial :
      (on_message : Option (Session → Session)) (rs more : List ReadReply) (s : Session)
      (todo left : List ℕ)
      → Progress head body s todo
      → All IsPiece rs
      → Fitting rs s
      → todo ≡ data_of rs ++ left
      → 0 < length left
      → (t : Session) × (handle_message on_message (rs ++ (read_error eagain ∷ more)) s
          ≡ some (t, more))
        × Quiet s t
        × Progress head body t left
  handle_message_partial on_message rs more s todo left p a f e some_left =
      elim (pieces head body frame rs (read_error eagain ∷ more) s todo left p a f e) [
        | inl (t, run, _, quiet, p') ↦ (
          t,
          handle_message_lem on_message _ s t more
                (run ∙ read_non_blocking-stop (read_error eagain) more t t (round_eagain t))
              ∙ ap (λ u. some (u, more))
                  (dispatch_waiting on_message t (Progress-waiting head body frame t left p')),
          quiet,
          p',
        )
        | inr (t, rest, run, nothing, quiet, c) ↦
            absurd (omega (arith, ap length nothing, length-append (data_of rest) left))
      ]

  -- A burst that brings all that is left of the frame.
  pub handle_message_delivers :
      (callback : Session → Session) (rs more : List ReadReply) (s : Session) (todo : List ℕ)
      → Progress head body s todo
      → All IsPiece rs
      → Fitting rs s
      → todo ≡ data_of rs
      → (t : Session) × (rest : List ReadReply) × (handle_message (some callback) (rs ++ more) s
          ≡ some (reset (callback t), rest ++ more))
        × (data_of rest ≡ [])
        × Quiet s t
        × Complete body t
  handle_message_delivers callback rs more s todo p a f e =
      elim (pieces head body frame rs more s todo [] p a f (e ∙ sym (append-nil (data_of rs)))) [
        | inl (t, _, nothing, _, _) ↦ absurd (omega arith)
        | inr (t, rest, run, nothing, quiet, c) ↦ (
          t,
          rest,
          handle_message_lem (some callback) _ s t (rest ++ more) run
              ∙ ap (λ u. some (u, rest ++ more)) (dispatch_ready callback t c.ready),
          sym (append-nil (data_of rest)) ∙ nothing,
          quiet,
          c,
        )
      ]
