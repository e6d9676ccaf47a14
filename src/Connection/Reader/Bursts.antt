-- ===== src/Connection/Reader/Bursts.antt =====
-- A frame that arrives over several readable events, from either end of the connection.
use epoll_server.Base.{
  ℕ, ◌≤◌, ◌<◌, ◌≡◌, refl, sym, ap, ◌∙◌, Option, none, some, append-nil, List, [], ◌∷◌, ◌++◌, arith,
  length, All, length-append,
}
use epoll_server.Tlv.{outgoing_header, max_tlv_length}
use epoll_server.Tlv.Wire.{
  length-outgoing_header, outgoing_header-IsBytes, outgoing_header-announces,
}
use epoll_server.Connection.State.{eagain, ReadReply, read_error, Session}
use epoll_server.Connection.Sender.Order.{frame}
use epoll_server.Connection.Reader.{handle_message}
use epoll_server.Connection.Reader.Bounds.{Fitting}
use epoll_server.Connection.Reader.Frames.{Quiet, Quiet-trans}
use epoll_server.Connection.Reader.Messages.{IsFrame, Progress, Complete}
use epoll_server.Connection.Reader.Pieces.{IsPiece, data_of}
use epoll_server.Connection.Reader.Delivery.{
  reset, IsFresh, IsFresh-Progress, handle_message_partial, handle_message_delivers,
}

-- One `HandleMessage` for each burst of answers; all but the last end with EAGAIN.
unfoldable pub receive :
    Option (Session → Session)
    → List (List ReadReply)
    → List ReadReply
    → Session
    → Option (Session × List ReadReply)
receive on_message [] last s = handle_message on_message last s
receive on_message (b ∷ bs) last s =
    elim (handle_message on_message (b ++ (read_error eagain ∷ [])) s) [
      | none ↦ none
      | some (t, rest) ↦ receive on_message bs last t
    ]

-- No read of any burst gives more than it was asked for.
abbrev pub FittingBursts :
    Option (Session → Session) → List (List ReadReply) → List ReadReply → Session → Type 0
FittingBursts on_message [] last s = Fitting last s
FittingBursts on_message (b ∷ bs) last s =
    Fitting b s × (elim (handle_message on_message (b ++ (read_error eagain ∷ [])) s) [
      | none ↦ Unit {0}
      | some (t, rest) ↦ FittingBursts on_message bs last t
    ])

-- All the data, burst after burst.
unfoldable pub data_of_bursts : List (List ReadReply) → List ReadReply → List ℕ
data_of_bursts [] last = data_of last
data_of_bursts (b ∷ bs) last = data_of b ++ data_of_bursts bs last

data_left :
    (bs : List (List ReadReply)) (last : List ReadReply)
    → 0 < length (data_of last)
    → 0 < length (data_of_bursts bs last)
unfolding data_of_bursts
data_left [] last h = h
data_left (b ∷ bs) last h =
    omega (arith, length-append (data_of b) (data_of_bursts bs last), data_left bs last h)

receive-cons :
    (on_message : Option (Session → Session)) (b : List ReadReply) (bs : List (List ReadReply))
    (last : List ReadReply) (s t : Session) (rest : List ReadReply)
    → handle_message on_message (b ++ (read_error eagain ∷ [])) s ≡ some (t, rest)
    → receive on_message (b ∷ bs) last s ≡ receive on_message bs last t
unfolding receive
receive-cons on_message b bs last s t rest e = rw (e, receive)

module _ (head body : List ℕ) (is_frame : IsFrame head body) (callback : Session → Session) where
  -- The callback has run once, on a session that holds the message, and nothing else has changed.
  abbrev pub Delivered : Session → Option (Session × List ReadReply) → Type 0
  Delivered s result =
      (t : Session) × (rest : List ReadReply) × (result ≡ some (reset (callback t), rest))
      × (data_of rest ≡ [])
      × Quiet s t
      × Complete body t

  receive-Progress :
      (bs : List (List ReadReply)) (last : List ReadReply) (s : Session) (todo : List ℕ)
      → Progress head body s todo
      → All (All IsPiece) bs
      → All IsPiece last
      → FittingBursts (some callback) bs last s
      → 0 < length (data_of last)
      → todo ≡ data_of_bursts bs last
      → Delivered s (receive (some callback) bs last s)
  unfolding receive data_of_bursts
  receive-Progress [] last s todo p a l f h e =
      let (t, rest, run, nothing, quiet, c) =
        handle_message_delivers head body is_frame callback last [] s todo p l f e in
      (
        t,
        rest,
        ap (λ rs. handle_message (some callback) rs s) (sym (append-nil last))
            ∙ run
            ∙ ap (λ rs. some (reset (callback t), rs)) (append-nil rest),
        nothing,
        quiet,
        c,
      )
  receive-Progress (b ∷ bs) last s todo p a l f h e =
      let (t, run, quiet, p') =
        handle_message_partial head body is_frame (some callback) b [] s todo
          (data_of_bursts bs last) p a.0 f.0 e (data_left bs last h) in
      let (u, rest, result, nothing, quiet', c) =
        receive-Progress bs last t (data_of_bursts bs last) p' a.1 l (rw run at f.1) h refl in
      (
        u,
        rest,
        receive-cons (some callback) b bs last s t [] run ∙ result,
        nothing,
        Quiet-trans quiet quiet',
        c,
      )

  -- A frame is a header that announces, in network byte order, the length of the body behind it, at
  -- least 1 and at most MAX_TLV_LENGTH. Let a reader between two frames get its bytes in any number
  -- of readable events and cut up in any way, each read bringing at least one byte and no more than
  -- was asked for, EINTR anywhere, and all events but the last ending with EAGAIN. Then the message
  -- callback runs exactly once, at the last event, with exactly the body in the read buffer, the
  -- connection otherwise as it was; and after it the reader is again between two frames.
  pub receive_frame :
      (bs : List (List ReadReply)) (last : List ReadReply) (s : Session)
      → IsFresh s
      → All (All IsPiece) bs
      → All IsPiece last
      → FittingBursts (some callback) bs last s
      → 0 < length (data_of last)
      → head ++ body ≡ data_of_bursts bs last
      → Delivered s (receive (some callback) bs last s)
  receive_frame bs last s fresh a l f h e =
      receive-Progress bs last s (head ++ body) (IsFresh-Progress head body is_frame s fresh) a l f
        h e

-- The frame that `Send`, `Send2` and `SendWithTwoSysCall` make of a message.
pub outgoing_header-IsFrame :
    (msg : List ℕ)
    → 0 < length msg
    → length msg ≤ max_tlv_length
    → IsFrame (outgoing_header (length msg)) msg
outgoing_header-IsFrame msg some_bytes small = record {
  header = length-outgoing_header (length msg);
  in_bytes = outgoing_header-IsBytes (length msg);
  announced = outgoing_header-announces (length msg) (omega arith);
  not_empty = some_bytes;
  small = small;
}

-- What one end sends as the frame of a message of 1 to MAX_TLV_LENGTH bytes, the other end, whose
-- reader is between two frames, hands to its message callback as that message, exactly once and
-- however the frame is cut up on the way.
pub receive-frame :
    (callback : Session → Session) (msg : List ℕ) (bs : List (List ReadReply))
    (last : List ReadReply) (s : Session)
    → 0 < length msg
    → length msg ≤ max_tlv_length
    → IsFresh s
    → All (All IsPiece) bs
    → All IsPiece last
    → FittingBursts (some callback) bs last s
    → 0 < length (data_of last)
    → frame msg ≡ data_of_bursts bs last
    → (t : Session) × (rest : List ReadReply) × (receive (some callback) bs last s
        ≡ some (reset (callback t), rest))
      × (t.conn.read_buffer ≡ msg)
      × Quiet s t
unfolding frame
receive-frame callback msg bs last s some_bytes small fresh a l f h e =
    let (t, rest, run, _, quiet, c) =
      receive_frame (outgoing_header (length msg)) msg
        (outgoing_header-IsFrame msg some_bytes small) callback bs last s fresh a l f h e in
    (t, rest, run, c.message, quiet)
