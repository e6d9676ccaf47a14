-- ===== src/Echo/Dialogue.antt =====
-- A client that sends message after message to the echo server.
use epoll_server.Base.{
  ℕ, ◌≤◌, ◌<◌, ◌≡◌, sym, ap, subst, ◌∙◌, Bool, some, List, [], ◌∷◌, ◌++◌, length, All, append-nil,
  append_assoc, some_inj,
}
use epoll_server.Buffer.Contents.{IsValid, contents, retrieve-IsValid}
use epoll_server.Tlv.{max_tlv_length, outgoing_header}
use epoll_server.Connection.State.{got}
use epoll_server.Connection.Reader.{handle_message}
use epoll_server.Connection.Reader.Bounds.{Fitting}
use epoll_server.Echo.Empty.{empty-Echoed}
use epoll_server.Connection.State.{connected, WriteReply, wrote, write_error, ReadReply, Session}
use epoll_server.Connection.Sender.{write_non_blocking}
use epoll_server.Connection.Sender.Order.{outgoing, frame, IsUsable, write_non_blocking-Adds}
use epoll_server.Connection.Reader.Pieces.{IsPiece, data_of}
use epoll_server.Connection.Reader.Delivery.{IsFresh}
use epoll_server.Connection.Reader.Bursts.{receive, FittingBursts, data_of_bursts}
use epoll_server.Echo.{on_message, receive-on_message-Echoed}

-- The frame of the message comes in, cut up in any way.
pub record Arrives (ok : Bool) (msg : List ℕ) (bs : List (List ReadReply)) (last : List ReadReply)
    (s : Session) : Type 0 where
  pub some_bytes : 0 < length msg
  pub small : length msg ≤ max_tlv_length
  pub pieces : All (All IsPiece) bs
  pub last_pieces : All IsPiece last
  pub fitting : FittingBursts (some (on_message ok)) bs last s
  pub last_bytes : 0 < length (data_of last)
  pub bytes : frame msg ≡ data_of_bursts bs last

-- The header of an empty message comes in, in one readable event, and the read behind it gives nothing.
pub record ArrivesEmpty (rs : List ReadReply) (s : Session) : Type 0 where
  pub pieces : All IsPiece rs
  pub fitting : Fitting rs s
  pub bytes : data_of rs ≡ outgoing_header 0

-- These messages arrive one after the other, and between them the socket takes some bytes or none.
pub data Dialogue : Session → List (List ℕ) → Session → Type 0 where
  over : {s : Session} → Dialogue s [] s
  message :
      (ok : Bool) {msg : List ℕ} (bs : List (List ReadReply)) (last : List ReadReply)
      {rest : List ReadReply} {s u t : Session} {msgs : List (List ℕ)}
      → Arrives ok msg bs last s
      → receive (some (on_message ok)) bs last s ≡ some (u, rest)
      → Dialogue u msgs t
      → Dialogue s (msg ∷ msgs) t
  empty_message :
      (ok : Bool) (rs more : List ReadReply) {rest : List ReadReply} {s u t : Session}
      {msgs : List (List ℕ)}
      → ArrivesEmpty rs s
      → handle_message (some (on_message ok)) (rs ++ (got [] ∷ more)) s ≡ some (u, rest)
      → Dialogue u msgs t
      → Dialogue s ([] ∷ msgs) t
  writable :
      (w : WriteReply) (ok : Bool) {s t : Session} {msgs : List (List ℕ)}
      → IsUsable w
      → Dialogue (write_non_blocking w ok s) msgs t
      → Dialogue s msgs t

pub record IsServing (s : Session) : Type 0 where
  pub state : s.conn.state ≡ connected
  pub valid : IsValid s.conn.send_buffer
  pub fresh : IsFresh s

unfoldable pub frames_of : List (List ℕ) → List ℕ
frames_of [] = []
frames_of (msg ∷ msgs) = frame msg ++ frames_of msgs

write_non_blocking-IsServing :
    (w : WriteReply) (ok : Bool) (s : Session)
    → IsUsable w
    → IsServing s
    → IsServing (write_non_blocking w ok s)
unfolding write_non_blocking
write_non_blocking-IsServing (wrote n) ok s u i = record {
  state = i.state;
  valid = (write_non_blocking-Adds (wrote n) ok s i.valid).valid;
  fresh = record {
    no_header = i.fresh.no_header;
    no_body = i.fresh.no_body;
    waiting = i.fresh.waiting;
  };
}
write_non_blocking-IsServing (write_error e) ok s u i = rw u (record {
  state = i.state;
  valid = retrieve-IsValid s.conn.send_buffer 0 i.valid;
  fresh = record {
    no_header = i.fresh.no_header;
    no_body = i.fresh.no_body;
    waiting = i.fresh.waiting;
  };
})

-- What one message adds.
message_lem :
    (ok : Bool) (msg : List ℕ) (bs : List (List ReadReply)) (last : List ReadReply)
    (rest : List ReadReply) (s u : Session)
    → Arrives ok msg bs last s
    → receive (some (on_message ok)) bs last s ≡ some (u, rest)
    → IsServing s
    → IsServing u × (outgoing u ≡ outgoing s ++ frame msg)
message_lem ok msg bs last rest s u a run i =
    let (v, left, result, echoed, fresh) =
      receive-on_message-Echoed ok msg bs last s a.some_bytes a.small i.state i.valid i.fresh
        a.pieces a.last_pieces a.fitting a.last_bytes a.bytes in
    let same : v ≡ u = ap (λ p. p.0) (some_inj (sym result ∙ run)) in
    subst (λ t. IsServing t × (outgoing t ≡ outgoing s ++ frame msg)) same
      (record { state = echoed.state; valid = echoed.valid; fresh = fresh }, echoed.stream)

empty_lem :
    (ok : Bool) (rs more : List ReadReply) (rest : List ReadReply) (s u : Session)
    → ArrivesEmpty rs s
    → handle_message (some (on_message ok)) (rs ++ (got [] ∷ more)) s ≡ some (u, rest)
    → IsServing s
    → IsServing u × (outgoing u ≡ outgoing s ++ frame [])
empty_lem ok rs more rest s u a run i =
    let (v, result, echoed, fresh) =
      empty-Echoed ok rs more s i.state i.valid i.fresh a.bytes a.pieces a.fitting in
    let same : v ≡ u = ap (λ p. p.0) (some_inj (sym result ∙ run)) in
    subst (λ t. IsServing t × (outgoing t ≡ outgoing s ++ frame [])) same
      (record { state = echoed.state; valid = echoed.valid; fresh = fresh }, echoed.stream)

-- Let any messages of at most MAX_TLV_LENGTH bytes reach the echo server on an open connection, each cut
-- up in any way (the header of an empty one within one readable event, and the read of its body giving
-- nothing), and let the socket take any number of bytes, or ask to try again, at any times between them. What has been written to the client, followed by what waits in the send buffer, is then what it
-- was before and exactly the frames of these messages, in order; and the connection is still open, its
-- send buffer valid and its reader between two frames.
pub Dialogue-outgoing :
    {s t : Session} {msgs : List (List ℕ)}
    → Dialogue s msgs t
    → IsServing s
    → IsServing t
      × (t.wire ++ contents t.conn.send_buffer
          ≡ (s.wire ++ contents s.conn.send_buffer) ++ frames_of msgs)
unfolding frames_of
Dialogue-outgoing (over {s}) i = (i, sym (append-nil (outgoing s)))
Dialogue-outgoing (message ok {msg} bs last {rest} {s} {u} {t} {msgs} a run more) i =
    let (served, stream) = message_lem ok msg bs last rest s u a run i in
    let (done, rest_stream) = Dialogue-outgoing more served in
    (
      done,
      rest_stream
          ∙ ap (λ o. o ++ frames_of msgs) stream
          ∙ append_assoc (outgoing s) (frame msg) (frames_of msgs),
    )
Dialogue-outgoing (empty_message ok rs more {rest} {s} {u} {t} {msgs} a run later) i =
    let (served, stream) = empty_lem ok rs more rest s u a run i in
    let (done, rest_stream) = Dialogue-outgoing later served in
    (
      done,
      rest_stream
          ∙ ap (λ o. o ++ frames_of msgs) stream
          ∙ append_assoc (outgoing s) (frame []) (frames_of msgs),
    )
Dialogue-outgoing (writable w ok {s} {t} {msgs} usable more) i =
    let (done, stream) = Dialogue-outgoing more (write_non_blocking-IsServing w ok s usable i) in
    (
      done,
      stream
          ∙ ap (λ o. o ++ frames_of msgs)
              ((write_non_blocking-Adds w ok s i.valid).stream ∙ append-nil (outgoing s)),
    )
