-- ===== src/Echo/Life/Run.antt =====
-- What holds all the life of a connection.
use epoll_server.Base.{ap, ◌∙◌, subst, Bool, none, some, List, [], ◌++◌, append-nil, if_both}
use epoll_server.Buffer.Contents.{contents-retrieve, retrieve-IsValid}
use epoll_server.Channel.Dispatch.{handle_event_keeps}
use epoll_server.Channel.State.{Channel}
use epoll_server.Connection.State.{
  ReadReply, WriteReply, wrote, write_error, Session, handle_close, connection_destructor,
  set_channel,
}
use epoll_server.Connection.Events.{
  Polled, event, callbacks, ready_events, on_readable, on_writable,
}
use epoll_server.Connection.Sender.{write_non_blocking, is_transient}
use epoll_server.Connection.Sender.Order.{outgoing, Adds, write_non_blocking-Adds}
use epoll_server.Connection.Reader.Bounds.{Fitting}
use epoll_server.Echo.{on_message}
use epoll_server.Echo.FirstMessage.{ready}
use epoll_server.Echo.Life.{IsWell, Replies, Step, ready_event, destroyed, Lived, here, next}
use epoll_server.Echo.Life.Kept.{
  same_reader, unreplied, Kept, Kept-refl, Kept-trans, handle_close-Kept,
}
use epoll_server.Echo.Life.Reading.{ResultKept, handle_message-Kept}

write_non_blocking-Kept :
    (w : WriteReply) (ok : Bool) (s : Session) → IsWell s → Kept s (write_non_blocking w ok s)
unfolding write_non_blocking
write_non_blocking-Kept (wrote n) ok s h =
    let a : Adds s (write_non_blocking (wrote n) ok s) [] =
      write_non_blocking-Adds (wrote n) ok s h.valid in
    (
      record { sound = same_reader _ _ h.sound; valid = a.valid; once = h.once },
      unreplied (a.stream ∙ append-nil (outgoing s)) (λ e. e),
    )
write_non_blocking-Kept (write_error e) ok s h =
    if_both (Kept s) (is_transient e) _ (handle_close s)
      (λ _. (
        record {
          sound = same_reader _ _ h.sound;
          valid = retrieve-IsValid s.conn.send_buffer 0 h.valid;
          once = h.once;
        },
        unreplied (ap (λ c. s.wire ++ c) (contents-retrieve s.conn.send_buffer 0 h.valid)) (λ d. d),
      ))
      (λ _. handle_close-Kept s h)

-- The channel's own fields do not matter.
by_channel : {s t : Session} (k : Channel) → Kept (set_channel s k) t → Kept s t
by_channel k (w, r) =
    (w, record { messages = r.messages; small = r.small; stream = r.stream; silent = r.silent })

event-Kept :
    (ok ok' alive : Bool) (w : WriteReply) (rs : List ReadReply) (s : Session)
    → IsWell s
    → Fitting rs s
    → ResultKept s (event (some (on_message ok)) w ok' alive rs s)
unfolding event callbacks
event-Kept ok ok' alive w rs s h f =
    handle_event_keeps ready_events (some (on_readable (some (on_message ok)) w ok'))
      (some (on_writable (some (on_message ok)) w ok')) (ResultKept s) s.conn.channel.tied alive
      (some (s, rs)) (Kept-refl s h) (handle_message-Kept ok rs s h f) written
  where
    written :
        (p : Polled) → ResultKept s p → ResultKept s (on_writable (some (on_message ok)) w ok' p)
    written none k = tt
    written (some (t, rest)) (well, replies) =
        Kept-trans replies (write_non_blocking-Kept w ok' t well)

set_channel-IsWell : (s : Session) (k : Channel) → IsWell s → IsWell (set_channel s k)
set_channel-IsWell s k h = record {
  sound = same_reader _ k h.sound;
  valid = h.valid;
  once = h.once;
}

Step-Kept : {s t : Session} → Step s t → IsWell s → Kept s t
unfolding connection_destructor
Step-Kept {s} {t} (ready_event mask ok ok' alive w rs fits e) h = by_channel _ (
    subst (ResultKept (ready mask s)) e
      (event-Kept ok ok' alive w rs (ready mask s) (set_channel-IsWell s _ h) fits))
Step-Kept {s} (destroyed ok) h = by_channel _ (Kept-refl _ (set_channel-IsWell s _ h))

-- Whatever the client sends, whatever read, write and epoll_ctl answer, but that read gives no more bytes
-- than it was asked for, and in whatever order the events of a connection of the echo server come: what has
-- been written to the client, followed by what waits in the send buffer, is what it was before and then
-- whole frames, of messages of at most MAX_TLV_LENGTH bytes, and nothing if the connection was already
-- disconnected, which it then remains. The bytes read so far lie in the header and in the body's
-- buffer, which is never larger than MAX_TLV_LENGTH; the send buffer is valid; and the close callback has
-- run at most once, and not at all unless the connection is disconnected.
pub Lived-Replies : {s t : Session} → Lived s t → IsWell s → IsWell t × Replies s t
Lived-Replies {s} here h = Kept-refl s h
Lived-Replies (next life step) h =
    let (well, replies) = Lived-Replies life h in Kept-trans replies (Step-Kept step well)
