-- ===== src/Echo/Life/Reading.antt =====
-- A readable event of a connection of the echo server.
use epoll_server.Base.{
  ◌≡◌, refl, sym, ap, ◌∙◌, subst, Bool, true, false, none, some, List, [], ◌∷◌, ◌++◌, append-nil,
  arith, if_both, false≢true,
}
use epoll_server.Buffer.Contents.{IsValid, contents}
use epoll_server.Connection.State.{ConnectionState, disconnected, ReadReply, Session, handle_close}
use epoll_server.Connection.Close.{handle_close_cases}
use epoll_server.Connection.Once.{Once, IsOnce, handle_close-IsOnce}
use epoll_server.Connection.Events.{Polled}
use epoll_server.Connection.Sender.{send2}
use epoll_server.Connection.Sender.Order.{outgoing, frame, Adds, send2-Adds}
use epoll_server.Connection.Reader.{read_non_blocking, dispatch_message, handle_message}
use epoll_server.Connection.Reader.Bounds.{Fitting, read_non_blocking-IsSound}
use epoll_server.Connection.Reader.Delivery.{reset}
use epoll_server.Connection.Reader.Outside.{
  Outside, outside, ResultKeeps, read_non_blocking-ResultKeeps,
}
use epoll_server.Echo.{on_message, is_connected}
use epoll_server.Echo.Dialogue.{frames_of}
use epoll_server.Echo.Life.{IsWell}
use epoll_server.Echo.Life.Kept.{same_reader, unreplied, Kept, Kept-refl, Kept-trans}

-- What the reader leaves of a session.
record Unsent (s : Session) (o : Outside) : Type 0 where
  pub stream : o.wire ++ contents o.send_buffer ≡ outgoing s
  pub valid : IsValid o.send_buffer
  pub once : Once o
  pub stays : s.conn.state ≡ disconnected → o.state ≡ disconnected

handle_close-Unsent : (s t : Session) → Unsent s (outside t) → Unsent s (outside (handle_close t))
handle_close-Unsent s t h =
    let once : IsOnce (handle_close t) = handle_close-IsOnce t h.once in
    handle_close_cases (λ u. IsOnce u → Unsent s (outside u)) t (λ _ _. h)
      (λ _ k. record { stream = h.stream; valid = h.valid; once = k; stays = λ _. refl }) once

read-Unsent :
    (rs : List ReadReply) (s : Session) {t : Session} {rest : List ReadReply}
    → IsWell s
    → read_non_blocking rs s ≡ some (t, rest)
    → Unsent s (outside t)
read-Unsent rs s w e = subst (ResultKeeps (Unsent s) (handle_close-Unsent s)) e (
    read_non_blocking-ResultKeeps (Unsent s) (handle_close-Unsent s) rs s
      (record { stream = refl; valid = w.valid; once = w.once; stays = λ h. h }))

read-Kept :
    (rs : List ReadReply) (s t : Session) {rest : List ReadReply}
    → IsWell s
    → Fitting rs s
    → read_non_blocking rs s ≡ some (t, rest)
    → Kept s t
read-Kept rs s t w f e =
    let u : Unsent s (outside t) = read-Unsent rs s w e in
    (
      record { sound = read_non_blocking-IsSound rs s w.sound f e; valid = u.valid; once = u.once },
      unreplied u.stream u.stays,
    )

not_connected : (c : ConnectionState) → c ≡ disconnected → is_connected c ≡ false
not_connected c e = rw e refl

send2-Kept :
    (ok : Bool) (s : Session)
    → IsWell s
    → is_connected s.conn.state ≡ true
    → Kept s (send2 ok s.conn.read_buffer s)
unfolding send2 frames_of
send2-Kept ok s w open_now =
    let a : Adds s (send2 ok s.conn.read_buffer s) (frame s.conn.read_buffer) =
      send2-Adds ok s.conn.read_buffer s w.valid in
    (
      record { sound = same_reader _ _ w.sound; valid = a.valid; once = w.once },
      record {
        messages = s.conn.read_buffer ∷ [];
        small = (w.sound.size, tt);
        stream = a.stream ∙ ap (λ f. outgoing s ++ f) (sym (append-nil (frame s.conn.read_buffer)));
        silent = λ e. absurd (false≢true (sym (not_connected s.conn.state e) ∙ open_now));
      },
    )

on_message-Kept : (ok : Bool) (s : Session) → IsWell s → Kept s (on_message ok s)
unfolding on_message
on_message-Kept ok s w =
    if_both (Kept s) (is_connected s.conn.state) _ s (λ e. send2-Kept ok s w e) (λ _. Kept-refl s w)

reset-Kept : {s t : Session} → Kept s t → Kept s (reset t)
reset-Kept (w, r) = (
  record {
    sound = record {
      header_in = omega arith;
      body_in = omega arith;
      size = w.sound.size;
      no_body = λ _. refl;
    };
    valid = w.valid;
    once = w.once;
  },
  record { messages = r.messages; small = r.small; stream = r.stream; silent = r.silent },
)

dispatch_message-Kept :
    (ok : Bool) (s : Session) → IsWell s → Kept s (dispatch_message (some (on_message ok)) s)
unfolding dispatch_message
dispatch_message-Kept ok s w =
    if_both (Kept s) s.conn.ready_to_handle_message (reset (on_message ok s)) s
      (λ _. reset-Kept (on_message-Kept ok s w)) (λ _. Kept-refl s w)

-- If the loop ends.
abbrev pub ResultKept : Session → Polled → Type 0
ResultKept s none = Unit {0}
ResultKept s (some (t, rest)) = Kept s t

pub handle_message-Kept :
    (ok : Bool) (rs : List ReadReply) (s : Session)
    → IsWell s
    → Fitting rs s
    → ResultKept s (handle_message (some (on_message ok)) rs s)
unfolding handle_message
handle_message-Kept ok rs s w f = by_result (read_non_blocking rs s) refl
  where
    by_result :
        (result : Polled)
        → read_non_blocking rs s ≡ result
        → ResultKept s (elim result [
          | none ↦ none
          | some (t, rest) ↦ some (dispatch_message (some (on_message ok)) t, rest)
        ])
    by_result none e = tt
    by_result (some (t, rest)) e =
        let (well, quiet) = read-Kept rs s t w f e in
        Kept-trans quiet (dispatch_message-Kept ok t well)
