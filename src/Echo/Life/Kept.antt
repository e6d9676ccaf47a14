-- ===== src/Echo/Life/Kept.antt =====
-- What goes out in steps that follow on each other.
use epoll_server.Base.{
  ℕ, ◌≡◌, refl, sym, ap, ◌∙◌, List, [], ◌∷◌, ◌++◌, All-append, append-nil, append_assoc,
}
use epoll_server.Buffer.{Buffer}
use epoll_server.Channel.State.{Channel}
use epoll_server.Connection.State.{Connection}
use epoll_server.Connection.State.{disconnected, Session, handle_close}
use epoll_server.Connection.Close.{handle_close_cases}
use epoll_server.Connection.Once.{IsOnce, handle_close-IsOnce}
use epoll_server.Connection.Sender.Order.{outgoing, frame}
use epoll_server.Connection.Reader.Bounds.{IsSound, handle_close-IsSound}
use epoll_server.Echo.Dialogue.{frames_of}
use epoll_server.Echo.Life.{IsWell, Replies}

frames_of-append : (a b : List (List ℕ)) → frames_of (a ++ b) ≡ frames_of a ++ frames_of b
unfolding frames_of
frames_of-append [] b = refl
frames_of-append (m ∷ a) b =
    ap (λ r. frame m ++ r) (frames_of-append a b)
    ∙ sym (append_assoc (frame m) (frames_of a) (frames_of b))

pub Replies-trans : {s t u : Session} → Replies s t → Replies t u → Replies s u
Replies-trans {s} p q = record {
  messages = p.messages ++ q.messages;
  small = All-append _ p.messages q.messages p.small q.small;
  stream =
      q.stream
      ∙ ap (λ o. o ++ frames_of q.messages) p.stream
      ∙ append_assoc (outgoing s) (frames_of p.messages) (frames_of q.messages)
      ∙ ap (λ f. outgoing s ++ f) (sym (frames_of-append p.messages q.messages));
  silent = λ e.
      let (gone, nothing) = p.silent e in
      let (still, no_more) = q.silent gone in (still, ap (λ m. m ++ q.messages) nothing ∙ no_more);
}

-- The reader's fields as they were.
pub same_reader :
    {c : Connection} (b : Buffer) (k : Channel)
    → IsSound c
    → IsSound (record c { send_buffer = b; channel = k })
same_reader b k h = record {
  header_in = h.header_in;
  body_in = h.body_in;
  size = h.size;
  no_body = h.no_body;
}

-- A step that queues nothing.
pub unreplied :
    {s t : Session}
    → outgoing t ≡ outgoing s
    → (s.conn.state ≡ disconnected → t.conn.state ≡ disconnected)
    → Replies s t
unfolding frames_of
unreplied {s} same stays = record {
  messages = [];
  small = tt;
  stream = same ∙ sym (append-nil (outgoing s));
  silent = λ e. (stays e, refl);
}

-- The session is as well as before, and what has gone out is as it should be.
abbrev pub Kept : Session → Session → Type 0
Kept s t = IsWell t × Replies s t

pub Kept-trans : {s t u : Session} → Replies s t → Kept t u → Kept s u
Kept-trans p (w, q) = (w, Replies-trans p q)

pub Kept-refl : (s : Session) → IsWell s → Kept s s
Kept-refl s w = (w, unreplied refl (λ e. e))

pub handle_close-Kept : (s : Session) → IsWell s → Kept s (handle_close s)
handle_close-Kept s w =
    let once : IsOnce (handle_close s) = handle_close-IsOnce s w.once in
    let sound : IsSound (handle_close s).conn = handle_close-IsSound s w.sound in
    handle_close_cases (λ t. IsOnce t → IsSound t.conn → Kept s t) s (λ _ _ _. Kept-refl s w)
      (λ _ o k. (record { sound = k; valid = w.valid; once = o }, unreplied refl (λ _. refl))) once
      sound
