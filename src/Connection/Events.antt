-- ===== src/Connection/Events.antt =====
-- An event of a connection's channel: the callbacks that the constructor of `Connection` sets, run by
-- `HandleEvent`.
use epoll_server.Base.{
  ℕ, ◌≡◌, refl, ap, ◌∙◌, Bool, true, Option, none, some, List, if◌then◌else◌, has, Bool-cases, inl,
  inr,
}
use epoll_server.Channel.State.{epollout}
use epoll_server.Channel.Dispatch.{
  Callbacks, no_callbacks, set_read_callback, set_write_callback, handle_event, handle_event_lem,
  wants_read,
}
use epoll_server.Connection.State.{ReadReply, WriteReply, Session}
use epoll_server.Connection.Reader.{handle_message}
use epoll_server.Connection.Sender.{handle_write}

-- The session, and what the `read`s to come answer; `none` is a read loop that is still running.
abbrev pub Polled : Type 0
Polled = Option (Session × List ReadReply)

abbrev pub ready_events : Polled → ℕ
ready_events none = 0
ready_events (some (s, rs)) = s.conn.channel.ready_events

-- `w` and `ok` are what `write` and then `epoll_ctl` answer to `HandleWrite`.
module _ (on_message : Option (Session → Session)) (w : WriteReply) (ok : Bool) where
  abbrev pub on_readable : Polled → Polled
  on_readable none = none
  on_readable (some (s, rs)) = handle_message on_message rs s

  abbrev pub on_writable : Polled → Polled
  on_writable none = none
  on_writable (some (s, rs)) = some (handle_write w ok s, rs)

  unfoldable pub callbacks : Callbacks Polled
  callbacks = set_write_callback on_writable (set_read_callback on_readable no_callbacks)

  -- `alive` is whether the owner of the channel is still there.
  unfoldable pub event : Bool → List ReadReply → Session → Polled
  unfolding callbacks
  event alive rs s =
      handle_event ready_events callbacks.read_callback callbacks.write_callback s.conn.channel.tied
        alive (some (s, rs))

  -- The write callback after a read callback that has come back.
  abbrev pub then_write : ℕ → Session → Session
  then_write mask t = if has mask epollout then handle_write w ok t else t

  pub event-readable :
      (alive : Bool) (rs rest : List ReadReply) (s t : Session)
      → wants_read s.conn.channel.ready_events ≡ true
      → handle_message on_message rs s ≡ some (t, rest)
      → t.conn.channel.ready_events ≡ s.conn.channel.ready_events
      → event alive rs s ≡ some (then_write s.conn.channel.ready_events t, rest)
  unfolding event callbacks
  event-readable alive rs rest s t due run same =
      handle_event_lem ready_events (some on_readable) (some on_writable) s.conn.channel.tied alive
        (some (s, rs)) (ap ready_events run ∙ same)
      ∙ elim (Bool-cases (has s.conn.channel.ready_events epollout)) [
        | inl out ↦ rw (due, run, out) refl
        | inr not_out ↦ rw (due, run, not_out) refl
      ]
