-- ===== src/Echo/Round.antt =====
-- A round of a loop that serves connections of the echo server: `Epoll`, and `HandleEvent` of each
-- connection that is ready.
mod Tests
use epoll_server.Base.{
  ℕ, ◌≤◌, ◌<◌, ◌≡◌, refl, sym, ap, ◌∙◌, subst, Bool, true, Option, some, none, List, [], ◌∷◌, ◌++◌,
  length, All, some_inj,
}
use mathlib.Core.Option.{get_or}
use epoll_server.Buffer.Contents.{IsValid}
use epoll_server.Channel.State.{Channel, set_ready_events}
use epoll_server.Channel.Dispatch.{wants_read}
use epoll_server.Epoller.Wait.{Event, Distinct, reported}
use epoll_server.EventLoop.Polling.{AllReturn, polled, poll_round, Polled, poll_round-Polled}
use epoll_server.Tlv.{outgoing_header, max_tlv_length}
use epoll_server.Connection.State.{connected, ReadReply, WriteReply, wrote, Session, set_channel}
use epoll_server.Connection.Events.{event}
use epoll_server.Connection.Reader.Bounds.{Fitting}
use epoll_server.Connection.Reader.Messages.{Progress}
use epoll_server.Connection.Reader.Pieces.{IsPiece, data_of}
use epoll_server.Connection.Reader.Delivery.{IsFresh}
use epoll_server.Echo.{on_message}
use epoll_server.Echo.Event.{Answered, written, event-Answered}
use epoll_server.Echo.FirstMessage.{ready}

-- A connection, and what the `read`s on its descriptor are to answer.
abbrev pub Served : Type 0
Served = Session × List ReadReply

abbrev pub channel_of : Served → Channel
channel_of (s, rs) = s.conn.channel

abbrev pub put_channel : Channel → Served → Served
put_channel c (s, rs) = (set_channel s c, rs)

pub put_same : (x : Served) → put_channel (channel_of x) x ≡ x
put_same (s, rs) = refl

-- For each connection: what `epoll_ctl` answers to `EnableWrite` in `Send2` and in `HandleWrite`, and
-- what `write` answers.
module _ (send_ok write_ok : ℕ → Bool) (writes : ℕ → WriteReply) where
  abbrev pub handle_event : ℕ → Served → Option Served
  handle_event p (s, rs) = event (some (on_message (send_ok p))) (writes p) (write_ok p) true rs s

  abbrev pub echo_round : Option (List Event) → (ℕ → Served) → Option (ℕ → Served)
  echo_round answer at = poll_round channel_of put_channel put_same handle_event answer at

  -- If `epoll_wait` names different connections of one loop and the HandleEvent of each comes back, then
  -- the round comes to its end, and each connection that was not named is as it was. And at each
  -- that was named for reading, is open with a valid send buffer, has read a frame of 1 to MAX_TLV_LENGTH
  -- bytes up to some point and finds the rest there to read, the message has been answered, whatever
  -- the others did: its frame stands behind the bytes that were waiting, and if EPOLLOUT was named
  -- too, as many of all these as `write` took have been written, in order.
  pub echo_round-Answered :
      (answer : Option (List Event)) (at : ℕ → Served) (p q mask n : ℕ) (msg : List ℕ)
      (rs more : List ReadReply) (s : Session) (todo : List ℕ)
      → Distinct (get_or answer [])
      → AllReturn handle_event
          (get_or answer [])
          (polled channel_of put_channel put_same handle_event answer at)
      → reported p (get_or answer []) ≡ some mask
      → reported q (get_or answer []) ≡ none
      → at p ≡ (s, rs ++ more)
      → writes p ≡ wrote n
      → 0 < length msg
      → length msg ≤ max_tlv_length
      → s.conn.state ≡ connected
      → IsValid s.conn.send_buffer
      → wants_read mask ≡ true
      → Progress (outgoing_header (length msg)) msg (ready mask s) todo
      → All IsPiece rs
      → Fitting rs (ready mask s)
      → todo ≡ data_of rs
      → (after : ℕ → Served) × (echo_round answer at ≡ some after)
        × (after q ≡ at q)
        × (v : Session) × (rest : List ReadReply) × (after p ≡ (v, rest ++ more))
        × Answered (written mask n) msg s v
        × IsFresh v
  unfolding set_ready_events
  echo_round-Answered answer at p q mask n msg rs more s todo distinct returns named unnamed there
        takes some_bytes small is_open valid readable progress pieces fitting bytes =
      let (after, run, each) =
        poll_round-Polled channel_of put_channel put_same handle_event answer at distinct returns in
      let (v, rest, ran, answered, fresh) =
        event-Answered (send_ok p) (write_ok p) true n msg rs more (ready mask s) todo some_bytes
          small is_open valid readable progress pieces fitting bytes in
      let handled : handle_event p (put_channel (set_ready_events (channel_of (at p)) mask) (at p))
          ≡ some (after p) =
        subst (Polled channel_of put_channel put_same handle_event at after p) named (each p) in
      let handled_there : handle_event p (ready mask s, rs ++ more) ≡ some (after p) =
        ap (λ x. handle_event p (put_channel (set_ready_events (channel_of x) mask) x)) (sym there)
        ∙ handled in
      let answers : handle_event p (ready mask s, rs ++ more) ≡ some (v, rest ++ more) =
        ap
          (λ w.
            event (some (on_message (send_ok p))) w (write_ok p) true (rs ++ more) (ready mask s))
          takes
        ∙ ran in
      (
        after,
        run,
        subst (Polled channel_of put_channel put_same handle_event at after q) unnamed (each q),
        v,
        rest,
        some_inj (sym handled_there ∙ answers),
        record {
          state = answered.state;
          valid = answered.valid;
          wire = answered.wire;
          waiting = answered.waiting;
        },
        fresh,
      )
