-- ===== src/EventLoop/Setup.antt =====
-- The constructor and the destructor of `EventLoop`, with its eventfd and its wakeup channel.
use epoll_server.Base.{ℕ, Bool, Option}
use epoll_server.Channel.State.{Channel}
use epoll_server.Channel.State as ChannelState
use epoll_server.Channel.Enable.{enable_read}
use epoll_server.Epoller
use epoll_server.Epoller.{Epoller}
use epoll_server.Logger.{Logger}
use epoll_server.Logger.Process.{M, pure, Reply, succeeds, fails, line, log_fatal}
use epoll_server.EventLoop.{EventLoop, init}

pub record Reactor (A : Type 0) : Type 0 where
  pub loop : EventLoop A
  pub epoller : Epoller
  pub wakeup_event_fd : ℕ
  pub wakeup_channel : Channel

-- What `epoll_create1`, `eventfd` and `epoll_ctl` answer, and what the constructors leave in `tid_` and in `tied`.
pub record LoopReplies : Type 0 where
  pub epoll_create : Option ℕ
  pub eventfd : Reply ℕ
  pub ctl_ok : Bool
  pub tid : ℕ
  pub tied : Bool

module _ {A : Type 0} (thread : ℕ) where
  unfoldable pub with_eventfd : Reply ℕ → LoopReplies → M Logger (Reactor A)
  unfolding log_fatal
  with_eventfd (succeeds fd) r = pure (record {
    loop = init r.tid;
    epoller = Epoller.construct r.epoll_create;
    wakeup_event_fd = fd;
    wakeup_channel = enable_read r.ctl_ok (ChannelState.init fd r.tied);
  })
  with_eventfd (fails err) r =
      log_fatal thread (line "EventLoop::EventLoop()" err "EventLoop create failed")

  unfoldable pub construct : LoopReplies → M Logger (Reactor A)
  unfolding with_eventfd
  construct r = with_eventfd r.eventfd r

-- `UpdateChannel` and `DeleteChannel`, which the channels call.
abbrev pub update_channel : Bool → Channel → Channel
update_channel ok c = Epoller.update_channel ok c

abbrev pub delete_channel : Bool → Channel → Channel
delete_channel ok c = Epoller.delete_channel ok c

-- The destructor: the channel that it takes out of the epoller, the descriptor that it closes, and the
-- one that the destructor of the epoller closes.
unfoldable pub destruct : {A : Type 0} → Bool → Reactor A → Channel × ℕ × Option ℕ
unfolding Epoller.destruct
destruct ok r = (delete_channel ok r.wakeup_channel, r.wakeup_event_fd, Epoller.destruct r.epoller)
