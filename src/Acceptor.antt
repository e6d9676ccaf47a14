-- ===== src/Acceptor.antt =====
-- acceptor.h and acceptor.cpp: the constructor, `Create`, `Bind` and `Listen`.
-- What each system call answers is an argument. `Accept` is in Server.antt, next to the callback that it
-- runs.
pub mod Ready
mod Tests
use epoll_server.Base.{ℕ, Bool, true, false, not, Option, none, some}
use epoll_server.Channel.State.{Channel}
use epoll_server.Channel.State as ChannelState
use epoll_server.Channel.Enable.{enable_read}
use epoll_server.Logger.{Logger}
use epoll_server.Epoller.{delete_channel}
use epoll_server.Logger.Process.{
  M, pure, ◌>>=◌, ◌>>◌, assert, Reply, succeeds, fails, line, log_error, log_fatal,
}

-- `listened_fd` is -1 (`none`) and `accept_channel` null (`none`) before they are set.
pub record Acceptor : Type 0 where
  pub listened_fd : Option ℕ
  pub accept_channel : Option Channel

-- The answers of `socket`, `setsockopt`, `bind`, `listen` and `epoll_ctl`, and the value that the
-- channel's constructor leaves in `tied`.
pub record Replies : Type 0 where
  pub socket : Reply ℕ
  pub setsockopt : Reply (Unit {0})
  pub bind : Reply (Unit {0})
  pub listen : Reply (Unit {0})
  pub ctl_ok : Bool
  pub tied : Bool

abbrev pub is_open : Option ℕ → Bool
is_open none = false
is_open (some fd) = true

module _ (thread : ℕ) where
  unfoldable pub create_socket : Reply ℕ → Acceptor → M Logger Acceptor
  unfolding log_fatal
  create_socket (succeeds fd) a = pure (record a { listened_fd = some fd })
  create_socket (fails err) a =
      log_fatal thread (line "Acceptor::Create" err "create socket failed")

  unfoldable pub reuse_address : Reply (Unit {0}) → M Logger (Unit {0})
  unfolding log_fatal
  reuse_address (succeeds _) = pure tt
  reuse_address (fails err) =
      log_fatal thread (line "Acceptor::Create" err "setsockopt SO_REUSEADDR failed")

  unfoldable pub create : Reply ℕ → Reply (Unit {0}) → Acceptor → M Logger Acceptor
  unfolding create_socket reuse_address log_error
  create socket setsockopt a = do
    assert (not (is_open a.listened_fd))
    b ← create_socket socket a
    reuse_address setsockopt
    log_error thread (line "Acceptor::Create" "" "create socket succ")
    pure b

  unfoldable pub bind : Reply (Unit {0}) → M Logger (Unit {0})
  unfolding log_error
  bind (succeeds _) = log_error thread (line "Acceptor::Bind" "" "bind socket succ")
  bind (fails err) = do
    log_error thread (line "Acceptor::Bind" err "bind failed")
    log_error thread (line "Acceptor::Bind" "" "bind socket succ")

  unfoldable pub listen : Reply (Unit {0}) → Acceptor → M Logger (Unit {0})
  unfolding log_error
  listen (succeeds _) a = do
    assert (is_open a.listened_fd)
    log_error thread (line "Acceptor::Listen" "" "listen socket succ")
  listen (fails err) a = do
    assert (is_open a.listened_fd)
    log_error thread (line "Acceptor::Listen" err "listen failed")
    log_error thread (line "Acceptor::Listen" "" "listen socket succ")

  -- The channel of the descriptor, which listens for EPOLLIN and EPOLLPRI.
  abbrev pub channel_of : Replies → Option ℕ → Option Channel
  channel_of r none = none
  channel_of r (some fd) = some (enable_read r.ctl_ok (ChannelState.init fd r.tied))

  -- The constructor.
  unfoldable pub construct : Replies → M Logger Acceptor
  unfolding create bind listen
  construct r = do
    a ← create r.socket r.setsockopt (record { listened_fd = none; accept_channel = none })
    bind r.bind
    listen r.listen a
    pure (record a { accept_channel = channel_of r a.listened_fd })

-- The destructor: the channel that it takes out of the epoller, and the descriptor that it closes.
unfoldable pub destruct : Bool → Acceptor → Option Channel × Option ℕ
destruct ok a = (deleted a.accept_channel, a.listened_fd)
  where
    deleted : Option Channel → Option Channel
    deleted none = none
    deleted (some c) = some (delete_channel ok c)
