-- ===== src/Acceptor/Ready.antt =====
-- What becomes of the constructor of `Acceptor` for every answer of the system calls.
use Prim.Native.String.{String}
use epoll_server.Base.{
  ℕ, ◌≡◌, ◌⊎◌, inl, inr, refl, Bool, true, false, not, some, List, [], ◌∷◌, ◌++◌,
}
use epoll_server.Channel.State.{Channel, init, listen, set_in_epoll, set_failed}
use epoll_server.Channel.Enable.{enable_read}
use epoll_server.Epoller.{update_channel}
use epoll_server.Logger.{error, fatal, Message, Logger, log}
use epoll_server.Logger.Process.{
  Outcome, returns, terminates, asserts, Reply, succeeds, fails, line, log_error, log_fatal,
}
use epoll_server.Acceptor.{Acceptor, Replies, create, create_socket, reuse_address, bind, construct}
use epoll_server.Acceptor as Parts

-- The lines of a call that fails.
abbrev pub complaint : String → String → Reply (Unit {0}) → List Message
complaint name what (succeeds _) = []
complaint name what (fails err) = line name err what ∷ []

abbrev pub lines : Replies → List Message
lines r =
    line "Acceptor::Create" "" "create socket succ"
    ∷ (complaint "Acceptor::Bind" "bind failed" r.bind
        ++ (line "Acceptor::Bind" "" "bind socket succ"
            ∷ (complaint "Acceptor::Listen" "listen failed" r.listen
                ++ (line "Acceptor::Listen" "" "listen socket succ" ∷ []))))

unfoldable pub log_errors : ℕ → List Message → Logger → Logger
log_errors thread [] l = l
log_errors thread (m ∷ ms) l = log_errors thread ms (log thread error m l)

-- The channel is the one of the socket, listens for new connections and is registered if `epoll_ctl`
-- succeeds.
pub record IsReady (ctl_ok : Bool) (fd : ℕ) (a : Acceptor) : Type 0 where
  pub listened : a.listened_fd ≡ some fd
  pub channel : Channel
  pub accept_channel : a.accept_channel ≡ some channel
  pub client_fd : channel.client_fd ≡ fd
  pub listening : channel.listening_events ≡ 3
  pub in_epoll : channel.in_epoll ≡ ctl_ok
  pub failed : channel.failed ≡ not ctl_ok

unfoldable pub Constructed : ℕ → Replies → Logger → Outcome Logger Acceptor → Type 0
Constructed thread r l (returns a k) =
    (fd : ℕ) × (r.socket ≡ succeeds fd)
    × (r.setsockopt ≡ succeeds tt)
    × IsReady r.ctl_ok fd a
    × (k ≡ log_errors thread (lines r) l)
Constructed thread r l (terminates k) =
    (err what : String) × ((r.socket ≡ fails err) ⊎ (r.setsockopt ≡ fails err))
    × (k ≡ log thread fatal (line "Acceptor::Create" err what) l)
Constructed thread r l asserts = ⊥

module _ (thread : ℕ) (l : Logger) where
  registered :
      (fd : ℕ) (ctl_ok tied : Bool)
      → IsReady ctl_ok fd (record {
        listened_fd = some fd;
        accept_channel = some (enable_read ctl_ok (init fd tied));
      })
  unfolding enable_read update_channel init listen set_in_epoll set_failed
  registered fd true tied = record {
    listened = refl;
    channel = enable_read true (init fd tied);
    accept_channel = refl;
    client_fd = refl;
    listening = refl;
    in_epoll = refl;
    failed = refl;
  }
  registered fd false tied = record {
    listened = refl;
    channel = enable_read false (init fd tied);
    accept_channel = refl;
    client_fd = refl;
    listening = refl;
    in_epoll = refl;
    failed = refl;
  }

  by_replies :
      (socket : Reply ℕ) (setsockopt bind listen : Reply (Unit {0})) (ctl_ok tied : Bool)
      → let r : Replies = record {
        socket = socket;
        setsockopt = setsockopt;
        bind = bind;
        listen = listen;
        ctl_ok = ctl_ok;
        tied = tied;
      } in
        Constructed thread r l (construct thread r l)
  unfolding Constructed construct create create_socket reuse_address Parts.bind Parts.listen
      log_error log_fatal log_errors
  by_replies (fails e) o b n c t = (e, "create socket failed", inl refl, refl)
  by_replies (succeeds fd) (fails e) b n c t = (e, "setsockopt SO_REUSEADDR failed", inr refl, refl)
  by_replies (succeeds fd) (succeeds _) (succeeds _) (succeeds _) c t =
      (fd, refl, refl, registered fd c t, refl)
  by_replies (succeeds fd) (succeeds _) (succeeds _) (fails _) c t =
      (fd, refl, refl, registered fd c t, refl)
  by_replies (succeeds fd) (succeeds _) (fails _) (succeeds _) c t =
      (fd, refl, refl, registered fd c t, refl)
  by_replies (succeeds fd) (succeeds _) (fails _) (fails _) c t =
      (fd, refl, refl, registered fd c t, refl)

  -- Whatever the system calls answer, the constructor of Acceptor ends the process by Fatal exactly if
  -- socket or setsockopt fails, with that as the last line logged; no assertion in it fails. Else, also if
  -- bind or listen fails, it returns with a channel for the socket that listens for EPOLLIN and EPOLLPRI
  -- and is registered if epoll_ctl succeeds, and it has logged, at the level of errors, that the socket
  -- was created, bound and listened on, each behind the line of the failure if there was one.
  pub construct-Constructed : (r : Replies) → Constructed thread r l (construct thread r l)
  construct-Constructed r = by_replies r.socket r.setsockopt r.bind r.listen r.ctl_ok r.tied
