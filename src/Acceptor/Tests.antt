-- ===== src/Acceptor/Tests.antt =====
-- The constructor of the acceptor when the port is taken.
use epoll_server.Base.{true}
use epoll_server.Logger.{init}
use epoll_server.Logger.Process.{succeeds, fails}
use epoll_server.Acceptor.{Replies, construct}
use epoll_server.Acceptor.Ready.{Constructed, construct-Constructed}

abbrev pub port_taken : Replies
port_taken = record {
  socket = succeeds 3;
  setsockopt = succeeds tt;
  bind = fails "Address already in use";
  listen = succeeds tt;
  ctl_ok = true;
  tied = true;
}

construct-Constructed_example : Constructed 1 port_taken init (construct 1 port_taken init)
construct-Constructed_example = construct-Constructed 1 init port_taken
