-- ===== src/Channel/Enable.antt =====
-- `EnableET`, `EnableRead` and `EnableWrite`: listen for more, and tell the kernel.
-- `ok` is what `epoll_ctl` answers.
use epoll_server.Base.{◌≡◌, Bool, bit_or, arith}
use epoll_server.Channel.State.{
  Channel, listen, epollin, epollpri, epollout, epollet, set_in_epoll, set_failed,
}
use epoll_server.Epoller.{update_channel}

unfoldable pub enable_et : Bool → Channel → Channel
enable_et ok c = update_channel ok (listen c epollet)

unfoldable pub enable_read : Bool → Channel → Channel
enable_read ok c = update_channel ok (listen c (bit_or epollin epollpri))

unfoldable pub enable_write : Bool → Channel → Channel
enable_write ok c = update_channel ok (listen c epollout)

pub enable_write-ready_events :
    (ok : Bool) (c : Channel) → (enable_write ok c).ready_events ≡ c.ready_events
unfolding enable_write update_channel listen set_in_epoll set_failed
enable_write-ready_events ok c = ground arith
