-- ===== src/Epoller.antt =====
-- epoller.h and epoller.cpp: registering channels with the kernel, and waiting for events.
-- What `epoll_ctl` and `epoll_wait` answer is an argument.
pub mod Wait
pub mod Registration
use epoll_server.Base.{ℕ, Bool, true, false, Option, if◌then◌else◌}
use epoll_server.Channel.State.{Channel, set_in_epoll, set_failed}

-- `epoll_fd` is -1 (`none`) if `epoll_create1` fails. The array of `event_num` events that `epoll_wait`
-- fills is not kept: its answer is an argument of `Epoll`.
pub record Epoller : Type 0 where
  pub epoll_fd : Option ℕ
  pub event_num : ℕ

-- EVENT_NUM
abbrev pub event_num : ℕ
event_num = 4096

-- What `epoll_create1` answers is stored and not tested.
unfoldable pub construct : Option ℕ → Epoller
construct epoll_fd = record { epoll_fd = epoll_fd; event_num = event_num }

-- The destructor: the descriptor that it closes, if there is one.
unfoldable pub destruct : Epoller → Option ℕ
destruct e = e.epoll_fd

-- EPOLL_CTL_ADD, EPOLL_CTL_MOD and EPOLL_CTL_DEL
pub data CtlOp : Type 0 where
  add modify delete : CtlOp

-- The operation that `UndateChannel` asks of the kernel.
unfoldable pub update_op : Channel → CtlOp
update_op c = if c.in_epoll then modify else add

-- `UndateChannel`, when `epoll_ctl` succeeds (`true`) and when it answers -1 (`false`).
unfoldable pub update_channel : Bool → Channel → Channel
unfolding set_in_epoll set_failed
update_channel ok c =
    if c.in_epoll
    then (if ok then c else set_failed c)
    else (if ok then set_in_epoll c true else set_failed c)

unfoldable pub delete_channel : Bool → Channel → Channel
unfolding set_in_epoll set_failed
delete_channel ok c = set_in_epoll (if ok then c else set_failed c) false
