-- ===== src/Channel/Interest.antt =====
-- The mask that a channel listens with.
use epoll_server.Base.{ℕ, Bool, ◌||◌, ◌≡◌, ap, ◌∙◌, arith, has, bit_or, has-bit_or_left}
use epoll_server.Channel.State.{Channel, listen, epollin, epollpri, epollout, epollet}
use epoll_server.Channel.Enable.{enable_et, enable_read, enable_write}
use epoll_server.Epoller.{update_channel}

update_channel-listening_events :
    (ok : Bool) (c : Channel) → (update_channel ok c).listening_events ≡ c.listening_events
unfolding update_channel
update_channel-listening_events ok c = ground arith

update_listen :
    (ok : Bool) (c : Channel) (flags flag : ℕ)
    → has (update_channel ok (listen c flags)).listening_events flag
      ≡ (has c.listening_events flag || has flags flag)
unfolding listen
update_listen ok c flags flag =
    ap (λ m. has m flag) (update_channel-listening_events ok (listen c flags))
    ∙ has-bit_or_left c.listening_events flags flag

-- Whether or not `epoll_ctl` succeeds, EnableET, EnableRead and EnableWrite each add their own flags
-- to those that the channel listens for (EPOLLET; EPOLLIN and EPOLLPRI; EPOLLOUT) and drop none.
pub enable_adds :
    (ok : Bool) (c : Channel) (flag : ℕ)
    → (has (enable_et ok c).listening_events flag
        ≡ (has c.listening_events flag || has epollet flag))
      × (has (enable_read ok c).listening_events flag
          ≡ (has c.listening_events flag || has (bit_or epollin epollpri) flag))
      × (has (enable_write ok c).listening_events flag
          ≡ (has c.listening_events flag || has epollout flag))
unfolding enable_et enable_read enable_write
enable_adds ok c flag = (
  update_listen ok c epollet flag,
  update_listen ok c (bit_or epollin epollpri) flag,
  update_listen ok c epollout flag,
)
