-- ===== src/Channel/State.antt =====
-- The fields of `Channel`, its constructor and its setters.
-- The two callbacks are arguments of `Dispatch.handle_event`; the loop's pointer is not stored.
use Prim.Native.Nat.{bit_or}
use epoll_server.Base.{ℕ, Bool, true, false, ◌^◌}

-- <sys/epoll.h>, as bit patterns of a `uint32_t`
abbrev pub epollin : ℕ
epollin = 0x1

abbrev pub epollpri : ℕ
epollpri = 0x2

abbrev pub epollout : ℕ
epollout = 0x4

abbrev pub epollrdhup : ℕ
epollrdhup = 0x2000

abbrev pub epollet : ℕ
epollet = 2 ^ 31

pub record Channel : Type 0 where
  pub client_fd : ℕ
  pub listening_events : ℕ
  pub ready_events : ℕ
  pub in_epoll : Bool
  pub failed : Bool
  pub tied : Bool

-- The constructor leaves `tied` uninitialised: its first value is an argument.
unfoldable pub init : ℕ → Bool → Channel
init fd tied = record {
  client_fd = fd;
  listening_events = 0;
  ready_events = 0;
  in_epoll = false;
  failed = false;
  tied = tied;
}

unfoldable pub set_in_epoll : Channel → Bool → Channel
set_in_epoll c value = record c { in_epoll = value }

unfoldable pub set_failed : Channel → Channel
set_failed c = record c { failed = true }

unfoldable pub set_ready_events : Channel → ℕ → Channel
set_ready_events c events = record c { ready_events = events }

unfoldable pub tie : Channel → Channel
tie c = record c { tied = true }

-- The `|=` of `EnableET`, `EnableRead` and `EnableWrite`.
unfoldable pub listen : Channel → ℕ → Channel
listen c events = record c { listening_events = bit_or c.listening_events events }
