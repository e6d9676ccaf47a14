-- ===== src/Connection/State.antt =====
-- The fields of `Connection`, what system calls answer, and the calls that begin and end its life.
use epoll_server.Base.{ℕ, ◌+◌, Bool, true, false, List, [], if◌then◌else◌, Option}
use epoll_server.Buffer
use epoll_server.Buffer.{Buffer}
use epoll_server.Channel.State.{Channel, tie}
use epoll_server.Channel.State as ChannelState
use epoll_server.Channel.Dispatch.{call}
use epoll_server.Channel.Enable.{enable_et, enable_read}
use epoll_server.Epoller.{delete_channel}
use epoll_server.Tlv.{TlvHeader}

pub data ConnectionState : Type 0 where
  invalid connected disconnected : ConnectionState

-- `errno` after a call that answered -1.
pub data Errno : Type 0 where
  eagain ewouldblock eintr : Errno
  other : ℕ → Errno

-- `read` gives bytes, none at the end of the stream, or fails.
pub data ReadReply : Type 0 where
  got : List ℕ → ReadReply
  read_error : Errno → ReadReply

-- `write` takes a number of bytes, or fails.
pub data WriteReply : Type 0 where
  wrote : ℕ → WriteReply
  write_error : Errno → WriteReply

-- `on_close_callback` is whether one is set; the other callbacks are arguments where they are called.
pub record Connection : Type 0 where
  pub client_fd : ℕ
  pub state : ConnectionState
  pub channel : Channel
  pub read_buffer : List ℕ
  pub send_buffer : Buffer
  pub read_tlv_header_length : ℕ
  pub read_body_length : ℕ
  pub tlv_header : TlvHeader
  pub ready_to_handle_message : Bool
  pub on_close_callback : Bool

-- A connection with what its calls have made happen outside: the bytes that `write` has taken, in
-- order, and how often the close callback has run.
pub record Session : Type 0 where
  pub conn : Connection
  pub open conn use *
  pub wire : List ℕ
  pub close_calls : ℕ

-- The constructor leaves `state` and the channel's `tied` uninitialised: their first values are
-- arguments, and so is what `epoll_ctl` answers to `EnableET`.
unfoldable pub init : ConnectionState → Bool → Bool → ℕ → Connection
unfolding ChannelState.init
init state tied ok fd = record {
  client_fd = fd;
  state = state;
  channel = enable_et ok (ChannelState.init fd tied);
  read_buffer = [];
  send_buffer = Buffer.init;
  read_tlv_header_length = 0;
  read_body_length = 0;
  tlv_header = record { type = 0; length = 0 };
  ready_to_handle_message = false;
  on_close_callback = false;
}

abbrev pub set_channel : Session → Channel → Session
set_channel s c = record s { conn = record (s.conn) { channel = c } }

unfoldable pub connection_established : Bool → Option (Session → Session) → Session → Session
connection_established ok on_connect s = call on_connect (record s {
  conn = record (s.conn) { state = connected; channel = enable_read ok (tie s.conn.channel) };
})

unfoldable pub connection_destructor : Bool → Session → Session
connection_destructor ok s = set_channel s (delete_channel ok s.conn.channel)

abbrev pub is_disconnected : ConnectionState → Bool
is_disconnected disconnected = true
is_disconnected _ = false

unfoldable pub handle_close : Session → Session
handle_close s = if is_disconnected s.conn.state then s else record s {
  conn = record (s.conn) { state = disconnected };
  close_calls = if s.conn.on_close_callback then s.close_calls + 1 else s.close_calls;
}
