-- ===== src/Tcp.antt =====
-- The TCP backend, glip/src/backend_tcp/sw/backend_tcp.c: its sockets, and its calls on them. The
-- network is outside: what its calls answer is a parameter.
pub mod Connect
pub mod Wait
pub mod Blocking
pub mod Opening
pub mod Laws
mod Tests
use demo_testbench.Base.{
  ℕ, ◌+◌, ◌-◌, ◌%◌, ◌^◌, ◌==◌, ltb, leb, if◌then◌else◌, min, Bool, true, false, not, ◌&&◌, ◌||◌,
}
use demo_testbench.Base.{
  List, [], ◌∷◌, ◌++◌, length, take, drop, Option, none, some, Outcome, done, fault, hang, ◌>>=◌,
}
use demo_testbench.Base.{Status, ok, failed, etimedout, is_ok}
use demo_testbench.Cbuf.{memcpy}
use demo_testbench.Glip.{Entry, Backend}
use demo_testbench.Glip.Options.{Number, glip_option_get_char, glip_option_get_uint32}
use demo_testbench.Tcp.Connect.{Host, gl_util_connect_to_host}
use demo_testbench.Tcp.Wait.{Poll}

-- What one call of `read` or `write` on a socket answers: it moves at most `n` bytes, it fails with
-- EAGAIN, or with another error.
pub data Answer : Type 0 where
  given : ℕ → Answer
  would_block broken : Answer

-- What is outside: bytes that have arrived and bytes that were sent on the data channel, messages
-- sent on the control channel, the answers to come, the descriptors that were closed, and how
-- connecting goes.
pub record Net : Type 0 where
  pub pending : List ℕ
  pub sent : List ℕ
  pub ctrl_sent : List ℕ
  pub reads : List Answer
  pub writes : List Answer
  pub ctrl_writes : List Answer
  pub polls : List Poll
  pub closed : List ℕ
  pub resolve : List ℕ → ℕ → Option (List Host)
  pub fd_nonblock : ℕ → Bool
  pub epoll_fd : Option ℕ
  pub epoll_added : Bool

-- `struct glip_backend_ctx`; `none` is a descriptor of -1.
pub record Tcp : Type 0 where
  pub data_sfd : Option ℕ
  pub data_efd : Option ℕ
  pub ctrl_sfd : Option ℕ
  pub net : Net

-- "localhost"
abbrev pub default_hostname : List ℕ
default_hostname = b'l' ∷ b'o' ∷ b'c' ∷ b'a' ∷ b'l' ∷ b'h' ∷ b'o' ∷ b's' ∷ b't' ∷ []

abbrev pub default_port_data : ℕ
default_port_data = 23000

abbrev pub ctrl_msg_logic_reset : ℕ
ctrl_msg_logic_reset = 1

abbrev pub is_open : Option ℕ → Bool
is_open none = false
is_open (some fd) = true

-- `gb_tcp_new`, on a context with a network.
pub gb_tcp_new : Net → Tcp
gb_tcp_new net = record { data_sfd = none; data_efd = none; ctrl_sfd = none; net = net }

-- Connecting one of the two sockets: the descriptor is 0 until it is connected.
pub connected_fd : Tcp → List ℕ → ℕ → Option ℕ × Tcp
connected_fd u hostname port =
    let (fd, closed') = gl_util_connect_to_host u.net.resolve hostname port in
    (fd, record u { net = record (u.net) { closed = u.net.closed ++ closed' } })

pub data_socket : Option ℕ → Tcp → Status × Tcp
data_socket none u = (failed, record u { data_sfd = some 0 })
data_socket (some s) u =
    (if u.net.fd_nonblock s then ok else failed, record u { data_sfd = some s })

pub ctrl_socket : Option ℕ → Tcp → Status × Tcp
ctrl_socket none u = (failed, record u { ctrl_sfd = some 0 })
ctrl_socket (some s) u =
    (if u.net.fd_nonblock s then ok else failed, record u { ctrl_sfd = some s })

pub open_data : Tcp → List ℕ → ℕ → Status × Tcp
open_data u hostname port = let (fd, u') = connected_fd u hostname port in data_socket fd u'

pub open_poll : Tcp → Status × Tcp
open_poll u =
    let u' = record u { data_efd = u.net.epoll_fd } in
    (if is_open u.net.epoll_fd && u.net.epoll_added then ok else failed, u')

pub open_ctrl : Tcp → List ℕ → ℕ → Status × Tcp
open_ctrl u hostname port = let (fd, u') = connected_fd u hostname port in ctrl_socket fd u'

-- A step that follows only a success.
abbrev pub next_step : Status × Tcp → (Tcp → Status × Tcp) → Status × Tcp
next_step (s, u) f = if is_ok s then f u else (s, u)

pub gb_tcp_open : (List ℕ → Number) → List Entry → Tcp → ℕ → Status × Tcp
unfolding open_data open_poll open_ctrl connected_fd data_socket ctrl_socket
gb_tcp_open strtoul options u num_channels =
    let hostname =
      (glip_option_get_char options (b'h' ∷ b'o' ∷ b's' ∷ b't' ∷ b'n' ∷ b'a' ∷ b'm' ∷ b'e' ∷ [])
        default_hostname).1 in
    let port =
      (glip_option_get_uint32 strtoul options (b'p' ∷ b'o' ∷ b'r' ∷ b't' ∷ [])
        default_port_data).1 in
    if is_open u.data_sfd || is_open u.ctrl_sfd
    then (failed, u)
    else next_step (next_step (open_data u hostname port) open_poll)
        (λ u'. open_ctrl u' hostname ((port + 1) % 2 ^ 32))

-- `close(fd)` where the descriptor is open.
abbrev pub close_fd : Option ℕ → List ℕ
close_fd none = []
close_fd (some fd) = fd ∷ []

pub gb_tcp_close : Tcp → Status × Tcp
gb_tcp_close u = (
  ok,
  record u {
    data_sfd = none;
    ctrl_sfd = none;
    net = record (u.net) {
      closed =
          u.net.closed ++ (close_fd u.data_efd ++ (close_fd u.data_sfd ++ close_fd u.ctrl_sfd));
    };
  },
)

-- How many bytes an answer moves, of at most `n`.
abbrev pub moved : Answer → ℕ → ℕ
moved (given k) n = min k n
moved would_block n = 0
moved broken n = 0

abbrev pub is_broken : Answer → Bool
is_broken broken = true
is_broken _ = false

-- The reset message, two bytes on a little endian host, and what its `write` answers.
pub reset_answer : List Answer → Tcp → Outcome (Status × Tcp)
reset_answer [] u = hang
reset_answer (a ∷ as') u = done (
  if not (is_broken a) && (moved a 2 == 2) then ok else failed,
  record u {
    net = record (u.net) {
      ctrl_sent = u.net.ctrl_sent ++ take (moved a 2) (ctrl_msg_logic_reset ∷ 0 ∷ []);
      ctrl_writes = as';
    };
  },
)

pub gb_tcp_logic_reset : Tcp → Outcome (Status × Tcp)
unfolding reset_answer
gb_tcp_logic_reset u =
    if is_open u.ctrl_sfd then reset_answer u.net.ctrl_writes u else done (failed, u)

-- `read(bctx->data_sfd, ..., size)` in `gb_tcp_read`: the status and the bytes.
pub receive_answer : List Answer → Tcp → ℕ → Outcome (Status × List ℕ × Tcp)
receive_answer [] u size = hang
receive_answer (a ∷ as') u size = done (
  if is_broken a then failed else ok,
  take (moved a size) u.net.pending,
  record u { net = record (u.net) { pending = drop (moved a size) u.net.pending; reads = as' } },
)

pub receive : Tcp → ℕ → Outcome (Status × List ℕ × Tcp)
unfolding receive_answer
receive u size =
    if is_open u.data_sfd then receive_answer u.net.reads u size else done (failed, [], u)

pub gb_tcp_read : Tcp → ℕ → ℕ → List ℕ → ℕ → Outcome (Status × List ℕ × ℕ × Tcp)
unfolding receive
gb_tcp_read u channel size data' size_read =
    if channel == 0
    then (receive u size >>= λ (s, got, u').
        memcpy data' 0 got 0 (length got) >>= λ out. done (s, out, length got, u'))
    else done (failed, data', size_read, u)

-- `write(bctx->data_sfd, ...)` in `gb_tcp_write`.
pub transmit_answer : List Answer → Tcp → List ℕ → Outcome (Status × ℕ × Tcp)
transmit_answer [] u xs = hang
transmit_answer (a ∷ as') u xs = done (
  if is_broken a then failed else ok,
  moved a (length xs),
  record u {
    net = record (u.net) { sent = u.net.sent ++ take (moved a (length xs)) xs; writes = as' };
  },
)

pub transmit : Tcp → List ℕ → Outcome (Status × ℕ × Tcp)
unfolding transmit_answer
transmit u xs =
    if is_open u.data_sfd then transmit_answer u.net.writes u xs else done (failed, 0, u)

-- A write reads `size` bytes of the caller's array.
pub gb_tcp_write : Tcp → ℕ → ℕ → List ℕ → ℕ → Outcome (Status × ℕ × Tcp)
unfolding transmit
gb_tcp_write u channel size data' size_written =
    if channel == 0
    then (if leb size (length data') then transmit u (take size data') else fault)
    else done (failed, size_written, u)

pub gb_tcp_get_channel_count : Tcp → ℕ
gb_tcp_get_channel_count u = 1

pub gb_tcp_get_fifo_width : Tcp → ℕ
gb_tcp_get_fifo_width u = 2
