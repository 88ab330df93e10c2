-- ===== src/Tcp/Opening.antt =====
-- Opening the TCP backend where the data channel cannot be connected.
use demo_testbench.Base.{ℕ, List, [], ◌∷◌, ◌++◌, none, some}
use demo_testbench.Base.{failed, ◌≡◌, refl}
use demo_testbench.Glip.{Entry}
use demo_testbench.Glip.Options.{Number, glip_option_get_char, glip_option_get_uint32}
use demo_testbench.Tcp.{
  Tcp, data_socket, default_hostname, default_port_data, close_fd, open_data, connected_fd,
}
use demo_testbench.Tcp.{gb_tcp_open, gb_tcp_close}
use demo_testbench.Tcp.Connect.{gl_util_connect_to_host}

-- The host and the port that the options ask for.
abbrev pub hostname_of : List Entry → List ℕ
hostname_of options =
    (glip_option_get_char options (b'h' ∷ b'o' ∷ b's' ∷ b't' ∷ b'n' ∷ b'a' ∷ b'm' ∷ b'e' ∷ [])
      default_hostname).1

abbrev pub port_of : (List ℕ → Number) → List Entry → ℕ
port_of strtoul options =
    (glip_option_get_uint32 strtoul options (b'p' ∷ b'o' ∷ b'r' ∷ b't' ∷ []) default_port_data).1

-- On a closed backend whose data channel cannot be connected, opening fails and leaves descriptor 0
-- as the data socket: from then on every opening is refused without an attempt to connect, and
-- closing closes descriptor 0, which is not the backend's.
pub gb_tcp_open_failure :
    (strtoul : List ℕ → Number) (options options' : List Entry) (u : Tcp) (n n' : ℕ)
    → u.data_sfd ≡ none
    → u.ctrl_sfd ≡ none
    → (gl_util_connect_to_host u.net.resolve (hostname_of options) (port_of strtoul options)).0
      ≡ none
    → (v : Tcp) × (gb_tcp_open strtoul options u n ≡ (failed, v))
      × (v.data_sfd ≡ some 0)
      × (gb_tcp_open strtoul options' v n' ≡ (failed, v))
      × ((gb_tcp_close v).1.net.closed ≡ v.net.closed ++ (close_fd u.data_efd ++ 0 ∷ []))
unfolding gb_tcp_open gb_tcp_close open_data connected_fd data_socket
gb_tcp_open_failure strtoul options options' u n n' no_data no_ctrl down =
    let closed' =
      (gl_util_connect_to_host u.net.resolve (hostname_of options) (port_of strtoul options)).1 in
    let v = record u {
      data_sfd = some 0;
      ctrl_sfd = none;
      net = record (u.net) { closed = u.net.closed ++ closed' };
    } in
    (v, rw (no_data, no_ctrl, down) refl, refl, refl, refl)
