-- ===== src/Tcp/Laws.antt =====
-- The TCP backend keeps what a context relies on.
use demo_testbench.Base.{
  ◌+◌, ◌%◌, ◌^◌, Bool, Option-cases, ℕ, zero, suc, take, ap, Safely-bind, ◌≤◌, ◌==◌, true, ◌||◌,
  List, [], ◌∷◌, length, Option, some,
}
use demo_testbench.Base.{
  length-take, ok, failed, Safely, Safely-le, ◌≡◌, refl, arith, Bool-cases, inl, inr, le→leb,
}
use demo_testbench.Cbuf.Copy.{memcpy-front}
use demo_testbench.Glip.{Entry}
use demo_testbench.Glip.Options.{Number}
use demo_testbench.Glip.Session.{IsBackend}
use demo_testbench.Tcp.{
  receive_answer, transmit_answer, reset_answer, next_step, data_socket, ctrl_socket, open_data,
  open_poll, open_ctrl, connected_fd, Tcp, Answer, moved, is_open, gb_tcp_open, gb_tcp_logic_reset,
  gb_tcp_read, gb_tcp_write, receive, transmit,
}
use demo_testbench.Tcp.Connect.{Host, gl_util_connect_to_host}
use demo_testbench.Tcp.Blocking.{gb_tcp_read_b, gb_tcp_write_b, tcp_functions}
use demo_testbench.Tcp.Blocking.Laws.{moved-le}
use demo_testbench.Tcp.Blocking.Calls.{
  gb_tcp_read_b-Read, gb_tcp_write_b-Written, Read, Written, gb_tcp_read_b_other,
  gb_tcp_write_b_other,
}

-- The data and the control socket are those that connecting to a host at two neighbouring ports gave,
-- both do not block, and the data socket is watched.
pub record IsConnected (data_sfd data_efd ctrl_sfd : Option ℕ)
    (resolve : List ℕ → ℕ → Option (List Host)) (fd_nonblock : ℕ → Bool) : Type 0 where
  pub data_fd : ℕ
  pub ctrl_fd : ℕ
  pub poll_fd : ℕ
  pub hostname : List ℕ
  pub port : ℕ
  pub has_data : data_sfd ≡ some data_fd
  pub has_ctrl : ctrl_sfd ≡ some ctrl_fd
  pub has_poll : data_efd ≡ some poll_fd
  pub data_connected : (gl_util_connect_to_host resolve hostname port).0 ≡ some data_fd
  pub ctrl_connected :
      (gl_util_connect_to_host resolve hostname ((port + 1) % 2 ^ 32)).0 ≡ some ctrl_fd
  pub data_nonblock : fd_nonblock data_fd ≡ true
  pub ctrl_nonblock : fd_nonblock ctrl_fd ≡ true

abbrev pub IsOpened : Tcp → Type 0
IsOpened u = IsConnected u.data_sfd u.data_efd u.ctrl_sfd u.net.resolve u.net.fd_nonblock

opened_is_open : (u : Tcp) → IsOpened u → is_open u.data_sfd ≡ true
opened_is_open u opened = ap is_open opened.has_data

still-IsOpened :
    (u u' : Tcp)
    → (u'.data_sfd ≡ u.data_sfd) × (u'.ctrl_sfd ≡ u.ctrl_sfd)
    → (u'.data_efd ≡ u.data_efd)
      × (u'.net.resolve ≡ u.net.resolve)
      × (u'.net.fd_nonblock ≡ u.net.fd_nonblock)
    → IsOpened u
    → IsOpened u'
still-IsOpened u u' (same_data, same_ctrl) (same_poll, same_resolve, same_nonblock) opened =
    rw (same_data, same_ctrl, same_poll, same_resolve, same_nonblock) opened

open_when_opened :
    (strtoul : List ℕ → Number) (os : List Entry) (u : Tcp) (n : ℕ)
    → IsOpened u
    → gb_tcp_open strtoul os u n ≡ (failed, u)
unfolding gb_tcp_open
open_when_opened strtoul os u n opened = rw (opened_is_open u opened) refl

failed_not_ok : {A : Type 0} → failed ≡ ok → A
failed_not_ok e = absurd cc

-- The steps of opening succeed only with both sockets connected.
steps-IsOpened :
    (hostname : List ℕ) (port : ℕ) (u : Tcp)
    → (next_step
        (next_step (open_data u hostname port) open_poll)
        (λ u'. open_ctrl u' hostname ((port + 1) % 2 ^ 32))).0
      ≡ ok
    → IsOpened
        (next_step
          (next_step (open_data u hostname port) open_poll)
          (λ u'. open_ctrl u' hostname ((port + 1) % 2 ^ 32))).1
unfolding open_data open_poll open_ctrl connected_fd data_socket ctrl_socket
steps-IsOpened hostname port u e =
    elim (Option-cases (gl_util_connect_to_host u.net.resolve hostname port).0) [
      | inl down ↦ failed_not_ok (rw down at e)
      | inr (s, up) ↦ elim (Bool-cases (u.net.fd_nonblock s)) [
        | inr blocks ↦ failed_not_ok (rw (up, blocks) at e)
        | inl nonblock ↦ elim (Option-cases u.net.epoll_fd) [
          | inl no_poll ↦ failed_not_ok (rw (up, nonblock, no_poll) at e)
          | inr (p, poll) ↦ elim (Bool-cases u.net.epoll_added) [
            | inr refused ↦ failed_not_ok (rw (up, nonblock, poll, refused) at e)
            | inl added ↦
                elim (Option-cases
                  (gl_util_connect_to_host u.net.resolve hostname ((port + 1) % 2 ^ 32)).0) [
                    | inl down ↦ failed_not_ok (rw (up, nonblock, poll, added, down) at e)
                    | inr (c, up') ↦ elim (Bool-cases (u.net.fd_nonblock c)) [
                      | inr blocks ↦
                          failed_not_ok (rw (up, nonblock, poll, added, up', blocks) at e)
                      | inl nonblock' ↦
                          rw (up, nonblock, poll, added, up')
                            (record {
                              data_fd = s;
                              ctrl_fd = c;
                              poll_fd = p;
                              hostname = hostname;
                              port = port;
                              has_data = refl;
                              has_ctrl = refl;
                              has_poll = refl;
                              data_connected = up;
                              ctrl_connected = up';
                              data_nonblock = nonblock;
                              ctrl_nonblock = nonblock';
                            })
                    ]
                  ]
          ]
        ]
      ]
    ]

open_opens :
    (strtoul : List ℕ → Number) (os : List Entry) (u : Tcp) (n : ℕ)
    → (gb_tcp_open strtoul os u n).0 ≡ ok
    → IsOpened (gb_tcp_open strtoul os u n).1
unfolding gb_tcp_open
open_opens strtoul os u n e = elim (Bool-cases (is_open u.data_sfd || is_open u.ctrl_sfd)) [
  | inl already ↦ failed_not_ok (rw already at e)
  | inr fresh ↦ rw fresh (steps-IsOpened _ _ u (rw fresh at e))
]

receive-Safely :
    (as' : List Answer) (u : Tcp) (size : ℕ)
    → IsOpened u
    → Safely (receive_answer as' u size) (λ (s, got, u'). (length got ≤ size) × IsOpened u')
unfolding receive_answer
receive-Safely [] u size opened = tt
receive-Safely (a ∷ as') u size opened =
    (omega (arith, length-take (moved a size) u.net.pending, moved-le a size), opened)

transmit-Safely :
    (as' : List Answer) (u : Tcp) (xs : List ℕ)
    → IsOpened u
    → Safely (transmit_answer as' u xs) (λ (s, n, u'). IsOpened u')
unfolding transmit_answer
transmit-Safely [] u xs opened = tt
transmit-Safely (a ∷ as') u xs opened = opened

reset-Safely :
    (as' : List Answer) (u : Tcp)
    → IsOpened u
    → Safely (reset_answer as' u) (λ (s, u'). IsOpened u')
unfolding reset_answer
reset-Safely [] u opened = tt
reset-Safely (a ∷ as') u opened = opened

resets-IsOpened : (u : Tcp) → IsOpened u → Safely (gb_tcp_logic_reset u) (λ (s, u'). IsOpened u')
unfolding gb_tcp_logic_reset
resets-IsOpened u opened = elim (Bool-cases (is_open u.ctrl_sfd)) [
  | inl ctrl ↦ rw ctrl (reset-Safely u.net.ctrl_writes u opened)
  | inr no_ctrl ↦ rw no_ctrl opened
]

reads-IsOpened :
    (u : Tcp) (channel size : ℕ) (xs : List ℕ) (n : ℕ)
    → IsOpened u
    → size ≤ length xs
    → Safely (gb_tcp_read u channel size xs n) (λ (s, out, k, u'). IsOpened u')
unfolding gb_tcp_read receive
reads-IsOpened u channel size xs n opened room = elim (Bool-cases (channel == 0)) [
  | inr other ↦ rw other opened
  | inl zero_channel ↦
      rw (zero_channel, opened_is_open u opened)
        (Safely-bind (receive_answer u.net.reads u size) _
          (λ (s, got, u'). (length got ≤ size) × IsOpened u') _
          (receive-Safely u.net.reads u size opened)
          (λ (s, got, u') (fits, opened'). rw (memcpy-front xs got (omega arith)) opened'))
]

writes-IsOpened :
    (u : Tcp) (channel size : ℕ) (xs : List ℕ) (n : ℕ)
    → IsOpened u
    → size ≤ length xs
    → Safely (gb_tcp_write u channel size xs n) (λ (s, k, u'). IsOpened u')
unfolding gb_tcp_write transmit
writes-IsOpened u channel size xs n opened room = elim (Bool-cases (channel == 0)) [
  | inr other ↦ rw other opened
  | inl zero_channel ↦
      rw (zero_channel, le→leb size (length xs) room, opened_is_open u opened)
        (transmit-Safely u.net.writes u (take size xs) opened)
]

reads_b-IsOpened :
    (u : Tcp) (channel size : ℕ) (xs : List ℕ) (n t : ℕ)
    → IsOpened u
    → size ≤ length xs
    → Safely (gb_tcp_read_b u channel size xs n t) (λ (s, out, k, u'). IsOpened u')
reads_b-IsOpened u zero size xs n t opened room =
    Safely-le (gb_tcp_read_b u 0 size xs n t) (λ (s, out, k, u'). Read u size xs n s out k u') _
      (λ (s, out, k, u') r. still-IsOpened u u' r.same_fds r.same_network opened)
      (gb_tcp_read_b-Read u size xs n t (opened_is_open u opened) room)
reads_b-IsOpened u (suc c) size xs n t opened room = rw (gb_tcp_read_b_other u c size xs n t) opened

writes_b-IsOpened :
    (u : Tcp) (channel size : ℕ) (xs : List ℕ) (n t : ℕ)
    → IsOpened u
    → size ≤ length xs
    → Safely (gb_tcp_write_b u channel size xs n t) (λ (s, k, u'). IsOpened u')
writes_b-IsOpened u zero size xs n t opened room =
    Safely-le (gb_tcp_write_b u 0 size xs n t) (λ (s, k, u'). Written u size xs n s k u') _
      (λ (s, k, u') r. still-IsOpened u u' r.same_fds r.same_network opened)
      (gb_tcp_write_b-Written u size xs n t (opened_is_open u opened) room)
writes_b-IsOpened u (suc c) size xs n t opened room =
    rw (gb_tcp_write_b_other u c size xs n t) opened

-- The functions of the TCP backend are a backend in the sense of the front end, where it counts
-- as open while its data and control socket are descriptors that connecting to a host at a port
-- and the next one gave, neither of them blocks, and there is a descriptor to watch the data
-- socket: opening succeeds only so, an open one stays open until it is closed, and on an open one
-- no call leaves an object, whatever the network answers.
pub tcp_functions-IsBackend :
    (strtoul : List ℕ → Number) → IsBackend (tcp_functions strtoul) IsOpened
unfolding tcp_functions
tcp_functions-IsBackend strtoul = record {
  opens = λ os u n. open_opens strtoul os u n;
  stays = λ os u n opened. rw (open_when_opened strtoul os u n opened) opened;
  closes = λ u. tt;
  resets = resets-IsOpened;
  reads = reads-IsOpened;
  writes = writes-IsOpened;
  reads_b = reads_b-IsOpened;
  writes_b = writes_b-IsOpened;
}
