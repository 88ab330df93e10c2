-- ===== src/Tcp/Blocking/Calls.antt =====
-- What the blocking calls give their caller.
use demo_testbench.Base.{ℕ, suc, ◌^◌, ◌≤◌, ◌<◌, ◌==◌, if◌then◌else◌, true, false}
use demo_testbench.Base.{List, [], ◌++◌, length, take, drop, length-take, arith}
use demo_testbench.Base.{
  ◌≡◌, refl, ap, ◌∙◌, sym, Bool-cases, inl, inr, ◌⊎◌, done, Status, ok, failed, etimedout, is_ok,
}
use demo_testbench.Base.{take_front, take_less, le→leb, Safely, Safely-bind}
use demo_testbench.Cbuf.Copy.{memcpy-front}
use demo_testbench.Tcp.{Tcp, is_open}
use demo_testbench.Tcp.Blocking.{transfer, final_status, gb_tcp_read_b, gb_tcp_write_b}
use demo_testbench.Tcp.Blocking.Laws.{Transferred, transfer-Transferred}
use demo_testbench.Tcp.Blocking.Ready.{AreReady, ArePrompt, transfer-AreReady}

-- What the status says of the number of bytes moved, and what is reported.
abbrev pub Reported : Status → ℕ → ℕ → ℕ → ℕ → Type 0
Reported s moved n size before =
    ((s ≡ ok) × (moved ≡ size) × (n ≡ moved))
    ⊎ (((s ≡ etimedout) × (moved < size) × (n ≡ moved)) ⊎ ((s ≡ failed) × (n ≡ before)))

report :
    (s : Status) (moved size before : ℕ)
    → moved ≤ size
    → Reported (final_status s moved size) moved (if is_ok s then moved else before) size before
report ok moved size before h = elim (Bool-cases (moved == size)) [
  | inl all ↦ rw all (inl (refl, ground arith, refl))
  | inr part ↦ rw part (inr (inl (refl, ground arith, refl)))
]
report _ moved size before h = inr (inr (refl, refl))

-- The bytes `got` were taken from the front of what had arrived.
pub record Read (u : Tcp) (size : ℕ) (data' : List ℕ) (before : ℕ) (s : Status) (out : List ℕ)
    (n : ℕ) (u' : Tcp) : Type 0 where
  pub got : List ℕ
  pub in_array : out ≡ got ++ drop (length got) data'
  pub in_order : got ++ u'.net.pending ≡ u.net.pending
  pub at_most : length got ≤ size
  pub reported : Reported s (length got) n size before
  pub same_fds : (u'.data_sfd ≡ u.data_sfd) × (u'.ctrl_sfd ≡ u.ctrl_sfd)
  pub same_network :
      (u'.data_efd ≡ u.data_efd)
      × (u'.net.resolve ≡ u.net.resolve)
      × (u'.net.fd_nonblock ≡ u.net.fd_nonblock)

-- However the network answers, a blocking read on an open socket, with an array that has room,
-- leaves no object, and if it ends, the bytes in the array and those that still wait are those that
-- had arrived, in order; it is a success exactly with all bytes asked for, a timeout with fewer,
-- and reports their number, unless the socket failed.
pub gb_tcp_read_b-Read :
    (u : Tcp) (size : ℕ) (data' : List ℕ) (size_read timeout : ℕ)
    → is_open u.data_sfd ≡ true
    → size ≤ length data'
    → Safely
        (gb_tcp_read_b u 0 size data' size_read timeout)
        (λ (s, out, n, u'). Read u size data' size_read s out n u')
unfolding gb_tcp_read_b
gb_tcp_read_b-Read u size data' size_read timeout fd room = rw fd (
    Safely-bind (transfer true timeout u.net.reads u.net.polls u.net.pending size []) _
      (Transferred u.net.pending [] size) _
      (transfer-Transferred true timeout u.net.reads u.net.polls u.net.pending size [])
      (λ t h. rw (memcpy-front data' t.got (omega (arith, h.at_most))) (record {
        got = t.got;
        in_array = refl;
        in_order = h.in_order;
        at_most = omega (arith, h.at_most);
        reported = report t.status (length t.got) size size_read (omega (arith, h.at_most));
        same_fds = (refl, refl);
        same_network = (refl, refl, refl);
      })))

-- The bytes `got`, from the front of the array, were sent.
pub record Written (u : Tcp) (size : ℕ) (data' : List ℕ) (before : ℕ) (s : Status) (n : ℕ)
    (u' : Tcp) : Type 0 where
  pub got : List ℕ
  pub front : got ≡ take (length got) data'
  pub sent_behind : u'.net.sent ≡ u.net.sent ++ got
  pub at_most : length got ≤ size
  pub reported : Reported s (length got) n size before
  pub same_fds : (u'.data_sfd ≡ u.data_sfd) × (u'.ctrl_sfd ≡ u.ctrl_sfd)
  pub same_network :
      (u'.data_efd ≡ u.data_efd)
      × (u'.net.resolve ≡ u.net.resolve)
      × (u'.net.fd_nonblock ≡ u.net.fd_nonblock)

taken_front :
    (got left_over data' : List ℕ) (size : ℕ)
    → got ++ left_over ≡ take size data'
    → length got ≤ size
    → got ≡ take (length got) data'
taken_front got left_over data' size e h =
    sym (take_front got left_over (length got) refl)
    ∙ (ap (λ l. take (length got) l) e ∙ take_less (length got) size data' h)

-- However the network answers, a blocking write on an open socket, of an array with the bytes asked
-- for, leaves no object, and if it ends, it has sent bytes from the front of the array, in order;
-- it is a success exactly with all bytes, a timeout with fewer, and reports their number, unless
-- the socket failed.
pub gb_tcp_write_b-Written :
    (u : Tcp) (size : ℕ) (data' : List ℕ) (size_written timeout : ℕ)
    → is_open u.data_sfd ≡ true
    → size ≤ length data'
    → Safely
        (gb_tcp_write_b u 0 size data' size_written timeout)
        (λ (s, n, u'). Written u size data' size_written s n u')
unfolding gb_tcp_write_b
gb_tcp_write_b-Written u size data' size_written timeout fd room =
    rw (fd, le→leb size (length data') room)
      (Safely-bind (transfer false timeout u.net.writes u.net.polls (take size data') size []) _
        (Transferred (take size data') [] size) _
        (transfer-Transferred false timeout u.net.writes u.net.polls (take size data') size [])
        (λ t h. record {
          got = t.got;
          front = taken_front t.got t.left_over data' size h.in_order (omega (arith, h.at_most));
          sent_behind = refl;
          at_most = omega (arith, h.at_most);
          reported = report t.status (length t.got) size size_written (omega (arith, h.at_most));
          same_fds = (refl, refl);
          same_network = (refl, refl, refl);
        }))

-- Where all bytes asked for have arrived, the socket gives them in pieces before any error, and each
-- wait ends in time with a socket that is ready, a blocking read with a timeout ends as a success
-- with exactly those bytes at the front of the array, and leaves the others waiting.
pub gb_tcp_read_b-AreReady :
    (u : Tcp) (size : ℕ) (data' : List ℕ) (size_read timeout : ℕ) (times : List ℕ)
    → is_open u.data_sfd ≡ true
    → 0 < size
    → size ≤ length data'
    → size ≤ length u.net.pending
    → 0 < timeout
    → timeout < 2 ^ 31
    → AreReady size u.net.reads
    → ArePrompt timeout u.net.reads times u.net.polls
    → (v : Tcp) × (gb_tcp_read_b u 0 size data' size_read timeout
        ≡ done (ok, take size u.net.pending ++ drop size data', size, v))
      × (v.net.pending ≡ drop size u.net.pending)
unfolding gb_tcp_read_b
gb_tcp_read_b-AreReady u size data' size_read timeout times fd pos room there some_time small r
      prompt =
    let (answers, polls, e) =
      transfer-AreReady true timeout some_time small u.net.reads times u.net.polls size size
        u.net.pending [] pos there (omega arith) r prompt in
    let len : length (take size u.net.pending) ≡ size =
      omega (arith, length-take size u.net.pending) in
    let copy = memcpy-front data' (take size u.net.pending) (omega arith) in
    let all : (size == size) ≡ true = ground arith in
    (
      record u {
        net = record (u.net) { pending = drop size u.net.pending; reads = answers; polls = polls };
      },
      rw (fd, e, copy, len, all) refl,
      refl,
    )

-- A channel other than 0 is refused.
pub gb_tcp_read_b_other :
    (u : Tcp) (c size : ℕ) (data' : List ℕ) (size_read timeout : ℕ)
    → gb_tcp_read_b u (suc c) size data' size_read timeout ≡ done (failed, data', size_read, u)
unfolding gb_tcp_read_b
gb_tcp_read_b_other u c size data' size_read timeout =
    let other : (suc c == 0) ≡ false = ground arith in rw other refl

pub gb_tcp_write_b_other :
    (u : Tcp) (c size : ℕ) (data' : List ℕ) (size_written timeout : ℕ)
    → gb_tcp_write_b u (suc c) size data' size_written timeout ≡ done (failed, size_written, u)
unfolding gb_tcp_write_b
gb_tcp_write_b_other u c size data' size_written timeout =
    let other : (suc c == 0) ≡ false = ground arith in rw other refl
