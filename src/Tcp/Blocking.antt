-- ===== src/Tcp/Blocking.antt =====
-- The blocking calls of the TCP backend. The bytes are collected and put into the caller's array at
-- the end; the code reads them into it piece by piece.
pub mod Laws
pub mod Ready
pub mod Calls
use demo_testbench.Base.{
  ℕ, ◌-◌, ◌==◌, ltb, leb, if◌then◌else◌, Bool, true, false, not, ◌&&◌, List, [], ◌∷◌, ◌++◌, length,
  take,
}
use demo_testbench.Base.{
  drop, Outcome, done, fault, hang, ◌>>=◌, Status, ok, failed, etimedout, is_ok,
}
use demo_testbench.Cbuf.{memcpy}
use demo_testbench.Glip.{Entry, Backend}
use demo_testbench.Glip.Options.{Number}
use demo_testbench.Tcp.{
  Answer, Net, Tcp, moved, is_broken, is_open, gb_tcp_open, gb_tcp_close, gb_tcp_logic_reset,
}
use demo_testbench.Tcp.{gb_tcp_read, gb_tcp_write, gb_tcp_get_channel_count, gb_tcp_get_fifo_width}
use demo_testbench.Tcp.Wait.{Poll, WaitEnd, ready, over, broken_wait, wait_for}

-- What a loop leaves: a status, the bytes moved, the bytes not moved, and the answers to come.
pub record Moved : Type 0 where
  pub status : Status
  pub got : List ℕ
  pub left_over : List ℕ
  pub answers : List Answer
  pub polls : List Poll

abbrev pub moved_so_far : Status → List ℕ → List ℕ → List Answer → List Poll → Moved
moved_so_far s got left_over answers polls = record {
  status = s;
  got = got;
  left_over = left_over;
  answers = answers;
  polls = polls;
}

-- After a wait: go on, or end.
pub after_wait :
    WaitEnd × List Poll → (List Poll → Outcome Moved) → (Status → List Poll → Moved) → Outcome Moved
after_wait (ready, ps) go end = go ps
after_wait (over, ps) go end = done (end ok ps)
after_wait (broken_wait, ps) go end = done (end failed ps)

-- The loop of `gb_tcp_read_b`, and of `gb_tcp_write_b`: `left` bytes are to go, `source` is what
-- they are taken from, and `got` has those moved so far.
pub transfer : Bool → ℕ → List Answer → List Poll → List ℕ → ℕ → List ℕ → Outcome Moved
unfolding after_wait
transfer reading timeout [] polls source left got = hang
transfer reading timeout (a ∷ as') polls source left got =
    let new = take (moved a left) source in
    let source' = drop (moved a left) source in
    let rest = λ (ps : List Poll).
      transfer reading timeout as' ps source' (left - length new) (got ++ new) in
    if is_broken a
    then done (moved_so_far failed got source as' polls)
    else if not (length new == left) && ltb 0 timeout
    then (wait_for reading timeout polls >>= λ w.
        after_wait w rest (λ s ps. moved_so_far s (got ++ new) source' as' ps))
    else if length new == left
    then done (moved_so_far ok (got ++ new) source' as' polls)
    else rest polls

-- The status of a call that has moved `n` bytes of `size`.
abbrev pub final_status : Status → ℕ → ℕ → Status
final_status s n size = if is_ok s then (if n == size then ok else etimedout) else failed

pub gb_tcp_read_b : Tcp → ℕ → ℕ → List ℕ → ℕ → ℕ → Outcome (Status × List ℕ × ℕ × Tcp)
gb_tcp_read_b u channel size data' size_read timeout =
    if (channel == 0) && is_open u.data_sfd
    then (transfer true timeout u.net.reads u.net.polls u.net.pending size [] >>= λ t.
        memcpy data' 0 t.got 0 (length t.got) >>= λ out. done (
          final_status t.status (length t.got) size,
          out,
          if is_ok t.status then length t.got else size_read,
          record u {
            net = record (u.net) { pending = t.left_over; reads = t.answers; polls = t.polls };
          },
        ))
    else done (failed, data', size_read, u)

pub gb_tcp_write_b : Tcp → ℕ → ℕ → List ℕ → ℕ → ℕ → Outcome (Status × ℕ × Tcp)
gb_tcp_write_b u channel size data' size_written timeout =
    if (channel == 0) && is_open u.data_sfd
    then if leb size (length data')
      then (transfer false timeout u.net.writes u.net.polls (take size data') size [] >>= λ t.
          done (
            final_status t.status (length t.got) size,
            if is_ok t.status then length t.got else size_written,
            record u {
              net = record (u.net) {
                sent = u.net.sent ++ t.got;
                writes = t.answers;
                polls = t.polls;
              };
            },
          ))
      else fault
    else done (failed, size_written, u)

-- The functions that `gb_tcp_new` sets.
unfoldable pub tcp_functions : (List ℕ → Number) → Backend Tcp
tcp_functions strtoul = record {
  open_b = λ os u n. done (gb_tcp_open strtoul os u n);
  close_b = λ u. done (gb_tcp_close u);
  logic_reset = gb_tcp_logic_reset;
  read = gb_tcp_read;
  read_b = gb_tcp_read_b;
  write = gb_tcp_write;
  write_b = gb_tcp_write_b;
  get_channel_count = gb_tcp_get_channel_count;
  get_fifo_width = gb_tcp_get_fifo_width;
}
