-- ===== src/Jtag/Thread.antt =====
-- The communication thread, `poll_thread`: a pass of its loop. `scan` gives what the target answers to
-- a request; it stands for OpenOCD and the target behind `jtag_drscan`.
pub mod Laws
pub mod Pass
use demo_testbench.Base.{
  ℕ, zero, suc, List, length, Option, none, some, Outcome, done, hang, ◌>>=◌, ◌>>◌, Status, enomem,
}
use demo_testbench.Base.{ok, failed, is_ok, if◌then◌else◌}
use demo_testbench.Jtag.{
  Jtag, calc_payload_len, build_jtag_req, parse_jtag_resp, adjust_wanted, grow_buf,
}

-- A request is built again, in a larger block, as long as the block is too small.
pub retry_or_end :
    Status × List ℕ × Jtag
    → ℕ
    → (Jtag → Outcome (Status × List ℕ × ℕ × Jtag))
    → Outcome (Status × List ℕ × ℕ × Jtag)
retry_or_end (enomem, req, u) size again = again u
retry_or_end (s, req, u) size again = done (s, req, size, u)

module _ (realloc : Option (List ℕ) → ℕ → Option (List ℕ)) where
  -- The inner loop, with the size of the blocks for request and response. The memory for these is
  -- taken to be given.
  pub build_loop : ℕ → Jtag → ℕ → ℕ → ℕ → Outcome (Status × List ℕ × ℕ × Jtag)
  unfolding retry_or_end
  build_loop zero u wr_words rd_words size = hang
  build_loop (suc fuel) u wr_words rd_words size = do
    built ← build_jtag_req realloc u wr_words rd_words size
    retry_or_end built size (λ u'. build_loop fuel u' wr_words rd_words (grow_buf size))

  module _ (scan : List ℕ → Option (List ℕ)) where
    -- What the thread does with the answer to a request: the number of words wanted next.
    pub take_answer : Option (List ℕ) → Jtag → ℕ → ℕ → ℕ → ℕ → ℕ → Outcome (Option (ℕ × Jtag))
    take_answer none u transfer_size min_wanted wanted wr_words rd_words = done none
    take_answer (some resp) u transfer_size min_wanted wanted wr_words rd_words = do
      (acked, received, u') ← parse_jtag_resp u resp transfer_size
      wanted' ← adjust_wanted u.target_word_width min_wanted wanted wr_words rd_words acked received
      done (some (wanted', u'))

    -- A pass of the outer loop; `none` where it ends the thread.
    pub thread_step : ℕ → Jtag → ℕ → ℕ → ℕ → Outcome (Option (ℕ × Jtag) × ℕ)
    unfolding take_answer
    thread_step fuel u min_wanted wanted size = do
      (payload, wr_words, rd_words) ← calc_payload_len u wanted
      (s, req, size', u') ← build_loop fuel u wr_words rd_words size
      if is_ok s
          then (take_answer (scan req) u' (length req) min_wanted wanted wr_words rd_words
              >>= λ next. done (next, size'))
          else done (none, size')
