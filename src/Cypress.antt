-- ===== src/Cypress.antt =====
-- The Cypress FX2 backend, glip/src/backend_cypressfx2/sw/backend_cypressfx2.c: its state, the client's
-- calls, and the passes of its two threads. libusb is outside: what a bulk transfer answers is a
-- parameter. The semaphores are counters.
pub mod Threads
pub mod Client
pub mod Devices
mod Tests
use demo_testbench.Base.{
  ℕ, ◌+◌, ◌-◌, ◌*◌, ◌/◌, ◌%◌, ◌^◌, ◌==◌, ltb, leb, not, ◌&&◌, if◌then◌else◌, List, [], ◌∷◌, length,
  take, drop,
}
use demo_testbench.Base.{
  Option, none, some, Bool, true, false, Outcome, done, fault, hang, ◌>>=◌, ◌>>◌, assert_that,
  Status, ok, failed, etimedout, is_ok,
}
use demo_testbench.Cbuf
use demo_testbench.Cbuf.{Cbuf, fill_level, free_level}
use demo_testbench.Cbuf.Api.{Ptr, reserve, store, commit, peek, load}
use demo_testbench.Waits.{Wake, wait_filled}

-- The fields of `struct glip_backend_ctx` that a session uses; `connected` is a handle that is not null.
pub record Cypress : Type 0 where
  pub connected : Bool
  pub write_buf : Cbuf
  pub read_buf : Cbuf
  pub write_notification_sem : ℕ
  pub read_notification_sem : ℕ

abbrev pub usb_transfer_packet_size_bytes : ℕ
usb_transfer_packet_size_bytes = 512

abbrev pub usb_max_packets_per_transfer : ℕ
usb_max_packets_per_transfer = 64

abbrev pub usb_buf_size : ℕ
usb_buf_size = 65536

abbrev pub gb_cypressfx2_get_fifo_width : Cypress → ℕ
gb_cypressfx2_get_fifo_width u = 2

pub gb_cypressfx2_get_channel_count : Cypress → ℕ
gb_cypressfx2_get_channel_count u = 1

-- `sem_getvalue`, and `sem_post` if the value is 0.
abbrev pub post_once : ℕ → ℕ
post_once sval = if sval == 0 then 1 else sval

-- What `libusb_control_transfer` answers is a number of type `int`, here whether it is below 0.
pub gb_cypressfx2_logic_reset : Cypress → Bool → Bool → Status
gb_cypressfx2_logic_reset u set_fails unset_fails =
    if not u.connected
    then failed
    else if set_fails
    then failed
    else if unset_fails
    then failed
    else ok

pub gb_cypressfx2_read : Cypress → ℕ → ℕ → List ℕ → ℕ → Outcome (Status × List ℕ × ℕ × Cypress)
gb_cypressfx2_read u channel size data' size_read =
    let level = fill_level u.read_buf in
    let n = if ltb level size then level else size in
    if not (channel == 0)
    then done (failed, data', size_read, u)
    else Cbuf.read u.read_buf data' n >>= λ (s, out, buf).
        let u' = record u { read_buf = buf } in
        if is_ok s
        then (if leb usb_transfer_packet_size_bytes (free_level buf)
            then done (
              ok,
              out,
              n,
              record u' { read_notification_sem = post_once u.read_notification_sem },
            )
            else done (ok, out, n, u'))
        else done (failed, out, size_read, u')

-- The free level goes through an `unsigned int`.
pub gb_cypressfx2_write : Cypress → ℕ → ℕ → List ℕ → ℕ → Outcome (Status × ℕ × Cypress)
gb_cypressfx2_write u channel size data' size_written =
    let buf_size_free = free_level u.write_buf % 2 ^ 32 in
    let n = if ltb buf_size_free size then buf_size_free else size in
    if not (channel == 0)
    then done (failed, size_written, u)
    else Cbuf.write u.write_buf data' n >>= λ (s, buf).
        let u' = record u { write_buf = buf } in
        if leb (usb_buf_size / 2) (fill_level buf)
        then done (ok, n, record u' { write_notification_sem = post_once u.write_notification_sem })
        else done (ok, n, u')

-- What the thread does while the call waits is `ws`. Which of the two waits is called depends on the
-- timeout.
pub gb_cypressfx2_read_b :
    Cypress → List Wake → ℕ → ℕ → List ℕ → ℕ → Outcome (Status × List ℕ × ℕ × Cypress × List Wake)
unfolding gb_cypressfx2_read
gb_cypressfx2_read_b u ws channel size data' size_read =
    if ltb usb_buf_size size
    then done (failed, data', size_read, u, ws)
    else wait_filled size ws u.read_buf >>= λ (buf, ws').
        gb_cypressfx2_read (record u { read_buf = buf }) channel size data' 0 >>= λ (s, out, n, u').
        done (if is_ok s && not (size == n) then etimedout else s, out, n, u', ws')

-- The loop of a blocking write, on the bytes that are left. After each round that leaves some, the
-- thread takes a number of bytes, whether the call waits (it does so if the ring is full, and does not
-- look at how the wait ends) or goes on at once.
pub write_rounds : List ℕ → Cypress → ℕ → List ℕ → Outcome (Cypress × List ℕ)
unfolding gb_cypressfx2_write
write_rounds [] u channel xs = gb_cypressfx2_write u channel (length xs) xs 0 >>= λ (s, n, u').
    if n == length xs then done (u', []) else hang
write_rounds (k ∷ ks) u channel xs =
    gb_cypressfx2_write u channel (length xs) xs 0 >>= λ (s, n, u').
    let rest =
      write_rounds ks (record u' { write_buf = (Cbuf.discard u'.write_buf k).1 }) channel
        (drop n xs) in
    if n == length xs then done (u', k ∷ ks) else rest

-- The caller's array has at least `size` bytes. The loop ends when none is left to write.
pub gb_cypressfx2_write_b :
    Cypress → List ℕ → ℕ → ℕ → List ℕ → Outcome (Status × ℕ × Cypress × List ℕ)
gb_cypressfx2_write_b u ks channel size data' =
    let xs = take size data' in
    if ltb (length data') size
    then fault
    else write_rounds ks u channel xs >>= λ (u', ks').
        done (if length xs == size then ok else etimedout, length xs, u', ks')

-- What a bulk transfer answers: success or a timeout, with the bytes that were moved, or an error, with
-- the number that libusb reports for it.
pub data Bulk : Type 0 where
  moved : ℕ → Bulk
  usb_error : ℕ → Bulk

-- The number of bytes that the writing thread transfers, of `level` bytes in the buffer.
pub transfer_len : Cypress → ℕ → ℕ
transfer_len u level =
    let num_packets = level / usb_transfer_packet_size_bytes in
    if leb usb_transfer_packet_size_bytes level
    then (if ltb usb_max_packets_per_transfer num_packets
        then usb_max_packets_per_transfer
        else num_packets)
      * usb_transfer_packet_size_bytes
    else level - level % gb_cypressfx2_get_fifo_width u

-- The bytes at the pointer that `cbuf_peek` has set, `n` of them; it sets none for 0 bytes.
abbrev pub load_transfer : Cbuf → Option Ptr → ℕ → Outcome (List ℕ)
load_transfer b none n = if n == 0 then done [] else fault
load_transfer b (some ptr) n = load b ptr n

-- How the writing thread ends a pass; a transfer moves at most the bytes that it is given.
abbrev pub end_write : Cypress → List ℕ → Bulk → Outcome (Cypress × List ℕ)
end_write u xs (usb_error n) = assert_that (n == 0) >> done (u, [])
end_write u xs (moved n) =
    done (record u { write_buf = (Cbuf.discard u.write_buf (length (take n xs))).1 }, take n xs)

-- The bytes that a transfer gives, stored at the pointer, and committed.
abbrev pub end_read : Cypress → Option Ptr → ℕ → List ℕ → Bulk → Outcome Cypress
end_read u ptr size device (usb_error n) = done u
end_read u none size device (moved n) = fault
end_read u (some ptr) size device (moved n) =
    let xs = take n (take size device) in
    store u.read_buf ptr xs >>= λ b.
    commit b ptr (length xs) >>= λ (s, b'). done (record u { read_buf = b' })

-- `realloc` is the C library's.
module _ (realloc : Option (List ℕ) → ℕ → Option (List ℕ)) where
  -- A pass of `usb_write_thread` after its wait, with the bytes that the device has got. The levels
  -- go through an `unsigned int`.
  pub usb_write_pass : Cypress → Bulk → Outcome (Cypress × List ℕ)
  unfolding transfer_len
  usb_write_pass u answer =
      let level = fill_level u.write_buf % 2 ^ 32 in
      let n = transfer_len u level in
      if level == 0
      then done (u, [])
      else assert_that (n % gb_cypressfx2_get_fifo_width u == 0)
        >> (peek realloc u.write_buf n >>= λ (s, ptr, b).
            assert_that (is_ok s)
            >> (load_transfer b ptr n >>= λ xs. end_write (record u { write_buf = b }) xs answer))

  -- A pass of `usb_read_thread` after its wait, with the bytes that the device offers.
  pub usb_read_pass : Cypress → List ℕ → Bulk → Outcome Cypress
  usb_read_pass u device answer =
      let num_packets = free_level u.read_buf % 2 ^ 32 / usb_transfer_packet_size_bytes in
      let buf_size =
        (if ltb usb_max_packets_per_transfer num_packets
          then usb_max_packets_per_transfer
          else num_packets)
        * usb_transfer_packet_size_bytes in
      if buf_size == 0
      then done u
      else reserve realloc u.read_buf buf_size >>= λ (s, ptr, b).
          end_read (record u { read_buf = b }) ptr buf_size device answer
