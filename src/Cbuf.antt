-- ===== src/Cbuf.antt =====
-- The circular buffer, glip/src/cbuf.c: its state, the levels, and the basic mode (write, read,
-- discard). The API mode is in `Cbuf/Api`, what all of it promises in the other modules below.
pub mod Valid
pub mod Copy
pub mod Contents
pub mod Fifo
pub mod Api
pub mod Threads
pub mod Script
pub mod Tests
use demo_testbench.Base.{ℕ, ◌+◌, ◌-◌, ◌*◌, ◌%◌, ◌^◌, bit_and, bit_xor, ltb, leb, ◌==◌}
use demo_testbench.Base.{if◌then◌else◌, add_size, sub_size, int_size, Bool, true, false, not, ◌&&◌}
use demo_testbench.Base.{Option, none, some, List, [], length, take, drop, splice}
use demo_testbench.Base.{Outcome, done, fault, ◌>>=◌, ◌>>◌, assert_that, Status, ok, einval, enomem}

-- `struct cbuf` without its mutex and condition variable. A byte is only moved, never computed
-- with. `none` for a temporary buffer is the null pointer.
pub record Cbuf : Type 0 where
  pub wr_ptr : ℕ
  pub rd_ptr : ℕ
  pub size : ℕ
  pub bytes : List ℕ
  pub hint_max_read_size : ℕ
  pub read_data_tmp_size : ℕ
  pub read_data_tmp : Option (List ℕ)
  pub hint_max_write_size : ℕ
  pub write_data_tmp_size : ℕ
  pub write_data_tmp : Option (List ℕ)

-- `memcpy(&dst[to], &src[from], n)`; a copy that leaves either object is a fault.
unfoldable pub memcpy : List ℕ → ℕ → List ℕ → ℕ → ℕ → Outcome (List ℕ)
memcpy dst to src from n =
    if leb (to + n) (length dst) && leb (from + n) (length src)
    then done (splice dst to (take n (drop from src)))
    else fault

-- `x & (buf->size - 1)`
abbrev pub masked : Cbuf → ℕ → ℕ
masked b x = bit_and x (sub_size b.size 1)

pub ptr_add : Cbuf → ℕ → ℕ → ℕ
ptr_add b val1 val2 = bit_and (add_size val1 val2) (sub_size (2 * b.size % 2 ^ 64) 1)

pub is_empty : Cbuf → Bool
is_empty b = b.wr_ptr == b.rd_ptr

pub is_full : Cbuf → Bool
is_full b = b.wr_ptr == bit_xor b.rd_ptr b.size

-- The difference is taken in `size_t` and kept in an `ssize_t`, negative from 2 ^ 63 on.
abbrev pub masked_level : Cbuf → ℕ
masked_level b =
    let level = sub_size (masked b b.wr_ptr) (masked b b.rd_ptr) in
    if leb (2 ^ 63) level then add_size level b.size else level

unfoldable pub fill_level : Cbuf → ℕ
unfolding is_full
fill_level b = if is_full b then b.size else masked_level b

unfoldable pub free_level : Cbuf → ℕ
free_level b = sub_size b.size (fill_level b)

-- `cbuf_init` on the block that `calloc` gave for the buffer; `none` is a failure.
pub init_buffer : ℕ → Option (List ℕ) → Status × Option Cbuf
init_buffer size none = (enomem, none)
init_buffer size (some block) = (
  ok,
  some (record {
    wr_ptr = 0;
    rd_ptr = 0;
    size = size;
    bytes = block;
    hint_max_read_size = 0;
    read_data_tmp_size = 0;
    read_data_tmp = none;
    hint_max_write_size = 0;
    write_data_tmp_size = 0;
    write_data_tmp = none;
  }),
)

-- `cbuf_init`. `calloc` is the C library's, for the buffer; `have_struct` tells whether it
-- gave the struct.
pub init : (ℕ → Option (List ℕ)) → Bool → ℕ → Outcome (Status × Option Cbuf)
init calloc have_struct size = do
  assert_that (not (size == 0) && bit_and size (sub_size size 1) == 0)
  if have_struct then done (init_buffer size (calloc size)) else done (enomem, none)

pub set_hint_max_read_size : Cbuf → ℕ → Status × Cbuf
set_hint_max_read_size b hint = (ok, record b { hint_max_read_size = hint })

pub set_hint_max_write_size : Cbuf → ℕ → Status × Cbuf
set_hint_max_write_size b hint = (ok, record b { hint_max_write_size = hint })

-- The copy of `cbuf_write`, in one piece or split at the end of the array.
pub write_bytes : Cbuf → List ℕ → ℕ → Outcome (List ℕ)
write_bytes b data' n =
    let at = masked b b.wr_ptr in
    let size_at_end = sub_size b.size at in
    if leb (add_size at n) b.size then memcpy b.bytes at data' 0 n else do
      front ← memcpy b.bytes at data' 0 size_at_end
      memcpy front 0 data' size_at_end (sub_size n size_at_end)

pub write : Cbuf → List ℕ → ℕ → Outcome (Status × Cbuf)
write b data' n = if ltb (free_level b) n then done (einval, b) else do
  bytes' ← write_bytes b data' n
  done (ok, record b { bytes = bytes'; wr_ptr = ptr_add b b.wr_ptr n })

-- The copy of `cbuf_read` into the caller's array; `size_to_end` is an `int`.
pub read_bytes : Cbuf → List ℕ → ℕ → Outcome (List ℕ)
read_bytes b out n =
    let at = masked b b.rd_ptr in
    let size_to_end = int_size (sub_size b.size at) in
    if leb (add_size at n) b.size then memcpy out 0 b.bytes at n else do
      front ← memcpy out 0 b.bytes at size_to_end
      memcpy front size_to_end b.bytes 0 (sub_size n size_to_end)

-- `cbuf_read`; the list beside the status is the caller's array after the call.
pub read : Cbuf → List ℕ → ℕ → Outcome (Status × List ℕ × Cbuf)
read b out n =
    if n == 0
    then done (ok, out, b)
    else if ltb (fill_level b) n
    then done (einval, out, b)
    else do out' ← read_bytes b out n; done (ok, out', record b { rd_ptr = ptr_add b b.rd_ptr n })

pub discard : Cbuf → ℕ → Status × Cbuf
discard b n =
    if ltb (fill_level b) n then (einval, b) else (ok, record b { rd_ptr = ptr_add b b.rd_ptr n })
