-- ===== src/Cbuf/Api.antt =====
-- The API mode of glip/src/cbuf.c (reserve and commit, peek): a pointer into the ring or to a
-- temporary buffer is handed out, and the caller reads or writes through it.
pub mod Grow
pub mod Reserve
pub mod Pieces
pub mod Commit
pub mod Peek
use demo_testbench.Base.{
  ℕ, zero, suc, ◌+◌, ◌/◌, ◌^◌, ltb, leb, ◌==◌, if◌then◌else◌, add_size, sub_size, int_size,
}
use demo_testbench.Base.{Option, none, some, List, length, take, drop, Bool, true, false, ◌&&◌}
use demo_testbench.Base.{Outcome, done, fault, ◌>>=◌, Status, ok, einval, enomem}
use demo_testbench.Cbuf.{Cbuf, memcpy, masked, ptr_add, fill_level, free_level}

-- A pointer handed out: `&buf->data[i]`, or to the start of a temporary buffer.
pub data Ptr : Type 0 where
  null : Ptr
  in_bytes : ℕ → Ptr
  in_read_tmp in_write_tmp : Ptr

-- The loop of `_cbuf_calc_bufsize`; a `size_t` is 0 after at most 64 halvings.
pub log2_loop : ℕ → ℕ → ℕ → ℕ
log2_loop zero size_tmp log2_size = log2_size
log2_loop (suc rounds) size_tmp log2_size =
    let rest = log2_loop rounds (size_tmp / 2) (log2_size + 1) in
    if size_tmp / 2 == 0 then log2_size else rest

-- `1 << n` in `int`, which is undefined from `n` = 31 on.
pub shift_one : ℕ → Outcome ℕ
shift_one n = if ltb n 31 then done (2 ^ n) else fault

pub calc_bufsize : ℕ → ℕ → Outcome ℕ
calc_bufsize size_req size_max = do
  pow_two ← shift_one (log2_loop 64 size_req 0 + 1)
  done (if ltb size_max pow_two then size_max else pow_two)

-- The size that a temporary buffer too small for `n` bytes gets: the hint if that is enough.
pub new_tmp_size : ℕ → ℕ → ℕ → Outcome ℕ
new_tmp_size hint n size = if leb n hint then done hint else calc_bufsize n size

-- `*data = buf->write_data_tmp` and `*data = buf->read_data_tmp`
pub write_tmp_ptr : Option (List ℕ) → Ptr
write_tmp_ptr none = null
write_tmp_ptr (some block) = in_write_tmp

-- `data == buf->write_data_tmp`
pub is_write_tmp : Ptr → Option (List ℕ) → Bool
is_write_tmp null none = true
is_write_tmp in_write_tmp (some block) = true
is_write_tmp _ _ = false

-- The end of `cbuf_reserve` after `realloc`.
pub reserved_tmp : Cbuf → Status × Option Ptr × Cbuf
reserved_tmp b = elim (b.write_data_tmp) [
  | none ↦ (enomem, none, b)
  | some block ↦ (ok, some in_write_tmp, b)
]

-- The two copies of `cbuf_peek` into its temporary buffer; `size_to_end` is an `int`. A null pointer there is returned as
-- an error only straight after a failed `realloc`, and is a fault otherwise.
pub fill_read_tmp : Cbuf → ℕ → Bool → Option (List ℕ) → Outcome (Status × Option Ptr × Cbuf)
fill_read_tmp b n grown none = if grown then done (enomem, none, b) else fault
fill_read_tmp b n grown (some block) = do
  let at = masked b b.rd_ptr
  let size_to_end = int_size (sub_size b.size at)
  front ← memcpy block 0 b.bytes at size_to_end
  whole ← memcpy front size_to_end b.bytes 0 (sub_size n size_to_end)
  done (ok, some in_read_tmp, record b { read_data_tmp = some whole })

-- `realloc` is the C library's: `none` is a failure.
module _ (realloc : Option (List ℕ) → ℕ → Option (List ℕ)) where
  -- `cbuf_reserve` where a wrap occurs. The size field is set before `realloc` is tried.
  pub reserve_tmp : Cbuf → ℕ → Outcome (Status × Option Ptr × Cbuf)
  unfolding write_tmp_ptr reserved_tmp
  reserve_tmp b n =
      if ltb b.write_data_tmp_size n
      then (do
        new_size ← new_tmp_size b.hint_max_write_size n b.size
        done (
            reserved_tmp (record b {
              write_data_tmp_size = new_size;
              write_data_tmp = realloc b.write_data_tmp new_size;
            })))
      else done (ok, some (write_tmp_ptr b.write_data_tmp), b)

  pub reserve : Cbuf → ℕ → Outcome (Status × Option Ptr × Cbuf)
  reserve b n =
      let at = masked b b.wr_ptr in
      if ltb (free_level b) n
      then done (einval, none, b)
      else if leb (add_size at n) b.size
      then done (ok, some (in_bytes at), b)
      else reserve_tmp b n

  -- The temporary buffer of `cbuf_peek` and its size, made large enough for `n` bytes.
  pub grow_read_tmp : Cbuf → ℕ → Outcome Cbuf
  grow_read_tmp b n =
      if ltb b.read_data_tmp_size n
      then (do
        new_size ← new_tmp_size b.hint_max_read_size n b.size
        done (record b {
          read_data_tmp_size = new_size;
          read_data_tmp = realloc b.read_data_tmp new_size;
        }))
      else done b

  -- `cbuf_peek`; with `n` = 0 it leaves the caller's pointer as it was.
  pub peek : Cbuf → ℕ → Outcome (Status × Option Ptr × Cbuf)
  peek b n =
      let at = masked b b.rd_ptr in
      if n == 0
      then done (ok, none, b)
      else if ltb (fill_level b) n
      then done (einval, none, b)
      else if leb (add_size at n) b.size
      then done (ok, some (in_bytes at), b)
      else do
        b' ← grow_read_tmp b n
        fill_read_tmp b' n (ltb b.read_data_tmp_size n) b'.read_data_tmp

-- The copy of `cbuf_commit` from the temporary buffer: always up to the end of the array.
pub commit_tmp : Cbuf → Option (List ℕ) → ℕ → Outcome (List ℕ)
commit_tmp b none n = fault
commit_tmp b (some block) n = do
  let at = masked b b.wr_ptr
  let size_at_end = sub_size b.size at
  front ← memcpy b.bytes at block 0 size_at_end
  if ltb size_at_end n
      then memcpy front 0 block size_at_end (sub_size n size_at_end)
      else done front

pub commit : Cbuf → Ptr → ℕ → Outcome (Status × Cbuf)
unfolding is_write_tmp
commit b ptr n = if n == 0 then done (ok, b) else do
  bytes' ←
      (if is_write_tmp ptr b.write_data_tmp then commit_tmp b b.write_data_tmp n else done b.bytes)
  done (ok, record b { bytes = bytes'; wr_ptr = ptr_add b b.wr_ptr n })

-- What the caller does with a pointer handed out: write `xs` through it, or read `n` bytes.
pub store : Cbuf → Ptr → List ℕ → Outcome Cbuf
store b (in_bytes at) xs = do
  bytes' ← memcpy b.bytes at xs 0 (length xs)
  done (record b { bytes = bytes' })
store b in_write_tmp xs = elim (b.write_data_tmp) [
  | none ↦ fault
  | some block ↦
      memcpy block 0 xs 0 (length xs) >>= λ block'. done (record b { write_data_tmp = some block' })
]
store b _ xs = fault

load_from : List ℕ → ℕ → ℕ → Outcome (List ℕ)
load_from block at n = if leb (at + n) (length block) then done (take n (drop at block)) else fault

pub load : Cbuf → Ptr → ℕ → Outcome (List ℕ)
unfolding load_from
load b (in_bytes at) n = load_from b.bytes at n
load b in_read_tmp n = elim (b.read_data_tmp) [ none ↦ fault | some block ↦ load_from block 0 n ]
load b _ n = fault
