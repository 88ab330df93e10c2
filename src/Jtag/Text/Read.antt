-- ===== src/Jtag/Text/Read.antt =====
-- `jtag_drscan_read`: the text that arrives in chunks, and the fields in it. The memory that
-- `malloc` and `realloc` give is taken to be given, and to hold zeros.
pub mod Laws
pub mod Reply
mod Tests
use demo_testbench.Base.{
  ℕ, zero, suc, ◌+◌, ◌-◌, ◌*◌, ◌/◌, ◌%◌, ◌^◌, ◌==◌, ltb, leb, if◌then◌else◌, ◌||◌, List, [], ◌∷◌,
  ◌++◌, length, take, drop,
}
use demo_testbench.Base.{
  Bool, true, false, tabulate, Option, none, some, Outcome, done, fault, hang, ◌>>=◌, ◌>>◌,
  assert_that, Status, ok, failed,
}
use demo_testbench.Cbuf.{memcpy}
use demo_testbench.Jtag.{grow_buf}
use demo_testbench.Jtag.Text.{hexstring_to_binarray_le}

-- What a `read` of the socket gives: one or more characters, and never more than there is room for,
-- the end, an error, or nothing yet (`EAGAIN`).
pub data Chunk : Type 0 where
  got : List ℕ → Chunk
  at_end broken try_again : Chunk

-- The buffer, the positions in it, and the response.
pub record Fields : Type 0 where
  pub buf : List ℕ
  pub buf_pos : ℕ
  pub field_start : ℕ
  pub field_end : ℕ
  pub resp : List ℕ
  pub resp_pos : ℕ

abbrev pub is_separator : ℕ → Bool
is_separator c = (c == 32) || (c == 26)

-- A difference of two numbers of type `unsigned int`.
abbrev pub sub_uint : ℕ → ℕ → ℕ
sub_uint a b = (a + (2 ^ 32 - b)) % 2 ^ 32

-- Half of a number of type `int`, rounded towards 0, as an `unsigned int`.
abbrev pub half_int : ℕ → ℕ
half_int n = if ltb n (2 ^ 31) then n / 2 else 2 ^ 32 - (2 ^ 32 - n) / 2

module _ (strtol : List ℕ → ℕ) where
  -- The bytes of `n` characters of the buffer; a negative number of them gives none.
  pub field_bytes : Fields → ℕ → Outcome (List ℕ)
  field_bytes f n =
      if ltb n (2 ^ 31)
      then if leb (f.field_start + n) (length f.buf)
        then hexstring_to_binarray_le strtol (take n (drop f.field_start f.buf)) []
        else fault
      else assert_that (n % 2 == 0) >> done []

  -- The field that ends at the `at`-th character, for a response of `size` bytes.
  pub end_field : ℕ → ℕ → Fields → Outcome Fields
  unfolding field_bytes
  end_field size at f =
      let n = sub_uint at f.field_start in
      let resp_pos' = (f.resp_pos + half_int n) % 2 ^ 32 in
      assert_that (leb resp_pos' size)
      >> (field_bytes f n >>= λ xs. memcpy f.resp f.resp_pos xs 0 (length xs) >>= λ out.
          done (record f {
            field_start = (at + 1) % 2 ^ 32;
            field_end = at;
            resp = out;
            resp_pos = resp_pos';
          }))

  -- The next `n` characters, from the `at`-th on: whether the text is at its end, and the fields.
  pub scan_chars : ℕ → ℕ → ℕ → Fields → Outcome (Bool × Fields)
  unfolding end_field
  scan_chars size zero at f = done (false, f)
  scan_chars size (suc n) at f = elim (drop at f.buf) [
    | [] ↦ fault
    | c ∷ _ ↦ (if is_separator c then end_field size at f else done f) >>= λ f'.
        if c == 26 then done (true, f') else scan_chars size n (at + 1) f'
  ]

  -- Complete fields are removed from the buffer.
  pub remove_fields : ℕ → Fields → Outcome Fields
  remove_fields n f =
      if leb f.field_end (length f.buf)
      then done (record f {
        buf = drop f.field_end f.buf ++ drop (length f.buf - f.field_end) f.buf;
        buf_pos = sub_uint (f.buf_pos + n) f.field_end;
        field_start = sub_uint f.field_start f.field_end;
      })
      else fault

  -- The buffer grows if it is full.
  pub grown : Fields → Fields
  grown f =
      let size = length f.buf in
      if leb size f.buf_pos
      then record f { buf = f.buf ++ tabulate (grow_buf size - size) (λ i. 0) }
      else f

  -- The loop, on what the reads of the socket give.
  pub read_loop : ℕ → List Chunk → Fields → Outcome (Status × List ℕ)
  unfolding scan_chars remove_fields grown
  read_loop size [] f = hang
  read_loop size (at_end ∷ chunks) f = done (failed, f.resp)
  read_loop size (broken ∷ chunks) f = done (failed, f.resp)
  read_loop size (try_again ∷ chunks) f =
      remove_fields (2 ^ 32 - 1) (grown f) >>= read_loop size chunks
  read_loop size (got cs ∷ chunks) f =
      let g = grown f in
      let n = length cs in
      memcpy g.buf g.buf_pos cs 0 n >>= λ buf'.
      scan_chars size n g.buf_pos (record g { buf = buf' }) >>= λ (over, g').
      if over then done (ok, g'.resp) else (remove_fields n g' >>= read_loop size chunks)

  pub jtag_drscan_read : ℕ → List Chunk → List ℕ → Outcome (Status × List ℕ)
  unfolding read_loop
  jtag_drscan_read size chunks resp = read_loop size chunks (record {
    buf = tabulate 2048 (λ i. 0);
    buf_pos = 0;
    field_start = 0;
    field_end = 0;
    resp = resp;
    resp_pos = 0;
  })
