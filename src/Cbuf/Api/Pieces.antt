-- ===== src/Cbuf/Api/Pieces.antt =====
-- The memory after `cbuf_commit`, and the ring that it makes.
use demo_testbench.Base.{ℕ, ◌+◌, ◌-◌, ◌≤◌, ◌<◌, ltb, leb, if◌then◌else◌, sub_size}
use demo_testbench.Base.{
  Option, some, List, ◌++◌, length, take, splice, get_or, Bool-cases, inl, inr,
}
use demo_testbench.Base.{done, ◌≡◌, refl, ◌∙◌, arith, ◌&&◌}
use demo_testbench.Base.{ltb→lt}
use demo_testbench.Cbuf.{Cbuf, ptr_add}
use demo_testbench.Cbuf.Valid.{IsValid, TmpFits, wrap, ahead, masked_lem, ptr_add_lem}
use demo_testbench.Cbuf.Copy.{IsWritten, behind, Copied, memcpy-Copied}
use demo_testbench.Cbuf.Contents.{
  contents, window-IsWritten, wrap-rd_ptr-lt, wrap-wr_ptr, ahead-ptr_add_wr,
}
use demo_testbench.Cbuf.Api.{commit_tmp}

-- The ring after a commit of `m` bytes, whose memory was written for `k` of them.
module _ {b : Cbuf} (v : IsValid b) where
  pub committed :
      (tmp : Option (List ℕ)) (tmp_size : ℕ) (src out : List ℕ) (m k : ℕ)
      → TmpFits tmp_size tmp
      → IsWritten b.bytes b.size (wrap b.size b.wr_ptr) src k out
      → m ≤ k
      → m ≤ length src
      → ahead b.size b.wr_ptr b.rd_ptr + k ≤ b.size
      → let b3 = record b {
        write_data_tmp_size = tmp_size;
        write_data_tmp = tmp;
        bytes = out;
        wr_ptr = ptr_add b b.wr_ptr m;
      } in
        (contents b3 ≡ contents b ++ take m src) × IsValid b3
  committed tmp tmp_size src out m k fits w le hs room =
      let at = wrap-wr_ptr v in
      let moved = ahead-ptr_add_wr v m (omega arith) in
      (
        rw moved.1 (
            window-IsWritten b.bytes src out b.size (wrap b.size b.rd_ptr)
              (ahead b.size b.wr_ptr b.rd_ptr) m k (wrap-rd_ptr-lt v) room le hs (rw at at w)),
        record {
          log_size = v.log_size;
          is_power = v.is_power;
          small = v.small;
          allocated = w.same_length ∙ v.allocated;
          wr_in = moved.0;
          rd_in = v.rd_in;
          level_in = omega (arith, moved.1);
          read_tmp = v.read_tmp;
          write_tmp = fits;
        },
      )

  pub ptr_add-zero : ptr_add b b.wr_ptr 0 ≡ b.wr_ptr
  ptr_add-zero = ptr_add_lem v b.wr_ptr 0 v.wr_in (omega arith) ∙ ground (arith, v.wr_in)

-- A copy that does not reach the end of the ring, as a write on the circle.
pub Copied-IsWritten :
    (mem src out : List ℕ) (size at n : ℕ)
    → at + n ≤ size
    → Copied mem at src 0 n out
    → IsWritten mem size at src n out
Copied-IsWritten mem src out size at n h c = record {
  same_length = c.same_length;
  cell = λ j lt. ground (arith, c.cell j);
}

-- Two pieces, one to the end of the ring and one from its start, as one write on the circle.
written_in_two :
    (mem src front out : List ℕ) (size at n j : ℕ)
    → at < size
    → size < at + n
    → n ≤ size
    → j < size
    → get_or front j 0 ≡ (
        if leb at j && ltb j (at + (size - at))
        then get_or src (0 + (j - at)) 0
        else get_or mem j 0)
    → get_or out j 0 ≡ (
        if leb 0 j && ltb j (0 + (n - (size - at)))
        then get_or src (size - at + (j - 0)) 0
        else get_or front j 0)
    → get_or out j 0
      ≡ (if ltb (behind size at j) n then get_or src (behind size at j) 0 else get_or mem j 0)
written_in_two mem src front out size at n j h1 h2 h3 h4 c d = ground arith

-- The two copies of a commit from the temporary buffer, as one write on the circle: the part up
-- to the end of the array is always copied whole.
pub commit_tmp-IsWritten :
    {b : Cbuf} (block : List ℕ) (m n : ℕ)
    → IsValid b
    → n ≤ length block
    → b.size < wrap b.size b.wr_ptr + n
    → m ≤ n
    → n ≤ b.size
    → (out : List ℕ) × (k : ℕ) × (commit_tmp b (some block) m ≡ done out)
      × IsWritten b.bytes b.size (wrap b.size b.wr_ptr) block k out
      × (m ≤ k)
      × (k ≤ n)
unfolding commit_tmp
commit_tmp-IsWritten {b} block m n v hb wraps hm hn =
    rw (masked_lem v b.wr_ptr v.wr_in, end_lem, c.runs)
      (elim (Bool-cases (ltb size_at_end m)) [
        | inl more ↦
            let big : size_at_end < m = ltb→lt size_at_end m more in
            let d =
              memcpy-Copied front 0 block size_at_end (m - size_at_end)
                (omega (arith, c.same_length, v.allocated)) (omega arith) in
            let start : sub_size m size_at_end ≡ m - size_at_end = omega (arith, v.small) in
            (
              _,
              m,
              rw (more, start) d.runs,
              record {
                same_length = d.same_length ∙ c.same_length;
                cell = λ j h.
                    written_in_two b.bytes block front _ b.size at m j inside (omega arith)
                      (omega arith) h (c.cell j) (d.cell j);
              },
              omega arith,
              hm,
            )
        | inr less ↦
            let small : m ≤ size_at_end = ground (arith, less) in
            (
              front,
              size_at_end,
              rw less refl,
              Copied-IsWritten b.bytes block front b.size at size_at_end (omega (arith, inside)) c,
              small,
              omega arith,
            )
      ])
  where
    at : ℕ
    at = wrap b.size b.wr_ptr

    inside : at < b.size
    inside = ground (arith, v.wr_in)

    size_at_end : ℕ
    size_at_end = b.size - at

    end_lem : sub_size b.size at ≡ size_at_end
    end_lem = omega (arith, inside, v.small)

    front : List ℕ
    front = splice b.bytes at (take size_at_end block)

    c : Copied b.bytes at block 0 size_at_end front
    c =
        memcpy-Copied b.bytes at block 0 size_at_end (omega (arith, v.allocated, inside))
          (omega (arith, inside))
