-- ===== src/Cbuf/Api/Commit.antt =====
-- Bytes stored through a reserved pointer and `cbuf_commit`: together they append what was
-- committed.
use mathlib.Core.List.{append-nil}
use demo_testbench.Base.{sym, ℕ, zero, suc, ◌+◌, ◌^◌, ◌≤◌, ◌<◌, ◌==◌, if◌then◌else◌}
use demo_testbench.Base.{
  Option, some, List, ◌++◌, length, take, splice, false, Bool-cases, inl, inr,
}
use demo_testbench.Base.{done, ok, ◌≡◌, refl, ◌∙◌, ap, arith}
use demo_testbench.Base.{length-take, get_or-take, get_or_ext}
use demo_testbench.Cbuf.{Cbuf, ptr_add, free_level}
use demo_testbench.Cbuf.Valid.{IsValid, TmpFits, wrap, ahead, free_level_lem}
use demo_testbench.Cbuf.Copy.{Copied, memcpy-Copied}
use demo_testbench.Cbuf.Contents.{contents}
use demo_testbench.Cbuf.Api.{Ptr, in_bytes, in_write_tmp, reserve}
use demo_testbench.Cbuf.Api.{commit, commit_tmp, store}
use demo_testbench.Cbuf.Api.Reserve.{IsReserved, reserve-IsReserved}
use demo_testbench.Cbuf.Api.Pieces.{committed, ptr_add-zero, Copied-IsWritten, commit_tmp-IsWritten}

moved : Cbuf → ℕ → ℕ
moved b m = if m == 0 then b.wr_ptr else ptr_add b b.wr_ptr m

moved_lem : {b : Cbuf} (m : ℕ) → IsValid b → moved b m ≡ ptr_add b b.wr_ptr m
unfolding moved
moved_lem m v = ground (arith, ptr_add-zero v)

moved_same :
    (b : Cbuf) (tmp : Option (List ℕ)) (tmp_size : ℕ) (out : List ℕ) (m : ℕ)
    → moved (record b { write_data_tmp_size = tmp_size; write_data_tmp = tmp; bytes = out }) m
      ≡ moved b m
unfolding moved ptr_add
moved_same b tmp tmp_size out m = refl

commit_in_bytes :
    (b : Cbuf) (at m : ℕ) → commit b (in_bytes at) m ≡ done (ok, record b { wr_ptr = moved b m })
unfolding commit moved
commit_in_bytes b at m = elim (Bool-cases (m == 0)) [ inl e ↦ rw e refl | inr e ↦ rw e refl ]

-- A store through a pointer into the ring itself, and a commit of its first `m` bytes.
commit-store_direct :
    {b : Cbuf} (tmp : Option (List ℕ)) (tmp_size : ℕ) (xs : List ℕ) (m : ℕ)
    → IsValid b
    → TmpFits tmp_size tmp
    → wrap b.size b.wr_ptr + length xs ≤ b.size
    → ahead b.size b.wr_ptr b.rd_ptr + length xs ≤ b.size
    → m ≤ length xs
    → let b' = record b { write_data_tmp_size = tmp_size; write_data_tmp = tmp } in
      let ptr = in_bytes (wrap b.size b.wr_ptr) in
      (b2 : Cbuf) × (b3 : Cbuf) × (store b' ptr xs ≡ done b2)
      × (commit b2 ptr m ≡ done (ok, b3))
      × (contents b3 ≡ contents b ++ take m xs)
      × IsValid b3
      × (b3.size ≡ b.size)
unfolding store
commit-store_direct {b} tmp tmp_size xs m v fits end room hm =
    let at = wrap b.size b.wr_ptr in
    let out = splice b.bytes at (take (length xs) xs) in
    let c = memcpy-Copied b.bytes at xs 0 (length xs) (omega (arith, v.allocated)) (omega arith) in
    let w = Copied-IsWritten b.bytes xs out b.size at (length xs) end c in
    let (same, valid) = committed v tmp tmp_size xs out m (length xs) fits w hm hm room in
    let b2 = record b { write_data_tmp_size = tmp_size; write_data_tmp = tmp; bytes = out } in
    rw c.runs (
      b2,
      record b2 { wr_ptr = ptr_add b b.wr_ptr m },
      refl,
      commit_in_bytes b2 at m
          ∙ ap (λ p. done (ok, record b2 { wr_ptr = p }))
              (moved_same b tmp tmp_size out m ∙ moved_lem m v),
      same,
      valid,
      refl,
    )

ptr_add_same :
    (b : Cbuf) (tmp : Option (List ℕ)) (tmp_size m : ℕ)
    → ptr_add (record b { write_data_tmp_size = tmp_size; write_data_tmp = tmp }) b.wr_ptr m
      ≡ ptr_add b b.wr_ptr m
unfolding ptr_add
ptr_add_same b tmp tmp_size m = refl

tmp_replaced :
    {b : Cbuf} (v : IsValid b) (tmp : Option (List ℕ)) (tmp_size : ℕ)
    → TmpFits tmp_size tmp
    → IsValid (record b { write_data_tmp_size = tmp_size; write_data_tmp = tmp })
tmp_replaced v tmp tmp_size fits = record {
  log_size = v.log_size;
  is_power = v.is_power;
  small = v.small;
  allocated = v.allocated;
  wr_in = v.wr_in;
  rd_in = v.rd_in;
  level_in = v.level_in;
  read_tmp = v.read_tmp;
  write_tmp = fits;
}

-- The ring does not move when the temporary buffer changes.
commit_tmp_same :
    (b : Cbuf) (tmp : Option (List ℕ)) (tmp_size : ℕ) (block : List ℕ) (m : ℕ)
    → commit_tmp (record b { write_data_tmp_size = tmp_size; write_data_tmp = tmp }) (some block) m
      ≡ commit_tmp b (some block) m
unfolding commit_tmp
commit_tmp_same b tmp tmp_size block m = refl

commit_in_write_tmp :
    (b : Cbuf) (block out : List ℕ) (m : ℕ)
    → 0 < m
    → b.write_data_tmp ≡ some block
    → commit_tmp b (some block) m ≡ done out
    → commit b in_write_tmp m ≡ done (ok, record b { bytes = out; wr_ptr = ptr_add b b.wr_ptr m })
unfolding commit commit_tmp ptr_add
commit_in_write_tmp b block out m h e runs =
    let nonzero : (m == 0) ≡ false = ground arith in rw (nonzero, e, runs) refl

commit_none : (b : Cbuf) (ptr : Ptr) → commit b ptr 0 ≡ done (ok, b)
unfolding commit
commit_none b ptr = refl

-- The bytes stored in the temporary buffer are its first.
take-stored :
    (block xs block' : List ℕ) (m : ℕ)
    → length xs ≤ length block
    → m ≤ length xs
    → Copied block 0 xs 0 (length xs) block'
    → take m block' ≡ take m xs
take-stored block xs block' m hx hm c =
    get_or_ext 0 _ _ (omega (arith, length-take m block', length-take m xs, c.same_length)) (λ i h.
      rw (get_or-take m block' i 0, get_or-take m xs i 0, c.cell i)
        (ground (arith, length-take m block')))

-- A store through a pointer to the temporary buffer, and a commit of its first `m` bytes.
commit-store_tmp :
    {b : Cbuf} (block : List ℕ) (tmp_size n : ℕ) (xs : List ℕ) (m : ℕ)
    → IsValid b
    → length block ≡ tmp_size
    → n ≤ length block
    → b.size < wrap b.size b.wr_ptr + n
    → ahead b.size b.wr_ptr b.rd_ptr + n ≤ b.size
    → length xs ≤ n
    → m ≤ length xs
    → let b' = record b { write_data_tmp_size = tmp_size; write_data_tmp = some block } in
      (b2 : Cbuf) × (b3 : Cbuf) × (store b' in_write_tmp xs ≡ done b2)
      × (commit b2 in_write_tmp m ≡ done (ok, b3))
      × (contents b3 ≡ contents b ++ take m xs)
      × IsValid b3
      × (b3.size ≡ b.size)
unfolding store
commit-store_tmp {b} block tmp_size n xs zero v fits hb wraps room hx hm =
    let block' = splice block 0 (take (length xs) xs) in
    let s = memcpy-Copied block 0 xs 0 (length xs) (omega arith) (omega arith) in
    let b2 = record b { write_data_tmp_size = tmp_size; write_data_tmp = some block' } in
    rw s.runs (
      b2,
      b2,
      refl,
      commit_none b2 in_write_tmp,
      sym (append-nil (contents b)),
      tmp_replaced v (some block') tmp_size (s.same_length ∙ fits),
      refl,
    )
commit-store_tmp {b} block tmp_size n xs (suc m) v fits hb wraps room hx hm =
    let block' = splice block 0 (take (length xs) xs) in
    let s = memcpy-Copied block 0 xs 0 (length xs) (omega arith) (omega arith) in
    let same = take-stored block xs block' (suc m) (omega arith) hm s in
    let (out, k, runs, w, mk, kn) =
      commit_tmp-IsWritten block' (suc m) n v (omega (arith, s.same_length)) wraps (omega arith)
        (omega arith) in
    let (all, valid) =
      committed v (some block') tmp_size block' out (suc m) k (s.same_length ∙ fits) w mk
        (omega (arith, s.same_length)) (omega arith) in
    let b2 = record b { write_data_tmp_size = tmp_size; write_data_tmp = some block' } in
    rw s.runs (
      b2,
      record b2 { bytes = out; wr_ptr = ptr_add b b.wr_ptr (suc m) },
      refl,
      commit_in_write_tmp b2 block' out (suc m) (omega arith) refl
            (commit_tmp_same b (some block') tmp_size block' (suc m) ∙ runs)
          ∙ ap (λ p. done (ok, record b2 { bytes = out; wr_ptr = p }))
              (ptr_add_same b (some block') tmp_size (suc m)),
      all ∙ ap (λ t. contents b ++ t) same,
      valid,
      refl,
    )

-- Both kinds of pointer.
commit-store_reserved :
    (b : Cbuf) (n : ℕ) (ptr : Ptr) (b1 : Cbuf) (xs : List ℕ) (m : ℕ)
    → IsValid b
    → ahead b.size b.wr_ptr b.rd_ptr + n ≤ b.size
    → IsReserved b ptr n b1
    → length xs ≤ n
    → m ≤ length xs
    → (b2 : Cbuf) × (b3 : Cbuf) × (store b1 ptr xs ≡ done b2)
      × (commit b2 ptr m ≡ done (ok, b3))
      × (contents b3 ≡ contents b ++ take m xs)
      × IsValid b3
      × (b3.size ≡ b.size)
commit-store_reserved b n ptr b1 xs m v room r hx hm = elim (r.place) [
  | inl (e, end) ↦
      rw (e, r.ring)
        (commit-store_direct r.tmp r.tmp_size xs m v r.fits (omega arith) (omega arith) hm)
  | inr (block, e, at_tmp, hb, wraps) ↦
      rw (at_tmp, r.ring, e)
        (commit-store_tmp block r.tmp_size n xs m v (rw e at r.fits) hb wraps room hx hm)
]

-- On a valid ring, with an allocator that gives each block asked for: reserve n bytes, fewer than
-- 2^30 and no more than there is room for, store up to n of them through the pointer, and commit
-- the first m of those. Then the ring stays valid and holds its old contents with exactly the m
-- bytes behind them, also where the memory goes through the temporary buffer.
pub reserve-store-commit :
    (realloc : Option (List ℕ) → ℕ → Option (List ℕ))
    → ((tmp : Option (List ℕ)) (n : ℕ)
        → (block : List ℕ) × (realloc tmp n ≡ some block) × (length block ≡ n))
    → {b : Cbuf} (n : ℕ) (xs : List ℕ) (m : ℕ) → IsValid b
    → n < 2 ^ 30
    → n ≤ free_level b
    → length xs ≤ n
    → m ≤ length xs
    → (ptr : Ptr) × (b1 : Cbuf) × (b2 : Cbuf) × (b3 : Cbuf) × (reserve realloc b n
        ≡ done (ok, some ptr, b1))
      × (store b1 ptr xs ≡ done b2)
      × (commit b2 ptr m ≡ done (ok, b3))
      × (contents b3 ≡ contents b ++ take m xs)
      × IsValid b3
      × (b3.size ≡ b.size)
reserve-store-commit realloc gives {b} n xs m v small free hx hm =
    let (ptr, b1, runs, r) = reserve-IsReserved realloc gives n v small free in
    let room : ahead b.size b.wr_ptr b.rd_ptr + n ≤ b.size = omega (arith, free_level_lem v) in
    let (b2, b3, stored, committed, all, valid, same) =
      commit-store_reserved b n ptr b1 xs m v room r hx hm in
    (ptr, b1, b2, b3, runs, stored, committed, all, valid, same)
