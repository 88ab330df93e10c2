-- ===== src/Cbuf/Contents.antt =====
-- The bytes that a ring holds, oldest first, and what a move of either pointer does to them.
use demo_testbench.Base.{ℕ, ◌+◌, ◌-◌, ◌*◌, ◌≤◌, ◌<◌, ltb, if◌then◌else◌, arith, ◌≡◌, ap}
use demo_testbench.Base.{
  List, ◌++◌, length, get_or, take, drop, tabulate, length-tabulate, length-append,
}
use demo_testbench.Base.{length-take, length-drop, get_or-tabulate, get_or-append, get_or-take}
use demo_testbench.Base.{get_or-drop, get_or_ext}
use demo_testbench.Cbuf.{Cbuf, ptr_add}
use demo_testbench.Cbuf.Valid.{IsValid, wrap, ahead, size_pos, ptr_add_lem}
use demo_testbench.Cbuf.Copy.{IsWritten, IsTaken, behind}

-- `n` cells from `start` on, going round at `size`.
abbrev pub window : List ℕ → ℕ → ℕ → ℕ → List ℕ
window mem size start n = tabulate n (λ i. get_or mem (wrap size (start + i)) 0)

abbrev pub contents : Cbuf → List ℕ
contents b = window b.bytes b.size (wrap b.size b.rd_ptr) (ahead b.size b.wr_ptr b.rd_ptr)

module _ (mem : List ℕ) (size start : ℕ) where
  pub get_or-window :
      (n i : ℕ)
      → i < n
      → get_or (window mem size start n) i 0 ≡ get_or mem (wrap size (start + i)) 0
  get_or-window n i h = get_or-tabulate n (λ j. get_or mem (wrap size (start + j)) 0) i 0 h

  pub length-window : (n : ℕ) → length (window mem size start n) ≡ n
  length-window n = length-tabulate n (λ i. get_or mem (wrap size (start + i)) 0)

pub length-contents : (b : Cbuf) → length (contents b) ≡ ahead b.size b.wr_ptr b.rd_ptr
length-contents b = length-window b.bytes b.size (wrap b.size b.rd_ptr) _

-- A cell behind the write position holds what it held, one past it the byte written there.
window-cell :
    (mem src out : List ℕ) (size start level n i : ℕ)
    → start < size
    → level + n ≤ size
    → i < level + n
    → let at = wrap size (start + level) in
      let j = wrap size (start + i) in
      get_or out j 0
        ≡ (if ltb (behind size at j) n then get_or src (behind size at j) 0 else get_or mem j 0)
      → get_or out (wrap size (start + i)) 0
        ≡ (if ltb i level then get_or mem (wrap size (start + i)) 0 else get_or src (i - level) 0)
window-cell mem src out size start level n i h1 h2 h3 c = ground arith

-- A write past the level leaves the contents, and puts the new bytes behind them.
pub window-IsWritten :
    (mem src out : List ℕ) (size start level m n : ℕ)
    → start < size
    → level + n ≤ size
    → m ≤ n
    → m ≤ length src
    → IsWritten mem size (wrap size (start + level)) src n out
    → window out size start (level + m) ≡ window mem size start level ++ take m src
window-IsWritten mem src out size start level m n h1 h2 h3 h4 w =
    get_or_ext 0 _ _
      (omega (
        arith,
        length-window out size start (level + m),
        length-append (window mem size start level) (take m src),
        length-window mem size start level,
        length-take m src,
      ))
      cells
  where
    cells :
        (i : ℕ)
        → i < length (window out size start (level + m))
        → get_or (window out size start (level + m)) i 0
          ≡ get_or (window mem size start level ++ take m src) i 0
    cells i h =
        let lt : i < level + m = omega (arith, length-window out size start (level + m)) in
        rw
          (
            get_or-window out size start (level + m) i lt,
            window-cell mem src out size start level n i h1 h2 (omega arith)
                (w.cell (wrap size (start + i)) (ground arith)),
            get_or-append (window mem size start level) (take m src) i 0,
            length-window mem size start level,
            get_or-take m src (i - level) 0,
          )
          (ground (arith, get_or-window mem size start level i))

-- The bytes that remain when `n` are taken from the front.
pub window-drop :
    (mem : List ℕ) (size start level n : ℕ)
    → start < size
    → n ≤ level
    → level ≤ size
    → window mem size (wrap size (start + n)) (level - n) ≡ drop n (window mem size start level)
window-drop mem size start level n h1 h2 h3 =
    get_or_ext 0 _ _
      (omega (
        arith,
        length-window mem size (wrap size (start + n)) (level - n),
        length-drop n (window mem size start level),
        length-window mem size start level,
      ))
      cells
  where
    cells :
        (i : ℕ)
        → i < length (window mem size (wrap size (start + n)) (level - n))
        → get_or (window mem size (wrap size (start + n)) (level - n)) i 0
          ≡ get_or (drop n (window mem size start level)) i 0
    cells i h =
        let lt : i < level - n =
          omega (arith, length-window mem size (wrap size (start + n)) (level - n)) in
        rw
          (
            get_or-window mem size (wrap size (start + n)) (level - n) i lt,
            get_or-drop n (window mem size start level) i 0,
            get_or-window mem size start level (n + i) (omega arith),
          )
          (ap (λ k. get_or mem k 0) (ground arith))

-- A copy out of the ring puts the first bytes of its contents before the rest of the array.
pub IsTaken-window :
    (mem dst out : List ℕ) (size start level n : ℕ)
    → n ≤ level
    → n ≤ length dst
    → IsTaken mem size start n dst out
    → out ≡ take n (window mem size start level) ++ drop n dst
IsTaken-window mem dst out size start level n h1 h2 t =
    get_or_ext 0 _ _
      (omega (
        arith,
        len,
        length-append (take n (window mem size start level)) (drop n dst),
        length-drop n dst,
        t.same_length,
      ))
      (λ i h.
        rw
          (
            get_or-append (take n (window mem size start level)) (drop n dst) i 0,
            len,
            get_or-take n (window mem size start level) i 0,
            get_or-drop n dst (i - n) 0,
            t.cell i,
          )
          (ground (arith, get_or-window mem size start level i)))
  where
    len : length (take n (window mem size start level)) ≡ n
    len =
        omega
          (arith, length-take n (window mem size start level), length-window mem size start level)

module _ {b : Cbuf} (v : IsValid b) where
  pub wrap-rd_ptr-lt : wrap b.size b.rd_ptr < b.size
  wrap-rd_ptr-lt = ground (arith, v.rd_in)

  -- The write position is the level past the read position.
  pub wrap-wr_ptr :
      wrap b.size b.wr_ptr ≡ wrap b.size (wrap b.size b.rd_ptr + ahead b.size b.wr_ptr b.rd_ptr)
  wrap-wr_ptr = ground (arith, v.rd_in, v.wr_in, v.level_in)

  -- Moving the write pointer on by `n` free cells adds `n` to the level.
  pub ahead-ptr_add_wr :
      (n : ℕ)
      → ahead b.size b.wr_ptr b.rd_ptr + n ≤ b.size
      → (ptr_add b b.wr_ptr n < 2 * b.size)
        × (ahead b.size (ptr_add b b.wr_ptr n) b.rd_ptr ≡ ahead b.size b.wr_ptr b.rd_ptr + n)
  ahead-ptr_add_wr n h =
      rw (ptr_add_lem v b.wr_ptr n v.wr_in (omega arith))
        (ground (arith, v.rd_in, v.wr_in, size_pos v))

  -- Moving the read pointer on by `n` filled cells takes `n` off the level.
  pub ahead-ptr_add_rd :
      (n : ℕ)
      → n ≤ ahead b.size b.wr_ptr b.rd_ptr
      → (ptr_add b b.rd_ptr n < 2 * b.size)
        × (ahead b.size b.wr_ptr (ptr_add b b.rd_ptr n) ≡ ahead b.size b.wr_ptr b.rd_ptr - n)
        × (wrap b.size (ptr_add b b.rd_ptr n) ≡ wrap b.size (wrap b.size b.rd_ptr + n))
  ahead-ptr_add_rd n h =
      rw (ptr_add_lem v b.rd_ptr n v.rd_in (omega (arith, v.level_in)))
        (ground (arith, v.rd_in, v.wr_in, v.level_in, size_pos v))
