-- ===== src/Jtag/Client/Tests.antt =====
-- A client that asks for three bytes, of which two come before the wait ends, and a target that
-- tells its widths.
use demo_testbench.Base.{
  ◌==◌, min, not, if◌then◌else◌, take, drop, List, [], ◌∷◌, ◌++◌, length, ok, etimedout, some, done,
  hang, ◌≡◌, refl, ◌⊎◌, arith,
}
use demo_testbench.Cbuf.{Cbuf}
use demo_testbench.Cbuf.Valid.{IsValid}
use demo_testbench.Cbuf.Contents.{contents}
use demo_testbench.Jtag.Tests.{backend, empty_ring, empty_ring-IsValid}
use demo_testbench.Jtag.Client.{gb_jtag_read_b, control_words, set_targetconf, discover_targetconf}
use demo_testbench.Jtag.Client.Laws.{gb_jtag_read_b_lem}
use demo_testbench.Waits.Laws.{arrive, Waited}
use demo_testbench.Waits.{Wake, gave_up}

-- Words of 16 bits, and buffers of 2^10 bytes.
found_widths :
    discover_targetconf (λ req. some (0 ∷ 0 ∷ 16 ∷ 0 ∷ 10 ∷ 0 ∷ [])) backend
    ≡ done (ok, record backend { target_word_width = 2; target_buffer_size = 1024 })
unfolding discover_targetconf control_words set_targetconf
found_widths = refl

gb_jtag_read_b_lem_example :
    (gb_jtag_read_b backend (gave_up (7 ∷ 8 ∷ []) ∷ []) 0 3 (0 ∷ 0 ∷ 0 ∷ []) 0 ≡ hang)
    ⊎ ((used ws' : List Wake) × (b : Cbuf) × let q = arrive 8 (contents empty_ring) used in
          let n = min (length q) 3 in
          (gave_up (7 ∷ 8 ∷ []) ∷ [] ≡ used ++ ws')
          × Waited 3 8 (contents empty_ring) used
          × (gb_jtag_read_b backend (gave_up (7 ∷ 8 ∷ []) ∷ []) 0 3 (0 ∷ 0 ∷ 0 ∷ []) 0
              ≡ done (
                if not (3 == n) then etimedout else ok,
                take n q ++ drop n (0 ∷ 0 ∷ 0 ∷ []),
                n,
                record backend { read_buf = b },
                ws',
              ))
          × (contents b ≡ drop n q)
          × IsValid b
          × (b.size ≡ 8))
gb_jtag_read_b_lem_example =
    gb_jtag_read_b_lem backend (gave_up (7 ∷ 8 ∷ []) ∷ []) 3 (0 ∷ 0 ∷ 0 ∷ []) 0 empty_ring-IsValid
      (omega arith) (omega arith) (omega arith)
