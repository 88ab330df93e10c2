-- ===== src/Uart/Client/Tests.antt =====
-- Two bytes wait in a ring of four, and the client asks for three, or writes three.
use demo_testbench.Base.{
  inr, ℕ, zero, take, drop, List, [], ◌∷◌, ◌++◌, Status, ok, done, hang, ◌≡◌, ◌⊎◌, arith,
  length-tabulate,
}
use demo_testbench.Cbuf.{Cbuf}
use demo_testbench.Cbuf.Valid.{IsValid}
use demo_testbench.Cbuf.Contents.{contents}
use demo_testbench.Uart.{Uart}
use demo_testbench.Uart.Client.{gb_uart_read_b, gb_uart_write_b}
use demo_testbench.Uart.Client.Blocking.{
  Delivered, gb_uart_read_b-Delivered, gb_uart_read_b-BringBytes, gb_uart_write_b-Sent,
}
use demo_testbench.Uart.Tests.{line, session, zeros, ring-IsValid}
use demo_testbench.Waits.{Wake, changed, gave_up}
use demo_testbench.Waits.Laws.{BringBytes}

abbrev idle : Uart
idle = session 4 (line [] [] 0)

gb_uart_read_b-Delivered_example :
    let ws = gave_up (7 ∷ []) ∷ [] in
    (gb_uart_read_b idle ws 0 4 zeros 0 ≡ hang)
    ⊎ ((s : Status) × (out : List ℕ) × (n : ℕ) × (u' : Uart) × (ws' : List Wake) × (gb_uart_read_b
            idle ws 0 4 zeros 0
          ≡ done (s, out, n, u', ws'))
        × Delivered idle u' 4 zeros out s n ws ws')
gb_uart_read_b-Delivered_example =
    gb_uart_read_b-Delivered idle (gave_up (7 ∷ []) ∷ []) 4 zeros 0
      (ring-IsValid 4 (omega arith) (omega arith)) (omega arith) (omega arith) (omega arith)
      (omega (arith, length-tabulate 256 (λ (_ : ℕ). zero)))

gb_uart_read_b-BringBytes_example :
    (out : List ℕ) × (u' : Uart) × (ws' : List Wake) × (gb_uart_read_b idle
        (changed (7 ∷ []) ∷ [])
        0
        3
        zeros
        0
      ≡ done (ok, out, 3, u', ws'))
unfolding BringBytes
gb_uart_read_b-BringBytes_example =
    gb_uart_read_b-BringBytes idle (changed (7 ∷ []) ∷ []) 3 zeros 0
      (ring-IsValid 4 (omega arith) (omega arith)) (omega arith) (omega arith) (omega arith)
      (omega (arith, length-tabulate 256 (λ (_ : ℕ). zero))) (inr (omega arith, omega arith))

gb_uart_write_b-Sent_example :
    (gb_uart_write_b idle (1 ∷ 2 ∷ []) 0 5 (1 ∷ 2 ∷ 3 ∷ 4 ∷ 5 ∷ []) 0 ≡ hang)
    ⊎ ((buf : Cbuf) × (ks' : List ℕ) × (gone : ℕ) × (gb_uart_write_b idle
            (1 ∷ 2 ∷ [])
            0
            5
            (1 ∷ 2 ∷ 3 ∷ 4 ∷ 5 ∷ [])
            0
          ≡ done (ok, 5, record idle { output_buffer = buf }, ks'))
        × (contents buf
            ≡ drop gone (contents idle.output_buffer ++ take 5 (1 ∷ 2 ∷ 3 ∷ 4 ∷ 5 ∷ [])))
        × IsValid buf
        × (buf.size ≡ 4))
gb_uart_write_b-Sent_example =
    gb_uart_write_b-Sent idle (1 ∷ 2 ∷ []) 5 (1 ∷ 2 ∷ 3 ∷ 4 ∷ 5 ∷ []) 0
      (ring-IsValid 4 (omega arith) (omega arith)) (omega arith) (omega arith)
