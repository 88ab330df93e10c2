-- ===== src/Uart/Reset/Tests.antt =====
-- A line that works at 57600 baud only, and gives a byte of garbage first.
use demo_testbench.Base.{ℕ, ◌==◌, if◌then◌else◌, some, none, ◌≡◌, refl}
use demo_testbench.Uart.Reset.{
  Probe, timed_out, two_bytes, is_marked, is_known, autodetect, find_speed,
}

abbrev slow_line : ℕ → Probe
slow_line speed = if speed == 57600 then two_bytes 0 0xfe else timed_out

found_speed : find_speed slow_line 115200 ≡ some 57600
unfolding find_speed autodetect is_marked is_known
found_speed = refl

-- A speed that has no constant is refused at once.
unknown_speed : find_speed slow_line 57601 ≡ none
unfolding find_speed autodetect is_marked is_known
unknown_speed = refl
