-- ===== src/Waits/Tests.antt =====
-- A timeout of a minute, which the product cannot hold.
use demo_testbench.Base.{◌+◌, ◌*◌, ◌%◌, ◌^◌, ◌≤◌, ◌<◌, ◌≡◌, arith, ◌↔◌, done}
use demo_testbench.Waits.Deadline.{Timespec, deadline, deadline_lem}

abbrev noon : Timespec
noon = record { tv_sec = 43200; tv_nsec = 500000000 }

deadline_lem_example :
    (at : Timespec) × (deadline 6 noon 60000 ≡ done at)
    × (at.tv_nsec < 1000000000)
    × (at.tv_sec * 1000000000 + at.tv_nsec
        ≡ 43200 * 1000000000 + 500000000 + 60000 * 1000000 % 2 ^ 32)
    × ((at.tv_sec * 1000000000 + at.tv_nsec ≡ 43200 * 1000000000 + 500000000 + 60000 * 1000000)
        ↔ (60000 ≤ 4294))
deadline_lem_example =
    deadline_lem 6 noon 60000 (omega arith) (omega arith) (omega arith) (omega arith)
