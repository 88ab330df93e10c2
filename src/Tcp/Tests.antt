-- ===== src/Tcp/Tests.antt =====
-- A TCP backend whose host has two addresses, the first of which refuses, and which gives 1, 2, 3
-- in two pieces.
use demo_testbench.Base.{ℕ, true, false, List, [], ◌∷◌, ◌++◌, Option, none, some}
use demo_testbench.Base.{Safely, done, ok, failed, ◌≡◌, refl, arith}
use demo_testbench.Glip.{Ctx}
use demo_testbench.Glip.Options.{Number}
use demo_testbench.Glip.Session.{
  Call, open_call, close_call, reset_call, read_call, write_call, read_b_call, write_b_call,
}
use demo_testbench.Glip.Session.{run, IsSession, IsBackend, run-IsSession}
use demo_testbench.Tcp.{given, would_block, broken, Net, Tcp, gb_tcp_open, gb_tcp_close}
use demo_testbench.Tcp.Connect.{Host, connect_unresolved}
use demo_testbench.Tcp.Wait.{socket_ready}
use demo_testbench.Tcp.Blocking.{gb_tcp_read_b, gb_tcp_write_b, tcp_functions}
use demo_testbench.Tcp.Blocking.Calls.{
  Read, Written, gb_tcp_read_b-Read, gb_tcp_write_b-Written, gb_tcp_read_b-AreReady,
}
use demo_testbench.Tcp.Opening.{gb_tcp_open_failure}
use demo_testbench.Tcp.Laws.{IsOpened, tcp_functions-IsBackend}

abbrev no_number : List ℕ → Number
no_number text = record { val = 0; erange = false; other_error = false; used = 0 }

abbrev hosts : List Host
hosts =
    record { socket = some 5; accepts = false } ∷ record { socket = some 6; accepts = true } ∷ []

abbrev network : (List ℕ → ℕ → Option (List Host)) → Net
network resolve' = record {
  pending = 1 ∷ 2 ∷ 3 ∷ 4 ∷ [];
  sent = [];
  ctrl_sent = [];
  reads = would_block ∷ given 1 ∷ given 9 ∷ [];
  writes = given 2 ∷ broken ∷ [];
  ctrl_writes = given 2 ∷ [];
  polls =
      record { spent = 0; events = socket_ready true true }
      ∷ record { spent = 3; events = socket_ready true true }
      ∷ record { spent = 4; events = socket_ready true true }
      ∷ [];
  closed = [];
  resolve = resolve';
  fd_nonblock = λ fd. true;
  epoll_fd = some 7;
  epoll_added = true;
}

abbrev closed_tcp : (List ℕ → ℕ → Option (List Host)) → Tcp
closed_tcp resolve' = record {
  data_sfd = none;
  data_efd = none;
  ctrl_sfd = none;
  net = network resolve';
}

abbrev opened_tcp : Tcp
opened_tcp = record (closed_tcp (λ host port. some hosts)) {
  data_sfd = some 6;
  data_efd = some 7;
  ctrl_sfd = some 8;
}

abbrev zeros : List ℕ
zeros = 0 ∷ 0 ∷ 0 ∷ 0 ∷ []

gb_tcp_read_b_example :
    Safely
      (gb_tcp_read_b opened_tcp 0 4 zeros 9 100)
      (λ (s, out, n, u'). Read opened_tcp 4 zeros 9 s out n u')
gb_tcp_read_b_example = gb_tcp_read_b-Read opened_tcp 4 zeros 9 100 refl (omega arith)

gb_tcp_write_b_example :
    Safely
      (gb_tcp_write_b opened_tcp 0 4 zeros 9 100)
      (λ (s, n, u'). Written opened_tcp 4 zeros 9 s n u')
gb_tcp_write_b_example = gb_tcp_write_b-Written opened_tcp 4 zeros 9 100 refl (omega arith)

gb_tcp_read_b-AreReady_example :
    (v : Tcp) × (gb_tcp_read_b opened_tcp 0 2 zeros 9 100 ≡ done (ok, 1 ∷ 2 ∷ 0 ∷ 0 ∷ [], 2, v))
    × (v.net.pending ≡ 3 ∷ 4 ∷ [])
gb_tcp_read_b-AreReady_example =
    gb_tcp_read_b-AreReady opened_tcp 2 zeros 9 100 (0 ∷ 3 ∷ 4 ∷ []) refl (omega arith)
      (omega arith) (omega arith) (omega arith) (omega arith) tt
      (omega arith, refl, (omega arith, refl, (omega arith, refl, tt)))

gb_tcp_open_failure_example :
    (v : Tcp) × (gb_tcp_open no_number [] (closed_tcp (λ host port. none)) 1 ≡ (failed, v))
    × (v.data_sfd ≡ some 0)
    × (gb_tcp_open no_number [] v 1 ≡ (failed, v))
    × ((gb_tcp_close v).1.net.closed ≡ v.net.closed ++ (0 ∷ []))
gb_tcp_open_failure_example =
    gb_tcp_open_failure no_number [] [] (closed_tcp (λ host port. none)) 1 1 refl refl
      (connect_unresolved _ _)

tcp_functions_example : IsBackend (tcp_functions no_number) IsOpened
tcp_functions_example = tcp_functions-IsBackend no_number

-- A client that reads before it has opened, opens twice, and goes on after it has closed.
abbrev calls : List Call
calls =
    read_call 0 4 zeros 0
    ∷ open_call 1
    ∷ open_call 1
    ∷ read_b_call 0 4 zeros 0 100
    ∷ write_call 0 4 zeros 0
    ∷ reset_call
    ∷ close_call
    ∷ write_b_call 0 4 zeros 0 100
    ∷ []

abbrev tcp_ctx : Ctx Tcp
tcp_ctx = record {
  log_priority = 3;
  caller_ctx = 0;
  backend_ctx = closed_tcp (λ host port. some hosts);
  backend_functions = some (tcp_functions no_number);
  backend_options = [];
  connected = false;
}

run-IsSession_example : Safely (run calls tcp_ctx) (IsSession (tcp_functions no_number) IsOpened)
run-IsSession_example =
    run-IsSession (tcp_functions-IsBackend no_number) calls tcp_ctx (omega arith)
      (record { has_functions = refl; is_open = λ e. cc })
