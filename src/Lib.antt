-- ===== src/Lib.antt =====
-- GLIP, the host library that moves bytes between a PC and the logic on a target, and its
-- circular buffer, modelled from the C sources under glip/src.
--
-- Parts of the program, and the files that model them:
--   * glip/src/cbuf.c, the circular buffer between a caller and a communication thread: `Cbuf`
--     (`struct cbuf` as the record `Cbuf`, cbuf_write as `write`, cbuf_read as `read`, and so on),
--     `Cbuf/Api` (cbuf_reserve, cbuf_commit, cbuf_peek and the pointers that they hand out).
--     `Cbuf/Valid` has the invariant, `Cbuf/Copy` and `Cbuf/Contents` the copies and what the ring
--     holds, `Cbuf/Fifo` and `Cbuf/Script` the bounded queue that it refines. `Cbuf/Threads` takes
--     cbuf_write and cbuf_read apart into steps of two threads, which interleave in any order.
--   * glip/src/backend_uart/sw/backend_uart.c, the backend for a serial line: `Uart` (`struct
--     glip_backend_ctx` as the record `Uart`, parse_buffer and the credit messages),
--     `Uart/Serial` (read_blocking, write_blocking, check_timeout), `Uart/Thread` (a round of
--     thread_func, in its four parts), `Uart/Client` (gb_uart_read, gb_uart_write, and the calls
--     that block), `Uart/Reset` (reset, and the search of gb_uart_open for the speed of the
--     line). The bytes of the two rings, of which `Cbuf` is the model, cross the line as the
--     messages of `Uart/Items`; `Uart/Deliver` says what arriving ones do to the ring, the credit
--     and the debt. The terminal is a parameter: each call of `read` or `write` takes the next of
--     a list of answers, and a wait beyond the last of them is `hang`.
--   * glip/src/glip.c, the front end: `Glip` (`struct glip_ctx` as the record `Ctx`, `struct
--     glip_backend_if` as the record `Backend` of functions, glip_new and the calls that are
--     passed on), `Glip/Options` (the options of a context). `Glip/Session` says what a backend
--     promises to the front end (`IsBackend`) and what holds of a context then.
--   * glip/src/backend_tcp/sw/backend_tcp.c, the backend for a network: `Tcp` (its sockets and
--     the calls that do not block), `Tcp/Wait` and `Tcp/Blocking` (gb_tcp_read_b, gb_tcp_write_b
--     and epoll), `Tcp/Connect` (gl_util_connect_to_host of glip/src/util.c). `Tcp/Laws` fills
--     the front end's interface. The network is a parameter: its answers are lists.
--   * glip/src/backend_jtag/sw/backend_jtag.c, the backend for JTAG: `Jtag` (the fields of its
--     state that the thread uses, build_jtag_req and parse_jtag_resp), `Jtag/Words` (words of the
--     target), `Jtag/Thread` (a pass of poll_thread; the target's answer to a request is a
--     parameter, and the block for requests grows on fuel, of which 2^20 is enough for every
--     request below 2^20 bytes). `Jtag/Text` is the text protocol with OpenOCD of
--     jtag_drscan_write and jtag_drscan_read; a call of `read` gives the next of a list of
--     chunks, and the pieces of `%02x`, `%u` and memory are written out, strtol is a parameter;
--     `Jtag/Text/Send` is write_b. `Jtag/Client` has the client's calls and discover_targetconf.
--   * glip/src/backend_cypressfx2/sw/backend_cypressfx2.c, the backend for a USB device:
--     `Cypress` (the client's calls, and a pass of usb_write_thread and usb_read_thread),
--     `Cypress/Devices` (gb_cypressfx2_open with its search for a device). What libusb answers is
--     a parameter.
--   * The loops in which a client waits for its ring, the same in the UART, the JTAG and the USB
--     backend: `Waits` (what the thread does meanwhile is a list), with `Waits/Deadline` for
--     timespec_add_ns of glip/src/util.h; its loop runs on fuel, of which six rounds are enough.
--
-- `Base` has what these share: `size_t` arithmetic, arrays as lists, bit masks, and the outcome of
-- a run of C code. A run that leaves an object or shifts an `int` too far is `fault`, a failed
-- `assert` is `abort`, and a wait for what never comes is `hang`.
--
-- Conventions and bounds: a `size_t` is a natural number below 2^64 and its sums wrap by `% 2 ^ 64`;
-- rings of up to 2^62 bytes are considered, far above the 65536 bytes that the backends use, and of up to
-- 2^31 where a size is kept in an `int`. A byte is a
-- natural number. The memory allocator is a parameter: a function that gives a block or none, and
-- where a theorem needs memory, the hypothesis that it gives a block of the size asked for. The
-- halving loop of _cbuf_calc_bufsize has 64 rounds, as many as a `size_t` has bits. The loop over the
-- fields of a JTAG command has 2^30 rounds, enough for every request below 2^31 bytes.
--
-- Not modelled: the mutex and the condition variable of the ring (the two waits only call
-- pthread), and a memory in which loads and stores are seen out of order; cbuf_free, logging; of
-- the UART backend, its constructor, the system's calls on the terminal, gb_uart_logic_reset,
-- which sets a flag for the thread and waits, and gb_uart_close; of the JTAG backend, how it
-- starts OpenOCD, and opens and closes the connection; of the Cypress FX2 backend, its
-- constructor and gb_cypressfx2_close, which only call libusb and pthread; starting and stopping
-- processes in util.c; the tools, and all hardware code. strtol, strtoul, getenv and calloc are
-- parameters.
pub mod Base
pub mod Cbuf
pub mod Waits
pub mod Uart
pub mod Glip
pub mod Tcp
pub mod Jtag
pub mod Cypress
