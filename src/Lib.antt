-- ===== src/Lib.antt =====
-- Homework programs on file systems, sockets and packets, in C.
--
-- The parts of hw5, all of which work on frames in a receive buffer:
-- - Packet/Bytes, Packet/Headers, Packet/Frames: memory as a little-endian host reads it, the header
--   structures as offsets, and `recvfrom` into a buffer that is used again.
-- - Packet/Checksum: `checksum` of hw5/Sender.c and hw5/HW5_1_5.c. `sum_words` is its first loop, with the
--   sum modulo 2 ^ 64, and `fold_carries` its second, whose fuel is the sum itself: each pass lowers it.
-- - Packet/Modifier: hw5/HW5_1_5.c. `accept_ip`, `accept_udp` and `accept_tcp` are its checks in their
--   order, `rewrite` what it does to a frame, `process` a pass of its loop and `run` the loop.
-- - Packet/Sender: hw5/Sender.c. `build_packet` fills the packet field by field.
-- - Packet/Capture: hw5/HW5_1.c. `run_mode1`, `run_mode2` and `run_mode3` run over the list of what
--   `recvfrom` returns.
-- - Packet/Interface: `main` of hw5/HW5_1.c and hw5/HW5_1_5.c, with the outcome of each system call as an
--   argument.
-- - Packet/Receiver: hw5/Receiver.c. Packet/Pipeline follows a packet from hw5/Sender.c through hw5/HW5_1_5.c to it.
--
-- The parts of hw4, all of which work on the table of clients:
-- - Chat/Text: the messages, from `recv_buffer` to `snprintf`.
-- - Chat/Clients: `clients` and `total_connections` of hw4/server_epoll.c and hw4/server_io_uring.c,
--   `broadcast_msg`, and the scans: `take_slot` and `add_client` for a free slot, `find_id` and `deactivate`
--   for a client. Chat/Clients/View sees the table as the members of a room.
-- - Chat/Spec: the specification of a room, without a table: `Spec` for one input and `SpecRun` for a run.
-- - Chat/Epoll: the loop of hw4/server_epoll.c. `handle` is a round of the loop over the events.
-- - Chat/Uring: the loop of hw4/server_io_uring.c. `handle` is a round of the loop over the completions.
-- - Chat/Thread: hw4/server_thread.c. `Step` says what one thread may do next, and `Reach` which states
--   the interleavings lead to; Chat/Thread/Heard compares each step with the specification of a room.
-- - Chat/Setup: how the servers get their listening socket; Chat/Epoll/Program and Chat/Uring/Program: `main`, with
--   the outcome of each call as an argument.
-- - Chat/Client: hw4/client.c. `send_loop` is the loop of `main` and `receive_loop` that of `msg_recv_handler`; a list
--   has an element for each round.
-- - Chat/Conversation: a client that listens to the epoll server. Chat/Agreement compares the two servers.
-- What the kernel promises of events and completions is `Happens` of each server: a new descriptor is not
-- open, and an event belongs to a descriptor that is watched, or to a request that is pending.
--
-- The parts of hw3:
-- - Copy/Blocking: `blocking_io` of hw3/hw3_1/HW3_1.c, with the size of each read and write as an argument.
-- - Copy/Async: `async_io` of hw3/hw3_2/HW3_2.c, whose text is that of HW3_1.c but for the calls of
--   `multiplication`. `refill` is the loop over the buffers, `complete` what follows `io_uring_wait_cqe`, and
--   `round` a pass of the loop; `breaks` leaves it when the wait fails. `run` has fuel, of which one more than three
--   times the length of the file is enough: a byte is read, written and done with.
-- - Copy/Program: `async_io` with its set-up and clean-up, and `main`, which copies twice to the same file.
--
-- The parts of hw2:
-- - Listing: hw2/hw2_1. `permissions` is `print_permissions`, `columns` the loop of HW2_1_2, and `ask` the
--   loop over `argv` of HW2_1_3. Listing/Long has the lines of the long form, with what the system and the C library
--   give as a record of functions, and Listing/Programs `main` of the three programs.
-- - Search: `search` of hw2/hw2_2, over a tree of directories. That `opendir` of a path gives the directory it
--   was made from is assumed, which needs paths of at most 1023 bytes. Search/Program is `main`.
--
-- The part of hw1:
-- - Bench: the loops of HW1_1.c, HW1_2.c and HW1_3.c that write. The sizes are arguments, and so is what `rand`
--   gives. Bench/Loops has all loops, on the world of Bench/World: the file, the descriptors and mappings that are
--   open, and what was read. Bench/Stdio, Bench/Descriptors and Bench/Mapped are the workloads of the three programs,
--   which open the file, loop and close it, or call `exit`. Bench/Timing is `main`, with the clock as an argument.
--
-- Not modelled are `multiplication` and `get_time_diff` of hw3, whose results are not read or only printed;
-- a failing `accept` (which ends the program) and a failing `pthread_create` of the thread server; the end of the client's
-- main thread at any point, when the other one calls `exit`; and, in hw1, reads and
-- writes that fail or transfer less than they are asked to, whose results the programs do not look at.
--
-- Bytes and words are natural numbers below 256 and 65536, which `IsBytes` states where it matters. An `int`
-- from `atoi` is its bit pattern. The lengths of frames are far from the bounds of `int`. What the programs
-- only print is left out, but for the listings of hw2, the paths that a search finds, the times of hw1, the messages of the
-- chat, and the text and the fields of a packet that are reported.
mod Base
pub mod Packet
pub mod Chat
pub mod Copy
pub mod Listing
pub mod Search
pub mod Bench
