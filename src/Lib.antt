-- ===== src/Lib.antt =====
-- Models of the C programs of this repository, and the theorems about them.
--
-- The parts, each under the module of its name:
--
-- Prelude: names of the library, tests on native numbers, lists with native indices, buffers of
--   bytes, integers, arrays as functions, rectangles of a terminal, and `Outcome`, the ways in which
--   a piece of C code ends: with a value, by `exit`, or in undefined behaviour (`fault`).
-- FileManager (file_manager/): two panels over a file system. Panel has `struct PmPanel` of
--   common.h, and RenderingListDir and CoordControl of read_dir.c (`rendering_list_dir`,
--   `coord_control`); Listing has ListDir (`list_dir`) over the calls of the file system, which are a
--   parameter; Keys has Init_main_win, TryExec and `main` of main_scandir.c (`start`, `press` for one
--   key, `session` for the loop); Looks has the same loop with the marks on the rows (`press_desk`,
--   `session_desk`), Windows the windows and the handler of SIGWINCH. Cursor and
--   Session hold the proofs about the cursor, Opening those about ENTER, Starting those about the
--   start, Marks, Entering, Unmarked, Handling and Highlights those about the marks, and Running
--   puts the start and the loop together.
-- Storage (thread/storage_live/): Defs has the threads of buyer.c and loader.c, with
--   storage_control of main.c, as step relations `BuyerStep` and `LoaderStep`: a step is one access to
--   the shared store, and any thread may take the next one (`Step`). Start has `main` up to the start
--   of the threads, Ending the rest of it: the joins, and the cancellation of the loader
--   (`ProcessStep`), which takes effect only at calls that print or sleep. With its 5 rooms and 4
--   mutexes the program does not come to its threads; Start.Laws is about that.
-- ServerQueue (NETS/server_queue/): Msgbuf has the request of msgbuf_struct.h; Pool has the service
--   functions and the state machine of a thread of service_pool.c (`service_pass` is one pass through
--   its loop); Server has `main` of server.c (`start`, and `serve` for one pass through its loop);
--   System puts the main thread and the pool together over the message queue that they share
--   (`Step`, from `initial`), and System.Abstract is its specification, an office that has neither
--   queue nor threads.
-- Calculator (calculater/): Arithmetic has the four functions of lib/; Input has `fgets` and `atoi`
--   on bytes; Program has `main` (`round` for one pass through its loop).
-- Echo (NETS/TCP_ECHO/, NETS/UDP_ECHO/): Answer has what the two servers do to their buffer; Tcp and
--   Udp have each a server and its client (`serve` and `client_pass` for one pass through the loop,
--   `serve_all` and `dialogue` for several).
-- ManyUsers (NETS/multi-user UDP_ECHO/, NETS/multi-user TCP_ECHO/): Defs has the UDP server
--   (`setup`) and the processes of its clients as step relations `Step` and `ChildStep`; `sent` and
--   `received` of a `Child` record what it has exchanged. Client has the UDP client (`start`, and
--   `client_pass` for one pass through its loop). Tcp has the TCP server in the same way, and
--   Tcp.Client its client (`connected` for what follows the connection). Replies, Sizes and Greeting
--   hold the proofs about UDP, Tcp.Replies and Tcp.Welcome those about TCP.
-- Select (NETS/select/tcp_udp_server.c): Defs has `main` (`start`, and `serve` for one pass through its
--   loop), Answers the proofs.
-- RawSockets (NETS/raw_socket_udp_client/, NETS/raw_socket_l3/): Packet has the bytes of the headers,
--   Client `main` of both clients (`udp_client`, `l3_client`; `await` is their loop), Exchange the
--   clients with the UDP server of Echo.
-- ForkTree (fork/fork_tree/six_forks.c): Defs has the processes and their steps `Step`, one for each
--   way in which a call of `fork`, `wait`, `waitpid` or `exit` ends. Invariant and Ends hold the proofs.
-- FiveThreads (thread/five_threads/main.c): Defs has a loop that creates threads and one that joins
--   them, as a step relation over what the threads read: `shared_counter` for the first half of
--   `main`, Shared, and `own_num` for the second, Own.
-- Editor (text editor/): Buffer has the buffer and the file (`safe_file` is SafeFile), Keys has `main`
--   (`start`, `press` for one key, `session` for the loop) and WriteInWin (`write_in_win`) over the
--   calls of curses, which are the record `Curses`. Bounds, Sessions and Saving hold the proofs. RwTest
--   has the trial of rw_test.c (`trial`), Windows the windows (`panes`) and the handler of SIGWINCH.
-- Structs (playing_with_struct/): what `main` reads and prints (`print_structs`), over the offsets of
--   the fields, which are a parameter.
--
-- Results of system calls are given to the models as values, so that the theorems hold for any of
-- them. Numbers of type `unsigned` wrap at 2 ^ 32; an overflow of an `int` is undefined behaviour.
-- Loops are recursion on the rounds that are left, on the list of keys or of objects, or, for loops
-- that only their environment ends, one pass at a time; no loop runs on fuel that could run out
-- but `rounds` of Calculator and `dialogue` of Echo, which count passes, and `create_threads` of
-- ServerQueue, whose list of results says how often the creation of a thread has been tried.
-- Pointers have 8 bytes, and the machine is little-endian.
--
-- Not modelled: what is printed apart from the windows of the file manager, the screen of the editor,
-- the lines of the calculator, the messages that the echo clients show, the text of rw_test.c and the
-- values of playing_with_struct/; the colours of backgrounds, the text of the help bar, pauses and
-- seeds; what curses does on a terminal of another size; the bytes behind a request that msgsnd copies
-- and msgrcv stores in server_queue, whose size argument counts `mtype` too; and the value of
-- `double`, which is a parameter. The message queue gives requests in the order in which they were
-- sent, and each access to an array of the store is one step.
pub mod Prelude
pub mod FileManager
pub mod Storage
pub mod ServerQueue
pub mod Calculator
pub mod Echo
pub mod ForkTree
pub mod FiveThreads
pub mod Editor
pub mod RawSockets
pub mod ManyUsers
pub mod Select
pub mod Structs
