-- ===== src/Lib.antt =====
-- Verification library of the dungeon server.
--
-- The dungeon runs many small state machines, its imps. A room (a loaded module) summons imps; worker
-- threads take imps out of the run queue and drive them; an imp that asks for events sleeps until the
-- epoll thread wakes it into the run queue again; an imp that ends goes to the terminated queue, out of
-- which the maintainer thread dismisses it. Lists of requested events hang on each imp, connections
-- carry bytes through buffer lists, and the configuration and the log serve them all.
--
-- The files and the code that they are about:
--   Base        what the other files share: tests, lists and integers over native numbers, and `Run`, the
--               outcome of code that may touch memory that it does not own.
--   Queue       src/ds_queue2.c, one function per function; each is a critical section of the mutex.
--               Queue/Window says what the ring holds, Queue/Fifo compares with an abstract queue,
--               Queue/Uniq is about `queue_enqueue_uniq_nb`, Queue/Trace about all schedules of threads.
--   Llist       src/ds_llist.c on explicit memory: the fields of all nodes and which addresses are nodes.
--               Llist/Ring is the invariant, Llist/Append, Fetch, Delete and Match the operations, and
--               Llist/View the bounded list of data that the other components use.
--   BufferList  src/ds_bufferlist.c over Llist/View: Bytes (contents and writing), Rounds and Read, Move.
--   Tcp         src/util_conn_tcp.c, receiving and sending without blocking; Sendv is about sending from a
--               buffer list, Receipt and Recvv about receiving into one.
--   Handles     what the constructors of src/util_conn_tcp.c, src/imp_body.c and src/module_handler.c open and
--               their destructors close; Balance.
--   Timespec    src/util_misc.c and `imp_body_set_timer`; Sums.
--   Room        `get_config` of src/modules/echo/mod.c and src/modules/fake_httpd/mod.c; Legal.
--   Imp         src/imp.c, with the fields of `dungeon_t` that it uses, on the queues of Queue: Outcomes and Place say
--               where a round of an imp leaves it, Life is about summoning, waking and killing.
--   Maintainer  src/thr_maintainer.c, the loop over the imps that ended.
--   Worker      src/thr_worker.c, one round of the epoll thread and of a worker, and the starting of the
--               threads; Binding is about the processors that the workers get.
--   System      the dungeon as a whole: a step is one round of a thread, or the summoning or killing of an
--               imp. Housing, Accounts, Taking and Rounds lead to Safety, an invariant of all that can be
--               reached, and to Progress.
--   Dungeon     src/dungeon.c: Init is about `dungeon_init`, Drain and Delete about `dungeon_delete`, Rooms
--               models `dungeon_add_rooms` and Rooms/Loading is about it.
--   Echo        src/modules/echo/mod.c, the state machine of a connection, as a room for Imp: Invariant,
--               Receiving and Sending are about its bytes, Keeping about when it gives up, Relay joins them.
--   FakeHttpd   src/modules/fake_httpd/mod.c, likewise: Response and Serving are about what the peer gets,
--               Memoirs about the text that a connection keeps of its rounds.
--   Hasht       src/ds_hasht.c: Count is the invariant of the counts; Add, Remove and Clean the operations;
--               Murmur the default hash. The lock of a bucket has the thread that holds it
--               for writing: other threads wait, and that thread gets EDEADLK, which the code ignores.
--   Log         src/util_log.c and `log_init` of src/main.c: Targets and Reset.
--   Rlimit      `rlimit_try` and `rlimit_init` of src/main.c: Search and Lowering.
--   Memvec      src/ds_memvec.c and src/ds_string.c on a heap of blocks: Compare and Copies.
--   Json, Conf  src/conf.c, with the documents of the vendored cJSON as a parameter.
--
-- Conventions. A pointer is a number. A call that would block is `none`, a call that goes through a bad
-- pointer or past an array is `fault`. What the system answers (memory, `recv`, `send`, `epoll_ctl`, the
-- opening of files) is an argument. A `uint32_t` counter wraps at 2 ^ 32.
--
-- Fuel. The loops of `buffer_read`, `conn_tcp_sendv_nb`, `llist_delete`, `llist_fetch_match`,
-- `llist_travel`, `conn_tcp_recvv_nb`, `rlimit_try`, `dungeon_delete` and of the maintainer take fuel; the theorems about them give
-- it as a number of rounds above the length of the list or queue, the size that is wanted, or the width of the interval, and say that
-- the loop then ends. The loop of `imp_driver` over the requested events follows the list, and the endless
-- loops of the threads are modelled by their rounds.
--
-- Not modelled: threads other than through schedules of critical sections and of whole rounds, the
-- kernel's timers, the options of sockets, the listeners of the rooms, the paths of their libraries,
-- signals, processes, all output of JSON but `string_serialize`, and the text of messages to the log. The
-- vendored cJSON is a parameter. src/ds_rbtree.c is a copy of another project's tree. The monitor thread,
-- the room that does nothing, and the data structures that the build leaves out have no model here.
pub mod Base
pub mod Queue
pub mod Llist
pub mod BufferList
pub mod Worker
pub mod System
pub mod Dungeon
pub mod Tcp
pub mod Imp
pub mod Echo
pub mod FakeHttpd
pub mod Hasht
pub mod Maintainer
pub mod Log
pub mod Handles
pub mod Rlimit
pub mod Room
pub mod Timespec
pub mod Memvec
pub mod Json
pub mod Conf
