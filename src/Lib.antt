-- ===== src/Lib.antt =====
-- Models of the C core of skynet, the actor framework under skynet/ on which this game server runs.
--
-- A service is a context with a queue of messages. Worker threads take queues from a global queue
-- and dispatch their messages; handles and names lead to contexts; a timer thread sends an event
-- when a timeout is over.
--
-- Common: shared names, tests, lists, options and the laws of bit masks; no code of the program.
-- Mq: skynet/skynet-src/skynet_mq.c. `Mq` is one queue: its ring, which doubles when it is full
--   (`put` is the body of skynet_mq_push and `pop` of skynet_mq_pop), and the overload warning.
--   `Mq.Global` is the memory of queues with their links and the global queue; every function of the
--   file is one there, and a failed assert or a read through NULL is `none`. `Mq.Dispatch` is the
--   system: threads create, post to, take, empty, put back and release queues in any order, each
--   step one critical section of the queue's lock and what follows it in the same call.
-- Handle: skynet/skynet-src/skynet_handle.c. `Handle` is the table of slots and the array of
--   names, each function a critical section of its lock; `Handle.Names` are the loops over the
--   array. A context is a number, and the field `handle` of contexts is a function.
-- Timer: skynet/skynet-src/skynet_timer.c. `Timer` is the wheel of lists. A list stands for the
--   chain of a `link_list`, and the arrays are functions of their indexes, which the masks keep in
--   bounds; `Timer.Run` puts ticks and timeouts in any order.
-- Buffer: skynet/service-src/databuffer.h, the buffer in which the gate service collects what a
--   connection receives. A chunk stands for a `struct message` in use, and the pool is its counts.
-- Hashid: skynet/service-src/hashid.h, the gate's table from socket numbers to connections. The
--   chain of a hash cell is the list of its places, and the -1 of a free place is `none`.
-- Gate: skynet/service-src/service_gate.c, over Buffer and Hashid. The calls into the rest of skynet
--   are values in the order in which they are made; `Gate.Control` are the commands in text with
--   the functions of C that read numbers, and `Gate.Socket` is `_cb` with the messages of sockets.
--   `Gate.Split` says which packets a stream of bytes stands for.
-- Lock: skynet/skynet-src/rwlock.h, the lock that the table of handles is under: the accesses of
--   the threads to its two fields, one at a time.
-- Monitor: skynet/skynet-src/skynet_monitor.c, the detection of messages that never end.
-- Context: skynet/skynet-src/skynet_server.c and skynet/skynet-src/skynet_harbor.c, as far as they
--   number requests, print handles and send messages. The data of a message is a pointer, and the
--   events say who gets it; `Node` is what is read beside the context. `Context.Refs` are the counts
--   of references to contexts, and `Context.Threads` the steps in which threads make, find, reserve,
--   retire and give back contexts; making one, up to the call of its module, is a single step.
-- Seri: skynet/lualib-src/lua-seri.c. `Seri.Blocks` is the chain of blocks that wb_push writes and
--   seri copies; `Seri.Pack` is pack_one with the wb_ functions, and `Seri.Unpack` is unpack_one with
--   push_value and the get_ functions. `Seri.Encode` says which bytes stand for a value.
--
-- Numbers of 32 and 64 bits wrap round where the code lets them: the harbor byte, the times and
-- the clocks. Where an `int` may overflow in `hashid_insert`, the model ends with `none`. Queue
-- indexes, name counts, the length of what is packed and the size of a buffer are `int`s that the
-- models do not bound: they differ only for 2^30 messages in a queue, or for 2 GiB of data in one
-- place. The counter of the loop in skynet_updatetime is one too, and counts the ticks up to 2^32.
--
-- Fuel: `register` takes 2 rounds, since after one doubling there is a free slot; a search takes
-- as many rounds as there are names; `drop_all` takes one round more than there are messages; the
-- loops of `find_level` and `shift_place` have 3 and 4 rounds, as the levels of the wheel;
-- `hash_cap` has `max` rounds, each of which doubles a number that is less than `max`; `write` has a
-- round more than bytes, since each round but the first fills a block; the calls and rounds of
-- `luaseri_unpack` are nested no deeper than three times the number of the bytes, and two;
-- `dispatch_message` has eight rounds more than bytes. The theorems show that the fuel of
-- `luaseri_unpack`, `dispatch_message` and `split` is enough.
--
-- Not modelled: the spin lock, memory allocation (it does not fail), the interleaving of a timer's
-- sending with additions to the list that is sent, and the clocks of the operating system, which
-- are arguments. The commands of contexts, the sockets, the other services and the other encodings
-- of skynet/lualib-src are not modelled, nor is the Lua code.
pub mod Buffer
pub mod Common
pub mod Context
pub mod Gate
pub mod Handle
pub mod Hashid
pub mod Lock
pub mod Monitor
pub mod Mq
pub mod Seri
pub mod Timer
