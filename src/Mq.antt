-- ===== src/Mq.antt =====
-- skynet/skynet-src/skynet_mq.c and skynet_mq.h: one service's message queue, a ring that grows.
-- Each function is one critical section of the queue's spin lock. An int field is a number: none
-- of them is ever negative, and `capacity-put` says how far `cap * 2` is from the range of int.
-- `junk` is what memory holds that nobody wrote: a fresh cell, or a cell out of range.
pub mod Inv
pub mod Window
pub mod Refine
pub mod Overload
pub mod Global
pub mod Dispatch
mod Tests
use skynet_server.Common.{
  ℕ, zero, suc, ◌+◌, ◌-◌, ◌*◌, ◌%◌, Bool, true, false, Option, none, some, List, [], ◌∷◌, ◌++◌, ltb,
  leb, ◌==◌, if◌then◌else◌, get_or, set, replicate,
}
use skynet_server.Common.Int.{ℤ}

-- `struct skynet_message`: the type of the message is in the high 8 bits of `sz`. The pointer
-- `payload` is `void * data`.
pub record Message : Type 0 where
  pub source : ℕ
  pub session : ℤ
  pub payload : Option ℕ
  pub sz : ℕ

-- `struct message_queue`: a pointer to a queue is its number.
pub record Queue : Type 0 where
  pub handle : ℕ
  pub cap : ℕ
  pub head : ℕ
  pub tail : ℕ
  pub release : ℕ
  pub in_global : ℕ
  pub overload : ℕ
  pub overload_threshold : ℕ
  pub queue : List Message
  pub next : Option ℕ

abbrev pub default_queue_size : ℕ
default_queue_size = 64

abbrev pub mq_in_global : ℕ
mq_in_global = 1

abbrev pub mq_overload : ℕ
mq_overload = 1024

unfoldable pub create : Message → ℕ → Queue
create junk handle = record {
  handle = handle;
  cap = default_queue_size;
  head = 0;
  tail = 0;
  release = 0;
  in_global = mq_in_global;
  overload = 0;
  overload_threshold = mq_overload;
  queue = replicate default_queue_size junk;
  next = none;
}

-- `skynet_mq_length`
unfoldable pub size : Queue → ℕ
size q = if leb q.head q.tail then q.tail - q.head else q.tail + q.cap - q.head

-- `skynet_mq_overload`: the pending warning, which is cleared.
unfoldable pub take_overload : Queue → ℕ × Queue
take_overload q = if q.overload == 0 then (0, q) else (q.overload, record q { overload = 0 })

-- The loop `while (length > q->overload_threshold)` of `skynet_mq_pop`, on fuel.
unfoldable pub raise_overload : ℕ → ℕ → Queue → Queue
raise_overload zero len q = q
raise_overload (suc fuel) len q =
    let raised =
      raise_overload fuel len
        (record q { overload = len; overload_threshold = q.overload_threshold * 2 }) in
    if ltb q.overload_threshold len then raised else q

-- `if (head >= cap) q->head = head = 0`, after `q->head++`; and so for `tail`.
abbrev pub advance : ℕ → ℕ → ℕ
advance cap i = if leb cap (i + 1) then 0 else i + 1

-- `length = tail - head; if (length < 0) length += cap`
abbrev pub distance : ℕ → ℕ → ℕ → ℕ
distance cap head tail = if ltb tail head then tail + cap - head else tail - head

-- `skynet_mq_pop`: `none` stands for the return value 1.
unfoldable pub pop : Message → Queue → Option Message × Queue
unfolding raise_overload
pop junk q =
    if q.head == q.tail
    then (none, record q { overload_threshold = mq_overload; in_global = 0 })
    else (let len = distance q.cap (advance q.cap q.head) q.tail in
        (
          some (get_or q.queue q.head junk),
          raise_overload len len (record q { head = advance q.cap q.head }),
        ))

-- The loop of `expand_queue`, from index `i` on: `n` messages, the oldest first.
unfoldable pub copy_cells : Message → Queue → ℕ → ℕ → List Message
copy_cells junk q i zero = []
copy_cells junk q i (suc n) =
    get_or q.queue ((q.head + i) % q.cap) junk ∷ copy_cells junk q (i + 1) n

unfoldable pub expand_queue : Message → Queue → Queue
unfolding copy_cells
expand_queue junk q = record q {
  head = 0;
  tail = q.cap;
  cap = q.cap * 2;
  queue = copy_cells junk q 0 q.cap ++ replicate q.cap junk;
}

-- `skynet_mq_push` up to the growth of the ring; `Global.push` has the rest.
unfoldable pub put : Message → Queue → Message → Queue
unfolding expand_queue
put junk q m =
    let stored = record q { queue = set q.queue q.tail m; tail = advance q.cap q.tail } in
    if stored.head == stored.tail then expand_queue junk stored else stored

-- The loop of `_drop_queue`: what `drop_func` is called with, in order, and the emptied queue.
unfoldable pub drop_all : ℕ → Message → Queue → List Message × Queue
drop_all zero junk q = ([], q)
drop_all (suc fuel) junk q =
    let rest = drop_all fuel junk (pop junk q).1 in
    elim ((pop junk q).0) [ none ↦ ([], (pop junk q).1) | some m ↦ (m ∷ rest.0, rest.1) ]
