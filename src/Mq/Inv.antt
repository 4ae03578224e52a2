-- ===== src/Mq/Inv.antt =====
-- The ring's invariant: indices in range, room for one more message, a warning threshold.
use skynet_server.Common.{
  ℕ, zero, suc, ◌+◌, ◌*◌, ◌≤◌, ◌<◌, ◌≡◌, refl, arith, ap, length, length-set, length-append,
  length-replicate, set, replicate,
}
use skynet_server.Mq.{
  Message, Queue, create, take_overload, raise_overload, pop, copy_cells, expand_queue, put,
  advance, distance,
}

pub record IsValid (q : Queue) : Type 0 where
  pub cells : length q.queue ≡ q.cap
  pub head_in : q.head < q.cap
  pub tail_in : q.tail < q.cap
  pub threshold_pos : 0 < q.overload_threshold

pub create-IsValid : (junk : Message) (handle : ℕ) → IsValid (create junk handle)
unfolding create
create-IsValid junk handle = omega arith

-- What the loop that raises the threshold leaves alone.
pub record SameRing (q r : Queue) : Type 0 where
  pub handle : r.handle ≡ q.handle
  pub cap : r.cap ≡ q.cap
  pub head : r.head ≡ q.head
  pub tail : r.tail ≡ q.tail
  pub queue : r.queue ≡ q.queue
  pub in_global : r.in_global ≡ q.in_global
  pub release : r.release ≡ q.release
  pub next : r.next ≡ q.next
  pub threshold : q.overload_threshold ≤ r.overload_threshold

pub raise_overload-SameRing : (fuel len : ℕ) (q : Queue) → SameRing q (raise_overload fuel len q)
unfolding raise_overload
raise_overload-SameRing zero len q = ground arith
raise_overload-SameRing (suc fuel) len q = ground (
  arith,
  raise_overload-SameRing fuel len
      (record q { overload = len; overload_threshold = q.overload_threshold * 2 }),
)

pub length-copy_cells : (junk : Message) (q : Queue) (i n : ℕ) → length (copy_cells junk q i n) ≡ n
unfolding copy_cells
length-copy_cells junk q i zero = refl
length-copy_cells junk q i (suc n) = ap suc (length-copy_cells junk q (i + 1) n)

pub pop-IsValid : (junk : Message) (q : Queue) → IsValid q → IsValid (pop junk q).1
unfolding pop
pop-IsValid junk q v =
    let len = distance q.cap (advance q.cap q.head) q.tail in
    ground (arith, raise_overload-SameRing len len (record q { head = advance q.cap q.head }))

pub expand_queue-IsValid : (junk : Message) (q : Queue) → IsValid q → IsValid (expand_queue junk q)
unfolding expand_queue
expand_queue-IsValid junk q v = ground (
  arith,
  length-append (copy_cells junk q 0 q.cap) (replicate q.cap junk),
  length-copy_cells junk q 0 q.cap,
  length-replicate q.cap junk,
)

-- A message can always be stored: the ring grows when its last free cell is taken.
pub put-IsValid : (junk : Message) (q : Queue) (m : Message) → IsValid q → IsValid (put junk q m)
unfolding put
put-IsValid junk q m v =
    let stored = record q { queue = set q.queue q.tail m; tail = advance q.cap q.tail } in
    ground (arith, length-set q.queue q.tail m, expand_queue-IsValid junk stored)

pub take_overload-IsValid : (q : Queue) → IsValid q → IsValid (take_overload q).1
unfolding take_overload
take_overload-IsValid q v = ground arith

-- `skynet_mq_push` leaves the flags and the link alone, until it schedules the queue.
pub record SameFlags (q r : Queue) : Type 0 where
  pub handle : r.handle ≡ q.handle
  pub in_global : r.in_global ≡ q.in_global
  pub release : r.release ≡ q.release
  pub next : r.next ≡ q.next

pub put-SameFlags : (junk : Message) (q : Queue) (m : Message) → SameFlags q (put junk q m)
unfolding put
put-SameFlags junk q m = ground arith
