-- ===== src/Mq/Global.antt =====
-- skynet/skynet-src/skynet_mq.c: the global queue, a list of queues linked through `next`, and the
-- operations of a queue that touch it. A pointer is a number, `cell` is the memory that holds the
-- queues, and `none` is a failed assert or a read through a dangling pointer.
pub mod Chain
pub mod Ops
use skynet_server.Common.{
  ℕ, ◌+◌, Bool, true, false, not, ◌&&◌, ◌||◌, Option, none, some, List, [], ◌==◌, if◌then◌else◌,
  ◌≡◌, ==_iff, ◌≢◌, ==_of_ne,
}
use skynet_server.Common.Options.{◌>>=◌, ◌>>◌, assert, update, is_none, is_some_eq}
use skynet_server.Mq.{Message, Queue, create, pop, put, size, drop_all, mq_in_global}

-- The queues that are allocated, and `struct global_queue`.
pub record World : Type 0 where
  pub cell : ℕ → Option Queue
  pub head : Option ℕ
  pub tail : Option ℕ

abbrev pub store : ℕ → Queue → World → World
store p q w = record w { cell = update w.cell p q }

-- `skynet_mq_init`
unfoldable pub init : (ℕ → Option Queue) → World
init cell = record { cell = cell; head = none; tail = none }

-- `if (q->tail) … else …` of `skynet_globalmq_push`
unfoldable pub link_last : ℕ → Option ℕ → World → Option World
link_last p (some t) w = do
  last ← w.cell t
  some (record (store t (record last { next = some p }) w) { tail = some p })
link_last p none w = some (record w { head = some p; tail = some p })

unfoldable pub globalmq_push : ℕ → World → Option World
unfolding link_last
globalmq_push p w = do q ← w.cell p; assert (is_none q.next); link_last p w.tail w

-- `q->head = mq->next`, and `q->tail = NULL` after the last.
unfoldable pub unlink_first : ℕ → Option ℕ → World → Option World
unlink_first p (some n) w = some (record w { head = some n })
unlink_first p none w = do
  assert (is_some_eq p w.tail)
  some (record w { head = none; tail = none })

unfoldable pub take_first : Option ℕ → World → Option (Option ℕ × World)
unfolding unlink_first
take_first none w = some (none, w)
take_first (some p) w = do
  q ← w.cell p
  w' ← unlink_first p q.next w
  some (some p, store p (record q { next = none }) w')

unfoldable pub globalmq_pop : World → Option (Option ℕ × World)
unfolding take_first
globalmq_pop w = take_first w.head w

-- `skynet_mq_create`, where `p` is what the allocator returned.
unfoldable pub mq_create : Message → ℕ → ℕ → World → World
mq_create junk p handle w = store p (create junk handle) w

unfoldable pub mq_push : Message → ℕ → Message → World → Option World
mq_push junk p m w = do
  q ← w.cell p
  if (put junk q m).in_global == 0
      then globalmq_push p (store p (record (put junk q m) { in_global = mq_in_global }) w)
      else some (store p (put junk q m) w)

unfoldable pub mq_pop : Message → ℕ → World → Option (Option Message × World)
mq_pop junk p w = do q ← w.cell p; some ((pop junk q).0, store p (pop junk q).1 w)

unfoldable pub mq_mark_release : ℕ → World → Option World
mq_mark_release p w = do
  q ← w.cell p
  assert (q.release == 0)
  let w' = store p (record q { release = 1 }) w
  if q.in_global == mq_in_global then some w' else globalmq_push p w'

-- `_release`: the memory of the queue is given back.
unfoldable pub free : ℕ → World → World
free p w = record w { cell = λ k. if p == k then none else w.cell k }

-- `_drop_queue`: what `drop_func` is called with, and the memory after. A queue holds `size q`
-- messages, so the loop takes one round more.
unfoldable pub drop_queue : Message → ℕ → Queue → World → Option (List Message × World)
unfolding free
drop_queue junk p q w = do
  assert (is_none (drop_all (size q + 1) junk q).1.next)
  some ((drop_all (size q + 1) junk q).0, free p w)

unfoldable pub mq_release : Message → ℕ → World → Option (List Message × World)
unfolding drop_queue
mq_release junk p w = do
  q ← w.cell p
  if q.release == 0 then (globalmq_push p w >>= (λ w'. some ([], w'))) else drop_queue junk p q w

-- The two branches of `skynet_mq_push`: an idle queue is scheduled, any other only filled.
pub mq_push-idle :
    (junk : Message) (p : ℕ) (m : Message) (w : World) (q : Queue)
    → w.cell p ≡ some q
    → (put junk q m).in_global ≡ 0
    → mq_push junk p m w
      ≡ globalmq_push p (store p (record (put junk q m) { in_global = mq_in_global }) w)
unfolding mq_push
mq_push-idle junk p m w q c e = rw (c, (==_iff (put junk q m).in_global 0).1 e)

pub mq_push-scheduled :
    (junk : Message) (p : ℕ) (m : Message) (w : World) (q : Queue)
    → w.cell p ≡ some q
    → (put junk q m).in_global ≢ 0
    → mq_push junk p m w ≡ some (store p (put junk q m) w)
unfolding mq_push
mq_push-scheduled junk p m w q c ne = rw (c, ==_of_ne ne)

-- The branches of `skynet_mq_mark_release`.
pub mark_release-idle :
    (p : ℕ) (w : World) (q : Queue)
    → w.cell p ≡ some q
    → q.release ≡ 0
    → q.in_global ≢ 1
    → mq_mark_release p w ≡ globalmq_push p (store p (record q { release = 1 }) w)
unfolding mq_mark_release
mark_release-idle p w q c r ne = rw (c, (==_iff q.release 0).1 r, ==_of_ne ne)

pub mark_release-scheduled :
    (p : ℕ) (w : World) (q : Queue)
    → w.cell p ≡ some q
    → q.release ≡ 0
    → q.in_global ≡ 1
    → mq_mark_release p w ≡ some (store p (record q { release = 1 }) w)
unfolding mq_mark_release
mark_release-scheduled p w q c r e = rw (c, (==_iff q.release 0).1 r, (==_iff q.in_global 1).1 e)

-- The branches of `skynet_mq_release`.
pub mq_release-kept :
    (junk : Message) (p : ℕ) (w w' : World) (q : Queue)
    → w.cell p ≡ some q
    → q.release ≡ 0
    → globalmq_push p w ≡ some w'
    → mq_release junk p w ≡ some ([], w')
unfolding mq_release
mq_release-kept junk p w w' q c r e = rw (c, (==_iff q.release 0).1 r, e)

pub mq_release-dropped :
    (junk : Message) (p : ℕ) (w : World) (q : Queue)
    → w.cell p ≡ some q
    → q.release ≢ 0
    → mq_release junk p w ≡ drop_queue junk p q w
unfolding mq_release
mq_release-dropped junk p w q c r = rw (c, ==_of_ne r)

pub drop_queue-free :
    (junk : Message) (p : ℕ) (q : Queue) (w : World)
    → (drop_all (size q + 1) junk q).1.next ≡ none
    → drop_queue junk p q w ≡ some ((drop_all (size q + 1) junk q).0, free p w)
unfolding drop_queue
drop_queue-free junk p q w e = rw e
