-- ===== src/Mq/Dispatch.antt =====
-- skynet/skynet-src/skynet_mq.c as skynet_server.c drives it: which queue is scheduled, and when.
-- A worker takes a queue from the global queue, pops messages while the service is alive, and
-- either puts the queue back, or leaves it when it is empty, or releases it with its service.
pub mod Inv
pub mod Steps
pub mod Posting
pub mod Safe
pub mod Wakeup
use skynet_server.Common.{ℕ, Bool, true, false, ◌||◌, ◌&&◌, Option, none, some, ◌==◌, if◌then◌else◌}
use skynet_server.Common.Options.{◌>>=◌, ◌>>◌, assert, is_none}
use skynet_server.Mq.{Message, Queue, pop}
use skynet_server.Mq.Global.{
  World, store, globalmq_push, globalmq_pop, mq_create, mq_push, mq_pop, mq_mark_release,
  mq_release,
}

-- The memory, and the queues that are in a worker's hands, or in those of their creator.
pub record Node : Type 0 where
  pub world : World
  pub busy : ℕ → Bool

abbrev pub hold : ℕ → Bool → (ℕ → Bool) → ℕ → Bool
hold p b busy k = if p == k then b else busy k

-- The calls, each one critical section.
pub data Event : Type 0 where
  creates : ℕ → ℕ → Event
  posts : ℕ → Message → Event
  takes : Event
  pops : ℕ → Event
  puts_back : ℕ → Event
  marks : ℕ → Event
  releases : ℕ → Event

-- A worker that finds no message has given the queue up.
abbrev pub after_pop : ℕ → (ℕ → Bool) → Option Message → ℕ → Bool
after_pop p busy none = hold p false busy
after_pop p busy (some m) = busy

abbrev pub after_take : (ℕ → Bool) → Option ℕ → ℕ → Bool
after_take busy none = busy
after_take busy (some p) = hold p true busy

unfoldable pub step : Message → Event → Node → Option Node
step junk (creates p handle) s =
    some (record { world = mq_create junk p handle s.world; busy = hold p true s.busy })
step junk (posts p m) s = do w ← mq_push junk p m s.world; some (record s { world = w })
step junk takes s = do
  (p, w) ← globalmq_pop s.world
  some (record { world = w; busy = after_take s.busy p })
step junk (pops p) s = do
  (m, w) ← mq_pop junk p s.world
  some (record { world = w; busy = after_pop p s.busy m })
step junk (puts_back p) s = do
  w ← globalmq_push p s.world
  some (record { world = w; busy = hold p false s.busy })
step junk (marks p) s = do w ← mq_mark_release p s.world; some (record s { world = w })
step junk (releases p) s = do
  (ms, w) ← mq_release junk p s.world
  some (record { world = w; busy = hold p false s.busy })

-- What the rest of the program guarantees of each call: the allocator returns memory that is free;
-- only an allocated queue is used; `skynet_mq_push` and `skynet_mq_pop` need the service, which is
-- alive until `skynet_mq_mark_release`; a worker works on the queue in its hands.
abbrev pub alive : Option Queue → Bool
alive none = false
alive (some q) = q.release == 0

abbrev pub allocated : Option Queue → Bool
allocated none = false
allocated (some q) = true

abbrev pub enabled : Node → Event → Bool
enabled s (creates p handle) = is_none (s.world.cell p)
enabled s (posts p m) = alive (s.world.cell p)
enabled s takes = true
enabled s (pops p) = alive (s.world.cell p) && s.busy p
enabled s (puts_back p) = allocated (s.world.cell p) && s.busy p
enabled s (marks p) = alive (s.world.cell p)
enabled s (releases p) = allocated (s.world.cell p) && s.busy p
