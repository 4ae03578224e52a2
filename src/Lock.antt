-- ===== src/Lock.antt =====
-- skynet/skynet-src/rwlock.h, without USE_PTHREAD_LOCK: the lock of readers and writers, as steps
-- of threads. A step is one atomic access of a thread to the lock, so that the steps of different
-- threads interleave in any order, and memory is sequentially consistent.
pub mod Total
pub mod Exclusion
mod Tests
use skynet_server.Common.{List, [], ◌∷◌}
use skynet_server.Common.{Bool, List, ℕ, get_or, if◌then◌else◌, set, ◌==◌, ◌+◌, ◌-◌}

-- `struct rwlock`
pub record Lock : Type 0 where
  pub write : ℕ
  pub read : ℕ

-- Where a thread is in the functions of the lock.
pub data Phase : Type 0 where
  -- Outside.
  idle : Phase
  -- In rwlock_rlock, in `while(lock->write)`.
  waiting : Phase
  -- Before `__sync_add_and_fetch(&lock->read,1)`.
  entering : Phase
  -- Before `if (lock->write)`.
  counted : Phase
  -- Before `__sync_sub_and_fetch(&lock->read,1)` of rwlock_rlock.
  backing : Phase
  -- Between rwlock_rlock and rwlock_runlock.
  reading : Phase
  -- In rwlock_wlock, before `__sync_lock_test_and_set(&lock->write,1)`.
  spinning : Phase
  -- In `while(lock->read)`.
  flagged : Phase
  -- Between rwlock_wlock and rwlock_wunlock.
  writing : Phase

-- `rwlock_init`
unfoldable pub init : Lock
init = record { write = 0; read = 0 }

-- The next step of a thread; `wants` is whether an idle one begins to write or to read.
unfoldable pub advance : Bool → Phase → Lock → Phase × Lock
advance wants idle l = (if wants then spinning else waiting, l)
advance wants waiting l = (if l.write == 0 then entering else waiting, l)
advance wants entering l = (counted, record l { read = l.read + 1 })
advance wants counted l = (if l.write == 0 then reading else backing, l)
advance wants backing l = (waiting, record l { read = l.read - 1 })
advance wants reading l = (idle, record l { read = l.read - 1 })
advance wants spinning l = (if l.write == 0 then flagged else spinning, record l { write = 1 })
advance wants flagged l = (if l.read == 0 then writing else flagged, l)
advance wants writing l = (idle, record l { write = 0 })

pub record Threads : Type 0 where
  pub lock : Lock
  pub phases : List Phase

abbrev pub phase_of : Threads → ℕ → Phase
phase_of s i = get_or s.phases i idle

-- A step of thread `i`; a thread that is not there does nothing.
unfoldable pub step : Bool → ℕ → Threads → Threads
unfolding advance
step wants i s =
    let (p, l) = advance wants (phase_of s i) s.lock in
    record { lock = l; phases = set s.phases i p }

unfoldable pub run : List (Bool × ℕ) → Threads → Threads
unfolding step
run [] s = s
run ((wants, i) ∷ steps) s = run steps (step wants i s)
