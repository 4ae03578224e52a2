-- ===== src/Monitor.antt =====
-- skynet/skynet-src/skynet_monitor.c: whether a worker thread is stuck in one message.
mod Endless
mod Tests
use skynet_server.Common.{Option, ℕ, if◌then◌else◌, ◌+◌, ◌%◌, ◌==◌, none, ◌^◌, some}

-- `struct skynet_monitor`
pub record Monitor : Type 0 where
  pub version : ℕ
  pub check_version : ℕ
  pub source : ℕ
  pub destination : ℕ

-- `skynet_monitor_new`
unfoldable pub new : Monitor
new = record { version = 0; check_version = 0; source = 0; destination = 0 }

-- `skynet_monitor_trigger`
unfoldable pub trigger : ℕ → ℕ → Monitor → Monitor
trigger source destination m = record {
  version = (m.version + 1) % 2 ^ 32;
  check_version = m.check_version;
  source = source;
  destination = destination;
}

-- `skynet_monitor_check`: the context that is taken to be in an endless loop, if there is one.
unfoldable pub check : Monitor → Option ℕ × Monitor
check m =
    if m.version == m.check_version
    then (if m.destination == 0 then none else some m.destination, m)
    else (none, record m { check_version = m.version })
