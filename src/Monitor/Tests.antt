-- ===== src/Monitor/Tests.antt =====
-- Runs of skynet/skynet-src/skynet_monitor.c.
use skynet_server.Common.{[], ◌≡◌, some, arith}
use skynet_server.Monitor.{Monitor, check}
use skynet_server.Monitor.Endless.{check_twice, triggers}

-- A message from context 3 to context 4 is being dispatched.
abbrev busy : Monitor
busy = record { version = 5; check_version = 4; source = 3; destination = 4 }

check_twice_example : (check (triggers [] (check busy).1)).0 ≡ some 4
check_twice_example = check_twice [] busy (omega arith) (omega arith)
