-- ===== src/Lock/Tests.antt =====
-- Runs of the lock of skynet/skynet-src/rwlock.h.
use skynet_server.Common.{List, [], ◌∷◌, refl, true, false, Bool, ℕ, ◌≡◌, ◌≢◌, ◌≤◌}
use skynet_server.Lock.{writing, reading, run, phase_of, init}
use skynet_server.Lock.Exclusion.{start, mutual_exclusion, counts_right}
use skynet_server.Lock.Total.{total, inside, holding}

-- Thread 0 takes the lock to write, and thread 1 tries to read meanwhile.
abbrev schedule : List (Bool × ℕ)
schedule =
    (true, 0)
    ∷ (false, 1)
    ∷ (true, 1)
    ∷ (true, 0)
    ∷ (true, 1)
    ∷ (true, 1)
    ∷ (true, 1)
    ∷ (true, 0)
    ∷ []

mutual_exclusion_example :
    (phase_of (run schedule (start 2)) 1 ≢ writing)
    × (phase_of (run schedule (start 2)) 1 ≢ reading)
unfolding run init
mutual_exclusion_example = mutual_exclusion 2 schedule 0 1 (λ e. cc) refl

counts_right_example :
    let s = run schedule (start 2) in
    (s.lock.read ≡ total inside s.phases)
    × (s.lock.write ≡ total holding s.phases)
    × (s.lock.write ≤ 1)
counts_right_example = counts_right 2 schedule
