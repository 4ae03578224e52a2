-- ===== src/Timer/Turn.antt =====
-- `timer_shift`: one tick keeps the nodes that it does not move where they belong.
use skynet_server.Timer.Placed.{DueNear, DueLevel, IsDue, Begins}
use skynet_server.Common.{ℕ, zero, suc, inl}
use skynet_server.Common.{ℕ, Option, ◌+◌, ◌<◌, ◌%◌, ◌^◌, some, ◌≢◌, arith, inl, suc, ap, none}

-- The next tick.
abbrev pub next_tick : ℕ → ℕ
next_tick ct = (ct + 1) % 2 ^ 32

-- A node of `near` that is not due now stays.
pub stays-DueNear :
    (ct i e : ℕ) → ct < 2 ^ 32 → e < 2 ^ 32 → DueNear ct i e → e ≢ ct → DueNear (next_tick ct) i e
stays-DueNear ct i e a b (f, g, h) ne = (f, omega arith, omega arith)

-- A node of a level stays, unless its list is moved.
pub stays-DueLevel :
    (ct l i e : ℕ) (p : Option (ℕ × ℕ))
    → ct < 2 ^ 32
    → e < 2 ^ 32
    → DueLevel ct l i e
    → Begins (next_tick ct) p
    → p ≢ some (l, i)
    → DueLevel (next_tick ct) l i e
stays-DueLevel ct zero i e none a b (f, g, h) q ne = (f, omega arith, omega arith)
stays-DueLevel ct zero i e (some (zero, j)) a b (f, g, h) (q, r, s) ne =
    let apart : j ≢ i = λ x. ne (ap (λ k. some (0, k)) x) in (f, omega arith, omega arith)
stays-DueLevel ct zero i e (some (suc zero, j)) a b (f, g, h) (q, r, s) ne =
    (f, omega arith, omega arith)
stays-DueLevel ct zero i e (some (suc (suc zero), j)) a b (f, g, h) (q, r, s) ne =
    (f, omega arith, omega arith)
stays-DueLevel ct zero i e (some (suc (suc (suc zero)), j)) a b (f, g, h) (q, r) ne =
    (f, omega arith, omega arith)
stays-DueLevel ct (suc zero) i e none a b (f, g, h) q ne = (f, omega arith, omega arith)
stays-DueLevel ct (suc zero) i e (some (zero, j)) a b (f, g, h) (q, r, s) ne =
    (f, omega arith, omega arith)
stays-DueLevel ct (suc zero) i e (some (suc zero, j)) a b (f, g, h) (q, r, s) ne =
    let apart : j ≢ i = λ x. ne (ap (λ k. some (1, k)) x) in (f, omega arith, omega arith)
stays-DueLevel ct (suc zero) i e (some (suc (suc zero), j)) a b (f, g, h) (q, r, s) ne =
    (f, omega arith, omega arith)
stays-DueLevel ct (suc zero) i e (some (suc (suc (suc zero)), j)) a b (f, g, h) (q, r) ne =
    (f, omega arith, omega arith)
stays-DueLevel ct (suc (suc zero)) i e none a b (f, g, h) q ne = (f, omega arith, omega arith)
stays-DueLevel ct (suc (suc zero)) i e (some (zero, j)) a b (f, g, h) (q, r, s) ne =
    (f, omega arith, omega arith)
stays-DueLevel ct (suc (suc zero)) i e (some (suc zero, j)) a b (f, g, h) (q, r, s) ne =
    (f, omega arith, omega arith)
stays-DueLevel ct (suc (suc zero)) i e (some (suc (suc zero), j)) a b (f, g, h) (q, r, s) ne =
    let apart : j ≢ i = λ x. ne (ap (λ k. some (2, k)) x) in (f, omega arith, omega arith)
stays-DueLevel ct (suc (suc zero)) i e (some (suc (suc (suc zero)), j)) a b (f, g, h) (q, r) ne =
    (f, omega arith, omega arith)
stays-DueLevel ct (suc (suc (suc zero))) i e none a b (f, g) q ne = (f, omega arith)
stays-DueLevel ct (suc (suc (suc zero))) i e (some (zero, j)) a b (f, g) (q, r, s) ne =
    (f, omega arith)
stays-DueLevel ct (suc (suc (suc zero))) i e (some (suc zero, j)) a b (f, g) (q, r, s) ne =
    (f, omega arith)
stays-DueLevel ct (suc (suc (suc zero))) i e (some (suc (suc zero), j)) a b (f, g) (q, r, s) ne =
    (f, omega arith)
stays-DueLevel ct (suc (suc (suc zero))) i e (some (suc (suc (suc zero)), j)) a b (f, g) (q, r) ne =
    let apart : j ≢ i = λ x. ne (ap (λ k. some (3, k)) x) in (f, omega arith)
stays-DueLevel ct zero i e (some (suc (suc (suc (suc m))), j)) a b d q ne = absurd q
stays-DueLevel ct (suc zero) i e (some (suc (suc (suc (suc m))), j)) a b d q ne = absurd q
stays-DueLevel ct (suc (suc zero)) i e (some (suc (suc (suc (suc m))), j)) a b d q ne = absurd q
stays-DueLevel ct (suc (suc (suc zero))) i e (some (suc (suc (suc (suc m))), j)) a b d q ne =
    absurd q
stays-DueLevel ct (suc (suc (suc (suc l)))) i e p a b d q ne = d

-- A node of the list that is moved is due from now on.
pub leaves-IsDue :
    (ct l i e : ℕ)
    → ct < 2 ^ 32
    → e < 2 ^ 32
    → DueLevel ct l i e
    → Begins (next_tick ct) (some (l, i))
    → IsDue (next_tick ct) e
leaves-IsDue ct zero i e a b (f, g, h) (q, r, s) = (b, inl (omega arith))
leaves-IsDue ct (suc zero) i e a b (f, g, h) (q, r, s) = (b, inl (omega arith))
leaves-IsDue ct (suc (suc zero)) i e a b (f, g, h) (q, r, s) = (b, inl (omega arith))
leaves-IsDue ct (suc (suc (suc zero))) i e a b (f, g) (q, r) = (b, inl (omega arith))
leaves-IsDue ct (suc (suc (suc (suc l)))) i e a b d q = absurd d
