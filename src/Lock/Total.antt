-- ===== src/Lock/Total.antt =====
-- Sums over the phases of the threads of skynet/skynet-src/rwlock.h.
use skynet_server.Common.{
  ℕ, zero, suc, List, [], ◌∷◌, refl, ◌+◌, ◌≡◌, ◌≤◌, arith, get_or, ◌<◌, ◌≢◌, ap, length, set,
}
use skynet_server.Lock.{Phase, idle, counted, backing, reading, flagged, writing}

abbrev pub total : (Phase → ℕ) → List Phase → ℕ
total f [] = 0
total f (p ∷ ps) = f p + total f ps

pub total-set :
    (f : Phase → ℕ) (ps : List Phase) (i : ℕ) (p : Phase)
    → f idle ≡ 0
    → i < length ps
    → total f (set ps i p) + f (get_or ps i idle) ≡ total f ps + f p
total-set f [] i p e lt = absurd (omega arith)
total-set f (q ∷ ps) zero p e lt = omega arith
total-set f (q ∷ ps) (suc i) p e lt = omega (arith, total-set f ps i p e (omega arith))

pub total_at :
    (f : Phase → ℕ) (ps : List Phase) (i : ℕ) → f idle ≡ 0 → f (get_or ps i idle) ≤ total f ps
total_at f [] i e = omega arith
total_at f (q ∷ ps) zero e = omega arith
total_at f (q ∷ ps) (suc i) e = omega (arith, total_at f ps i e)

pub total_two :
    (f : Phase → ℕ) (ps : List Phase) (i j : ℕ)
    → f idle ≡ 0
    → i ≢ j
    → f (get_or ps i idle) + f (get_or ps j idle) ≤ total f ps
total_two f [] i j e ne = omega arith
total_two f (q ∷ ps) zero zero e ne = absurd (ne refl)
total_two f (q ∷ ps) zero (suc j) e ne = omega (arith, total_at f ps j e)
total_two f (q ∷ ps) (suc i) zero e ne = omega (arith, total_at f ps i e)
total_two f (q ∷ ps) (suc i) (suc j) e ne = omega (arith, total_two f ps i j e (λ h. ne (ap suc h)))

pub total-le :
    (f g : Phase → ℕ) (ps : List Phase) → ((p : Phase) → f p ≤ g p) → total f ps ≤ total g ps
total-le f g [] h = omega arith
total-le f g (q ∷ ps) h = let a = h q in let b = total-le f g ps h in omega arith

-- A thread counts in `lock->read`.
abbrev pub inside : Phase → ℕ
inside counted = 1
inside backing = 1
inside reading = 1
inside _ = 0

-- A thread has set `lock->write`.
abbrev pub holding : Phase → ℕ
holding flagged = 1
holding writing = 1
holding _ = 0

abbrev pub reads : Phase → ℕ
reads reading = 1
reads _ = 0

abbrev pub writes : Phase → ℕ
writes writing = 1
writes _ = 0

pub reads-inside : (p : Phase) → reads p ≤ inside p
reads-inside p = grind arith

pub writes-holding : (p : Phase) → writes p ≤ holding p
writes-holding p = grind arith
