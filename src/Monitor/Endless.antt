-- ===== src/Monitor/Endless.antt =====
-- What the checks of skynet/skynet-src/skynet_monitor.c find.
use skynet_server.Common.{
  ℕ, suc, List, [], ◌∷◌, refl, inl, inr, ◌<◌, ◌≡◌, ◌≢◌, Bool-cases, if◌then◌else◌, none, ◌^◌,
  ==_of_ne, length, ◌+◌, ◌==◌, some, sym, ◌%◌, ==_iff, ap, arith, true, ◌∙◌, false,
}
use skynet_server.Monitor.{Monitor, trigger, check}

-- Messages that a worker begins or ends, each with its source and destination.
unfoldable pub triggers : List (ℕ × ℕ) → Monitor → Monitor
unfolding trigger
triggers [] m = m
triggers ((source, destination) ∷ rest) m = triggers rest (trigger source destination m)

check-changed : (m : Monitor) → m.version ≢ m.check_version → (check m).0 ≡ none
unfolding check
check-changed m ne = rw (==_of_ne ne) refl

check-noted : (m : Monitor) → (check m).1.check_version ≡ m.version
unfolding check
check-noted m = elim (Bool-cases (m.version == m.check_version)) [
  | inl e ↦ rw e (sym ((==_iff m.version m.check_version).0 e))
  | inr e ↦ rw e refl
]

check-keeps :
    (m : Monitor) → ((check m).1.version ≡ m.version) × ((check m).1.destination ≡ m.destination)
unfolding check
check-keeps m = elim (Bool-cases (m.version == m.check_version)) [
  | inl e ↦ rw e (refl, refl)
  | inr e ↦ rw e (refl, refl)
]

check-same :
    (m : Monitor)
    → m.version ≡ m.check_version
    → (check m).0 ≡ (if m.destination == 0 then none else some m.destination)
unfolding check
check-same m e = let h : (m.version == m.check_version) ≡ true = ground arith in rw h refl

triggers-version :
    (ts : List (ℕ × ℕ)) (m : Monitor)
    → m.version < 2 ^ 32
    → ((triggers ts m).version ≡ (m.version + length ts) % 2 ^ 32)
      × ((triggers ts m).check_version ≡ m.check_version)
unfolding triggers trigger
triggers-version [] m lt = (omega arith, refl)
triggers-version ((s, d) ∷ ts) m lt =
    let (a, b) = triggers-version ts (trigger s d m) (omega arith) in (omega arith, b)

check-at_rest :
    (m : Monitor)
    → (check (check m).1).0 ≡ (if m.destination == 0 then none else some m.destination)
check-at_rest m =
    check-same (check m).1 ((check-keeps m).0 ∙ sym (check-noted m))
    ∙ ap (λ d. if d == 0 then none else some d) (check-keeps m).1

-- Two calls of `skynet_monitor_check` with less than 2^32 calls of `skynet_monitor_trigger` between
-- them: with none, the second reports the destination of the message that is being dispatched,
-- and nothing if there is none; with at least one, it reports nothing.
pub check_twice :
    (ts : List (ℕ × ℕ)) (m : Monitor)
    → m.version < 2 ^ 32
    → length ts < 2 ^ 32
    → (check (triggers ts (check m).1)).0
      ≡ (if length ts == 0 then (if m.destination == 0 then none else some m.destination) else none)
unfolding triggers
check_twice [] m lt few = check-at_rest m
check_twice (t ∷ ts) m lt few =
    let (kept, dest) = check-keeps m in
    let noted = check-noted m in
    let (a, b) = triggers-version (t ∷ ts) (check m).1 (omega arith) in
    let taken : (suc (length ts) == 0) ≡ false = ground arith in
    check-changed (triggers (t ∷ ts) (check m).1) (λ e. omega arith) ∙ (rw taken refl)
