-- ===== src/Lock/Exclusion.antt =====
-- The lock of skynet/skynet-src/rwlock.h keeps writers from readers and from each other.
use skynet_server.Common.{true, false, replicate, get_or, set, Bool}
use skynet_server.Common.{
  ℕ, zero, suc, List, [], ◌∷◌, inl, inr, refl, ◌<◌, ◌≡◌, length, ◌≤◌, ◌+◌, ◌⊎◌, set, ap, sym, ◌∙◌,
  subst, arith, Bool, if◌then◌else◌, dec_lt, ◌==◌, ◌≢◌, Bool-cases, ==_iff, ◌-◌,
}
use skynet_server.Lock.{init}
use skynet_server.Lock.{
  Lock, Threads, Phase, idle, waiting, entering, counted, backing, reading, spinning, flagged,
  writing, advance, step, phase_of, run,
}
use skynet_server.Lock.Total.{
  total, total-set, total_at, total_two, total-le, inside, holding, reads, writes, reads-inside,
  writes-holding,
}

pub record IsValid (s : Threads) : Type 0 where
  pub counts : s.lock.read ≡ total inside s.phases
  pub flags : s.lock.write ≡ total holding s.phases
  pub one : s.lock.write ≤ 1
  pub apart : (total writes s.phases ≡ 0) ⊎ (total reads s.phases ≡ 0)

-- What the step of one thread adds to the sums.
module _ (s : Threads) (i : ℕ) (v : IsValid s) (lt : i < length s.phases) where
  moved_to :
      (q p : Phase) (l : Lock)
      → phase_of s i ≡ q
      → l.read + inside q ≡ s.lock.read + inside p
      → l.write + holding q ≡ s.lock.write + holding p
      → l.write ≤ 1
      → (total writes s.phases + writes p ≡ writes q)
        ⊎ (total reads s.phases + reads p ≡ reads q)
        ⊎ ((writes p ≤ writes q) × (reads p ≤ reads q))
      → IsValid (record { lock = l; phases = set s.phases i p })
  moved_to q p l e a b one c = record {
    counts = omega (arith, v.counts, sum inside refl);
    flags = omega (arith, v.flags, sum holding refl);
    one = one;
    apart = elim c [
      | inl d ↦ inl (omega (arith, sum writes refl))
      | inr (inl d) ↦ inr (omega (arith, sum reads refl))
      | inr (inr (d, d')) ↦ elim v.apart [
        | inl none ↦ inl (omega (arith, sum writes refl, at writes refl))
        | inr none ↦ inr (omega (arith, sum reads refl, at reads refl))
      ]
    ];
  }
    where
      sum : (f : Phase → ℕ) → f idle ≡ 0 → total f (set s.phases i p) + f q ≡ total f s.phases + f p
      sum f z = ap (λ x. total f (set s.phases i p) + f x) (sym e) ∙ total-set f s.phases i p z lt

      at : (f : Phase → ℕ) → f idle ≡ 0 → f q ≤ total f s.phases
      at f z = subst (λ x. f x ≤ total f s.phases) e (total_at f s.phases i z)

module _ (wants : Bool) (i : ℕ) (s : Threads) (v : IsValid s) (lt : i < length s.phases) where
  abbrev after : Phase → Threads
  after q = let (p, l) = advance wants q s.lock in record { lock = l; phases = set s.phases i p }

  -- The part of a phase in the sums.
  part : (f : Phase → ℕ) → f idle ≡ 0 → (q : Phase) → phase_of s i ≡ q → f q ≤ total f s.phases
  part f z q e = subst (λ x. f x ≤ total f s.phases) e (total_at f s.phases i z)

  step_from : (q : Phase) → phase_of s i ≡ q → IsValid (after q)
  unfolding advance
  step_from idle e =
      elim wants
        as (λ b.
          IsValid
            (record { lock = s.lock; phases = set s.phases i (if b then spinning else waiting) })) [
              | true ↦
                  moved_to s i v lt idle spinning s.lock e (omega arith) (omega arith) v.one
                    (inr (inr (omega arith, omega arith)))
              | false ↦
                  moved_to s i v lt idle waiting s.lock e (omega arith) (omega arith) v.one
                    (inr (inr (omega arith, omega arith)))
            ]
  step_from waiting e =
      elim (s.lock.write == 0)
        as (λ b.
          IsValid
            (record { lock = s.lock; phases = set s.phases i (if b then entering else waiting) })) [
              | true ↦
                  moved_to s i v lt waiting entering s.lock e (omega arith) (omega arith) v.one
                    (inr (inr (omega arith, omega arith)))
              | false ↦
                  moved_to s i v lt waiting waiting s.lock e (omega arith) (omega arith) v.one
                    (inr (inr (omega arith, omega arith)))
            ]
  step_from entering e =
      moved_to s i v lt entering counted (record s.lock { read = s.lock.read + 1 }) e (omega arith)
        (omega arith) v.one (inr (inr (omega arith, omega arith)))
  step_from counted e = elim (Bool-cases (s.lock.write == 0)) [
    | inl free ↦ rw free (
        moved_to s i v lt counted reading s.lock e (omega arith) (omega arith) v.one (
          inl (
            let z = (==_iff s.lock.write 0).0 free in
            let le = total-le writes holding s.phases writes-holding in omega (arith, v.flags))))
    | inr taken ↦ rw taken (
        moved_to s i v lt counted backing s.lock e (omega arith) (omega arith) v.one
          (inr (inr (omega arith, omega arith))))
  ]
  step_from backing e =
      let has : 1 ≤ total inside s.phases = part inside refl backing e in
      moved_to s i v lt backing waiting (record s.lock { read = s.lock.read - 1 }) e
        (omega (arith, v.counts)) (omega arith) v.one (inr (inr (omega arith, omega arith)))
  step_from reading e =
      let has : 1 ≤ total inside s.phases = part inside refl reading e in
      moved_to s i v lt reading idle (record s.lock { read = s.lock.read - 1 }) e
        (omega (arith, v.counts)) (omega arith) v.one (inr (inr (omega arith, omega arith)))
  step_from spinning e = elim (Bool-cases (s.lock.write == 0)) [
    | inl free ↦
        let z = (==_iff s.lock.write 0).0 free in
        rw free (
          moved_to s i v lt spinning flagged (record s.lock { write = 1 }) e (omega arith)
            (omega arith) (omega arith) (inr (inr (omega arith, omega arith))))
    | inr taken ↦
        let z : s.lock.write ≢ 0 = ground arith in
        let o = v.one in
        rw taken (
          moved_to s i v lt spinning spinning (record s.lock { write = 1 }) e (omega arith)
            (omega arith) (omega arith) (inr (inr (omega arith, omega arith))))
  ]
  step_from flagged e = elim (Bool-cases (s.lock.read == 0)) [
    | inl free ↦ rw free (
        moved_to s i v lt flagged writing s.lock e (omega arith) (omega arith) v.one (
          inr (
            inl (
              let z = (==_iff s.lock.read 0).0 free in
              let le = total-le reads inside s.phases reads-inside in omega (arith, v.counts)))))
    | inr taken ↦ rw taken (
        moved_to s i v lt flagged flagged s.lock e (omega arith) (omega arith) v.one
          (inr (inr (omega arith, omega arith))))
  ]
  step_from writing e =
      let has : 1 ≤ total holding s.phases = part holding refl writing e in
      let o = v.one in
      moved_to s i v lt writing idle (record s.lock { write = 0 }) e (omega arith)
        (omega (arith, v.flags)) (omega arith) (inr (inr (omega arith, omega arith)))

get_or-past : (ps : List Phase) (i : ℕ) → length ps ≤ i → get_or ps i idle ≡ idle
get_or-past [] i le = refl
get_or-past (p ∷ ps) zero le = absurd (omega arith)
get_or-past (p ∷ ps) (suc i) le = get_or-past ps i (omega arith)

set-past : (ps : List Phase) (i : ℕ) (p : Phase) → length ps ≤ i → set ps i p ≡ ps
set-past [] i p le = refl
set-past (q ∷ ps) zero p le = absurd (omega arith)
set-past (q ∷ ps) (suc i) p le = ap (λ r. q ∷ r) (set-past ps i p (omega arith))

-- A step of any thread keeps the counts of the lock right.
step-IsValid : (wants : Bool) (i : ℕ) (s : Threads) → IsValid s → IsValid (step wants i s)
unfolding step advance
step-IsValid wants i s v = elim (dec_lt i (length s.phases)) [
  | yes lt ↦ step_from wants i s v lt (phase_of s i) refl
  | no out ↦ rw (get_or-past s.phases i (omega arith)) (
      subst (λ ps. IsValid (record { lock = s.lock; phases = ps }))
        (sym (set-past s.phases i (if wants then spinning else waiting) (omega arith))) v)
]

run-IsValid : (steps : List (Bool × ℕ)) (s : Threads) → IsValid s → IsValid (run steps s)
unfolding run
run-IsValid [] s v = v
run-IsValid ((wants, i) ∷ steps) s v = run-IsValid steps (step wants i s) (step-IsValid wants i s v)

-- The lock as it is made, and `n` threads outside.
abbrev pub start : ℕ → Threads
start n = record { lock = init; phases = replicate n idle }

total-start : (f : Phase → ℕ) (n : ℕ) → f idle ≡ 0 → total f (replicate n idle) ≡ 0
total-start f zero e = refl
total-start f (suc n) e = omega (arith, total-start f n e)

start-IsValid : (n : ℕ) → IsValid (start n)
unfolding init
start-IsValid n = record {
  counts = sym (total-start inside n refl);
  flags = sym (total-start holding n refl);
  one = omega arith;
  apart = inl (total-start writes n refl);
}

-- Whatever the threads do, in any order of their accesses to the lock: while a thread is between
-- rwlock_wlock and rwlock_wunlock, no other thread is there, and none is between rwlock_rlock and
-- rwlock_runlock.
pub mutual_exclusion :
    (n : ℕ) (steps : List (Bool × ℕ)) (i j : ℕ)
    → i ≢ j
    → phase_of (run steps (start n)) i ≡ writing
    → (phase_of (run steps (start n)) j ≢ writing) × (phase_of (run steps (start n)) j ≢ reading)
mutual_exclusion n steps i j ne e = (
  λ f.
      let two = total_two holding s.phases i j refl ne in
      omega (arith, v.flags, v.one, ap holding e, ap holding f),
  λ f.
      let a = total_at writes s.phases i refl in
      let b = total_at reads s.phases j refl in
      elim v.apart [ inl none ↦ omega (arith, ap writes e) | inr none ↦ omega (arith, ap reads f) ],
)
  where
    s : Threads
    s = run steps (start n)

    v : IsValid s
    v = run-IsValid steps (start n) (start-IsValid n)

-- The fields of the lock count the threads: `write` is 1 or 0, as a thread has set it or none has,
-- and `read` is the number of threads that count as readers; after any steps in any order.
pub counts_right :
    (n : ℕ) (steps : List (Bool × ℕ))
    → let s = run steps (start n) in
      (s.lock.read ≡ total inside s.phases)
      × (s.lock.write ≡ total holding s.phases)
      × (s.lock.write ≤ 1)
counts_right n steps =
    let v = run-IsValid steps (start n) (start-IsValid n) in (v.counts, v.flags, v.one)
