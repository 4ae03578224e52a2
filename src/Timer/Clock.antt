-- ===== src/Timer/Clock.antt =====
-- `skynet_updatetime`: the clocks of the timer and its ticks go together.
use skynet_server.Common.{
  ℕ, zero, suc, inl, inr, List, [], ◌∷◌, Option, ◌<◌, ◌≡◌, Bool-cases, if◌then◌else◌, some, ◌+◌,
  ◌^◌, ◌∙◌, none, ◌%◌, ◌==◌, ◌≤◌, arith, ◌-◌, ltb, refl, ==_iff, sym, ap,
}
use skynet_server.Timer.{
  TimerNode, Timer, timer_update, timer_execute, timer_shift, add_node, add_all, move_list, moved,
  move_some, run_updates, updatetime, set_level, bit_or, bit_and,
}
use skynet_server.Timer.Run.{IsReady, timer_update_lem}
use skynet_server.Timer.Turn.{next_tick}

-- What `timer_update` leaves alone.
abbrev pub clocks : Timer → ℕ × ℕ × ℕ
clocks w = (w.starttime, w.current, w.current_point)

add_node-clocks : (n : TimerNode) (w : Timer) → clocks (add_node n w) ≡ clocks w
unfolding add_node
add_node-clocks n w = elim (Bool-cases (bit_or n.expire 255 == bit_or w.time 255)) [
  | inl e ↦ rw e refl
  | inr e ↦ rw e refl
]

add_all-clocks : (nodes : List TimerNode) (w : Timer) → clocks (add_all nodes w) ≡ clocks w
unfolding add_all
add_all-clocks [] w = refl
add_all-clocks (n ∷ nodes) w = add_all-clocks nodes (add_node n w) ∙ add_node-clocks n w

move_some-clocks : (p : Option (ℕ × ℕ)) (w : Timer) → clocks (move_some p w) ≡ clocks w
unfolding move_list
move_some-clocks none w = refl
move_some-clocks (some (l, i)) w = add_all-clocks (w.t l i) (set_level l i [] w)

pub timer_update-clocks : (w : Timer) → clocks (timer_update w).1 ≡ clocks w
unfolding timer_update timer_execute timer_shift
timer_update-clocks w = move_some-clocks (moved (next_tick w.time)) (record w {
  near = λ k. if k == bit_and w.time 255 then [] else w.near k;
  time = next_tick w.time;
})

-- The loop of `skynet_updatetime` runs that many ticks.
run_updates_lem :
    (n : ℕ) (w : Timer)
    → IsReady w
    → let w' = (run_updates n w).1 in
      IsReady w' × (clocks w' ≡ clocks w) × (w'.time ≡ (w.time + n) % 2 ^ 32)
unfolding run_updates
run_updates_lem zero w v = (v, refl, let small = v.placed.tick in omega arith)
run_updates_lem (suc n) w v =
    let (ready, time, due, keeps, only) = timer_update_lem w v.placed in
    let (done, same, later) = run_updates_lem n (timer_update w).1 ready in
    (done, same ∙ timer_update-clocks w, omega arith)

updatetime-cases :
    (cp : ℕ) (w : Timer)
    → IsReady w
    → cp < 2 ^ 64
    → w.current_point < 2 ^ 64
    → w.current < 2 ^ 64
    → let (events, w') = updatetime cp w in
      IsReady w'
      × (w'.current_point ≡ cp)
      × (w.current_point ≤ cp
          → cp < w.current_point + 2 ^ 32
          → (w'.current ≡ (w.current + (cp - w.current_point)) % 2 ^ 64)
            × (w'.time ≡ (w.time + (cp - w.current_point)) % 2 ^ 32))
      × (cp < w.current_point → (events ≡ []) × (w'.current ≡ w.current) × (w'.time ≡ w.time))
unfolding updatetime
updatetime-cases cp w v a b c = elim (Bool-cases (ltb cp w.current_point)) [
  | inl back ↦
      rw back (ready_again w.current, refl, λ le lt. ground arith, λ lt. (refl, refl, refl))
  | inr on ↦ elim (Bool-cases (cp == w.current_point)) [
    | inl same ↦
        let e = (==_iff cp w.current_point).0 same in
        let small = v.placed.tick in
        rw (on, same) (v, sym e, λ le lt. (omega arith, omega arith), λ lt. (refl, refl, refl))
    | inr away ↦
        let (done, same, time) = run_updates_lem diff (jumped next) (ready_again next) in
        rw (on, away)
          (
            done,
            ap (λ q. q.2) same,
            λ le lt. (ap (λ q. q.1) same ∙ omega arith, time ∙ omega arith),
            λ lt. absurd (ground arith),
          )
  ]
]
  where
    diff : ℕ
    diff = (cp + 2 ^ 64 - w.current_point) % 2 ^ 32

    next : ℕ
    next = (w.current + diff) % 2 ^ 64

    jumped : ℕ → Timer
    jumped k = record w { current_point = cp; current = k }

    ready_again : (k : ℕ) → IsReady (jumped k)
    ready_again k = record {
      placed = record { tick = v.placed.tick; near = v.placed.near; level = v.placed.level };
      clear = v.clear;
    }

-- `skynet_updatetime` of a ready timer, when `gettime` returns a time that is not before the last
-- point and less than 2^32 ticks after it: the clock and the time of the wheel both advance by the
-- difference, the point is the new time, and the timer is ready.
pub updatetime_forward :
    (cp : ℕ) (w : Timer)
    → IsReady w
    → cp < 2 ^ 64
    → w.current < 2 ^ 64
    → w.current_point ≤ cp
    → cp < w.current_point + 2 ^ 32
    → let w' = (updatetime cp w).1 in
      IsReady w'
      × (w'.current_point ≡ cp)
      × (w'.current ≡ (w.current + (cp - w.current_point)) % 2 ^ 64)
      × (w'.time ≡ (w.time + (cp - w.current_point)) % 2 ^ 32)
updatetime_forward cp w v a c le lt =
    let (ready, point, on, back) = updatetime-cases cp w v a (omega arith) c in
    let (current, time) = on le lt in (ready, point, current, time)
