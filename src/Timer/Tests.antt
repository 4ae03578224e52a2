-- ===== src/Timer/Tests.antt =====
-- Runs of the timer of skynet/skynet-src/skynet_timer.c.
use skynet_server.Timer.{create}
use skynet_server.Timer.Run.{run}
use skynet_server.Common.{inl, List, [], ◌∷◌, ◌≡◌, refl, ◌+◌, arith, true, ◌%◌, ◌^◌, ◌-◌, ◌⊎◌}
use skynet_server.Timer.{
  Timer, TimerNode, run_updates, timer_add, timer_update, updatetime, add_node, timeout,
}
use skynet_server.Timer.Run.{
  IsReady, Op, new_node, tick, timer_add_lem, add, create-IsReady, sent_on_time, timeout_on_time,
  timer_update_lem,
}
use skynet_server.Common.Int.{pos}
use skynet_server.Timer.Placed.{Waits, Among}
use skynet_server.Timer.Join.{Joined, add_node-Joined}
use skynet_server.Timer.Clock.{updatetime_forward}

-- Two events, in 3 ticks and in 300.
abbrev waiting : Timer
waiting = timer_add 8 (pos 2) 300 (timer_add 7 (pos 1) 3 create)

waiting-IsReady : IsReady waiting
waiting-IsReady =
    (timer_add_lem 8 300 (pos 2) (timer_add 7 (pos 1) 3 create)
      (timer_add_lem 7 3 (pos 1) create create-IsReady (omega arith) (omega arith)).0 (omega arith)
      (omega arith)).0

abbrev soon : TimerNode
soon = record { expire = 3; handle = 7; session = pos 1 }

soon-Waits : Waits soon waiting
unfolding timer_add create
soon-Waits = inl (3, inl refl)

add_node-Joined_example : Joined (soon ∷ []) create (add_node soon create)
unfolding create
add_node-Joined_example =
    add_node-Joined soon create create-IsReady.placed (omega arith, inl (omega arith))

timer_update_lem_example :
    let (events, w') = timer_update waiting in
    IsReady w'
    × (w'.time ≡ (waiting.time + 1) % 2 ^ 32)
    × ((n : TimerNode)
        → Among n events
        → Waits n waiting × ((n.expire ≡ waiting.time) ⊎ (n.expire ≡ w'.time)))
    × ((n : TimerNode) → Waits n waiting → Among n events ⊎ Waits n w')
    × ((n : TimerNode) → Waits n w' → Waits n waiting)
timer_update_lem_example = timer_update_lem waiting waiting-IsReady.placed

abbrev meanwhile : List Op
meanwhile = tick ∷ add 9 (pos 3) 70000 ∷ tick ∷ []

sent_on_time_example :
    let (events, w') = run meanwhile waiting in
    (Among soon events → ⊥) × Among soon (timer_update w').0
unfolding create timer_add
sent_on_time_example =
    sent_on_time meanwhile waiting soon 3 waiting-IsReady
      (tt, ((omega arith, omega arith), (tt, tt))) soon-Waits refl refl (omega arith)

timeout_on_time_example :
    let node = new_node 6 (pos 4) 3 waiting in
    let (result, w₁) = timeout (λ h. true) 6 (pos 3) (pos 4) waiting in
    let (events, w₂) = run meanwhile w₁ in
    (result ≡ pos 4) × (Among node events → ⊥) × Among node (timer_update w₂).0
timeout_on_time_example =
    timeout_on_time (λ h. true) 6 (pos 4) meanwhile waiting waiting-IsReady (omega arith)
      (tt, ((omega arith, omega arith), (tt, tt)))

updatetime_forward_example :
    let w' = (updatetime 5 waiting).1 in
    IsReady w'
    × (w'.current_point ≡ 5)
    × (w'.current ≡ (waiting.current + (5 - waiting.current_point)) % 2 ^ 64)
    × (w'.time ≡ (waiting.time + (5 - waiting.current_point)) % 2 ^ 32)
unfolding create timer_add
updatetime_forward_example =
    updatetime_forward 5 waiting waiting-IsReady (omega arith) (omega arith) (omega arith)
      (omega arith)

-- A point in the future: nothing is sent, and no clock moves.
turned_back :
    updatetime 5 (record waiting { current_point = 9 }) ≡ ([], record waiting { current_point = 5 })
unfolding updatetime timer_add create
turned_back = refl

-- What the ticks send, in order: the event of 3 ticks, and then that of 300.
both_sent :
    (run_updates 300 waiting).0 ≡ soon ∷ record { expire = 300; handle = 8; session = pos 2 } ∷ []
unfolding run_updates timer_add create
both_sent = refl
