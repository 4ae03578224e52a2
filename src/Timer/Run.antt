-- ===== src/Timer/Run.antt =====
-- `timer_update`, `skynet_timeout` and `skynet_updatetime`: an event is sent exactly at its tick.
use skynet_server.Common.{
  ℕ, suc, inl, inr, List, [], ◌∷◌, ◌++◌, ◌+◌, ◌<◌, ◌≡◌, ◌%◌, ◌^◌, arith, ◌-◌, ◌⊎◌, dec_le, ◌∙◌, ap,
  sym, Bool,
}
use skynet_server.Common.{refl}
use skynet_server.Timer.{
  TimerNode, Timer, timer_update, timer_execute, timer_shift, timer_add, add_node, timeout, create,
}
use skynet_server.Timer.Placed.{Among, IsPlaced, Waits}
use skynet_server.Timer.Turn.{next_tick}
use skynet_server.Timer.Join.{Joined, add_node-Joined, Among-split, Among-front, Among-back}
use skynet_server.Timer.Tick.{IsClear, Sends, Shifts, timer_execute-Sends, timer_shift-Shifts}
use skynet_server.Common.Int.{ℤ, pos}

-- A timer between two ticks: every node is where its time belongs, and none is due.
pub record IsReady (w : Timer) : Type 0 where
  pub placed : IsPlaced w
  pub clear : IsClear w

-- `timer_update` of any well-formed wheel moves the time by one tick. What it sends is due at the
-- tick before or at the new one, and what waited is sent or waits on, with nothing made up; then
-- the wheel is well-formed, and nothing that is left in it is due.
pub timer_update_lem :
    (w : Timer)
    → IsPlaced w
    → let (events, w') = timer_update w in
      IsReady w'
      × (w'.time ≡ (w.time + 1) % 2 ^ 32)
      × ((n : TimerNode)
          → Among n events
          → Waits n w × ((n.expire ≡ w.time) ⊎ (n.expire ≡ w'.time)))
      × ((n : TimerNode) → Waits n w → Among n events ⊎ Waits n w')
      × ((n : TimerNode) → Waits n w' → Waits n w)
unfolding timer_update
timer_update_lem w v = (
  record { placed = second.placed; clear = second.clear },
  second.same_time ∙ shift.time ∙ ap next_tick first.same_time,
  λ n h. elim (Among-split n (timer_execute w).0 (timer_execute (timer_shift w₁)).0 h) [
    | inl a ↦ (first.sent n a, inl (first.due n a))
    | inr b ↦
        (first.only n (shift.only n (second.sent n b)), inr (second.due n b ∙ sym second.same_time))
  ],
  λ n h. elim (first.keeps n h) [
    | inl a ↦ inl (Among-front n (timer_execute w).0 (timer_execute (timer_shift w₁)).0 a)
    | inr a ↦ elim (second.keeps n (shift.keeps n a)) [
      | inl b ↦ inl (Among-back n (timer_execute w).0 (timer_execute (timer_shift w₁)).0 b)
      | inr b ↦ inr b
    ]
  ],
  λ n h. first.only n (shift.only n (second.only n h)),
)
  where
    first : Sends w (timer_execute w).0 (timer_execute w).1
    first = timer_execute-Sends w v

    w₁ : Timer
    w₁ = (timer_execute w).1

    shift : Shifts w₁ (timer_shift w₁)
    shift = timer_shift-Shifts w₁ first.placed first.clear

    second :
        Sends (timer_shift w₁) (timer_execute (timer_shift w₁)).0 (timer_execute (timer_shift w₁)).1
    second = timer_execute-Sends (timer_shift w₁) shift.placed

-- The node that `timer_add` makes.
abbrev pub new_node : ℕ → ℤ → ℕ → Timer → TimerNode
new_node handle session time w = record {
  expire = (time + w.time) % 2 ^ 32;
  handle = handle;
  session = session;
}

-- `timer_add` of a positive `int` adds the node, and nothing else, and keeps the wheel ready.
pub timer_add_lem :
    (handle time : ℕ) (session : ℤ) (w : Timer)
    → IsReady w
    → 0 < time
    → time < 2 ^ 31
    → let w' = timer_add handle session time w in
      IsReady w' × Joined (new_node handle session time w ∷ []) w w'
unfolding timer_add
timer_add_lem handle time session w v positive int =
    (record { placed = joined.placed; clear = clear }, joined)
  where
    node : TimerNode
    node = new_node handle session time w

    tick : w.time < 2 ^ 32
    tick = v.placed.tick

    joined : Joined (node ∷ []) w (add_node node w)
    joined = add_node-Joined node w v.placed (
      omega arith,
      elim (dec_le w.time ((time + w.time) % 2 ^ 32)) [
        | yes le ↦ inl le
        | no gt ↦ inr (λ e. omega arith)
      ],
    )

    clear : IsClear (add_node node w)
    clear n h e = elim (joined.only n h) [
      | inl old ↦ v.clear n old (e ∙ joined.same_time)
      | inr (inl f) ↦
          let g : (time + w.time) % 2 ^ 32 ≡ w.time = ap (λ m. m.expire) f ∙ e ∙ joined.same_time in
          omega arith
      | inr (inr none) ↦ absurd none
    ]

-- What the other threads do with the timer.
pub data Op : Type 0 where
  tick : Op
  add : ℕ → ℤ → ℕ → Op

-- A tick is `timer_update`, and `add` is a call of `skynet_timeout` with a positive `int`.
abbrev pub IsInt : Op → Type 0
IsInt tick = Unit {0}
IsInt (add handle session time) = (0 < time) × (time < 2 ^ 31)

abbrev pub AllInt : List Op → Type 0
AllInt [] = Unit {0}
AllInt (op ∷ ops) = IsInt op × AllInt ops

abbrev pub apply : Op → Timer → List TimerNode × Timer
apply tick w = timer_update w
apply (add handle session time) w = ([], timer_add handle session time w)

unfoldable pub run : List Op → Timer → List TimerNode × Timer
run [] w = ([], w)
run (op ∷ ops) w =
    let (events, w₁) = apply op w in let (rest, w₂) = run ops w₁ in (events ++ rest, w₂)

abbrev pub ticks : List Op → ℕ
ticks [] = 0
ticks (tick ∷ ops) = 1 + ticks ops
ticks (add handle session time ∷ ops) = ticks ops

-- Before the tick of a node, it waits on.
run-Waits :
    (ops : List Op) (w : Timer) (n : TimerNode) (d : ℕ)
    → IsReady w
    → AllInt ops
    → Waits n w
    → n.expire ≡ (w.time + d) % 2 ^ 32
    → ticks ops < d
    → d < 2 ^ 32
    → let (events, w') = run ops w in
      IsReady w'
      × (Among n events → ⊥)
      × Waits n w'
      × (n.expire ≡ (w'.time + (d - ticks ops)) % 2 ^ 32)
unfolding run
run-Waits [] w n d v ints h e lt fits = (v, λ a. a, h, omega arith)
run-Waits (tick ∷ ops) w n d v (u, ints) h e lt fits =
    let (ready, time, due, keeps, only) = timer_update_lem w v.placed in
    let small = v.placed.tick in
    let not_now : Among n (timer_update w).0 → ⊥ =
      λ a. elim (due n a).1 [ inl f ↦ omega arith | inr f ↦ omega arith ] in
    let still : Waits n (timer_update w).1 = elim (keeps n h) [
      | inl a ↦ absurd (not_now a)
      | inr b ↦ b
    ] in
    let (ready', quiet, waits, left) =
      run-Waits ops (timer_update w).1 n (d - 1) ready ints still (omega arith) (omega arith)
        (omega arith) in
    (
      ready',
      λ a. elim (Among-split n (timer_update w).0 (run ops (timer_update w).1).0 a) [
        | inl b ↦ not_now b
        | inr b ↦ quiet b
      ],
      waits,
      omega arith,
    )
run-Waits (add handle session time ∷ ops) w n d v ((positive, int), ints) h e lt fits =
    let (ready, joined) = timer_add_lem handle time session w v positive int in
    run-Waits ops (timer_add handle session time w) n d ready ints (joined.keeps n h)
      (e ∙ ap (λ t. (t + d) % 2 ^ 32) (sym joined.same_time)) lt fits

-- A node that waits in a timer between two ticks, and is due in `d` ticks, is not sent during
-- `d - 1` ticks, whatever is added between them with a positive `int`, and is sent at the next
-- tick; `d` is less than 2^32.
pub sent_on_time :
    (ops : List Op) (w : Timer) (n : TimerNode) (d : ℕ)
    → IsReady w
    → AllInt ops
    → Waits n w
    → n.expire ≡ (w.time + d) % 2 ^ 32
    → suc (ticks ops) ≡ d
    → d < 2 ^ 32
    → let (events, w') = run ops w in (Among n events → ⊥) × Among n (timer_update w').0
sent_on_time ops w n d v ints h e last fits =
    let (ready, quiet, waits, left) = run-Waits ops w n d v ints h e (omega arith) fits in
    let (ready', time, due, keeps, only) = timer_update_lem (run ops w).1 ready.placed in
    (quiet, elim (keeps n waits) [ inl a ↦ a | inr b ↦ absurd (ready'.clear n b (omega arith)) ])

-- A new timer is ready.
pub create-IsReady : IsReady create
unfolding create
create-IsReady = record {
  placed = record { tick = omega arith; near = λ i n h. absurd h; level = λ l i n h. absurd h };
  clear = λ n h. elim h [ inl (i, a) ↦ absurd a | inr (l, i, a) ↦ absurd a ];
}

-- `skynet_timeout` with a positive `int` on a timer between two ticks returns the session. The
-- event is not sent before the tick number `time` from then, whatever is added meanwhile with a
-- positive `int`, and it is sent at that tick.
pub timeout_on_time :
    (is_live : ℕ → Bool) (handle : ℕ) (session : ℤ) (ops : List Op) (w : Timer)
    → IsReady w
    → suc (ticks ops) < 2 ^ 31
    → AllInt ops
    → let node = new_node handle session (suc (ticks ops)) w in
      let (result, w₁) = timeout is_live handle (pos (suc (ticks ops))) session w in
      let (events, w₂) = run ops w₁ in
      (result ≡ session) × (Among node events → ⊥) × Among node (timer_update w₂).0
unfolding timeout
timeout_on_time is_live handle session ops w v int ints =
    let (ready, joined) = timer_add_lem handle (suc (ticks ops)) session w v (omega arith) int in
    let (quiet, sent) =
      sent_on_time ops (timer_add handle session (suc (ticks ops)) w)
        (new_node handle session (suc (ticks ops)) w) (suc (ticks ops)) ready ints
        (joined.adds (new_node handle session (suc (ticks ops)) w) (inl refl))
        (let e = joined.same_time in omega arith) refl (omega arith) in
    (refl, quiet, sent)
