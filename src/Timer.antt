-- ===== src/Timer.antt =====
-- skynet/skynet-src/skynet_timer.c: the timer wheel. A list of nodes is the chain of a `link_list`
-- from its head to its tail, and the arrays `near` and `t` are functions of their indexes. Numbers
-- of 32 and 64 bits wrap round. What a function sends is the list of events that it returns, in
-- the order of the calls of `skynet_context_push`.
pub mod Placed
pub mod Turn
pub mod Add
pub mod Join
pub mod Tick
pub mod Run
pub mod Clock
mod Tests
use Prim.Native.Nat.{bit_and, bit_or, suc}
use skynet_server.Common.{
  List, Option, [], ℕ, ◌*◌, ◌+◌, Bool, if◌then◌else◌, none, some, ◌%◌, ◌++◌, ◌-◌, ◌^◌, ◌∷◌, ltb,
  zero, ◌/◌, ◌==◌, ◌&&◌,
}
use skynet_server.Common.Int.{ℤ, pos, negsuc}

abbrev pub time_near : ℕ
time_near = 256

abbrev pub time_level : ℕ
time_level = 64

-- `struct timer_node` with the `struct timer_event` that follows it in memory.
pub record TimerNode : Type 0 where
  pub expire : ℕ
  pub handle : ℕ
  pub session : ℤ

-- `struct timer`
pub record Timer : Type 0 where
  pub near : ℕ → List TimerNode
  pub t : ℕ → ℕ → List TimerNode
  pub time : ℕ
  pub starttime : ℕ
  pub current : ℕ
  pub current_point : ℕ

-- One list of an array is replaced.
abbrev pub set_near : ℕ → List TimerNode → Timer → Timer
set_near i nodes w = record w { near = λ k. if k == i then nodes else w.near k }

abbrev pub set_level : ℕ → ℕ → List TimerNode → Timer → Timer
set_level l i nodes w = record w { t = λ a b. if (a == l) && (b == i) then nodes else w.t a b }

-- The loop of `add_node` that looks for the level, with the rounds that are left.
unfoldable pub find_level : ℕ → ℕ → ℕ → ℕ → ℕ → ℕ
find_level zero i mask time current_time = i
find_level (suc n) i mask time current_time =
    let rest = find_level n (i + 1) (mask * 2 ^ 6 % 2 ^ 32) time current_time in
    if bit_or time (mask - 1) == bit_or current_time (mask - 1) then i else rest

-- `add_node`, whose calls of `link` append the node.
unfoldable pub add_node : TimerNode → Timer → Timer
unfolding find_level
add_node node w =
    let i = find_level 3 0 (time_near * 2 ^ 6) node.expire w.time in
    let idx = bit_and (node.expire / 2 ^ (8 + i * 6)) (time_level - 1) in
    let slot = bit_and node.expire (time_near - 1) in
    if bit_or node.expire (time_near - 1) == bit_or w.time (time_near - 1)
    then set_near slot (w.near slot ++ node ∷ []) w
    else set_level i idx (w.t i idx ++ node ∷ []) w

-- `timer_add` with a positive `time`.
unfoldable pub timer_add : ℕ → ℤ → ℕ → Timer → Timer
unfolding add_node
timer_add handle session time w =
    add_node (record { expire = (time + w.time) % 2 ^ 32; handle = handle; session = session }) w

unfoldable pub add_all : List TimerNode → Timer → Timer
unfolding add_node
add_all [] w = w
add_all (node ∷ nodes) w = add_all nodes (add_node node w)

unfoldable pub move_list : ℕ → ℕ → Timer → Timer
unfolding add_all
move_list l i w = add_all (w.t l i) (set_level l i [] w)

-- The loop of `timer_shift`: the list that it moves. The mask is an `int`, and the loop ends
-- within four rounds, before the mask overflows.
unfoldable pub shift_place : ℕ → ℕ → ℕ → ℕ → ℕ → Option (ℕ × ℕ)
shift_place zero i mask time ct = none
shift_place (suc n) i mask time ct =
    let rest = shift_place n (i + 1) (mask * 2 ^ 6) (time / 2 ^ 6) ct in
    let idx = bit_and time (time_level - 1) in
    if bit_and ct (mask - 1) == 0 then if idx == 0 then rest else some (i, idx) else none

-- The list that `timer_shift` moves at the time `ct`.
abbrev pub moved : ℕ → Option (ℕ × ℕ)
moved ct = if ct == 0 then some (3, 0) else shift_place 4 0 time_near (ct / 2 ^ 8) ct

abbrev pub move_some : Option (ℕ × ℕ) → Timer → Timer
move_some none w = w
move_some (some (l, i)) w = move_list l i w

unfoldable pub timer_shift : Timer → Timer
unfolding move_list shift_place
timer_shift w = let ct = (w.time + 1) % 2 ^ 32 in move_some (moved ct) (record w { time = ct })

-- `timer_execute`, when no other thread adds a node to the list while it is sent: the nodes that
-- `dispatch_list` sends.
unfoldable pub timer_execute : Timer → List TimerNode × Timer
timer_execute w = let idx = bit_and w.time (time_near - 1) in (w.near idx, set_near idx [] w)

unfoldable pub timer_update : Timer → List TimerNode × Timer
unfolding timer_execute timer_shift
timer_update w =
    let (first, w₁) = timer_execute w in
    let (second, w₂) = timer_execute (timer_shift w₁) in (first ++ second, w₂)

-- `timer_create_timer`
unfoldable pub create : Timer
create = record {
  near = λ i. [];
  t = λ l i. [];
  time = 0;
  starttime = 0;
  current = 0;
  current_point = 0;
}

-- `skynet_timeout`: what it returns, and the events sent at once. `is_live handle` says whether
-- `skynet_context_push` finds a context, so that it does not fail.
unfoldable pub timeout : (ℕ → Bool) → ℕ → ℤ → ℤ → Timer → ℤ × Timer
unfolding timer_add
timeout is_live handle (pos (suc time)) session w = (session, timer_add handle session (suc time) w)
timeout is_live handle time session w = (if is_live handle then session else negsuc 0, w)

-- The loop of `skynet_updatetime`.
unfoldable pub run_updates : ℕ → Timer → List TimerNode × Timer
unfolding timer_update
run_updates zero w = ([], w)
run_updates (suc n) w =
    let (events, w₁) = timer_update w in let (later, w₂) = run_updates n w₁ in (events ++ later, w₂)

-- `skynet_updatetime` when `gettime` returns `cp`.
unfoldable pub updatetime : ℕ → Timer → List TimerNode × Timer
unfolding run_updates
updatetime cp w =
    let diff = (cp + 2 ^ 64 - w.current_point) % 2 ^ 32 in
    let late =
      run_updates diff (record w { current_point = cp; current = (w.current + diff) % 2 ^ 64 }) in
    if ltb cp w.current_point
    then ([], record w { current_point = cp })
    else if cp == w.current_point
    then ([], w)
    else late
