-- ===== src/Timer/Tick.antt =====
-- `timer_execute`, `timer_shift` and `timer_update`: what is sent at a tick.
use skynet_server.Common.{
  ℕ, zero, suc, inl, inr, List, [], Bool, Option, arith, ◌<◌, ◌≡◌, ◌≢◌, ap, if◌then◌else◌, some,
  true, ◌==◌, ◌^◌, ◌⊎◌, false, ◌%◌, ◌&&◌, ◌/◌, eq_refl, refl, some-injective, sym, ◌∙◌, ==_iff, ap₂,
  and_true, subst, none,
}
use mathlib.Core.Bool.{false≢true}
use skynet_server.Timer.{
  TimerNode, Timer, add_all, set_level, timer_execute, timer_shift, moved, move_some, move_list,
  bit_and,
}
use skynet_server.Timer.Placed.{Among, DueNear, DueLevel, IsPlaced, Waits, Begins, moved-Begins}
use skynet_server.Timer.Turn.{next_tick, stays-DueNear, stays-DueLevel, leaves-IsDue}
use skynet_server.Timer.Join.{Joined, add_all-Joined}
use skynet_server.Common.Bits.{and-mask}

-- Nothing that waits is due now.
abbrev pub IsClear : Timer → Type 0
IsClear w = (n : TimerNode) → Waits n w → n.expire ≢ w.time

-- The nodes on the levels are due later.
level_later : (ct l i e : ℕ) → DueLevel ct l i e → e ≢ ct
level_later ct zero i e (f, g, h) s = omega arith
level_later ct (suc zero) i e (f, g, h) s = omega arith
level_later ct (suc (suc zero)) i e (f, g, h) s = omega arith
level_later ct (suc (suc (suc zero))) i e (f, g) s = g (ap (λ k. k / 2 ^ 26) s)
level_later ct (suc (suc (suc (suc l)))) i e d s = absurd d

-- A cell of an array with one list replaced by the empty one.
cell_old :
    (n : TimerNode) (b : Bool) (ys : List TimerNode)
    → Among n (if b then [] else ys)
    → (b ≡ false) × Among n ys
cell_old n true ys h = absurd h
cell_old n false ys h = (refl, h)

cell_cases :
    (n : TimerNode) (b : Bool) (ys : List TimerNode)
    → Among n ys
    → (b ≡ true) ⊎ Among n (if b then [] else ys)
cell_cases n true ys h = inl refl
cell_cases n false ys h = inr h

-- The nodes of `events` are sent, and the others stay.
pub record Sends (w : Timer) (events : List TimerNode) (w' : Timer) : Type 0 where
  pub placed : IsPlaced w'
  pub same_time : w'.time ≡ w.time
  pub due : (n : TimerNode) → Among n events → n.expire ≡ w.time
  pub clear : IsClear w'
  pub keeps : (n : TimerNode) → Waits n w → Among n events ⊎ Waits n w'
  pub sent : (n : TimerNode) → Among n events → Waits n w
  pub only : (n : TimerNode) → Waits n w' → Waits n w

pub timer_execute-Sends : (w : Timer) → IsPlaced w → Sends w (timer_execute w).0 (timer_execute w).1
unfolding timer_execute
timer_execute-Sends w v = record {
  placed = record {
    tick = v.tick;
    near = λ k n h. v.near k n (cell_old n (k == idx) (w.near k) h).1;
    level = v.level;
  };
  same_time = refl;
  due = λ n h.
      let ((a, b, c), d) = v.near idx n h in
      let e : idx ≡ w.time % 2 ^ 8 = and-mask 8 w.time in omega arith;
  clear = λ n h same. elim h [
    | inl (k, a) ↦
        let (other, old) = cell_old n (k == idx) (w.near k) a in
        let ((b, c, d), small) = v.near k n old in
        false≢true
          (sym other ∙ (==_iff k idx).1 (b ∙ ap (λ t. t % 256) same ∙ sym (and-mask 8 w.time)))
    | inr (l, i, a) ↦ level_later w.time l i n.expire (v.level l i n a).0 same
  ];
  keeps = λ n h. elim h [
    | inl (k, a) ↦ elim (cell_cases n (k == idx) (w.near k) a) [
      | inl e ↦ inl (subst (λ j. Among n (w.near j)) ((==_iff k idx).0 e) a)
      | inr b ↦ inr (inl (k, b))
    ]
    | inr far ↦ inr (inr far)
  ];
  sent = λ n h. inl (idx, h);
  only = λ n h. elim h [
    | inl (k, a) ↦ inl (k, (cell_old n (k == idx) (w.near k) a).1)
    | inr far ↦ inr far
  ];
}
  where
    idx : ℕ
    idx = bit_and w.time 255

-- The wheel a tick later holds the same nodes.
pub record Shifts (w w' : Timer) : Type 0 where
  pub placed : IsPlaced w'
  pub time : w'.time ≡ next_tick w.time
  pub keeps : (n : TimerNode) → Waits n w → Waits n w'
  pub only : (n : TimerNode) → Waits n w' → Waits n w

module _ (w : Timer) (v : IsPlaced w) (clear : IsClear w) where
  abbrev later : Timer
  later = record w { time = next_tick w.time }

  near_later :
      (k : ℕ) (n : TimerNode)
      → Among n (w.near k)
      → DueNear (next_tick w.time) k n.expire × (n.expire < 2 ^ 32)
  near_later k n h =
      let (d, small) = v.near k n h in
      (stays-DueNear w.time k n.expire v.tick small d (clear n (inl (k, h))), small)

  level_later_on :
      (p : Option (ℕ × ℕ)) (l i : ℕ) (n : TimerNode)
      → Begins (next_tick w.time) p
      → p ≢ some (l, i)
      → Among n (w.t l i)
      → DueLevel (next_tick w.time) l i n.expire × (n.expire < 2 ^ 32)
  level_later_on p l i n begins ne h =
      let (d, small) = v.level l i n h in
      (stays-DueLevel w.time l i n.expire p v.tick small d begins ne, small)

  move_some-Shifts :
      (p : Option (ℕ × ℕ)) → Begins (next_tick w.time) p → Shifts w (move_some p later)
  unfolding move_list
  move_some-Shifts none begins = record {
    placed = record {
      tick = omega arith;
      near = near_later;
      level = λ l i n h. level_later_on none l i n begins (λ e. cc) h;
    };
    time = refl;
    keeps = λ n h. h;
    only = λ n h. h;
  }
  move_some-Shifts (some (l, i)) begins = record {
    placed = joined.placed;
    time = joined.same_time;
    keeps = λ n h. elim h [
      | inl close ↦ joined.keeps n (inl close)
      | inr (m, k, a) ↦ elim (cell_cases n (test m k) (w.t m k) a) [
        | inl e ↦ joined.adds n (
            let (b, c) = and_true e in
            subst (λ y. Among n (w.t l y)) ((==_iff k i).0 c)
              (subst (λ x. Among n (w.t x k)) ((==_iff m l).0 b) a))
        | inr b ↦ joined.keeps n (inr (m, k, b))
      ]
    ];
    only = λ n h. elim (joined.only n h) [
      | inl (inl close) ↦ inl close
      | inl (inr (m, k, a)) ↦ inr (m, k, (cell_old n (test m k) (w.t m k) a).1)
      | inr a ↦ inr (l, i, a)
    ];
  }
    where
      test : ℕ → ℕ → Bool
      test m k = (m == l) && (k == i)

      apart : (m k : ℕ) → test m k ≡ false → ◌≢◌ {A = Option (ℕ × ℕ)} (some (l, i)) (some (m, k))
      apart m k e s =
          let pair = some-injective (l, i) (m, k) s in
          false≢true
            (sym e ∙ ap₂ test (sym (ap (λ q. q.0) pair)) (sym (ap (λ q. q.1) pair)) ∙ itself)
        where
          itself : test l i ≡ true
          itself = rw (eq_refl l, eq_refl i) refl

      joined :
          Joined (w.t l i) (set_level l i [] later) (add_all (w.t l i) (set_level l i [] later))
      joined =
          add_all-Joined (w.t l i) (set_level l i [] later)
            (record {
              tick = omega arith;
              near = near_later;
              level = λ m k n h.
                  let (e, old) = cell_old n (test m k) (w.t m k) h in
                  level_later_on (some (l, i)) m k n begins (apart m k e) old;
            })
            (λ n h.
              let (d, small) = v.level l i n h in
              leaves-IsDue w.time l i n.expire v.tick small d begins)

  pub timer_shift-Shifts : Shifts w (timer_shift w)
  unfolding timer_shift
  timer_shift-Shifts =
      move_some-Shifts (moved (next_tick w.time)) (moved-Begins (next_tick w.time) (omega arith))
