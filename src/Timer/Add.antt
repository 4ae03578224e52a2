-- ===== src/Timer/Add.antt =====
-- `add_node`: which list a node joins, and what the wheel holds afterwards.
use skynet_server.Common.{
  ℕ, zero, suc, inl, inr, ◌++◌, ◌/◌, ◌<◌, ◌≡◌, refl, ◌^◌, ◌∷◌, [], ◌%◌, ◌≢◌, ◌⊎◌, ap, ℕ_discrete,
  ◌+◌, ◌-◌, arith, ◌*◌, ◌==◌, false, true, ◌∙◌, ==_iff, ==_of_ne,
}
use skynet_server.Timer.{
  TimerNode, Timer, add_node, find_level, set_near, set_level, bit_or, bit_and,
}
use skynet_server.Timer.Placed.{DueNear, DueLevel, IsDue}
use skynet_server.Common.Bits.{and-mask, or-mask_iff}

same_turn :
    (k e ct : ℕ) → e / 2 ^ k ≡ ct / 2 ^ k → (bit_or e (2 ^ k - 1) == bit_or ct (2 ^ k - 1)) ≡ true
same_turn k e ct h = (==_iff _ _).1 ((or-mask_iff k e ct).1 h)

other_turn :
    (k e ct : ℕ) → e / 2 ^ k ≢ ct / 2 ^ k → (bit_or e (2 ^ k - 1) == bit_or ct (2 ^ k - 1)) ≡ false
other_turn k e ct h = ==_of_ne (λ x. h ((or-mask_iff k e ct).0 x))

level_here : (n i k e ct : ℕ) → e / 2 ^ k ≡ ct / 2 ^ k → find_level (suc n) i (2 ^ k) e ct ≡ i
unfolding find_level
level_here n i k e ct h = rw (same_turn k e ct h) refl

level_above :
    (n i k e ct : ℕ)
    → e / 2 ^ k ≢ ct / 2 ^ k
    → find_level (suc n) i (2 ^ k) e ct ≡ find_level n (i + 1) (2 ^ k * 2 ^ 6 % 2 ^ 32) e ct
unfolding find_level
level_above n i k e ct h = rw (other_turn k e ct h) refl

level_last : (i mask e ct : ℕ) → find_level zero i mask e ct ≡ i
unfolding find_level
level_last i mask e ct = refl

module _ (node : TimerNode) (w : Timer) where
  -- The wheel with the node at the end of a list.
  abbrev pub nearer : ℕ → Timer
  nearer i = set_near i (w.near i ++ node ∷ []) w

  abbrev pub farther : ℕ → ℕ → Timer
  farther l i = set_level l i (w.t l i ++ node ∷ []) w

  add_node-near :
      node.expire / 2 ^ 8 ≡ w.time / 2 ^ 8 → add_node node w ≡ nearer (node.expire % 2 ^ 8)
  unfolding add_node
  add_node-near h = rw (same_turn 8 node.expire w.time h) (ap nearer (and-mask 8 node.expire))

  add_node-level :
      (l : ℕ)
      → node.expire / 2 ^ 8 ≢ w.time / 2 ^ 8
      → find_level 3 0 (2 ^ 14) node.expire w.time ≡ l
      → add_node node w ≡ farther l (node.expire / 2 ^ (8 + l * 6) % 64)
  unfolding add_node
  add_node-level l h e = rw (other_turn 8 node.expire w.time h) (
      ap (λ k. farther k (bit_and (node.expire / 2 ^ (8 + k * 6)) 63)) e
      ∙ ap (farther l) (and-mask 6 (node.expire / 2 ^ (8 + l * 6))))

  -- A node that is due joins a list where its time belongs.
  pub add_node-cases :
      w.time < 2 ^ 32
      → IsDue w.time node.expire
      → ((i : ℕ) × DueNear w.time i node.expire × (add_node node w ≡ nearer i))
        ⊎ ((l : ℕ) × (i : ℕ) × DueLevel w.time l i node.expire × (add_node node w ≡ farther l i))
  add_node-cases tick (small, due) = elim (ℕ_discrete (node.expire / 2 ^ 8) (w.time / 2 ^ 8)) [
    | yes a ↦ inl (node.expire % 2 ^ 8, (refl, a, omega arith), add_node-near a)
    | no a ↦ elim (ℕ_discrete (node.expire / 2 ^ 14) (w.time / 2 ^ 14)) [
      | yes b ↦ inr (
        0,
        node.expire / 2 ^ 8 % 64,
        (refl, b, omega arith),
        add_node-level 0 a (level_here 2 0 14 node.expire w.time b),
      )
      | no b ↦ elim (ℕ_discrete (node.expire / 2 ^ 20) (w.time / 2 ^ 20)) [
        | yes c ↦ inr (
          1,
          node.expire / 2 ^ 14 % 64,
          (refl, c, omega arith),
          add_node-level 1 a
              (level_above 2 0 14 node.expire w.time b ∙ level_here 1 1 20 node.expire w.time c),
        )
        | no c ↦ elim (ℕ_discrete (node.expire / 2 ^ 26) (w.time / 2 ^ 26)) [
          | yes d ↦ inr (
            2,
            node.expire / 2 ^ 20 % 64,
            (refl, d, omega arith),
            add_node-level 2 a (
                level_above 2 0 14 node.expire w.time b
                ∙ level_above 1 1 20 node.expire w.time c
                ∙ level_here 0 2 26 node.expire w.time d),
          )
          | no d ↦ inr (
            3,
            node.expire / 2 ^ 26 % 64,
            (refl, d),
            add_node-level 3 a (
                level_above 2 0 14 node.expire w.time b
                ∙ level_above 1 1 20 node.expire w.time c
                ∙ level_above 0 2 26 node.expire w.time d
                ∙ level_last 3 (2 ^ 26 * 2 ^ 6 % 2 ^ 32) node.expire w.time),
          )
        ]
      ]
    ]
  ]
