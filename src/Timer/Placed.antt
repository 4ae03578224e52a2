-- ===== src/Timer/Placed.antt =====
-- Where the nodes of the timer wheel stand.
use skynet_server.Timer.{TimerNode, Timer, shift_place, moved, time_near}
use skynet_server.Common.{
  List, ℕ, ◌<◌, ◌^◌, ◌∷◌, ◌≡◌, ◌⊎◌, [], ◌%◌, ◌/◌, ◌≤◌, some, suc, ◌≢◌, zero, Option, none, ◌+◌,
  arith, ◌*◌, refl, ℕ_discrete, subst, sym, dec_lt, ◌∙◌,
}
use skynet_server.Common.Bits.{and-mask}

-- Among the nodes of a list.
abbrev pub Among : TimerNode → List TimerNode → Type 0
Among n [] = ⊥
Among n (x ∷ xs) = (x ≡ n) ⊎ Among n xs

-- A node of list `i` of `near` at the time `ct` is due at a time of this turn of 256 ticks.
abbrev pub DueNear : ℕ → ℕ → ℕ → Type 0
DueNear ct i e = (i ≡ e % 256) × (e / 256 ≡ ct / 256) × (ct ≤ e)

-- A node of list `i` of level `l` is due in a later turn of that level's lists, and in this turn
-- of the level above; on level 3 the turns wrap round.
abbrev pub DueLevel : ℕ → ℕ → ℕ → ℕ → Type 0
DueLevel ct zero i e = (i ≡ e / 2 ^ 8 % 64) × (e / 2 ^ 14 ≡ ct / 2 ^ 14) × (ct / 2 ^ 8 < e / 2 ^ 8)
DueLevel ct (suc zero) i e =
    (i ≡ e / 2 ^ 14 % 64) × (e / 2 ^ 20 ≡ ct / 2 ^ 20) × (ct / 2 ^ 14 < e / 2 ^ 14)
DueLevel ct (suc (suc zero)) i e =
    (i ≡ e / 2 ^ 20 % 64) × (e / 2 ^ 26 ≡ ct / 2 ^ 26) × (ct / 2 ^ 20 < e / 2 ^ 20)
DueLevel ct (suc (suc (suc zero))) i e = (i ≡ e / 2 ^ 26 % 64) × (e / 2 ^ 26 ≢ ct / 2 ^ 26)
DueLevel ct (suc (suc (suc (suc l)))) i e = ⊥

-- Every node stands where its time belongs.
pub record IsPlaced (w : Timer) : Type 0 where
  pub tick : w.time < 2 ^ 32
  pub near :
      (i : ℕ) (n : TimerNode) → Among n (w.near i) → DueNear w.time i n.expire × (n.expire < 2 ^ 32)
  pub level :
      (l i : ℕ) (n : TimerNode)
      → Among n (w.t l i)
      → DueLevel w.time l i n.expire × (n.expire < 2 ^ 32)

-- A node is somewhere in the wheel.
abbrev pub Waits : TimerNode → Timer → Type 0
Waits n w = ((i : ℕ) × Among n (w.near i)) ⊎ ((l : ℕ) × (i : ℕ) × Among n (w.t l i))

-- A time that `add_node` places well: not in the past of the current turn of the last level.
abbrev pub IsDue : ℕ → ℕ → Type 0
IsDue ct e = (e < 2 ^ 32) × ((ct ≤ e) ⊎ (e / 2 ^ 26 ≢ ct / 2 ^ 26))

-- A shift to the time `c` moves a list whose turn begins at `c`, if a turn of lists begins there.
abbrev pub Begins : ℕ → Option (ℕ × ℕ) → Type 0
Begins c none = c % 2 ^ 8 ≢ 0
Begins c (some (zero, i)) = (i ≡ c / 2 ^ 8 % 64) × (c % 2 ^ 8 ≡ 0) × (0 < i)
Begins c (some (suc zero, i)) = (i ≡ c / 2 ^ 14 % 64) × (c % 2 ^ 14 ≡ 0) × (0 < i)
Begins c (some (suc (suc zero), i)) = (i ≡ c / 2 ^ 20 % 64) × (c % 2 ^ 20 ≡ 0) × (0 < i)
Begins c (some (suc (suc (suc zero)), i)) = (i ≡ c / 2 ^ 26 % 64) × (c % 2 ^ 26 ≡ 0)
Begins c (some (suc (suc (suc (suc l))), i)) = ⊥

round_hit :
    (n i k time ct : ℕ)
    → ct % 2 ^ k ≡ 0
    → 0 < time % 64
    → shift_place (suc n) i (2 ^ k) time ct ≡ some (i, time % 64)
unfolding shift_place
round_hit n i k time ct a b = rw (and-mask k ct, and-mask 6 time, a) (ground arith)

round_next :
    (n i k time ct : ℕ)
    → ct % 2 ^ k ≡ 0
    → time % 64 ≡ 0
    → shift_place (suc n) i (2 ^ k) time ct ≡ shift_place n (i + 1) (2 ^ k * 2 ^ 6) (time / 64) ct
unfolding shift_place
round_next n i k time ct a b = rw (and-mask k ct, and-mask 6 time, a, b) refl

round_stop : (n i k time ct : ℕ) → ct % 2 ^ k ≢ 0 → shift_place (suc n) i (2 ^ k) time ct ≡ none
unfolding shift_place
round_stop n i k time ct a = rw (and-mask k ct) (ground arith)

pub moved-Begins : (c : ℕ) → c < 2 ^ 32 → Begins c (moved c)
moved-Begins c lt = elim (ℕ_discrete c 0) [
  | yes z ↦ rw z (omega arith, omega arith)
  | no nz ↦ subst (Begins c) (sym (skip nz)) (elim (ℕ_discrete (c % 2 ^ 8) 0) [
    | no ne ↦ subst (Begins c) (sym (round_stop 3 0 8 (c / 2 ^ 8) c ne)) ne
    | yes a ↦ elim (dec_lt 0 (c / 2 ^ 8 % 64)) [
      | yes b ↦ subst (Begins c) (sym (round_hit 3 0 8 (c / 2 ^ 8) c a b)) (refl, a, b)
      | no b ↦ elim (dec_lt 0 (c / 2 ^ 8 / 64 % 64)) [
        | yes d ↦
            subst (Begins c)
              (sym (
                round_next 3 0 8 (c / 2 ^ 8) c a (omega arith)
                ∙ round_hit 2 1 14 (c / 2 ^ 8 / 64) c (omega arith) d))
              (omega arith, omega arith, d)
        | no d ↦ elim (dec_lt 0 (c / 2 ^ 8 / 64 / 64 % 64)) [
          | yes f ↦
              subst (Begins c)
                (sym (
                  round_next 3 0 8 (c / 2 ^ 8) c a (omega arith)
                  ∙ round_next 2 1 14 (c / 2 ^ 8 / 64) c (omega arith) (omega arith)
                  ∙ round_hit 1 2 20 (c / 2 ^ 8 / 64 / 64) c (omega arith) f))
                (omega arith, omega arith, f)
          | no f ↦
              subst (Begins c)
                (sym (
                  round_next 3 0 8 (c / 2 ^ 8) c a (omega arith)
                  ∙ round_next 2 1 14 (c / 2 ^ 8 / 64) c (omega arith) (omega arith)
                  ∙ round_next 1 2 20 (c / 2 ^ 8 / 64 / 64) c (omega arith) (omega arith)
                  ∙ round_hit 0 3 26 (c / 2 ^ 8 / 64 / 64 / 64) c (omega arith) (omega arith)))
                (omega arith, omega arith)
        ]
      ]
    ]
  ])
]
  where
    skip : c ≢ 0 → moved c ≡ shift_place 4 0 time_near (c / 2 ^ 8) c
    skip nz = ground arith
