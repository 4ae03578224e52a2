-- ===== src/Common/Bits.antt =====
-- `&`, `|` with low masks and disjoint fields, as arithmetic, at every width.
use Prim.Native.Nat.{ℕ, zero, suc, ◌+◌, ◌-◌, ◌*◌, ◌/◌, ◌%◌, ◌^◌, ◌∣◌, ◌≤◌, ◌<◌, min, max}
use Prim.Native.Nat.{digits, bitwise, bit_and, bit_or, bit_and-bitwise, bit_or-bitwise}
use mathlib.Core.Path.{◌≡◌, refl, subst, ap, ap₂, sym, ◌∙◌}
use native.Mathlib.Nat.{
  mod-mod_of_dvd, mul-add-mod_self_right, dvd_refl, dvd_trans, dvd-mul_right, pow-suc, one-le-pow,
  mul-add-div_right, mod-lt, div-add-mod', div-eq_of_lt,
}
use mathlib.Core.Logic.{◌↔◌}
use native.Mathlib.Decide.{dec_le}
use native.Mathlib.Omega.{arith}
use skynet_server.Common.{◌↔◌}

-- The rounds that the definition of a bitwise operation spends do not matter, if they are enough.
rounds :
    (z : ℕ → ℕ) (f : ℕ → ℕ → ℕ) (a b n m : ℕ) → a ≤ n → a ≤ m → digits z f n a b ≡ digits z f m a b
rounds z f zero b zero zero p q = refl
rounds z f zero b zero (suc m) p q = refl
rounds z f zero b (suc n) zero p q = refl
rounds z f zero b (suc n) (suc m) p q = refl
rounds z f (suc a) b zero m p q = absurd (omega arith)
rounds z f (suc a) b (suc n) zero p q = absurd (omega arith)
rounds z f (suc a) b (suc n) (suc m) p q =
    ap (λ t. t * 2 + f (suc a % 2) (b % 2))
      (rounds z f (suc a / 2) (b / 2) n m (omega arith) (omega arith))

lowest :
    (z : ℕ → ℕ) (f : ℕ → ℕ → ℕ) (a b : ℕ)
    → bitwise z f (suc a) b ≡ bitwise z f (suc a / 2) (b / 2) * 2 + f (suc a % 2) (b % 2)
lowest z f a b =
    ap (λ t. t * 2 + f (suc a % 2) (b % 2))
      (rounds z f (suc a / 2) (b / 2) a (suc a / 2) (omega arith) (omega arith))

-- One binary digit of `&` and of `|`.
and_digit : (a b : ℕ) → bit_and a b ≡ bit_and (a / 2) (b / 2) * 2 + min (a % 2) (b % 2)
and_digit zero b = simp bit_and-bitwise (omega arith)
and_digit (suc a) b = simp bit_and-bitwise (lowest (λ t. 0) min a b)

or_digit : (a b : ℕ) → bit_or a b ≡ bit_or (a / 2) (b / 2) * 2 + max (a % 2) (b % 2)
or_digit zero b = simp bit_or-bitwise (omega arith)
or_digit (suc a) b = simp bit_or-bitwise (lowest (λ t. t) max a b)

and_nothing : (n a : ℕ) → a ≤ n → bit_and a 0 ≡ 0
and_nothing n zero h = refl
and_nothing zero (suc a) h = absurd (omega arith)
and_nothing (suc n) (suc a) h =
    omega (arith, and_digit (suc a) 0, and_nothing n (suc a / 2) (omega arith))

or_nothing : (n a : ℕ) → a ≤ n → bit_or a 0 ≡ a
or_nothing n zero h = refl
or_nothing zero (suc a) h = absurd (omega arith)
or_nothing (suc n) (suc a) h =
    omega (arith, or_digit (suc a) 0, or_nothing n (suc a / 2) (omega arith))

-- Dropping the lowest digit of a number made of two fields.
half_fields : (k q r : ℕ) → (q * 2 ^ suc k + r) / 2 ≡ q * 2 ^ k + r / 2
half_fields k q r = omega (arith, ap (λ (t : ℕ). q * t) (pow-suc 2 k))

low_fields : (k q r : ℕ) → (q * 2 ^ suc k + r) % 2 ≡ r % 2
low_fields k q r = omega (arith, ap (λ (t : ℕ). q * t) (pow-suc 2 k))

half_mask : (k : ℕ) → (2 ^ suc k - 1) / 2 ≡ 2 ^ k - 1
half_mask k = omega (arith, pow-suc 2 k, one-le-pow k 2)

low_mask : (k : ℕ) → (2 ^ suc k - 1) % 2 ≡ 1
low_mask k = omega (arith, pow-suc 2 k, one-le-pow k 2)

half-lt : (k r : ℕ) → r < 2 ^ suc k → r / 2 < 2 ^ k
half-lt k r h = omega (arith, pow-suc 2 k)

-- `x & (2^k - 1)`, for `x = q * 2^k + r`.
and_fields : (k q r : ℕ) → r < 2 ^ k → bit_and (q * 2 ^ k + r) (2 ^ k - 1) ≡ r
and_fields zero q r h = and_nothing (q * 2 ^ 0 + r) (q * 2 ^ 0 + r) (omega arith) ∙ omega arith
and_fields (suc k) q r h = omega (
  arith,
  and_digit (q * 2 ^ suc k + r) (2 ^ suc k - 1),
  low_fields k q r,
  low_mask k,
  ap₂ bit_and (half_fields k q r) (half_mask k) ∙ and_fields k q (r / 2) (half-lt k r h),
)

-- A low mask is a remainder.
pub and-mask : (k a : ℕ) → bit_and a (2 ^ k - 1) ≡ a % 2 ^ k
and-mask k a =
    ap (λ t. bit_and t (2 ^ k - 1)) (sym (div-add-mod' a (2 ^ k)))
    ∙ and_fields k (a / 2 ^ k) (a % 2 ^ k) (mod-lt a (one-le-pow k 2 (omega arith)))

-- `|` of a field and of what fits below it is their sum.
pub or-fields : (k q r : ℕ) → r < 2 ^ k → bit_or (q * 2 ^ k) r ≡ q * 2 ^ k + r
or-fields zero q r h =
    ap (bit_or (q * 2 ^ 0)) (omega arith)
    ∙ or_nothing (q * 2 ^ 0) (q * 2 ^ 0) (omega arith)
    ∙ omega arith
or-fields (suc k) q r h = omega (
  arith,
  or_digit (q * 2 ^ suc k) r,
  ap (λ (t : ℕ). q * t) (pow-suc 2 k),
  ap (λ t. bit_or t (r / 2)) half ∙ or-fields k q (r / 2) (half-lt k r h),
)
  where
    half : q * 2 ^ suc k / 2 ≡ q * 2 ^ k
    half = omega (arith, ap (λ (t : ℕ). q * t) (pow-suc 2 k))

-- `|` with a low mask fills the low field with ones.
pub or-mask : (k q r : ℕ) → r < 2 ^ k → bit_or (q * 2 ^ k + r) (2 ^ k - 1) ≡ q * 2 ^ k + (2 ^ k - 1)
or-mask zero q r h = or_nothing (q * 2 ^ 0 + r) (q * 2 ^ 0 + r) (omega arith) ∙ omega arith
or-mask (suc k) q r h = omega (
  arith,
  or_digit (q * 2 ^ suc k + r) (2 ^ suc k - 1),
  low_fields k q r,
  low_mask k,
  pow-suc 2 k,
  one-le-pow k 2,
  ap (λ (t : ℕ). q * t) (pow-suc 2 k),
  ap₂ bit_or (half_fields k q r) (half_mask k) ∙ or-mask k q (r / 2) (half-lt k r h),
)

-- `x | (2^k - 1)`.
pub fill : (k a : ℕ) → bit_or a (2 ^ k - 1) ≡ a / 2 ^ k * 2 ^ k + (2 ^ k - 1)
fill k a =
    ap (λ t. bit_or t (2 ^ k - 1)) (sym (div-add-mod' a (2 ^ k)))
    ∙ or-mask k (a / 2 ^ k) (a % 2 ^ k) (mod-lt a (one-le-pow k 2 (omega arith)))

field_of_filled : (k q : ℕ) → (q * 2 ^ k + (2 ^ k - 1)) / 2 ^ k ≡ q
field_of_filled k q =
    mul-add-div_right (one-le-pow k 2 (omega arith)) q (2 ^ k - 1)
    ∙ ap (λ t. q + t) (div-eq_of_lt (omega (arith, one-le-pow k 2 (omega arith))))
    ∙ omega arith

-- Two numbers agree when their low fields are filled with ones exactly when their high fields do.
pub or-mask_iff :
    (k a b : ℕ) → (bit_or a (2 ^ k - 1) ≡ bit_or b (2 ^ k - 1)) ↔ (a / 2 ^ k ≡ b / 2 ^ k)
or-mask_iff k a b = (
  λ e.
      sym (field_of_filled k (a / 2 ^ k))
      ∙ ap (λ t. t / 2 ^ k) (sym (fill k a) ∙ e ∙ fill k b)
      ∙ field_of_filled k (b / 2 ^ k),
  λ e. fill k a ∙ ap (λ t. t * 2 ^ k + (2 ^ k - 1)) e ∙ sym (fill k b),
)

-- The same with the field behind.
pub or-below : (k q r : ℕ) → r < 2 ^ k → bit_or r (q * 2 ^ k) ≡ q * 2 ^ k + r
or-below zero q zero h = simp bit_or-bitwise (omega arith)
or-below zero q (suc r) h = absurd (omega arith)
or-below (suc k) q r h = omega (
  arith,
  or_digit r (q * 2 ^ suc k),
  ap (λ (t : ℕ). q * t) (pow-suc 2 k),
  ap (bit_or (r / 2)) half ∙ or-below k q (r / 2) (half-lt k r h),
)
  where
    half : q * 2 ^ suc k / 2 ≡ q * 2 ^ k
    half = omega (arith, ap (λ (t : ℕ). q * t) (pow-suc 2 k))

pub pow-dvd-pow : (k n : ℕ) → k ≤ n → 2 ^ k ∣ 2 ^ n
pow-dvd-pow k zero h = let e : 0 ≡ k = omega arith in subst (λ j. 2 ^ j ∣ 2 ^ 0) e (dvd_refl 1)
pow-dvd-pow k (suc n) h = elim (dec_le k n) [
  | yes le ↦ dvd_trans (2 ^ k) (pow-dvd-pow k n le) (rw (pow-suc 2 n) (dvd-mul_right (2 ^ n) 2))
  | no gt ↦
      let e : suc n ≡ k = omega arith in subst (λ j. 2 ^ j ∣ 2 ^ suc n) e (dvd_refl (2 ^ suc n))
]

-- A remainder by a power of two does not see the bits above.
pub mod-above : (k n q r : ℕ) → k ≤ n → (q * 2 ^ n + r) % 2 ^ k ≡ r % 2 ^ k
mod-above k n q r h =
    sym (mod-mod_of_dvd (2 ^ k) (q * 2 ^ n + r) (pow-dvd-pow k n h))
    ∙ ap (λ t. t % 2 ^ k) (mul-add-mod_self_right q (2 ^ n) r)
    ∙ mod-mod_of_dvd (2 ^ k) r (pow-dvd-pow k n h)
