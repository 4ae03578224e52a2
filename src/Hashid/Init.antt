-- ===== src/Hashid/Init.antt =====
-- `hashid_init`: the number of hash cells, and the empty table.
use skynet_server.Common.{
  ℕ, zero, suc, inl, inr, refl, none, ◌≡◌, ◌≤◌, ◌^◌, ◌+◌, ◌-◌, arith, sym, ap, ◌*◌, ◌∙◌, pow-suc,
  Bool-cases, ltb, one-le-pow,
}
use skynet_server.Hashid.{hash_cap, init}
use skynet_server.Hashid.Chains.{used, IsValid}

hash_cap-grows :
    (fuel max b : ℕ)
    → max ≤ 2 ^ b + fuel
    → (c : ℕ) × (hash_cap fuel max (2 ^ b) ≡ 2 ^ c) × (max ≤ 2 ^ c) × (b ≤ c)
unfolding hash_cap
hash_cap-grows zero max b le = (b, refl, omega arith, omega arith)
hash_cap-grows (suc fuel) max b le = elim (Bool-cases (ltb (2 ^ b) max)) [
  | inr stop ↦ (b, rw stop refl, ground arith, omega arith)
  | inl more ↦
      let (c, run, enough, above) =
        hash_cap-grows fuel max (b + 1) (omega (arith, twice, one-le-pow b 2 (omega arith))) in
      (c, rw more (ap (hash_cap fuel max) (sym twice) ∙ run), enough, omega arith)
]
  where
    twice : 2 ^ (b + 1) ≡ 2 ^ b * 2
    twice = ap (λ n. 2 ^ n) (let e : b + 1 ≡ suc b = omega arith in e) ∙ pow-suc 2 b

used-none : (n : ℕ) → used n (λ c. none) ≡ 0
used-none zero = refl
used-none (suc n) = used-none n

-- `hashid_init`: the loop ends with a power of two that is at least `max` and at least 16, less one
-- of which is the mask of the hash, and the table is valid and empty.
pub init_lem :
    (max : ℕ)
    → (c : ℕ) × ((init max).hashmod ≡ 2 ^ c - 1)
      × (max ≤ 2 ^ c)
      × (4 ≤ c)
      × IsValid (init max)
      × ((init max).cap ≡ max)
      × ((init max).count ≡ 0)
unfolding init
init_lem max =
    let (c, run, enough, above) = hash_cap-grows max max 4 (omega arith) in
    (c, ap (λ n. n - 1) run, enough, above, empty, refl, refl)
  where
    empty : IsValid (init max)
    empty = record {
      chained = λ k y lt e. cc;
      placed = λ h k a. absurd a;
      distinct = λ h. tt;
      once = λ a b y p q e f. cc;
      counted = sym (used-none max);
    }
