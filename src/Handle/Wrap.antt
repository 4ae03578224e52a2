-- ===== src/Handle/Wrap.antt =====
-- `skynet_handle_register` near the end of the handles.
use skynet_server.Common.{
  ℕ, zero, suc, ◌+◌, ◌-◌, ◌*◌, ◌%◌, ◌^◌, ◌≤◌, ◌<◌, ◌≡◌, ◌≢◌, Option, none, arith, false, inr, sym,
  inl, subst, ◌∙◌, ap, mod-eq_of_lt, mod-lt, refl, replicate, ℕ_discrete, Bool-cases, List, dvd-sub,
  leb, dvd_of_mod-eq-zero, le_of_dvd, true,
}
use skynet_server.Handle.{Storage, slot_at, hash, scan, grow, register, rehash, handle_mask, wrap}
use skynet_server.Handle.Slots.{IsValid, hash-mod, size_pos}
use skynet_server.Common.Options.{is_none, ◌>>=◌}
use skynet_server.Common.Bits.{pow-dvd-pow}
use skynet_server.Handle.Fresh.{register-grow}

-- Past the end of the handles the scan goes on at 1, and the handle 0 is never tried.
scan_low :
    (n : ℕ) (s : Storage) (b x : ℕ)
    → s.slot_size ≡ 2 ^ b
    → s.slot_size ≤ 2 ^ 24
    → ((k : ℕ) → 0 < k → k < s.slot_size → is_none (slot_at s k) ≡ false)
    → 0 < x
    → x + n ≤ s.slot_size
    → scan n s x ≡ none
unfolding scan
scan_low zero s b x p fits full pos le = refl
scan_low (suc n) s b x p fits full pos le =
    rw (stay, taken) (scan_low n s b (x + 1) p fits full (omega arith) (omega arith))
  where
    stay : wrap x ≡ x
    stay = ground arith

    taken : is_none (slot_at s (hash s x)) ≡ false
    taken =
        subst (λ t. is_none (slot_at s t) ≡ false)
          (sym (hash-mod s b x p ∙ mod-eq_of_lt (omega arith))) (full x pos (omega arith))

mod_before_end : (b x : ℕ) → b ≤ 24 → x < 2 ^ 24 → 2 ^ 24 < x + 2 ^ b → 0 < x % 2 ^ b
mod_before_end b x small lt near = elim (ℕ_discrete (x % 2 ^ b) 0) [
  | yes e ↦
      let gap = dvd-sub (2 ^ b) (pow-dvd-pow b 24 small) (dvd_of_mod-eq-zero (2 ^ b) e) in
      absurd (omega (arith, le_of_dvd (omega arith) gap))
  | no ne ↦ omega arith
]

scan_high :
    (n : ℕ) (s : Storage) (b x : ℕ)
    → s.slot_size ≡ 2 ^ b
    → b ≤ 24
    → s.slot_size ≤ 2 ^ 24
    → ((k : ℕ) → 0 < k → k < s.slot_size → is_none (slot_at s k) ≡ false)
    → x ≤ 2 ^ 24
    → 2 ^ 24 < x + s.slot_size
    → x + n < 2 ^ 24 + s.slot_size
    → scan n s x ≡ none
unfolding scan
scan_high zero s b x p small fits full le near room = refl
scan_high (suc n) s b x p small fits full le near room = elim (ℕ_discrete x (2 ^ 24)) [
  | yes end ↦
      let top : wrap x ≡ 1 = ground arith in
      rw (top, first (omega arith)) (scan_low n s b 2 p fits full (omega arith) (omega arith))
  | no before ↦
      rw (stay before, taken before)
        (scan_high n s b (x + 1) p small fits full (omega arith) (omega arith) (omega arith))
]
  where
    first : 1 < s.slot_size → is_none (slot_at s (hash s 1)) ≡ false
    first two =
        subst (λ t. is_none (slot_at s t) ≡ false) (sym (hash-mod s b 1 p ∙ mod-eq_of_lt two))
          (full 1 (omega arith) two)

    stay : x ≢ 2 ^ 24 → wrap x ≡ x
    stay ne = ground arith

    taken : x ≢ 2 ^ 24 → is_none (slot_at s (hash s x)) ≡ false
    taken ne =
        full (hash s x)
          (rw (hash-mod s b x p, p) (mod_before_end b x small (omega arith) (omega (arith, p))))
          (rw (hash-mod s b x p) (mod-lt x (size_pos s b p)))

rehash_null :
    (handle_of : ℕ → ℕ) (s : Storage) (new : List (Option ℕ))
    → 0 < s.slot_size
    → slot_at s 0 ≡ none
    → rehash s.slot_size handle_of s 0 new ≡ none
rehash_null handle_of s new pos free =
    ap (λ n. rehash n handle_of s 0 new) (omega arith) ∙ start (s.slot_size - 1)
  where
    start : (n : ℕ) → rehash (suc n) handle_of s 0 new ≡ none
    start n = unfold rehash in rw free

grow_null :
    (handle_of : ℕ → ℕ) (s : Storage)
    → rehash s.slot_size handle_of s 0 (replicate (s.slot_size * 2) none) ≡ none
    → grow handle_of s ≡ none
unfolding grow
grow_null handle_of s e = elim (Bool-cases (leb (s.slot_size * 2 - 1) handle_mask)) [
  | inl fits ↦ rw (fits, e)
  | inr big ↦ rw big
]

register_out : (handle_of : ℕ → ℕ) (ctx : ℕ) (s : Storage) → register 0 handle_of ctx s ≡ none
unfolding register
register_out handle_of ctx s = refl

-- On a table of at most 2^23 slots whose only free slot is slot 0, with a handle in the last
-- `slot_size` before the end to start from, `skynet_handle_register` finds no slot and passes the
-- assert on the size. It then fails in moving the contexts, whose first slot is free, and returns on
-- no number of rounds.
pub register_null :
    (handle_of : ℕ → ℕ) (ctx fuel : ℕ) (s : Storage)
    → IsValid handle_of s
    → s.slot_size ≤ 2 ^ 23
    → slot_at s 0 ≡ none
    → ((k : ℕ) → 0 < k → k < s.slot_size → is_none (slot_at s k) ≡ false)
    → s.handle_index ≤ handle_mask
    → 2 ^ 24 < s.handle_index + s.slot_size
    → (scan s.slot_size s s.handle_index ≡ none)
      × (leb (s.slot_size * 2 - 1) handle_mask ≡ true)
      × (rehash s.slot_size handle_of s 0 (replicate (s.slot_size * 2) none) ≡ none)
      × (register fuel handle_of ctx s ≡ none)
register_null handle_of ctx fuel s v small free full le near =
    (missed, ground arith, crash, never fuel)
  where
    fits : s.slot_size ≤ 2 ^ 24
    fits = omega arith

    missed : scan s.slot_size s s.handle_index ≡ none
    missed =
        scan_high s.slot_size s v.bits s.handle_index v.size v.small fits full v.index_le near
          (omega arith)

    crash : rehash s.slot_size handle_of s 0 (replicate (s.slot_size * 2) none) ≡ none
    crash = rehash_null handle_of s _ (size_pos s v.bits v.size) free

    stuck : grow handle_of s ≡ none
    stuck = grow_null handle_of s crash

    never : (fuel : ℕ) → register fuel handle_of ctx s ≡ none
    never zero = register_out handle_of ctx s
    never (suc fuel) =
        register-grow fuel handle_of ctx s missed
        ∙ ap (λ o. o >>= register fuel handle_of ctx) stuck
